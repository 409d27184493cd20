-- ===== src/Task/Removal.antt =====
-- task.c, `task_list_remove`.
use os_kernel_application_si.Base.{
  ℕ, suc, ◌-◌, ◌≤◌, ◌<◌, ◌≡◌, refl, sym, ap, ◌∙◌, ◌≢◌, inl, inr, true, false, List, and_then, ◌∷◌,
  ◌==◌, if◌then◌else◌, arith, Bool-cases, ==_iff, ltb, ltb→lt, length, done,
}
use os_kernel_application_si.Task.{
  TaskData, TaskList, update, unlink_prev, unlink_ends, task_get_next, task_list_remove,
}
use os_kernel_application_si.Task.Linked.{place, IsForward, IsTaskList, update_self, update_ne}
use os_kernel_application_si.Task.Deletion.{
  delete, length-delete, place-delete_lt, place-delete_ge, first_or_later, later, origin,
  origin-place, origin-within, origin-injective,
}

-- The current task once the one at place `k` is gone
unfoldable pub current_after : TaskList → List ℕ → ℕ → ℕ
current_after l ids k =
    if place ids k == l.current_task
    then if place ids (suc k) == 0 then place (delete k ids) 0 else place ids (suc k)
    else l.current_task

module _ (l : TaskList) (ids : List ℕ) (k : ℕ) (is : IsTaskList l ids) (lt : k < length ids) where
  t : ℕ
  t = place ids k

  l1 : TaskList
  l1 = unlink_ends t (unlink_prev t l)

  t-next : (l.tasks t).next ≡ place ids (suc k)
  unfolding t
  t-next = is.forward.next k lt

  t-prev : (l.tasks t).prev ≡ place (0 ∷ ids) k
  unfolding t
  t-prev = is.prev k lt

  -- The links after the step, place by place
  tasks_first : k ≡ 0 → l1.tasks ≡ l.tasks
  unfolding l1 t unlink_ends unlink_prev
  tasks_first e =
      let p : (l.tasks (place ids k)).prev ≡ 0 = is.prev k lt ∙ ap (place (0 ∷ ids)) e in
      rw (p, unlink_prev) refl

  tasks_later :
      (j : ℕ)
      → k ≡ suc j
      → l1.tasks
        ≡ update l.tasks (place ids j) (record (l.tasks (place ids j)) { next = place ids (suc k) })
  unfolding l1 t unlink_ends unlink_prev
  tasks_later j e =
      let p : (l.tasks (place ids k)).prev ≡ place ids j = is.prev k lt ∙ ap (place (0 ∷ ids)) e in
      let real : (place ids j == 0) ≡ false =
        ground (arith, is.forward.real j (omega (arith, e, lt))) in
      rw (unlink_prev, p, real, is.forward.next k lt) refl

  next-other :
      (i : ℕ) → i < length ids → suc i ≢ k → (l1.tasks (place ids i)).next ≡ place ids (suc i)
  next-other i li ne = elim (first_or_later k) [
    | inl e ↦ rw (tasks_first e) (is.forward.next i li)
    | inr (j, e) ↦
        let apart : place ids i ≢ place ids j =
          λ q. ne (ap suc (is.forward.distinct i j li (omega (arith, e, lt)) q) ∙ sym e) in
        rw (tasks_later j e, update_ne l.tasks (place ids j) _ (place ids i) apart)
          (is.forward.next i li)
  ]

  next-before : (i : ℕ) → suc i ≡ k → (l1.tasks (place ids i)).next ≡ place ids (suc k)
  next-before i e = rw (tasks_later i (sym e), update_self l.tasks (place ids i) _)

  -- The links back are not touched.
  prev-same : (b : ℕ) → (l1.tasks b).prev ≡ (l.tasks b).prev
  prev-same b = elim (first_or_later k) [
    | inl e ↦ rw (tasks_first e)
    | inr (j, e) ↦ rw (tasks_later j e) (elim (Bool-cases (b == place ids j)) [
      | inl same ↦ rw ((==_iff b (place ids j)).0 same, update_self l.tasks (place ids j) _)
      | inr other ↦ rw (update_ne l.tasks (place ids j) _ b (λ e. ground arith))
    ])
  ]

  is_place : (i : ℕ) → i < length ids → (t == place ids i) ≡ (k == i)
  unfolding t
  is_place i li = elim (Bool-cases (k == i)) [
    | inl same ↦ let e = (==_iff k i).0 same in rw (same, e) (ground arith)
    | inr other ↦
        let ne : place ids k ≢ place ids i =
          λ q. let e = is.forward.distinct k i lt li q in ground arith in
        rw other (ground arith)
  ]

  t_next-l1 : (l1.tasks t).next ≡ place ids (suc k)
  unfolding t
  t_next-l1 = next-other k lt (λ e. omega (arith, e))

  head-l1 : l1.task_head ≡ place (delete k ids) 0
  unfolding l1 unlink_ends unlink_prev
  head-l1 = elim (first_or_later k) [
    | inl e ↦
        let here : (k == 0) ≡ true = ground (arith, e) in
        rw (is.forward.head, is_place 0 (omega (arith, lt)), here)
          (t_next-l1
            ∙ ap (λ j. place ids (suc j)) e
            ∙ sym (place-delete_ge k ids 0 (omega (arith, e))))
    | inr (j, e) ↦
        let here : (k == 0) ≡ false = ground (arith, e) in
        rw (is.forward.head, is_place 0 (omega (arith, lt)), here)
          (sym (place-delete_lt k ids 0 (omega (arith, e))))
  ]

  before_k : place (0 ∷ delete k ids) k ≡ place (0 ∷ ids) k
  before_k = elim (first_or_later k) [
    | inl e ↦ rw e refl
    | inr (j, e) ↦
        ap (place (0 ∷ delete k ids)) e
        ∙ place-delete_lt k ids j (omega (arith, e))
        ∙ ap (place (0 ∷ ids)) (sym e)
  ]

  tail-l1 : l1.task_tail ≡ place (0 ∷ delete k ids) (length (delete k ids))
  unfolding l1 unlink_ends unlink_prev
  tail-l1 =
      let len = length-delete k ids lt in
      elim (Bool-cases (k == length ids - 1)) [
        | inl last ↦
            let e = (==_iff k (length ids - 1)).0 last in
            let e' : length (delete k ids) ≡ k = omega (arith, e, len, lt) in
            rw (is.tail, is_place (length ids - 1) (omega (arith, lt)), last, e')
              (prev-same t ∙ t-prev ∙ sym before_k)
        | inr inner ↦
            let (m, e) = later (length (delete k ids)) (ground (arith, len)) in
            let e' : length ids - 1 ≡ suc m = omega (arith, e, len) in
            rw (is.tail, is_place (length ids - 1) (omega (arith, lt)), inner)
              (ap (place ids) e'
                ∙ sym (place-delete_ge k ids m (ground (arith, len, e)))
                ∙ ap (place (0 ∷ delete k ids)) (sym e))
      ]

  link :
      (i : ℕ)
      → i < length (delete k ids)
      → (l1.tasks (place (delete k ids) i)).next ≡ place (delete k ids) (suc i)
  link i li =
      let len = length-delete k ids lt in
      elim (Bool-cases (ltb (suc i) k)) [
        | inl low ↦
            let h = ltb→lt (suc i) k low in
            rw (place-delete_lt k ids i (omega (arith, h)), place-delete_lt k ids (suc i) h)
              (next-other i (omega (arith, h, lt)) (λ e. omega (arith, e, h)))
        | inr high ↦ elim (Bool-cases (suc i == k)) [
          | inl at ↦
              let e = (==_iff (suc i) k).0 at in
              rw
                (
                  place-delete_lt k ids i (omega (arith, e)),
                  place-delete_ge k ids (suc i) (omega (arith, e)),
                  next-before i e,
                )
                (ap (λ j. place ids (suc j)) (sym e))
          | inr past ↦
              let h : k ≤ i = ground arith in
              rw (place-delete_ge k ids i h, place-delete_ge k ids (suc i) (omega (arith, h)))
                (next-other (suc i) (omega (arith, len, li)) (λ e. omega (arith, e, h)))
        ]
      ]

  l1-IsForward : IsForward l1 (delete k ids)
  l1-IsForward = record {
    head = head-l1;
    next = link;
    real = λ i li.
        rw (origin-place k ids i) (is.forward.real (origin k i) (origin-within k ids i lt li));
    distinct = λ i j li lj e. origin-injective k i j (
        is.forward.distinct (origin k i) (origin k j) (origin-within k ids i lt li)
          (origin-within k ids j lt lj) (sym (origin-place k ids i) ∙ e ∙ origin-place k ids j));
  }

  current-l1 :
      (if t == l.current_task
        then if (l1.tasks t).next == 0 then l1.task_head else (l1.tasks t).next
        else l.current_task)
      ≡ current_after l ids k
  unfolding current_after t
  current-l1 = rw (t_next-l1, head-l1)

-- The list that `task_list_remove` leaves
unfoldable removed : ℕ → TaskList → TaskList
removed t l =
    let l1 = unlink_ends t (unlink_prev t l) in
    let n = (l1.tasks t).next in
    let after = if n == 0 then l1.task_head else n in
    record l1 { current_task = if t == l.current_task then after else l.current_task }

task_list_remove-removed :
    (t : ℕ) (l : TaskList) → t ≢ 0 → task_list_remove t l ≡ done (removed t l)
unfolding task_list_remove task_get_next unlink_ends unlink_prev removed
task_list_remove-removed t l ne =
    let real : (t == 0) ≡ false = ground arith in
    rw real (elim (Bool-cases (t == l.current_task)) [
      | inl same ↦
          let e = (==_iff t l.current_task).0 same in
          let real' : (l.current_task == 0) ≡ false = ground arith in rw (same, real', e)
      | inr other ↦ rw other
    ])

removed-next :
    (t : ℕ) (l : TaskList) (b : ℕ)
    → b ≢ (l.tasks t).prev
    → ((removed t l).tasks b).next ≡ (l.tasks b).next
unfolding removed unlink_ends unlink_prev
removed-next t l b ne = elim (Bool-cases ((l.tasks t).prev == 0)) [
  | inl none ↦ rw none
  | inr some ↦ rw some (ap (λ (d : TaskData). d.next) (update_ne l.tasks (l.tasks t).prev _ b ne))
]

-- From a well-formed list, `task_list_remove` of its task `k` returns a list that goes through the
-- other tasks, from its head to its tail, with the next task as the current one if that was
-- removed; the links back are left as they were.
pub task_list_remove-IsForward :
    (l : TaskList) (ids : List ℕ) (k : ℕ)
    → IsTaskList l ids
    → k < length ids
    → (l' : TaskList) × (task_list_remove (place ids k) l ≡ done l')
      × IsForward l' (delete k ids)
      × (l'.task_tail ≡ place (0 ∷ delete k ids) (length (delete k ids)))
      × (l'.current_task ≡ current_after l ids k)
      × ((b : ℕ) → (l'.tasks b).prev ≡ (l.tasks b).prev)
unfolding removed current_after unlink_ends unlink_prev l1 t
task_list_remove-IsForward l ids k is lt =
    let f = l1-IsForward l ids k is lt in
    (
      removed (place ids k) l,
      task_list_remove-removed (place ids k) l (is.forward.real k lt),
      record { head = f.head; next = f.next; real = f.real; distinct = f.distinct },
      tail-l1 l ids k is lt,
      current-l1 l ids k is lt,
      prev-same l ids k is lt,
    )

-- A second removal goes wrong: `task_list_remove` of a task in the middle of a well-formed list, and
-- then of the task behind it, leaves the list going from the task in front of both to the second
-- one, which is removed.
pub task_list_remove-task_list_remove :
    (l : TaskList) (ids : List ℕ) (k : ℕ)
    → IsTaskList l ids
    → suc (suc k) < length ids
    → (l' : TaskList) × (and_then
          (task_list_remove (place ids (suc k)) l)
          (task_list_remove (place ids (suc (suc k))))
        ≡ done l')
      × ((l'.tasks (place ids k)).next ≡ place ids (suc (suc k)))
task_list_remove-task_list_remove l ids k is lt =
    let t2 = place ids (suc (suc k)) in
    let (l1, run, forward, _, _, back) =
      task_list_remove-IsForward l ids (suc k) is (omega arith) in
    let link : (l1.tasks (place ids k)).next ≡ t2 =
      ap (λ a. (l1.tasks a).next) (sym (place-delete_lt (suc k) ids k (omega arith)))
      ∙ forward.next k (omega (arith, length-delete (suc k) ids (omega arith)))
      ∙ place-delete_ge (suc k) ids (suc k) (omega arith) in
    let stale : (l1.tasks t2).prev ≡ place ids (suc k) = back t2 ∙ is.prev (suc (suc k)) lt in
    let apart : place ids k ≢ (l1.tasks t2).prev =
      λ e. omega (arith, is.forward.distinct k (suc k) (omega arith) (omega arith) (e ∙ stale)) in
    (
      removed t2 l1,
      rw run (task_list_remove-removed t2 l1 (is.forward.real (suc (suc k)) lt)),
      removed-next t2 l1 (place ids k) apart ∙ link,
    )
