-- ===== src/Task/Linked.antt =====
-- task.c, `task_new`: the list of the tasks in the order of their creation.
use os_kernel_application_si.Base.{
  ℕ, zero, suc, ◌-◌, ◌≤◌, ◌<◌, ◌≡◌, refl, sym, ap, ◌∙◌, ◌≢◌, ◌⊎◌, inl, inr, List, [], ◌∷◌, ◌++◌,
  ◌==◌, arith, Bool-cases, ==_iff, length, get_or, length-append,
}
use os_kernel_application_si.Task.{TaskData, TaskList, update, task_new_link}

-- The address at place `i`, null behind the end
abbrev pub place : List ℕ → ℕ → ℕ
place ids i = get_or ids i 0

-- The list holds the tasks at `ids`, by its links from the head to the tail.
pub record IsForward (l : TaskList) (ids : List ℕ) : Type 0 where
  pub head : l.task_head ≡ place ids 0
  pub next : (i : ℕ) → i < length ids → (l.tasks (place ids i)).next ≡ place ids (suc i)
  pub real : (i : ℕ) → i < length ids → place ids i ≢ 0
  pub distinct : (i j : ℕ) → i < length ids → j < length ids → place ids i ≡ place ids j → i ≡ j

-- And by the links back.
pub record IsTaskList (l : TaskList) (ids : List ℕ) : Type 0 where
  pub forward : IsForward l ids
  pub tail : l.task_tail ≡ place ids (length ids - 1)
  pub prev : (i : ℕ) → i < length ids → (l.tasks (place ids i)).prev ≡ place (0 ∷ ids) i

pub update_self : (ts : ℕ → TaskData) (a : ℕ) (t : TaskData) → update ts a t a ≡ t
unfolding update
update_self ts a t = ground arith

pub update_ne : (ts : ℕ → TaskData) (a : ℕ) (t : TaskData) (b : ℕ) → b ≢ a → update ts a t b ≡ ts b
unfolding update
update_ne ts a t b ne = ground arith

pub place-beyond : (ids : List ℕ) (i : ℕ) → length ids ≤ i → place ids i ≡ 0
place-beyond [] i h = refl
place-beyond (x ∷ ids) zero h = absurd (omega arith)
place-beyond (x ∷ ids) (suc i) h = place-beyond ids i (omega arith)

place-append_lt :
    (ids : List ℕ) (t i : ℕ) → i < length ids → place (ids ++ (t ∷ [])) i ≡ place ids i
place-append_lt [] t i h = absurd (omega arith)
place-append_lt (x ∷ ids) t zero h = refl
place-append_lt (x ∷ ids) t (suc i) h = place-append_lt ids t i (omega arith)

place-append_end : (ids : List ℕ) (t i : ℕ) → i ≡ length ids → place (ids ++ (t ∷ [])) i ≡ t
place-append_end [] t zero h = refl
place-append_end [] t (suc i) h = absurd (omega arith)
place-append_end (x ∷ ids) t zero h = absurd (omega arith)
place-append_end (x ∷ ids) t (suc i) h = place-append_end ids t i (omega arith)

before_place :
    (ids : List ℕ) (t i : ℕ) → i ≤ length ids → place (0 ∷ (ids ++ (t ∷ []))) i ≡ place (0 ∷ ids) i
before_place ids t zero h = refl
before_place ids t (suc i) h = place-append_lt ids t i (omega arith)

before_end :
    (ids : List ℕ) (i : ℕ)
    → i ≡ length ids
    → 0 < length ids
    → place ids (length ids - 1) ≡ place (0 ∷ ids) i
before_end ids zero e lt = absurd (omega arith)
before_end ids (suc i) e lt = ap (place ids) (omega (arith, e))

-- A place of the longer list is one of the shorter, or the new end.
at_place :
    (ids : List ℕ) (t i : ℕ) → i < length (ids ++ (t ∷ [])) → (i < length ids) ⊎ (i ≡ length ids)
at_place ids t i h = ground (arith, length-append ids (t ∷ []))

-- The tasks once the one at `t` is linked behind the one at `last`
unfoldable linked : (ℕ → TaskData) → ℕ → ℕ → ℕ → TaskData
linked tasks t last =
    let ts = update tasks last (record (tasks last) { next = t }) in
    update ts t (record (ts t) { prev = last })

module _ (tasks : ℕ → TaskData) (t last : ℕ) (ne : last ≢ t) where
  linked-last_next : (linked tasks t last last).next ≡ t
  unfolding linked
  linked-last_next = rw (update_ne _ t _ last ne, update_self tasks last _)

  linked-new_next : (linked tasks t last t).next ≡ (tasks t).next
  unfolding linked
  linked-new_next = rw (update_self _ t _, update_ne tasks last _ t (λ e. ne (sym e)))

  linked-new_prev : (linked tasks t last t).prev ≡ last
  unfolding linked
  linked-new_prev = rw (update_self _ t _)

  linked-old_prev : (a : ℕ) → a ≢ t → (linked tasks t last a).prev ≡ (tasks a).prev
  unfolding linked
  linked-old_prev a na = rw (update_ne _ t _ a na) (elim (Bool-cases (a == last)) [
    | inl same ↦ let e = (==_iff a last).0 same in rw (e, update_self tasks last _)
    | inr other ↦ rw (update_ne tasks last _ a (λ e. ground arith))
  ])

  linked-old_next : (a : ℕ) → a ≢ t → a ≢ last → (linked tasks t last a).next ≡ (tasks a).next
  unfolding linked
  linked-old_next a na nl = rw (update_ne _ t _ a na, update_ne tasks last _ a nl)

module _ (l : TaskList) (t : ℕ) (ne : t ≢ 0) (clear : (l.tasks t).next ≡ 0) where
  append_one :
      l.task_head ≢ 0
      → task_new_link t l ≡ record l { tasks = linked l.tasks t l.task_tail; task_tail = t }
  unfolding task_new_link linked
  append_one h = ground arith

  module _ (ids : List ℕ) (is : IsTaskList l ids)
      (fresh : (i : ℕ) → i < length ids → place ids i ≢ t) (some : 0 < length ids) where
    last : ℕ
    last = place ids (length ids - 1)

    ids' : List ℕ
    ids' = ids ++ (t ∷ [])

    last-fresh : last ≢ t
    unfolding last
    last-fresh = fresh (length ids - 1) (omega (arith, some))

    next' :
        (i : ℕ)
        → (i < length ids) ⊎ (i ≡ length ids)
        → (linked l.tasks t last (place ids' i)).next ≡ place ids' (suc i)
    unfolding last ids'
    next' i (inr e) = rw (
      place-append_end ids t i e,
      linked-new_next l.tasks t last last-fresh,
      clear,
      place-beyond (ids ++ (t ∷ [])) (suc i) (omega (arith, e, length-append ids (t ∷ []))),
    )
    next' i (inl lt) = rw (place-append_lt ids t i lt) (elim (Bool-cases (suc i == length ids)) [
      | inl end ↦
          let e = (==_iff (suc i) (length ids)).0 end in
          let e' : i ≡ length ids - 1 = omega (arith, e) in
          rw (place-append_end ids t (suc i) e, e') (linked-last_next l.tasks t last last-fresh)
      | inr more ↦
          let lt' : suc i < length ids = ground arith in
          rw (
            place-append_lt ids t (suc i) lt',
            linked-old_next l.tasks t last last-fresh (place ids i) (fresh i lt) (λ e.
                let e' = is.forward.distinct i (length ids - 1) lt (omega (arith, some)) e in
                omega (arith, e', lt')),
            is.forward.next i lt,
          )
    ])

    prev' :
        (i : ℕ)
        → (i < length ids) ⊎ (i ≡ length ids)
        → (linked l.tasks t last (place ids' i)).prev ≡ place (0 ∷ ids') i
    unfolding last ids'
    prev' i (inr e) =
        rw
          (
            place-append_end ids t i e,
            linked-new_prev l.tasks t last last-fresh,
            before_place ids t i (omega (arith, e)),
          )
          (before_end ids i e some)
    prev' i (inl lt) =
        rw
          (
            place-append_lt ids t i lt,
            linked-old_prev l.tasks t last last-fresh (place ids i) (fresh i lt),
            before_place ids t i (omega arith),
          )
          (is.prev i lt)

    real' : (i : ℕ) → (i < length ids) ⊎ (i ≡ length ids) → place ids' i ≢ 0
    unfolding ids'
    real' i (inl lt) = rw (place-append_lt ids t i lt) (is.forward.real i lt)
    real' i (inr e) = rw (place-append_end ids t i e) ne

    distinct' :
        (i j : ℕ)
        → (i < length ids) ⊎ (i ≡ length ids)
        → (j < length ids) ⊎ (j ≡ length ids)
        → place ids' i ≡ place ids' j
        → i ≡ j
    unfolding ids'
    distinct' i j (inl a) (inl b) e =
        is.forward.distinct i j a b
          (sym (place-append_lt ids t i a) ∙ e ∙ place-append_lt ids t j b)
    distinct' i j (inl a) (inr b) e =
        absurd (fresh i a (sym (place-append_lt ids t i a) ∙ e ∙ place-append_end ids t j b))
    distinct' i j (inr a) (inl b) e =
        absurd (fresh j b (sym (place-append_lt ids t j b) ∙ sym e ∙ place-append_end ids t i a))
    distinct' i j (inr a) (inr b) e = omega (arith, a, b)

    task_new_link-append : IsTaskList (task_new_link t l) (ids ++ (t ∷ []))
    unfolding last ids'
    task_new_link-append =
        let nonempty = is.forward.real 0 some in
        rw (append_one (λ e. nonempty (sym is.forward.head ∙ e)), is.tail)
          (record {
            forward = record {
              head = is.forward.head ∙ sym (place-append_lt ids t 0 some);
              next = λ i lt. next' i (at_place ids t i lt);
              real = λ i lt. real' i (at_place ids t i lt);
              distinct = λ i j li lj. distinct' i j (at_place ids t i li) (at_place ids t j lj);
            };
            tail = sym (
                place-append_end ids t (length (ids ++ (t ∷ [])) - 1)
                  (omega (arith, length-append ids (t ∷ []))));
            prev = λ i lt. prev' i (at_place ids t i lt);
          })

link_first :
    (l : TaskList) (t : ℕ)
    → IsTaskList l []
    → t ≢ 0
    → (l.tasks t).next ≡ 0
    → (l.tasks t).prev ≡ 0
    → IsTaskList (task_new_link t l) (t ∷ [])
unfolding task_new_link
link_first l t is ne n p = rw is.forward.head (record {
  forward = record {
    head = refl;
    next = λ i lt. rw (zero_below i lt) n;
    real = λ i lt. rw (zero_below i lt) ne;
    distinct = λ i j li lj e. omega arith;
  };
  tail = refl;
  prev = λ i lt. rw (zero_below i lt) p;
})
  where
    zero_below : (i : ℕ) → i < 1 → i ≡ 0
    zero_below i lt = omega arith

-- The links that `task_new` sets append a task that is not in the list and whose links are null.
pub task_new_link-IsTaskList :
    (l : TaskList) (ids : List ℕ) (t : ℕ)
    → IsTaskList l ids
    → t ≢ 0
    → ((i : ℕ) → i < length ids → place ids i ≢ t)
    → (l.tasks t).next ≡ 0
    → (l.tasks t).prev ≡ 0
    → IsTaskList (task_new_link t l) (ids ++ (t ∷ []))
task_new_link-IsTaskList l [] t is ne fresh n p = link_first l t is ne n p
task_new_link-IsTaskList l (x ∷ ids) t is ne fresh n p =
    task_new_link-append l t ne n (x ∷ ids) is fresh (omega arith)
