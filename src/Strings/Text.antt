-- ===== src/Strings/Text.antt =====
-- What a C string stands for, and `strlen` and `strnlen` of it.
use os_kernel_application_si.Base.{
  ℕ, zero, suc, ◌+◌, ◌≡◌, ap, ◌∙◌, ◌≢◌, min, List, [], ◌∷◌, ◌++◌, arith, length, done, All,
}
use os_kernel_application_si.Strings.{strlen, strlen_loop, strnlen, strnlen_loop}

abbrev pub NonZero : List ℕ → Type 0
NonZero t = All (λ c. c ≢ 0) t

-- The bytes at `s` are the text `t`, a 0, and anything.
pub record IsText (s t : List ℕ) : Type 0 where
  pub rest : List ℕ
  pub bytes : s ≡ t ++ (0 ∷ rest)
  pub nonzero : NonZero t

strlen_loop-length :
    (t r : List ℕ) (i : ℕ) → NonZero t → strlen_loop (t ++ (0 ∷ r)) i ≡ done (i + length t)
unfolding strlen_loop
strlen_loop-length [] r i nz = ap done (omega arith)
strlen_loop-length (c ∷ t) r i nz = ground (arith, nz.0, strlen_loop-length t r (i + 1) nz.1)

pub strlen-length : {s t : List ℕ} → IsText s t → strlen s ≡ done (length t)
unfolding strlen
strlen-length {t} is =
    rw is.bytes (strlen_loop-length t is.rest 0 is.nonzero ∙ ap done (omega arith))

strnlen_loop-length :
    (n : ℕ) (t r : List ℕ) (i : ℕ)
    → NonZero t
    → strnlen_loop n (t ++ (0 ∷ r)) i ≡ done (i + min n (length t))
unfolding strnlen_loop
strnlen_loop-length zero t r i nz = ap done (omega arith)
strnlen_loop-length (suc n) [] r i nz = ap done (omega arith)
strnlen_loop-length (suc n) (c ∷ t) r i nz =
    ground (arith, nz.0, strnlen_loop-length n t r (i + 1) nz.1)

-- `strnlen` of a text gives the lesser of its bound and the length.
pub strnlen-length :
    {s t : List ℕ} (max : ℕ) → IsText s t → strnlen s max ≡ done (min max (length t))
unfolding strnlen
strnlen-length {t} max is =
    rw is.bytes (strnlen_loop-length max t is.rest 0 is.nonzero ∙ ap done (omega arith))
