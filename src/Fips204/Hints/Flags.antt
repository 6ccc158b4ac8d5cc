-- ===== src/Fips204/Hints/Flags.antt =====
-- The row of flags that a rising list of places stands for, in the hints of mldsa_fips204.h.
use mathlib.Core.Path.{ap₂}
use bht_bhte.Prelude.{
  ℕ, zero, suc, ◌+◌, ◌<◌, ◌≡◌, refl, sym, ap, Bool, true, false, List, [], ◌∷◌, ◌==◌, length,
  if◌then◌else◌, arith, All, subst,
}
use bht_bhte.Fips204.Hints.Packed.{ones}
use bht_bhte.Fips204.Hints.RoundTrip.{Rising}

abbrev pub IsByte : ℕ → Type 0
IsByte b = b < 256

-- Whether a list begins with `lo`, and the list without it.
abbrev pub is_next : ℕ → List ℕ → Bool
is_next lo [] = false
is_next lo (j ∷ js) = j == lo

abbrev pub after : ℕ → List ℕ → List ℕ
after lo [] = []
after lo (j ∷ js) = if j == lo then js else j ∷ js

-- The n flags from `lo` on, with ones at the numbers of a rising list.
abbrev pub flags_at : ℕ → ℕ → List ℕ → List Bool
flags_at lo zero js = []
flags_at lo (suc n) js = is_next lo js ∷ flags_at (lo + 1) n (after lo js)

pub length-flags_at : (lo n : ℕ) (js : List ℕ) → length (flags_at lo n js) ≡ n
length-flags_at lo zero js = refl
length-flags_at lo (suc n) js = ap suc (length-flags_at (lo + 1) n (after lo js))

-- One flag more, when those behind it are right.
next_flag :
    (b : Bool) (lo n j : ℕ) (js : List ℕ)
    → (j == lo) ≡ b
    → Rising lo (j ∷ js)
    → All IsByte (j ∷ js)
    → ((l : List ℕ) → Rising (lo + 1) l → All IsByte l → ones (lo + 1) (flags_at (lo + 1) n l) ≡ l)
    → ones lo (flags_at lo (suc n) (j ∷ js)) ≡ j ∷ js
next_flag true lo n j js e (r, rs) (b, bs) behind =
    let same : lo ≡ j = ground arith in
    rw e (ap₂ ◌∷◌ same (behind js (subst (λ m. Rising (m + 1) js) (sym same) rs) bs))
next_flag false lo n j js e (r, rs) (b, bs) behind =
    rw e (behind (j ∷ js) (ground arith, rs) (b, bs))

pub ones-flags_at :
    (lo n : ℕ) (js : List ℕ)
    → lo + n ≡ 256
    → Rising lo js
    → All IsByte js
    → ones lo (flags_at lo n js) ≡ js
ones-flags_at lo zero [] s r b = refl
ones-flags_at lo zero (j ∷ js) s (r, rs) (b, bs) = absurd (omega arith)
ones-flags_at lo (suc n) [] s r b = ones-flags_at (lo + 1) n [] (omega arith) tt tt
ones-flags_at lo (suc n) (j ∷ js) s r b =
    next_flag (j == lo) lo n j js refl r b (λ l. ones-flags_at (lo + 1) n l (omega arith))
