-- ===== src/Fips204/Hints.antt =====
-- hintPack and hintUnpack of mldsa_fips204.h.
pub mod Packed
pub mod RoundTrip
pub mod Flags
pub mod Reading
pub mod Canonical
mod Examples
use bht_bhte.Prelude.{
  ℕ, zero, suc, ◌+◌, ◌-◌, ◌%◌, Bool, true, ◌&&◌, ◌||◌, List, [], ◌∷◌, Option, none, some, ltb, leb,
  ◌==◌, if◌then◌else◌, get_or, set, drop, replicate, take,
}
use bht_bhte.Prelude.Int.{pos, ◌==ℤ◌}
use bht_bhte.Fips204.Field.{Poly, PolyVec}
use bht_bhte.Fips204.Ntt.{zero_poly}
use bht_bhte.Fips204.Sampling.{◌>>=◌}

-- The inner loop from coefficient j on; the state is (idx, out), and `none` is `return {}`.
unfoldable pub pack_coeffs : ℕ → ℕ → Poly → ℕ × List ℕ → Option (ℕ × List ℕ)
pack_coeffs omega_max j [] s = some s
pack_coeffs omega_max j (c ∷ cs) (idx, out) = do
  next ←
      if c ==ℤ pos 0
      then some (idx, out)
      else if leb omega_max idx
      then none
      else some (idx + 1, set out idx (j % 256))
  pack_coeffs omega_max (j + 1) cs next

unfoldable pub pack_rows : ℕ → ℕ → PolyVec → ℕ × List ℕ → Option (List ℕ)
unfolding pack_coeffs
pack_rows omega_max i [] (idx, out) = some out
pack_rows omega_max i (p ∷ h) s = do
  (idx, out) ← pack_coeffs omega_max 0 p s
  pack_rows omega_max (i + 1) h (idx, set out (omega_max + i) (idx % 256))

-- An empty vector where there are more than omega hints.
unfoldable pub hint_pack : PolyVec → ℕ → ℕ → List ℕ
unfolding pack_rows
hint_pack h omega_max k = elim (pack_rows omega_max 0 (take k h) (0, replicate (omega_max + k) 0)) [
  | none ↦ []
  | some out ↦ out
]

-- The loop over `idx` with n rounds to go.
unfoldable pub unpack_row : List ℕ → ℕ → ℕ → ℕ → Poly → Option Poly
unpack_row buf first zero idx p = some p
unpack_row buf first (suc n) idx p =
    let rest = unpack_row buf first n (idx + 1) (set p (get_or buf idx 0) (pos 1)) in
    if ltb first idx && leb (get_or buf idx 0) (get_or buf (idx - 1) 0) then none else rest

-- The rows from i on, n of them, and `idx` after them.
unfoldable pub unpack_rows : List ℕ → ℕ → ℕ → ℕ → ℕ → Option (PolyVec × ℕ)
unfolding unpack_row
unpack_rows buf omega_max zero i idx = some ([], idx)
unpack_rows buf omega_max (suc n) i idx = do
  let last = get_or buf (omega_max + i) 0
  row ←
      if ltb last idx || ltb omega_max last
      then none
      else unpack_row buf idx (last - idx) idx zero_poly
  (rows, idx') ← unpack_rows buf omega_max n (i + 1) last
  some (row ∷ rows, idx')

unfoldable pub all_zero : List ℕ → Bool
all_zero [] = true
all_zero (b ∷ bs) = b == 0 && all_zero bs

-- `none` is the answer false.
unfoldable pub hint_unpack : List ℕ → ℕ → ℕ → Option PolyVec
unfolding unpack_rows all_zero
hint_unpack buf omega_max k = do
  (h, idx) ← unpack_rows buf omega_max k 0 0
  if all_zero (drop idx (take omega_max buf)) then some h else none
