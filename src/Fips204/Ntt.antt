-- ===== src/Fips204/Ntt.antt =====
-- The number-theoretic transform and the arithmetic of polynomials of mldsa_fips204.h.
pub mod Butterfly
pub mod Blocks
pub mod Layers
pub mod Undo
pub mod Passes
pub mod Pairs
pub mod Inverse
pub mod Product
pub mod Fold
pub mod Halves
pub mod Residues
pub mod LayerProducts
pub mod Multiply
mod Examples
use bht_bhte.Prelude.{
  ℕ, zero, suc, ◌+◌, ◌-◌, ◌*◌, ◌/◌, ◌%◌, ◌^◌, List, [], ◌∷◌, map, foldl, bit_or, ltb, ◌==◌,
  if◌then◌else◌, get_or, set, zip_with, range, replicate,
}
use bht_bhte.Prelude.Int.{ℤ, pos, pos_part, ◌+ℤ◌, ◌-ℤ◌, ◌*ℤ◌, ltb_ℤ, rem}
use bht_bhte.Fips204.Field.{q, nn, Poly, mod_q}

-- `while (exp > 0)`: a round halves the exponent, an int64_t, so 64 rounds are enough.
unfoldable pub mod_pow_loop : ℕ → ℕ → ℕ → ℕ → ℕ → ℕ
mod_pow_loop zero base exp m r = r
mod_pow_loop (suc fuel) base exp m r =
    let rest =
      mod_pow_loop fuel (base * base % m) (exp / 2) m (if exp % 2 == 1 then r * base % m else r) in
    if ltb 0 exp then rest else r

unfoldable pub mod_pow : ℤ → ℕ → ℕ → ℕ
unfolding mod_pow_loop
mod_pow base exp m =
    let b = rem base m in
    let b = if ltb_ℤ b (pos 0) then b +ℤ pos m else b in mod_pow_loop 64 (pos_part b) exp m 1

unfoldable pub bitrev8 : ℕ → ℕ
bitrev8 x = foldl (λ r i. bit_or (r * 2) (x / 2 ^ i % 2)) 0 (range 0 8)

unfoldable pub zeta_at : ℕ → ℤ
unfolding mod_pow bitrev8
zeta_at i = pos (mod_pow (pos 1753) (bitrev8 i) q)

unfoldable pub ninv : ℤ
unfolding mod_pow
ninv = pos (mod_pow (pos nn) (q - 2) q)

abbrev pub zero_poly : Poly
zero_poly = replicate nn (pos 0)

abbrev pub coeff : Poly → ℕ → ℤ
coeff p i = get_or p i (pos 0)

unfoldable pub forward_butterfly : ℤ → ℕ → Poly → ℕ → Poly
unfolding mod_q
forward_butterfly zeta len a j =
    let t = rem (zeta *ℤ coeff a (j + len)) q in
    let a' = set a (j + len) (mod_q (coeff a j -ℤ t)) in set a' j (mod_q (coeff a' j +ℤ t))

-- `kk` is the number of roots that are used up.
unfoldable pub forward_block : ℕ → ℕ × Poly → ℕ → ℕ × Poly
unfolding forward_butterfly zeta_at
forward_block len (kk, a) start =
    (kk + 1, foldl (forward_butterfly (zeta_at (kk + 1)) len) a (range start len))

abbrev pub block_starts : ℕ → List ℕ
block_starts len = map (λ i. i * (2 * len)) (range 0 (128 / len))

unfoldable pub ntt_forward : Poly → Poly
unfolding forward_block
ntt_forward a =
    (foldl (λ s len. foldl (forward_block len) s (block_starts len)) (0, a)
      (128 ∷ 64 ∷ 32 ∷ 16 ∷ 8 ∷ 4 ∷ 2 ∷ 1 ∷ [])).1

unfoldable pub inverse_butterfly : ℤ → ℕ → Poly → ℕ → Poly
unfolding mod_q
inverse_butterfly zeta len a j =
    let t = coeff a j in
    let a' = set a j (mod_q (t +ℤ coeff a (j + len))) in
    let a'' = set a' (j + len) (mod_q (t -ℤ coeff a' (j + len))) in
    set a'' (j + len) (rem (zeta *ℤ coeff a'' (j + len)) q)

unfoldable pub inverse_block : ℕ → ℕ × Poly → ℕ → ℕ × Poly
unfolding inverse_butterfly zeta_at
inverse_block len (kk, a) start =
    (kk - 1, foldl (inverse_butterfly (pos q -ℤ zeta_at (kk - 1)) len) a (range start len))

unfoldable pub ntt_inverse : Poly → Poly
unfolding inverse_block ninv
ntt_inverse a =
    let (kk, b) =
      foldl (λ s len. foldl (inverse_block len) s (block_starts len)) (nn, a)
        (1 ∷ 2 ∷ 4 ∷ 8 ∷ 16 ∷ 32 ∷ 64 ∷ 128 ∷ []) in
    map (λ c. rem (ninv *ℤ c) q) b

unfoldable pub pointwise : Poly → Poly → Poly
pointwise a b = zip_with (λ x y. rem (x *ℤ y) q) a b

unfoldable pub poly_add_into : Poly → Poly → Poly
unfolding mod_q
poly_add_into dst src = zip_with (λ x y. mod_q (x +ℤ y)) dst src

-- Row i of the matrix A, given as the list of its k * l entries, times a vector.
unfoldable pub row_product : List Poly → List Poly → Poly
unfolding poly_add_into pointwise
row_product row v = foldl poly_add_into zero_poly (zip_with pointwise row v)
