-- ===== src/Fips204/Rounding.antt =====
-- power2Round, decompose, highBits, lowBits, useHint and the norms of mldsa_fips204.h.
pub mod Parts
pub mod Hint
use bht_bhte.Prelude.{ℕ, ◌+◌, ◌-◌, ◌*◌, ◌/◌, ◌^◌, foldl, bit_and, if◌then◌else◌}
use bht_bhte.Prelude.Int.{ℤ, pos, pos_part, ◌+ℤ◌, ◌-ℤ◌, ◌==ℤ◌, ltb_ℤ, quot, rem, shr_ℤ}
use bht_bhte.Fips204.Field.{q, dd, Poly, PolyVec, mod_q, centered}

-- The pair is (r1, r0). `mod_q` is not negative, so its pattern of bits is the number itself.
pub power2_round : ℤ → ℤ × ℤ
unfolding mod_q
power2_round r =
    let r = mod_q r in
    let a = bit_and (pos_part r) (2 ^ dd - 1) in
    let a = if ltb_ℤ (pos (2 ^ (dd - 1))) (pos a) then pos a -ℤ pos (2 ^ dd) else pos a in
    (shr_ℤ (r -ℤ a) dd, a)

pub decompose : ℤ → ℕ → ℤ × ℤ
unfolding mod_q
decompose r gamma2 =
    let r = mod_q r in
    let alpha = 2 * gamma2 in
    let a = rem r alpha in
    let a = if ltb_ℤ (pos (alpha / 2)) a then a -ℤ pos alpha else a in
    if r -ℤ a ==ℤ pos (q - 1) then (pos 0, a -ℤ pos 1) else (quot (r -ℤ a) alpha, a)

pub high_bits : ℤ → ℕ → ℤ
unfolding decompose
high_bits r gamma2 = (decompose r gamma2).0

pub low_bits : ℤ → ℕ → ℤ
unfolding decompose
low_bits r gamma2 = (decompose r gamma2).1

pub use_hint : ℤ → ℤ → ℕ → ℤ
unfolding decompose
use_hint h r gamma2 =
    let m = (q - 1) / (2 * gamma2) in
    let (r1, r0) = decompose r gamma2 in
    let r1' = rem (if ltb_ℤ (pos 0) r0 then r1 +ℤ pos 1 else r1 -ℤ pos 1) m in
    if h ==ℤ pos 0 then r1 else if ltb_ℤ r1' (pos 0) then r1' +ℤ pos m else r1'

-- One round of the loop of polyInfNorm.
pub norm_step : ℤ → ℤ → ℤ
norm_step mx c =
    let a = centered (mod_q c) in
    let a = if ltb_ℤ a (pos 0) then pos 0 -ℤ a else a in if ltb_ℤ mx a then a else mx

pub poly_inf_norm : Poly → ℤ
poly_inf_norm p = foldl norm_step (pos 0) p

pub poly_vec_inf_norm : PolyVec → ℤ
poly_vec_inf_norm v =
    foldl (λ mx p. let n = poly_inf_norm p in if ltb_ℤ mx n then n else mx) (pos 0) v
