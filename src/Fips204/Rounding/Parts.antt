-- ===== src/Fips204/Rounding/Parts.antt =====
-- The parts that rounding splits a coefficient into.
use bht_bhte.Prelude.{
  ℕ, ◌+◌, ◌-◌, ◌*◌, ◌/◌, ◌^◌, ◌<◌, ◌≡◌, ◌⊎◌, inl, inr, arith, if◌then◌else◌, ◌==◌,
}
use bht_bhte.Prelude.Bits.{bit_and-mask}
use bht_bhte.Prelude.Int.{ℤ, pos, negsuc, pos_part, ◌+ℤ◌, ◌-ℤ◌, ◌*ℤ◌, ◌≤ℤ◌, ◌<ℤ◌, sub_ℕ}
use bht_bhte.Fips204.Field.{q, mod_q}
use bht_bhte.Fips204.Rounding.{power2_round, decompose}

-- The two values of gamma2 in `paramFor`.
abbrev pub IsGamma2 : ℕ → Type 0
IsGamma2 g = (g ≡ 95232) ⊎ (g ≡ 261888)

-- mod_q is the residue in [0, q).
unfoldable pub residue : ℤ → ℕ
unfolding mod_q
residue a = pos_part (mod_q a)

pub mod_q-residue : (a : ℤ) → (mod_q a ≡ pos (residue a)) × (residue a < q)
unfolding mod_q residue
mod_q-residue (pos n) = ground arith
mod_q-residue (negsuc n) = ground arith

-- power2Round splits every coefficient, reduced modulo Q, as r1 * 2^13 + r0 with
-- -2^12 < r0 <= 2^12 and 0 <= r1 < 2^10.
pub power2_round_parts :
    (r : ℤ)
    → let (r1, r0) = power2_round r in
      (pos 0 ≤ℤ r1)
      × (r1 <ℤ pos (2 ^ 10))
      × (negsuc (2 ^ 12 - 1) <ℤ r0)
      × (r0 ≤ℤ pos (2 ^ 12))
      × (r1 *ℤ pos (2 ^ 13) +ℤ r0 ≡ mod_q r)
unfolding power2_round ◌-ℤ◌ ◌+ℤ◌ ◌*ℤ◌
power2_round_parts r = ground (arith, mod_q-residue r, bit_and-mask 13 (residue r))

-- The multiple of 2 * gamma2 next to x, and the high part: 0 at the top multiple, Q - 1.
abbrev pub nearest : ℕ → ℕ → ℕ
nearest x g = (x + g - 1) / (2 * g)

abbrev pub top : ℕ → ℕ
top g = (q - 1) / (2 * g)

abbrev pub high : ℕ → ℕ → ℕ
high x g = if nearest x g == top g then 0 else nearest x g

abbrev pub low : ℕ → ℕ → ℤ
low x g = if nearest x g == top g then sub_ℕ x q else sub_ℕ x (2 * g * nearest x g)

-- `decompose` as plain division, for both values of gamma2.
pub decompose_lem :
    (r : ℤ) (g : ℕ) → IsGamma2 g → decompose r g ≡ (pos (high (residue r) g), low (residue r) g)
unfolding decompose ◌-ℤ◌
decompose_lem r g (inl e) = rw e (ground (arith, mod_q-residue r))
decompose_lem r g (inr e) = rw e (ground (arith, mod_q-residue r))
