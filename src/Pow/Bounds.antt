-- ===== src/Pow/Bounds.antt =====
-- Retargeting against the transitions that PermittedDifficultyTransition admits.
use bht_bhte.Prelude.{
  ℕ, zero, suc, ◌*◌, ◌/◌, ◌%◌, ◌^◌, ◌≤◌, ◌<◌, ◌≡◌, ◌↔◌, true, false, arith, ltb, ==_iff, Bool-cases,
  inl, inr,
}
use bht_bhte.Prelude.Int.{ℤ, pos, negsuc, pos_part, ◌-ℤ◌}
use bht_bhte.Pow.{
  Compact, Params, BlockIndex, clamp, scale_target, limited, calculate_next_work_required,
  permitted_difficulty_transition, derive_target, check_proof_of_work,
}
use native.Mathlib.Nat.{mul-le-mul, le_refl, mod-eq_of_lt, le-div_iff_mul-le, mul-div-le, div-zero}

-- Rounding to the compact form and back keeps the order.
abbrev pub IsMonotone : Compact → Type 0
IsMonotone env =
    (x y : ℕ)
    → x ≤ y
    → (env.set_compact (env.get_compact x)).0 ≤ (env.set_compact (env.get_compact y)).0

timespan-range :
    (t : ℕ) (d : ℤ)
    → let s = pos_part (clamp (pos (t / 4)) (pos (t * 4)) d) in (t / 4 ≤ s) × (s ≤ t * 4)
timespan-range t (pos n) = ground arith
timespan-range t (negsuc n) = ground arith

limited_mono :
    (env : Compact) (params : Params) (x y : ℕ)
    → x ≤ y
    → limited env params x ≤ limited env params y
limited_mono env params x y h = ground arith

div_mono : (x y d : ℕ) → x ≤ y → x / d ≤ y / d
div_mono x y zero h = omega (arith, div-zero x)
div_mono x y (suc d) h =
    (le-div_iff_mul-le (omega arith)).1 (omega (arith, mul-div-le x (suc d), h))

scale_target_mono :
    (target n m d : ℕ)
    → n ≤ m
    → target * m < 2 ^ 256
    → scale_target target n d ≤ scale_target target m d
scale_target_mono target n m d h fits =
    let le : target * n ≤ target * m = mul-le-mul (le_refl target) h in
    let small : target * n < 2 ^ 256 = omega (arith, le) in
    rw (mod-eq_of_lt fits, mod-eq_of_lt small) (div_mono _ _ d le)

not-above : {x y : ℕ} → x ≤ y → ltb y x ≡ false
not-above h = ground arith

-- At a height where the difficulty is adjusted, the bits that CalculateNextWorkRequired computes
-- pass PermittedDifficultyTransition, if rounding to compact bits keeps the order of targets and
-- four times the timespan times the old target is below 2 ^ 256.
pub calculate_next_work_required-permitted :
    (env : Compact) (params : Params) (b : BlockIndex) (first_time : ℤ) (height : ℕ)
    → IsMonotone env
    → params.no_retargeting ≡ false
    → height % params.difficulty_adjustment_interval ≡ 0
    → (env.set_compact b.bits).0 * (params.target_timespan * 4) < 2 ^ 256
    → permitted_difficulty_transition env params height b.bits
        (calculate_next_work_required env b first_time params)
      ≡ true
unfolding permitted_difficulty_transition calculate_next_work_required
calculate_next_work_required-permitted env params b first_time height mono on hit fits =
    let target = (env.set_compact b.bits).0 in
    let span = params.target_timespan in
    let s = pos_part (clamp (pos (span / 4)) (pos (span * 4)) (b.time -ℤ first_time)) in
    let (least, most) = timespan-range span (b.time -ℤ first_time) in
    let at_most : target * s < 2 ^ 256 = omega (arith, mul-le-mul (le_refl target) most) in
    let above =
      mono _ _
        (limited_mono env params _ _ (scale_target_mono target s (span * 4) span most fits)) in
    let below =
      mono _ _
        (limited_mono env params _ _ (scale_target_mono target (span / 4) s span least at_most)) in
    elim (Bool-cases params.allow_min_difficulty_blocks) [
      | inl any ↦ rw any
      | inr strict ↦ rw (strict, on, (==_iff _ _).1 hit, not-above above, not-above below)
    ]

-- CheckProofOfWork accepts exactly the hashes up to a target that is neither negative, zero nor
-- overflowing and does not exceed the limit.
pub check_proof_of_work_iff :
    (env : Compact) (hash bits : ℕ) (params : Params)
    → (check_proof_of_work env hash bits params ≡ true) ↔ (
        ((env.set_compact bits).1.0 ≡ false)
        × ((env.set_compact bits).1.1 ≡ false)
        × (0 < (env.set_compact bits).0)
        × ((env.set_compact bits).0 ≤ params.pow_limit)
        × (hash ≤ (env.set_compact bits).0))
unfolding check_proof_of_work derive_target
check_proof_of_work_iff env hash bits params = ground arith
