-- ===== src/Pow/Lwma.antt =====
-- The window of LWMA::Calculate: its sums, its average and the direction of the adjustment.
use bht_bhte.Prelude.{
  ℕ, zero, suc, ◌+◌, ◌-◌, ◌*◌, ◌/◌, ◌^◌, ◌≤◌, ◌<◌, ◌≡◌, refl, ◌∙◌, false, List, [], ◌∷◌, arith, ltb,
  length,
}
use bht_bhte.Prelude.Int.{ℤ, pos, negsuc, pos_part, ◌+ℤ◌, ◌-ℤ◌, ◌*ℤ◌}
use bht_bhte.Pow.{
  Compact, Params, BlockIndex, LwmaSums, window_size, clamp, min_actual_timespan,
  max_actual_timespan, scale_target, lwma_loop, lwma_sums, avg_timespan, lwma_calculate, limited,
}
use mathlib.Core.Path.{ap₂}
use native.Mathlib.Nat.{mul-le-mul, le_refl, mod-eq_of_lt, div-le_of_le-mul}

-- The time between two neighbours, as the loop counts it.
abbrev pub timespan : BlockIndex → BlockIndex → ℤ
timespan b p = clamp (pos min_actual_timespan) (pos max_actual_timespan) (b.time -ℤ p.time)

-- The n pairs of neighbours from b back are at least `lo` seconds apart.
abbrev pub IsPaced : ℕ → ℕ → BlockIndex → List BlockIndex → Type 0
IsPaced lo zero b prev = Unit {0}
IsPaced lo (suc n) b [] = Unit {0}
IsPaced lo (suc n) b (p ∷ rest) = (lo ≤ pos_part (timespan b p)) × IsPaced lo n p rest

timespan-pos :
    (d : ℤ)
    → let t = clamp (pos 60) (pos 3600) d in
      (t ≡ pos (pos_part t)) × (60 ≤ pos_part t) × (pos_part t ≤ 3600)
timespan-pos (pos n) = ground arith
timespan-pos (negsuc n) = ground arith

pub IsPaced-min : (n : ℕ) (b : BlockIndex) (prev : List BlockIndex) → IsPaced 60 n b prev
IsPaced-min zero b prev = tt
IsPaced-min (suc n) b [] = tt
IsPaced-min (suc n) b (p ∷ rest) = ((timespan-pos (b.time -ℤ p.time)).1, IsPaced-min n p rest)

-- w + (w - 1) + ..., n terms.
abbrev pub weight_sum : ℕ → ℕ → ℕ
weight_sum zero w = 0
weight_sum (suc n) w = w + weight_sum n (w - 1)

abbrev sums : ℕ → ℕ → ℕ → LwmaSums
sums t w v = record { total_timespan = pos t; total_weight = pos w; weight = pos v }

sums-step :
    (t w v c : ℕ)
    → 1 ≤ v
    → (pos t +ℤ pos c *ℤ pos v ≡ pos (t + c * v))
      × (pos w +ℤ pos v ≡ pos (w + v))
      × (pos v -ℤ pos 1 ≡ pos (v - 1))
unfolding ◌+ℤ◌ ◌-ℤ◌ ◌*ℤ◌
sums-step t w v c h = ground arith

lwma_loop-sums :
    (lo n : ℕ) (b : BlockIndex) (prev : List BlockIndex) (t w v : ℕ)
    → n ≤ length prev
    → n ≤ v
    → IsPaced lo n b prev
    → lo * w ≤ t
    → t ≤ 3600 * w
    → (t' : ℕ) × (lwma_loop n b prev (sums t w v) ≡ sums t' (w + weight_sum n v) (v - n))
      × (lo * (w + weight_sum n v) ≤ t')
      × (t' ≤ 3600 * (w + weight_sum n v))
unfolding lwma_loop
lwma_loop-sums lo zero b prev t w v h k paced low high =
    (t, ap₂ (λ (x y : ℕ). sums t x y) (omega arith) (omega arith), omega (arith, low), omega arith)
lwma_loop-sums lo (suc n) b [] t w v h k paced low high = absurd (omega arith)
lwma_loop-sums lo (suc n) b (p ∷ rest) t w v h k (pace, paced) low high =
    let (is_pos, least, most) = timespan-pos (b.time -ℤ p.time) in
    let c = pos_part (timespan b p) in
    let (st, sw, sv) = sums-step t w v c (omega arith) in
    let (t', same, low', high') =
      lwma_loop-sums lo n p rest (t + c * v) (w + v) (v - 1) (omega arith) (omega arith) paced
        (omega (arith, mul-le-mul pace (le_refl v))) (omega (arith, mul-le-mul most (le_refl v))) in
    (
      t',
      rw (is_pos, st, sw, sv) (same ∙ ap₂ (λ (x y : ℕ). sums t' x y) (omega arith) (omega arith)),
      omega (arith, low'),
      omega (arith, high'),
    )

clamp_inside : (x : ℕ) → 1 ≤ x → x ≤ 3600 → clamp (pos 1) (pos 3600) (pos x) ≡ pos x
clamp_inside x h k = ground arith

-- With 44 blocks behind it, whose window keeps a pace of at least `lo` >= 1 seconds, LWMA's average
-- is between `lo` and 3600, and the weights add up to 1034.
pub avg_timespan_range :
    (lo : ℕ) (b : BlockIndex) (prev : List BlockIndex)
    → 1 ≤ lo
    → 44 ≤ length prev
    → IsPaced lo 44 b prev
    → (a : ℕ) × (avg_timespan (lwma_sums b prev) ≡ pos a)
      × (lo ≤ a)
      × (a ≤ 3600)
      × ((lwma_sums b prev).total_weight ≡ pos 1034)
unfolding lwma_sums avg_timespan
avg_timespan_range lo b prev h k paced =
    let (t, e, low, high) =
      lwma_loop-sums lo 44 b prev 0 0 45 k (omega arith) paced (omega arith) (omega arith) in
    rw e (
      t / 1034,
      clamp_inside (t / 1034) (omega arith) (omega arith),
      omega arith,
      omega arith,
      refl,
    )

scale_target-slow : (old a : ℕ) → 600 ≤ a → old * 600 < 2 ^ 256 → scale_target old 600 a ≤ old
scale_target-slow old a h fits =
    rw (mod-eq_of_lt fits) (div-le_of_le-mul a (omega (arith, mul-le-mul h (le_refl old))))

limited-le : (env : Compact) (params : Params) (t u : ℕ) → t ≤ u → limited env params t ≤ u
limited-le env params t u h = ground arith

-- Blocks that come ten minutes apart or slower, over the whole window, never make the next one
-- easier: LWMA then answers the compact form of a target that is at most the last one, whatever the
-- delay. (The last target times 600 is below 2 ^ 256.)
pub lwma_calculate-slow :
    (env : Compact) (b : BlockIndex) (prev : List BlockIndex) (params : Params)
    → 45 ≤ b.height
    → 44 ≤ length prev
    → IsPaced 600 44 b prev
    → (env.set_compact b.bits).0 * 600 < 2 ^ 256
    → (target : ℕ) × (lwma_calculate env b prev params ≡ env.get_compact target)
      × (target ≤ (env.set_compact b.bits).0)
unfolding lwma_calculate
lwma_calculate-slow env b prev params h k paced fits =
    let old = (env.set_compact b.bits).0 in
    let (a, avg, low, high, weights) = avg_timespan_range 600 b prev (omega arith) k paced in
    let tall : ltb b.height window_size ≡ false = ground arith in
    let long : ltb (length prev) 44 ≡ false = ground arith in
    let shrinks : scale_target old 600 a ≤ old = scale_target-slow old a low fits in
    rw (tall, long, avg, weights)
      (limited env params (scale_target old 600 a), refl, limited-le env params _ old shrinks)
