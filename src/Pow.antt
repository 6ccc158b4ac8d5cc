-- ===== src/Pow.antt =====
-- BHC/src/pow.cpp: the targets of the proof of work. arith_uint256 and its compact form are Bitcoin
-- Core's and taken as an interface; the chain behind a block is the list of the blocks from it back
-- to the first one, and never empty. An int64_t is an integer.
pub mod Lwma
pub mod Bounds
mod Examples
use bht_bhte.Prelude.{
  ℕ, zero, suc, ◌+◌, ◌-◌, ◌*◌, ◌/◌, ◌%◌, ◌^◌, Bool, true, false, not, ◌&&◌, ◌||◌, List, [], ◌∷◌,
  Option, none, some, ltb, leb, ◌==◌, if◌then◌else◌, length,
}
use bht_bhte.Prelude.Int.{ℤ, pos, negsuc, pos_part, ◌+ℤ◌, ◌-ℤ◌, ◌*ℤ◌, ltb_ℤ, quot, ◌==ℤ◌}

-- `set_compact` gives the target, whether it is negative and whether it overflows.
pub record Compact : Type 0 where
  pub get_compact : ℕ → ℕ
  pub set_compact : ℕ → ℕ × (Bool × Bool)

pub record Params : Type 0 where
  pub pow_limit : ℕ
  pub allow_min_difficulty_blocks : Bool
  pub no_retargeting : Bool
  pub target_spacing : ℕ
  pub target_timespan : ℕ
  pub difficulty_adjustment_interval : ℕ

pub record BlockIndex : Type 0 where
  pub height : ℕ
  pub time : ℤ
  pub bits : ℕ

abbrev pub lwma_target_spacing : ℕ
lwma_target_spacing = 600

abbrev pub window_size : ℕ
window_size = 45

abbrev pub min_actual_timespan : ℕ
min_actual_timespan = 60

abbrev pub max_actual_timespan : ℕ
max_actual_timespan = 3600

abbrev pub clamp : ℤ → ℤ → ℤ → ℤ
clamp lo hi t = let t' = if ltb_ℤ t lo then lo else t in if ltb_ℤ hi t' then hi else t'

-- `bnNew *= n` wraps at 2 ^ 256. The factors are below 2 ^ 32, as Bitcoin Core's operator for them
-- asks, and the divisor is not 0 with the parameters of the networks.
abbrev pub scale_target : ℕ → ℕ → ℕ → ℕ
scale_target target n d = target * n % 2 ^ 256 / d

-- totalTimespan, totalWeight and weight.
pub record LwmaSums : Type 0 where
  pub total_timespan : ℤ
  pub total_weight : ℤ
  pub weight : ℤ

-- The weighted sum over at most n pairs of neighbours.
unfoldable pub lwma_loop : ℕ → BlockIndex → List BlockIndex → LwmaSums → LwmaSums
lwma_loop zero b prev s = s
lwma_loop (suc n) b [] s = s
lwma_loop (suc n) b (p ∷ rest) s =
    let timespan = clamp (pos min_actual_timespan) (pos max_actual_timespan) (b.time -ℤ p.time) in
    lwma_loop n p rest (record {
      total_timespan = s.total_timespan +ℤ timespan *ℤ s.weight;
      total_weight = s.total_weight +ℤ s.weight;
      weight = s.weight -ℤ pos 1;
    })

unfoldable pub lwma_sums : BlockIndex → List BlockIndex → LwmaSums
unfolding lwma_loop
lwma_sums b prev =
    lwma_loop (window_size - 1) b prev
      (record { total_timespan = pos 0; total_weight = pos 0; weight = pos window_size })

-- The quotient of two integers, the second not 0, rounded towards zero.
abbrev pub quot_ℤ : ℤ → ℤ → ℤ
quot_ℤ a (pos d) = quot a d
quot_ℤ a (negsuc d) = pos 0 -ℤ quot a (suc d)

unfoldable pub avg_timespan : LwmaSums → ℤ
avg_timespan s = clamp (pos 1) (pos 3600) (quot_ℤ s.total_timespan s.total_weight)

module _ (env : Compact) where
  abbrev pub limited : Params → ℕ → ℕ
  limited params target = if ltb params.pow_limit target then params.pow_limit else target

  -- The block and the blocks before it; an empty list before is pprev == nullptr.
  unfoldable pub lwma_calculate : BlockIndex → List BlockIndex → Params → ℕ
  lwma_calculate b prev params =
      let s = lwma_sums b prev in
      if ltb b.height window_size
      then env.get_compact params.pow_limit
      else if ltb (length prev) (window_size - 1)
      then env.get_compact params.pow_limit
      else if s.total_weight ==ℤ pos 0
      then env.get_compact params.pow_limit
      else env.get_compact (
          limited params (
            scale_target (env.set_compact b.bits).0 lwma_target_spacing
              (pos_part (avg_timespan s))))

  unfoldable pub calculate_next_work_required_lwma : BlockIndex → List BlockIndex → Params → ℕ
  unfolding lwma_calculate
  calculate_next_work_required_lwma b prev params =
      if params.no_retargeting then b.bits else lwma_calculate b prev params

  unfoldable pub calculate_next_work_required : BlockIndex → ℤ → Params → ℕ
  calculate_next_work_required b first_block_time params =
      let timespan =
        clamp (pos (params.target_timespan / 4)) (pos (params.target_timespan * 4))
          (b.time -ℤ first_block_time) in
      if params.no_retargeting
      then b.bits
      else env.get_compact (
          limited params
            (scale_target (env.set_compact b.bits).0 (pos_part timespan) params.target_timespan))

  -- The loop back to the last block that is not of minimum difficulty.
  unfoldable pub last_difficult : ℕ → Params → BlockIndex → List BlockIndex → ℕ
  last_difficult limit params b [] = b.bits
  last_difficult limit params b (p ∷ rest) =
      let earlier = last_difficult limit params p rest in
      if not (b.height % params.difficulty_adjustment_interval == 0) && b.bits == limit
      then earlier
      else b.bits

  unfoldable pub get_next_work_required : BlockIndex → List BlockIndex → ℤ → Params → ℕ
  unfolding calculate_next_work_required_lwma last_difficult
  get_next_work_required b prev block_time params =
      let limit = env.get_compact params.pow_limit in
      if not ((b.height + 1) % params.difficulty_adjustment_interval == 0)
      then if params.allow_min_difficulty_blocks
        then if ltb_ℤ (b.time +ℤ pos (params.target_spacing * 2)) block_time
          then limit
          else last_difficult limit params b prev
        else b.bits
      else calculate_next_work_required_lwma b prev params

  unfoldable pub derive_target : ℕ → ℕ → Option ℕ
  derive_target bits pow_limit =
      let (target, (negative, overflow)) = env.set_compact bits in
      if (negative || target == 0) || (overflow || ltb pow_limit target) then none else some target

  -- `hash` is UintToArith256 of the hash.
  unfoldable pub check_proof_of_work : ℕ → ℕ → Params → Bool
  unfolding derive_target
  check_proof_of_work hash bits params = elim (derive_target bits params.pow_limit) [
    | none ↦ false
    | some target ↦ if ltb target hash then false else true
  ]

  -- `pow_hash` is ProgPoWHash of the header's hash, its nonce and the number of the block.
  unfoldable pub check_proof_of_work_progpow : (ℕ → ℕ → ℕ → ℕ) → ℕ → ℕ → ℕ → ℕ → Params → Bool
  unfolding derive_target
  check_proof_of_work_progpow pow_hash header_hash nonce bits block_number params =
      elim (derive_target bits params.pow_limit) [
        | none ↦ false
        | some target ↦ if ltb target (pow_hash header_hash nonce block_number) then false else true
      ]

  -- The target of the compact form of a scaled and limited target.
  abbrev pub rounded_target : Params → ℕ → ℕ → ℕ
  rounded_target params old_bits timespan =
      (env.set_compact (
        env.get_compact (
          limited params
            (scale_target (env.set_compact old_bits).0 timespan params.target_timespan)))).0

  unfoldable pub permitted_difficulty_transition : Params → ℕ → ℕ → ℕ → Bool
  permitted_difficulty_transition params height old_bits new_bits =
      let observed = (env.set_compact new_bits).0 in
      if params.allow_min_difficulty_blocks
      then true
      else if height % params.difficulty_adjustment_interval == 0
      then if ltb (rounded_target params old_bits (params.target_timespan * 4)) observed
        then false
        else not (ltb observed (rounded_target params old_bits (params.target_timespan / 4)))
      else old_bits == new_bits
