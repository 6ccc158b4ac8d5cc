-- ===== src/Pow/Examples.antt =====
-- A chain in which every block comes an hour after the one before: tests, and inputs on which the
-- theorems are applied.
use bht_bhte.Prelude.{
  ℕ, zero, suc, ◌*◌, ◌^◌, ◌≤◌, ◌<◌, ◌≡◌, ◌↔◌, refl, true, false, List, [], ◌∷◌, arith,
}
use bht_bhte.Prelude.Int.{pos, ◌+ℤ◌, ◌-ℤ◌, ◌*ℤ◌}
use bht_bhte.Pow.{
  Compact, Params, BlockIndex, lwma_sums, lwma_loop, avg_timespan, lwma_calculate,
  calculate_next_work_required, permitted_difficulty_transition, check_proof_of_work,
}
use bht_bhte.Pow.Lwma.{lwma_calculate-slow, IsPaced}
use bht_bhte.Pow.Bounds.{calculate_next_work_required-permitted, check_proof_of_work_iff}

-- Compact bits that are the target itself.
abbrev plain : Compact
plain = record { get_compact = λ x. x; set_compact = λ x. (x, (false, false)) }

abbrev params : Params
params = record {
  pow_limit = 2 ^ 224;
  allow_min_difficulty_blocks = false;
  no_retargeting = false;
  target_spacing = 600;
  target_timespan = 1209600;
  difficulty_adjustment_interval = 2016;
}

abbrev block : ℕ → BlockIndex
block h = record { height = h; time = pos (h * 3600); bits = 6000000 }

-- The n blocks below height n.
abbrev below : ℕ → List BlockIndex
below zero = []
below (suc n) = block n ∷ below n

-- Six times the target spacing: the target falls to a sixth.
test_slow_chain : lwma_calculate plain (block 50) (below 50) params ≡ 1000000
unfolding lwma_calculate lwma_sums lwma_loop avg_timespan ◌+ℤ◌ ◌-ℤ◌ ◌*ℤ◌
test_slow_chain = refl

below-IsPaced : IsPaced 600 44 (block 50) (below 50)
unfolding ◌-ℤ◌
below-IsPaced = omega arith

lwma_calculate-slow_example :
    (target : ℕ) × (lwma_calculate plain (block 50) (below 50) params ≡ target) × (target ≤ 6000000)
lwma_calculate-slow_example =
    lwma_calculate-slow plain (block 50) (below 50) params (omega arith) (omega arith) below-IsPaced
      (omega arith)

calculate_next_work_required-permitted_example :
    permitted_difficulty_transition plain params 4032 6000000
      (calculate_next_work_required plain (block 4031) (pos 7000000) params)
    ≡ true
calculate_next_work_required-permitted_example =
    calculate_next_work_required-permitted plain params (block 4031) (pos 7000000) 4032 (λ x y h. h)
      refl refl (omega arith)

check_proof_of_work_iff_example :
    (check_proof_of_work plain 12345 6000000 params ≡ true)
    ↔ ((false ≡ false) × (false ≡ false) × (0 < 6000000) × (6000000 ≤ 2 ^ 224) × (12345 ≤ 6000000))
check_proof_of_work_iff_example = check_proof_of_work_iff plain 12345 6000000 params
