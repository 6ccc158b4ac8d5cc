-- ===== src/ProgPow/Examples.antt =====
-- A hash with generators that draw nothing but zeros.
use bht_bhte.Prelude.{
  ℕ, zero, suc, ◌<◌, ◌≤◌, ◌≡◌, ◌↔◌, true, List, All, drop, length-replicate, replicate, arith,
}
use bht_bhte.Prelude.Radix.{IsByte}
use bht_bhte.ProgPow.Loop.{Generators, prog_pow, verify, check_prog_pow_proof, prog_pow_hash}
use bht_bhte.ProgPow.Target.{be_value, check_prog_pow_proof_iff}

abbrev zeros : Generators
zeros = record { mt19937 = λ seed i. 0; mt19937_64 = λ seed i. 0 }

abbrev header : List ℕ
header = replicate 32 1

abbrev target : List ℕ
target = replicate 32 200

replicate-IsByte : (n b : ℕ) → b < 256 → All IsByte (replicate n b)
replicate-IsByte zero b h = tt
replicate-IsByte (suc n) b h = (h, replicate-IsByte n b h)

check_prog_pow_proof_iff_example :
    (verify zeros prog_pow header 7 target header
      ≡ check_prog_pow_proof zeros header 7 0 target header)
    × ((check_prog_pow_proof zeros header 7 0 target header ≡ true)
        ↔ (be_value (prog_pow_hash zeros header 7 0 header) ≤ be_value target))
    × (drop 8 (prog_pow_hash zeros header 7 0 header) ≡ drop 8 header)
check_prog_pow_proof_iff_example =
    check_prog_pow_proof_iff zeros prog_pow header target header 7
      (replicate-IsByte 32 200 (omega arith)) (length-replicate {A = ℕ} 32 200)
      (replicate-IsByte 32 1 (omega arith)) (length-replicate {A = ℕ} 32 1)
