-- ===== src/Fips204/Ntt/Examples.antt =====
-- Polynomials on which the theorems on the transforms of mldsa_fips204.h are applied.
use bht_bhte.Prelude.{ℕ, zero, suc, ◌≡◌, refl, map, replicate, All, arith}
use bht_bhte.Prelude.Int.{pos}
use bht_bhte.Fips204.Ntt.{ntt_forward, ntt_inverse, pointwise}
use bht_bhte.Fips204.Ntt.Product.{product}
use bht_bhte.Fips204.Ntt.Residues.{residues}
use bht_bhte.Fips204.Ntt.Pairs.{IsResidue}
use bht_bhte.Fips204.Ntt.Inverse.{ntt_inverse-ntt_forward}
use bht_bhte.Fips204.Ntt.Multiply.{ntt_inverse-pointwise}

replicate-IsResidue : (n c : ℕ) → IsResidue c → All IsResidue (replicate n c)
replicate-IsResidue zero c h = tt
replicate-IsResidue (suc n) c h = (h, replicate-IsResidue n c h)

ntt_inverse-ntt_forward_example :
    ntt_inverse (ntt_forward (map pos (replicate 256 8380416))) ≡ map pos (replicate 256 8380416)
ntt_inverse-ntt_forward_example =
    ntt_inverse-ntt_forward (replicate 256 8380416) refl
      (replicate-IsResidue 256 8380416 (omega arith))

ntt_inverse-pointwise_example :
    ntt_inverse (
      pointwise
        (ntt_forward (map pos (replicate 256 8380416)))
        (ntt_forward (map pos (replicate 256 7))))
    ≡ map pos (residues (product 8380416 (replicate 256 8380416) (replicate 256 7)))
ntt_inverse-pointwise_example =
    ntt_inverse-pointwise (replicate 256 8380416) (replicate 256 7) refl refl
      (replicate-IsResidue 256 8380416 (omega arith)) (replicate-IsResidue 256 7 (omega arith))
