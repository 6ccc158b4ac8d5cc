-- ===== src/Fips204/Verify.antt =====
-- verifyCore of mldsa_fips204.h.
use bht_bhte.Prelude.{
  ℕ, ◌^◌, Bool, false, not, List, [], ◌∷◌, Option, none, some, ◌==◌, if◌then◌else◌, length, take,
  drop, map, foldl, range, zip_with, bit_or, bit_xor,
}
use bht_bhte.Prelude.Int.{pos, ◌-ℤ◌, ◌*ℤ◌, ltb_ℤ}
use bht_bhte.Fips204.Field.{dd, Poly, mod_q}
use bht_bhte.Fips204.Param.{Param}
use bht_bhte.Fips204.Pack.{simple_bit_pack, bit_unpack}
use bht_bhte.Fips204.Shake.{shake256_sum, cat}
use bht_bhte.Fips204.Ntt.{ntt_forward, ntt_inverse, row_product, pointwise}
use bht_bhte.Fips204.Sampling.{expand_a, sample_in_ball, ◌>>=◌}
use bht_bhte.Fips204.Hints.{hint_unpack}
use bht_bhte.Fips204.Rounding.{use_hint, poly_vec_inf_norm}
use bht_bhte.Fips204.Keys.{PublicKey, pack_all, unpack_all, encode_pk}
use bht_bhte.Fips204.Sign.{framed, z_bits, w1_bits, z_bytes, sig_size, row, zip_polys}

-- `none` is a sampler out of draws; the guards come before the sampling.
unfoldable pub verify_core : ℕ → Param → PublicKey → List ℕ → List ℕ → List ℕ → Option Bool
verify_core fuel p pk msg ctx sig =
    let ctilde = take p.ct_bytes sig in
    let (z, rest) =
      unpack_all (λ b. bit_unpack b (pos p.gamma1) (z_bits p)) (z_bytes p) p.l
        (drop p.ct_bytes sig) in
    let sampled : Option (List Poly × Poly) =
      expand_a fuel pk.rho p.k p.l
      >>= (λ a. sample_in_ball fuel ctilde p.tau >>= (λ c. some (a, c))) in
    let mu = shake256_sum 64 (cat (shake256_sum 64 (encode_pk p pk) ∷ framed ctx msg ∷ [])) in
    if not (length sig == sig_size p) then some false else elim (hint_unpack rest p.omega_max p.k) [
      | none ↦ some false
      | some h ↦
          if not (ltb_ℤ (poly_vec_inf_norm z) (pos p.gamma1 -ℤ pos p.beta))
          then some false
          else elim sampled [
            | none ↦ none
            | some s ↦
                let (a, c) = s in
                let chat = ntt_forward c in
                let z_hat = map ntt_forward z in
                let t1_hat =
                  map (λ t. ntt_forward (map (λ v. mod_q (v *ℤ pos (2 ^ dd))) t)) pk.t1 in
                let approx =
                  zip_with
                    (λ i t. ntt_inverse (
                      zip_with (λ u v. mod_q (u -ℤ v)) (row_product (row p a i) z_hat)
                        (pointwise chat t)))
                    (range 0 p.k) t1_hat in
                let w1 = zip_polys (λ hint v. use_hint hint v p.gamma2) h approx in
                let w1_packed = pack_all (λ v. simple_bit_pack v (w1_bits p)) w1 in
                let ctilde' = shake256_sum p.ct_bytes (cat (mu ∷ w1_packed ∷ [])) in
                some (foldl bit_or 0 (zip_with bit_xor ctilde ctilde') == 0)
          ]
    ]
