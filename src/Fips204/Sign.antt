-- ===== src/Fips204/Sign.antt =====
-- framed and signCore of mldsa_fips204.h.
use bht_bhte.Prelude.{
  ℕ, zero, suc, ◌+◌, ◌-◌, ◌*◌, ◌/◌, ◌%◌, not, ◌||◌, List, [], ◌∷◌, ◌++◌, Option, none, some, ltb,
  ◌==◌, if◌then◌else◌, length, take, drop, map, foldl, range, zip_with,
}
use bht_bhte.Prelude.Int.{ℤ, pos, ◌+ℤ◌, ◌-ℤ◌, ◌==ℤ◌, ltb_ℤ}
use bht_bhte.Fips204.Field.{q, nn, Poly, PolyVec, bitlen, mod_q, centered}
use bht_bhte.Fips204.Param.{Param}
use bht_bhte.Fips204.Pack.{simple_bit_pack, bit_pack}
use bht_bhte.Fips204.Shake.{shake256_sum, cat}
use bht_bhte.Fips204.Ntt.{ntt_forward, ntt_inverse, row_product, pointwise}
use bht_bhte.Fips204.Sampling.{expand_a, expand_mask, sample_in_ball, ◌>>=◌}
use bht_bhte.Fips204.Hints.{hint_pack}
use bht_bhte.Fips204.Rounding.{high_bits, low_bits, poly_vec_inf_norm}
use bht_bhte.Fips204.Keys.{SecretKey, pack_all}

unfoldable pub framed : List ℕ → List ℕ → List ℕ
framed ctx msg = 0x00 ∷ (length ctx % 256) ∷ (ctx ++ msg)

abbrev pub z_bits : Param → ℕ
z_bits p = bitlen (2 * p.gamma1 - 1)

abbrev pub w1_bits : Param → ℕ
w1_bits p = bitlen ((q - 1) / (2 * p.gamma2) - 1)

abbrev pub z_bytes : Param → ℕ
z_bytes p = nn * z_bits p / 8

abbrev pub sig_size : Param → ℕ
sig_size p = p.ct_bytes + p.l * z_bytes p + p.omega_max + p.k

-- Row i of the matrix that expandA lays out.
abbrev pub row : Param → List Poly → ℕ → List Poly
row p a i = take p.l (drop (i * p.l) a)

abbrev pub map_polys : (ℤ → ℤ) → PolyVec → PolyVec
map_polys f v = map (map f) v

abbrev pub zip_polys : (ℤ → ℤ → ℤ) → PolyVec → PolyVec → PolyVec
zip_polys f u v = zip_with (zip_with f) u v

abbrev pub abs_max : (ℤ → ℤ) → PolyVec → ℤ
abs_max f v =
    foldl
      (foldl λ mx c.
        let a = if ltb_ℤ (f c) (pos 0) then pos 0 -ℤ f c else f c in if ltb_ℤ mx a then a else mx)
      (pos 0) v

abbrev pub count_hints : PolyVec → ℕ
count_hints h = foldl (foldl λ n c. if c ==ℤ pos 0 then n else n + 1) 0 h

-- What one round of signCore reads: the matrix, mu, rho'' and the transformed secrets.
pub record Prepared : Type 0 where
  pub a : List Poly
  pub mu : List ℕ
  pub rho_pp : List ℕ
  pub s1_hat : PolyVec
  pub s2_hat : PolyVec
  pub t0_hat : PolyVec

unfoldable pub prepare : ℕ → Param → SecretKey → List ℕ → List ℕ → List ℕ → Option Prepared
prepare fuel p sk msg ctx rnd = do
  a ← expand_a fuel sk.rho p.k p.l
  let mu = shake256_sum 64 (cat (sk.tr ∷ framed ctx msg ∷ []))
  some (record {
    a = a;
    mu = mu;
    rho_pp = shake256_sum 64 (cat (sk.key ∷ rnd ∷ mu ∷ []));
    s1_hat = map ntt_forward sk.s1;
    s2_hat = map ntt_forward sk.s2;
    t0_hat = map ntt_forward sk.t0;
  })

-- A round: `none` inside is a `continue`, an outer `none` a sampler out of draws.
unfoldable pub sign_round : ℕ → Param → Prepared → ℕ → Option (Option (List ℕ))
sign_round fuel p s kappa = do
  let y = expand_mask s.rho_pp kappa p.l p.gamma1
  let y_hat = map ntt_forward y
  let w = map (λ i. ntt_inverse (row_product (row p s.a i) y_hat)) (range 0 p.k)
  let w1 = map_polys (λ c. high_bits c p.gamma2) w
  let w1_packed = pack_all (λ v. simple_bit_pack v (w1_bits p)) w1
  let ctilde = shake256_sum p.ct_bytes (cat (s.mu ∷ w1_packed ∷ []))
  c ← sample_in_ball fuel ctilde p.tau
  let chat = ntt_forward c
  let times_c : PolyVec → PolyVec = map λ v. ntt_inverse (pointwise chat v)
  let z = zip_polys (λ u v. centered (mod_q (u +ℤ v))) y (times_c s.s1_hat)
  let wcs2 = zip_polys (λ u v. mod_q (u -ℤ v)) w (times_c s.s2_hat)
  let r0_norm = abs_max (λ u. low_bits u p.gamma2) wcs2
  let ct0 = times_c s.t0_hat
  let ct0_norm = abs_max (λ u. centered (mod_q u)) ct0
  let h =
      zip_polys
        (λ u v.
          if high_bits (mod_q (u +ℤ v)) p.gamma2 ==ℤ high_bits u p.gamma2 then pos 0 else pos 1)
        wcs2 ct0
  let hb = hint_pack h p.omega_max p.k
  some (
      if not (ltb_ℤ (poly_vec_inf_norm z) (pos p.gamma1 -ℤ pos p.beta))
      then none
      else if not (ltb_ℤ r0_norm (pos p.gamma2 -ℤ pos p.beta))
      then none
      else if not (ltb_ℤ ct0_norm (pos p.gamma2)) || ltb p.omega_max (count_hints h)
      then none
      else if length hb == 0
      then none
      else some (ctilde ++ (pack_all (λ v. bit_pack v (pos p.gamma1) (z_bits p)) z ++ hb)))

-- `for (kappa = 0; kappa < 1000 * l; kappa += l)` has 1000 rounds; `[]` is its `return {}`.
unfoldable pub sign_loop : ℕ → ℕ → Param → Prepared → ℕ → Option (List ℕ)
unfolding sign_round
sign_loop fuel zero p s kappa = some []
sign_loop fuel (suc rounds) p s kappa =
    let later = sign_loop fuel rounds p s (kappa + p.l) in
    elim (sign_round fuel p s kappa) [
      | none ↦ none
      | some attempt ↦ elim attempt [ none ↦ later | some sig ↦ some sig ]
    ]

unfoldable pub sign_core : ℕ → Param → SecretKey → List ℕ → List ℕ → List ℕ → Option (List ℕ)
unfolding sign_loop prepare
sign_core fuel p sk msg ctx rnd = do s ← prepare fuel p sk msg ctx rnd; sign_loop fuel 1000 p s 0
