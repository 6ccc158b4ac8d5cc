-- ===== src/Fips204/Keys.antt =====
-- The keys of mldsa_fips204.h, their bytes, and keyGenInternal.
pub mod RoundTrip
pub mod Canonical
use bht_bhte.Prelude.{
  ℕ, zero, suc, ◌+◌, ◌-◌, ◌*◌, ◌/◌, ◌%◌, ◌^◌, not, List, [], ◌∷◌, ◌++◌, Option, none, some, ◌==◌,
  if◌then◌else◌, length, take, drop, map, concat, range, zip_with, get_or,
}
use bht_bhte.Prelude.Int.{ℤ, pos}
use bht_bhte.Fips204.Field.{nn, dd, Poly, PolyVec, bitlen}
use bht_bhte.Fips204.Param.{Param}
use bht_bhte.Fips204.Pack.{simple_bit_pack, bit_pack, simple_bit_unpack, bit_unpack}
use bht_bhte.Fips204.Shake.{shake256_sum}
use bht_bhte.Fips204.Ntt.{ntt_forward, ntt_inverse, row_product, poly_add_into}
use bht_bhte.Fips204.Sampling.{expand_a, rej_bounded_poly, for_each, ◌>>=◌}
use bht_bhte.Fips204.Rounding.{power2_round}

pub record PublicKey : Type 0 where
  pub rho : List ℕ
  pub t1 : PolyVec

pub record SecretKey : Type 0 where
  pub rho : List ℕ
  pub key : List ℕ
  pub tr : List ℕ
  pub s1 : PolyVec
  pub s2 : PolyVec
  pub t0 : PolyVec

-- The loops over the polynomials of a vector, writing them and reading n of them.
unfoldable pub pack_all : (Poly → List ℕ) → PolyVec → List ℕ
pack_all pack v = concat (map pack v)

unfoldable pub unpack_all : (List ℕ → Poly) → ℕ → ℕ → List ℕ → PolyVec × List ℕ
unpack_all unpack size zero data_ = ([], data_)
unpack_all unpack size (suc n) data_ =
    let (v, rest) = unpack_all unpack size n (drop size data_) in
    (unpack (take size data_) ∷ v, rest)

unfoldable pub encode_pk : Param → PublicKey → List ℕ
encode_pk p pk = pk.rho ++ pack_all (λ t. simple_bit_pack t 10) (take p.k pk.t1)

unfoldable pub decode_pk : Param → List ℕ → Option PublicKey
decode_pk p data_ =
    let bytes_per_poly = nn * 10 / 8 in
    if not (length data_ == 32 + p.k * bytes_per_poly)
    then none
    else some (record {
      rho = take 32 data_;
      t1 = (unpack_all (λ b. simple_bit_unpack b 10) bytes_per_poly p.k (drop 32 data_)).0;
    })

abbrev pub eta_bits : Param → ℕ
eta_bits p = bitlen (2 * p.eta)

unfoldable pub encode_sk : Param → SecretKey → List ℕ
encode_sk p sk =
    let pack_eta : Poly → List ℕ = λ s. bit_pack s (pos p.eta) (eta_bits p) in
    sk.rho
    ++ (sk.key
        ++ (sk.tr
            ++ (pack_all pack_eta (take p.l sk.s1)
                ++ (pack_all pack_eta (take p.k sk.s2)
                    ++ pack_all (λ t. bit_pack t (pos (2 ^ (dd - 1))) dd) (take p.k sk.t0)))))

unfoldable pub decode_sk : Param → List ℕ → Option SecretKey
decode_sk p data_ =
    let eta_bytes = nn * eta_bits p / 8 in
    let t0_bytes = nn * dd / 8 in
    let unpack_eta : List ℕ → Poly = λ b. bit_unpack b (pos p.eta) (eta_bits p) in
    let (s1, rest) = unpack_all unpack_eta eta_bytes p.l (drop 64 (drop 32 (drop 32 data_))) in
    let (s2, rest') = unpack_all unpack_eta eta_bytes p.k rest in
    let (t0, _) = unpack_all (λ b. bit_unpack b (pos (2 ^ (dd - 1))) dd) t0_bytes p.k rest' in
    if not (length data_ == 128 + (p.l + p.k) * eta_bytes + p.k * t0_bytes)
    then none
    else some (record {
      rho = take 32 data_;
      key = take 32 (drop 32 data_);
      tr = take 64 (drop 32 (drop 32 data_));
      s1 = s1;
      s2 = s2;
      t0 = t0;
    })

-- Row i of A * s1 + s2; `fuel` is the number of draws of each sampler.
unfoldable pub key_gen_internal : ℕ → Param → List ℕ → Option (PublicKey × SecretKey)
key_gen_internal fuel p xi = do
  let expanded = shake256_sum 128 (xi ++ p.k % 256 ∷ p.l % 256 ∷ [])
  let rho = take 32 expanded
  let rho_p = take 64 (drop 32 expanded)
  let key = take 32 (drop 96 expanded)
  a ← expand_a fuel rho p.k p.l
  s1 ← for_each (λ i. rej_bounded_poly fuel rho_p i p.eta) (range 0 p.l)
  s2 ← for_each (λ i. rej_bounded_poly fuel rho_p (p.l + i) p.eta) (range 0 p.k)
  let s1_hat = map ntt_forward s1
  let t =
      zip_with
        (λ i s. poly_add_into (ntt_inverse (row_product (take p.l (drop (i * p.l) a)) s1_hat)) s)
        (range 0 p.k) s2
  let pk : PublicKey = record { rho = rho; t1 = map (map λ c. (power2_round c).0) t }
  some (
    pk,
    record {
      rho = rho;
      key = key;
      tr = shake256_sum 64 (encode_pk p pk);
      s1 = s1;
      s2 = s2;
      t0 = map (map λ c. (power2_round c).1) t;
    },
  )
