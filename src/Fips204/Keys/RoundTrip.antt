-- ===== src/Fips204/Keys/RoundTrip.antt =====
-- The keys against their bytes.
use bht_bhte.Prelude.{
  ℕ, zero, suc, ◌+◌, ◌*◌, ◌/◌, ◌≤◌, ◌≡◌, refl, sym, ap, ◌∙◌, List, [], ◌∷◌, ◌++◌, some, arith,
  append_assoc, append-nil, ==_iff, length, length-append, take, drop, take-length-append,
  drop-length-append, All,
}
use bht_bhte.Prelude.Int.{ℤ, pos}
use bht_bhte.Fips204.Field.{nn, Poly, PolyVec}
use bht_bhte.Fips204.Param.{Param}
use bht_bhte.Fips204.Pack.{simple_bit_pack, bit_pack, simple_bit_unpack, bit_unpack}
use bht_bhte.Fips204.Pack.RoundTrip.{
  IsUnsigned, IsOffset, simple_bit_unpack-simple_bit_pack, bit_unpack-bit_pack, length-bit_pack,
  length-simple_bit_pack,
}
use bht_bhte.Fips204.Keys.{
  PublicKey, SecretKey, pack_all, unpack_all, encode_pk, decode_pk, encode_sk, decode_sk, eta_bits,
}

-- The front of a list of known length.
take-append_at :
    (n : ℕ) (xs ys : List ℕ) → length xs ≡ n → (take n (xs ++ ys) ≡ xs) × (drop n (xs ++ ys) ≡ ys)
take-append_at n xs ys e = (
  ap (λ k. take k (xs ++ ys)) (sym e) ∙ take-length-append xs ys,
  ap (λ k. drop k (xs ++ ys)) (sym e) ∙ drop-length-append xs ys,
)

take-whole {ℓ} : {A : Type ℓ} (n : ℕ) (xs : List A) → length xs ≡ n → take n xs ≡ xs
take-whole zero [] e = refl
take-whole zero (x ∷ xs) e = absurd (omega arith)
take-whole (suc n) [] e = absurd (omega arith)
take-whole (suc n) (x ∷ xs) e = ap (◌∷◌ x) (take-whole n xs (omega arith))

module _ (pack : Poly → List ℕ) (unpack : List ℕ → Poly) (size : ℕ) where
  -- Reading gives the polynomial back, from bytes of the expected number.
  abbrev Codes : Poly → Type 0
  Codes p = (length (pack p) ≡ size) × (unpack (pack p) ≡ p)

  length-pack_all : (v : PolyVec) → All Codes v → length (pack_all pack v) ≡ length v * size
  unfolding pack_all
  length-pack_all [] h = omega arith
  length-pack_all (p ∷ v) ((h, _), hs) =
      omega (arith, length-append (pack p) (pack_all pack v), length-pack_all v hs)

  unpack_all-pack_all :
      (n : ℕ) (v : PolyVec) (rest : List ℕ)
      → length v ≡ n
      → All Codes v
      → unpack_all unpack size n (pack_all pack v ++ rest) ≡ (v, rest)
  unfolding unpack_all pack_all
  unpack_all-pack_all zero [] rest e h = refl
  unpack_all-pack_all zero (p ∷ v) rest e h = absurd (omega arith)
  unpack_all-pack_all (suc n) [] rest e h = absurd (omega arith)
  unpack_all-pack_all (suc n) (p ∷ v) rest e ((h, k), hs) =
      let (front, back) = take-append_at size (pack p) (pack_all pack v ++ rest) h in
      rw (
        append_assoc (pack p) (pack_all pack v) rest,
        front,
        back,
        k,
        unpack_all-pack_all n v rest (omega arith) hs,
      )

All-map :
    {A : Type 0} (P Q : A → Type 0) (f : (a : A) → P a → Q a) (xs : List A) → All P xs → All Q xs
All-map P Q f [] h = tt
All-map P Q f (x ∷ xs) (h, hs) = (f x h, All-map P Q f xs hs)

-- 256 coefficients with a bound on each.
abbrev pub IsPoly : (ℤ → Type 0) → Poly → Type 0
IsPoly P p = (length p ≡ nn) × All P p

pub record IsPublicKey (p : Param) (pk : PublicKey) : Type 0 where
  pub rho_size : length pk.rho ≡ 32
  pub t1_size : length pk.t1 ≡ p.k
  pub t1_range : All (IsPoly (IsUnsigned 10)) pk.t1

t1-Codes :
    (v : PolyVec)
    → All (IsPoly (IsUnsigned 10)) v
    → All (Codes (λ t. simple_bit_pack t 10) (λ b. simple_bit_unpack b 10) 320) v
t1-Codes = All-map _ _ λ t (size, h). (
  length-simple_bit_pack 10 (omega arith) t size h,
  simple_bit_unpack-simple_bit_pack 10 (omega arith) t size h,
)

-- decodePK reads back a public key that encodePK wrote: 32 bytes of rho, k polynomials of 256
-- coefficients from 0 up to 2 ^ 10.
pub decode_pk-encode_pk :
    (p : Param) (pk : PublicKey) → IsPublicKey p pk → decode_pk p (encode_pk p pk) ≡ some pk
unfolding decode_pk encode_pk
decode_pk-encode_pk p pk h =
    let pack : Poly → List ℕ = λ t. simple_bit_pack t 10 in
    let unpack : List ℕ → Poly = λ b. simple_bit_unpack b 10 in
    let codes = t1-Codes pk.t1 h.t1_range in
    let whole = take-whole p.k pk.t1 h.t1_size in
    let (front, back) = take-append_at 32 pk.rho (pack_all pack pk.t1) h.rho_size in
    let size : length (pk.rho ++ pack_all pack pk.t1) ≡ 32 + p.k * 320 = omega (
      arith,
      length-append pk.rho (pack_all pack pk.t1),
      length-pack_all pack unpack 320 pk.t1 codes,
      ap (λ (n : ℕ). n * 320) h.t1_size,
      h.rho_size,
    ) in
    let read = unpack_all-pack_all pack unpack 320 p.k pk.t1 [] h.t1_size codes in
    let read' : unpack_all unpack 320 p.k (pack_all pack pk.t1) ≡ (pk.t1, []) =
      ap (unpack_all unpack 320 p.k) (sym (append-nil (pack_all pack pk.t1))) ∙ read in
    rw (whole, (==_iff _ _).1 size, front, back, read')

-- The loops of encodeSK and decodeSK over s1 and s2.
eta-Codes :
    (eta bits : ℕ) (v : PolyVec)
    → bits ≤ 31
    → All (IsPoly (IsOffset (pos eta) bits)) v
    → All (Codes (λ s. bit_pack s (pos eta) bits) (λ b. bit_unpack b (pos eta) bits) (32 * bits)) v
eta-Codes eta bits v hb =
    All-map _ _
      (λ t (size, h). (
        length-bit_pack bits hb (pos eta) t size h,
        bit_unpack-bit_pack bits hb (pos eta) t size h,
      ))
      v

pub record IsSecretKey (p : Param) (sk : SecretKey) : Type 0 where
  pub rho_size : length sk.rho ≡ 32
  pub key_size : length sk.key ≡ 32
  pub tr_size : length sk.tr ≡ 64
  pub s1_size : length sk.s1 ≡ p.l
  pub s2_size : length sk.s2 ≡ p.k
  pub t0_size : length sk.t0 ≡ p.k
  pub s1_range : All (IsPoly (IsOffset (pos p.eta) (eta_bits p))) sk.s1
  pub s2_range : All (IsPoly (IsOffset (pos p.eta) (eta_bits p))) sk.s2
  pub t0_range : All (IsPoly (IsOffset (pos 4096) 13)) sk.t0

eta_bytes-eq : (bits : ℕ) → nn * bits / 8 ≡ 32 * bits
eta_bytes-eq bits = omega arith

-- decodeSK reads back a secret key that encodeSK wrote: rho and the key of 32 bytes, tr of 64, and
-- polynomials of 256 coefficients in (eta - 2 ^ etabits, eta] and in (-2 ^ 12, 2 ^ 12], where
-- etabits is at most 31.
pub decode_sk-encode_sk :
    (p : Param) (sk : SecretKey)
    → eta_bits p ≤ 31
    → IsSecretKey p sk
    → decode_sk p (encode_sk p sk) ≡ some sk
unfolding decode_sk encode_sk
decode_sk-encode_sk p sk hb h =
    let pack : Poly → List ℕ = λ s. bit_pack s (pos p.eta) (eta_bits p) in
    let unpack : List ℕ → Poly = λ b. bit_unpack b (pos p.eta) (eta_bits p) in
    let pack_t : Poly → List ℕ = λ s. bit_pack s (pos 4096) 13 in
    let unpack_t : List ℕ → Poly = λ b. bit_unpack b (pos 4096) 13 in
    let c1 = eta-Codes p.eta (eta_bits p) sk.s1 hb h.s1_range in
    let c2 = eta-Codes p.eta (eta_bits p) sk.s2 hb h.s2_range in
    let c0 = eta-Codes 4096 13 sk.t0 (omega arith) h.t0_range in
    let e = 32 * eta_bits p in
    let x1 = pack_all pack sk.s1 in
    let x2 = pack_all pack sk.s2 in
    let x0 = pack_all pack_t sk.t0 in
    let rho = take-append_at 32 sk.rho (sk.key ++ (sk.tr ++ (x1 ++ (x2 ++ x0)))) h.rho_size in
    let key = take-append_at 32 sk.key (sk.tr ++ (x1 ++ (x2 ++ x0))) h.key_size in
    let tr = take-append_at 64 sk.tr (x1 ++ (x2 ++ x0)) h.tr_size in
    let size : length (sk.rho ++ (sk.key ++ (sk.tr ++ (x1 ++ (x2 ++ x0)))))
        ≡ 128 + (p.l + p.k) * e + p.k * 416 =
      omega (
        arith,
        length-append sk.rho (sk.key ++ (sk.tr ++ (x1 ++ (x2 ++ x0)))),
        length-append sk.key (sk.tr ++ (x1 ++ (x2 ++ x0))),
        length-append sk.tr (x1 ++ (x2 ++ x0)),
        length-append x1 (x2 ++ x0),
        length-append x2 x0,
        length-pack_all pack unpack e sk.s1 c1,
        length-pack_all pack unpack e sk.s2 c2,
        length-pack_all pack_t unpack_t 416 sk.t0 c0,
        ap (λ (n : ℕ). n * e) h.s1_size,
        ap (λ (n : ℕ). n * e) h.s2_size,
        ap (λ (n : ℕ). n * 416) h.t0_size,
        h.rho_size,
        h.key_size,
        h.tr_size,
      ) in
    let t0_read : unpack_all unpack_t 416 p.k x0 ≡ (sk.t0, []) =
      ap (unpack_all unpack_t 416 p.k) (sym (append-nil x0))
      ∙ unpack_all-pack_all pack_t unpack_t 416 p.k sk.t0 [] h.t0_size c0 in
    rw (
      eta_bytes-eq (eta_bits p),
      take-whole p.l sk.s1 h.s1_size,
      take-whole p.k sk.s2 h.s2_size,
      take-whole p.k sk.t0 h.t0_size,
      (==_iff _ _).1 size,
      rho.0,
      rho.1,
      key.0,
      key.1,
      tr.0,
      tr.1,
      unpack_all-pack_all pack unpack e p.l sk.s1 (x2 ++ x0) h.s1_size c1,
      unpack_all-pack_all pack unpack e p.k sk.s2 x0 h.s2_size c2,
      t0_read,
    )
