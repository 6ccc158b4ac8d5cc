-- ===== src/Fips204/Keys/Canonical.antt =====
-- The bytes of a public key against the key: encodePK after decodePK.
use bht_bhte.Prelude.{
  ℕ, zero, suc, ◌+◌, ◌*◌, ◌<◌, ◌≡◌, refl, sym, ap, ◌∙◌, List, [], ◌∷◌, ◌++◌, none, some, arith,
  Bool, true, false, ==_iff, not, if◌then◌else◌, ◌==◌, length, length-take, length-drop, take, drop,
  take-append-drop, All-take, All-drop,
}
use mathlib.Core.Path.{ap₂}
use bht_bhte.Prelude.Radix.{IsBelow}
use bht_bhte.Fips204.Field.{Poly}
use bht_bhte.Fips204.Param.{Param}
use bht_bhte.Fips204.Pack.{simple_bit_pack, simple_bit_unpack}
use bht_bhte.Fips204.Pack.RoundTrip.{simple_bit_pack-simple_bit_unpack}
use bht_bhte.Fips204.Keys.{PublicKey, pack_all, unpack_all, encode_pk, decode_pk}

module _ (pack : Poly → List ℕ) (unpack : List ℕ → Poly) (size : ℕ)
    (inverse : (b : List ℕ) → length b ≡ size → IsBelow 256 b → pack (unpack b) ≡ b) where
  pack_all-unpack_all :
      (n : ℕ) (bytes : List ℕ)
      → length bytes ≡ n * size
      → IsBelow 256 bytes
      → (pack_all pack (take n (unpack_all unpack size n bytes).0) ≡ bytes)
  unfolding pack_all unpack_all
  pack_all-unpack_all zero [] e h = refl
  pack_all-unpack_all zero (b ∷ bytes) e h = absurd (omega arith)
  pack_all-unpack_all (suc n) bytes e h =
      let below = λ (b : ℕ). b < 256 in
      let front =
        inverse (take size bytes) (omega (arith, length-take size bytes))
          (All-take below size bytes h) in
      let back =
        pack_all-unpack_all n (drop size bytes) (omega (arith, length-drop size bytes))
          (All-drop below size bytes h) in
      ap₂ ◌++◌ front back ∙ take-append-drop size bytes

guarded :
    {A : Type 0} (b : Bool) (x y : A)
    → (if not b then none else some x) ≡ some y
    → (b ≡ true) × (x ≡ y)
guarded true x y e = (refl, cc)
guarded false x y e = cc

-- encodePK writes back every byte string that decodePK accepts.
pub encode_pk-decode_pk :
    (p : Param) (bytes : List ℕ) (pk : PublicKey)
    → IsBelow 256 bytes
    → decode_pk p bytes ≡ some pk
    → encode_pk p pk ≡ bytes
unfolding decode_pk encode_pk
encode_pk-decode_pk p bytes pk h e =
    let (fits, same) = guarded (length bytes == 32 + p.k * 320) _ pk e in
    let size = (==_iff _ _).0 fits in
    let t1 =
      pack_all-unpack_all (λ t. simple_bit_pack t 10) (λ b. simple_bit_unpack b 10) 320
        (λ b size below. simple_bit_pack-simple_bit_unpack 10 (omega arith) b size below) p.k
        (drop 32 bytes) (omega (arith, size, length-drop 32 bytes))
        (All-drop (λ (b : ℕ). b < 256) 32 bytes h) in
    ap (encode_pk p) (sym same) ∙ ap (◌++◌ (take 32 bytes)) t1 ∙ take-append-drop 32 bytes
