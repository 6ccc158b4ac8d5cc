-- ===== src/Fips204/Examples.antt =====
-- Concrete coefficients and buffers: tests, and inputs on which the theorems are applied.
use bht_bhte.Prelude.{
  take, drop, List, ◌+◌, ℕ, zero, suc, ◌*◌, ◌^◌, ◌<◌, ◌≤◌, ◌≡◌, refl, if◌then◌else◌, inl, some, [],
  ◌∷◌, arith, map, replicate, All,
}
use bht_bhte.Prelude.Radix.{value, digits, IsBelow}
use bht_bhte.Prelude.Int.{ℤ, pos, negsuc, ◌+ℤ◌, ◌-ℤ◌, ◌==ℤ◌, int_laws}
use bht_bhte.Fips204.Field.{Poly, to_u32, bitlen, bitlen_loop}
use bht_bhte.Fips204.Ntt.{zeta_at, ninv, mod_pow, mod_pow_loop, bitrev8}
use bht_bhte.Fips204.Shake.{
  shake256_sum, shake_read, shake, read_byte, state_byte, absorb_blocks, xor_bytes, xor_byte,
}
use bht_bhte.Fips204.Keccak.{
  keccakf, keccak_round, theta, rho_pi, rho_pi_step, chi, column_parity, rotl64,
}
use bht_bhte.Fips204.Pack.{simple_bit_pack, bit_pack, simple_bit_unpack, bit_unpack}
use bht_bhte.Fips204.Pack.RoundTrip.{
  IsUnsigned, IsOffset, simple_bit_pack-digits, bit_unpack-bit_pack,
}
use bht_bhte.Fips204.Param.{param_for}
use bht_bhte.Fips204.Keys.{
  PublicKey, SecretKey, encode_pk, decode_pk, encode_sk, decode_sk, eta_bits, unpack_all,
}
use bht_bhte.Fips204.Keys.RoundTrip.{
  IsPoly, IsPublicKey, IsSecretKey, decode_pk-encode_pk, decode_sk-encode_sk,
}
use bht_bhte.Fips204.Keys.Canonical.{encode_pk-decode_pk}
use bht_bhte.Fips204.Rounding.{high_bits, use_hint}
use bht_bhte.Fips204.Rounding.Hint.{use_hint-high_bits}

-- n pairs of coefficients.
abbrev pairs : ℕ → ℤ → ℤ → Poly
pairs zero a b = []
pairs (suc n) a b = a ∷ b ∷ pairs n a b

pairs-All {κ} : (P : ℤ → Type κ) (n : ℕ) (a b : ℤ) → P a → P b → All P (pairs n a b)
pairs-All P zero a b ha hb = tt
pairs-All P (suc n) a b ha hb = (ha, (hb, pairs-All P n a b ha hb))

replicate-IsBelow : (n b : ℕ) → b < 256 → IsBelow 256 (replicate n b)
replicate-IsBelow zero b h = tt
replicate-IsBelow (suc n) b h = (h, replicate-IsBelow n b h)

-- Coefficients of t1 in 10 bits, and of a key with eta = 2 in 3 bits.
abbrev t1_poly : Poly
t1_poly = pairs 128 (pos 1023) (pos 6)

t1_poly-IsUnsigned : All (IsUnsigned 10) t1_poly
t1_poly-IsUnsigned =
    pairs-All (IsUnsigned 10) 128 (pos 1023) (pos 6) (omega arith, omega arith)
      (omega arith, omega arith)

abbrev s1_poly : Poly
s1_poly = pairs 128 (pos 2) (negsuc 1)

s1_poly-IsOffset : All (IsOffset (pos 2) 3) s1_poly
unfolding ◌-ℤ◌
s1_poly-IsOffset =
    pairs-All (IsOffset (pos 2) 3) 128 (pos 2) (negsuc 1) (omega arith, omega arith)
      (omega arith, omega arith)

simple_bit_pack-digits_example :
    simple_bit_pack t1_poly 10 ≡ digits 256 (32 * 10) (value (2 ^ 10) (map to_u32 t1_poly))
simple_bit_pack-digits_example =
    simple_bit_pack-digits 10 (omega arith) t1_poly refl t1_poly-IsUnsigned

bit_unpack-bit_pack_example : bit_unpack (bit_pack s1_poly (pos 2) 3) (pos 2) 3 ≡ s1_poly
bit_unpack-bit_pack_example =
    bit_unpack-bit_pack 3 (omega arith) (pos 2) s1_poly refl s1_poly-IsOffset

use_hint-high_bits_example :
    use_hint
      (if high_bits (pos 8300000 +ℤ negsuc 90000) 95232 ==ℤ high_bits (pos 8300000) 95232
        then pos 0
        else pos 1)
      (pos 8300000 +ℤ negsuc 90000)
      95232
    ≡ high_bits (pos 8300000) 95232
use_hint-high_bits_example =
    use_hint-high_bits (pos 8300000) (negsuc 90000) 95232 (inl refl) (omega int_laws)
      (omega int_laws)

test_zeta_at : zeta_at 1 ≡ pos 4808194
unfolding zeta_at mod_pow mod_pow_loop bitrev8
test_zeta_at = refl

test_ninv : ninv ≡ pos 8347681
unfolding ninv mod_pow mod_pow_loop
test_ninv = refl

-- The first bytes of SHAKE256 of the empty string.
test_shake256_sum : shake256_sum 4 [] ≡ 0x46 ∷ 0xb9 ∷ 0xdd ∷ 0x2b ∷ []
unfolding shake256_sum shake_read shake read_byte state_byte absorb_blocks xor_bytes xor_byte
    keccakf keccak_round theta rho_pi rho_pi_step chi column_parity rotl64
test_shake256_sum = refl

abbrev toy_public_key : PublicKey
toy_public_key = record { rho = replicate 32 8; t1 = replicate 6 t1_poly }

vector-All {κ} : (P : Poly → Type κ) (n : ℕ) (v : Poly) → P v → All P (replicate n v)
vector-All P zero v h = tt
vector-All P (suc n) v h = (h, vector-All P n v h)

toy_public_key-IsPublicKey : IsPublicKey (param_for 65) toy_public_key
toy_public_key-IsPublicKey = record {
  rho_size = refl;
  t1_size = refl;
  t1_range = vector-All (IsPoly (IsUnsigned 10)) 6 t1_poly (refl, t1_poly-IsUnsigned);
}

decode_pk-encode_pk_example :
    decode_pk (param_for 65) (encode_pk (param_for 65) toy_public_key) ≡ some toy_public_key
decode_pk-encode_pk_example =
    decode_pk-encode_pk (param_for 65) toy_public_key toy_public_key-IsPublicKey

abbrev t0_poly : Poly
t0_poly = pairs 128 (pos 4096) (negsuc 4094)

t0_poly-IsOffset : All (IsOffset (pos 4096) 13) t0_poly
unfolding ◌-ℤ◌
t0_poly-IsOffset =
    pairs-All (IsOffset (pos 4096) 13) 128 (pos 4096) (negsuc 4094) (omega arith, omega arith)
      (omega arith, omega arith)

abbrev toy_secret_key : SecretKey
toy_secret_key = record {
  rho = replicate 32 8;
  key = replicate 32 9;
  tr = replicate 64 10;
  s1 = replicate 4 s1_poly;
  s2 = replicate 4 s1_poly;
  t0 = replicate 4 t0_poly;
}

toy_secret_key-IsSecretKey : IsSecretKey (param_for 44) toy_secret_key
unfolding bitlen bitlen_loop
toy_secret_key-IsSecretKey = record {
  rho_size = refl;
  key_size = refl;
  tr_size = refl;
  s1_size = refl;
  s2_size = refl;
  t0_size = refl;
  s1_range = vector-All (IsPoly (IsOffset (pos 2) 3)) 4 s1_poly (refl, s1_poly-IsOffset);
  s2_range = vector-All (IsPoly (IsOffset (pos 2) 3)) 4 s1_poly (refl, s1_poly-IsOffset);
  t0_range = vector-All (IsPoly (IsOffset (pos 4096) 13)) 4 t0_poly (refl, t0_poly-IsOffset);
}

small_eta : eta_bits (param_for 44) ≤ 31
unfolding bitlen bitlen_loop
small_eta = omega arith

decode_sk-encode_sk_example :
    decode_sk (param_for 44) (encode_sk (param_for 44) toy_secret_key) ≡ some toy_secret_key
decode_sk-encode_sk_example =
    decode_sk-encode_sk (param_for 44) toy_secret_key small_eta toy_secret_key-IsSecretKey

abbrev key_bytes : List ℕ
key_bytes = replicate (32 + 4 * 320) 201

abbrev key_of_bytes : PublicKey
key_of_bytes = record {
  rho = take 32 key_bytes;
  t1 = (unpack_all (λ b. simple_bit_unpack b 10) 320 4 (drop 32 key_bytes)).0;
}

test_decode_pk : decode_pk (param_for 44) key_bytes ≡ some key_of_bytes
unfolding decode_pk
test_decode_pk = refl

encode_pk-decode_pk_example : encode_pk (param_for 44) key_of_bytes ≡ key_bytes
encode_pk-decode_pk_example =
    encode_pk-decode_pk (param_for 44) key_bytes key_of_bytes
      (replicate-IsBelow (32 + 4 * 320) 201 (omega arith)) test_decode_pk
