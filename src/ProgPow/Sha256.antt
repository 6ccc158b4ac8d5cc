-- ===== src/ProgPow/Sha256.antt =====
-- The class SHA256 of BHC/src/crypto/progpow.cpp. A word is a number below 2 ^ 32.
use bht_bhte.Prelude.{
  ℕ, zero, suc, ◌+◌, ◌-◌, ◌*◌, ◌/◌, ◌%◌, ◌^◌, ◌≡◌, refl, bit_and, bit_xor, List, [], ◌∷◌, ◌++◌,
  foldl, length, get_or, take, drop, replicate, zip_with,
}
use bht_bhte.ProgPow.{rotr32}

abbrev round_words : List ℕ
round_words =
    0x428a2f98 ∷ 0x71374491 ∷ 0xb5c0fbcf ∷ 0xe9b5dba5 ∷ 0x3956c25b ∷ 0x59f111f1 ∷ 0x923f82a4
    ∷ 0xab1c5ed5 ∷ 0xd807aa98 ∷ 0x12835b01 ∷ 0x243185be ∷ 0x550c7dc3 ∷ 0x72be5d74 ∷ 0x80deb1fe
    ∷ 0x9bdc06a7 ∷ 0xc19bf174 ∷ 0xe49b69c1 ∷ 0xefbe4786 ∷ 0x0fc19dc6 ∷ 0x240ca1cc ∷ 0x2de92c6f
    ∷ 0x4a7484aa ∷ 0x5cb0a9dc ∷ 0x76f988da ∷ 0x983e5152 ∷ 0xa831c66d ∷ 0xb00327c8 ∷ 0xbf597fc7
    ∷ 0xc6e00bf3 ∷ 0xd5a79147 ∷ 0x06ca6351 ∷ 0x14292967 ∷ 0x27b70a85 ∷ 0x2e1b2138 ∷ 0x4d2c6dfc
    ∷ 0x53380d13 ∷ 0x650a7354 ∷ 0x766a0abb ∷ 0x81c2c92e ∷ 0x92722c85 ∷ 0xa2bfe8a1 ∷ 0xa81a664b
    ∷ 0xc24b8b70 ∷ 0xc76c51a3 ∷ 0xd192e819 ∷ 0xd6990624 ∷ 0xf40e3585 ∷ 0x106aa070 ∷ 0x19a4c116
    ∷ 0x1e376c08 ∷ 0x2748774c ∷ 0x34b0bcb5 ∷ 0x391c0cb3 ∷ 0x4ed8aa4a ∷ 0x5b9cca4f ∷ 0x682e6ff3
    ∷ 0x748f82ee ∷ 0x78a5636f ∷ 0x84c87814 ∷ 0x8cc70208 ∷ 0x90befffa ∷ 0xa4506ceb ∷ 0xbef9a3f7
    ∷ 0xc67178f2 ∷ []

pub record Regs : Type 0 where
  pub a : ℕ
  pub b : ℕ
  pub c : ℕ
  pub d : ℕ
  pub e : ℕ
  pub f : ℕ
  pub g : ℕ
  pub h : ℕ

abbrev initial : Regs
initial = record {
  a = 0x6a09e667;
  b = 0xbb67ae85;
  c = 0x3c6ef372;
  d = 0xa54ff53a;
  e = 0x510e527f;
  f = 0x9b05688c;
  g = 0x1f83d9ab;
  h = 0x5be0cd19;
}

abbrev add32 : ℕ → ℕ → ℕ
add32 x y = (x + y) % 2 ^ 32

abbrev xor3 : ℕ → ℕ → ℕ → ℕ
xor3 x y z = bit_xor (bit_xor x y) z

-- The bytes of the message, a one bit, zeros and the count of bits in eight bytes.
unfoldable pub pad : List ℕ → List ℕ
pad input =
    let padded_len = ((length input + 8) / 64 + 1) * 64 in
    let bits = length input * 8 % 2 ^ 64 in
    input
    ++ (0x80
        ∷ (replicate (padded_len - length input - 9) 0
            ++ (bits / 2 ^ 56 % 256
                ∷ bits / 2 ^ 48 % 256
                ∷ bits / 2 ^ 40 % 256
                ∷ bits / 2 ^ 32 % 256
                ∷ bits / 2 ^ 24 % 256
                ∷ bits / 2 ^ 16 % 256
                ∷ bits / 2 ^ 8 % 256
                ∷ bits % 256
                ∷ [])))

-- The words of a block, of four bytes each.
abbrev block_words : ℕ → List ℕ → List ℕ
block_words zero block = []
block_words (suc n) block =
    (get_or block 0 0 * 2 ^ 24
      + get_or block 1 0 * 2 ^ 16
      + get_or block 2 0 * 2 ^ 8
      + get_or block 3 0)
    ∷ block_words n (drop 4 block)

-- The n words after those that are there.
unfoldable pub expand : ℕ → List ℕ → List ℕ
unfolding rotr32
expand zero w = w
expand (suc n) w =
    let i = length w in
    let x = get_or w (i - 15) 0 in
    let y = get_or w (i - 2) 0 in
    let s0 = xor3 (rotr32 x 7) (rotr32 x 18) (x / 2 ^ 3) in
    let s1 = xor3 (rotr32 y 17) (rotr32 y 19) (y / 2 ^ 10) in
    expand n (w ++ (add32 (add32 (add32 (get_or w (i - 16) 0) s0) (get_or w (i - 7) 0)) s1 ∷ []))

unfoldable pub sha_round : Regs → ℕ → Regs
unfolding rotr32
sha_round r kw =
    let s1 = xor3 (rotr32 r.e 6) (rotr32 r.e 11) (rotr32 r.e 25) in
    let ch = bit_xor (bit_and r.e r.f) (bit_and (2 ^ 32 - 1 - r.e) r.g) in
    let temp1 = add32 (add32 (add32 r.h s1) ch) kw in
    let s0 = xor3 (rotr32 r.a 2) (rotr32 r.a 13) (rotr32 r.a 22) in
    let maj = xor3 (bit_and r.a r.b) (bit_and r.a r.c) (bit_and r.b r.c) in
    record {
      a = add32 temp1 (add32 s0 maj);
      b = r.a;
      c = r.b;
      d = r.c;
      e = add32 r.d temp1;
      f = r.e;
      g = r.f;
      h = r.g;
    }

unfoldable pub compress : Regs → List ℕ → Regs
unfolding expand sha_round
compress s block =
    let w = expand 48 (block_words 16 block) in
    let r = foldl sha_round s (zip_with add32 round_words w) in
    record {
      a = add32 s.a r.a;
      b = add32 s.b r.b;
      c = add32 s.c r.c;
      d = add32 s.d r.d;
      e = add32 s.e r.e;
      f = add32 s.f r.f;
      g = add32 s.g r.g;
      h = add32 s.h r.h;
    }

unfoldable pub blocks_hash : ℕ → Regs → List ℕ → Regs
unfolding compress
blocks_hash zero s padded = s
blocks_hash (suc n) s padded = blocks_hash n (compress s (take 64 padded)) (drop 64 padded)

abbrev word_bytes : ℕ → List ℕ → List ℕ
word_bytes w rest = w / 2 ^ 24 % 256 ∷ w / 2 ^ 16 % 256 ∷ w / 2 ^ 8 % 256 ∷ w % 256 ∷ rest

unfoldable pub sha256 : List ℕ → List ℕ
unfolding pad blocks_hash
sha256 input =
    let s = blocks_hash ((length input + 8) / 64 + 1) initial (pad input) in
    word_bytes s.a (
      word_bytes s.b (
        word_bytes s.c
          (word_bytes s.d (word_bytes s.e (word_bytes s.f (word_bytes s.g (word_bytes s.h [])))))))

-- Of the text "abc", from the standard.
test_abc :
    sha256 (97 ∷ 98 ∷ 99 ∷ [])
    ≡ 0xba ∷ 0x78 ∷ 0x16 ∷ 0xbf ∷ 0x8f ∷ 0x01 ∷ 0xcf ∷ 0xea ∷ 0x41 ∷ 0x41 ∷ 0x40 ∷ 0xde ∷ 0x5d
      ∷ 0xae ∷ 0x22 ∷ 0x23 ∷ 0xb0 ∷ 0x03 ∷ 0x61 ∷ 0xa3 ∷ 0x96 ∷ 0x17 ∷ 0x7a ∷ 0x9c ∷ 0xb4 ∷ 0x10
      ∷ 0xff ∷ 0x61 ∷ 0xf2 ∷ 0x00 ∷ 0x15 ∷ 0xad ∷ []
unfolding sha256
test_abc = refl
