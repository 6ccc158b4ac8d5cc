-- ===== src/Fips204/Shake.antt =====
-- The class Shake and shake256Sum of mldsa_fips204.h. The lanes are read as bytes the way a
-- little-endian machine holds them.
use bht_bhte.Prelude.{
  ℕ, zero, suc, ◌+◌, ◌-◌, ◌*◌, ◌/◌, ◌%◌, ◌^◌, List, [], ◌∷◌, bit_xor, ◌==◌, if◌then◌else◌, length,
  get_or, set, take, drop, replicate, concat,
}
use bht_bhte.Fips204.Keccak.{keccakf}

pub record Shake : Type 0 where
  pub st : List ℕ
  pub rate : ℕ
  pub squeeze_pos : ℕ

-- `sb[i] ^= b` and `sb[i]`.
unfoldable pub xor_byte : List ℕ → ℕ → ℕ → List ℕ
xor_byte st i b = set st (i / 8) (bit_xor (get_or st (i / 8) 0) (b * 2 ^ (8 * (i % 8))))

unfoldable pub state_byte : List ℕ → ℕ → ℕ
state_byte st i = get_or st (i / 8) 0 / 2 ^ (8 * (i % 8)) % 256

unfoldable pub xor_bytes : List ℕ → ℕ → List ℕ → List ℕ
unfolding xor_byte
xor_bytes st i [] = st
xor_bytes st i (b ∷ bs) = xor_bytes (xor_byte st i b) (i + 1) bs

unfoldable pub absorb_blocks : ℕ → ℕ → List ℕ → List ℕ → List ℕ
unfolding xor_bytes
absorb_blocks zero rate st input = st
absorb_blocks (suc blocks) rate st input =
    absorb_blocks blocks rate (keccakf (xor_bytes st 0 (take rate input))) (drop rate input)

-- The constructor, with `absorb` in it.
unfoldable pub shake : ℕ → List ℕ → Shake
unfolding absorb_blocks xor_bytes xor_byte
shake rate input =
    let blocks = length input / rate in
    let rest = drop (blocks * rate) input in
    let s = xor_bytes (absorb_blocks blocks rate (replicate 25 0) input) 0 rest in
    record {
      st = keccakf (xor_byte (xor_byte s (length rest) 0x1F) (rate - 1) 0x80);
      rate = rate;
      squeeze_pos = 0;
    }

unfoldable pub read_byte : Shake → ℕ × Shake
unfolding state_byte
read_byte s =
    let s' =
      if s.squeeze_pos == s.rate then record s { st = keccakf s.st; squeeze_pos = 0 } else s in
    (state_byte s'.st s'.squeeze_pos, record s' { squeeze_pos = s'.squeeze_pos + 1 })

unfoldable pub shake_read : Shake → ℕ → List ℕ × Shake
unfolding read_byte
shake_read s zero = ([], s)
shake_read s (suc n) = let (b, s') = read_byte s in let (bs, s'') = shake_read s' n in (b ∷ bs, s'')

unfoldable pub cat : List (List ℕ) → List ℕ
cat parts = concat parts

unfoldable pub shake256_sum : ℕ → List ℕ → List ℕ
unfolding shake_read shake
shake256_sum out_len input = (shake_read (shake 136 input) out_len).0
