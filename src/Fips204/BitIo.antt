-- ===== src/Fips204/BitIo.antt =====
-- BitWriter and BitReader of mldsa_fips204.h. Both keep less than a byte between two calls; a
-- uint64_t is a number below 2 ^ 64, with the wrap of the shift written out.
pub mod Writes
pub mod Reads
use bht_bhte.Prelude.{
  ℕ, zero, suc, ◌+◌, ◌-◌, ◌*◌, ◌/◌, ◌%◌, ◌^◌, List, [], ◌∷◌, ◌++◌, bit_and, bit_or, leb, ltb,
  if◌then◌else◌,
}

pub record BitWriter : Type 0 where
  pub out : List ℕ
  pub cur : ℕ
  pub nbits : ℕ

abbrev pub bit_writer : BitWriter
bit_writer = record { out = []; cur = 0; nbits = 0 }

-- `while (nbits >= 8) { out.push_back((uint8_t)cur); cur >>= 8; nbits -= 8; }`
pub flush : ℕ → BitWriter → BitWriter
flush zero w = w
flush (suc fuel) w =
    let rest =
      flush fuel
        (record { out = w.out ++ (w.cur % 256) ∷ []; cur = w.cur / 256; nbits = w.nbits - 8 }) in
    if leb 8 w.nbits then rest else w

-- `val << nbits` is a shift of a uint64_t. A round of `flush` takes eight bits, so `nbits` rounds
-- are enough.
pub write : BitWriter → ℕ → ℕ → BitWriter
write w val bits = flush (w.nbits + bits) (record {
  out = w.out;
  cur = bit_or w.cur (val * 2 ^ w.nbits % 2 ^ 64);
  nbits = w.nbits + bits;
})

-- `rest` is the input that `pos` has not passed.
pub record BitReader : Type 0 where
  pub rest : List ℕ
  pub cur : ℕ
  pub nbits : ℕ

abbrev pub bit_reader : List ℕ → BitReader
bit_reader bytes = record { rest = bytes; cur = 0; nbits = 0 }

-- `pos < len ? in[pos++] : 0`
next_byte : List ℕ → ℕ × List ℕ
next_byte [] = (0, [])
next_byte (b ∷ bs) = (b, bs)

-- `while (nbits < bits) { ... cur |= (uint64_t)b << nbits; nbits += 8; }`
pub refill : ℕ → ℕ → BitReader → BitReader
unfolding next_byte
refill zero bits r = r
refill (suc fuel) bits r =
    let (b, bs) = next_byte r.rest in
    let more =
      refill fuel bits (record {
        rest = bs;
        cur = bit_or r.cur (b * 2 ^ r.nbits % 2 ^ 64);
        nbits = r.nbits + 8;
      }) in
    if ltb r.nbits bits then more else r

take_bits : BitReader → ℕ → ℕ × BitReader
take_bits r bits = (
  bit_and r.cur (2 ^ bits - 1),
  record { rest = r.rest; cur = r.cur / 2 ^ bits; nbits = r.nbits - bits },
)

-- A round adds eight bits, so `bits` rounds are enough.
pub read : BitReader → ℕ → ℕ × BitReader
unfolding refill take_bits
read r bits = take_bits (refill bits bits r) bits
