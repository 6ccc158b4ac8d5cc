-- ===== src/Fips204/Pack.antt =====
-- bitPack, bitUnpack, simpleBitPack and simpleBitUnpack of mldsa_fips204.h. A buffer with its
-- length is the list of its bytes.
pub mod Laws
pub mod RoundTrip
use bht_bhte.Prelude.{ℕ, zero, suc, List, [], ◌∷◌, map, foldl}
use bht_bhte.Prelude.Int.{ℤ, ◌-ℤ◌}
use bht_bhte.Fips204.Field.{nn, Poly, to_u32, to_i32}
use bht_bhte.Fips204.BitIo.{BitReader, bit_writer, bit_reader, write, read}

-- `for (i = 0; i < n; i++) ... r.read(bits)`
pub reads : ℕ → BitReader → ℕ → List ℕ
reads zero r bits = []
reads (suc n) r bits = let (v, r') = read r bits in v ∷ reads n r' bits

pub simple_bit_pack : Poly → ℕ → List ℕ
simple_bit_pack p bits = (foldl (λ w c. write w (to_u32 c) bits) bit_writer p).out

pub bit_pack : Poly → ℤ → ℕ → List ℕ
bit_pack p b bits = (foldl (λ w c. write w (to_u32 (b -ℤ c)) bits) bit_writer p).out

pub simple_bit_unpack : List ℕ → ℕ → Poly
simple_bit_unpack buf bits = map to_i32 (reads nn (bit_reader buf) bits)

pub bit_unpack : List ℕ → ℤ → ℕ → Poly
bit_unpack buf b bits = map (λ v. b -ℤ to_i32 v) (reads nn (bit_reader buf) bits)
