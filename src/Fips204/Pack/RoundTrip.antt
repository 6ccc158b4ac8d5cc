-- ===== src/Fips204/Pack/RoundTrip.antt =====
-- bitPack against bitUnpack and simpleBitPack against simpleBitUnpack.
use bht_bhte.Prelude.{ℕ, ◌*◌, ◌^◌, ◌≤◌, ◌<◌, ◌≡◌, List, [], ◌∷◌, ap, ◌∙◌, arith, length, All, map}
use bht_bhte.Prelude.Radix.{IsBelow, value, digits, length-digits}
use bht_bhte.Prelude.Int.{ℤ, pos, negsuc, ◌-ℤ◌, ◌≤ℤ◌, ◌<ℤ◌}
use bht_bhte.Fips204.Field.{nn, Poly, to_u32, to_i32}
use bht_bhte.Fips204.Pack.{simple_bit_pack, bit_pack, simple_bit_unpack, bit_unpack}
use bht_bhte.Fips204.Pack.Laws.{
  Fits, Opens, packed-digits, unpacked-packed, packed-unpacked, reads-IsBelow,
}
use native.Mathlib.Nat.{pow-le-pow_right}

-- A coefficient that simpleBitPack writes in `bits` bits.
abbrev pub IsUnsigned : ℕ → ℤ → Type 0
IsUnsigned bits c = (pos 0 ≤ℤ c) × (c <ℤ pos (2 ^ bits))

-- A coefficient that bitPack writes in `bits` bits below `b`.
abbrev pub IsOffset : ℤ → ℕ → ℤ → Type 0
IsOffset b bits c = (c ≤ℤ b) × (b -ℤ c <ℤ pos (2 ^ bits))

pow_small : (bits : ℕ) → bits ≤ 31 → 2 ^ bits ≤ 2 ^ 31
pow_small bits h = pow-le-pow_right {n = 2} (omega arith) h

abbrev minus : ℤ → ℤ → ℕ
minus b c = to_u32 (b -ℤ c)

abbrev plus : ℤ → ℕ → ℤ
plus b v = b -ℤ to_i32 v

module _ (bits : ℕ) (hb : bits ≤ 31) where
  unsigned-fits : (c : ℤ) → IsUnsigned bits c → (to_u32 c < 2 ^ bits) × (to_i32 (to_u32 c) ≡ c)
  unsigned-fits (pos n) h = ground (arith, pow_small bits hb)
  unsigned-fits (negsuc n) h = absurd (omega arith)

  unsigned-Fits : (p : Poly) → All (IsUnsigned bits) p → Fits to_u32 to_i32 bits (omega arith) p
  unsigned-Fits [] h = tt
  unsigned-Fits (c ∷ p) (h, hs) = (unsigned-fits c h, unsigned-Fits p hs)

  unsigned-opens : (v : ℕ) → v < 2 ^ bits → to_u32 (to_i32 v) ≡ v
  unsigned-opens v h = ground (arith, pow_small bits hb)

  unsigned-Opens : (vs : List ℕ) → IsBelow (2 ^ bits) vs → Opens to_u32 to_i32 bits (omega arith) vs
  unsigned-Opens [] h = tt
  unsigned-Opens (v ∷ vs) (h, hs) = (unsigned-opens v h, unsigned-Opens vs hs)

  offset-fits : (b c : ℤ) → IsOffset b bits c → (minus b c < 2 ^ bits) × (plus b (minus b c) ≡ c)
  unfolding ◌-ℤ◌
  offset-fits b c h = ground (arith, pow_small bits hb)

  offset-Fits :
      (b : ℤ) (p : Poly) → All (IsOffset b bits) p → Fits (minus b) (plus b) bits (omega arith) p
  offset-Fits b [] h = tt
  offset-Fits b (c ∷ p) (h, hs) = (offset-fits b c h, offset-Fits b p hs)

  offset-opens : (b : ℤ) (v : ℕ) → v < 2 ^ bits → minus b (plus b v) ≡ v
  unfolding ◌-ℤ◌
  offset-opens b v h = ground (arith, pow_small bits hb)

  offset-Opens :
      (b : ℤ) (vs : List ℕ) → IsBelow (2 ^ bits) vs → Opens (minus b) (plus b) bits (omega arith) vs
  offset-Opens b [] h = tt
  offset-Opens b (v ∷ vs) (h, hs) = (offset-opens b v h, offset-Opens b vs hs)

  -- For 256 coefficients from 0 up to 2 ^ bits, simpleBitPack writes 32 * bits bytes, and they are
  -- the base-256 digits of the number whose base-2^bits digits are the coefficients.
  pub simple_bit_pack-digits :
      (p : Poly)
      → length p ≡ nn
      → All (IsUnsigned bits) p
      → simple_bit_pack p bits ≡ digits 256 (32 * bits) (value (2 ^ bits) (map to_u32 p))
  unfolding simple_bit_pack
  simple_bit_pack-digits p hl h =
      packed-digits to_u32 to_i32 bits (omega arith) p hl (unsigned-Fits p h)

  pub length-simple_bit_pack :
      (p : Poly)
      → length p ≡ nn
      → All (IsUnsigned bits) p
      → length (simple_bit_pack p bits) ≡ 32 * bits
  length-simple_bit_pack p hl h =
      ap length (simple_bit_pack-digits p hl h) ∙ length-digits 256 (32 * bits) _

  -- simpleBitUnpack reads back 256 coefficients from 0 up to 2 ^ bits that simpleBitPack wrote.
  pub simple_bit_unpack-simple_bit_pack :
      (p : Poly)
      → length p ≡ nn
      → All (IsUnsigned bits) p
      → simple_bit_unpack (simple_bit_pack p bits) bits ≡ p
  unfolding simple_bit_pack simple_bit_unpack
  simple_bit_unpack-simple_bit_pack p hl h =
      unpacked-packed to_u32 to_i32 bits (omega arith) p hl (unsigned-Fits p h)

  -- simpleBitPack writes back any 32 * bits bytes that simpleBitUnpack has read.
  pub simple_bit_pack-simple_bit_unpack :
      (buf : List ℕ)
      → length buf ≡ 32 * bits
      → IsBelow 256 buf
      → simple_bit_pack (simple_bit_unpack buf bits) bits ≡ buf
  unfolding simple_bit_pack simple_bit_unpack
  simple_bit_pack-simple_bit_unpack buf size h =
      packed-unpacked to_u32 to_i32 bits (omega arith) buf size h
        (unsigned-Opens _ (reads-IsBelow nn bits buf (omega arith) h).0)

  pub length-bit_pack :
      (b : ℤ) (p : Poly)
      → length p ≡ nn
      → All (IsOffset b bits) p
      → length (bit_pack p b bits) ≡ 32 * bits
  unfolding bit_pack
  length-bit_pack b p hl h =
      ap length (packed-digits (minus b) (plus b) bits (omega arith) p hl (offset-Fits b p h))
      ∙ length-digits 256 (32 * bits) _

  -- bitUnpack reads back 256 coefficients in (b - 2 ^ bits, b] that bitPack wrote.
  pub bit_unpack-bit_pack :
      (b : ℤ) (p : Poly)
      → length p ≡ nn
      → All (IsOffset b bits) p
      → bit_unpack (bit_pack p b bits) b bits ≡ p
  unfolding bit_pack bit_unpack
  bit_unpack-bit_pack b p hl h =
      unpacked-packed (minus b) (plus b) bits (omega arith) p hl (offset-Fits b p h)

  -- bitPack writes back any 32 * bits bytes that bitUnpack has read.
  pub bit_pack-bit_unpack :
      (b : ℤ) (buf : List ℕ)
      → length buf ≡ 32 * bits
      → IsBelow 256 buf
      → bit_pack (bit_unpack buf b bits) b bits ≡ buf
  unfolding bit_pack bit_unpack
  bit_pack-bit_unpack b buf size h =
      packed-unpacked (minus b) (plus b) bits (omega arith) buf size h
        (offset-Opens b _ (reads-IsBelow nn bits buf (omega arith) h).0)
