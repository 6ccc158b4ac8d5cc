-- ===== src/TypeBridge/Laws.antt =====
-- The hexadecimal form and the byte order of 256-bit values.
use bht_bhte.Prelude.{
  ℕ, zero, suc, ◌+◌, ◌-◌, ◌*◌, ◌/◌, ◌%◌, ◌<◌, ◌≡◌, refl, ap, ◌∙◌, List, [], ◌∷◌, some, arith, map,
  bit_and, ==_iff, length, get_or, range,
}
use bht_bhte.Prelude.Bits.{bit_and-mask, bit_or-low}
use bht_bhte.Prelude.Radix.{IsBelow}
use bht_bhte.TypeBridge.{
  uint256_le_to_be, each, hex_char, hex_digit, to_hex, from_hex_loop, from_hex,
}
use mathlib.Core.Path.{ap₂}

hex_digit-hex_char : (d : ℕ) → d < 16 → hex_digit (hex_char d) ≡ some d
unfolding hex_digit
hex_digit-hex_char d h = ground arith

from_hex_loop-to_hex : (hash : List ℕ) → IsBelow 256 hash → from_hex_loop (to_hex hash) ≡ some hash
unfolding from_hex_loop to_hex
from_hex_loop-to_hex [] h = refl
from_hex_loop-to_hex (b ∷ hash) (h, hs) =
    let low : bit_and b 0x0F ≡ b % 16 = bit_and-mask 4 b in
    rw
      (
        low,
        hex_digit-hex_char (b / 16) (omega arith),
        hex_digit-hex_char (b % 16) (omega arith),
        from_hex_loop-to_hex hash hs,
        bit_or-low 4 (b % 16) (b / 16) (omega arith),
      )
      (ap (λ (x : ℕ). some (x ∷ hash)) (omega arith))

length-to_hex : (hash : List ℕ) → length (to_hex hash) ≡ length hash * 2
unfolding to_hex
length-to_hex [] = omega arith
length-to_hex (b ∷ hash) = omega (arith, length-to_hex hash)

-- FromHex reads back the 64 characters that ToHex writes for 32 bytes.
pub from_hex-to_hex :
    (hash : List ℕ) → length hash ≡ 32 → IsBelow 256 hash → from_hex (to_hex hash) ≡ some hash
unfolding from_hex
from_hex-to_hex hash size h =
    let whole : length (to_hex hash) ≡ 64 = omega (arith, length-to_hex hash) in
    rw ((==_iff _ _).1 whole) (from_hex_loop-to_hex hash h)

get_or-map-range : (f : ℕ → ℕ) (lo n i : ℕ) → i < n → get_or (map f (range lo n)) i 0 ≡ f (lo + i)
get_or-map-range f lo zero i h = absurd (omega arith)
get_or-map-range f lo (suc n) zero h = ap f (omega arith)
get_or-map-range f lo (suc n) (suc i) h =
    get_or-map-range f (suc lo) n i (omega arith) ∙ ap f (omega arith)

map-range-get_or :
    (f : ℕ → ℕ) (lo : ℕ) (xs : List ℕ)
    → ((i : ℕ) → i < length xs → f (lo + i) ≡ get_or xs i 0)
    → map f (range lo (length xs)) ≡ xs
map-range-get_or f lo [] h = refl
map-range-get_or f lo (x ∷ xs) h =
    ap₂ ◌∷◌ (ap f (omega arith) ∙ h 0 (omega arith))
      (map-range-get_or f (suc lo) xs λ i k. ap f (omega arith) ∙ h (suc i) (omega arith))

-- Turning the bytes of a 256-bit value around twice gives the value back.
pub uint256_le_to_be-uint256_le_to_be :
    (hash : List ℕ) → length hash ≡ 32 → uint256_le_to_be (uint256_le_to_be hash) ≡ hash
unfolding uint256_le_to_be
uint256_le_to_be-uint256_le_to_be hash size =
    let turned : ℕ → ℕ = λ i. get_or (each λ j. get_or hash (31 - j) 0) (31 - i) 0 in
    let whole : 32 ≡ length hash = omega (arith, size) in
    ap (λ (n : ℕ). map turned (range 0 n)) whole
    ∙ map-range-get_or turned 0 hash (λ i k.
      get_or-map-range (λ j. get_or hash (31 - j) 0) 0 32 (31 - (0 + i)) (omega arith)
      ∙ (let back : 31 - (0 + (31 - (0 + i))) ≡ i = omega (arith, size) in
          ap (λ (j : ℕ). get_or hash j 0) back))
