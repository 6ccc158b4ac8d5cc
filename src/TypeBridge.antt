-- ===== src/TypeBridge.antt =====
-- BHC/src/type_bridge.h: 256-bit values as arrays of 32 bytes, their hexadecimal form, and amounts.
-- A string is the list of its character codes; the conversions from and to double are left out.
pub mod Laws
mod Examples
use bht_bhte.Prelude.{
  ℕ, zero, suc, ◌+◌, ◌-◌, ◌*◌, ◌/◌, ◌%◌, ◌^◌, Bool, true, false, not, ◌&&◌, List, [], ◌∷◌, Option,
  none, some, map, bit_and, bit_or, bit_xor, ltb, leb, ◌==◌, if◌then◌else◌, length, take, get_or,
  set, replicate, range,
}

abbrev pub uint256_size : ℕ
uint256_size = 32

unfoldable pub to_bhc_crypto : List ℕ → List ℕ
to_bhc_crypto hash =
    if leb uint256_size (length hash) then take uint256_size hash else replicate uint256_size 0

unfoldable pub from_bhc_crypto : List ℕ → List ℕ
from_bhc_crypto hash = hash

-- `f` of each index of the array.
abbrev pub each : (ℕ → ℕ) → List ℕ
each f = map f (range 0 uint256_size)

unfoldable pub uint256_le_to_be : List ℕ → List ℕ
uint256_le_to_be le_hash = each λ i. get_or le_hash (uint256_size - 1 - i) 0

unfoldable pub reverse_uint256 : List ℕ → List ℕ
unfolding uint256_le_to_be
reverse_uint256 hash = uint256_le_to_be hash

unfoldable pub is_zero : List ℕ → Bool
is_zero [] = true
is_zero (b ∷ hash) = if not (b == 0) then false else is_zero hash

unfoldable pub is_equal : List ℕ → List ℕ → Bool
is_equal [] ys = true
is_equal (x ∷ xs) [] = true
is_equal (x ∷ xs) (y ∷ ys) = if not (x == y) then false else is_equal xs ys

abbrev pub set_zero : List ℕ
set_zero = replicate uint256_size 0

abbrev pub set_one : List ℕ
set_one = set (replicate uint256_size 0) (uint256_size - 1) 1

unfoldable pub xor : List ℕ → List ℕ → List ℕ
xor a b = each λ i. bit_xor (get_or a i 0) (get_or b i 0)

unfoldable pub and : List ℕ → List ℕ → List ℕ
and a b = each λ i. bit_and (get_or a i 0) (get_or b i 0)

unfoldable pub or : List ℕ → List ℕ → List ℕ
or a b = each λ i. bit_or (get_or a i 0) (get_or b i 0)

-- "0123456789abcdef"
abbrev pub hex_char : ℕ → ℕ
hex_char d = if ltb d 10 then 48 + d else 87 + d

unfoldable pub to_hex : List ℕ → List ℕ
to_hex [] = []
to_hex (b ∷ hash) = hex_char (b / 2 ^ 4) ∷ hex_char (bit_and b 0x0F) ∷ to_hex hash

unfoldable pub hex_digit : ℕ → Option ℕ
hex_digit c =
    if leb 48 c && leb c 57
    then some (c - 48)
    else if leb 97 c && leb c 102
    then some (c - 97 + 10)
    else if leb 65 c && leb c 70
    then some (c - 65 + 10)
    else none

abbrev pub both_digits : Option ℕ → Option ℕ → Option ℕ
both_digits none l = none
both_digits (some h) none = none
both_digits (some h) (some l) = some (bit_or (h * 2 ^ 4) l)

abbrev pub prepend : Option ℕ → Option (List ℕ) → Option (List ℕ)
prepend none rest = none
prepend (some b) none = none
prepend (some b) (some hash) = some (b ∷ hash)

-- The loop; `none` is the answer false.
unfoldable pub from_hex_loop : List ℕ → Option (List ℕ)
unfolding hex_digit
from_hex_loop [] = some []
from_hex_loop (c ∷ []) = none
from_hex_loop (high ∷ (low ∷ rest)) =
    prepend (both_digits (hex_digit high) (hex_digit low)) (from_hex_loop rest)

unfoldable pub from_hex : List ℕ → Option (List ℕ)
from_hex hex = if not (length hex == uint256_size * 2) then none else from_hex_loop hex

unfoldable pub from_hex_or_panic : List ℕ → List ℕ
from_hex_or_panic hex = elim (from_hex hex) [ none ↦ set_zero | some hash ↦ hash ]

-- CBTCAmount: a number of satoshis below 2 ^ 64.
unfoldable pub add_amount : ℕ → ℕ → ℕ
add_amount a b = (a + b) % 2 ^ 64

unfoldable pub sub_amount : ℕ → ℕ → ℕ
sub_amount a b = if ltb a b then 0 else a - b
