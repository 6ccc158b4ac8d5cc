-- ===== src/Layer2/Json.antt =====
-- The texts of BHTWalletPro/src/layer2/layer2_client.cpp: the reading of a node's answer, of numbers
-- and of quotes. A text is the list of its characters' codes, and a position in it the rest of the
-- text from there.
pub mod Quantity
pub mod Fields
use bht_bhte.Prelude.{
  codes, ℕ, zero, suc, ◌+◌, ◌-◌, ◌*◌, ◌^◌, Bool, true, false, ◌&&◌, ◌||◌, Option, none, some, List,
  [], ◌∷◌, ◌++◌, leb, ◌==◌, if◌then◌else◌, length,
}
use bht_bhte.Hardware.Path.{decimal, in_range, is_space}
use bht_bhte.Wallet.{ByteMap, insert}

abbrev pub result_mark : List ℕ
result_mark = codes "\"result\""

abbrev pub error_mark : List ℕ
error_mark = codes "\"error\""

abbrev pub message_mark : List ℕ
message_mark = codes "\"message\""

abbrev pub value_key : List ℕ
value_key = codes "_value"

abbrev pub array_key : List ℕ
array_key = codes "_array"

abbrev pub starts_with : List ℕ → List ℕ → Bool
starts_with [] s = true
starts_with (p ∷ ps) [] = false
starts_with (p ∷ ps) (c ∷ cs) = (p == c) && starts_with ps cs

-- std::string::find of a text that is not empty.
abbrev pub find_text : List ℕ → List ℕ → Option (List ℕ)
find_text p [] = none
find_text p (c ∷ cs) =
    let rest = find_text p cs in if starts_with p (c ∷ cs) then some (c ∷ cs) else rest

-- What stands before the first character `d`, and what stands behind it.
abbrev pub cut : ℕ → List ℕ → Option (List ℕ × List ℕ)
cut d [] = none
cut d (c ∷ cs) =
    let rest = cut d cs in
    if c == d then some ([], cs) else elim rest [ none ↦ none | some (a, b) ↦ some (c ∷ a, b) ]

abbrev pub skip : (ℕ → Bool) → List ℕ → List ℕ
skip p [] = []
skip p (c ∷ cs) = let rest = skip p cs in if p c then rest else c ∷ cs

abbrev pub until : (ℕ → Bool) → List ℕ → List ℕ × List ℕ
until p [] = ([], [])
until p (c ∷ cs) = let (a, b) = until p cs in if p c then ([], c ∷ cs) else (c ∷ a, b)

abbrev drop_last : List ℕ → List ℕ
drop_last [] = []
drop_last (c ∷ []) = []
drop_last (c ∷ d ∷ cs) = c ∷ drop_last (d ∷ cs)

abbrev pub is_blank : ℕ → Bool
is_blank c = (c == 32) || (c == 10)

abbrev last_is : ℕ → List ℕ → Bool
last_is d [] = false
last_is d (c ∷ []) = c == d
last_is d (c ∷ e ∷ cs) = last_is d (e ∷ cs)

abbrev pub trim_quotes : List ℕ → List ℕ
trim_quotes [] = []
trim_quotes (c ∷ []) = c ∷ []
trim_quotes (c ∷ d ∷ cs) =
    if ((c == 34) && last_is 34 (d ∷ cs)) || ((c == 39) && last_is 39 (d ∷ cs))
    then drop_last (d ∷ cs)
    else c ∷ d ∷ cs

abbrev pub hex_value : ℕ → Option ℕ
hex_value c =
    if leb 48 c && leb c 57
    then some (c - 48)
    else if leb 65 c && leb c 70
    then some (c - 55)
    else if leb 97 c && leb c 102
    then some (c - 87)
    else none

abbrev pub read_hex : ℕ → List ℕ → ℕ
read_hex n [] = n
read_hex n (c ∷ cs) = elim (hex_value c) [ none ↦ n | some d ↦ read_hex (n * 16 + d) cs ]

abbrev pub read_base16 : Bool → List ℕ → Option ℕ
read_base16 minus [] = none
read_base16 minus (c ∷ cs) = elim (hex_value c) [
  | none ↦ none
  | some d ↦ in_range minus (read_hex 0 (c ∷ cs))
]

-- A 0x before a digit is passed over.
abbrev pub read_prefixed : Bool → List ℕ → Option ℕ
read_prefixed minus [] = none
read_prefixed minus (c ∷ []) = read_base16 minus (c ∷ [])
read_prefixed minus (c ∷ x ∷ []) = read_base16 minus (c ∷ x ∷ [])
read_prefixed minus (c ∷ x ∷ d ∷ cs) =
    if (c == 48) && ((x == 120) || (x == 88))
    then elim (hex_value d) [
      | none ↦ read_base16 minus (c ∷ x ∷ d ∷ cs)
      | some v ↦ read_base16 minus (d ∷ cs)
    ]
    else read_base16 minus (c ∷ x ∷ d ∷ cs)

abbrev pub read_signed16 : List ℕ → Option ℕ
read_signed16 [] = none
read_signed16 (c ∷ cs) =
    if c == 45
    then read_prefixed true cs
    else if c == 43
    then read_prefixed false cs
    else read_prefixed false (c ∷ cs)

-- std::stoull to the base 16; `none` is an exception.
abbrev pub stoull16 : List ℕ → Option ℕ
stoull16 s = read_signed16 (skip is_space s)

abbrev pub drop_prefix : List ℕ → List ℕ
drop_prefix [] = []
drop_prefix (c ∷ []) = c ∷ []
drop_prefix (c ∷ x ∷ cs) = if (c == 48) && (x == 120) then cs else c ∷ x ∷ cs

unfoldable pub parse_hex_to_uint64 : List ℕ → Option ℕ
parse_hex_to_uint64 hex = stoull16 (drop_prefix hex)

-- The text from an opening bracket's next character to the one that closes it.
abbrev enclosed : (ℕ → ℕ → ℕ) → ℕ → List ℕ → List ℕ × List ℕ
enclosed count zero s = ([], s)
enclosed count (suc n) [] = ([], [])
enclosed count (suc n) (c ∷ cs) = let (a, b) = enclosed count (count c (suc n)) cs in (c ∷ a, b)

abbrev count_braces : ℕ → ℕ → ℕ
count_braces c n = if c == 123 then n + 1 else if c == 125 then n - 1 else n

abbrev count_brackets : ℕ → ℕ → ℕ
count_brackets c n =
    if (c == 123) || (c == 91) then n + 1 else if (c == 125) || (c == 93) then n - 1 else n

-- The value of a key, and what is behind it; `none` where the code leaves its loop.
abbrev read_value : List ℕ → Option (List ℕ × List ℕ)
read_value [] = some ([], [])
read_value (c ∷ cs) =
    if c == 34
    then cut 34 cs
    else if (c == 123) || (c == 91)
    then (let (a, b) = enclosed count_brackets 1 cs in some (c ∷ a, b))
    else some (until (λ d. (d == 44) || (d == 10)) (c ∷ cs))

abbrev read_field : List ℕ → Option ((List ℕ × List ℕ) × List ℕ)
read_field s = elim (cut 34 s) [
  | none ↦ none
  | some (before, s₁) ↦ elim (cut 34 s₁) [
    | none ↦ none
    | some (key, s₂) ↦ elim (cut 58 s₂) [
      | none ↦ none
      | some (between, s₃) ↦ elim (read_value (skip is_blank s₃)) [
        | none ↦ none
        | some (v, s₄) ↦ some ((key, v), skip (λ d. (d == 44) || is_blank d) s₄)
      ]
    ]
  ]
]

-- A field takes at least three characters, so the length of the text is enough turns.
abbrev read_fields : ℕ → List ℕ → ByteMap (List ℕ) → ByteMap (List ℕ)
read_fields zero s m = m
read_fields (suc turns) [] m = m
read_fields (suc turns) (c ∷ cs) m = elim (read_field (c ∷ cs)) [
  | none ↦ m
  | some ((key, v), rest) ↦ read_fields turns rest (insert key v m)
]

abbrev read_result : List ℕ → ByteMap (List ℕ)
read_result [] = (value_key, []) ∷ []
read_result (c ∷ cs) =
    if c == 123
    then (let fields = drop_last (enclosed count_braces 1 cs).0 in
        read_fields (length fields) fields [])
    else if c == 91
    then (array_key, c ∷ cs) ∷ []
    else (value_key, (until (λ d. (d == 44) || (d == 125)) (c ∷ cs)).0) ∷ []

-- The text of an error: up to a comma, or else a brace, or else all of it; all of the answer where
-- there is no colon.
abbrev error_text : List ℕ → List ℕ → List ℕ
error_text response s = elim (cut 58 s) [
  | none ↦ trim_quotes response
  | some (before, t) ↦ elim (cut 44 t) [
    | some (m, rest) ↦ trim_quotes m
    | none ↦ elim (cut 125 t) [ none ↦ trim_quotes t | some (m, rest) ↦ trim_quotes m ]
  ]
]

-- The fields of the answer, `none` for false, and the error text if one is set.
unfoldable pub parse_json_response : List ℕ → Option (ByteMap (List ℕ)) × Option (List ℕ)
parse_json_response response = elim (find_text result_mark response) [
  | some s ↦ elim (cut 58 s) [
    | none ↦ (none, none)
    | some (mark, t) ↦ (some (read_result (skip is_blank t)), none)
  ]
  | none ↦ elim (find_text error_mark response) [
    | none ↦ (none, none)
    | some s ↦ elim (find_text message_mark s) [
      | none ↦ (none, none)
      | some t ↦ (none, some (error_text response t))
    ]
  ]
]

-- "0x" and the decimal digits, as the requests write an amount.
abbrev pub quantity : ℕ → List ℕ
quantity amount = 48 ∷ 120 ∷ decimal amount
