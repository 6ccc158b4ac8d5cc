-- ===== src/Hardware/Path.antt =====
-- HWWPath of BHTWalletPro/src/hardware/hardware_wallet.cpp: a derivation path as text and as at most
-- 16 numbers of 32 bits. A text is the list of its characters' codes.
use bht_bhte.Prelude.{
  ℕ, zero, suc, ◌+◌, ◌-◌, ◌*◌, ◌/◌, ◌%◌, ◌^◌, Bool, true, false, ◌&&◌, ◌||◌, Option, none, some,
  List, [], ◌∷◌, ◌++◌, ltb, leb, ◌==◌, if◌then◌else◌, bit_or,
}

-- The decimal text of a number below 10 ^ turns.
abbrev pub decimal_in : ℕ → ℕ → List ℕ
decimal_in zero n = []
decimal_in (suc turns) n =
    let rest = decimal_in turns (n / 10) in
    if ltb n 10 then (48 + n) ∷ [] else rest ++ ((48 + n % 10) ∷ [])

-- Enough for 64 bits.
abbrev pub decimal : ℕ → List ℕ
decimal n = decimal_in 20 n

abbrev pub is_digit : ℕ → Bool
is_digit c = leb 48 c && leb c 57

-- std::stoul, on a machine whose unsigned long has 64 bits: spaces, a sign, digits and anything
-- behind them; `none` is an exception.
abbrev pub read_digits : ℕ → List ℕ → ℕ
read_digits n [] = n
read_digits n (c ∷ cs) =
    let rest = read_digits (n * 10 + (c - 48)) cs in if is_digit c then rest else n

abbrev pub in_range : Bool → ℕ → Option ℕ
in_range minus n =
    if leb (2 ^ 64) n then none else some (if minus then (2 ^ 64 - n) % 2 ^ 64 else n)

abbrev read_number : Bool → List ℕ → Option ℕ
read_number minus [] = none
read_number minus (c ∷ cs) = if is_digit c then in_range minus (read_digits 0 (c ∷ cs)) else none

abbrev read_signed : List ℕ → Option ℕ
read_signed [] = none
read_signed (c ∷ cs) =
    if c == 45
    then read_number true cs
    else if c == 43
    then read_number false cs
    else read_number false (c ∷ cs)

abbrev pub is_space : ℕ → Bool
is_space c = (c == 32) || (leb 9 c && leb c 13)

unfoldable pub stoul : List ℕ → Option ℕ
stoul [] = none
stoul (c ∷ cs) = let rest = stoul cs in if is_space c then rest else read_signed (c ∷ cs)

-- The segments between the slashes, as std::getline gives them.
abbrev pub push_char : ℕ → List (List ℕ) → List (List ℕ)
push_char c [] = (c ∷ []) ∷ []
push_char c (s ∷ ss) = (c ∷ s) ∷ ss

abbrev pub segments : List ℕ → List (List ℕ)
segments [] = []
segments (c ∷ cs) = let rest = segments cs in if c == 47 then [] ∷ rest else push_char c rest

-- The text without its last character, and whether that is the mark of a hardened step.
abbrev pub unmark : List ℕ → Bool × List ℕ
unmark [] = (false, [])
unmark (c ∷ []) = if (c == 39) || (c == 104) then (true, []) else (false, c ∷ [])
unmark (c ∷ d ∷ cs) = let (hardened, s) = unmark (d ∷ cs) in (hardened, c ∷ s)

abbrev pub harden : Bool → ℕ → ℕ
harden hardened v = if hardened then bit_or (v % 2 ^ 32) 0x80000000 else v % 2 ^ 32

abbrev pub hardened_number : Bool → Option ℕ → Option ℕ
hardened_number hardened none = none
hardened_number hardened (some v) = some (harden hardened v)

-- The number of a segment; an empty one, or one that stoul refuses, is passed over.
unfoldable pub segment_number : List ℕ → Option ℕ
unfolding stoul
segment_number [] = none
segment_number (c ∷ cs) = hardened_number (unmark (c ∷ cs)).0 (stoul (unmark (c ∷ cs)).1)

-- At most `left` numbers more.
unfoldable pub parse_segments : ℕ → List (List ℕ) → List ℕ
unfolding segment_number
parse_segments zero segs = []
parse_segments (suc left) [] = []
parse_segments (suc left) (s ∷ segs) = elim (segment_number s) [
  | none ↦ parse_segments (suc left) segs
  | some n ↦ n ∷ parse_segments left segs
]

unfoldable pub parse_path : List ℕ → List ℕ
unfolding parse_segments
parse_path text = parse_segments 16 (segments text)

unfoldable pub step_text : ℕ → List ℕ
step_text n = if leb (2 ^ 31) n then decimal (n % 2 ^ 31) ++ (39 ∷ []) else decimal n

unfoldable pub path_text : List ℕ → List ℕ
unfolding step_text
path_text [] = []
path_text (n ∷ []) = step_text n
path_text (n ∷ m ∷ path) = step_text n ++ (47 ∷ path_text (m ∷ path))
