-- ===== src/Layer2/Json/Quantity.antt =====
-- Numbers that BHTWalletPro/src/layer2/layer2_client.cpp writes and reads.
use bht_bhte.Prelude.{
  ℕ, zero, suc, ◌+◌, ◌-◌, ◌*◌, ◌/◌, ◌%◌, ◌^◌, ◌<◌, ◌≤◌, ◌≡◌, length, length-append, refl, sym, ap,
  ◌∙◌, Bool, true, false, ◌&&◌, ◌||◌, some, List, [], ◌∷◌, ◌++◌, ltb, ◌==◌, All, All-append, arith,
  ◌↔◌, inl, inr, Bool-cases, ltb→lt, ltb→ge,
}
use native.Mathlib.Nat.{pow-suc}
use bht_bhte.Hardware.Path.{decimal_in, in_range, is_space}
use bht_bhte.Layer2.Json.{
  hex_value, read_hex, skip, read_base16, read_prefixed, read_signed16, stoull16,
  parse_hex_to_uint64, quantity,
}

abbrev IsDigit : ℕ → Type 0
IsDigit c = (48 ≤ c) × (c ≤ 57)

hex_value-digit : (c : ℕ) → IsDigit c → hex_value c ≡ some (c - 48)
hex_value-digit c h = ground arith

read_hex-one : (n : ℕ) → n < 10 → read_hex 0 ((48 + n) ∷ []) ≡ n
read_hex-one n h = rw (read_hex, hex_value-digit (48 + n) (omega arith)) (omega arith)

read_hex-snoc :
    (n : ℕ) (cs : List ℕ) (c : ℕ)
    → All IsDigit cs
    → IsDigit c
    → read_hex n (cs ++ (c ∷ [])) ≡ read_hex n cs * 16 + (c - 48)
read_hex-snoc n [] c h d = rw (read_hex, read_hex, hex_value-digit c d) refl
read_hex-snoc n (x ∷ cs) c (dx, h) d =
    rw (read_hex, read_hex, hex_value-digit x dx) (read_hex-snoc (n * 16 + (x - 48)) cs c h d)

decimal_in-IsDigit : (turns n : ℕ) → All IsDigit (decimal_in turns n)
decimal_in-IsDigit zero n = tt
decimal_in-IsDigit (suc turns) n = elim (Bool-cases (ltb n 10)) [
  | inl small ↦ rw small ((omega arith, omega (arith, ltb→lt n 10 small)), tt)
  | inr large ↦ rw large (
      All-append IsDigit (decimal_in turns (n / 10)) ((48 + n % 10) ∷ [])
        (decimal_in-IsDigit turns (n / 10)) ((omega arith, omega arith), tt))
]

decimal_in-larger :
    (turns n : ℕ)
    → n < 10 ^ turns
    → (n ≤ read_hex 0 (decimal_in turns n)) × (10 ≤ n → n < read_hex 0 (decimal_in turns n))
decimal_in-larger zero n h = (omega arith, λ k. omega arith)
decimal_in-larger (suc turns) n h = elim (Bool-cases (ltb n 10)) [
  | inl small ↦
      rw (small, read_hex-one n (ltb→lt n 10 small))
        (omega arith, λ k. omega (arith, ltb→lt n 10 small))
  | inr large ↦
      let (ge, gt) = decimal_in-larger turns (n / 10) (omega (arith, pow-suc 10 turns)) in
      rw
        (
          large,
          read_hex-snoc 0 (decimal_in turns (n / 10)) (48 + n % 10)
              (decimal_in-IsDigit turns (n / 10)) (omega arith, omega arith),
        )
        (omega arith, λ k. omega arith)
]

lt→ltb : (a b : ℕ) → a < b → ltb a b ≡ true
lt→ltb a b h = ground arith

not_blank : (c : ℕ) → IsDigit c → is_space c ≡ false
not_blank c h = ground arith

not_sign : (c : ℕ) → IsDigit c → ((c == 45) ≡ false) × ((c == 43) ≡ false)
not_sign c h = ground arith

not_x : (b : Bool) (x : ℕ) → IsDigit x → (b && ((x == 120) || (x == 88))) ≡ false
not_x true x h = ground arith
not_x false x h = refl

read_prefixed-digits :
    (c : ℕ) (cs : List ℕ)
    → All IsDigit (c ∷ cs)
    → read_prefixed false (c ∷ cs) ≡ read_base16 false (c ∷ cs)
read_prefixed-digits c [] h = refl
read_prefixed-digits c (x ∷ []) h = refl
read_prefixed-digits c (x ∷ d ∷ cs) (dc, (dx, h)) = rw (read_prefixed, not_x (c == 48) x dx) refl

read_base16-digits :
    (c : ℕ) (cs : List ℕ)
    → IsDigit c
    → read_base16 false (c ∷ cs) ≡ in_range false (read_hex 0 (c ∷ cs))
read_base16-digits c cs h = rw (read_base16, hex_value-digit c h) refl

parse-digits :
    (c : ℕ) (cs : List ℕ)
    → All IsDigit (c ∷ cs)
    → parse_hex_to_uint64 (48 ∷ 120 ∷ c ∷ cs) ≡ in_range false (read_hex 0 (c ∷ cs))
unfolding parse_hex_to_uint64
parse-digits c cs (dc, h) =
    rw (stoull16, skip, not_blank c dc, read_signed16, (not_sign c dc).0, (not_sign c dc).1)
      (read_prefixed-digits c cs (dc, h) ∙ read_base16-digits c cs dc)

length-decimal_in : (turns n : ℕ) → 0 < length (decimal_in (suc turns) n)
length-decimal_in turns n = elim (Bool-cases (ltb n 10)) [
  | inl small ↦ rw small (omega arith)
  | inr large ↦
      rw (large, length-append (decimal_in turns (n / 10)) ((48 + n % 10) ∷ [])) (omega arith)
]

parse-nonempty :
    (cs : List ℕ)
    → All IsDigit cs
    → 0 < length cs
    → parse_hex_to_uint64 (48 ∷ 120 ∷ cs) ≡ in_range false (read_hex 0 cs)
parse-nonempty [] h k = absurd (omega arith)
parse-nonempty (c ∷ cs) h k = parse-digits c cs h

in_range-eq : (v n : ℕ) → in_range false v ≡ some n → v ≡ n
in_range-eq v n h = grind arith

below : (turns n : ℕ) → n < 10 → read_hex 0 (decimal_in (suc turns) n) ≡ n
below turns n h = rw (decimal_in, lt→ltb n 10 h) (read_hex-one n h)

in_range-small : (n : ℕ) → n < 10 → in_range false n ≡ some n
in_range-small n h = ground arith

parse-decimal_in :
    (turns n : ℕ)
    → n < 10 ^ suc turns
    → (parse_hex_to_uint64 (48 ∷ 120 ∷ decimal_in (suc turns) n) ≡ some n) ↔ (n < 10)
parse-decimal_in turns n h =
    let cs = decimal_in (suc turns) n in
    let parsed = parse-nonempty cs (decimal_in-IsDigit (suc turns) n) (length-decimal_in turns n) in
    let larger = (decimal_in-larger (suc turns) n h).1 in
    (
      λ same. elim (Bool-cases (ltb n 10)) [
        | inl small ↦ ltb→lt n 10 small
        | inr large ↦ absurd (
            omega (
              arith,
              larger (ltb→ge n 10 large),
              in_range-eq (read_hex 0 cs) n (sym parsed ∙ same),
            ))
      ],
      λ small. parsed ∙ ap (in_range false) (below turns n small) ∙ in_range-small n small,
    )

-- An amount that is written and read again is the same exactly when it is below ten.
pub parse_hex_to_uint64-quantity :
    (amount : ℕ)
    → amount < 2 ^ 64
    → (parse_hex_to_uint64 (quantity amount) ≡ some amount) ↔ (amount < 10)
parse_hex_to_uint64-quantity amount h = parse-decimal_in 19 amount (omega arith)
