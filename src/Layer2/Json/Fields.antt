-- ===== src/Layer2/Json/Fields.antt =====
-- The loop of parseJSONResponse in BHTWalletPro/src/layer2/layer2_client.cpp ends.
use bht_bhte.Prelude.{
  ℕ, zero, suc, ◌≤◌, ◌<◌, ◌≡◌, refl, sym, ◌∙◌, Bool, ◌||◌, Option, none, some, List, [], ◌∷◌, ◌==◌,
  length, arith, Bool-cases, inl, inr, Option-cases, subst,
}
use bht_bhte.Wallet.{ByteMap, insert}
use bht_bhte.Layer2.Json.{
  cut, skip, until, enclosed, is_blank, read_value, read_field, read_fields, count_brackets,
}

abbrev IsShorter {ℓ} : {A : Type ℓ} → ℕ → Option (A × List ℕ) → Type 0
IsShorter n none = Unit {0}
IsShorter n (some (a, rest)) = suc (length rest) ≤ n

put-IsShorter :
    (c n : ℕ) (o : Option (List ℕ × List ℕ))
    → IsShorter n o
    → IsShorter
        (suc n)
        (elim o as (λ x. Option (List ℕ × List ℕ)) [ none ↦ none | some (a, b) ↦ some (c ∷ a, b) ])
put-IsShorter c n none h = tt
put-IsShorter c n (some (a, b)) h = omega (arith, h)

cut-IsShorter : (d : ℕ) (s : List ℕ) → IsShorter (length s) (cut d s)
cut-IsShorter d [] = tt
cut-IsShorter d (c ∷ cs) = elim (Bool-cases (c == d)) [
  | inl h ↦ rw (cut, h) (omega arith)
  | inr h ↦ rw (cut, h) (put-IsShorter c (length cs) (cut d cs) (cut-IsShorter d cs))
]

length-skip : (p : ℕ → Bool) (s : List ℕ) → length (skip p s) ≤ length s
length-skip p [] = omega arith
length-skip p (c ∷ cs) = elim (Bool-cases (p c)) [
  | inl h ↦ rw (skip, h) (omega (arith, length-skip p cs))
  | inr h ↦ rw (skip, h) (omega arith)
]

length-until : (p : ℕ → Bool) (s : List ℕ) → length (until p s).1 ≤ length s
length-until p [] = omega arith
length-until p (c ∷ cs) = elim (Bool-cases (p c)) [
  | inl h ↦ rw (until, h) (omega arith)
  | inr h ↦ rw (until, h) (omega (arith, length-until p cs))
]

length-enclosed :
    (count : ℕ → ℕ → ℕ) (n : ℕ) (s : List ℕ) → length (enclosed count n s).1 ≤ length s
length-enclosed count zero s = omega arith
length-enclosed count (suc n) [] = omega arith
length-enclosed count (suc n) (c ∷ cs) = omega (arith, length-enclosed count (count c (suc n)) cs)

abbrev IsNoLonger : ℕ → Option (List ℕ × List ℕ) → Type 0
IsNoLonger n none = Unit {0}
IsNoLonger n (some (a, rest)) = length rest ≤ n

loosen : (n : ℕ) (o : Option (List ℕ × List ℕ)) → IsShorter n o → IsNoLonger (suc n) o
loosen n none h = tt
loosen n (some (a, rest)) h = omega (arith, h)

read_value-IsNoLonger : (s : List ℕ) → IsNoLonger (length s) (read_value s)
read_value-IsNoLonger [] = omega arith
read_value-IsNoLonger (c ∷ cs) = elim (Bool-cases (c == 34)) [
  | inl quote ↦ rw (read_value, quote) (loosen (length cs) (cut 34 cs) (cut-IsShorter 34 cs))
  | inr plain ↦ elim (Bool-cases ((c == 123) || (c == 91))) [
    | inl nested ↦
        rw (read_value, plain, nested) (omega (arith, length-enclosed count_brackets 1 cs))
    | inr bare ↦ rw (read_value, plain, bare) (length-until (λ d. (d == 44) || (d == 10)) (c ∷ cs))
  ]
]

shorter_rest :
    (n : ℕ) (o : Option (List ℕ × List ℕ)) (r : List ℕ × List ℕ)
    → IsShorter n o
    → o ≡ some r
    → length r.1 < n
shorter_rest n o r h e = subst (IsShorter n) e h

shorter_value :
    (n : ℕ) (o : Option (List ℕ × List ℕ)) (r : List ℕ × List ℕ)
    → IsNoLonger n o
    → o ≡ some r
    → length r.1 ≤ n
shorter_value n o r h e = subst (IsNoLonger n) e h

read_field-IsShorter : (s : List ℕ) → IsShorter (length s) (read_field s)
read_field-IsShorter s = elim (Option-cases (cut 34 s)) [
  | inl e ↦ rw (read_field, e) tt
  | inr (r₁, e₁) ↦ elim (Option-cases (cut 34 r₁.1)) [
    | inl e ↦ rw (read_field, e₁, e) tt
    | inr (r₂, e₂) ↦ elim (Option-cases (cut 58 r₂.1)) [
      | inl e ↦ rw (read_field, e₁, e₂, e) tt
      | inr (r₃, e₃) ↦ elim (Option-cases (read_value (skip is_blank r₃.1))) [
        | inl e ↦ rw (read_field, e₁, e₂, e₃, e) tt
        | inr (r₄, e₄) ↦
            rw (read_field, e₁, e₂, e₃, e₄)
              (omega (
                arith,
                shorter_rest _ _ r₁ (cut-IsShorter 34 s) e₁,
                shorter_rest _ _ r₂ (cut-IsShorter 34 r₁.1) e₂,
                shorter_rest _ _ r₃ (cut-IsShorter 58 r₂.1) e₃,
                length-skip is_blank r₃.1,
                shorter_value _ _ r₄ (read_value-IsNoLonger (skip is_blank r₃.1)) e₄,
                length-skip (λ d. (d == 44) || is_blank d) r₄.1,
              ))
      ]
    ]
  ]
]

read_fields_none : (turns : ℕ) (m : ByteMap (List ℕ)) → read_fields turns [] m ≡ m
read_fields_none zero m = refl
read_fields_none (suc turns) m = refl

-- As many rounds as the text has characters are enough: more read the same fields.
pub read_fields_enough :
    (turns more : ℕ) (s : List ℕ) (m : ByteMap (List ℕ))
    → length s ≤ turns
    → length s ≤ more
    → read_fields turns s m ≡ read_fields more s m
read_fields_enough turns more [] m h k = read_fields_none turns m ∙ sym (read_fields_none more m)
read_fields_enough zero more (c ∷ cs) m h k = absurd (omega arith)
read_fields_enough (suc turns) zero (c ∷ cs) m h k = absurd (omega arith)
read_fields_enough (suc turns) (suc more) (c ∷ cs) m h k =
    elim (Option-cases (read_field (c ∷ cs))) [
      | inl e ↦ rw (read_fields, e) refl
      | inr (((key, v), rest), e) ↦
          let shorter = subst (IsShorter (suc (length cs))) e (read_field-IsShorter (c ∷ cs)) in
          rw (read_fields, e)
            (read_fields_enough turns more rest (insert key v m) (omega (arith, shorter))
              (omega (arith, shorter)))
    ]
