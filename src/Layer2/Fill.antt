-- ===== src/Layer2/Fill.antt =====
-- How the calls of Layer2Client in BHTWalletPro/src/layer2/layer2_client.cpp fill in the object that
-- they are given: field by field, and up to the first number that std::stoull refuses.
use bht_bhte.Prelude.{
  codes, ℕ, ◌%◌, Bool, true, false, ◌||◌, Option, none, some, List, [], ◌∷◌, ◌++◌, bytes_eq,
}
use bht_bhte.Wallet.{ByteMap, find}
use bht_bhte.Layer2.Json.{parse_json_response, parse_hex_to_uint64, trim_quotes, stoull16}
use bht_bhte.Layer2.Client.{Client, Outcome, threw, refused, answered, set_error}

-- The object after a call, and how the call ends.
abbrev pub Filled {ℓ} : Type ℓ → Type ℓ
Filled A = A × Outcome (Unit {ℓ})

-- One step: the object after it, and whether it came to its end without an exception.
abbrev pub Step {ℓ} : Type ℓ → Type ℓ
Step A = ByteMap (List ℕ) → A → A × Bool

module _ {ℓ} {A : Type ℓ} where
  abbrev go_on : List (Step A) → ByteMap (List ℕ) → A × Bool → Filled A
  go_on steps m (a, false) = (a, threw)
  go_on [] m (a, true) = (a, answered tt)
  go_on (step ∷ steps) m (a, true) = go_on steps m (step m a)

  -- The steps in their order up to an exception, and true.
  abbrev pub fill : List (Step A) → ByteMap (List ℕ) → A → Filled A
  fill steps m a = go_on steps m (a, true)

  abbrev pub assign : (A → A) → Step A
  assign f m a = (f a, true)

  -- A field that is kept as its text.
  abbrev pub text_step : List ℕ → (List ℕ → A → A) → Step A
  text_step key put m a = elim (find m key) [
    | none ↦ (a, true)
    | some s ↦ (put (trim_quotes s) a, true)
  ]

  abbrev put_number : (ℕ → A → A) → A → Option ℕ → A × Bool
  put_number put a none = (a, false)
  put_number put a (some n) = (put n a, true)

  abbrev pub number_step : List ℕ → (ℕ → A → A) → Step A
  number_step key put m a = elim (find m key) [
    | none ↦ (a, true)
    | some s ↦ put_number put a (parse_hex_to_uint64 s)
  ]

  abbrev pub flag_step : List ℕ → (Bool → A → A) → Step A
  flag_step key put m a = elim (find m key) [
    | none ↦ (a, true)
    | some s ↦ (put (bytes_eq s (codes "true") || bytes_eq s (codes "1")) a, true)
  ]

  -- False where there are no fields.
  abbrev pub with_fields :
      (ByteMap (List ℕ) → A → Filled A) → Option (ByteMap (List ℕ)) → A → Filled A
  with_fields read none a = (a, refused)
  with_fields read (some m) a = read m a

  -- parseJSONResponse of an answer, and what a call makes of the fields.
  abbrev pub fill_response :
      (Option (ByteMap (List ℕ)) → A → Filled A) → A → Client × Option (List ℕ) → Client × Filled A
  fill_response read a (c, none) = (c, (a, refused))
  fill_response read a (c, some body) =
      let (fields, error) = parse_json_response body in (set_error error c, read fields a)

-- The bytes of pairs of digits, after those that are there; an exception ends the loop. A pair that
-- std::stoi reads has the same last byte when std::stoull reads it.
unfoldable pub push_hex : List ℕ → List ℕ → List ℕ × Bool
push_hex out [] = (out, true)
push_hex out (c ∷ []) = elim (stoull16 (c ∷ [])) [
  | none ↦ (out, false)
  | some n ↦ (out ++ (n % 256 ∷ []), true)
]
push_hex out (c ∷ d ∷ cs) = elim (stoull16 (c ∷ d ∷ [])) [
  | none ↦ (out, false)
  | some n ↦ push_hex (out ++ (n % 256 ∷ [])) cs
]
