-- ===== src/Withdrawal/Validator/Runs/Lookup.antt =====
-- What replacing one request changes for the first request of an id.
use mathlib.Core.Option
use bht_bhte.Prelude.{
  ℕ, ◌≡◌, refl, subst, ◌⊎◌, inl, inr, Bool, true, false, List, [], ◌∷◌, Option, none, some,
  Bool-cases, All,
}
use bht_bhte.Withdrawal.{WithdrawalRequest, WithdrawalStatus, Crypto}
use bht_bhte.Withdrawal.Validator.{at_first, has_id, calculate_withdrawal_id, first_status}

-- `at_first` replaces one element by what the body makes of it.
pub data Replaces {ℓ} {A : Type ℓ} (body : A → Option A) : List A → List A → Type ℓ where
  here : {r r' : A} {rs : List A} → body r ≡ some r' → Replaces body (r ∷ rs) (r' ∷ rs)
  later : {r : A} {rs rs' : List A} → Replaces body rs rs' → Replaces body (r ∷ rs) (r ∷ rs')

map-eq-some {ℓ κ} :
    {A : Type ℓ} {B : Type κ} (f : A → B) (o : Option A) {b : B}
    → Option.map f o ≡ some b
    → (a : A) × (o ≡ some a) × (f a ≡ b)
map-eq-some f none h = cc
map-eq-some f (some a) h = (a, refl, cc)

module _ {ℓ} {A : Type ℓ} (test : A → Bool) (body : A → Option A) where
  -- The element in front is the one that is found, or the search goes on behind it.
  pub at_first-cons :
      (r : A) (rs rs' : List A)
      → at_first test body (r ∷ rs) ≡ some rs'
      → ((test r ≡ true) × ((r' : A) × (body r ≡ some r') × (r' ∷ rs ≡ rs')))
        ⊎ ((test r ≡ false)
            × ((more : List A) × (at_first test body rs ≡ some more) × (r ∷ more ≡ rs')))
  unfolding at_first
  at_first-cons r rs rs' e = elim (Bool-cases (test r)) [
    | inl hit ↦ inl (hit, map-eq-some (λ r'. r' ∷ rs) (body r) (rw hit at e))
    | inr miss ↦ inr (miss, map-eq-some (λ more. r ∷ more) (at_first test body rs) (rw miss at e))
  ]

  pub at_first-Replaces :
      (rs rs' : List A) → at_first test body rs ≡ some rs' → Replaces body rs rs'
  at_first-Replaces [] rs' e = absurd (unfold at_first in cc)
  at_first-Replaces (r ∷ rs) rs' e = elim (at_first-cons r rs rs' e) [
    | inl (_, (r', eb, es)) ↦ subst (Replaces body (r ∷ rs)) es (here eb)
    | inr (_, (more, em, es)) ↦
        subst (Replaces body (r ∷ rs)) es (later (at_first-Replaces rs more em))
  ]

-- A property of every element that the body keeps is kept.
pub Replaces-All {ℓ κ} :
    {A : Type ℓ} (P : A → Type κ) {body : A → Option A} {rs rs' : List A}
    → ((r r' : A) → body r ≡ some r' → P r → P r')
    → Replaces body rs rs'
    → All P rs
    → All P rs'
Replaces-All P keep (here e) (h, hs) = (keep _ _ e h, hs)
Replaces-All P keep (later t) (h, hs) = (h, Replaces-All P keep t hs)

module _ (env : Crypto) where
  -- The status behind a hash is the old one, or the body has changed the request behind it.
  pub data Seen (body : WithdrawalRequest → Option WithdrawalRequest)
      : Option WithdrawalStatus → Option WithdrawalStatus → Type 0 where
    same : {o : Option WithdrawalStatus} → Seen body o o
    moved :
        {r r' : WithdrawalRequest} → body r ≡ some r' → Seen body (some r.status) (some r'.status)

  abbrev pub KeepsId : (WithdrawalRequest → Option WithdrawalRequest) → Type 0
  KeepsId body =
      (r r' : WithdrawalRequest)
      → body r ≡ some r'
      → calculate_withdrawal_id env r' ≡ calculate_withdrawal_id env r

  pub Replaces-Seen :
      {body : WithdrawalRequest → Option WithdrawalRequest} {rs rs' : List WithdrawalRequest}
      (hash : List ℕ)
      → KeepsId body
      → Replaces body rs rs'
      → Seen body (first_status env hash rs) (first_status env hash rs')
  unfolding first_status
  Replaces-Seen {body} hash keep (here {r} {r'} {rs} e) = elim (Bool-cases (has_id env hash r)) [
    | inl hit ↦ rw (keep r r' e, hit) (moved e)
    | inr miss ↦ rw (keep r r' e, miss) same
  ]
  Replaces-Seen {body} hash keep (later {r} {rs} {rs'} t) = elim (Bool-cases (has_id env hash r)) [
    | inl hit ↦ rw hit same
    | inr miss ↦ rw miss (Replaces-Seen hash keep t)
  ]
