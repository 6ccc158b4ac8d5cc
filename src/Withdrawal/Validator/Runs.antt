-- ===== src/Withdrawal/Validator/Runs.antt =====
-- Histories of calls of a CWithdrawalValidator within one epoch.
pub mod Lookup
pub mod Payout
pub mod Settled
use bht_bhte.Prelude.{
  ℕ, zero, suc, ◌+◌, ◌≤◌, ◌≡◌, refl, List, [], ◌∷◌, Option, none, some, bytes_eq, if◌then◌else◌,
}
use bht_bhte.Withdrawal.{WithdrawalRequest, FraudProof, Crypto}
use bht_bhte.Withdrawal.Validator.{
  Validator, submit_withdrawal, challenge_withdrawal, approve_withdrawal, execute_withdrawal,
  expire_withdrawal,
}

-- The calls that change the object; InitWithdrawalEpoch starts the history anew.
pub data Call : Type 0 where
  submit : WithdrawalRequest → Call
  challenge : List ℕ → FraudProof → Call
  approve : List ℕ → Call
  execute : List ℕ → Call
  expire : List ℕ → Call

abbrev pub after {ℓ} : {A : Type ℓ} → A → Option A → A
after v none = v
after v (some v') = v'

module _ (env : Crypto) where
  -- A call at the time that GetTime() gives; `none` is the answer false.
  unfoldable pub answer : Validator → ℕ → Call → Option Validator
  answer v now (submit r) = submit_withdrawal env v r
  answer v now (challenge hash p) = challenge_withdrawal env v hash p
  answer v now (approve hash) = approve_withdrawal env v hash now
  answer v now (execute hash) = execute_withdrawal env v hash
  answer v now (expire hash) = expire_withdrawal env v hash

  unfoldable pub step : Validator → ℕ × Call → Validator
  unfolding answer
  step v (now, c) = after v (answer v now c)

  unfoldable pub run : Validator → List (ℕ × Call) → Validator
  run v [] = v
  run v (c ∷ cs) = run (step v c) cs

  -- 1 if the call is an ExecuteWithdrawal of this hash that answers true.
  abbrev pub paid : Option Validator → ℕ
  paid none = 0
  paid (some v) = 1

  unfoldable pub pays : List ℕ → Validator → ℕ × Call → ℕ
  pays hash v (now, execute h) = if bytes_eq h hash then paid (execute_withdrawal env v h) else 0
  pays hash v (now, _) = 0

  unfoldable pub payouts : List ℕ → Validator → List (ℕ × Call) → ℕ
  payouts hash v [] = 0
  payouts hash v (c ∷ cs) = pays hash v c + payouts hash (step v c) cs

-- The clock does not run backwards from t.
abbrev pub Ascending : ℕ → List (ℕ × Call) → Type 0
Ascending t [] = Unit {0}
Ascending t ((now, c) ∷ cs) = (t ≤ now) × Ascending now cs

abbrev pub last_time : ℕ → List (ℕ × Call) → ℕ
last_time t [] = t
last_time t ((now, c) ∷ cs) = last_time now cs
