-- ===== src/Withdrawal/Validator/Runs/Payout.antt =====
-- Counting the executions of one withdrawal over a history of calls.
use mathlib.Core.Option
use bht_bhte.Prelude.{
  ℕ, ◌+◌, ◌≤◌, ◌≡◌, refl, inl, inr, Bool, List, [], ◌∷◌, ◌++◌, Option, none, some, arith,
  Bool-cases, Option-cases, bytes_eq, bytes_eq→eq,
}
use bht_bhte.Withdrawal.{
  WithdrawalRequest, FraudProof, Level, WithdrawalStatus, pending, approved, Crypto,
}
use bht_bhte.Withdrawal.Validator.{
  Validator, at_first, has_id, first_status, submit_withdrawal, challenge_withdrawal,
  approve_withdrawal, execute_withdrawal, expire_withdrawal, challenge_body, approve_body,
  execute_body, expire_body, expirable, calculate_withdrawal_id,
}
use bht_bhte.Withdrawal.Validator.Runs.{
  Call, submit, challenge, approve, execute, expire, answer, step, run, after, paid, pays, payouts,
}
use bht_bhte.Withdrawal.Validator.Runs.Lookup.{
  Seen, same, moved, KeepsId, at_first-cons, at_first-Replaces, Replaces-Seen,
}

-- 1 as long as an execution may still come.
live : Option WithdrawalStatus → ℕ
live none = 1
live (some pending) = 1
live (some approved) = 1
live (some _) = 0

live-le-one : (o : Option WithdrawalStatus) → live o ≤ 1
unfolding live
live-le-one none = omega arith
live-le-one (some pending) = omega arith
live-le-one (some _) = omega arith

module _ (env : Crypto) (hash : List ℕ) where
  abbrev live_in : Validator → ℕ
  live_in v = live (first_status env hash v.pending_withdrawals)

  Seen-live :
      {body : WithdrawalRequest → Option WithdrawalRequest} {o o' : Option WithdrawalStatus}
      → ((r r' : WithdrawalRequest)
          → body r ≡ some r'
          → live (some r'.status) ≤ live (some r.status))
      → Seen env body o o'
      → live o' ≤ live o
  Seen-live falls same = omega arith
  Seen-live falls (moved e) = falls _ _ e

  challenge_live :
      (level : Level) (p : FraudProof) (r r' : WithdrawalRequest)
      → challenge_body env level p r ≡ some r'
      → live (some r'.status) ≤ live (some r.status)
  unfolding challenge_body live
  challenge_live level p r r' e = ground arith

  approve_live :
      (now : ℕ) (r r' : WithdrawalRequest)
      → approve_body env now r ≡ some r'
      → live (some r'.status) ≤ live (some r.status)
  unfolding approve_body live
  approve_live now r r' e = ground arith

  execute_live :
      (r r' : WithdrawalRequest)
      → execute_body env r ≡ some r'
      → (live (some r'.status) ≡ 0) × (live (some r.status) ≡ 1)
  unfolding execute_body live
  execute_live r r' e = ground arith

  expire_live :
      (r r' : WithdrawalRequest)
      → expire_body env r ≡ some r'
      → live (some r'.status) ≤ live (some r.status)
  unfolding live
  expire_live r r' e = ground arith

  challenge_KeepsId : (level : Level) (p : FraudProof) → KeepsId env (challenge_body env level p)
  unfolding challenge_body calculate_withdrawal_id
  challenge_KeepsId level p r r' e = ground arith

  approve_KeepsId : (now : ℕ) → KeepsId env (approve_body env now)
  unfolding approve_body calculate_withdrawal_id
  approve_KeepsId now r r' e = ground arith

  execute_KeepsId : KeepsId env (execute_body env)
  unfolding execute_body calculate_withdrawal_id
  execute_KeepsId r r' e = ground arith

  expire_KeepsId : KeepsId env (expire_body env)
  unfolding calculate_withdrawal_id
  expire_KeepsId r r' e = ground arith

  -- A call that replaces requests by a body that keeps ids and lets `live` fall.
  replacing_live :
      (test : WithdrawalRequest → Bool) (body : WithdrawalRequest → Option WithdrawalRequest)
      (v : Validator) (rebuild : List WithdrawalRequest → Validator)
      → ((rs : List WithdrawalRequest) → (rebuild rs).pending_withdrawals ≡ rs)
      → KeepsId env body
      → ((r r' : WithdrawalRequest)
          → body r ≡ some r'
          → live (some r'.status) ≤ live (some r.status))
      → live_in (after v (Option.map rebuild (at_first test body v.pending_withdrawals)))
        ≤ live_in v
  replacing_live test body v rebuild shows keep falls =
      elim (Option-cases (at_first test body v.pending_withdrawals)) [
        | inl e ↦ rw e (omega arith)
        | inr (rs, e) ↦
            rw (e, shows rs)
              (Seen-live falls (
                Replaces-Seen env hash keep
                  (at_first-Replaces test body v.pending_withdrawals rs e)))
      ]

  first_status-append :
      (rs : List WithdrawalRequest) (r : WithdrawalRequest)
      → live (first_status env hash (rs ++ r ∷ [])) ≤ live (first_status env hash rs)
  unfolding first_status live
  first_status-append [] r = live-le-one _
  first_status-append (s ∷ rs) r = elim (Bool-cases (has_id env hash s)) [
    | inl hit ↦ rw hit (omega arith)
    | inr miss ↦ rw miss (first_status-append rs r)
  ]

  submit_live :
      (v : Validator) (r : WithdrawalRequest)
      → live_in (after v (submit_withdrawal env v r)) ≤ live_in v
  unfolding submit_withdrawal
  submit_live v r =
      ground (arith, first_status-append v.pending_withdrawals (record r { status = pending }))

  -- An ExecuteWithdrawal of this hash that answers true.
  execute_pays :
      (rs rs' : List WithdrawalRequest)
      → at_first (has_id env hash) (execute_body env) rs ≡ some rs'
      → (live (first_status env hash rs') ≡ 0) × (live (first_status env hash rs) ≡ 1)
  unfolding first_status
  execute_pays [] rs' e = absurd (unfold at_first in cc)
  execute_pays (r ∷ rs) rs' e =
      elim (at_first-cons (has_id env hash) (execute_body env) r rs rs' e) [
        | inl (hit, (r', eb, es)) ↦ rw (← es, execute_KeepsId r r' eb, hit) (execute_live r r' eb)
        | inr (miss, (more, em, es)) ↦ rw (← es, miss) (execute_pays rs more em)
      ]

  execute_falls :
      (v : Validator) (h : List ℕ) → live_in (after v (execute_withdrawal env v h)) ≤ live_in v
  unfolding execute_withdrawal
  execute_falls v h =
      replacing_live (has_id env h) (execute_body env) v _ (λ rs. refl) execute_KeepsId
        (λ r r' e. omega (arith, execute_live r r' e))

  execute_paid :
      (v : Validator)
      → paid env (execute_withdrawal env v hash) + live_in (after v (execute_withdrawal env v hash))
        ≤ live_in v
  unfolding execute_withdrawal
  execute_paid v =
      elim (Option-cases (at_first (has_id env hash) (execute_body env) v.pending_withdrawals)) [
        | inl e ↦ rw e (omega arith)
        | inr (rs, e) ↦ rw e (omega (arith, execute_pays v.pending_withdrawals rs e))
      ]

  -- Each call lets `live` fall by what it pays.
  step_live :
      (v : Validator) (now : ℕ) (c : Call)
      → pays env hash v (now, c) + live_in (step env v (now, c)) ≤ live_in v
  unfolding step answer pays
  step_live v now (submit r) = omega (arith, submit_live v r)
  step_live v now (challenge h p) =
      unfold challenge_withdrawal in
      omega (
        arith,
        replacing_live (has_id env h) (challenge_body env v.level p) v
            (λ rs. record v { pending_withdrawals = rs; fraud_proofs = v.fraud_proofs ++ p ∷ [] })
            (λ rs. refl) (challenge_KeepsId v.level p) (challenge_live v.level p),
      )
  step_live v now (approve h) =
      unfold approve_withdrawal in
      omega (
        arith,
        replacing_live (has_id env h) (approve_body env now) v
            (λ rs. record v { pending_withdrawals = rs }) (λ rs. refl) (approve_KeepsId now)
            (approve_live now),
      )
  step_live v now (expire h) =
      unfold expire_withdrawal in
      omega (
        arith,
        replacing_live (expirable env h) (expire_body env) v
            (λ rs. record v { pending_withdrawals = rs }) (λ rs. refl) expire_KeepsId expire_live,
      )
  step_live v now (execute h) = elim (Bool-cases (bytes_eq h hash)) [
    | inl hit ↦ rw hit (rw (bytes_eq→eq h hash hit) (execute_paid v))
    | inr miss ↦ rw miss (omega (arith, execute_falls v h))
  ]

  run_live :
      (v : Validator) (cs : List (ℕ × Call))
      → payouts env hash v cs + live_in (run env v cs) ≤ live_in v
  unfolding run payouts
  run_live v [] = omega arith
  run_live v ((now, c) ∷ cs) = omega (arith, step_live v now c, run_live (step env v (now, c)) cs)

  -- Over any history of calls that does not start a new epoch, from any state, at most one
  -- ExecuteWithdrawal of a withdrawal hash answers true, also where the withdrawal is submitted again.
  pub payouts-le-one : (v : Validator) (cs : List (ℕ × Call)) → payouts env hash v cs ≤ 1
  payouts-le-one v cs =
      omega (arith, run_live v cs, live-le-one (first_status env hash v.pending_withdrawals))
