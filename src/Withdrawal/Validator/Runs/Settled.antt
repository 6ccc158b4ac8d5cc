-- ===== src/Withdrawal/Validator/Runs/Settled.antt =====
-- What every stored request has passed.
use mathlib.Core.Option
use bht_bhte.Prelude.{
  ℕ, ◌≤◌, ◌≡◌, refl, inl, inr, Bool, true, List, [], ◌∷◌, ◌++◌, Option, some, arith, Bool-cases,
  Option-cases, All, All-append, ◌∙◌, subst,
}
use bht_bhte.Withdrawal.{
  WithdrawalRequest, FraudProof, Level, L2StateRoot, WithdrawalStatus, pending, approved, executed,
  fraudulent, Crypto, max_withdrawal_delay,
}
use bht_bhte.Withdrawal.Validator.{
  Validator, at_first, has_id, submit_withdrawal, challenge_withdrawal, approve_withdrawal,
  execute_withdrawal, expire_withdrawal, challenge_body, approve_body, execute_body, expire_body,
  expirable, calculate_withdrawal_id, verify_withdrawal_signature, verify_state_root_anchor,
  init_withdrawal_epoch,
}
use bht_bhte.Withdrawal.Validator.Runs.{
  Call, submit, challenge, approve, execute, expire, answer, step, run, after, Ascending, last_time,
}
use bht_bhte.Withdrawal.Validator.Runs.Lookup.{at_first-Replaces, Replaces-All}

-- What a status says of its request at time t.
abbrev pub Matured : WithdrawalStatus → WithdrawalRequest → ℕ → Type 0
Matured approved r t = r.challenge_end_time ≤ t
Matured executed r t = (r.challenge_end_time ≤ t) × (r.amount ≤ max_withdrawal_delay)
Matured fraudulent r t = ⊥
Matured _ r t = Unit {0}

module _ (env : Crypto) where
  pub record IsSettled (level : Level) (roots : List L2StateRoot) (t : ℕ) (r : WithdrawalRequest)
      : Type 0 where
    pub signed : verify_withdrawal_signature env level r ≡ true
    pub anchored : verify_state_root_anchor roots r.state_root ≡ true
    pub matured : Matured r.status r t

  pub record Inv (level : Level) (roots : List L2StateRoot) (t : ℕ) (v : Validator) : Type 0 where
    pub level_kept : v.level ≡ level
    pub roots_kept : v.anchored_roots ≡ roots
    pub all_settled : All (IsSettled level roots t) v.pending_withdrawals

  module _ (level : Level) (roots : List L2StateRoot) where
    Matured-later :
        (s : WithdrawalStatus) (r : WithdrawalRequest) (t now : ℕ)
        → t ≤ now
        → Matured s r t
        → Matured s r now
    Matured-later approved r t now h m = omega arith
    Matured-later executed r t now h m = omega arith
    Matured-later fraudulent r t now h m = m
    Matured-later _ r t now h m = tt

    later_All :
        (rs : List WithdrawalRequest) (t now : ℕ)
        → t ≤ now
        → All (IsSettled level roots t) rs
        → All (IsSettled level roots now) rs
    later_All [] t now h a = tt
    later_All (r ∷ rs) t now h (s, a) = (
      record {
        signed = s.signed;
        anchored = s.anchored;
        matured = Matured-later r.status r t now h s.matured;
      },
      later_All rs t now h a,
    )

    abbrev Keeps : ℕ → (WithdrawalRequest → Option WithdrawalRequest) → Type 0
    Keeps now body =
        (r r' : WithdrawalRequest)
        → body r ≡ some r'
        → IsSettled level roots now r
        → IsSettled level roots now r'

    challenge_Keeps : (now : ℕ) (p : FraudProof) (l : Level) → Keeps now (challenge_body env l p)
    unfolding challenge_body verify_withdrawal_signature calculate_withdrawal_id
    challenge_Keeps now p l r r' e s = ground arith

    approve_Keeps : (now : ℕ) → Keeps now (approve_body env now)
    unfolding approve_body verify_withdrawal_signature calculate_withdrawal_id
    approve_Keeps now r r' e s = ground arith

    execute_Keeps : (now : ℕ) → Keeps now (execute_body env)
    unfolding execute_body verify_withdrawal_signature calculate_withdrawal_id
    execute_Keeps now r r' e s = ground arith

    expire_Keeps : (now : ℕ) → Keeps now (expire_body env)
    unfolding verify_withdrawal_signature calculate_withdrawal_id
    expire_Keeps now r r' e s = ground arith

    later_Inv : (v : Validator) (t now : ℕ) → t ≤ now → Inv level roots t v → Inv level roots now v
    later_Inv v t now h i = record {
      level_kept = i.level_kept;
      roots_kept = i.roots_kept;
      all_settled = later_All v.pending_withdrawals t now h i.all_settled;
    }

    -- A call that replaces requests by a body that keeps them settled.
    replacing_Inv :
        (test : WithdrawalRequest → Bool) (body : WithdrawalRequest → Option WithdrawalRequest)
        (now : ℕ) (v : Validator) (rebuild : List WithdrawalRequest → Validator)
        → ((rs : List WithdrawalRequest)
            → ((rebuild rs).pending_withdrawals ≡ rs)
              × ((rebuild rs).level ≡ v.level)
              × ((rebuild rs).anchored_roots ≡ v.anchored_roots))
        → Keeps now body
        → Inv level roots now v
        → Inv level roots now
            (after v (Option.map rebuild (at_first test body v.pending_withdrawals)))
    replacing_Inv test body now v rebuild shows keep i =
        elim (Option-cases (at_first test body v.pending_withdrawals)) [
          | inl e ↦ rw e i
          | inr (rs, e) ↦
              let (p, l, a) = shows rs in
              rw e (record {
                level_kept = l ∙ i.level_kept;
                roots_kept = a ∙ i.roots_kept;
                all_settled = rw p (
                    Replaces-All (IsSettled level roots now) keep
                      (at_first-Replaces test body v.pending_withdrawals rs e) i.all_settled);
              })
        ]

    stored-IsSettled :
        (now : ℕ) (l : Level) (roots' : List L2StateRoot) (r : WithdrawalRequest)
        → l ≡ level
        → roots' ≡ roots
        → verify_withdrawal_signature env l r ≡ true
        → verify_state_root_anchor roots' r.state_root ≡ true
        → IsSettled level roots now (record r { status = pending })
    unfolding verify_withdrawal_signature calculate_withdrawal_id
    stored-IsSettled now l roots' r el er good held = record {
      signed = subst (λ l. verify_withdrawal_signature env l r ≡ true) el good;
      anchored = subst (λ rs. verify_state_root_anchor rs r.state_root ≡ true) er held;
      matured = tt;
    }

    submit_Inv :
        (now : ℕ) (v : Validator) (r : WithdrawalRequest)
        → Inv level roots now v
        → Inv level roots now (after v (submit_withdrawal env v r))
    unfolding submit_withdrawal
    submit_Inv now v r i = elim (Bool-cases (verify_withdrawal_signature env v.level r)) [
      | inr bad ↦ rw bad i
      | inl good ↦ elim (Bool-cases (verify_state_root_anchor v.anchored_roots r.state_root)) [
        | inr stray ↦ rw (good, stray) i
        | inl held ↦
            rw (good, held)
              (record {
                level_kept = i.level_kept;
                roots_kept = i.roots_kept;
                all_settled =
                    All-append (IsSettled level roots now) v.pending_withdrawals _ i.all_settled (
                      stored-IsSettled now v.level v.anchored_roots r i.level_kept i.roots_kept good
                          held,
                      tt,
                    );
              })
      ]
    ]

    step-Inv :
        (v : Validator) (t now : ℕ) (c : Call)
        → t ≤ now
        → Inv level roots t v
        → Inv level roots now (step env v (now, c))
    unfolding step answer
    step-Inv v t now (submit r) h i = submit_Inv now v r (later_Inv v t now h i)
    step-Inv v t now (challenge hash p) h i =
        unfold challenge_withdrawal in
        replacing_Inv (has_id env hash) (challenge_body env v.level p) now v
          (λ rs. record v { pending_withdrawals = rs; fraud_proofs = v.fraud_proofs ++ p ∷ [] })
          (λ rs. (refl, refl, refl)) (challenge_Keeps now p v.level) (later_Inv v t now h i)
    step-Inv v t now (approve hash) h i =
        unfold approve_withdrawal in
        replacing_Inv (has_id env hash) (approve_body env now) now v
          (λ rs. record v { pending_withdrawals = rs }) (λ rs. (refl, refl, refl))
          (approve_Keeps now) (later_Inv v t now h i)
    step-Inv v t now (execute hash) h i =
        unfold execute_withdrawal in
        replacing_Inv (has_id env hash) (execute_body env) now v
          (λ rs. record v { pending_withdrawals = rs }) (λ rs. (refl, refl, refl))
          (execute_Keeps now) (later_Inv v t now h i)
    step-Inv v t now (expire hash) h i =
        unfold expire_withdrawal in
        replacing_Inv (expirable env hash) (expire_body env) now v
          (λ rs. record v { pending_withdrawals = rs }) (λ rs. (refl, refl, refl))
          (expire_Keeps now) (later_Inv v t now h i)

    run-Inv' :
        (v : Validator) (t : ℕ) (cs : List (ℕ × Call))
        → Ascending t cs
        → Inv level roots t v
        → Inv level roots (last_time t cs) (run env v cs)
    unfolding run
    run-Inv' v t [] a i = i
    run-Inv' v t ((now, c) ∷ cs) (h, a) i =
        run-Inv' (step env v (now, c)) now cs a (step-Inv v t now c h i)

  -- After InitWithdrawalEpoch at time t and any calls on a clock that does not run backwards, every
  -- stored request has a signature that verifies and an anchored, confirmed state root; if it is
  -- approved or executed its challenge time is over, if it is executed its amount is at most
  -- MAX_WITHDRAWAL_DELAY, and none is FRAUDULENT. The calls keep the level and the anchored roots.
  pub run-Inv :
      (v : Validator) (root : List ℕ) (height t : ℕ) (cs : List (ℕ × Call))
      → Ascending t cs
      → let start = init_withdrawal_epoch v root height t in
        Inv v.level start.anchored_roots (last_time t cs) (run env start cs)
  unfolding init_withdrawal_epoch
  run-Inv v root height t cs a =
      run-Inv' v.level _ _ t cs a
        (record { level_kept = refl; roots_kept = refl; all_settled = tt })
