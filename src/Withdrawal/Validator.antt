-- ===== src/Withdrawal/Validator.antt =====
-- CWithdrawalValidator of BHC/src/script/withdrawal_script.cpp. A method that answers a bool and
-- changes the object returns `none` for false, with the object as it was; `now` is GetTime().
pub mod Runs
use mathlib.Core.Option
use bht_bhte.Prelude.{
  ℕ, zero, suc, ◌+◌, ◌*◌, ◌/◌, ◌%◌, ◌^◌, Bool, true, false, not, ◌&&◌, ◌||◌, List, [], ◌∷◌, ◌++◌,
  Option, none, some, ltb, ◌==◌, if◌then◌else◌, length, replicate, bytes_eq,
}
use bht_bhte.Prelude.Radix.{digits}
use bht_bhte.Withdrawal.{
  Level, WithdrawalStatus, pending, challenged, approved, executed, expired, fraudulent,
  MerkleProof, L2StateRoot, WithdrawalRequest, FraudProof, Crypto, max_withdrawal_delay,
}

pub record Validator : Type 0 where
  pub level : Level
  pub anchored_roots : List L2StateRoot
  pub pending_withdrawals : List WithdrawalRequest
  pub fraud_proofs : List FraudProof

-- The first element that the test finds is handed to `body`; `none` if there is none, or if the body
-- returns false.
unfoldable pub at_first {ℓ} : {A : Type ℓ} → (A → Bool) → (A → Option A) → List A → Option (List A)
at_first test body [] = none
at_first test body (r ∷ rs) =
    let rest = Option.map (λ rs'. r ∷ rs') (at_first test body rs) in
    if test r then Option.map (λ r'. r' ∷ rs) (body r) else rest

abbrev pub is_status : WithdrawalStatus → WithdrawalStatus → Bool
is_status pending pending = true
is_status challenged challenged = true
is_status approved approved = true
is_status executed executed = true
is_status expired expired = true
is_status fraudulent fraudulent = true
is_status _ _ = false

unfoldable pub constructed : Level → Validator
constructed level = record {
  level = level;
  anchored_roots = [];
  pending_withdrawals = [];
  fraud_proofs = [];
}

-- `epoch_root.anchor_tx_hash` is 32 zero bytes.
unfoldable pub init_withdrawal_epoch : Validator → List ℕ → ℕ → ℕ → Validator
init_withdrawal_epoch v initial_state_root start_block_height now = record v {
  anchored_roots =
      (record {
        block_height = start_block_height;
        state_root = initial_state_root;
        timestamp = now;
        anchor_tx_hash = replicate 32 0;
        confirmed = true;
      })
      ∷ [];
  pending_withdrawals = [];
  fraud_proofs = [];
}

unfoldable pub verify_state_root_anchor : List L2StateRoot → L2StateRoot → Bool
verify_state_root_anchor [] root = false
verify_state_root_anchor (a ∷ rest) root =
    (a.block_height == root.block_height && (bytes_eq a.state_root root.state_root && a.confirmed))
    || verify_state_root_anchor rest root

module _ (env : Crypto) where
  -- The amount is written as eight bytes, the lowest first.
  unfoldable pub calculate_withdrawal_id : WithdrawalRequest → List ℕ
  calculate_withdrawal_id r =
      env.sha256 (r.l2_transaction_hash ++ (r.recipient_bhc_address ++ digits 256 8 r.amount))

  unfoldable pub verify_withdrawal_signature : Level → WithdrawalRequest → Bool
  verify_withdrawal_signature level r =
      if not (env.import_public_key level r.mldsa_pubkey)
      then false
      else env.verify_detached level (calculate_withdrawal_id r) r.signature r.mldsa_pubkey

  unfoldable pub verify_fraud_proof : Level → FraudProof → Bool
  verify_fraud_proof level p =
      if not (env.import_public_key level p.fraudster_pubkey)
      then false
      else env.verify_detached level p.l2_block_hash p.fraudster_signature p.fraudster_pubkey

  abbrev pub has_id : List ℕ → WithdrawalRequest → Bool
  has_id hash r = bytes_eq (calculate_withdrawal_id r) hash

  -- The source assigns to its `const` argument; what is stored has the status PENDING.
  unfoldable pub submit_withdrawal : Validator → WithdrawalRequest → Option Validator
  submit_withdrawal v r =
      if not (verify_withdrawal_signature v.level r)
      then none
      else if not (verify_state_root_anchor v.anchored_roots r.state_root)
      then none
      else some (record v {
        pending_withdrawals = v.pending_withdrawals ++ record r { status = pending } ∷ [];
      })

  unfoldable pub challenge_body : Level → FraudProof → WithdrawalRequest → Option WithdrawalRequest
  challenge_body level p r =
      if not (verify_fraud_proof level p)
      then none
      else some
          (record r { status = challenged; challenge_reason = p.correct_state_transition_proof })

  unfoldable pub challenge_withdrawal : Validator → List ℕ → FraudProof → Option Validator
  challenge_withdrawal v hash p =
      Option.map
        (λ rs. record v { pending_withdrawals = rs; fraud_proofs = v.fraud_proofs ++ p ∷ [] })
        (at_first (has_id hash) (challenge_body v.level p) v.pending_withdrawals)

  unfoldable pub approve_body : ℕ → WithdrawalRequest → Option WithdrawalRequest
  approve_body now r =
      if not (is_status r.status pending)
      then none
      else if ltb now r.challenge_end_time
      then none
      else some (record r { status = approved })

  unfoldable pub approve_withdrawal : Validator → List ℕ → ℕ → Option Validator
  approve_withdrawal v hash now =
      Option.map (λ rs. record v { pending_withdrawals = rs })
        (at_first (has_id hash) (approve_body now) v.pending_withdrawals)

  unfoldable pub execute_body : WithdrawalRequest → Option WithdrawalRequest
  execute_body r =
      if not (is_status r.status approved)
      then none
      else if ltb max_withdrawal_delay r.amount
      then none
      else some (record r { status = executed })

  unfoldable pub execute_withdrawal : Validator → List ℕ → Option Validator
  execute_withdrawal v hash =
      Option.map (λ rs. record v { pending_withdrawals = rs })
        (at_first (has_id hash) execute_body v.pending_withdrawals)

  -- A request that is neither pending nor challenged does not end this loop.
  abbrev pub expirable : List ℕ → WithdrawalRequest → Bool
  expirable hash r = has_id hash r && (is_status r.status pending || is_status r.status challenged)

  abbrev pub expire_body : WithdrawalRequest → Option WithdrawalRequest
  expire_body r = some (record r { status = expired })

  unfoldable pub expire_withdrawal : Validator → List ℕ → Option Validator
  expire_withdrawal v hash =
      Option.map (λ rs. record v { pending_withdrawals = rs })
        (at_first (expirable hash) expire_body v.pending_withdrawals)

  unfoldable pub first_status : List ℕ → List WithdrawalRequest → Option WithdrawalStatus
  first_status hash [] = none
  first_status hash (r ∷ rs) = if has_id hash r then some r.status else first_status hash rs

  unfoldable pub get_withdrawal_status : Validator → List ℕ → WithdrawalStatus
  get_withdrawal_status v hash = Option.get_or (first_status hash v.pending_withdrawals) expired

  unfoldable pub is_ready_in : ℕ → List ℕ → List WithdrawalRequest → Bool
  is_ready_in now hash [] = false
  is_ready_in now hash (r ∷ rs) =
      (has_id hash r && (is_status r.status pending && not (ltb now r.challenge_end_time)))
      || is_ready_in now hash rs

  unfoldable pub is_withdrawal_ready : Validator → List ℕ → ℕ → Bool
  is_withdrawal_ready v hash now = is_ready_in now hash v.pending_withdrawals

unfoldable pub pending_in : List WithdrawalRequest → List WithdrawalRequest
pending_in [] = []
pending_in (r ∷ rs) =
    let rest = pending_in rs in if is_status r.status pending then r ∷ rest else rest

unfoldable pub get_pending_withdrawals : Validator → List WithdrawalRequest
get_pending_withdrawals v = pending_in v.pending_withdrawals
