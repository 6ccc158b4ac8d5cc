-- ===== src/Withdrawal/Examples.antt =====
-- Concrete runs of the withdrawal validator: tests, and inputs on which the theorems are applied.
use bht_bhte.Prelude.{
  ℕ, ◌+◌, ◌*◌, ◌%◌, ◌^◌, ◌≤◌, ◌≡◌, ◌⊎◌, ◌↔◌, refl, true, List, [], ◌∷◌, ◌++◌, some, arith, length,
  get_elem?, take, replicate, length-replicate, bytes_eq,
}
use bht_bhte.Prelude.Radix.{value, digits, length-digits}
use bht_bhte.Withdrawal.{
  level3, L2StateRoot, MerkleProof, WithdrawalRequest, pending, executed, Crypto,
}
use bht_bhte.Withdrawal.Validator.{
  Validator, constructed, init_withdrawal_epoch, calculate_withdrawal_id, get_withdrawal_status,
  first_status, execute_withdrawal, at_first, submit_withdrawal, verify_withdrawal_signature,
  verify_state_root_anchor, approve_withdrawal, approve_body, execute_body,
}
use bht_bhte.Withdrawal.Validator.Runs.{
  Call, submit, approve, execute, run, step, answer, pays, payouts, last_time,
}
use bht_bhte.Withdrawal.Validator.Runs.Payout.{payouts-le-one}
use bht_bhte.Withdrawal.Validator.Runs.Settled.{Inv, run-Inv}
use bht_bhte.Withdrawal.Merkle.{verify_merkle_proof, climb, combine, is_empty}
use bht_bhte.Withdrawal.Merkle.Tree.{Collision, merkle_root, parents, verify_merkle_proof_sound}
use bht_bhte.Withdrawal.Merkle.Complete.{siblings_of, verify_merkle_proof_complete}
use bht_bhte.Withdrawal.Parse.{parse_withdrawal_request, out_of_bounds, parsed}
use bht_bhte.Withdrawal.Parse.Wire.{wire, IsWired, defaults, parse-wire}
use bht_bhte.Withdrawal.Parse.Bounds.{parse_short}
use bht_bhte.Withdrawal.Escape.{
  EscapeHatch, escape_hatch, verify_escape_proof, verify_escape_hatch, check_liveness,
}
use bht_bhte.Withdrawal.Escape.History.{
  record_anchors, newest, record_anchors-newest, verify_escape_proof-verify_escape_hatch,
}
use bht_bhte.Withdrawal.Escape.Liveness.{check_liveness_iff}

-- A stand-in for SHA-256 that gives 32 bytes.
abbrev toy_hash : List ℕ → List ℕ
toy_hash x = digits 256 32 (value 257 x)

toy_hash-size : (x : List ℕ) → length (toy_hash x) ≡ 32
toy_hash-size x = length-digits 256 32 (value 257 x)

-- A signature scheme in which the message signs itself.
abbrev toy_env : Crypto
toy_env = record {
  sha256 = toy_hash;
  import_public_key = λ level key. true;
  verify_detached = λ level message signature key. bytes_eq message signature;
}

abbrev blank : L2StateRoot
blank = record {
  block_height = 0;
  state_root = [];
  timestamp = 0;
  anchor_tx_hash = [];
  confirmed = true;
}

abbrev unsigned_request : WithdrawalRequest
unsigned_request = record {
  recipient_bhc_address = replicate 25 7;
  amount = 5000;
  l2_block_number = 12;
  l2_transaction_hash = replicate 32 9;
  state_root = record blank { block_height = 100; state_root = 1 ∷ 2 ∷ [] };
  merkle_proof = record {
    siblings = replicate 32 4 ∷ replicate 32 5 ∷ [];
    path = 0;
    leaf_hash = [];
  };
  signature = replicate 3293 1;
  mldsa_pubkey = replicate 1952 2;
  request_timestamp = 1000;
  status = pending;
  challenge_end_time = 605800;
  challenge_reason = [];
}

abbrev request_id : List ℕ
request_id = calculate_withdrawal_id toy_env unsigned_request

abbrev request : WithdrawalRequest
request = record unsigned_request { signature = request_id }

abbrev history : List (ℕ × Call)
history =
    (1000, submit request)
    ∷ (605800, approve request_id)
    ∷ (605801, execute request_id)
    ∷ (605802, submit request)
    ∷ (605803, execute request_id)
    ∷ []

abbrev start : Validator
start = init_withdrawal_epoch (constructed level3) (1 ∷ 2 ∷ []) 100 500

test_history : payouts toy_env request_id start history ≡ 1
unfolding payouts run constructed init_withdrawal_epoch calculate_withdrawal_id
    get_withdrawal_status first_status step pays execute_withdrawal at_first submit_withdrawal
    verify_withdrawal_signature verify_state_root_anchor approve_withdrawal approve_body
    execute_body answer
test_history = refl

test_status : get_withdrawal_status toy_env (run toy_env start history) request_id ≡ executed
unfolding payouts run constructed init_withdrawal_epoch calculate_withdrawal_id
    get_withdrawal_status first_status step pays execute_withdrawal at_first submit_withdrawal
    verify_withdrawal_signature verify_state_root_anchor approve_withdrawal approve_body
    execute_body answer
test_status = refl

payouts-le-one_example : payouts toy_env request_id start history ≤ 1
payouts-le-one_example = payouts-le-one toy_env request_id start history

run-Inv_example :
    Inv toy_env level3
      (record blank {
        block_height = 100;
        state_root = 1 ∷ 2 ∷ [];
        timestamp = 500;
        anchor_tx_hash = replicate 32 0;
      }
        ∷ [])
      (last_time 500 history)
      (run toy_env start history)
unfolding constructed init_withdrawal_epoch
run-Inv_example =
    run-Inv toy_env (constructed level3) (1 ∷ 2 ∷ []) 100 500 history
      (omega arith, (omega arith, (omega arith, (omega arith, (omega arith, tt)))))

abbrev leaf : ℕ → List ℕ
leaf n = replicate 32 n

abbrev four_leaves : List (List ℕ)
four_leaves = leaf 1 ∷ leaf 2 ∷ leaf 3 ∷ leaf 4 ∷ []

abbrev third_proof : MerkleProof
third_proof = record {
  siblings = leaf 4 ∷ toy_hash (leaf 1 ++ leaf 2) ∷ [];
  path = 2;
  leaf_hash = leaf 3;
}

test_third_proof :
    verify_merkle_proof toy_hash third_proof (merkle_root toy_hash 2 four_leaves) ≡ true
unfolding verify_merkle_proof climb combine is_empty merkle_root parents
test_third_proof = refl

verify_merkle_proof_sound_example :
    (get_elem? four_leaves (2 % 2 ^ 32 % 2 ^ 2) ≡ some (leaf 3)) ⊎ Collision toy_hash
verify_merkle_proof_sound_example =
    verify_merkle_proof_sound toy_hash toy_hash-size 2 third_proof four_leaves refl refl
      (refl, (refl, (refl, (refl, tt)))) test_third_proof

verify_merkle_proof_complete_example :
    verify_merkle_proof toy_hash
      (record {
        siblings = siblings_of toy_hash toy_hash-size 2 four_leaves 2;
        path = 2;
        leaf_hash = leaf 3;
      })
      (merkle_root toy_hash 2 four_leaves)
    ≡ true
verify_merkle_proof_complete_example =
    verify_merkle_proof_complete toy_hash toy_hash-size 1 2 four_leaves (omega arith) (omega arith)
      refl (refl, (refl, (refl, (refl, tt))))

unsigned_request-IsWired : IsWired unsigned_request
unsigned_request-IsWired = record {
  recipient_size = refl;
  amount_fits = omega arith;
  block_fits = omega arith;
  hash_size = refl;
  count_fits = omega arith;
  sibling_sizes = (refl, (refl, tt));
  signature_size = length-replicate {A = ℕ} 3293 1;
  pubkey_size = length-replicate {A = ℕ} 1952 2;
  time_fits = omega arith;
}

parse-wire_example :
    parse_withdrawal_request blank 0 (wire unsigned_request (3 ∷ []))
    ≡ parsed (defaults blank 0 unsigned_request)
parse-wire_example = parse-wire blank 0 unsigned_request (3 ∷ []) unsigned_request-IsWired

parse_short_example : parse_withdrawal_request blank 0 (replicate 200 0) ≡ out_of_bounds
parse_short_example = parse_short blank 0 (replicate 200 0) (omega arith) (omega arith)

abbrev root_at : ℕ → L2StateRoot
root_at height = record blank { block_height = height; timestamp = height * 100 }

record_anchors-newest_example :
    (record_anchors escape_hatch (root_at 5 ∷ root_at 6 ∷ [])).historical_roots
    ≡ newest 10000 (root_at 5 ∷ root_at 6 ∷ [])
record_anchors-newest_example = record_anchors-newest (root_at 5 ∷ root_at 6 ∷ [])

abbrev escape_proof : List ℕ
escape_proof = 6 ∷ 0 ∷ 0 ∷ 0 ∷ 0 ∷ 0 ∷ 0 ∷ 0 ∷ replicate 56 17

abbrev recorded : EscapeHatch
recorded = record_anchors escape_hatch (root_at 5 ∷ root_at 6 ∷ [])

verify_escape_proof-verify_escape_hatch_example :
    verify_escape_proof recorded escape_proof (replicate 25 3)
    ≡ verify_escape_hatch escape_proof
        (replicate 25 3)
        (value 256 (take 8 escape_proof))
        recorded.historical_roots
verify_escape_proof-verify_escape_hatch_example =
    verify_escape_proof-verify_escape_hatch recorded escape_proof (replicate 25 3) (omega arith)

check_liveness_iff_example :
    (check_liveness (record escape_hatch { last_anchor_time = 100000 }) 99999 ≡ true)
    ↔ (((100000 ≤ 99999) × (99999 ≤ 100000 + 86400)) ⊎ (99999 + 2 ^ 64 ≤ 100000 + 86400))
check_liveness_iff_example =
    check_liveness_iff (record escape_hatch { last_anchor_time = 100000 }) 99999 (omega arith)
      (omega arith)
