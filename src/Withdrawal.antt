-- ===== src/Withdrawal.antt =====
-- BHC/src/script/withdrawal_script.h: the types that the validators share, and what they take from
-- outside. A byte vector is a list of numbers, and a uint64_t a number below 2 ^ 64.
pub mod Validator
pub mod Merkle
pub mod Parse
pub mod Escape
pub mod ForcedExit
mod Examples
use bht_bhte.Prelude.{ℕ, ◌*◌, Bool, List}

pub data Level : Type 0 where
  level2 level3 level5 : Level

pub data WithdrawalStatus : Type 0 where
  pending challenged approved executed expired fraudulent : WithdrawalStatus

abbrev pub challenge_period_seconds : ℕ
challenge_period_seconds = 7 * 24 * 60 * 60

-- Compared with an amount in ExecuteWithdrawal, despite its name.
abbrev pub max_withdrawal_delay : ℕ
max_withdrawal_delay = 24 * 60 * 60

pub record MerkleProof : Type 0 where
  pub siblings : List (List ℕ)
  pub path : ℕ
  pub leaf_hash : List ℕ

pub record L2StateRoot : Type 0 where
  pub block_height : ℕ
  pub state_root : List ℕ
  pub timestamp : ℕ
  pub anchor_tx_hash : List ℕ
  pub confirmed : Bool

pub record WithdrawalRequest : Type 0 where
  pub recipient_bhc_address : List ℕ
  pub amount : ℕ
  pub l2_block_number : ℕ
  pub l2_transaction_hash : List ℕ
  pub state_root : L2StateRoot
  pub merkle_proof : MerkleProof
  pub signature : List ℕ
  pub mldsa_pubkey : List ℕ
  pub request_timestamp : ℕ
  pub status : WithdrawalStatus
  pub challenge_end_time : ℕ
  pub challenge_reason : List ℕ

pub record FraudProof : Type 0 where
  pub l2_block_hash : List ℕ
  pub correct_state_transition_proof : List ℕ
  pub fraudster_pubkey : List ℕ
  pub fraudster_signature : List ℕ
  pub timestamp : ℕ

-- `CSHA256::Hash` is Bitcoin Core's. `ImportPublicKey` and `VerifyDetached` are called on a CMLDSA
-- but declared by no file of the repository. The last one is of a message, a signature and a key.
pub record Crypto : Type 0 where
  pub sha256 : List ℕ → List ℕ
  pub import_public_key : Level → List ℕ → Bool
  pub verify_detached : Level → List ℕ → List ℕ → List ℕ → Bool
