-- ===== src/HybridSig.antt =====
-- BHC/src/script/hybrid_sig.cpp: which signatures a script accepts. CPubKey and MLDSA_Verify are
-- taken as an interface; a span is a list of bytes.
pub mod Dispatch
mod Examples
use bht_bhte.Prelude.{
  ℕ, ◌+◌, ◌*◌, ◌/◌, ◌%◌, ◌^◌, Bool, true, false, not, ◌&&◌, ◌||◌, List, [], ◌∷◌, ltb, leb, ◌==◌,
  if◌then◌else◌, length, take, drop,
}

pub data SigVersion : Type 0 where
  base witness_v0 witness_v1 witness_v1_bhc witness_v1_pq : SigVersion

pub data Level : Type 0 where
  level2 level3 level5 : Level

-- `pubkey_verify` is of a key, a hash and a signature; `mldsa_verify` of a level, a message, a
-- signature and a key.
pub record Verifiers : Type 0 where
  pub pubkey_is_valid : List ℕ → Bool
  pub pubkey_verify : List ℕ → List ℕ → List ℕ → Bool
  pub mldsa_verify : Level → List ℕ → List ℕ → List ℕ → Bool

pub record HybridSignatureData : Type 0 where
  pub ecdsa_signature : List ℕ
  pub mldsa_signature : List ℕ
  pub ecdsa_pubkey : List ℕ
  pub mldsa_pubkey : List ℕ
  pub use_post_quantum : Bool
  pub sig_version : SigVersion

abbrev pub hybrid_signature_data : HybridSignatureData
hybrid_signature_data = record {
  ecdsa_signature = [];
  mldsa_signature = [];
  ecdsa_pubkey = [];
  mldsa_pubkey = [];
  use_post_quantum = false;
  sig_version = base;
}

pub record HybridValidator : Type 0 where
  pub require_quantum_safe : Bool
  pub level : Level

-- The defaults of the constructor.
abbrev pub hybrid_validator : HybridValidator
hybrid_validator = record { require_quantum_safe = false; level = level3 }

unfoldable pub set_require_quantum_safe : HybridValidator → Bool → HybridValidator
set_require_quantum_safe v b = record v { require_quantum_safe = b }

abbrev pub signature_size : Level → ℕ
signature_size level2 = 2420
signature_size level3 = 3293
signature_size level5 = 4595

abbrev pub public_key_size : Level → ℕ
public_key_size level2 = 1312
public_key_size level3 = 1952
public_key_size level5 = 2592

abbrev pub is_post_quantum_witness : SigVersion → Bool
is_post_quantum_witness witness_v1_bhc = true
is_post_quantum_witness witness_v1_pq = true
is_post_quantum_witness _ = false

unfoldable pub detect_signature_version : List ℕ → SigVersion
detect_signature_version [] = base
detect_signature_version (version ∷ rest) =
    if version == 0x00
    then witness_v0
    else if version == 0x01
    then witness_v1
    else if version == 0x42
    then witness_v1_bhc
    else if version == 0x43
    then witness_v1_pq
    else base

-- `!signature.empty() && !pubkey.empty()`
abbrev pub both_given : List ℕ → List ℕ → Bool
both_given [] pubkey = false
both_given (s ∷ signature) [] = false
both_given (s ∷ signature) (k ∷ pubkey) = true

module _ (env : Verifiers) where
  unfoldable pub verify_ecdsa : List ℕ → List ℕ → List ℕ → Bool
  verify_ecdsa signature pubkey message_hash =
      if ltb (length signature) 8 || ltb 72 (length signature)
      then false
      else if not (length pubkey == 33) && not (length pubkey == 65)
      then false
      else if not (length message_hash == 32)
      then false
      else if not (env.pubkey_is_valid pubkey)
      then false
      else env.pubkey_verify pubkey message_hash signature

  unfoldable pub verify_mldsa : HybridValidator → List ℕ → List ℕ → List ℕ → Bool
  verify_mldsa v signature pubkey message_hash =
      if not (length signature == signature_size v.level)
      then false
      else if not (length pubkey == public_key_size v.level)
      then false
      else if not (length message_hash == 32)
      then false
      else env.mldsa_verify v.level message_hash signature pubkey

  unfoldable pub verify_hybrid : HybridValidator → HybridSignatureData → List ℕ → Bool
  verify_hybrid v d message_hash =
      let ecdsa_valid =
        both_given d.ecdsa_signature d.ecdsa_pubkey
        && verify_ecdsa d.ecdsa_signature d.ecdsa_pubkey message_hash in
      let mldsa_valid =
        both_given d.mldsa_signature d.mldsa_pubkey
        && verify_mldsa v d.mldsa_signature d.mldsa_pubkey message_hash in
      if v.require_quantum_safe
      then mldsa_valid
      else if is_post_quantum_witness d.sig_version
      then ecdsa_valid && mldsa_valid
      else ecdsa_valid

  unfoldable pub verify_post_quantum_only : HybridValidator → List ℕ → List ℕ → List ℕ → Bool
  verify_post_quantum_only v signature pubkey message_hash =
      verify_mldsa v signature pubkey message_hash

  unfoldable pub verify_legacy_only : List ℕ → List ℕ → List ℕ → Bool
  verify_legacy_only signature pubkey message_hash = verify_ecdsa signature pubkey message_hash

  unfoldable pub execute_post_quantum_verify : List ℕ → List ℕ → List ℕ → Bool
  execute_post_quantum_verify sig pubkey message_hash =
      if not (length sig == signature_size level3)
      then false
      else if not (length pubkey == public_key_size level3)
      then false
      else env.mldsa_verify level3 message_hash sig pubkey

  -- The fields that EvalCheckSigHybrid fills from the two stack elements.
  unfoldable pub split_signature : List ℕ → List ℕ → SigVersion → HybridSignatureData
  split_signature sig pubkey version =
      let d = record hybrid_signature_data { sig_version = version } in
      if leb (length sig) 72
      then record d { ecdsa_signature = sig; ecdsa_pubkey = pubkey }
      else if leb (71 + 33 + signature_size level3) (length sig)
      then record d {
        ecdsa_signature = take 71 sig;
        ecdsa_pubkey = take 33 (drop 71 sig);
        mldsa_signature = take (signature_size level3) (drop (71 + 33) sig);
        mldsa_pubkey = pubkey;
        use_post_quantum = true;
      }
      else d

  unfoldable pub eval_check_sig_hybrid : List ℕ → List ℕ → List ℕ → SigVersion → Bool
  eval_check_sig_hybrid sig pubkey message_hash version =
      if is_post_quantum_witness version && ltb 3000 (length sig)
      then execute_post_quantum_verify sig pubkey message_hash
      else verify_hybrid hybrid_validator (split_signature sig pubkey version) message_hash

-- size_t arithmetic; `max` with 200.
unfoldable pub calculate_pq_witness_weight : ℕ → ℕ → ℕ
calculate_pq_witness_weight signature_size pubkey_size =
    let base_weight = (signature_size + pubkey_size) % 2 ^ 64 * 4 % 2 ^ 64 in
    let discounted_weight = base_weight / 16 in
    if ltb discounted_weight 200 then 200 else discounted_weight
