-- ===== src/HybridSig/Examples.antt =====
-- Signatures on which the theorems are applied.
use bht_bhte.Prelude.{
  ℕ, ◌≡◌, refl, true, false, [], replicate, take, drop, leb, length, if◌then◌else◌,
}
use bht_bhte.HybridSig.{
  witness_v0, witness_v1_bhc, Verifiers, verify_ecdsa, execute_post_quantum_verify,
  eval_check_sig_hybrid, verify_hybrid, split_signature,
}
use bht_bhte.HybridSig.Dispatch.{eval_check_sig_hybrid-post_quantum, eval_check_sig_hybrid-legacy}

abbrev permissive : Verifiers
permissive = record {
  pubkey_is_valid = λ key. true;
  pubkey_verify = λ key hash signature. true;
  mldsa_verify = λ level message signature key. true;
}

-- A long signature carries its own ECDSA key, and the key that the script names is not used.
test_own_key :
    eval_check_sig_hybrid permissive (replicate 3397 1) [] (replicate 32 5) witness_v0 ≡ true
unfolding eval_check_sig_hybrid verify_hybrid split_signature verify_ecdsa
test_own_key = refl

eval_check_sig_hybrid-post_quantum_example :
    eval_check_sig_hybrid permissive
      (replicate 3293 1)
      (replicate 1952 2)
      (replicate 32 5)
      witness_v1_bhc
    ≡ execute_post_quantum_verify permissive (replicate 3293 1) (replicate 1952 2) (replicate 32 5)
eval_check_sig_hybrid-post_quantum_example =
    eval_check_sig_hybrid-post_quantum permissive (replicate 3293 1) (replicate 1952 2)
      (replicate 32 5) witness_v1_bhc refl

eval_check_sig_hybrid-legacy_example :
    eval_check_sig_hybrid permissive (replicate 71 1) (replicate 33 2) (replicate 32 5) witness_v0
    ≡ (if leb (length {A = ℕ} (replicate 71 1)) 72
        then verify_ecdsa permissive (replicate 71 1) (replicate 33 2) (replicate 32 5)
        else if leb 3397 (length {A = ℕ} (replicate 71 1))
        then verify_ecdsa permissive
            (take 71 (replicate 71 1))
            (take 33 (drop 71 (replicate 71 1)))
            (replicate 32 5)
        else false)
eval_check_sig_hybrid-legacy_example =
    eval_check_sig_hybrid-legacy permissive (replicate 71 1) (replicate 33 2) (replicate 32 5)
      witness_v0 refl
