-- ===== src/HybridSig/Dispatch.antt =====
-- What EvalCheckSigHybrid comes down to.
use bht_bhte.Prelude.{
  ℕ, ◌≡◌, refl, inl, inr, Bool, true, false, ◌&&◌, ◌||◌, List, [], ◌∷◌, arith, ltb, leb, ◌==◌,
  if◌then◌else◌, length, take, drop, Bool-cases,
}
use bht_bhte.HybridSig.{
  SigVersion, Verifiers, is_post_quantum_witness, both_given, verify_ecdsa, verify_hybrid,
  execute_post_quantum_verify, split_signature, eval_check_sig_hybrid,
}

short-not_pq : (n : ℕ) → ltb 3000 n ≡ false → ((n == 3293) ≡ false) × (leb 3397 n ≡ false)
short-not_pq n h = ground arith

and_false : (b : Bool) → (b && false) ≡ false
and_false true = refl
and_false false = refl

module _ (env : Verifiers) where
  -- verifyECDSA refuses what the guard of VerifyHybrid leaves out.
  given-verify_ecdsa :
      (sig pubkey hash : List ℕ)
      → (both_given sig pubkey && verify_ecdsa env sig pubkey hash)
        ≡ verify_ecdsa env sig pubkey hash
  unfolding verify_ecdsa
  given-verify_ecdsa [] pubkey hash = refl
  given-verify_ecdsa (s ∷ sig) [] hash =
      elim (Bool-cases (ltb (length (s ∷ sig)) 8 || ltb 72 (length (s ∷ sig)))) [
        | inl e ↦ rw e
        | inr e ↦ rw e
      ]
  given-verify_ecdsa (s ∷ sig) (k ∷ pubkey) hash = refl

  -- With a post-quantum witness version, EvalCheckSigHybrid accepts what ExecutePostQuantumVerify
  -- accepts and nothing else: no ECDSA signature is asked for.
  pub eval_check_sig_hybrid-post_quantum :
      (sig pubkey hash : List ℕ) (version : SigVersion)
      → is_post_quantum_witness version ≡ true
      → eval_check_sig_hybrid env sig pubkey hash version
        ≡ execute_post_quantum_verify env sig pubkey hash
  unfolding eval_check_sig_hybrid execute_post_quantum_verify verify_hybrid split_signature
  eval_check_sig_hybrid-post_quantum sig pubkey hash version h =
      elim (Bool-cases (ltb 3000 (length sig))) [
        | inl e ↦ rw (h, e)
        | inr e ↦
            let (no_pq, no_split) = short-not_pq (length sig) e in
            elim (Bool-cases (leb (length sig) 72)) [
              | inl small ↦ rw (h, e, no_pq, small, h) (and_false _)
              | inr big ↦ rw (h, e, no_pq, big, no_split, h)
            ]
      ]

  -- With any other version, a signature of 72 bytes or less is checked as ECDSA under the given
  -- key; a longer one is accepted only if its first 71 bytes verify under the 33 bytes after
  -- them, and it has 3397 bytes or more.
  pub eval_check_sig_hybrid-legacy :
      (sig pubkey hash : List ℕ) (version : SigVersion)
      → is_post_quantum_witness version ≡ false
      → eval_check_sig_hybrid env sig pubkey hash version ≡ (
          if leb (length sig) 72
          then verify_ecdsa env sig pubkey hash
          else if leb 3397 (length sig)
          then verify_ecdsa env (take 71 sig) (take 33 (drop 71 sig)) hash
          else false)
  unfolding eval_check_sig_hybrid verify_hybrid split_signature
  eval_check_sig_hybrid-legacy sig pubkey hash version h = elim (Bool-cases (leb (length sig) 72)) [
    | inl small ↦ rw (h, small, h) (given-verify_ecdsa sig pubkey hash)
    | inr big ↦ elim (Bool-cases (leb 3397 (length sig))) [
      | inl long ↦
          rw (h, big, long, h) (given-verify_ecdsa (take 71 sig) (take 33 (drop 71 sig)) hash)
      | inr short ↦ rw (h, big, short, h)
    ]
  ]
