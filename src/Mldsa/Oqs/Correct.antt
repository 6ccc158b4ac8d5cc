-- ===== src/Mldsa/Oqs/Correct.antt =====
-- MLDSA_Sign and MLDSA_Verify of BHC/src/crypto/mldsa.cpp, one after the other.
use bht_bhte.Prelude.{
  write_over, write_over-same, ℕ, ◌≡◌, refl, sym, take-length, ap, ◌∙◌, true, some, List, length,
  replicate, length-replicate,
}
use bht_bhte.HybridSig.{Level, signature_size}
use bht_bhte.Mldsa.{Signature}
use bht_bhte.Mldsa.Oqs.{
  Liboqs, mldsa, mldsa_sign_with, mldsa_verify_with, mldsa_verify_static, oqs_sign,
  oqs_sign_internal, oqs_verify, oqs_verify_internal, set_public_key, set_secret_key,
}

-- What liboqs documents of a scheme: signing under a key that it has made succeeds with a
-- signature of the scheme's length, which its check accepts.
unfoldable pub IsCorrect : Liboqs → Type 0
IsCorrect oqs =
    (level : Level) (entropy : ℕ) (pk sk message : List ℕ)
    → oqs.sig_keypair level entropy ≡ some (pk, sk)
    → (sig : List ℕ) × (oqs.sig_sign level message sk ≡ some sig)
      × (length sig ≡ signature_size level)
      × (oqs.sig_verify level message sig pk ≡ true)

pub mldsa_verify_with-mldsa_sign_with :
    (oqs : Liboqs)
    → IsCorrect oqs
    → (level : Level) → oqs.sig_new level ≡ true
    → (drawn entropy : ℕ) (pk sk message context other_context : List ℕ)
    → oqs.sig_keypair level drawn ≡ some (pk, sk)
    → (signature : Signature) × (mldsa_sign_with oqs entropy message
          (record { bytes = sk; level = level })
          context
        ≡ some signature)
      × (mldsa_verify_with oqs message signature
            (record { bytes = pk; level = level })
            other_context
          ≡ some true)
unfolding mldsa_sign_with mldsa_verify_with mldsa_verify_static mldsa oqs_sign oqs_sign_internal
    oqs_verify oqs_verify_internal set_public_key set_secret_key IsCorrect
mldsa_verify_with-mldsa_sign_with oqs ok level made drawn entropy pk sk message context other h =
    let (sig, signs, len, accepts) = ok level drawn pk sk message h in
    let whole : write_over sig (replicate (signature_size level) 0) ≡ sig =
      write_over-same sig (replicate (signature_size level) 0)
        (len ∙ sym (length-replicate (signature_size level) 0)) in
    (
      record { bytes = sig; level = level },
      rw (made, signs, whole) refl,
      rw (made, sym len, take-length sig) (ap some accepts),
    )
