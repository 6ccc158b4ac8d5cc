-- ===== src/Mldsa/Oqs.antt =====
-- The half of BHC/src/crypto/mldsa.cpp that is built over liboqs. The functions OQS_SIG_* are a
-- record of functions, and the randomness that a key is drawn from is their argument. The message
-- and the context are lists of bytes.
pub mod Correct
use bht_bhte.Prelude.{
  ℕ, Bool, true, false, not, ◌||◌, Option, none, some, List, ◌++◌, if◌then◌else◌, length, take,
  write_over,
}
use bht_bhte.HybridSig.{Level, signature_size}
use bht_bhte.Fips204.Sampling.{◌>>=◌}
use bht_bhte.Mldsa.{PublicKey, SecretKey, Signature, new_public_key, new_secret_key, new_signature}

-- A call that does not succeed is `none`; `sig_new` tells whether OQS_SIG_new gives an object.
pub record Liboqs : Type 0 where
  pub sig_new : Level → Bool
  pub sig_keypair : Level → ℕ → Option (List ℕ × List ℕ)
  pub sig_sign : Level → List ℕ → List ℕ → Option (List ℕ)
  pub sig_verify : Level → List ℕ → List ℕ → List ℕ → Bool

-- CMLDSA; `sig` is the level that m_sig was made for, `none` for a null pointer.
pub record Mldsa : Type 0 where
  pub level : Level
  pub public_key : PublicKey
  pub secret_key : SecretKey
  pub has_key : Bool
  pub sig : Option Level

-- SetPublicKey and SetSecretKey take the level of the key over and leave m_sig as it is.
unfoldable pub set_public_key : PublicKey → Mldsa → Mldsa
set_public_key pk s = record s { public_key = pk; level = pk.level }

unfoldable pub set_secret_key : SecretKey → Mldsa → Mldsa
set_secret_key sk s = record s { secret_key = sk; level = sk.level; has_key = true }

-- The output of a failed call is not looked at.
abbrev pub write_result : Option (List ℕ) → List ℕ → List ℕ
write_result none buffer = buffer
write_result (some out) buffer = write_over out buffer

abbrev pub write_keys : Option (List ℕ × List ℕ) → Mldsa → Mldsa
write_keys none s = s
write_keys (some (pk, sk)) s = record s {
  public_key = record s.public_key { bytes = write_over pk s.public_key.bytes };
  secret_key = record s.secret_key { bytes = write_over sk s.secret_key.bytes };
}

module _ (oqs : Liboqs) where
  -- The constructor, which throws when there is no object.
  unfoldable pub mldsa : Level → Option Mldsa
  mldsa level =
      if oqs.sig_new level
      then some (record {
        level = level;
        public_key = new_public_key level;
        secret_key = new_secret_key level;
        has_key = false;
        sig = some level;
      })
      else none

  unfoldable pub oqs_generate_key_pair : ℕ → Mldsa → Mldsa
  oqs_generate_key_pair entropy s = elim s.sig [
    | none ↦ s
    | some algorithm ↦ record (write_keys (oqs.sig_keypair algorithm entropy) s) { has_key = true }
  ]

  -- The context is not used. The answer is the buffer of the signature.
  unfoldable pub oqs_sign_internal : List ℕ → List ℕ → List ℕ → Mldsa → List ℕ
  oqs_sign_internal message context signature s = elim s.sig [
    | none ↦ signature
    | some algorithm ↦
        if not s.has_key
        then signature
        else write_result (oqs.sig_sign algorithm message s.secret_key.bytes) signature
  ]

  unfoldable pub oqs_verify_internal : List ℕ → List ℕ → List ℕ → List ℕ → Mldsa → Bool
  oqs_verify_internal message context signature public_key s = elim s.sig [
    | none ↦ false
    | some algorithm ↦
        oqs.sig_verify algorithm message (take (signature_size s.level) signature) public_key
  ]

  unfoldable pub oqs_sign : ℕ → List ℕ → List ℕ → Mldsa → Signature × Mldsa
  unfolding oqs_generate_key_pair oqs_sign_internal
  oqs_sign entropy message context s =
      let s' = if not s.has_key then oqs_generate_key_pair entropy s else s in
      let blank = new_signature s'.level in
      (record blank { bytes = oqs_sign_internal message context blank.bytes s' }, s')

  unfoldable pub oqs_verify : List ℕ → Signature → List ℕ → Mldsa → Bool
  unfolding oqs_verify_internal
  oqs_verify message signature context s =
      oqs_verify_internal message context signature.bytes s.public_key.bytes s

  unfoldable pub mldsa_verify_static : List ℕ → Signature → PublicKey → List ℕ → Option Bool
  unfolding mldsa set_public_key oqs_verify
  mldsa_verify_static message signature public_key context = mldsa public_key.level >>= λ verifier.
      some (oqs_verify message signature context (set_public_key public_key verifier))

  -- MLDSA_Sign and MLDSA_Verify; `none` is the exception of the constructor.
  unfoldable pub mldsa_sign_with : ℕ → List ℕ → SecretKey → List ℕ → Option Signature
  unfolding mldsa set_secret_key oqs_sign
  mldsa_sign_with entropy message secret_key context = mldsa secret_key.level >>= λ signer.
      some (oqs_sign entropy message context (set_secret_key secret_key signer)).0

  unfoldable pub mldsa_verify_with : List ℕ → Signature → PublicKey → List ℕ → Option Bool
  unfolding mldsa_verify_static
  mldsa_verify_with message signature public_key context =
      mldsa_verify_static message signature public_key context
