-- ===== src/Signer.antt =====
-- BHTWalletPro/src/crypto/mldsa_signer.cpp: CMLDSASigner, over liboqs or without it, and
-- CMLDSAHybridSigner, which adds an ECDSA key. OpenSSL and a scheme of liboqs are records of
-- functions; the randomness that a call draws on is an argument.
pub mod Hybrid
pub mod Accepts
mod Examples
use bht_bhte.Prelude.{
  ℕ, ◌+◌, Bool, true, false, not, ◌||◌, Option, none, some, List, [], ◌∷◌, ◌++◌, ltb, ◌==◌,
  if◌then◌else◌, length, take, drop, replicate, resize, write_over, bytes_eq,
}
use bht_bhte.HybridSig.{Level, signature_size, public_key_size}
use bht_bhte.Mldsa.{secret_key_size}

-- An object OQS_SIG; a call that does not succeed is `none`.
pub record Scheme : Type 0 where
  pub length_public_key : ℕ
  pub length_secret_key : ℕ
  pub sig_keypair : ℕ → Option (List ℕ × List ℕ)
  pub sig_sign : List ℕ → List ℕ → Option (List ℕ)
  pub sig_verify : List ℕ → List ℕ → List ℕ → Bool

-- The curve's functions: the point of a private key, `none` without the group; a signature's r and
-- s, made under the key that ECDSA_do_sign is given, a null pointer in this file; and the check of
-- a hash, r and s under a point.
pub record Openssl : Type 0 where
  pub sha256 : List ℕ → List ℕ
  pub rand_bytes : ℕ → ℕ → Option (List ℕ)
  pub ec_public : List ℕ → Option (List ℕ)
  pub ecdsa_do_sign : List ℕ → Option (List ℕ) → Option (List ℕ × List ℕ)
  pub ecdsa_do_verify : List ℕ → List ℕ → List ℕ → List ℕ → Bool

pub record Signer : Type 0 where
  pub level : Level
  pub sig : Option Scheme
  pub public_key : List ℕ
  pub private_key : List ℕ
  pub has_key : Bool

-- The constructor, given what OQS_SIG_new answers.
unfoldable pub new_signer : Level → Option Scheme → Signer
new_signer level none = record {
  level = level;
  sig = none;
  public_key = [];
  private_key = [];
  has_key = false;
}
new_signer level (some scheme) = record {
  level = level;
  sig = some scheme;
  public_key = replicate scheme.length_public_key 0;
  private_key = replicate scheme.length_secret_key 0;
  has_key = false;
}

abbrev is_empty : List ℕ → Bool
is_empty [] = true
is_empty (b ∷ bs) = false

-- The keys that liboqs writes into the two buffers.
abbrev pub take_keys : Option (List ℕ × List ℕ) → Signer → Bool × Signer
take_keys none s = (false, s)
take_keys (some (pk, sk)) s = (
  true,
  record s {
    public_key = write_over pk s.public_key;
    private_key = write_over sk s.private_key;
    has_key = true;
  },
)

module _ (env : Openssl) where
  abbrev pub hash_private : Option (List ℕ) → Signer → Bool × Signer
  hash_private none s = (false, s)
  hash_private (some drawn) s = (
    true,
    record s {
      private_key = drawn;
      public_key = write_over (env.sha256 drawn) s.public_key;
      has_key = true;
    },
  )

  unfoldable pub generate_key_pair : ℕ → Signer → Bool × Signer
  generate_key_pair entropy s = elim s.sig [
    | some scheme ↦ take_keys (scheme.sig_keypair entropy) s
    | none ↦ hash_private (env.rand_bytes entropy (secret_key_size s.level)) (record s {
      public_key = resize 0 (public_key_size s.level) s.public_key;
      private_key = resize 0 (secret_key_size s.level) s.private_key;
    })
  ]

  unfoldable pub set_key_pair : List ℕ → List ℕ → Signer → Bool × Signer
  set_key_pair private_key public_key s =
      if not (length private_key == secret_key_size s.level)
        || not (length public_key == public_key_size s.level)
      then (false, s)
      else (true, record s { private_key = private_key; public_key = public_key; has_key = true })

  abbrev pub or_empty : Option (List ℕ) → List ℕ
  or_empty none = []
  or_empty (some signature) = signature

  -- Without liboqs, a hash over the message's hash and the private key, then the public key.
  unfoldable pub sign : List ℕ → Signer → List ℕ
  sign message s = if not s.has_key then [] else elim s.sig [
    | some scheme ↦ or_empty (scheme.sig_sign message s.private_key)
    | none ↦ env.sha256 (env.sha256 message ++ s.private_key) ++ s.public_key
  ]

  unfoldable pub sign_in_place : List ℕ → Signer → Bool × List ℕ
  unfolding sign
  sign_in_place bytes s =
      let signature = sign bytes s in
      if is_empty signature then (false, bytes) else (true, bytes ++ signature)

  -- Without liboqs the message is hashed, and the hash is not used.
  unfoldable pub verify : List ℕ → List ℕ → Signer → Bool
  verify message signature s =
      if is_empty signature || is_empty s.public_key then false else elim s.sig [
        | some scheme ↦ scheme.sig_verify message signature s.public_key
        | none ↦
            if ltb (length signature) 32 then false else bytes_eq (drop 32 signature) s.public_key
      ]

unfoldable pub clear_keys : Signer → Signer
clear_keys s = record s { private_key = []; public_key = []; has_key = false }
