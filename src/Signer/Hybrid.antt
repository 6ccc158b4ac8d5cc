-- ===== src/Signer/Hybrid.antt =====
-- CMLDSAHybridSigner of BHTWalletPro/src/crypto/mldsa_signer.cpp.
use bht_bhte.Prelude.{
  ℕ, ◌+◌, Bool, true, false, not, ◌&&◌, Option, none, some, List, [], ◌++◌, leb, if◌then◌else◌,
  length, take, drop, resize,
}
use bht_bhte.HybridSig.{signature_size}
use bht_bhte.Signer.{Openssl, Signer, generate_key_pair, set_key_pair, sign, verify, is_empty}

pub record HybridSigner : Type 0 where
  pub signer : Signer
  pub has_ecdsa_key : Bool
  pub has_mldsa_key : Bool
  pub ecdsa_private : List ℕ
  pub ecdsa_public : List ℕ
  pub mldsa_private : List ℕ
  pub mldsa_public : List ℕ

abbrev pub hybrid_signer : Signer → HybridSigner
hybrid_signer signer = record {
  signer = signer;
  has_ecdsa_key = false;
  has_mldsa_key = false;
  ecdsa_private = [];
  ecdsa_public = [];
  mldsa_private = [];
  mldsa_public = [];
}

-- What a call of RAND_bytes leaves in the buffer, its answer unread.
abbrev drawn_or : List ℕ → Option (List ℕ) → List ℕ
drawn_or buffer none = buffer
drawn_or buffer (some drawn) = drawn

module _ (env : Openssl) where
  abbrev set_point : Option (List ℕ) → HybridSigner → Bool × HybridSigner
  set_point none s = (false, s)
  set_point (some point) s = (s.has_mldsa_key, record s { ecdsa_public = point })

  unfoldable pub generate_hybrid : ℕ → ℕ → HybridSigner → Bool × HybridSigner
  unfolding generate_key_pair
  generate_hybrid entropy ecdsa_entropy s =
      let (made, signer) = generate_key_pair env entropy s.signer in
      let private_key = drawn_or (resize 0 32 s.ecdsa_private) (env.rand_bytes ecdsa_entropy 32) in
      set_point (env.ec_public private_key) (record s {
        signer = signer;
        has_ecdsa_key = true;
        has_mldsa_key = made;
        ecdsa_private = private_key;
        ecdsa_public = resize 0 33 s.ecdsa_public;
      })

  unfoldable pub set_hybrid : List ℕ → List ℕ → List ℕ → List ℕ → HybridSigner → Bool × HybridSigner
  unfolding set_key_pair
  set_hybrid ecdsa_private ecdsa_public mldsa_private mldsa_public s =
      let (ok, signer) = set_key_pair env mldsa_private mldsa_public s.signer in
      let has_ecdsa_key = not (is_empty ecdsa_private) && not (is_empty ecdsa_public) in
      (
        has_ecdsa_key && ok,
        record {
          signer = signer;
          has_ecdsa_key = has_ecdsa_key;
          has_mldsa_key = ok;
          ecdsa_private = ecdsa_private;
          ecdsa_public = ecdsa_public;
          mldsa_private = mldsa_private;
          mldsa_public = mldsa_public;
        },
      )

  abbrev join_parts : Option (List ℕ × List ℕ) → List ℕ
  join_parts none = []
  join_parts (some (r, s)) = r ++ s

  -- ECDSA_do_sign gets a null pointer for the key.
  unfoldable pub sign_hybrid : List ℕ → Bool → HybridSigner → List ℕ
  unfolding sign
  sign_hybrid message hybrid s =
      let mldsa_sig = if hybrid && s.has_mldsa_key then sign env message s.signer else [] in
      let ecdsa_sig =
        if s.has_ecdsa_key then join_parts (env.ecdsa_do_sign (env.sha256 message) none) else [] in
      mldsa_sig ++ ecdsa_sig

  -- The check of the first part and of the second; a signature too short for one passes it.
  unfoldable pub mldsa_part : List ℕ → List ℕ → Bool → HybridSigner → Bool
  unfolding verify
  mldsa_part message signature hybrid s =
      let size = signature_size s.signer.level in
      if hybrid && s.has_mldsa_key && leb size (length signature)
      then verify env message (take size signature) s.signer
      else true

  unfoldable pub ecdsa_part : List ℕ → List ℕ → Bool → HybridSigner → Bool
  ecdsa_part message signature hybrid s =
      let offset = if hybrid && s.has_mldsa_key then signature_size s.signer.level else 0 in
      if s.has_ecdsa_key && leb (offset + 64) (length signature)
      then env.ecdsa_do_verify s.ecdsa_public (env.sha256 message) (take 32 (drop offset signature))
          (take 32 (drop (offset + 32) signature))
      else true

  unfoldable pub verify_hybrid : List ℕ → List ℕ → Bool → HybridSigner → Bool
  unfolding mldsa_part ecdsa_part
  verify_hybrid message signature hybrid s =
      if not (mldsa_part message signature hybrid s)
      then false
      else ecdsa_part message signature hybrid s
