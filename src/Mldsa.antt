-- ===== src/Mldsa.antt =====
-- BHC/src/crypto/mldsa.cpp and mldsa.h: the class CMLDSA, over liboqs (Mldsa/Oqs.antt) and without
-- it (Mldsa/Fallback.antt). A key and a signature are their bytes with a level.
pub mod Oqs
pub mod Fallback
mod Examples
use bht_bhte.Prelude.{ℕ, List, replicate}
use bht_bhte.HybridSig.{Level, level2, level3, level5, signature_size, public_key_size}

pub record PublicKey : Type 0 where
  pub bytes : List ℕ
  pub level : Level

pub record SecretKey : Type 0 where
  pub bytes : List ℕ
  pub level : Level

pub record Signature : Type 0 where
  pub bytes : List ℕ
  pub level : Level

abbrev pub secret_key_size : Level → ℕ
secret_key_size level2 = 2560
secret_key_size level3 = 4032
secret_key_size level5 = 4896

-- The constructors, which fill the bytes with zeros.
abbrev pub new_public_key : Level → PublicKey
new_public_key level = record { bytes = replicate (public_key_size level) 0; level = level }

abbrev pub new_secret_key : Level → SecretKey
new_secret_key level = record { bytes = replicate (secret_key_size level) 0; level = level }

abbrev pub new_signature : Level → Signature
new_signature level = record { bytes = replicate (signature_size level) 0; level = level }
