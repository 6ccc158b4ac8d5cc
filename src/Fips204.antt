-- ===== src/Fips204.antt =====
-- BHC/src/crypto/mldsa_fips204.h: ML-DSA (FIPS 204).
pub mod BitIo
pub mod Field
pub mod Pack
pub mod Rounding
pub mod Keccak
pub mod Shake
pub mod Param
pub mod Ntt
pub mod Sampling
pub mod Hints
pub mod Keys
pub mod Sign
pub mod Verify
pub mod Api
mod Examples
