-- ===== src/ProgPow.antt =====
-- BHC/src/crypto/progpow.cpp and progpow.h: the hash of a block header and its comparison with a
-- target. The generators of the standard library, mt19937 and mt19937_64, are functions from a
-- seed and an index to what the call with that index draws.
pub mod Sha256
pub mod Loop
pub mod Target
mod Examples
use bht_bhte.Prelude.{ℕ, ◌+◌, ◌-◌, ◌*◌, ◌/◌, ◌%◌, ◌^◌, bit_or, bit_xor, List, [], ◌∷◌, foldl}

abbrev pub progpow_period : ℕ
progpow_period = 12500

-- A shift by 0 also shifts by the whole width, which the language does not define; it gives 0 here.
unfoldable pub rotl32 : ℕ → ℕ → ℕ
rotl32 v c = bit_or (v * 2 ^ c % 2 ^ 32) (v / 2 ^ (32 - c))

unfoldable pub rotr32 : ℕ → ℕ → ℕ
rotr32 v c = bit_or (v / 2 ^ c) (v * 2 ^ (32 - c) % 2 ^ 32)

unfoldable pub fnv1a : ℕ → ℕ → ℕ
fnv1a h d = bit_xor h d * 0x01000193 % 2 ^ 32

unfoldable pub fnv1a_all : List ℕ → ℕ → ℕ
unfolding fnv1a
fnv1a_all v d = foldl fnv1a d v

unfoldable pub get_epoch : ℕ → ℕ
get_epoch block_number = block_number / progpow_period
