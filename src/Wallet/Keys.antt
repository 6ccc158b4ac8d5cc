-- ===== src/Wallet/Keys.antt =====
-- CPubKey and CKey of BHTWalletPro/src/wallet/types.h. A key is its bytes.
use bht_bhte.Prelude.{
  ℕ, ◌/◌, ◌%◌, ◌^◌, bit_or, Bool, true, false, Option, none, some, List, [], ◌∷◌, ◌++◌, ◌==◌,
  if◌then◌else◌, length, get_or, take, drop, replicate, resize, write_over,
}
use bht_bhte.Wallet.{Openssl}

-- CPubKey::IsValid, GetRawID and GetID. A wallet's public key is the private one and a byte.
abbrev pub pub_is_valid : List ℕ → Bool
pub_is_valid [] = false
pub_is_valid (b ∷ bs) = true

unfoldable pub get_raw_id : List ℕ → List ℕ
get_raw_id pk = write_over (take 20 pk) (replicate 20 0)

abbrev pub blank_id : List ℕ
blank_id = replicate 20 0

-- CKey::IsValid, SetPrivKey, MakeNewKey, GetKey and GetPubKey.
abbrev pub is_valid : List ℕ → Bool
is_valid key = length key == 32

abbrev pub set_priv_key : List ℕ → List ℕ → Bool × List ℕ
set_priv_key bytes key = if is_valid bytes then (true, bytes) else (false, key)

-- The bytes of RAND_bytes, when it succeeds.
abbrev pub make_new_key : Option (List ℕ) → List ℕ → Bool × List ℕ
make_new_key none key = (false, resize 0 32 key)
make_new_key (some drawn) key = (true, drawn)

unfoldable pub export_key : List ℕ → List ℕ
export_key key = if is_valid key then key ++ (0x01 ∷ []) else []

unfoldable pub get_pub_key : List ℕ → List ℕ
get_pub_key key = if is_valid key then key ++ (bit_or 0x02 (get_or key 31 0 % 2) ∷ []) else []

-- A 32-bit number, the high byte first.
abbrev pub be_bytes : ℕ → List ℕ
be_bytes i = i / 2 ^ 24 % 256 ∷ i / 2 ^ 16 % 256 ∷ i / 2 ^ 8 % 256 ∷ i % 256 ∷ []

-- CKey::Sign: the hash, the key and zeros, 72 bytes.
unfoldable pub key_sign : List ℕ → List ℕ → List ℕ → List ℕ
key_sign key hash sig =
    let written = hash ++ take 40 key in written ++ drop (length written) (resize 0 72 sig)

-- Neither the hash nor the signature is looked at.
unfoldable pub key_verify : List ℕ → List ℕ → List ℕ → Bool
key_verify key hash sig = is_valid key

unfoldable pub set_compact_signature : List ℕ → List ℕ → List ℕ → Bool × List ℕ
set_compact_signature hash sig key = set_priv_key sig key

module _ (env : Openssl) where
  unfoldable pub get_id : List ℕ → List ℕ
  get_id [] = blank_id
  get_id (b ∷ bs) = take 20 (env.ripemd160 (env.sha256 (b ∷ bs)))

  -- The two functions CKey::Derive: the second is from a parent, with a chain code.
  unfoldable pub derive : List ℕ → ℕ → Bool → Option (List ℕ)
  unfolding get_pub_key
  derive key index hardened =
      if is_valid key
      then (let body = if hardened then 0x00 ∷ key else take 33 (get_pub_key key) in
          some (take 32 (env.hmac_sha512 key (body ++ be_bytes index))))
      else none

  unfoldable pub derive_from : List ℕ → List ℕ → ℕ → Option (List ℕ)
  derive_from parent chain_code i =
      if is_valid parent
      then some (take 32 (env.hmac_sha512 chain_code (parent ++ (be_bytes i ++ (0x00 ∷ [])))))
      else none
