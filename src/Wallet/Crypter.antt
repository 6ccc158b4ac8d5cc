-- ===== src/Wallet/Crypter.antt =====
-- BHTWalletPro/src/wallet/crypter.h: CCrypter and CCrypterMasterKey. The salt, the rounds and the
-- key that some methods also take are not used by them.
use bht_bhte.Prelude.{
  ℕ, ◌+◌, ◌%◌, bit_xor, Bool, true, Option, none, some, List, [], ◌∷◌, ◌==◌, if◌then◌else◌, length,
  get_or,
}
use bht_bhte.Wallet.Keys.{set_priv_key, get_pub_key}

-- The loop over the 32 bytes, from the index i.
abbrev pub xor_from : ℕ → List ℕ → List ℕ → List ℕ
xor_from i [] passphrase = []
xor_from i (b ∷ bs) passphrase =
    bit_xor b (get_or passphrase (i % length passphrase) 0) ∷ xor_from (i + 1) bs passphrase

unfoldable pub encrypt : List ℕ → List ℕ → Option (List ℕ)
encrypt key [] = none
encrypt key (p ∷ ps) = if length key == 32 then some (xor_from 0 key (p ∷ ps)) else none

unfoldable pub decrypt : List ℕ → List ℕ → Option (List ℕ)
unfolding encrypt
decrypt crypted_key passphrase = encrypt crypted_key passphrase

-- SetKey and SetKeyFromPassphrase.
unfoldable pub set_key : List ℕ → List ℕ → Option (List ℕ)
unfolding encrypt
set_key passphrase key_encrypted = encrypt key_encrypted passphrase

pub record MasterKey : Type 0 where
  pub key : List ℕ
  pub crypted_key : List ℕ

abbrev pub master_key : MasterKey
master_key = record { key = []; crypted_key = [] }

-- GetCKey: bytes of another length leave the key empty.
abbrev pub get_ckey : MasterKey → List ℕ
get_ckey m = (set_priv_key m.key []).1

unfoldable pub master_pub_key : MasterKey → List ℕ
unfolding get_pub_key
master_pub_key m = get_pub_key (get_ckey m)

unfoldable pub set_master_key : List ℕ → MasterKey → Bool × MasterKey
set_master_key key m = (true, record m { key = key })

unfoldable pub decrypt_master : List ℕ → MasterKey → Option (List ℕ)
unfolding decrypt
decrypt_master passphrase m = decrypt m.crypted_key passphrase

-- The answer is handed out, not kept.
unfoldable pub encrypt_master : List ℕ → MasterKey → Option (List ℕ)
unfolding encrypt
encrypt_master passphrase m = encrypt m.key passphrase
