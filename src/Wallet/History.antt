-- ===== src/Wallet/History.antt =====
-- Histories of calls of BHTWalletPro/src/wallet/wallet.cpp on one wallet.
pub mod Kept
pub mod Reached
pub mod Locked
use bht_bhte.Prelude.{ℕ, Option, none, some, List, [], ◌∷◌}
use bht_bhte.Fips204.Sampling.{◌>>=◌}
use bht_bhte.Wallet.{Openssl}
use bht_bhte.Wallet.Tx.{Transaction}
use bht_bhte.Wallet.Core.{
  Wallet, OutputType, encrypt_wallet, unlock, lock, load_wallet, add_key, add_key_pub_key,
  generate_new_key,
}
use bht_bhte.Wallet.Core.Phrase.{create_wallet, restore_from_mnemonic}
use bht_bhte.Wallet.Signing.{commit_transaction}
use bht_bhte.Wallet.Backup.{import_wallet}

pub data Op : Type 0 where
  op_create : List (List ℕ) → List ℕ → Op
  op_load op_encrypt op_unlock : List ℕ → Op
  op_lock : Op
  op_add_key : List ℕ → Op
  op_add_key_pub_key : List ℕ → List ℕ → Op
  op_generate : Option (List ℕ) → ℕ → OutputType → Op
  op_commit : Transaction → ℕ → Op
  op_restore : List (List ℕ) → List (List ℕ) → Op
  op_import : Option (List ℕ) → Op

module _ (env : Openssl) where
  -- The wallet that a call leaves; `none` where the import reads a variable without a value.
  unfoldable pub step : Op → Wallet → Option Wallet
  step (op_create drawn passphrase) w = some (create_wallet env drawn passphrase w).1
  step (op_load passphrase) w = some (load_wallet passphrase w).1
  step (op_encrypt passphrase) w = some (encrypt_wallet passphrase w).1
  step (op_unlock passphrase) w = some (unlock passphrase w).1
  step op_lock w = some (lock w)
  step (op_add_key key) w = some (add_key env key w).1
  step (op_add_key_pub_key key pubkey) w = some (add_key_pub_key env key pubkey w).1
  step (op_generate drawn time type) w = some (generate_new_key env drawn time type w).1
  step (op_commit tx time) w = some (commit_transaction tx time w)
  step (op_restore table words) w = some (restore_from_mnemonic env table words w).1
  step (op_import file) w = import_wallet env file w >>= λ r. some r.1

  unfoldable pub run : List Op → Wallet → Option Wallet
  unfolding step
  run [] w = some w
  run (op ∷ ops) w = step op w >>= run ops
