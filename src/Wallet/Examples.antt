-- ===== src/Wallet/Examples.antt =====
-- A wallet over functions that are easy to compute, and the theorems at it.
use bht_bhte.Prelude.{
  ℕ, ◌≡◌, refl, true, false, Option, none, some, List, [], ◌∷◌, ◌++◌, get_elem?, replicate, arith,
}
use bht_bhte.Prelude.Int.{pos}
use bht_bhte.Wallet.{Openssl}
use bht_bhte.Wallet.Tx.{TxIn, Transaction, Coin, OutPoint, script_id}
use bht_bhte.Wallet.Crypter.{encrypt, decrypt}
use bht_bhte.Wallet.Core.{Wallet, wallet, unlock, lock, encrypt_wallet, add_key, lookup_key}
use bht_bhte.Wallet.Core.Phrase.{create_wallet}
use bht_bhte.Wallet.Core.Consistent.{IsConsistent}
use bht_bhte.Wallet.Signing.{sign_transaction}
use bht_bhte.Wallet.Signing.Published.{sign_transaction_publishes}
use bht_bhte.Wallet.Backup.{backup_wallet, import_wallet}
use bht_bhte.Wallet.Backup.Restores.{IsStorable, import_wallet-backup_wallet}
use bht_bhte.Wallet.History.{Op, op_create, op_add_key, op_lock, step, run}
use bht_bhte.Wallet.History.Reached.{run-IsConsistent}
use bht_bhte.Wallet.History.Locked.{run-unlock}

abbrev env : Openssl
env = record {
  sha256 = λ bytes. bytes;
  ripemd160 = λ bytes. bytes;
  hmac_sha512 = λ key message. replicate 64 7;
  ecdsa_sign = λ key hash. some (9 ∷ 9 ∷ []);
}

abbrev or_new : Option Wallet → Wallet
or_new none = wallet
or_new (some w) = w

abbrev key : List ℕ
key = replicate 32 6

-- A wallet with a passphrase of one byte and a key, locked.
abbrev calls : List Op
calls = op_create [] (5 ∷ []) ∷ op_add_key key ∷ op_lock ∷ []

abbrev w : Wallet
w = or_new (run env calls wallet)

w-reached : run env calls wallet ≡ some w
unfolding run step create_wallet add_key lock
w-reached = refl

w-encrypted : w.encrypted ≡ true
unfolding run step create_wallet add_key lock encrypt_wallet encrypt
w-encrypted = refl

run-IsConsistent_example : IsConsistent env w
run-IsConsistent_example = run-IsConsistent env calls w w-reached

run-unlock_example : unlock (5 ∷ []) w ≡ (false, w)
run-unlock_example = run-unlock env calls w w-reached w-encrypted (5 ∷ [])

-- The cipher itself gives the key back.
test_cipher :
    (crypted : List ℕ) × (encrypt key (1 ∷ 2 ∷ []) ≡ some crypted)
    × (decrypt crypted (1 ∷ 2 ∷ []) ≡ some key)
unfolding encrypt decrypt
test_cipher = (_, refl, refl)

abbrev coin : Coin
coin = record {
  out = record { value = pos 100; script_pub_key = replicate 20 6 };
  height = 1;
  coin_base = false;
}

abbrev outpoint : OutPoint
outpoint = record { hash = replicate 32 1; n = 0 }

abbrev txin : TxIn
txin = record { prevout = outpoint; script_sig = []; sequence = 0 }

abbrev tx : Transaction
tx = record { version = 2; vin = txin ∷ []; vout = []; locktime = 0 }

w-holds : lookup_key (script_id coin.out.script_pub_key) w ≡ some key
unfolding lookup_key script_id run step create_wallet add_key lock encrypt_wallet encrypt
w-holds = refl

sign_transaction_publishes_example :
    (signed : TxIn) × (get_elem? (sign_transaction env w ((outpoint, coin) ∷ []) tx).vin 0
      ≡ some signed)
    × ((parity : ℕ) × (signed.script_sig
          ≡ ([] ++ ((9 ∷ 9 ∷ []) ++ (1 ∷ []))) ++ (key ++ (parity ∷ []))))
sign_transaction_publishes_example =
    sign_transaction_publishes env w run-IsConsistent_example ((outpoint, coin) ∷ []) tx 0 txin coin
      key (9 ∷ 9 ∷ []) refl refl w-holds refl

w-IsStorable : IsStorable w
unfolding run step create_wallet add_key lock encrypt_wallet encrypt
w-IsStorable = record {
  key_sizes = ((refl, refl), tt);
  tx_sizes = tt;
  key_count = omega arith;
  tx_count = omega arith;
}

import_wallet-backup_wallet_example :
    import_wallet env (some (backup_wallet 1700000000 w)) wallet
    ≡ some (true, record wallet { encrypted = w.encrypted; dirty = true })
import_wallet-backup_wallet_example =
    import_wallet-backup_wallet env 1700000000 w wallet w-IsStorable
