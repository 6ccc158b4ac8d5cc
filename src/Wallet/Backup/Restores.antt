-- ===== src/Wallet/Backup/Restores.antt =====
-- A backup of BHTWalletPro/src/wallet/wallet.cpp, read back.
use bht_bhte.Prelude.{
  ℕ, suc, ◌+◌, ◌*◌, ◌^◌, ◌<◌, ◌≡◌, refl, ap, ◌∙◌, Bool, true, false, some, List, [], ◌∷◌, ◌++◌,
  length, All, arith, length-append, append_assoc, if◌then◌else◌, ◌==◌,
}
use bht_bhte.Prelude.Radix.{digits, length-digits, value-digits}
use bht_bhte.Fips204.Sampling.{◌>>=◌}
use bht_bhte.Withdrawal.Parse.Wire.{take_bytes-append}
use bht_bhte.Wallet.{Openssl, ByteMap}
use bht_bhte.Wallet.Keys.{set_priv_key, export_key}
use bht_bhte.Wallet.Tx.{WalletTx}
use bht_bhte.Wallet.Core.{Wallet, add_key}
use bht_bhte.Wallet.Backup.{
  key_entries, tx_entries, backup_wallet, read_uint, skip_txs, import_keys, import_body,
  import_version, import_wallet,
}

-- Identifiers, keys and hashes of the lengths that the file gives them, and counts that fit.
pub record IsStorable (w : Wallet) : Type 0 where
  pub key_sizes : All (λ e. (length e.0 ≡ 20) × (length e.1 ≡ 32)) w.keys
  pub tx_sizes : All (λ e. length e.0 ≡ 32) w.wallet_txs
  pub key_count : length w.keys < 2 ^ 32
  pub tx_count : length w.wallet_txs < 2 ^ 64

read_uint-digits :
    (n v : ℕ) (rest : List ℕ) → v < 256 ^ n → read_uint n (digits 256 n v ++ rest) ≡ some (v, rest)
unfolding read_uint
read_uint-digits n v rest h =
    rw
      (
        take_bytes-append n (digits 256 n v) rest (length-digits 256 n v),
        value-digits 256 n v (omega arith) h,
      )
      refl

exported_size : (key : List ℕ) → length key ≡ 32 → length (export_key key) ≡ 33
unfolding export_key
exported_size key h = rw h (omega (arith, h, length-append key (0x01 ∷ [])))

refused : (bytes : List ℕ) → length bytes ≡ 33 → set_priv_key bytes [] ≡ (false, [])
refused bytes h = rw h refl

-- An exported key has 33 bytes, which SetPrivKey refuses, and an empty key is not added.
add_nothing :
    (env : Openssl) (key : List ℕ) (w : Wallet)
    → length key ≡ 32
    → (add_key env (set_priv_key (export_key key) []).1 w).1 ≡ w
unfolding add_key
add_nothing env key w h =
    ap (λ r. (add_key env r.1 w).1) (refused (export_key key) (exported_size key h))

append_parts : (a b c d e : List ℕ) → (a ++ (b ++ (c ++ d))) ++ e ≡ a ++ (b ++ (c ++ (d ++ e)))
append_parts a b c d e =
    rw (append_assoc a (b ++ (c ++ d)) e, append_assoc b (c ++ d) e, append_assoc c d e) refl

import_keys-entry :
    (env : Openssl) (n : ℕ) (id bytes rest : List ℕ) (w : Wallet)
    → length id ≡ 20
    → length bytes ≡ 33
    → import_keys env (suc n) (id ++ (digits 256 4 (length bytes) ++ (bytes ++ rest))) w
      ≡ import_keys env n rest (add_key env (set_priv_key bytes []).1 w).1
unfolding import_keys
import_keys-entry env n id bytes rest w hid size =
    rw
      (
        take_bytes-append 20 id (digits 256 4 (length bytes) ++ (bytes ++ rest)) hid,
        read_uint-digits 4 (length bytes) (bytes ++ rest) (omega arith),
        take_bytes-append (length bytes) bytes rest refl,
      )
      refl

import_keys_none :
    (env : Openssl) (rest : List ℕ) (w : Wallet) → import_keys env 0 rest w ≡ some (w, rest)
unfolding import_keys
import_keys_none env rest w = refl

import_keys-key_entries :
    (env : Openssl) (keys : ByteMap (List ℕ)) (rest : List ℕ) (w : Wallet)
    → All (λ e. (length e.0 ≡ 20) × (length e.1 ≡ 32)) keys
    → import_keys env (length keys) (key_entries keys ++ rest) w ≡ some (w, rest)
unfolding key_entries
import_keys-key_entries env [] rest w hs = import_keys_none env rest w
import_keys-key_entries env ((id, key) ∷ keys) rest w ((hid, hkey), hs) =
    let bytes = export_key key in
    ap (λ t. import_keys env (suc (length keys)) t w)
      (append_parts id (digits 256 4 (length bytes)) bytes (key_entries keys) rest)
    ∙ import_keys-entry env (length keys) id bytes (key_entries keys ++ rest) w hid
        (exported_size key hkey)
    ∙ ap (import_keys env (length keys) (key_entries keys ++ rest)) (add_nothing env key w hkey)
    ∙ import_keys-key_entries env keys rest w hs

skip_txs-tx_entries :
    (txs : ByteMap WalletTx) (rest : List ℕ)
    → All (λ e. length e.0 ≡ 32) txs
    → skip_txs (length txs) (tx_entries txs ++ rest) ≡ some rest
unfolding skip_txs tx_entries
skip_txs-tx_entries [] rest hs = refl
skip_txs-tx_entries ((hash, tx) ∷ txs) rest (h, hs) =
    rw
      (
        append_assoc hash (digits 256 8 tx.time ++ tx_entries txs) rest,
        append_assoc (digits 256 8 tx.time) (tx_entries txs) rest,
        take_bytes-append 32 hash (digits 256 8 tx.time ++ (tx_entries txs ++ rest)) h,
        take_bytes-append 8 (digits 256 8 tx.time) (tx_entries txs ++ rest)
            (length-digits 256 8 tx.time),
      )
      (skip_txs-tx_entries txs rest hs)

read_flag : (flag : ℕ) → read_uint 1 (flag ∷ []) ≡ some (flag, [])
unfolding read_uint
read_flag flag = let same : flag + 256 * 0 ≡ flag = omega arith in ap (λ (t : ℕ). some (t, [])) same

-- What stands behind the version.
abbrev file_body : ℕ → ℕ → Wallet → List ℕ
file_body time flag w =
    digits 256 8 time
    ++ (digits 256 4 (length w.keys)
        ++ (key_entries w.keys
            ++ (digits 256 8 (length w.wallet_txs) ++ (tx_entries w.wallet_txs ++ (flag ∷ [])))))

import_body-parts :
    (env : Openssl) (time flag : ℕ) (w v : Wallet)
    → IsStorable w
    → import_body env (file_body time flag w) v
      ≡ some (true, record v { encrypted = flag == 1; dirty = true })
unfolding import_body
import_body-parts env time flag w v s =
    let counted = digits 256 8 (length w.wallet_txs) ++ (tx_entries w.wallet_txs ++ (flag ∷ [])) in
    rw
      (
        take_bytes-append 8 (digits 256 8 time)
            (digits 256 4 (length w.keys) ++ (key_entries w.keys ++ counted))
            (length-digits 256 8 time),
        read_uint-digits 4 (length w.keys) (key_entries w.keys ++ counted) s.key_count,
        import_keys-key_entries env w.keys counted v s.key_sizes,
        read_uint-digits 8 (length w.wallet_txs) (tx_entries w.wallet_txs ++ (flag ∷ []))
            s.tx_count,
        skip_txs-tx_entries w.wallet_txs (flag ∷ []) s.tx_sizes,
      )
      (ap (λ o. o >>= λ x. some (true, record v { encrypted = x.0 == 1; dirty = true }))
        (read_flag flag))

flag_read : (b : Bool) → ((if b then 1 else 0) == 1) ≡ b
flag_read true = refl
flag_read false = refl

import_version-body :
    (env : Openssl) (rest : List ℕ) (v : Wallet)
    → import_version env (digits 256 4 1 ++ rest) v ≡ import_body env rest v
unfolding import_version
import_version-body env rest v = rw (read_uint-digits 4 1 rest (omega arith)) refl

-- The wallet that reads the file gains no key and no transaction: only the two flags change.
pub import_wallet-backup_wallet :
    (env : Openssl) (time : ℕ) (w v : Wallet)
    → IsStorable w
    → import_wallet env (some (backup_wallet time w)) v
      ≡ some (true, record v { encrypted = w.encrypted; dirty = true })
unfolding import_wallet backup_wallet
import_wallet-backup_wallet env time w v s =
    import_version-body env (file_body time (if w.encrypted then 1 else 0) w) v
    ∙ import_body-parts env time (if w.encrypted then 1 else 0) w v s
    ∙ ap (λ b. some (true, record v { encrypted = b; dirty = true })) (flag_read w.encrypted)
