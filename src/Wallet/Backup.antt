-- ===== src/Wallet/Backup.antt =====
-- The backup file of BHTWalletPro/src/wallet/wallet.cpp. A file is its bytes, `none` one that does
-- not open. Reading past its end leaves a variable without a value that the code then uses; the
-- answer is `none` there.
pub mod Restores
use bht_bhte.Prelude.{
  codes, ℕ, zero, suc, Bool, true, false, not, Option, none, some, List, [], ◌∷◌, ◌++◌, ◌==◌,
  if◌then◌else◌, length, bytes_eq,
}
use bht_bhte.Prelude.Radix.{digits, value}
use bht_bhte.Fips204.Sampling.{◌>>=◌}
use bht_bhte.Withdrawal.Parse.{take_bytes}
use bht_bhte.Wallet.{Openssl, ByteMap}
use bht_bhte.Wallet.Keys.{set_priv_key, export_key}
use bht_bhte.Wallet.Tx.{WalletTx}
use bht_bhte.Wallet.Core.{Wallet, add_key}

abbrev pub header : List ℕ
header = codes "BHTWALLETBACKUP_V1"

unfoldable pub key_entries : ByteMap (List ℕ) → List ℕ
unfolding export_key
key_entries [] = []
key_entries ((id, key) ∷ keys) =
    let bytes = export_key key in id ++ (digits 256 4 (length bytes) ++ (bytes ++ key_entries keys))

unfoldable pub tx_entries : ByteMap WalletTx → List ℕ
tx_entries [] = []
tx_entries ((hash, tx) ∷ txs) = hash ++ (digits 256 8 tx.time ++ tx_entries txs)

unfoldable pub backup_wallet : ℕ → Wallet → List ℕ
unfolding key_entries tx_entries
backup_wallet time w =
    header
    ++ (10
        ∷ (digits 256 4 1
            ++ (digits 256 8 time
                ++ (digits 256 4 (length w.keys)
                    ++ (key_entries w.keys
                        ++ (digits 256 8 (length w.wallet_txs)
                            ++ (tx_entries w.wallet_txs
                                ++ ((if w.encrypted then 1 else 0) ∷ []))))))))

-- std::getline.
abbrev pub get_line : List ℕ → List ℕ × List ℕ
get_line [] = ([], [])
get_line (c ∷ cs) = let (line, rest) = get_line cs in if c == 10 then ([], cs) else (c ∷ line, rest)

unfoldable pub read_uint : ℕ → List ℕ → Option (ℕ × List ℕ)
unfolding take_bytes
read_uint n bytes = do (b, rest) ← take_bytes n bytes; some (value 256 b, rest)

unfoldable pub skip_txs : ℕ → List ℕ → Option (List ℕ)
unfolding take_bytes
skip_txs zero bytes = some bytes
skip_txs (suc n) bytes = do
  (hash, rest₁) ← take_bytes 32 bytes
  (time, rest₂) ← take_bytes 8 rest₁
  skip_txs n rest₂

module _ (env : Openssl) where
  -- The answers of SetPrivKey and AddKey are not looked at.
  unfoldable pub import_keys : ℕ → List ℕ → Wallet → Option (Wallet × List ℕ)
  unfolding take_bytes read_uint add_key
  import_keys zero bytes w = some (w, bytes)
  import_keys (suc n) bytes w = do
    (id, rest₁) ← take_bytes 20 bytes
    (size, rest₂) ← read_uint 4 rest₁
    (key, rest₃) ← take_bytes size rest₂
    import_keys n rest₃ (add_key env (set_priv_key key []).1 w).1

  unfoldable pub import_body : List ℕ → Wallet → Option (Bool × Wallet)
  unfolding take_bytes read_uint import_keys skip_txs
  import_body bytes w = do
    (time, rest₁) ← take_bytes 8 bytes
    (count, rest₂) ← read_uint 4 rest₁
    (w', rest₃) ← import_keys count rest₂ w
    (tx_count, rest₄) ← read_uint 8 rest₃
    rest₅ ← skip_txs tx_count rest₄
    (flag, rest₆) ← read_uint 1 rest₅
    some (true, record w' { encrypted = flag == 1; dirty = true })

  unfoldable pub import_version : List ℕ → Wallet → Option (Bool × Wallet)
  unfolding read_uint import_body
  import_version bytes w = do
    (version, rest) ← read_uint 4 bytes
    if not (version == 1) then some (false, w) else import_body rest w

  unfoldable pub import_wallet : Option (List ℕ) → Wallet → Option (Bool × Wallet)
  unfolding import_version
  import_wallet none w = some (false, w)
  import_wallet (some bytes) w =
      let (line, rest) = get_line bytes in
      if not (bytes_eq line header) then some (false, w) else import_version rest w
