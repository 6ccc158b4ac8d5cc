-- ===== src/Wallet/Core/Phrase.antt =====
-- The recovery phrase and the derivation of keys in BHTWalletPro/src/wallet/wallet.cpp. The table
-- BIP39_WORDLIST and the words of a phrase are lists; what is drawn is an argument.
use bht_bhte.Prelude.{
  codes, ℕ, ◌+◌, ◌%◌, ◌^◌, Bool, true, false, not, ◌&&◌, ◌||◌, Option, none, some, List, [], ◌∷◌,
  ◌++◌, map, foldl, leb, ◌==◌, if◌then◌else◌, length, get_or, take, zip_with, bytes_eq, bit_xor,
}
use bht_bhte.Fips204.Sampling.{◌>>=◌}
use bht_bhte.Wallet.{Openssl}
use bht_bhte.Wallet.Keys.{is_valid, derive, be_bytes, export_key}
use bht_bhte.Wallet.Crypter.{get_ckey, master_pub_key, set_master_key}
use bht_bhte.Wallet.Core.{Wallet, CoinType, bhc, bhte, encrypt_wallet, is_empty}

abbrev coin_number : CoinType → ℕ
coin_number bhc = 0
coin_number bhte = 1

-- GetMnemonic, given the words that ComputeMnemonic draws.
abbrev join_words : List (List ℕ) → List ℕ
join_words [] = []
join_words (word ∷ []) = word
join_words (word ∷ next ∷ more) = word ++ (32 ∷ join_words (next ∷ more))

unfoldable pub get_mnemonic : List (List ℕ) → Wallet → List ℕ
get_mnemonic drawn w = if is_empty w.master_seed then join_words drawn else []

-- GetBIP39Word, GetBIP39Index (none for -1) and ComputeMnemonic, over the table of words.
abbrev pub get_bip39_word : List (List ℕ) → ℕ → List ℕ
get_bip39_word table index = get_or table index []

unfoldable pub get_bip39_index : List (List ℕ) → List ℕ → Option ℕ
get_bip39_index [] word = none
get_bip39_index (w ∷ table) word =
    let rest = get_bip39_index table word >>= λ i. some (i + 1) in
    if bytes_eq w word then some 0 else rest

unfoldable pub compute_mnemonic : List (List ℕ) → List ℕ → List (List ℕ)
compute_mnemonic table indices = map (get_bip39_word table) (take 12 indices)

abbrev pub known_words : List (List ℕ) → List (List ℕ) → Bool
known_words table [] = true
known_words table (word ∷ words) =
    let rest = known_words table words in
    elim (get_bip39_index table word) [ none ↦ false | some i ↦ rest ]

unfoldable pub create_bip84_path : CoinType → Bool → List ℕ
create_bip84_path coin internal =
    0x8000002C
    ∷ (0x80000000 + coin_number coin)
    ∷ 0x80000000
    ∷ (if internal then 1 else 0)
    ∷ 0
    ∷ 0
    ∷ []

pub data Purpose : Type 0 where
  purpose84 purpose49 other_purpose : Purpose

abbrev purpose_number : Purpose → ℕ
purpose_number purpose84 = 0x80000054
purpose_number purpose49 = 0x80000031
purpose_number other_purpose = 0x8000002C

unfoldable pub compute_bip32_path : Purpose → CoinType → Bool → List ℕ
compute_bip32_path purpose coin internal =
    purpose_number purpose
    ∷ (0x80000000 + coin_number coin)
    ∷ 0x80000000
    ∷ (if internal then 0x80000001 else 0x80000000)
    ∷ 0
    ∷ 0
    ∷ []

module _ (env : Openssl) where
  -- The loop over a path: the top bit of an index makes the step a hardened one.
  unfoldable pub derive_path : List ℕ → List ℕ → Option (List ℕ)
  unfolding derive
  derive_path key [] = some key
  derive_path key (index ∷ path) =
      derive env key (index % 2 ^ 31) (leb (2 ^ 31) index) >>= λ child. derive_path child path

  unfoldable pub derive_key_path : List ℕ → Wallet → Option (List ℕ)
  unfolding derive_path
  derive_key_path path w =
      if is_empty w.master.key then none else derive_path (get_ckey w.master) path

  -- The derived key is dropped.
  unfoldable pub setup_hd_chain : Bool → Wallet → Bool
  unfolding derive_key_path create_bip84_path
  setup_hd_chain internal w = elim (derive_key_path (create_bip84_path bhc internal) w) [
    | none ↦ false
    | some key ↦ true
  ]

  abbrev phrase_key : List ℕ
  phrase_key = codes "BHTWallet"

  -- Each word and a space; the first 32 bytes of the seed are the key.
  unfoldable pub compute_master_key : List (List ℕ) → Wallet → Wallet
  unfolding set_master_key
  compute_master_key words w =
      let seed = env.hmac_sha512 phrase_key (foldl (λ e word. (e ++ word) ++ (32 ∷ [])) [] words) in
      record w { master_seed = seed; master = (set_master_key (take 32 seed) w.master).1 }

  -- DeriveChildKey: the child's bytes. `none` is undefined: a hardened step copies from the
  -- start of one temporary vector to the end of another, and an invalid parent has no bytes.
  unfoldable pub derive_child_key : List ℕ → List ℕ → ℕ → Option (List ℕ)
  unfolding export_key
  derive_child_key parent_key parent_pubkey child_index =
      let hash = env.hmac_sha512 phrase_key (parent_pubkey ++ be_bytes child_index) in
      if leb (2 ^ 31) child_index || not (is_valid parent_key)
      then none
      else some (zip_with bit_xor (take 32 hash) (export_key parent_key))

  -- `drawn` is what ComputeMnemonic puts into the words.
  unfoldable pub create_wallet : List (List ℕ) → List ℕ → Wallet → Bool × Wallet
  unfolding compute_master_key encrypt_wallet setup_hd_chain master_pub_key
  create_wallet drawn passphrase w =
      let w₁ = compute_master_key drawn w in
      let w₂ =
        if is_empty passphrase || is_empty w₁.master.key
        then w₁
        else (encrypt_wallet passphrase w₁).1 in
      if not (setup_hd_chain false w₂) then (false, w₂) else (
        true,
        record w₂ { default_pubkey = master_pub_key w₂.master; dirty = true; locked = false },
      )

  -- The words of the phrase, as they stand between spaces.
  unfoldable pub restore_from_mnemonic : List (List ℕ) → List (List ℕ) → Wallet → Bool × Wallet
  unfolding compute_master_key setup_hd_chain master_pub_key
  restore_from_mnemonic table words w =
      if not (length words == 12) && not (length words == 24)
      then (false, w)
      else if not (known_words table words)
      then (false, w)
      else (let w' = compute_master_key words w in
          if not (setup_hd_chain false w') then (false, w') else (
            true,
            record w' { default_pubkey = master_pub_key w'.master; dirty = true; locked = false },
          ))
