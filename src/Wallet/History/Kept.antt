-- ===== src/Wallet/History/Kept.antt =====
-- The calls of BHTWalletPro/src/wallet/wallet.cpp that leave the keys as they are.
use bht_bhte.Prelude.{
  ℕ, ◌≡◌, refl, ◌∙◌, Bool, true, false, not, ◌||◌, ◌&&◌, Option, none, some, List, inl, inr,
  Bool-cases, if◌then◌else◌, length, ◌==◌,
}
use bht_bhte.Wallet.{Openssl}
use bht_bhte.Wallet.Tx.{Transaction}
use bht_bhte.Wallet.Crypter.{master_pub_key, set_master_key, encrypt, decrypt_master}
use bht_bhte.Wallet.Core.{Wallet, encrypt_wallet, unlock, lock, load_wallet, is_empty}
use bht_bhte.Wallet.Core.Phrase.{
  create_wallet, restore_from_mnemonic, compute_master_key, setup_hd_chain, known_words,
}
use bht_bhte.Wallet.Signing.{commit_transaction}

-- The maps of keys, and the ciphertext of the master key, which a call leaves as they are.
pub record IsKept (w w' : Wallet) : Type 0 where
  pub same_keys : w'.keys ≡ w.keys
  pub same_pubkeys : w'.pubkeys ≡ w.pubkeys
  pub same_crypted : w'.master.crypted_key ≡ w.master.crypted_key

pub kept : (w : Wallet) → IsKept w w
kept w = record { same_keys = refl; same_pubkeys = refl; same_crypted = refl }

IsKept-trans : (a b c : Wallet) → IsKept a b → IsKept b c → IsKept a c
IsKept-trans a b c h k = record {
  same_keys = k.same_keys ∙ h.same_keys;
  same_pubkeys = k.same_pubkeys ∙ h.same_pubkeys;
  same_crypted = k.same_crypted ∙ h.same_crypted;
}

pub if-IsKept :
    (w : Wallet) (b : Bool) (x y : Bool × Wallet)
    → IsKept w x.1
    → IsKept w y.1
    → IsKept w (if b then x else y).1
if-IsKept w true x y h k = h
if-IsKept w false x y h k = k

pub choose-IsKept :
    (w : Wallet) (b : Bool) (x y : Wallet) → IsKept w x → IsKept w y → IsKept w (if b then x else y)
choose-IsKept w true x y h k = h
choose-IsKept w false x y h k = k

pub option-IsKept :
    (w : Wallet) (o : Option (List ℕ)) (x : Bool × Wallet) (f : List ℕ → Bool × Wallet)
    → IsKept w x.1
    → ((k : List ℕ) → IsKept w (f k).1)
    → IsKept w (elim o as (λ o'. Bool × Wallet) [ none ↦ x | some k ↦ f k ]).1
option-IsKept w none x f h k = h
option-IsKept w (some v) x f h k = k v

-- A change of the other fields.
pub flagged :
    (w : Wallet) (locked encrypted : Bool)
    → IsKept w (record w { locked = locked; encrypted = encrypted })
flagged w locked encrypted = record { same_keys = refl; same_pubkeys = refl; same_crypted = refl }

pub encrypt_wallet-IsKept :
    (passphrase : List ℕ) (w : Wallet) → IsKept w (encrypt_wallet passphrase w).1
unfolding encrypt_wallet
encrypt_wallet-IsKept passphrase w =
    let cipher = encrypt w.master.key passphrase in
    let made : List ℕ → Bool × Wallet = λ c. (true, record w { encrypted = true }) in
    let tried : Bool × Wallet = elim cipher [ none ↦ (false, w) | some c ↦ made c ] in
    if-IsKept w w.encrypted (false, w) (if is_empty w.master.key then (false, w) else tried)
      (kept w)
      (if-IsKept w (is_empty w.master.key) (false, w) tried (kept w)
        (option-IsKept w cipher (false, w) made (kept w) (λ c. flagged w w.locked true)))

pub unlock-IsKept : (passphrase : List ℕ) (w : Wallet) → IsKept w (unlock passphrase w).1
unfolding unlock
unlock-IsKept passphrase w =
    let opened : List ℕ → Bool × Wallet =
      λ key. (true, record w { master = (set_master_key key w.master).1; locked = false }) in
    let tried : Bool × Wallet = elim (decrypt_master passphrase w.master) [
      | none ↦ (false, w)
      | some key ↦ opened key
    ] in
    if-IsKept w (not w.encrypted) (true, record w { locked = false }) tried
      (flagged w false w.encrypted)
      (option-IsKept w (decrypt_master passphrase w.master) (false, w) opened (kept w)
        (λ key. same_master key))
  where
    same_master :
        (key : List ℕ)
        → IsKept w (record w { master = (set_master_key key w.master).1; locked = false })
    same_master key = record { same_keys = refl; same_pubkeys = refl; same_crypted = refl }

pub lock-IsKept : (w : Wallet) → IsKept w (lock w)
unfolding lock
lock-IsKept w =
    choose-IsKept w w.encrypted (record w { locked = true }) w (flagged w true w.encrypted) (kept w)

pub load_wallet-IsKept : (passphrase : List ℕ) (w : Wallet) → IsKept w (load_wallet passphrase w).1
unfolding load_wallet
load_wallet-IsKept passphrase w = kept w

pub commit_transaction-IsKept :
    (tx : Transaction) (time : ℕ) (w : Wallet) → IsKept w (commit_transaction tx time w)
unfolding commit_transaction
commit_transaction-IsKept tx time w = record {
  same_keys = refl;
  same_pubkeys = refl;
  same_crypted = refl;
}

module _ (env : Openssl) where
  pub compute_master_key-IsKept :
      (words : List (List ℕ)) (w : Wallet) → IsKept w (compute_master_key env words w)
  unfolding compute_master_key
  compute_master_key-IsKept words w = record {
    same_keys = refl;
    same_pubkeys = refl;
    same_crypted = refl;
  }

  pub finished :
      (w w' : Wallet) (pubkey : List ℕ)
      → IsKept w w'
      → IsKept w (record w' { default_pubkey = pubkey; dirty = true; locked = false })
  finished w w' pubkey h = record {
    same_keys = h.same_keys;
    same_pubkeys = h.same_pubkeys;
    same_crypted = h.same_crypted;
  }

  pub create_wallet-IsKept :
      (drawn : List (List ℕ)) (passphrase : List ℕ) (w : Wallet)
      → IsKept w (create_wallet env drawn passphrase w).1
  unfolding create_wallet
  create_wallet-IsKept drawn passphrase w =
      let w₁ = compute_master_key env drawn w in
      let given = is_empty passphrase || is_empty w₁.master.key in
      let w₂ = if given then w₁ else (encrypt_wallet passphrase w₁).1 in
      let h₁ = compute_master_key-IsKept drawn w in
      let h : IsKept w w₂ = elim (Bool-cases given) [
        | inl none_given ↦ rw none_given h₁
        | inr some_given ↦
            rw some_given (IsKept-trans w w₁ _ h₁ (encrypt_wallet-IsKept passphrase w₁))
      ] in
      if-IsKept w (not (setup_hd_chain env false w₂)) (false, w₂) _ h
        (finished w w₂ (master_pub_key w₂.master) h)

  pub restore_from_mnemonic-IsKept :
      (table words : List (List ℕ)) (w : Wallet)
      → IsKept w (restore_from_mnemonic env table words w).1
  unfolding restore_from_mnemonic
  restore_from_mnemonic-IsKept table words w =
      let w' = compute_master_key env words w in
      let h = compute_master_key-IsKept words w in
      let body : Bool × Wallet = if not (setup_hd_chain env false w') then (false, w') else (
        true,
        record w' { default_pubkey = master_pub_key w'.master; dirty = true; locked = false },
      ) in
      let checked : Bool × Wallet = if not (known_words table words) then (false, w) else body in
      if-IsKept w (not (length words == 12) && not (length words == 24)) (false, w) checked (kept w)
        (if-IsKept w (not (known_words table words)) (false, w) body (kept w)
          (if-IsKept w (not (setup_hd_chain env false w')) (false, w') _ h
            (finished w w' (master_pub_key w'.master) h)))
