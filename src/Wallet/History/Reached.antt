-- ===== src/Wallet/History/Reached.antt =====
-- What holds of every wallet of BHTWalletPro/src/wallet/wallet.cpp that a history of calls
-- reaches.
use bht_bhte.Prelude.{
  ℕ, zero, suc, ◌≡◌, refl, sym, ap, ◌∙◌, subst, Bool, true, false, not, ◌&&◌, Option, none, some,
  List, [], ◌∷◌, inl, inr, Bool-cases, All, if◌then◌else◌, map, bytes_eq, ◌==◌,
}
use bht_bhte.Fips204.Sampling.{◌>>=◌}
use bht_bhte.Withdrawal.Parse.{take_bytes}
use bht_bhte.Wallet.{Openssl}
use bht_bhte.Wallet.Keys.{get_pub_key, pub_is_valid, get_id, make_new_key, set_priv_key}
use bht_bhte.Wallet.Core.{Wallet, wallet, OutputType, add_key, add_key_pub_key, generate_new_key}
use bht_bhte.Wallet.Core.Consistent.{IsEntry, IsConsistent, add_key-IsConsistent}
use bht_bhte.Wallet.Backup.{
  import_wallet, import_version, import_body, import_keys, read_uint, skip_txs, get_line, header,
}
use bht_bhte.Wallet.History.{
  Op, op_create, op_load, op_encrypt, op_unlock, op_lock, op_add_key, op_add_key_pub_key,
  op_generate, op_commit, op_restore, op_import, step, run,
}
use bht_bhte.Wallet.History.Kept.{
  IsKept, commit_transaction-IsKept, create_wallet-IsKept, encrypt_wallet-IsKept,
  load_wallet-IsKept, lock-IsKept, restore_from_mnemonic-IsKept, unlock-IsKept,
}

-- A predicate on what a computation answers, when it does.
abbrev pub Every {ℓ κ} : {A : Type ℓ} → (A → Type κ) → Option A → Type κ
Every P none = Unit
Every P (some a) = P a

Every-bind :
    {A B : Type 0} (P : B → Type 0) (Q : A → Type 0) (o : Option A) (f : A → Option B)
    → Every Q o
    → ((a : A) → Q a → Every P (f a))
    → Every P (o >>= f)
Every-bind P Q none f h k = tt
Every-bind P Q (some a) f h k = k a h

Every-then :
    {A B : Type 0} (P : B → Type 0) (o : Option A) (f : A → Option B)
    → ((a : A) → Every P (f a))
    → Every P (o >>= f)
Every-then P none f k = tt
Every-then P (some a) f k = k a

Every-if :
    {A : Type 0} (P : A → Type 0) (b : Bool) (x y : Option A)
    → Every P x
    → Every P y
    → Every P (if b then x else y)
Every-if P true x y h k = h
Every-if P false x y h k = k

module _ (env : Openssl) where
  -- The maps of keys agree, and no ciphertext of the master key is held.
  pub record IsReached (w : Wallet) : Type 0 where
    pub consistent : IsConsistent env w
    pub no_crypted : w.master.crypted_key ≡ []

  reached : (w w' : Wallet) → IsKept w w' → IsReached w → IsReached w'
  reached w w' h r = record {
    consistent = record {
      entries = subst (λ m. All (IsEntry env) m) (sym h.same_keys) r.consistent.entries;
      same =
          h.same_pubkeys
          ∙ r.consistent.same
          ∙ ap (map (λ e. (e.0, get_pub_key e.1))) (sym h.same_keys);
    };
    no_crypted = h.same_crypted ∙ r.no_crypted;
  }

  add_key-crypted :
      (key : List ℕ) (w : Wallet) → (add_key env key w).1.master.crypted_key ≡ w.master.crypted_key
  unfolding add_key
  add_key-crypted key w = elim (Bool-cases (pub_is_valid (get_pub_key key))) [
    | inl valid ↦ rw valid refl
    | inr invalid ↦ rw invalid refl
  ]

  add_key-IsReached : (key : List ℕ) (w : Wallet) → IsReached w → IsReached (add_key env key w).1
  add_key-IsReached key w r = record {
    consistent = add_key-IsConsistent env key w r.consistent;
    no_crypted = add_key-crypted key w ∙ r.no_crypted;
  }

  choose-IsReached :
      {A : Type 0} (b : Bool) (x y : A × Wallet)
      → IsReached x.1
      → IsReached y.1
      → IsReached (if b then x else y).1
  choose-IsReached true x y h k = h
  choose-IsReached false x y h k = k

  add_key_pub_key-IsReached :
      (key pubkey : List ℕ) (w : Wallet)
      → IsReached w
      → IsReached (add_key_pub_key env key pubkey w).1
  unfolding add_key_pub_key
  add_key_pub_key-IsReached key pubkey w r =
      choose-IsReached
        (pub_is_valid pubkey && bytes_eq (get_id env pubkey) (get_id env (get_pub_key key)))
        (add_key env key w) (false, w) (add_key-IsReached key w r) r

  generate_new_key-IsReached :
      (drawn : Option (List ℕ)) (time : ℕ) (type : OutputType) (w : Wallet)
      → IsReached w
      → IsReached (generate_new_key env drawn time type w).1
  unfolding generate_new_key
  generate_new_key-IsReached drawn time type w r =
      let key = (make_new_key drawn []).1 in
      let w' = (add_key env key w).1 in
      let h = add_key-IsReached key w r in
      choose-IsReached (not (add_key env key w).0) ([], w') (get_pub_key key, _) h
        (reached w' _ (record { same_keys = refl; same_pubkeys = refl; same_crypted = refl }) h)

  -- Of what the parts of an import answer.
  abbrev KeysReached : Wallet × List ℕ → Type 0
  KeysReached r = IsReached r.0

  abbrev CallReached : Bool × Wallet → Type 0
  CallReached r = IsReached r.1

  import_keys-IsReached :
      (n : ℕ) (bytes : List ℕ) (w : Wallet)
      → IsReached w
      → Every KeysReached (import_keys env n bytes w)
  unfolding import_keys
  import_keys-IsReached zero bytes w r = r
  import_keys-IsReached (suc n) bytes w r =
      Every-then KeysReached (take_bytes 20 bytes) _ (λ (id, rest₁).
        Every-then KeysReached (read_uint 4 rest₁) _ (λ (size, rest₂).
          Every-then KeysReached (take_bytes size rest₂) _ (λ (key, rest₃).
            import_keys-IsReached n rest₃ _ (add_key-IsReached (set_priv_key key []).1 w r))))

  import_body-IsReached :
      (bytes : List ℕ) (w : Wallet) → IsReached w → Every CallReached (import_body env bytes w)
  unfolding import_body
  import_body-IsReached bytes w r = Every-then CallReached (take_bytes 8 bytes) _ (λ (time, rest₁).
      Every-then CallReached (read_uint 4 rest₁) _ (λ (count, rest₂).
        Every-bind CallReached KeysReached (import_keys env count rest₂ w) _
          (import_keys-IsReached count rest₂ w r)
          (λ (w', rest₃) r'. Every-then CallReached (read_uint 8 rest₃) _ (λ (tx_count, rest₄).
            Every-then CallReached (skip_txs tx_count rest₄) _ (λ rest₅.
              Every-then CallReached (read_uint 1 rest₅) _ (λ (flag, rest₆).
                reached w' _ (record { same_keys = refl; same_pubkeys = refl; same_crypted = refl })
                  r'))))))

  import_wallet-IsReached :
      (file : Option (List ℕ)) (w : Wallet)
      → IsReached w
      → Every CallReached (import_wallet env file w)
  unfolding import_wallet import_version
  import_wallet-IsReached none w r = r
  import_wallet-IsReached (some bytes) w r =
      Every-if CallReached (not (bytes_eq (get_line bytes).0 header)) _ _ r (
        Every-then CallReached (read_uint 4 (get_line bytes).1) _ (λ (version, rest).
          Every-if CallReached (not (version == 1)) _ _ r (import_body-IsReached rest w r)))

  step-IsReached : (op : Op) (w : Wallet) → IsReached w → Every IsReached (step env op w)
  unfolding step
  step-IsReached (op_create drawn passphrase) w r =
      reached w _ (create_wallet-IsKept env drawn passphrase w) r
  step-IsReached (op_load passphrase) w r = reached w _ (load_wallet-IsKept passphrase w) r
  step-IsReached (op_encrypt passphrase) w r = reached w _ (encrypt_wallet-IsKept passphrase w) r
  step-IsReached (op_unlock passphrase) w r = reached w _ (unlock-IsKept passphrase w) r
  step-IsReached op_lock w r = reached w _ (lock-IsKept w) r
  step-IsReached (op_add_key key) w r = add_key-IsReached key w r
  step-IsReached (op_add_key_pub_key key pubkey) w r = add_key_pub_key-IsReached key pubkey w r
  step-IsReached (op_generate drawn time type) w r = generate_new_key-IsReached drawn time type w r
  step-IsReached (op_commit tx time) w r = reached w _ (commit_transaction-IsKept tx time w) r
  step-IsReached (op_restore table words) w r =
      reached w _ (restore_from_mnemonic-IsKept env table words w) r
  step-IsReached (op_import file) w r =
      Every-bind IsReached CallReached (import_wallet env file w) _
        (import_wallet-IsReached file w r) (λ x r'. r')

  pub run-IsReached : (ops : List Op) (w : Wallet) → IsReached w → Every IsReached (run env ops w)
  unfolding run
  run-IsReached [] w r = r
  run-IsReached (op ∷ ops) w r =
      Every-bind IsReached IsReached (step env op w) _ (step-IsReached op w r)
        (λ w' r'. run-IsReached ops w' r')

  pub run-from_wallet : (ops : List Op) (w : Wallet) → run env ops wallet ≡ some w → IsReached w
  run-from_wallet ops w h = subst (Every IsReached) h (run-IsReached ops wallet start)
    where
      start : IsReached wallet
      start = record { consistent = record { entries = tt; same = refl }; no_crypted = refl }

  -- The maps of keys and of public keys agree after every history of calls on a new wallet.
  pub run-IsConsistent :
      (ops : List Op) (w : Wallet) → run env ops wallet ≡ some w → IsConsistent env w
  run-IsConsistent ops w h = (run-from_wallet ops w h).consistent
