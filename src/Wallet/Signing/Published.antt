-- ===== src/Wallet/Signing/Published.antt =====
-- What a signed input of BHTWalletPro/src/wallet/wallet.cpp shows.
use bht_bhte.Prelude.{
  ℕ, ◌≡◌, refl, none, some, List, [], ◌∷◌, ◌++◌, zero, suc, map, length, get_elem?, get_or, take,
  ◌%◌, bit_or, ap, ◌∙◌, sym, take-length-append, append_assoc,
}
use bht_bhte.Wallet.{Openssl, find}
use bht_bhte.Wallet.Keys.{get_pub_key, export_key}
use bht_bhte.Wallet.Tx.{OutPoint, TxIn, Transaction, tx_hash, script_id, Coin}
use bht_bhte.Wallet.Core.{Wallet, lookup_key}
use bht_bhte.Wallet.Core.Consistent.{IsConsistent, All-find}
use bht_bhte.Wallet.Signing.{find_coin, sign_input, sign_transaction, append_signature}

get_elem?-map {ℓ κ} :
    {A : Type ℓ} {B : Type κ} (f : A → B) (xs : List A) (i : ℕ) (x : A)
    → get_elem? xs i ≡ some x
    → get_elem? (map f xs) i ≡ some (f x)
get_elem?-map f [] i x h = absurd (cc h)
get_elem?-map f (y ∷ xs) zero x h = ap (λ o. elim o [ none ↦ none | some z ↦ some (f z) ]) h
get_elem?-map f (y ∷ xs) (suc i) x h = get_elem?-map f xs i x h

exported : (key : List ℕ) → length key ≡ 32 → take 32 (export_key key) ≡ key
unfolding export_key
exported key h =
    rw h (ap (λ n. take n (key ++ (0x01 ∷ []))) (sym h) ∙ take-length-append key (0x01 ∷ []))

get_pub_key-valid :
    (key : List ℕ)
    → length key ≡ 32
    → get_pub_key key ≡ key ++ (bit_or 0x02 (get_or key 31 0 % 2) ∷ [])
unfolding get_pub_key
get_pub_key-valid key h = rw h refl

sign_input-signed :
    (env : Openssl) (w : Wallet) (coins : List (OutPoint × Coin)) (hash : List ℕ) (txin : TxIn)
    (coin : Coin) (key sig : List ℕ)
    → length key ≡ 32
    → find_coin coins txin.prevout ≡ some coin
    → lookup_key (script_id coin.out.script_pub_key) w ≡ some key
    → env.ecdsa_sign key hash ≡ some sig
    → sign_input env w coins hash txin ≡ append_signature (some sig) (get_pub_key key) txin
unfolding sign_input
sign_input-signed env w coins hash txin coin key sig size spent held signs =
    rw (sign_input, spent, held, exported key size, signs) refl

found :
    (id : List ℕ) (w : Wallet) (key : List ℕ)
    → lookup_key id w ≡ some key
    → find w.keys id ≡ some key
unfolding lookup_key
found id w key h = h

-- The private key stands in the script of every input that is signed, followed by one byte.
pub sign_transaction_publishes :
    (env : Openssl) (w : Wallet)
    → IsConsistent env w
    → (coins : List (OutPoint × Coin)) (tx : Transaction) (i : ℕ) (txin : TxIn) (coin : Coin)
      (key sig : List ℕ)
    → get_elem? tx.vin i ≡ some txin
    → find_coin coins txin.prevout ≡ some coin
    → lookup_key (script_id coin.out.script_pub_key) w ≡ some key
    → env.ecdsa_sign key (tx_hash tx) ≡ some sig
    → (signed : TxIn) × (get_elem? (sign_transaction env w coins tx).vin i ≡ some signed)
      × ((parity : ℕ) × (signed.script_sig
            ≡ (txin.script_sig ++ (sig ++ (0x01 ∷ []))) ++ (key ++ (parity ∷ []))))
unfolding sign_transaction
sign_transaction_publishes env w c coins tx i txin coin key sig at spent held signs =
    let id = script_id coin.out.script_pub_key in
    let size = All-find env w.keys id key c.entries (found id w key held) in
    (
      append_signature (some sig) (get_pub_key key) txin,
      get_elem?-map (sign_input env w coins (tx_hash tx)) tx.vin i txin at
          ∙ ap some
              (sign_input-signed env w coins (tx_hash tx) txin coin key sig size spent held signs),
      (
        bit_or 0x02 (get_or key 31 0 % 2),
        ap (λ t. txin.script_sig ++ ((sig ++ (0x01 ∷ [])) ++ t)) (get_pub_key-valid key size)
            ∙ sym (
                append_assoc txin.script_sig (sig ++ (0x01 ∷ []))
                  (key ++ (bit_or 0x02 (get_or key 31 0 % 2) ∷ []))),
      ),
    )
