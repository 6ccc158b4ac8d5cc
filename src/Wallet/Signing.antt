-- ===== src/Wallet/Signing.antt =====
-- The transactions of CWallet in BHTWalletPro/src/wallet/wallet.cpp: making, signing and recording
-- them, balances and the choice of coins. Amounts do not overflow here.
pub mod Published
use bht_bhte.Prelude.{
  codes, ℕ, ◌+◌, ◌/◌, ◌%◌, Bool, true, false, Option, none, some, List, [], ◌∷◌, ◌++◌, map, foldl,
  ltb, if◌then◌else◌, length, get_elem?, take, replicate,
}
use bht_bhte.Prelude.Int.{ℤ, pos, negsuc, ◌+ℤ◌, ◌-ℤ◌, ltb_ℤ}
use bht_bhte.Wallet.{Openssl, ByteMap, find, insert}
use bht_bhte.Wallet.Keys.{export_key, get_pub_key}
use bht_bhte.Wallet.Tx.{
  OutPoint, outpoint_eq, outpoint_lt, TxIn, TxOut, Transaction, tx_hash, script_id, Coin, Output,
  WalletTx, wallet_tx,
}
use bht_bhte.Wallet.Core.{Wallet, lookup_key}

pub record Recipient : Type 0 where
  pub script : List ℕ
  pub amount : ℤ
  pub subtract_fee : Bool

abbrev pub find_coin : List (OutPoint × Coin) → OutPoint → Option Coin
find_coin [] o = none
find_coin ((o', coin) ∷ coins) o =
    let rest = find_coin coins o in if outpoint_eq o' o then some coin else rest

-- The signature, a one and the public key are put behind the script.
abbrev pub append_signature : Option (List ℕ) → List ℕ → TxIn → TxIn
append_signature none pubkey txin = txin
append_signature (some sig) pubkey txin = record txin {
  script_sig = txin.script_sig ++ ((sig ++ (0x01 ∷ [])) ++ pubkey);
}

abbrev output : Recipient → TxOut
output r = record { value = r.amount; script_pub_key = r.script }

module _ (env : Openssl) where
  abbrev pub sign_with : Option (List ℕ) → List ℕ → TxIn → TxIn
  sign_with none hash txin = txin
  sign_with (some key) hash txin =
      append_signature (env.ecdsa_sign (take 32 (export_key key)) hash) (get_pub_key key) txin

  unfoldable pub sign_input : Wallet → List (OutPoint × Coin) → List ℕ → TxIn → TxIn
  unfolding lookup_key export_key get_pub_key script_id
  sign_input w coins hash txin = elim (find_coin coins txin.prevout) [
    | none ↦ txin
    | some coin ↦ sign_with (lookup_key (script_id coin.out.script_pub_key) w) hash txin
  ]

  -- The hash is of the version alone, so it is the same at each turn of the loop. The code
  -- answers true.
  unfoldable pub sign_transaction : Wallet → List (OutPoint × Coin) → Transaction → Transaction
  unfolding sign_input tx_hash
  sign_transaction w coins tx = record tx { vin = map (sign_input w coins (tx_hash tx)) tx.vin }

  -- The transaction and its hash; the fee is left as it was.
  unfoldable pub create_transaction : List Recipient → Bool → Wallet → Transaction × List ℕ
  unfolding sign_transaction tx_hash
  create_transaction recipients sign w =
      let tx : Transaction = record {
        version = 2;
        vin = [];
        vout = map output recipients;
        locktime = 0;
      } in
      let signed = if sign then sign_transaction w [] tx else tx in (signed, tx_hash signed)

abbrev sending : List ℕ
sending = codes "sending"

-- The transaction itself is not kept.
unfoldable pub commit_transaction : Transaction → ℕ → Wallet → Wallet
unfolding tx_hash
commit_transaction tx time w =
    let txid = tx_hash tx in
    let entry = record wallet_tx {
      hash = txid;
      time = time;
      status = sending;
      order_pos = negsuc 0;
    } in
    record w { wallet_txs = insert txid entry w.wallet_txs }

unfoldable pub get_transaction : List ℕ → Wallet → Option Transaction
get_transaction txid w = elim (find w.wallet_txs txid) [ none ↦ none | some entry ↦ entry.tx ]

unfoldable pub get_balance : Wallet → ℤ
get_balance w = foldl (λ total e. total +ℤ (e.1.credit -ℤ e.1.debit)) (pos 0) w.wallet_txs

unfoldable pub get_unconfirmed_balance : Wallet → ℤ
get_unconfirmed_balance w =
    foldl (λ total e. if ltb_ℤ e.1.confirmations (pos 6) then total +ℤ e.1.credit else total)
      (pos 0) w.wallet_txs

unfoldable pub available_coins : Wallet → List Output
available_coins w = []

-- CInputCoin: the outpoint of a coin, or the blank one.
abbrev blank_outpoint : OutPoint
blank_outpoint = record { hash = replicate 32 0; n = 0 }

unfoldable pub input_coin : Output → OutPoint
unfolding tx_hash
input_coin coin = elim coin.tx [
  | none ↦ blank_outpoint
  | some tx ↦
      if ltb coin.i (length tx.vout)
      then record { hash = tx_hash tx; n = coin.i }
      else blank_outpoint
]

-- std::set of outpoints.
abbrev insert_outpoint : OutPoint → List OutPoint → List OutPoint
insert_outpoint o [] = o ∷ []
insert_outpoint o (o' ∷ os) =
    let rest = insert_outpoint o os in
    if outpoint_lt o o' then o ∷ o' ∷ os else if outpoint_lt o' o then o' ∷ rest else o' ∷ os

pub record Selection : Type 0 where
  pub enough : Bool
  pub value : ℤ
  pub coins : List Output
  pub selected : List OutPoint

abbrev pub at_least : ℤ → ℤ → Bool
at_least value target = if ltb_ℤ value target then false else true

unfoldable pub select_from : List Output → ℤ → ℤ → List Output → List OutPoint → Selection
unfolding input_coin
select_from [] target value coins selected = record {
  enough = at_least value target;
  value = value;
  coins = coins;
  selected = selected;
}
select_from (coin ∷ more) target value coins selected =
    let value' = value +ℤ coin.value in
    let coins' = coins ++ (coin ∷ []) in
    let selected' = insert_outpoint (input_coin coin) selected in
    let rest = select_from more target value' coins' selected' in
    if at_least value' target
    then record { enough = true; value = value'; coins = coins'; selected = selected' }
    else rest

unfoldable pub select_coins : ℤ → Wallet → Selection
unfolding select_from available_coins
select_coins target w = select_from (available_coins w) target (pos 0) [] []
