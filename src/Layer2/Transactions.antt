-- ===== src/Layer2/Transactions.antt =====
-- GetTransaction and GetTransactionReceipt of BHTWalletPro/src/layer2/layer2_client.cpp.
use bht_bhte.Prelude.{
  codes, ℕ, Bool, true, not, ◌||◌, Option, none, some, List, [], ◌∷◌, ltb, if◌then◌else◌, length,
  drop, bytes_eq,
}
use bht_bhte.Wallet.{ByteMap, find}
use bht_bhte.Layer2.Json.{parse_json_response, parse_hex_to_uint64, trim_quotes}
use bht_bhte.Layer2.Client.{
  Client, Http, refused, answered, send_rpc_request, send_either, set_error, only,
}
use bht_bhte.Layer2.Fill.{
  Filled, Step, fill, assign, text_step, number_step, fill_response, push_hex,
}

pub record BhteTransaction : Type 0 where
  pub txid : List ℕ
  pub from : List ℕ
  pub to : List ℕ
  pub amount : ℕ
  pub fee : ℕ
  pub nonce : ℕ
  pub status : List ℕ
  pub block_number : ℕ
  pub timestamp : ℕ
  pub memo : List ℕ
  pub input_data : List ℕ

-- A block number that is not the text null.
abbrev block_step : Step BhteTransaction
block_step m tx = elim (find m (codes "blockNumber")) [
  | none ↦ (tx, true)
  | some s ↦
      if bytes_eq s (codes "null")
      then (tx, true)
      else number_step (codes "blockNumber") (λ n t. record t { block_number = n }) m tx
]

abbrev put_input : BhteTransaction → List ℕ × Bool → BhteTransaction × Bool
put_input tx (bytes, ok) = (record tx { input_data = bytes }, ok)

-- The bytes of the input are put behind those that `tx` holds.
unfoldable pub input_step : Step BhteTransaction
unfolding push_hex
input_step m tx = elim (find m (codes "input")) [
  | none ↦ (tx, true)
  | some s ↦
      if ltb 2 (length (trim_quotes s))
      then put_input tx (push_hex tx.input_data (drop 2 (trim_quotes s)))
      else (tx, true)
]

abbrev transaction_steps : List ℕ → List (Step BhteTransaction)
transaction_steps txid =
    assign (λ t. record t { txid = txid })
    ∷ text_step (codes "from") (λ s t. record t { from = s })
    ∷ text_step (codes "to") (λ s t. record t { to = s })
    ∷ number_step (codes "value") (λ n t. record t { amount = n })
    ∷ number_step (codes "gasPrice") (λ n t. record t { fee = n })
    ∷ number_step (codes "nonce") (λ n t. record t { nonce = n })
    ∷ block_step
    ∷ text_step (codes "status") (λ s t. record t { status = s })
    ∷ input_step
    ∷ []

-- A transaction that the node does not know is pending.
abbrev read_transaction_fields :
    List ℕ → Option (ByteMap (List ℕ)) → BhteTransaction → Filled BhteTransaction
read_transaction_fields txid none tx =
    (record tx { txid = txid; status = codes "pending" }, answered tt)
read_transaction_fields txid (some m) tx = fill (transaction_steps txid) m tx

abbrev receipt_status : Step BhteTransaction
receipt_status m tx = elim (find m (codes "status")) [
  | none ↦ (tx, true)
  | some s ↦ (
    record tx {
      status =
          if bytes_eq (trim_quotes s) (codes "0x1") || bytes_eq (trim_quotes s) (codes "1")
          then codes "confirmed"
          else codes "failed";
    },
    true,
  )
]

abbrev receipt_steps : List ℕ → List (Step BhteTransaction)
receipt_steps txid =
    assign (λ t. record t { txid = txid })
    ∷ receipt_status
    ∷ number_step (codes "blockNumber") (λ n t. record t { block_number = n })
    ∷ []

-- The fields of a receipt; without them, the other call.
abbrev read_receipt :
    (Client → Client × Filled BhteTransaction)
    → List ℕ
    → BhteTransaction
    → Client × Option (List ℕ)
    → Client × Filled BhteTransaction
read_receipt other txid tx (c, none) = (c, (tx, refused))
read_receipt other txid tx (c, some body) =
    let (fields, error) = parse_json_response body in
    elim fields [
      | none ↦ other (set_error error c)
      | some m ↦ (set_error error c, fill (receipt_steps txid) m tx)
    ]

module _ (post : List ℕ → List ℕ → Http) where
  unfoldable pub get_transaction :
      ℕ × ℕ → List ℕ → BhteTransaction → Client → Client × Filled BhteTransaction
  unfolding send_rpc_request parse_json_response parse_hex_to_uint64 input_step
  get_transaction times txid tx c =
      if not c.connected
      then (c, (tx, refused))
      else fill_response (read_transaction_fields txid) tx (
          send_either post times (codes "eth_getTransactionByHash", only txid)
            (codes "bhte_getTransaction", only txid) c)

  -- `again` are the times of the requests of GetTransaction.
  unfoldable pub get_transaction_receipt :
      ℕ × ℕ → ℕ × ℕ → List ℕ → BhteTransaction → Client → Client × Filled BhteTransaction
  unfolding send_rpc_request parse_json_response parse_hex_to_uint64 get_transaction
  get_transaction_receipt times again txid tx c =
      if not c.connected
      then (c, (tx, refused))
      else read_receipt (get_transaction again txid tx) txid tx (
          send_either post times (codes "eth_getTransactionReceipt", only txid)
            (codes "bhte_getTransactionReceipt", only txid) c)
