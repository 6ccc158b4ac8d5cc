-- ===== src/Layer2/History.antt =====
-- GetTransactionHistory of BHTWalletPro/src/layer2/layer2_client.cpp.
pub mod Blank
use bht_bhte.Prelude.{
  codes, ℕ, zero, suc, Bool, true, false, not, Option, none, some, List, [], ◌∷◌, ◌++◌,
  if◌then◌else◌, length, take,
}
use bht_bhte.Hardware.Path.{decimal}
use bht_bhte.Wallet.{ByteMap, find}
use bht_bhte.Layer2.Json.{parse_json_response, parse_hex_to_uint64, find_text, cut}
use bht_bhte.Layer2.Words.{from_open, array_open, next_field}
use bht_bhte.Layer2.Client.{
  Client, Http, threw, refused, answered, hex, send_rpc_request, send_either,
}
use bht_bhte.Layer2.Fill.{Filled, with_fields, fill_response}
use bht_bhte.Layer2.Transactions.{BhteTransaction}

-- The numbers of a transaction that its declaration leaves unset.
pub record Unset : Type 0 where
  pub amount : ℕ
  pub fee : ℕ
  pub nonce : ℕ
  pub block_number : ℕ
  pub timestamp : ℕ

-- A transaction as it is declared, its texts empty.
abbrev pub declared : Unset → BhteTransaction
declared u = record {
  txid = [];
  from = [];
  to = [];
  amount = u.amount;
  fee = u.fee;
  nonce = u.nonce;
  status = [];
  block_number = u.block_number;
  timestamp = u.timestamp;
  memo = [];
  input_data = [];
}

abbrev up_to_quote : List ℕ → List ℕ
up_to_quote s = elim (cut 34 s) [ none ↦ s | some (a, b) ↦ a ]

-- What is behind the first colon; all of the object where there is none, as npos + 1 is 0.
abbrev after_colon : List ℕ → List ℕ → List ℕ
after_colon obj s = elim (cut 58 s) [ none ↦ obj | some (a, b) ↦ b ]

-- The text between the two quotes behind the mark of a field.
abbrev quoted_field : List ℕ → List ℕ → Option (List ℕ)
quoted_field mark obj = elim (find_text mark obj) [
  | none ↦ none
  | some s ↦ elim (cut 34 (after_colon obj s)) [
    | none ↦ some (up_to_quote obj)
    | some (a, b) ↦ some (up_to_quote b)
  ]
]

abbrev put_from : Option (List ℕ) → BhteTransaction → BhteTransaction
put_from none tx = tx
put_from (some s) tx = record tx { from = s }

abbrev put_to : Option (List ℕ) → BhteTransaction → BhteTransaction
put_to none tx = tx
put_to (some s) tx = record tx { to = s }

abbrev put_amount : BhteTransaction → Option ℕ → Option BhteTransaction
put_amount tx none = none
put_amount tx (some n) = some (record tx { amount = n })

-- The number in the twenty characters behind the colon; `none` is an exception.
abbrev amount_at : List ℕ → BhteTransaction → Option (List ℕ) → Option BhteTransaction
amount_at obj tx none = some tx
amount_at obj tx (some s) = put_amount tx (parse_hex_to_uint64 (take 20 (after_colon obj s)))

abbrev read_amount : List ℕ → BhteTransaction → Option BhteTransaction
read_amount obj tx = amount_at obj tx (find_text (codes "\"value\"") obj)

unfoldable pub read_transaction : Unset → List ℕ → Option BhteTransaction
unfolding parse_hex_to_uint64
read_transaction u obj = read_amount obj (
    put_to (quoted_field (codes "\"to\"") obj)
      (put_from (quoted_field (codes "\"from\"") obj) (declared u)))

abbrev History : Type 0
History = List BhteTransaction

-- What is before a bracket and behind it; without it the loop ends.
abbrev at_bracket :
    History → (List ℕ → List ℕ → Filled History) → Option (List ℕ × List ℕ) → Filled History
at_bracket history next none = (history, answered tt)
at_bracket history next (some (before, rest)) = next before rest

abbrev push_next : History → (History → Filled History) → Option BhteTransaction → Filled History
push_next history next none = (history, threw)
push_next history next (some tx) = next (history ++ (tx ∷ []))

-- The loop over the objects, after those in `history`; an object takes at least two characters, so
-- the length of the text is enough turns.
unfoldable pub read_transactions : (ℕ → Unset) → ℕ → List ℕ → History → Filled History
unfolding read_transaction
read_transactions left zero s history = (history, answered tt)
read_transactions left (suc turns) s history =
    at_bracket history
      (λ before t.
        at_bracket history
          (λ inner rest.
            push_next history (read_transactions left turns rest)
              (read_transaction (left (length history)) (123 ∷ (inner ++ (125 ∷ [])))))
          (cut 125 t))
      (cut 123 s)

abbrev history_from : (ℕ → Unset) → History → Option (List ℕ) → Filled History
history_from left history none = (history, answered tt)
history_from left history (some s) = read_transactions left (length s) s history

abbrev read_history : (ℕ → Unset) → ByteMap (List ℕ) → History → Filled History
read_history left m history = history_from left history (find m (codes "transactions"))

-- The quote before the one of "limit" stands in the source.
abbrev history_params : List ℕ → ℕ → ℕ → List ℕ
history_params address from_block limit =
    codes "[{"
    ++ (from_open
        ++ (address
            ++ (next_field
                ++ (codes "\"startBlock\":\"0x"
                    ++ (hex from_block
                        ++ (next_field
                            ++ (codes "\"endBlock\":\"latest\",\" \"limit\":"
                                ++ (decimal limit ++ codes "}]"))))))))

module _ (post : List ℕ → List ℕ → Http) where
  -- The request of the node, and where it fails the one of Ethereum's logs.
  abbrev history_request : ℕ × ℕ → List ℕ → ℕ → ℕ → Client → Client × Option (List ℕ)
  history_request times address from_block limit c =
      send_either post times
        (codes "bhte_getTransactionsByAddress", history_params address from_block limit)
        (
          codes "eth_getLogs",
          array_open ++ (address ++ (codes "\", " ++ (decimal limit ++ (93 ∷ [])))),
        )
        c

  -- `left` gives the unset numbers of the transaction at each place of the history.
  unfoldable pub get_transaction_history :
      ℕ × ℕ → (ℕ → Unset) → List ℕ → ℕ → ℕ → History → Client → Client × Filled History
  unfolding send_rpc_request parse_json_response read_transactions
  get_transaction_history times left address from_block limit history c =
      if not c.connected
      then (c, (history, refused))
      else fill_response (with_fields (read_history left)) []
          (history_request times address from_block limit c)
