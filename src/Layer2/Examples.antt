-- ===== src/Layer2/Examples.antt =====
-- Values on which the theorems are applied.
use bht_bhte.Prelude.{
  codes, ℕ, ◌≡◌, ◌↔◌, refl, Bool, true, false, some, none, foldl, List, [], ◌∷◌, arith, ◌<◌,
}
use bht_bhte.Layer2.Json.{parse_json_response, parse_hex_to_uint64, quantity, trim_quotes}
use bht_bhte.Layer2.Json.Quantity.{parse_hex_to_uint64-quantity}
use bht_bhte.Layer2.Client.{
  Client, Http, responded, threw, answered, generate_rpc_id, escape_json_string, get_balance,
  get_nonce, get_gas_price, get_chain_id, call_contract,
}
use bht_bhte.Layer2.Answers.{IsTextAnswer, get_balance_throws}
use bht_bhte.Layer2.Fill.{push_hex}
use bht_bhte.Layer2.Accounts.{BhteAccount, get_account}
use bht_bhte.Layer2.History.{Unset, declared, get_transaction_history}
use bht_bhte.Layer2.Bridge.{
  new_bridge, process_deposits, get_pending_deposits, get_pending_withdrawals,
}
use bht_bhte.Layer2.Bridge.Idle.{
  Call, initialize_with, start, deposits, withdrawals, step, pending-run,
}

abbrev client : Client
client = record { connected = true; endpoint = 104 ∷ []; rpc_id_prefix = 97 ∷ []; last_error = [] }

-- The text 0x1f as the answer to a request of this client at the time 1.
abbrev text_answer : List ℕ
text_answer = codes "{\"jsonrpc\":\"2.0\",\"id\":\"a_00000001\",\"result\": \"0x1f\"}"

abbrev answering : List ℕ → List ℕ → Http
answering endpoint body = responded 200 text_answer

text_answer-IsTextAnswer : IsTextAnswer text_answer
text_answer-IsTextAnswer = (
  codes "{\"jsonrpc\":\"2.0\",\"id\":\"a_00000001\",",
  [],
  32 ∷ [],
  codes "0x1f\"}",
  (refl, refl),
  tt,
  (refl, tt),
)

object_test :
    parse_json_response (codes "{\"result\":{\"n\":\"0\",\"a\":[1]}}")
    ≡ (some ((97 ∷ [], codes "[1]") ∷ (110 ∷ [], 48 ∷ []) ∷ []), none)
unfolding parse_json_response
object_test = refl

hex_test : parse_hex_to_uint64 (codes "0x1f ") ≡ some 31
unfolding parse_hex_to_uint64
hex_test = refl

trim_test : trim_quotes (codes "\"1\"") ≡ 49 ∷ []
trim_test = refl

rpc_id_test : generate_rpc_id (97 ∷ []) 171 ≡ codes "a_000000ab"
unfolding generate_rpc_id
rpc_id_test = refl

escape_test : escape_json_string (97 ∷ 10 ∷ 34 ∷ []) ≡ codes "a\\n\\\""
unfolding escape_json_string
escape_test = refl

parse_hex_to_uint64-quantity_example : (parse_hex_to_uint64 (quantity 250) ≡ some 250) ↔ (250 < 10)
parse_hex_to_uint64-quantity_example = parse_hex_to_uint64-quantity 250 (omega arith)

get_balance_throws_example :
    (get_balance answering (1, 2) (97 ∷ []) client ≡ (client, threw))
    × (get_nonce answering (1, 2) (97 ∷ []) client ≡ (client, threw))
    × (get_gas_price answering (1, 2) client ≡ (client, threw))
    × (get_chain_id answering (1, 2) client ≡ (client, threw))
    × (call_contract answering 1 (97 ∷ []) (98 ∷ []) [] client ≡ (client, threw))
get_balance_throws_example =
    get_balance_throws answering client refl
      (λ time method params. (text_answer, refl, text_answer-IsTextAnswer)) (1, 2) (97 ∷ [])
      (97 ∷ []) (98 ∷ []) []

-- The node of a bridge: one transaction, of 5 from a to b.
abbrev history_node : List ℕ → List ℕ → Http
history_node endpoint body =
    responded 200
      (codes "{\"result\":{\"transactions\":[{\"from\":\"a\",\"to\":\"b\",\"value\":0x5}]}}")

abbrev unset : ℕ → Unset
unset i = record { amount = 9; fee = 9; nonce = 9; block_number = 9; timestamp = 9 }

abbrev connecting : List ℕ → Client → Client × Bool
connecting endpoint c = (record c { connected = true; endpoint = endpoint }, true)

history_test : (get_transaction_history history_node (1, 2) unset (codes "c") 0 50 [] client).1 ≡ (
  record (declared (unset 0)) { from = codes "a"; to = codes "b"; amount = 5 } ∷ [],
  answered tt,
)
unfolding get_transaction_history
history_test = refl

abbrev account_node : List ℕ → List ℕ → Http
account_node endpoint body =
    responded 200 (
      codes
        "{\"result\":{\"balance\":0x10,\"isContract\":true,\"nonce\":\"x\",\"codeHash\":\"h\"}}")

abbrev account : BhteAccount
account = record {
  address = [];
  balance = 0;
  nonce = 0;
  tokens = [];
  is_contract = false;
  code_hash = [];
}

-- The balance is set before the nonce throws.
account_test :
    (get_account account_node 1 (codes "a") account client).1
    ≡ (record account { address = codes "a"; balance = 16 }, threw)
unfolding get_account
account_test = refl

push_hex_test : push_hex (7 ∷ []) (codes "0aff-1") ≡ (7 ∷ 10 ∷ 255 ∷ 255 ∷ [], true)
unfolding push_hex
push_hex_test = refl

-- The deposits of the history are passed over, and the answer is true.
abbrev calls : List Call
calls =
    initialize_with (1 ∷ []) (codes "l1") (codes "l2")
    ∷ start
    ∷ deposits (1, 2) (λ i. 3) unset
    ∷ withdrawals (4, 5) unset
    ∷ []

deposits_test :
    (process_deposits history_node
      (1, 2)
      (λ i. 3)
      unset
      (record new_bridge { running = true; clients = some (client, client) })).1
    ≡ answered tt
unfolding process_deposits
deposits_test = refl

pending-run_example :
    (get_pending_deposits unset (foldl (step connecting history_node) new_bridge calls)
      ≡ ([], true))
    × (get_pending_withdrawals unset (foldl (step connecting history_node) new_bridge calls)
        ≡ ([], true))
pending-run_example = pending-run connecting history_node unset calls
