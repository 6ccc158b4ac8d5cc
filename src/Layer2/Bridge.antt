-- ===== src/Layer2/Bridge.antt =====
-- The class BHTEBridge of BHTWalletPro/src/layer2/layer2_client.cpp. Connect is an argument, as the
-- exchange of requests is.
pub mod Idle
use bht_bhte.Prelude.{
  codes, ℕ, suc, Bool, true, false, not, Option, none, some, List, [], ◌∷◌, ◌++◌, if◌then◌else◌,
  bytes_eq,
}
use bht_bhte.Layer2.Client.{
  Client, Http, Outcome, threw, refused, answered, hex_bytes, deposit_to_layer2,
}
use bht_bhte.Layer2.Fill.{Filled}
use bht_bhte.Layer2.Transactions.{BhteTransaction}
use bht_bhte.Layer2.History.{Unset, declared, get_transaction_history}
use bht_bhte.Layer2.Blocks.{BhteBlock, get_latest_block}

-- A client is made with eight random bytes.
abbrev pub new_client : List ℕ → Client
new_client random = record {
  connected = false;
  endpoint = codes "http://localhost:8545";
  rpc_id_prefix = hex_bytes random;
  last_error = [];
}

pub record Bridge : Type 0 where
  pub running : Bool
  pub bridge_fee : ℕ
  pub confirmation_blocks : ℕ
  pub layer1_endpoint : List ℕ
  pub layer2_endpoint : List ℕ
  -- The clients of the two layers: the code makes both at once.
  pub clients : Option (Client × Client)
  pub pending_deposits : List (List ℕ)
  pub pending_withdrawals : List (List ℕ)
  pub last_error : List ℕ

abbrev pub new_bridge : Bridge
new_bridge = record {
  running = false;
  bridge_fee = 100;
  confirmation_blocks = 12;
  layer1_endpoint = [];
  layer2_endpoint = [];
  clients = none;
  pending_deposits = [];
  pending_withdrawals = [];
  last_error = [];
}

abbrev pub start_bridge_service : Bridge → Bridge × Bool
start_bridge_service b = if b.running then (b, true) else (record b { running = true }, true)

abbrev pub stop_bridge_service : Bridge → Bridge
stop_bridge_service b = record b { running = false }

-- The second connection, and what Initialize answers.
abbrev connect_second : Bridge → Client → Client × Bool → Bridge × Bool
connect_second b c1 (c2, true) = (record b { clients = some (c1, c2) }, true)
connect_second b c1 (c2, false) = (
  record b {
    clients = some (c1, c2);
    last_error = codes "Failed to connect to L2: " ++ c2.last_error;
  },
  false,
)

abbrev connect_first : Bridge → Client → Client × Bool → (Client → Client × Bool) → Bridge × Bool
connect_first b c2 (c1, true) second = connect_second b c1 (second c2)
connect_first b c2 (c1, false) second = (
  record b {
    clients = some (c1, c2);
    last_error = codes "Failed to connect to L1: " ++ c1.last_error;
  },
  false,
)

-- Both clients have the prefix of the one that is made last: it is a static member.
unfoldable pub initialize :
    (List ℕ → Client → Client × Bool) → List ℕ → List ℕ → List ℕ → Bridge → Bridge × Bool
initialize connect random layer1 layer2 b =
    let c = new_client random in
    connect_first (record b { layer1_endpoint = layer1; layer2_endpoint = layer2 }) c
      (connect layer1 c) (connect layer2)

-- False before Initialize has made the clients.
abbrev with_clients :
    Bridge
    → (Client → Client → Bridge × Outcome (Unit {0}))
    → Option (Client × Client)
    → Bridge × Outcome (Unit {0})
with_clients b f none = (b, refused)
with_clients b f (some (c1, c2)) = f c1 c2

module _ (post : List ℕ → List ℕ → Http) where
  -- The loop over the deposits from place i on, over the client of layer 2 and the pending deposits.
  unfoldable pub deposit_all :
      (ℕ → ℕ)
      → ℕ
      → List BhteTransaction
      → Client
      → List (List ℕ)
      → (Client × List (List ℕ)) × Outcome (Unit {0})
  unfolding deposit_to_layer2
  deposit_all time i [] c pending = ((c, pending), answered tt)
  deposit_all time i (tx ∷ txs) c pending = elim (bytes_eq tx.status (codes "confirmed")) [
    | false ↦ deposit_all time (suc i) txs c pending
    | true ↦
        let (c', out) = deposit_to_layer2 post (time i) tx.txid tx.to tx.amount [] c in
        elim out [
          | threw ↦ ((c', pending), threw)
          | refused ↦ deposit_all time (suc i) txs c' pending
          | answered id ↦ deposit_all time (suc i) txs c' (pending ++ (id ∷ []))
        ]
  ]

  abbrev with_deposits :
      Client → Bridge → (Client × List (List ℕ)) × Outcome (Unit {0}) → Bridge × Outcome (Unit {0})
  with_deposits c1 b ((c2, pending), out) =
      (record b { clients = some (c1, c2); pending_deposits = pending }, out)

  unfoldable deposits_from :
      (ℕ → ℕ)
      → Client
      → Bridge
      → Client × Filled (List BhteTransaction)
      → Bridge × Outcome (Unit {0})
  unfolding deposit_all
  deposits_from time c2 b (c1, (txs, threw)) = (record b { clients = some (c1, c2) }, threw)
  deposits_from time c2 b (c1, (txs, refused)) = (record b { clients = some (c1, c2) }, refused)
  deposits_from time c2 b (c1, (txs, answered u)) =
      with_deposits c1 b (deposit_all time 0 txs c2 b.pending_deposits)

  -- `times` are those of the history's requests, `time` gives those of the deposits.
  unfoldable pub process_deposits :
      ℕ × ℕ → (ℕ → ℕ) → (ℕ → Unset) → Bridge → Bridge × Outcome (Unit {0})
  unfolding deposits_from get_transaction_history
  process_deposits times time left b =
      if not b.running
      then (b, refused)
      else with_clients b
          (λ c1 c2.
            deposits_from time c2 b
              (get_transaction_history post times left (codes "bridge_address") 0 50 [] c1))
          b.clients

-- submitWithdrawalToL1 answers true whatever it is given.
abbrev pub submit_withdrawal_to_l1 : BhteTransaction → Bool
submit_withdrawal_to_l1 withdrawal = true

unfoldable pub withdraw_all : List BhteTransaction → List (List ℕ) → List (List ℕ)
withdraw_all [] pending = pending
withdraw_all (tx ∷ txs) pending = elim (bytes_eq tx.status (codes "confirmed")) [
  | false ↦ withdraw_all txs pending
  | true ↦ elim (submit_withdrawal_to_l1 tx) [
    | true ↦ withdraw_all txs (pending ++ (tx.txid ∷ []))
    | false ↦ withdraw_all txs pending
  ]
]

unfoldable pub withdrawals_from :
    Client → Bridge → Client × Filled (List BhteTransaction) → Bridge × Outcome (Unit {0})
unfolding withdraw_all
withdrawals_from c1 b (c2, (txs, threw)) = (record b { clients = some (c1, c2) }, threw)
withdrawals_from c1 b (c2, (txs, refused)) = (record b { clients = some (c1, c2) }, refused)
withdrawals_from c1 b (c2, (txs, answered u)) = (
  record b {
    clients = some (c1, c2);
    pending_withdrawals = withdraw_all txs b.pending_withdrawals;
  },
  answered tt,
)

module _ (post : List ℕ → List ℕ → Http) where
  unfoldable pub process_withdrawals : ℕ × ℕ → (ℕ → Unset) → Bridge → Bridge × Outcome (Unit {0})
  unfolding get_transaction_history withdrawals_from
  process_withdrawals times left b =
      if not b.running
      then (b, refused)
      else with_clients b
          (λ c1 c2.
            withdrawals_from c1 b
              (get_transaction_history post times left (codes "bridge_address") 0 50 [] c2))
          b.clients

abbrev synced_second : Client → Bridge → Client × Filled BhteBlock → Bridge × Outcome (Unit {0})
synced_second c1 b (c2, (block, out)) = (record b { clients = some (c1, c2) }, out)

abbrev synced_first :
    (Client → Client × Filled BhteBlock)
    → Client
    → Bridge
    → Client × Filled BhteBlock
    → Bridge × Outcome (Unit {0})
synced_first second c2 b (c1, (block, answered u)) = synced_second c1 b (second c2)
synced_first second c2 b (c1, (block, refused)) = (record b { clients = some (c1, c2) }, refused)
synced_first second c2 b (c1, (block, threw)) = (record b { clients = some (c1, c2) }, threw)

-- syncBlockHeaders forgets the two blocks, which are declared with the values `block1` and `block2`.
unfoldable pub sync_block_headers :
    (List ℕ → List ℕ → Http)
    → ℕ × ℕ
    → ℕ × ℕ
    → ℕ × ℕ
    → BhteBlock
    → BhteBlock
    → Bridge
    → Bridge × Outcome (Unit {0})
unfolding get_latest_block
sync_block_headers post times1 times2 now block1 block2 b =
    with_clients b
      (λ c1 c2.
        synced_first (get_latest_block post times2 now.1 block2) c2 b
          (get_latest_block post times1 now.0 block1 c1))
      b.clients

-- The pending transactions from place i on.
unfoldable pub pending_transactions : (ℕ → Unset) → ℕ → List (List ℕ) → List BhteTransaction
pending_transactions left i [] = []
pending_transactions left i (id ∷ ids) =
    record (declared (left i)) { txid = id; status = codes "pending" }
    ∷ pending_transactions left (suc i) ids

unfoldable pub get_pending_deposits : (ℕ → Unset) → Bridge → List BhteTransaction × Bool
unfolding pending_transactions
get_pending_deposits left b = (pending_transactions left 0 b.pending_deposits, true)

unfoldable pub get_pending_withdrawals : (ℕ → Unset) → Bridge → List BhteTransaction × Bool
unfolding pending_transactions
get_pending_withdrawals left b = (pending_transactions left 0 b.pending_withdrawals, true)

-- The proof is emptied, and the answer is true.
abbrev pub verify_deposit_proof : List ℕ → List ℕ → List ℕ × Bool
verify_deposit_proof layer1_txid proof = ([], true)

abbrev pub submit_withdrawal_proof : List ℕ → List ℕ → Bool
submit_withdrawal_proof withdrawal_id proof = true
