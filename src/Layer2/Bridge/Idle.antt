-- ===== src/Layer2/Bridge/Idle.antt =====
-- What the deposits and the withdrawals of BHTEBridge, in
-- BHTWalletPro/src/layer2/layer2_client.cpp, come to: GetTransactionHistory gives no transaction a
-- status.
use bht_bhte.Prelude.{
  codes, ℕ, suc, ◌≡◌, refl, ap, ◌∙◌, Bool, true, false, not, Option, none, some, List, [], ◌∷◌,
  if◌then◌else◌, bytes_eq, All, foldl,
}
use bht_bhte.Layer2.Client.{Client, Http, Outcome, threw, refused, answered}
use bht_bhte.Layer2.Fill.{Filled}
use bht_bhte.Layer2.Transactions.{BhteTransaction}
use bht_bhte.Layer2.History.{Unset}
use bht_bhte.Layer2.History.Blank.{IsBlank, get_transaction_history-IsBlank}
use bht_bhte.Layer2.Bridge.{
  Bridge, new_bridge, new_client, start_bridge_service, stop_bridge_service, initialize,
  deposit_all, process_deposits, withdraw_all, process_withdrawals, deposits_from, withdrawals_from,
  connect_first, connect_second, with_clients, get_pending_deposits, get_pending_withdrawals,
  pending_transactions,
}

blank-confirmed :
    (tx : BhteTransaction) → IsBlank tx → bytes_eq tx.status (codes "confirmed") ≡ false
blank-confirmed tx h = ap (λ s. bytes_eq s (codes "confirmed")) h

-- What the bridge has moved, or is moving.
abbrev pub Lists : Type 0
Lists = List (List ℕ) × List (List ℕ)

abbrev pub lists : Bridge → Lists
lists b = (b.pending_deposits, b.pending_withdrawals)

withdraw_all-blank :
    (txs : List BhteTransaction) (pending : List (List ℕ))
    → All IsBlank txs
    → withdraw_all txs pending ≡ pending
unfolding withdraw_all
withdraw_all-blank [] pending h = refl
withdraw_all-blank (tx ∷ txs) pending (h, hs) =
    rw (withdraw_all, blank-confirmed tx h) (withdraw_all-blank txs pending hs)

withdrawals_from-lists :
    (c1 : Client) (b : Bridge) (r : Client × Filled (List BhteTransaction))
    → All IsBlank r.1.0
    → lists (withdrawals_from c1 b r).0 ≡ lists b
unfolding withdrawals_from
withdrawals_from-lists c1 b (c2, (txs, threw)) h = refl
withdrawals_from-lists c1 b (c2, (txs, refused)) h = refl
withdrawals_from-lists c1 b (c2, (txs, answered u)) h =
    ap (λ l. (b.pending_deposits, l)) (withdraw_all-blank txs b.pending_withdrawals h)

module _ (post : List ℕ → List ℕ → Http) where
  deposit_all-blank :
      (time : ℕ → ℕ) (i : ℕ) (txs : List BhteTransaction) (c : Client) (pending : List (List ℕ))
      → All IsBlank txs
      → deposit_all post time i txs c pending ≡ ((c, pending), answered tt)
  unfolding deposit_all
  deposit_all-blank time i [] c pending h = refl
  deposit_all-blank time i (tx ∷ txs) c pending (h, hs) =
      rw (deposit_all, blank-confirmed tx h) (deposit_all-blank time (suc i) txs c pending hs)

  deposits_from-lists :
      (time : ℕ → ℕ) (c2 : Client) (b : Bridge) (r : Client × Filled (List BhteTransaction))
      → All IsBlank r.1.0
      → lists (deposits_from post time c2 b r).0 ≡ lists b
  unfolding deposits_from
  deposits_from-lists time c2 b (c1, (txs, threw)) h = refl
  deposits_from-lists time c2 b (c1, (txs, refused)) h = refl
  deposits_from-lists time c2 b (c1, (txs, answered u)) h =
      ap (λ s. (s.0.1, b.pending_withdrawals))
        (deposit_all-blank time 0 txs c2 b.pending_deposits h)

-- A call on a bridge, with what it is given from outside.
pub data Call : Type 0 where
  initialize_with : List ℕ → List ℕ → List ℕ → Call
  start : Call
  stop : Call
  deposits : ℕ × ℕ → (ℕ → ℕ) → (ℕ → Unset) → Call
  withdrawals : ℕ × ℕ → (ℕ → Unset) → Call

module _ (connect : List ℕ → Client → Client × Bool) (post : List ℕ → List ℕ → Http) where
  unfoldable pub step : Bridge → Call → Bridge
  unfolding initialize process_deposits process_withdrawals
  step b (initialize_with random layer1 layer2) = (initialize connect random layer1 layer2 b).0
  step b start = (start_bridge_service b).0
  step b stop = stop_bridge_service b
  step b (deposits times time left) = (process_deposits post times time left b).0
  step b (withdrawals times left) = (process_withdrawals post times left b).0

  connect_second-lists :
      (b : Bridge) (c1 : Client) (r : Client × Bool) → lists (connect_second b c1 r).0 ≡ lists b
  connect_second-lists b c1 (c2, true) = refl
  connect_second-lists b c1 (c2, false) = refl

  connect_first-lists :
      (b : Bridge) (c2 : Client) (r : Client × Bool) (second : Client → Client × Bool)
      → lists (connect_first b c2 r second).0 ≡ lists b
  connect_first-lists b c2 (c1, true) second = connect_second-lists b c1 (second c2)
  connect_first-lists b c2 (c1, false) second = refl

  guarded-lists :
      (b : Bridge) (running : Bool) (clients : Option (Client × Client))
      (f : Client → Client → Bridge × Outcome (Unit {0}))
      → ((c1 c2 : Client) → lists (f c1 c2).0 ≡ lists b)
      → lists
          (if◌then◌else◌ {A = Bridge × Outcome (Unit {0})}
            (not running)
            (b, refused)
            (with_clients b f clients)).0
        ≡ lists b
  guarded-lists b false clients f h = refl
  guarded-lists b true none f h = refl
  guarded-lists b true (some (c1, c2)) f h = h c1 c2

  started-lists :
      (b : Bridge) (running : Bool)
      → lists
          (if◌then◌else◌ {A = Bridge × Bool} running
            (b, true)
            (record b { running = true }, true)).0
        ≡ lists b
  started-lists b true = refl
  started-lists b false = refl

  step-lists : (b : Bridge) (call : Call) → lists (step b call) ≡ lists b
  unfolding step initialize process_deposits process_withdrawals
  step-lists b (initialize_with random layer1 layer2) =
      connect_first-lists (record b { layer1_endpoint = layer1; layer2_endpoint = layer2 })
        (new_client random) (connect layer1 (new_client random)) (connect layer2)
  step-lists b start = started-lists b b.running
  step-lists b stop = refl
  step-lists b (deposits times time left) = guarded-lists b b.running b.clients _ (λ c1 c2.
      deposits_from-lists post time c2 b _
        (get_transaction_history-IsBlank post times left (codes "bridge_address") 0 50 c1))
  step-lists b (withdrawals times left) = guarded-lists b b.running b.clients _ (λ c1 c2.
      withdrawals_from-lists c1 b _
        (get_transaction_history-IsBlank post times left (codes "bridge_address") 0 50 c2))

  run-lists : (b : Bridge) (calls : List Call) → lists (foldl step b calls) ≡ lists b
  run-lists b [] = refl
  run-lists b (call ∷ calls) = run-lists (step b call) calls ∙ step-lists b call

  pending_none :
      (left : ℕ → Unset) (b : Bridge)
      → lists b ≡ ([], [])
      → (get_pending_deposits left b ≡ ([], true)) × (get_pending_withdrawals left b ≡ ([], true))
  unfolding get_pending_deposits get_pending_withdrawals pending_transactions
  pending_none left b h = (
    ap (λ (l : Lists). (pending_transactions left 0 l.0, true)) h,
    ap (λ (l : Lists). (pending_transactions left 0 l.1, true)) h,
  )

  -- After any calls on a new bridge, whatever the connections and the nodes answer,
  -- GetPendingDeposits and GetPendingWithdrawals answer true with no transaction: ProcessDeposits and
  -- ProcessWithdrawals never move one.
  pub pending-run :
      (left : ℕ → Unset) (calls : List Call)
      → (get_pending_deposits left (foldl step new_bridge calls) ≡ ([], true))
        × (get_pending_withdrawals left (foldl step new_bridge calls) ≡ ([], true))
  pending-run left calls =
      pending_none left (foldl step new_bridge calls) (run-lists new_bridge calls)
