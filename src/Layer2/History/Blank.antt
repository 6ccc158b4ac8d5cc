-- ===== src/Layer2/History/Blank.antt =====
-- The transactions that GetTransactionHistory of BHTWalletPro/src/layer2/layer2_client.cpp gives have
-- no status.
use bht_bhte.Prelude.{
  codes, ℕ, zero, suc, Bool, true, false, ◌≡◌, refl, not, Option, none, some, List, [], ◌∷◌, ◌++◌,
  if◌then◌else◌, All, All-append, length,
}
use bht_bhte.Wallet.{ByteMap, find}
use bht_bhte.Layer2.Json.{cut, find_text, parse_json_response}
use bht_bhte.Layer2.Client.{Client, Http, refused}
use bht_bhte.Layer2.Fill.{Filled, with_fields, fill_response}
use bht_bhte.Layer2.Transactions.{BhteTransaction}
use bht_bhte.Layer2.History.{
  Unset, declared, put_from, put_to, put_amount, read_transaction, read_transactions, read_history,
  get_transaction_history, quoted_field, amount_at, at_bracket, push_next, History, history_from,
  history_request,
}

-- A transaction without a status.
abbrev pub IsBlank : BhteTransaction → Type 0
IsBlank tx = tx.status ≡ []

put_from-IsBlank :
    (s : Option (List ℕ)) (tx : BhteTransaction) → IsBlank tx → IsBlank (put_from s tx)
put_from-IsBlank none tx h = h
put_from-IsBlank (some s) tx h = h

put_to-IsBlank : (s : Option (List ℕ)) (tx : BhteTransaction) → IsBlank tx → IsBlank (put_to s tx)
put_to-IsBlank none tx h = h
put_to-IsBlank (some s) tx h = h

abbrev MayBeBlank : Option BhteTransaction → Type 0
MayBeBlank none = Unit {0}
MayBeBlank (some tx) = IsBlank tx

put_amount-IsBlank :
    (tx : BhteTransaction) (n : Option ℕ) → IsBlank tx → MayBeBlank (put_amount tx n)
put_amount-IsBlank tx none h = tt
put_amount-IsBlank tx (some n) h = h

amount_at-IsBlank :
    (obj : List ℕ) (tx : BhteTransaction) (s : Option (List ℕ))
    → IsBlank tx
    → MayBeBlank (amount_at obj tx s)
amount_at-IsBlank obj tx none h = h
amount_at-IsBlank obj tx (some s) h = put_amount-IsBlank tx _ h

read_transaction-IsBlank : (u : Unset) (obj : List ℕ) → MayBeBlank (read_transaction u obj)
unfolding read_transaction
read_transaction-IsBlank u obj = amount_at-IsBlank obj _ (find_text (codes "\"value\"") obj) (
    put_to-IsBlank (quoted_field (codes "\"to\"") obj) _
      (put_from-IsBlank (quoted_field (codes "\"from\"") obj) (declared u) refl))

at_bracket-IsBlank :
    (history : History) (next : List ℕ → List ℕ → Filled History) (o : Option (List ℕ × List ℕ))
    → All IsBlank history
    → ((before rest : List ℕ) → All IsBlank (next before rest).0)
    → All IsBlank (at_bracket history next o).0
at_bracket-IsBlank history next none h k = h
at_bracket-IsBlank history next (some (before, rest)) h k = k before rest

push_next-IsBlank :
    (history : History) (next : History → Filled History)
    → All IsBlank history
    → ((txs : History) → All IsBlank txs → All IsBlank (next txs).0)
    → (o : Option BhteTransaction) → MayBeBlank o
    → All IsBlank (push_next history next o).0
push_next-IsBlank history next h k none m = h
push_next-IsBlank history next h k (some tx) m =
    k (history ++ (tx ∷ [])) (All-append IsBlank history (tx ∷ []) h (m, tt))

read_transactions-IsBlank :
    (left : ℕ → Unset) (turns : ℕ) (s : List ℕ) (history : History)
    → All IsBlank history
    → All IsBlank (read_transactions left turns s history).0
unfolding read_transactions
read_transactions-IsBlank left zero s history h = h
read_transactions-IsBlank left (suc turns) s history h =
    at_bracket-IsBlank history _ (cut 123 s) h (λ before t.
      at_bracket-IsBlank history _ (cut 125 t) h (λ inner rest.
        push_next-IsBlank history (read_transactions left turns rest) h
          (read_transactions-IsBlank left turns rest)
          (read_transaction (left (length history)) (123 ∷ (inner ++ (125 ∷ []))))
          (read_transaction-IsBlank (left (length history)) (123 ∷ (inner ++ (125 ∷ []))))))

history_from-IsBlank :
    (left : ℕ → Unset) (s : Option (List ℕ)) → All IsBlank (history_from left [] s).0
history_from-IsBlank left none = tt
history_from-IsBlank left (some s) = read_transactions-IsBlank left (length s) s [] tt

fields-IsBlank :
    (left : ℕ → Unset) (m : Option (ByteMap (List ℕ)))
    → All IsBlank (with_fields (read_history left) m []).0
fields-IsBlank left none = tt
fields-IsBlank left (some m) = history_from-IsBlank left (find m (codes "transactions"))

filled-IsBlank :
    (left : ℕ → Unset) (r : Client × Option (List ℕ))
    → All IsBlank (fill_response (with_fields (read_history left)) [] r).1.0
filled-IsBlank left (c, none) = tt
filled-IsBlank left (c, some body) = fields-IsBlank left (parse_json_response body).0

guarded-IsBlank :
    (b : Bool) (x y : Client × Filled History)
    → All IsBlank x.1.0
    → All IsBlank y.1.0
    → All IsBlank (if not b then x else y).1.0
guarded-IsBlank true x y h k = k
guarded-IsBlank false x y h k = h

pub get_transaction_history-IsBlank :
    (post : List ℕ → List ℕ → Http) (times : ℕ × ℕ) (left : ℕ → Unset) (address : List ℕ)
    (from_block limit : ℕ) (c : Client)
    → All IsBlank (get_transaction_history post times left address from_block limit [] c).1.0
unfolding get_transaction_history
get_transaction_history-IsBlank post times left address from_block limit c =
    guarded-IsBlank c.connected (c, ([], refused)) _ tt
      (filled-IsBlank left (history_request post times address from_block limit c))
