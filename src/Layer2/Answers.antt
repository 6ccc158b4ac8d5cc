-- ===== src/Layer2/Answers.antt =====
-- What Layer2Client of BHTWalletPro/src/layer2/layer2_client.cpp makes of an answer whose result is a
-- text, the form in which a node gives a number.
use bht_bhte.Prelude.{
  ℕ, ◌≡◌, refl, ap, ◌∙◌, Bool, true, false, not, ◌&&◌, ◌||◌, arith, Option, none, some, List, [],
  ◌∷◌, ◌++◌, ◌==◌, if◌then◌else◌, All,
}
use bht_bhte.Wallet.{ByteMap}
use bht_bhte.Layer2.Json.{
  parse_json_response, parse_hex_to_uint64, until, value_key, drop_prefix, read_prefixed,
  result_mark, starts_with, find_text, cut, skip, is_blank,
}
use bht_bhte.Layer2.Client.{
  Client, Http, responded, Outcome, threw, read_either, read_only, latest, only, call_params,
  build_json_rpc_request, send_rpc_request, retry, send_either, read_response, get_balance,
  get_nonce, get_gas_price, get_chain_id, call_contract, refused,
}
use bht_bhte.Layer2.Words.{
  balance_key, nonce_key, eth_get_balance, bhte_get_balance, eth_get_transaction_count,
  bhte_get_nonce, eth_gas_price, bhte_gas_price, eth_chain_id, bhte_chain_id, empty_params,
  eth_call,
}

-- A space or the end of a line.
abbrev IsBlank : ℕ → Type 0
IsBlank c = is_blank c ≡ true

-- Whether the mark stands nowhere in `before ++ tail` ahead of the tail.
abbrev is_ahead : List ℕ → List ℕ → List ℕ → Bool
is_ahead mark tail [] = true
is_ahead mark tail (c ∷ cs) = not (starts_with mark (c ∷ (cs ++ tail))) && is_ahead mark tail cs

-- An answer whose result is a text: the first "result" in it is followed by blanks, a colon, blanks
-- and a quote. What else the answer holds, and what the text is, is left open.
abbrev pub IsTextAnswer : List ℕ → Type 0
IsTextAnswer body =
    (before : List ℕ) × (gap : List ℕ) × (blanks : List ℕ) × (rest : List ℕ) × (let tail =
        result_mark ++ (gap ++ (58 ∷ (blanks ++ (34 ∷ rest)))) in
      (body ≡ before ++ tail) × (is_ahead result_mark tail before ≡ true))
    × All IsBlank gap
    × All IsBlank blanks

find-ahead :
    (before x : List ℕ)
    → is_ahead result_mark (result_mark ++ x) before ≡ true
    → find_text result_mark (before ++ (result_mark ++ x)) ≡ some (result_mark ++ x)
find-ahead [] x h = refl
find-ahead (c ∷ cs) x h =
    let here : starts_with result_mark (c ∷ (cs ++ (result_mark ++ x))) ≡ false = ground arith in
    let later : is_ahead result_mark (result_mark ++ x) cs ≡ true = ground arith in
    rw (find_text, here) (find-ahead cs x later)

abbrev IsNoColon : ℕ → Type 0
IsNoColon c = (c == 58) ≡ false

cut-colon : (gap x : List ℕ) → All IsNoColon gap → cut 58 (gap ++ (58 ∷ x)) ≡ some (gap, x)
cut-colon [] x h = refl
cut-colon (c ∷ cs) x (h, hs) = rw (cut, h, cut-colon cs x hs) refl

blank-IsNoColon : (gap : List ℕ) → All IsBlank gap → All IsNoColon gap
blank-IsNoColon [] h = tt
blank-IsNoColon (c ∷ cs) (h, hs) = (ground arith, blank-IsNoColon cs hs)

skip-blanks : (blanks x : List ℕ) → All IsBlank blanks → skip is_blank (blanks ++ (34 ∷ x)) ≡ 34 ∷ x
skip-blanks [] x h = refl
skip-blanks (c ∷ cs) x (h, hs) = rw (skip, h) (skip-blanks cs x hs)

-- The fields of such an answer: a value that begins with the quote.
abbrev quoted : List ℕ → ByteMap (List ℕ)
quoted x = (value_key, 34 ∷ x) ∷ []

parse-text_answer :
    (body : List ℕ)
    → IsTextAnswer body
    → (x : List ℕ) × (parse_json_response body ≡ (some (quoted x), none))
unfolding parse_json_response
parse-text_answer body (before, gap, blanks, rest, (e, first), gap_blank, blanks_blank) =
    let found = find-ahead before (gap ++ (58 ∷ (blanks ++ (34 ∷ rest)))) first in
    let value = cut-colon gap (blanks ++ (34 ∷ rest)) (blank-IsNoColon gap gap_blank) in
    (
      (until (λ d. (d == 44) || (d == 125)) rest).0,
      rw (e, parse_json_response, found, value, skip-blanks blanks rest blanks_blank) refl,
    )

drop_prefix-quote : (s : List ℕ) → drop_prefix (34 ∷ s) ≡ 34 ∷ s
drop_prefix-quote [] = refl
drop_prefix-quote (c ∷ cs) = refl

read_prefixed-quote : (s : List ℕ) → read_prefixed false (34 ∷ s) ≡ none
read_prefixed-quote [] = refl
read_prefixed-quote (c ∷ []) = refl
read_prefixed-quote (c ∷ d ∷ cs) = refl

parse-quote : (s : List ℕ) → parse_hex_to_uint64 (34 ∷ s) ≡ none
unfolding parse_hex_to_uint64
parse-quote s = rw (drop_prefix-quote s) (read_prefixed-quote s)

connected_goes {ℓ} : {A : Type ℓ} (b : Bool) (x y : A) → b ≡ true → (if not b then x else y) ≡ y
connected_goes b x y on = rw on refl

only_throws : (x : List ℕ) → read_only (quoted x) ≡ threw
only_throws x = rw (read_only, parse-quote) refl

balance_throws : (x : List ℕ) → read_either balance_key (quoted x) ≡ threw
balance_throws x = rw (read_either, parse-quote) refl

nonce_throws : (x : List ℕ) → read_either nonce_key (quoted x) ≡ threw
nonce_throws x = rw (read_either, parse-quote) refl

module _ (post : List ℕ → List ℕ → Http) (c : Client) (on : c.connected ≡ true)
    (answers : (time : ℕ) (method params : List ℕ)
      → (r : List ℕ) × (post c.endpoint (build_json_rpc_request c.rpc_id_prefix time method params)
          ≡ responded 200 r)
        × IsTextAnswer r) where
  -- What a request gives: an answer of that kind, and the client as it was.
  abbrev IsAnswered : Client × Option (List ℕ) → Type 0
  IsAnswered r = (body : List ℕ) × (r ≡ (c, some body)) × IsTextAnswer body

  sent :
      (time : ℕ) (method params : List ℕ) → IsAnswered (send_rpc_request post time method params c)
  unfolding send_rpc_request
  sent time method params =
      let (body, e, text) = answers time method params in
      (body, connected_goes c.connected _ _ on ∙ rw e refl, text)

  either :
      (times : ℕ × ℕ) (first second : List ℕ × List ℕ)
      → IsAnswered (send_either post times first second c)
  either times first second =
      let (body, e, text) = sent times.0 first.0 first.1 in
      (body, ap (retry (send_rpc_request post times.1 second.0 second.1)) e, text)

  outcome :
      (read : ByteMap (List ℕ) → Outcome ℕ) (r : Client × Option (List ℕ))
      → ((x : List ℕ) → read (quoted x) ≡ threw)
      → IsAnswered r
      → (if not c.connected then (c, refused) else read_response read r) ≡ (c, threw)
  outcome read r h (body, e, text) =
      let (x, fields) = parse-text_answer body text in
      connected_goes c.connected _ _ on
      ∙ ap (read_response read) e
      ∙ rw (read_response, fields) (ap (λ o. (c, o)) (h x))

  -- With a connected client and a node that answers each of its requests with the status 200 and a body in
  -- which the first "result" is followed by blanks, a colon, blanks and a quote, as the result of a
  -- text is, GetBalance, GetNonce, GetGasPrice, GetChainId and CallContract throw.
  pub get_balance_throws :
      (times : ℕ × ℕ) (address from to payload : List ℕ)
      → (get_balance post times address c ≡ (c, threw))
        × (get_nonce post times address c ≡ (c, threw))
        × (get_gas_price post times c ≡ (c, threw))
        × (get_chain_id post times c ≡ (c, threw))
        × (call_contract post times.0 from to payload c ≡ (c, threw))
  unfolding get_balance get_nonce get_gas_price get_chain_id call_contract
  get_balance_throws times address from to payload = (
    outcome (read_either balance_key) _ balance_throws
        (either times (eth_get_balance, latest address) (bhte_get_balance, only address)),
    outcome (read_either nonce_key) _ nonce_throws
        (either times (eth_get_transaction_count, latest address) (bhte_get_nonce, only address)),
    outcome read_only _ only_throws
        (either times (eth_gas_price, empty_params) (bhte_gas_price, empty_params)),
    outcome read_only _ only_throws
        (either times (eth_chain_id, empty_params) (bhte_chain_id, empty_params)),
    outcome read_only _ only_throws (sent times.0 eth_call (call_params from to payload)),
  )
