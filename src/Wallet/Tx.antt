-- ===== src/Wallet/Tx.antt =====
-- The transactions of BHTWalletPro/src/wallet/types.h: CScript, COutPoint, TxIn, TxOut,
-- CTransaction, CWalletTx, Coin and COutput. Amounts are integers without an upper bound; the
-- version is the unsigned reading of its four bytes.
use bht_bhte.Prelude.{
  codes, ℕ, bit_xor, Bool, true, false, ◌&&◌, Option, none, List, [], ◌∷◌, ◌++◌, map, ltb, ◌==◌,
  if◌then◌else◌, length, take, replicate, bytes_eq,
}
use bht_bhte.Prelude.Int.{ℤ, pos}
use bht_bhte.Prelude.Radix.{digits}
use bht_bhte.Wallet.{bytes_lt}
use bht_bhte.Wallet.Keys.{blank_id}

-- uint256::IsNull looks at 8 of the 32 bytes.
abbrev is_null : List ℕ → Bool
is_null hash = bytes_eq (take 8 hash) (replicate 8 0)

-- CScript::GetID.
unfoldable pub script_id : List ℕ → List ℕ
script_id script = if length script == 20 then script else blank_id

pub record OutPoint : Type 0 where
  pub hash : List ℕ
  pub n : ℕ

abbrev pub outpoint_eq : OutPoint → OutPoint → Bool
outpoint_eq a b = bytes_eq a.hash b.hash && (a.n == b.n)

abbrev pub outpoint_lt : OutPoint → OutPoint → Bool
outpoint_lt a b =
    if bytes_lt a.hash b.hash then true else if bytes_eq a.hash b.hash then ltb a.n b.n else false

pub record TxIn : Type 0 where
  pub prevout : OutPoint
  pub script_sig : List ℕ
  pub sequence : ℕ

pub record TxOut : Type 0 where
  pub value : ℤ
  pub script_pub_key : List ℕ

pub record Transaction : Type 0 where
  pub version : ℕ
  pub vin : List TxIn
  pub vout : List TxOut
  pub locktime : ℕ

-- GetHash: the bytes of the version, inverted, and zeros.
unfoldable pub tx_hash : Transaction → List ℕ
tx_hash tx = map (λ b. bit_xor b 0xFF) (digits 256 4 tx.version) ++ replicate 28 0

unfoldable pub is_coin_base : Transaction → Bool
is_coin_base tx = elim tx.vin [
  | [] ↦ false
  | i ∷ more ↦ (length more == 0) && is_null i.prevout.hash && (i.prevout.n == 0xFFFFFFFF)
]

pub record WalletTx : Type 0 where
  pub hash : List ℕ
  pub time : ℕ
  pub credit : ℤ
  pub debit : ℤ
  pub fee : ℤ
  pub order_pos : ℤ
  pub confirmations : ℤ
  pub status : List ℕ
  pub tx : Option Transaction

-- The status is the word "unknown".
abbrev pub wallet_tx : WalletTx
wallet_tx = record {
  hash = replicate 32 0;
  time = 0;
  credit = pos 0;
  debit = pos 0;
  fee = pos 0;
  order_pos = pos 0;
  confirmations = pos 0;
  status = codes "unknown";
  tx = none;
}

pub record Coin : Type 0 where
  pub out : TxOut
  pub height : ℕ
  pub coin_base : Bool

pub record Output : Type 0 where
  pub tx : Option Transaction
  pub i : ℕ
  pub value : ℤ
