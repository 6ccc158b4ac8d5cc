-- ===== src/Wallet.antt =====
-- BHTWalletPro/src/wallet: keys and identifiers (types.h), the cipher of the master key
-- (crypter.h), the wallet (wallet.h and wallet.cpp) and its backup file. OpenSSL is a record of
-- functions; what a call draws at random is its argument. Strings and buffers are lists of bytes.
pub mod Keys
pub mod Crypter
pub mod Tx
pub mod Core
pub mod Signing
pub mod Backup
pub mod History
mod Examples
use bht_bhte.Prelude.{
  ℕ, ◌≡◌, refl, Bool, true, false, Option, none, some, List, [], ◌∷◌, map, ltb, ◌==◌, if◌then◌else◌,
  bytes_eq, Bool-cases, inl, inr, bytes_eq_refl, ap,
}

-- `hmac_sha512` is of a key and a message; `ecdsa_sign` of a private key and a hash.
pub record Openssl : Type 0 where
  pub sha256 : List ℕ → List ℕ
  pub ripemd160 : List ℕ → List ℕ
  pub hmac_sha512 : List ℕ → List ℕ → List ℕ
  pub ecdsa_sign : List ℕ → List ℕ → Option (List ℕ)

-- The order of memcmp on buffers of one length, and of std::vector otherwise.
abbrev pub bytes_lt : List ℕ → List ℕ → Bool
bytes_lt xs [] = false
bytes_lt [] (y ∷ ys) = true
bytes_lt (x ∷ xs) (y ∷ ys) =
    let rest = bytes_lt xs ys in if ltb x y then true else if x == y then rest else false

-- std::map with buffers as keys: its entries in order.
abbrev pub ByteMap {ℓ} : Type ℓ → Type ℓ
ByteMap V = List (List ℕ × V)

module _ {ℓ} {V : Type ℓ} where
  abbrev pub find : ByteMap V → List ℕ → Option V
  find [] k = none
  find ((k', v) ∷ m) k = let rest = find m k in if bytes_eq k k' then some v else rest

  abbrev pub insert : List ℕ → V → ByteMap V → ByteMap V
  insert k v [] = (k, v) ∷ []
  insert k v ((k', v') ∷ m) =
      let rest = insert k v m in
      if bytes_eq k k'
      then (k', v) ∷ m
      else if bytes_lt k k'
      then (k, v) ∷ (k', v') ∷ m
      else (k', v') ∷ rest

  pub find-insert : (k : List ℕ) (v : V) (m : ByteMap V) → find (insert k v m) k ≡ some v
  find-insert k v [] = rw (bytes_eq_refl k) refl
  find-insert k v ((k', v') ∷ m) = elim (Bool-cases (bytes_eq k k')) [
    | inl same ↦ rw (same, same) refl
    | inr differ ↦ elim (Bool-cases (bytes_lt k k')) [
      | inl before ↦ rw (differ, before, bytes_eq_refl k) refl
      | inr behind ↦ rw (differ, behind, differ) (find-insert k v m)
    ]
  ]

-- A map of values passes through an insertion.
pub insert-map {ℓ κ} :
    {V : Type ℓ} {W : Type κ} (f : V → W) (k : List ℕ) (v : V) (m : ByteMap V)
    → insert k (f v) (map (λ e. (e.0, f e.1)) m) ≡ map (λ e. (e.0, f e.1)) (insert k v m)
insert-map f k v [] = refl
insert-map f k v ((k', v') ∷ m) = elim (Bool-cases (bytes_eq k k')) [
  | inl same ↦ rw same refl
  | inr differ ↦ elim (Bool-cases (bytes_lt k k')) [
    | inl before ↦ rw (differ, before) refl
    | inr behind ↦ rw (differ, behind) (ap (◌∷◌ (k', f v')) (insert-map f k v m))
  ]
]
