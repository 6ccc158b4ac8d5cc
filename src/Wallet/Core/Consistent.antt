-- ===== src/Wallet/Core/Consistent.antt =====
-- The key maps of CWallet (BHTWalletPro/src/wallet/wallet.cpp).
use bht_bhte.Prelude.{
  ℕ, ◌≡◌, refl, sym, ap, ◌∙◌, subst, true, none, some, List, [], ◌∷◌, map, inl, inr, length, All,
  bytes_eq, bytes_eq→eq, Bool-cases, ==_iff, if◌then◌else◌,
}
use bht_bhte.Wallet.{Openssl, ByteMap, find, insert, insert-map, bytes_lt}
use bht_bhte.Wallet.Keys.{get_pub_key, get_id, is_valid, pub_is_valid}
use bht_bhte.Wallet.Core.{Wallet, add_key}

pub some-eq : (x y : List ℕ) → some x ≡ some y → x ≡ y
some-eq x y h = ap (λ o. elim o [ none ↦ x | some z ↦ z ]) h

module _ (env : Openssl) where
  -- A key of 32 bytes stands under the identifier of its public key.
  abbrev pub IsEntry : List ℕ × List ℕ → Type 0
  IsEntry e = (length e.1 ≡ 32) × (e.0 ≡ get_id env (get_pub_key e.1))

  -- And the public keys are those of the keys, under the same identifiers.
  pub record IsConsistent (w : Wallet) : Type 0 where
    pub entries : All IsEntry w.keys
    pub same : w.pubkeys ≡ map (λ e. (e.0, get_pub_key e.1)) w.keys

  pub All-insert :
      (id key : List ℕ) (m : ByteMap (List ℕ))
      → IsEntry (id, key)
      → All IsEntry m
      → All IsEntry (insert id key m)
  All-insert id key [] h hs = (h, tt)
  All-insert id key ((id', key') ∷ m) h (h', hs) = elim (Bool-cases (bytes_eq id id')) [
    | inl same ↦ rw same ((h.0, sym (bytes_eq→eq id id' same) ∙ h.1), hs)
    | inr differ ↦ elim (Bool-cases (bytes_lt id id')) [
      | inl before ↦ rw (differ, before) (h, (h', hs))
      | inr behind ↦ rw (differ, behind) (h', All-insert id key m h hs)
    ]
  ]

  valid-key : (key : List ℕ) → pub_is_valid (get_pub_key key) ≡ true → length key ≡ 32
  unfolding get_pub_key
  valid-key key h = elim (Bool-cases (is_valid key)) [
    | inl valid ↦ (==_iff (length key) 32).0 valid
    | inr invalid ↦
        let blank : get_pub_key key ≡ [] = rw invalid refl in
        absurd (cc (sym (ap pub_is_valid blank) ∙ h))
  ]

  pub add_key-IsConsistent :
      (key : List ℕ) (w : Wallet) → IsConsistent w → IsConsistent (add_key env key w).1
  unfolding add_key
  add_key-IsConsistent key w c = elim (Bool-cases (pub_is_valid (get_pub_key key))) [
    | inl valid ↦
        let id = get_id env (get_pub_key key) in
        rw valid (record {
          entries = All-insert id key w.keys (valid-key key valid, refl) c.entries;
          same = ap (insert id (get_pub_key key)) c.same ∙ insert-map get_pub_key id key w.keys;
        })
    | inr invalid ↦ rw invalid c
  ]

  pub All-find :
      (m : ByteMap (List ℕ)) (k v : List ℕ) → All IsEntry m → find m k ≡ some v → length v ≡ 32
  All-find [] k v hs h = absurd (cc h)
  All-find ((k', v') ∷ m) k v (h', hs) h = elim (Bool-cases (bytes_eq k k')) [
    | inl same ↦
        subst (λ t. length t ≡ 32)
          (some-eq v' v (sym (ap (λ t. if t then some v' else find m k) same) ∙ h)) h'.0
    | inr differ ↦ All-find m k v hs (sym (ap (λ t. if t then some v' else find m k) differ) ∙ h)
  ]
