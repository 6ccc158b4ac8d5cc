-- ===== src/Withdrawal/Escape/History.antt =====
-- Which state roots CEscapeHatchVerifier keeps, and what a proof is checked against.
use bht_bhte.Prelude.{
  ◌==◌, ◌&&◌, ◌||◌, All-take, ◌<◌, ℕ, suc, ◌-◌, ◌≤◌, ◌≡◌, refl, sym, ap, ◌∙◌, false, List, [], ◌∷◌,
  ◌++◌, arith, ltb, length, length-append, length-take, append_assoc, append-nil, take, drop, foldl,
  if◌then◌else◌, Bool-cases, inl, inr, ltb→lt, ltb→ge,
}
use bht_bhte.Prelude.Radix.{IsBelow, value}
use bht_bhte.Withdrawal.{L2StateRoot}
use bht_bhte.Withdrawal.Parse.{or_bytes}
use bht_bhte.Withdrawal.Parse.Wire.{or_bytes-value}
use bht_bhte.Withdrawal.Escape.{
  EscapeHatch, escape_hatch, record_anchor, max_historical_roots, verify_escape_proof,
  verify_escape_hatch, is_anchored_at, is_historical_at,
}

-- Many calls of RecordAnchor.
abbrev pub record_anchors : EscapeHatch → List L2StateRoot → EscapeHatch
record_anchors v roots = foldl record_anchor v roots

-- The last n elements.
abbrev pub newest {ℓ} : {A : Type ℓ} → ℕ → List A → List A
newest n xs = drop (length xs - n) xs

newest-all : {A : Type 0} (xs : List A) (n : ℕ) → length xs ≤ n → newest n xs ≡ xs
newest-all xs n h = ap (λ k. drop k xs) (let e : length xs - n ≡ 0 = omega arith in e)

newest-drop :
    {A : Type 0} (x : A) (xs : List A) (n : ℕ) → n ≤ length xs → newest n (x ∷ xs) ≡ newest n xs
newest-drop x xs n h =
    ap (λ k. drop k (x ∷ xs)) (let e : length (x ∷ xs) - n ≡ suc (length xs - n) = omega arith in e)

abbrev pushed : List L2StateRoot → L2StateRoot → List L2StateRoot
pushed xs r =
    let roots = xs ++ r ∷ [] in
    if ltb max_historical_roots (length roots) then drop 1 roots else roots

pushed-newest :
    (xs : List L2StateRoot) (r : L2StateRoot) (rs : List L2StateRoot)
    → length xs ≤ max_historical_roots
    → (length (pushed xs r) ≤ max_historical_roots)
      × (newest max_historical_roots (pushed xs r ++ rs)
          ≡ newest max_historical_roots (xs ++ r ∷ rs))
pushed-newest [] r rs h = (omega arith, refl)
pushed-newest (x ∷ xs) r rs h =
    elim (Bool-cases (ltb max_historical_roots (length (x ∷ xs ++ r ∷ [])))) [
      | inl e ↦
          let big = ltb→lt max_historical_roots (length (x ∷ xs ++ r ∷ [])) e in
          rw e (
            omega (arith, length-append xs (r ∷ [])),
            ap (newest max_historical_roots) (append_assoc xs (r ∷ []) rs)
                ∙ sym (
                    newest-drop x (xs ++ r ∷ rs) max_historical_roots
                      (omega (arith, length-append xs (r ∷ rs), length-append xs (r ∷ [])))),
          )
      | inr e ↦ rw e (
        ltb→ge max_historical_roots (length (x ∷ xs ++ r ∷ [])) e,
        ap (newest max_historical_roots) (append_assoc (x ∷ xs) (r ∷ []) rs),
      )
    ]

kept :
    (v : EscapeHatch) (roots : List L2StateRoot)
    → length v.historical_roots ≤ max_historical_roots
    → (record_anchors v roots).historical_roots
      ≡ newest max_historical_roots (v.historical_roots ++ roots)
unfolding record_anchor
kept v [] h = sym (
    ap (newest max_historical_roots) (append-nil v.historical_roots)
    ∙ newest-all v.historical_roots max_historical_roots h)
kept v (r ∷ rs) h =
    let (small, same) = pushed-newest v.historical_roots r rs h in
    kept (record_anchor v r) rs small ∙ same

-- After any sequence of calls of RecordAnchor on a fresh object, it holds the newest 10000 of the
-- roots in their order, or all of them if they are fewer.
pub record_anchors-newest :
    (roots : List L2StateRoot)
    → (record_anchors escape_hatch roots).historical_roots ≡ newest 10000 roots
record_anchors-newest roots = kept escape_hatch roots (omega arith)

-- The loops of the two functions answer alike.
is_anchored_at-is_historical_at :
    (height : ℕ) (roots : List L2StateRoot)
    → is_anchored_at height roots ≡ is_historical_at height roots
unfolding is_anchored_at is_historical_at
is_anchored_at-is_historical_at height [] = refl
is_anchored_at-is_historical_at height (root ∷ rest) =
    ap (λ b. (root.block_height == height && root.confirmed) || b)
      (is_anchored_at-is_historical_at height rest)

small_block : (proof : List ℕ) → ltb (length proof) 64 ≡ false → length (take 8 proof) ≡ 8
small_block proof h = ground (arith, length-take 8 proof)

-- For a proof made of bytes, VerifyEscapeProof answers what VerifyEscapeHatch answers for the
-- number in the first eight bytes, the lowest first, and the recorded roots.
pub verify_escape_proof-verify_escape_hatch :
    (v : EscapeHatch) (proof address : List ℕ)
    → IsBelow 256 proof
    → verify_escape_proof v proof address
      ≡ verify_escape_hatch proof address (value 256 (take 8 proof)) v.historical_roots
unfolding verify_escape_proof verify_escape_hatch
verify_escape_proof-verify_escape_hatch v proof address h =
    elim (Bool-cases (ltb (length proof) 64)) [
      | inl e ↦ rw e
      | inr e ↦
          let size = small_block proof e in
          let decoded : or_bytes 64 0 0 (take 8 proof) ≡ value 256 (take 8 proof) =
            or_bytes-value 64 0 0 (take 8 proof) (All-take (λ b. b < 256) 8 proof h) (omega arith)
              (omega arith)
            ∙ omega arith in
          rw (
            e,
            decoded,
            is_anchored_at-is_historical_at (value 256 (take 8 proof)) v.historical_roots,
          )
    ]
