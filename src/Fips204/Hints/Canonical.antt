-- ===== src/Fips204/Hints/Canonical.antt =====
-- What hintUnpack of mldsa_fips204.h accepts: the bytes that hintPack writes, and no others.
use mathlib.Core.Path.{ap₂}
use bht_bhte.Prelude.{
  ℕ, ◌+◌, ◌-◌, ◌≤◌, ◌<◌, ◌≡◌, refl, sym, ap, ◌∙◌, Bool, true, false, List, [], ◌∷◌, ◌++◌, Option,
  none, some, length, take, drop, replicate, if◌then◌else◌, append_assoc, arith, length-append, All,
  All-take, drop-length-append, take-append-drop, length-take, length-drop,
}
use bht_bhte.Fips204.Field.{PolyVec}
use bht_bhte.Fips204.Hints.{unpack_rows, all_zero, hint_pack, hint_unpack}
use bht_bhte.Fips204.Hints.Packed.{as_hint, places, ends, packed, hint_pack-as_hint}
use bht_bhte.Fips204.Hints.RoundTrip.{hint_unpack-hint_pack}
use bht_bhte.Fips204.Hints.Flags.{IsByte}
use bht_bhte.Fips204.Hints.Reading.{bind_some, rows_read}

zeros : (l : List ℕ) → all_zero l ≡ true → l ≡ replicate (length l) 0
unfolding all_zero
zeros [] h = refl
zeros (x ∷ xs) h = ap₂ ◌∷◌ (ground arith) (zeros xs (ground arith))

some_if {ℓ} :
    {A : Type ℓ} (b : Bool) (x : Option A) (r : A)
    → (if b then x else none) ≡ some r
    → (b ≡ true) × (x ≡ some r)
some_if true x r h = (refl, h)
some_if false x r h = cc

rest_read :
    (buf : List ℕ) (ω k : ℕ) (h : PolyVec)
    → hint_unpack buf ω k ≡ some h
    → (h' : PolyVec) × (out : ℕ) × (unpack_rows buf ω k 0 0 ≡ some (h', out))
      × (all_zero (drop out (take ω buf)) ≡ true)
unfolding hint_unpack
rest_read buf ω k h g =
    let ((h', out), rows, test) =
      bind_some (unpack_rows buf ω k 0 0)
        (λ (h, idx). if all_zero (drop idx (take ω buf)) then some h else none) h g in
    (h', out, rows, (some_if _ (some h') h test).0)

abbrev hint_in : PolyVec → Option PolyVec → PolyVec
hint_in d none = d
hint_in d (some h) = h

-- Bytes that stand for rows of flags are read as those rows, and written again.
written_back :
    (buf : List ℕ) (ω k : ℕ) (h : PolyVec) (rows : List (List Bool)) (small : ω < 256)
    (full : All (λ row. length row ≡ 256) rows) (few : length (places rows) ≤ ω)
    → length rows ≡ k
    → buf ≡ packed rows ω small full few
    → hint_unpack buf ω k ≡ some h
    → hint_pack h ω k ≡ buf
written_back buf ω k h rows small full few count written g =
    let bytes = hint_pack-as_hint rows ω small full few in
    let same : h ≡ as_hint rows = ap (hint_in h) (
      sym g
      ∙ ap₂ (λ l n. hint_unpack l ω n) (written ∙ sym bytes) (sym count)
      ∙ hint_unpack-hint_pack rows ω small full few) in
    ap₂ (λ v n. hint_pack v ω n) same (sym count) ∙ bytes ∙ sym written

-- hintPack writes back every byte string of omega + k bytes that hintUnpack accepts, for an omega
-- below 256.
pub hint_pack-hint_unpack :
    (buf : List ℕ) (ω k : ℕ) (h : PolyVec)
    → ω < 256
    → length buf ≡ ω + k
    → All IsByte buf
    → hint_unpack buf ω k ≡ some h
    → hint_pack h ω k ≡ buf
hint_pack-hint_unpack buf ω k h small size bytes g =
    let (h', out, rows_ok, zero_ok) = rest_read buf ω k h g in
    let front : length (take ω buf) ≡ ω = omega (arith, length-take ω buf) in
    let (rows, rest, count, full, body, tails, end) =
      rows_read buf ω k 0 0 out [] (take ω buf) [] (drop ω buf) h' (sym (take-append-drop ω buf))
        refl (omega arith) refl (omega (arith, length-drop ω buf)) (All-take IsByte ω buf bytes)
        rows_ok in
    let sizes : length (places rows) + length rest ≡ ω =
      sym (length-append (places rows) rest) ∙ ap length (sym body) ∙ front in
    let few : length (places rows) ≤ ω = omega arith in
    let behind : drop out (take ω buf) ≡ rest =
      ap₂ drop (end ∙ omega arith) body ∙ drop-length-append (places rows) rest in
    let blank : rest ≡ replicate (ω - length (places rows)) 0 =
      zeros rest (ap all_zero (sym behind) ∙ zero_ok) ∙ ap (λ n. replicate n 0) (omega arith) in
    let written : buf ≡ packed rows ω small full few =
      sym (take-append-drop ω buf)
      ∙ ap₂ ◌++◌ (body ∙ ap (◌++◌ (places rows)) blank) tails
      ∙ append_assoc (places rows) (replicate (ω - length (places rows)) 0) (ends 0 rows) in
    written_back buf ω k h rows small full few count written g
