-- ===== src/Fips204/Hints/Packed.antt =====
-- What hintPack of mldsa_fips204.h writes for a vector of rows of flags: the places of each row's
-- ones, zeros, and how many places there are up to the end of each row.
use mathlib.Core.Path.{ap₂}
use bht_bhte.Prelude.{
  ℕ, zero, suc, ◌+◌, ◌-◌, ◌%◌, ◌≤◌, ◌<◌, ◌≡◌, refl, sym, ap, ◌∙◌, Bool, true, false, List, [], ◌∷◌,
  ◌++◌, Option, none, some, map, length, set, take, replicate, leb, append_assoc, arith,
  length-append, length-replicate, length-map, set-length-append, All, take-length,
}
use bht_bhte.Prelude.Int.{ℤ, pos}
use bht_bhte.Fips204.Field.{Poly, PolyVec}
use bht_bhte.Fips204.Sampling.{◌>>=◌}
use bht_bhte.Fips204.Hints.{pack_coeffs, pack_rows, hint_pack}

abbrev pub flag : Bool → ℤ
flag true = pos 1
flag false = pos 0

abbrev pub as_hint : List (List Bool) → PolyVec
as_hint rows = map (map flag) rows

-- The places of the ones, the first of them at j.
abbrev pub ones : ℕ → List Bool → List ℕ
ones j [] = []
ones j (true ∷ bs) = j ∷ ones (j + 1) bs
ones j (false ∷ bs) = ones (j + 1) bs

abbrev pub places : List (List Bool) → List ℕ
places [] = []
places (row ∷ rows) = ones 0 row ++ places rows

-- The numbers of places up to the end of each row, after `idx` of them.
abbrev pub ends : ℕ → List (List Bool) → List ℕ
ends idx [] = []
ends idx (row ∷ rows) = (idx + length (ones 0 row)) ∷ ends (idx + length (ones 0 row)) rows

pub length-ends : (idx : ℕ) (rows : List (List Bool)) → length (ends idx rows) ≡ length rows
length-ends idx [] = refl
length-ends idx (row ∷ rows) = ap suc (length-ends (idx + length (ones 0 row)) rows)

lt→not-leb : (a b : ℕ) → b < a → leb a b ≡ false
lt→not-leb a b h = ground arith

skip_rest : (ω j : ℕ) (s : ℕ × List ℕ) → pack_coeffs ω j [] s ≡ some s
unfolding pack_coeffs
skip_rest ω j s = refl

skip_zero :
    (ω j : ℕ) (cs : Poly) (s : ℕ × List ℕ)
    → pack_coeffs ω j (pos 0 ∷ cs) s ≡ pack_coeffs ω (j + 1) cs s
unfolding pack_coeffs
skip_zero ω j cs s = refl

write_one :
    (ω idx j : ℕ) (out : List ℕ) (cs : Poly)
    → idx < ω
    → pack_coeffs ω j (pos 1 ∷ cs) (idx, out)
      ≡ pack_coeffs ω (j + 1) cs (idx + 1, set out idx (j % 256))
unfolding pack_coeffs
write_one ω idx j out cs h = rw (lt→not-leb ω idx h) refl

set_place :
    (idx j n : ℕ) (done tail : List ℕ)
    → length done ≡ idx
    → j < 256
    → set (done ++ (replicate (suc n) 0 ++ tail)) idx (j % 256)
      ≡ (done ++ (j ∷ [])) ++ (replicate n 0 ++ tail)
set_place idx j n done tail s h =
    ap (λ i. set (done ++ (0 ∷ (replicate n 0 ++ tail))) i (j % 256)) (sym s)
    ∙ set-length-append done 0 (replicate n 0 ++ tail) (j % 256)
    ∙ ap (λ v. done ++ (v ∷ (replicate n 0 ++ tail))) (omega arith)
    ∙ sym (append_assoc done (j ∷ []) (replicate n 0 ++ tail))

pub pack_coeffs-ones :
    (ω idx j n : ℕ) (bs : List Bool) (done tail : List ℕ)
    → length done ≡ idx
    → length (ones j bs) ≤ n
    → idx + length (ones j bs) ≤ ω
    → j + length bs ≤ 256
    → pack_coeffs ω j (map flag bs) (idx, done ++ (replicate n 0 ++ tail))
      ≡ some (
        idx + length (ones j bs),
        done ++ (ones j bs ++ (replicate (n - length (ones j bs)) 0 ++ tail)),
      )
pack_coeffs-ones ω idx j n [] done tail s h k l =
    skip_rest ω j _
    ∙ ap₂ (λ i m. some (i, done ++ (replicate m 0 ++ tail))) (omega arith) (omega arith)
pack_coeffs-ones ω idx j zero (true ∷ bs) done tail s h k l = absurd (omega arith)
pack_coeffs-ones ω idx j (suc n) (true ∷ bs) done tail s h k l =
    write_one ω idx j (done ++ (replicate (suc n) 0 ++ tail)) (map flag bs) (omega arith)
    ∙ ap (λ out. pack_coeffs ω (j + 1) (map flag bs) (idx + 1, out))
        (set_place idx j n done tail s (omega arith))
    ∙ pack_coeffs-ones ω (idx + 1) (j + 1) n bs (done ++ (j ∷ [])) tail
        (omega (arith, length-append done (j ∷ []))) (omega arith) (omega arith) (omega arith)
    ∙ ap₂ (λ i out. some (i, out)) (omega arith)
        (append_assoc done (j ∷ []) _
          ∙ ap (λ m. done ++ (j ∷ (ones (j + 1) bs ++ (replicate m 0 ++ tail)))) (omega arith))
pack_coeffs-ones ω idx j n (false ∷ bs) done tail s h k l =
    skip_zero ω j (map flag bs) _
    ∙ pack_coeffs-ones ω idx (j + 1) n bs done tail s h k (omega arith)

set_count :
    (ω i idx n : ℕ) (done found counts rest : List ℕ)
    → length (done ++ found) + n ≡ ω
    → length counts ≡ i
    → idx < 256
    → set (done ++ (found ++ (replicate n 0 ++ (counts ++ (0 ∷ rest))))) (ω + i) (idx % 256)
      ≡ (done ++ found) ++ (replicate n 0 ++ ((counts ++ (idx ∷ [])) ++ rest))
set_count ω i idx n done found counts rest s t u =
    let front = (done ++ found) ++ (replicate n 0 ++ counts) in
    let byte : idx % 256 ≡ idx = omega arith in
    ap₂ (λ l k. set l k (idx % 256)) (simp append_assoc)
      (omega (
        arith,
        length-append (done ++ found) (replicate n 0 ++ counts),
        length-append (replicate n 0) counts,
        length-replicate {A = ℕ} n 0,
      ))
    ∙ set-length-append front 0 rest (idx % 256)
    ∙ ap (λ v. front ++ (v ∷ rest)) byte
    ∙ simp append_assoc

regroup :
    (done found more zeros counts : List ℕ) (idx : ℕ) (ends : List ℕ)
    → (done ++ found) ++ (more ++ (zeros ++ ((counts ++ (idx ∷ [])) ++ ends)))
      ≡ done ++ ((found ++ more) ++ (zeros ++ (counts ++ (idx ∷ ends))))
regroup done found more zeros counts idx ends = simp append_assoc

pack_rows-places :
    (ω i idx n left : ℕ) (rows : List (List Bool)) (done counts : List ℕ)
    → length done ≡ idx
    → idx + n ≡ ω
    → length counts ≡ i
    → left ≡ length rows
    → ω < 256
    → All (λ row. length row ≡ 256) rows
    → length (places rows) ≤ n
    → pack_rows ω i (as_hint rows) (idx, done ++ (replicate n 0 ++ (counts ++ replicate left 0)))
      ≡ some (
          done
          ++ (places rows ++ (replicate (n - length (places rows)) 0 ++ (counts ++ ends idx rows))))
unfolding pack_rows
pack_rows-places ω i idx n left [] done counts s t u v w x y =
    ap₂ (λ m l. some (done ++ (replicate m 0 ++ (counts ++ l)))) (omega arith)
      (ap (λ m. replicate m 0) v)
pack_rows-places ω i idx n zero (row ∷ rows) done counts s t u v w x y = absurd (omega arith)
pack_rows-places ω i idx n (suc left) (row ∷ rows) done counts s t u v w (x, xs) y =
    let found = ones 0 row in
    let n' = n - length found in
    let idx' = idx + length found in
    let short : length found + length (places rows) ≤ n =
      omega (arith, length-append found (places rows)) in
    ap (λ o. o >>= λ s. pack_rows ω (i + 1) (as_hint rows) (s.0, set s.1 (ω + i) (s.0 % 256)))
      (pack_coeffs-ones ω idx 0 n row done (counts ++ (0 ∷ replicate left 0)) s (omega arith)
        (omega arith) (omega arith))
    ∙ ap (λ out. pack_rows ω (i + 1) (as_hint rows) (idx', out))
        (set_count ω i idx' n' done found counts (replicate left 0)
          (omega (arith, length-append done found)) u (omega arith))
    ∙ pack_rows-places ω (i + 1) idx' n' left rows (done ++ found) (counts ++ (idx' ∷ []))
        (omega (arith, length-append done found)) (omega arith)
        (omega (arith, length-append counts (idx' ∷ []))) (omega arith) w xs (omega arith)
    ∙ ap some (
        regroup done found (places rows) _ counts idx' (ends idx' rows)
        ∙ ap
            (λ m.
              done
              ++ ((found ++ places rows) ++ (replicate m 0 ++ (counts ++ (idx' ∷ ends idx' rows)))))
            (omega (arith, length-append found (places rows))))

replicate-add : (m n : ℕ) → replicate {A = ℕ} (m + n) 0 ≡ replicate m 0 ++ replicate n 0
replicate-add zero n = ap (λ m. replicate m 0) (omega arith)
replicate-add (suc m) n =
    let e : suc m + n ≡ suc (m + n) = omega arith in
    ap (λ k. replicate {A = ℕ} k 0) e ∙ ap (◌∷◌ 0) (replicate-add m n)

module _ (rows : List (List Bool)) (ω : ℕ) (small : ω < 256)
    (full : All (λ row. length row ≡ 256) rows) (few : length (places rows) ≤ ω) where
  abbrev pub packed : List ℕ
  packed = places rows ++ (replicate (ω - length (places rows)) 0 ++ ends 0 rows)

  take-as_hint : take (length rows) (as_hint rows) ≡ as_hint rows
  take-as_hint =
      ap (λ n. take n (as_hint rows)) (sym (length-map rows (map flag)))
      ∙ take-length (as_hint rows)

  pub hint_pack-as_hint : hint_pack (as_hint rows) ω (length rows) ≡ packed
  unfolding hint_pack
  hint_pack-as_hint =
      ap (λ (o : Option (List ℕ)). elim o as (λ x. List ℕ) [ none ↦ [] | some out ↦ out ])
        (ap₂ (λ h out. pack_rows ω 0 h (0, out)) take-as_hint (replicate-add ω (length rows))
          ∙ pack_rows-places ω 0 0 ω (length rows) rows [] [] refl (omega arith) refl refl small
              full few)
