-- ===== src/Fips204/Hints/RoundTrip.antt =====
-- hintUnpack reads back what hintPack writes, of mldsa_fips204.h.
use mathlib.Core.Path.{ap₂}
use bht_bhte.Prelude.{
  ℕ, zero, suc, ◌+◌, ◌-◌, ◌≤◌, ◌<◌, ◌≡◌, refl, sym, ap, ◌∙◌, Bool, true, false, List, [], ◌∷◌, ◌++◌,
  ◌&&◌, ◌||◌, Option, none, some, map, length, get_or, set, take, drop, replicate, leb, ltb,
  if◌then◌else◌, append_assoc, arith, length-append, length-replicate, All, set-length-append,
  get_or-length-append, take-length-append, drop-length-append,
}
use bht_bhte.Prelude.Int.{pos}
use bht_bhte.Fips204.Field.{Poly, PolyVec}
use bht_bhte.Fips204.Ntt.{zero_poly}
use bht_bhte.Fips204.Sampling.{◌>>=◌}
use bht_bhte.Fips204.Hints.{unpack_row, unpack_rows, all_zero, hint_pack, hint_unpack}
use bht_bhte.Fips204.Hints.Packed.{flag, as_hint, ones, places, ends, packed, hint_pack-as_hint}

-- Rising numbers from `lo` on.
abbrev pub Rising : ℕ → List ℕ → Type 0
Rising lo [] = Unit {0}
Rising lo (j ∷ js) = (lo ≤ j) × Rising (j + 1) js

ones-Rising : (lo j : ℕ) (bs : List Bool) → lo ≤ j → Rising lo (ones j bs)
ones-Rising lo j [] h = tt
ones-Rising lo j (true ∷ bs) h = (h, ones-Rising (j + 1) (j + 1) bs (omega arith))
ones-Rising lo j (false ∷ bs) h = ones-Rising lo (j + 1) bs (omega arith)

abbrev marks : Poly → List ℕ → Poly
marks p [] = p
marks p (j ∷ js) = marks (set p j (pos 1)) js

marks-ones :
    (j : ℕ) (front : Poly) (bs : List Bool)
    → length front ≡ j
    → marks (front ++ replicate (length bs) (pos 0)) (ones j bs) ≡ front ++ map flag bs
marks-ones j front [] h = refl
marks-ones j front (true ∷ bs) h =
    ap (λ p. marks p (ones (j + 1) bs))
      (ap (λ k. set (front ++ (pos 0 ∷ replicate (length bs) (pos 0))) k (pos 1)) (sym h)
        ∙ set-length-append front (pos 0) (replicate (length bs) (pos 0)) (pos 1)
        ∙ sym (append_assoc front (pos 1 ∷ []) (replicate (length bs) (pos 0))))
    ∙ marks-ones (j + 1) (front ++ (pos 1 ∷ [])) bs
        (omega (arith, length-append front (pos 1 ∷ [])))
    ∙ append_assoc front (pos 1 ∷ []) (map flag bs)
marks-ones j front (false ∷ bs) h =
    ap (λ p. marks p (ones (j + 1) bs))
      (sym (append_assoc front (pos 0 ∷ []) (replicate (length bs) (pos 0))))
    ∙ marks-ones (j + 1) (front ++ (pos 0 ∷ [])) bs
        (omega (arith, length-append front (pos 0 ∷ [])))
    ∙ append_assoc front (pos 0 ∷ []) (map flag bs)

pub at_index :
    (pre : List ℕ) (x : ℕ) (rest buf : List ℕ) (i : ℕ)
    → buf ≡ pre ++ (x ∷ rest)
    → length pre ≡ i
    → get_or buf i 0 ≡ x
at_index pre x rest buf i e h =
    ap₂ (λ b k. get_or b k 0) e (sym h) ∙ get_or-length-append pre x rest 0

accepts :
    (buf : List ℕ) (first n idx j : ℕ) (p : Poly)
    → get_or buf idx 0 ≡ j
    → (ltb first idx && leb j (get_or buf (idx - 1) 0)) ≡ false
    → unpack_row buf first (suc n) idx p ≡ unpack_row buf first n (idx + 1) (set p j (pos 1))
unfolding unpack_row
accepts buf first n idx j p e h = rw (e, h) refl

rises :
    (first idx prev j : ℕ) {x : ℕ}
    → first < idx
    → prev + 1 ≤ j
    → x ≡ prev
    → (ltb first idx && leb j x) ≡ false
rises first idx prev j h r e = rw e (ground arith)

not-lt_self : (n : ℕ) → ltb n n ≡ false
not-lt_self n = ground arith

no_rounds : (buf : List ℕ) (first : ℕ) (p : Poly) → unpack_row buf first 0 first p ≡ some p
unfolding unpack_row
no_rounds buf first p = refl

unpack_row-later :
    (buf : List ℕ) (first idx prev : ℕ) (pre js post : List ℕ) (p : Poly)
    → buf ≡ (pre ++ (prev ∷ [])) ++ (js ++ post)
    → suc (length pre) ≡ idx
    → first < idx
    → Rising (prev + 1) js
    → unpack_row buf first (length js) idx p ≡ some (marks p js)
unfolding unpack_row
unpack_row-later buf first idx prev pre [] post p e s h r = refl
unpack_row-later buf first idx prev pre (j ∷ js) post p e s h (r, rs) =
    accepts buf first (length js) idx j p
      (at_index (pre ++ (prev ∷ [])) j (js ++ post) buf idx e
        (omega (arith, length-append pre (prev ∷ []))))
      (rises first idx prev j h r (
        at_index pre prev (j ∷ (js ++ post)) buf (idx - 1)
          (e ∙ append_assoc pre (prev ∷ []) (j ∷ (js ++ post))) (omega arith)))
    ∙ unpack_row-later buf first (idx + 1) j (pre ++ (prev ∷ [])) js post (set p j (pos 1))
        (e ∙ sym (append_assoc (pre ++ (prev ∷ [])) (j ∷ []) (js ++ post)))
        (omega (arith, length-append pre (prev ∷ []))) (omega arith) rs

unpack_row-marks :
    (buf : List ℕ) (idx : ℕ) (pre js post : List ℕ) (p : Poly)
    → buf ≡ pre ++ (js ++ post)
    → length pre ≡ idx
    → Rising 0 js
    → unpack_row buf idx (length js) idx p ≡ some (marks p js)
unpack_row-marks buf idx pre [] post p e s r = no_rounds buf idx p
unpack_row-marks buf idx pre (j ∷ js) post p e s (r, rs) =
    accepts buf idx (length js) idx j p (at_index pre j (js ++ post) buf idx e s)
      (ap (λ b. b && leb j (get_or buf (idx - 1) 0)) (not-lt_self idx))
    ∙ unpack_row-later buf idx (idx + 1) j pre js post (set p j (pos 1))
        (e ∙ sym (append_assoc pre (j ∷ []) (js ++ post))) (omega arith) (omega arith) rs

row_read :
    (buf : List ℕ) (idx : ℕ) (pre post : List ℕ) (row : List Bool)
    → buf ≡ pre ++ (ones 0 row ++ post)
    → length pre ≡ idx
    → length row ≡ 256
    → unpack_row buf idx (length (ones 0 row)) idx zero_poly ≡ some (map flag row)
row_read buf idx pre post row e s full =
    unpack_row-marks buf idx pre (ones 0 row) post zero_poly e s (ones-Rising 0 0 row (omega arith))
    ∙ ap some
        (ap (λ n. marks (replicate n (pos 0)) (ones 0 row)) (sym full) ∙ marks-ones 0 [] row refl)

in_order : (idx last ω : ℕ) → idx ≤ last → last ≤ ω → (ltb last idx || ltb ω last) ≡ false
in_order idx last ω h k = ground arith

next_row :
    (buf : List ℕ) (ω n i idx last : ℕ) (r : Poly) (rs : PolyVec) (out : ℕ)
    → get_or buf (ω + i) 0 ≡ last
    → idx ≤ last
    → last ≤ ω
    → unpack_row buf idx (last - idx) idx zero_poly ≡ some r
    → unpack_rows buf ω n (i + 1) last ≡ some (rs, out)
    → unpack_rows buf ω (suc n) i idx ≡ some (r ∷ rs, out)
unfolding unpack_rows
next_row buf ω n i idx last r rs out e h k one rest =
    rw (e, in_order idx last ω h k, one, rest) refl

count_front :
    (done found zeros counts : List ℕ) (last : ℕ) (more : List ℕ)
    → done ++ (found ++ (zeros ++ (counts ++ (last ∷ more))))
      ≡ (done ++ (found ++ (zeros ++ counts))) ++ (last ∷ more)
count_front done found zeros counts last more = simp append_assoc

count_back :
    (done found others zeros counts : List ℕ) (last : ℕ) (more : List ℕ)
    → done ++ ((found ++ others) ++ (zeros ++ (counts ++ (last ∷ more))))
      ≡ (done ++ found) ++ (others ++ (zeros ++ ((counts ++ (last ∷ [])) ++ more)))
count_back done found others zeros counts last more = simp append_assoc

unpack_rows-places :
    (buf : List ℕ) (ω idx i m : ℕ) (rows : List (List Bool)) (done counts : List ℕ)
    → buf ≡ done ++ (places rows ++ (replicate m 0 ++ (counts ++ ends idx rows)))
    → length done ≡ idx
    → idx + length (places rows) + m ≡ ω
    → length counts ≡ i
    → All (λ row. length row ≡ 256) rows
    → unpack_rows buf ω (length rows) i idx ≡ some (as_hint rows, idx + length (places rows))
unfolding unpack_rows
unpack_rows-places buf ω idx i m [] done counts e s t u full = ap (λ n. some ([], n)) (omega arith)
unpack_rows-places buf ω idx i m (row ∷ rows) done counts e s t u (f, full) =
    let found = ones 0 row in
    let last = idx + length found in
    let found_size = length-append found (places rows) in
    let front = done ++ ((found ++ places rows) ++ (replicate m 0 ++ counts)) in
    let difference : last - idx ≡ length found = omega arith in
    next_row buf ω (length rows) i idx last (map flag row) (as_hint rows)
      (last + length (places rows))
      (at_index front last (ends last rows) buf (ω + i)
        (e ∙ count_front done (found ++ places rows) (replicate m 0) counts last (ends last rows))
        (omega (
          arith,
          length-append done ((found ++ places rows) ++ (replicate m 0 ++ counts)),
          length-append (found ++ places rows) (replicate m 0 ++ counts),
          length-append (replicate m 0) counts,
          length-replicate {A = ℕ} m 0,
        )))
      (omega arith) (omega (arith, found_size))
      (ap (λ n. unpack_row buf idx n idx zero_poly) difference
        ∙ row_read buf idx done _ row (e ∙ ap (◌++◌ done) (append_assoc found (places rows) _)) s f)
      (unpack_rows-places buf ω last (i + 1) m rows (done ++ found) (counts ++ (last ∷ []))
        (e ∙ count_back done found (places rows) (replicate m 0) counts last (ends last rows))
        (omega (arith, length-append done found)) (omega (arith, found_size))
        (omega (arith, length-append counts (last ∷ []))) full)
    ∙ ap (λ n. some (as_hint (row ∷ rows), n)) (omega (arith, found_size))

all_zero-replicate : (n : ℕ) → all_zero (replicate n 0) ≡ true
unfolding all_zero
all_zero-replicate zero = refl
all_zero-replicate (suc n) = all_zero-replicate n

take-packed :
    (n : ℕ) (xs ys zs : List ℕ)
    → length xs + length ys ≡ n
    → drop (length xs) (take n (xs ++ (ys ++ zs))) ≡ ys
take-packed n xs ys zs h =
    ap₂ (λ k l. drop (length xs) (take k l)) (sym h ∙ sym (length-append xs ys))
      (sym (append_assoc xs ys zs))
    ∙ ap (drop (length xs)) (take-length-append (xs ++ ys) zs)
    ∙ drop-length-append xs ys

-- hintUnpack reads back every vector of k rows of 256 flags with at most omega ones, for an omega
-- below 256, from the bytes that hintPack writes.
pub hint_unpack-hint_pack :
    (rows : List (List Bool)) (ω : ℕ)
    → ω < 256
    → All (λ row. length row ≡ 256) rows
    → length (places rows) ≤ ω
    → hint_unpack (hint_pack (as_hint rows) ω (length rows)) ω (length rows) ≡ some (as_hint rows)
unfolding hint_unpack
hint_unpack-hint_pack rows ω small full few =
    let zeros = ω - length (places rows) in
    let buf = packed rows ω small full few in
    ap (λ b. hint_unpack b ω (length rows)) (hint_pack-as_hint rows ω small full few)
    ∙ ap
        (λ (o : Option (PolyVec × ℕ)).
          o >>= (λ x. if all_zero (drop x.1 (take ω buf)) then some x.0 else none))
        (unpack_rows-places buf ω 0 0 zeros rows [] [] refl refl (omega arith) refl full)
    ∙ ap (λ b. if b then some (as_hint rows) else none)
        (ap all_zero (
            ap (λ n. drop n (take ω buf)) (omega arith)
            ∙ take-packed ω (places rows) (replicate zeros 0) (ends 0 rows)
                (omega (arith, length-replicate {A = ℕ} zeros 0)))
          ∙ all_zero-replicate zeros)
