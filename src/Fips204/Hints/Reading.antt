-- ===== src/Fips204/Hints/Reading.antt =====
-- What hintUnpack of mldsa_fips204.h reads where it accepts: rising places in every row, and the
-- numbers of places up to the end of each.
use mathlib.Core.Path.{ap₂}
use bht_bhte.Prelude.{
  ℕ, zero, suc, ◌+◌, ◌-◌, ◌≤◌, ◌<◌, ◌≡◌, refl, sym, ap, ◌∙◌, Bool, true, false, List, [], ◌∷◌, ◌++◌,
  ◌&&◌, ◌||◌, Option, none, some, length, get_or, set, take, drop, leb, ltb, if◌then◌else◌,
  append_assoc, arith, length-append, All, subst, All-take, All-drop, take-append-drop, length-take,
  length-drop,
}
use bht_bhte.Prelude.Int.{pos}
use bht_bhte.Fips204.Field.{Poly, PolyVec}
use bht_bhte.Fips204.Ntt.{zero_poly}
use bht_bhte.Fips204.Sampling.{◌>>=◌}
use bht_bhte.Fips204.Hints.{unpack_row, unpack_rows}
use bht_bhte.Fips204.Hints.Packed.{places, ends}
use bht_bhte.Fips204.Hints.RoundTrip.{Rising, at_index}
use bht_bhte.Fips204.Hints.Flags.{IsByte, flags_at, length-flags_at, ones-flags_at}

if_some {ℓ} :
    {A : Type ℓ} (b : Bool) (x : Option A) (r : A)
    → (if b then none else x) ≡ some r
    → (b ≡ false) × (x ≡ some r)
if_some true x r h = cc
if_some false x r h = (refl, h)

pub bind_some {ℓ κ} :
    {A : Type ℓ} {B : Type κ} (m : Option A) (f : A → Option B) (r : B)
    → (m >>= f) ≡ some r
    → (a : A) × (m ≡ some a) × (f a ≡ some r)
bind_some none f r h = cc
bind_some (some a) f r h = (a, refl, h)

-- A round of unpack_row that is not the last one.
round_read :
    (buf : List ℕ) (first n idx : ℕ) (p r : Poly)
    → unpack_row buf first (suc n) idx p ≡ some r
    → ((ltb first idx && leb (get_or buf idx 0) (get_or buf (idx - 1) 0)) ≡ false)
      × (unpack_row buf first n (idx + 1) (set p (get_or buf idx 0) (pos 1)) ≡ some r)
unfolding unpack_row
round_read buf first n idx p r h = if_some _ _ r h

rose :
    (first idx j prev x y : ℕ)
    → first < idx
    → x ≡ j
    → y ≡ prev
    → (ltb first idx && leb x y) ≡ false
    → prev + 1 ≤ j
rose first idx j prev x y h e f g = ground arith

later_rises :
    (buf : List ℕ) (first idx prev : ℕ) (pre js post : List ℕ) (p r : Poly)
    → buf ≡ (pre ++ (prev ∷ [])) ++ (js ++ post)
    → suc (length pre) ≡ idx
    → first < idx
    → unpack_row buf first (length js) idx p ≡ some r
    → Rising (prev + 1) js
later_rises buf first idx prev pre [] post p r e s h g = tt
later_rises buf first idx prev pre (j ∷ js) post p r e s h g =
    let (test, more) = round_read buf first (length js) idx p r g in
    (
      rose first idx j prev (get_or buf idx 0) (get_or buf (idx - 1) 0) h
          (at_index (pre ++ (prev ∷ [])) j (js ++ post) buf idx e
            (omega (arith, length-append pre (prev ∷ []))))
          (at_index pre prev (j ∷ (js ++ post)) buf (idx - 1)
            (e ∙ append_assoc pre (prev ∷ []) (j ∷ (js ++ post))) (omega arith))
          test,
      later_rises buf first (idx + 1) j (pre ++ (prev ∷ [])) js post
          (set p (get_or buf idx 0) (pos 1)) r
          (e ∙ sym (append_assoc (pre ++ (prev ∷ [])) (j ∷ []) (js ++ post)))
          (omega (arith, length-append pre (prev ∷ []))) (omega arith) more,
    )

row_rises :
    (buf : List ℕ) (idx : ℕ) (pre js post : List ℕ) (p r : Poly)
    → buf ≡ pre ++ (js ++ post)
    → length pre ≡ idx
    → unpack_row buf idx (length js) idx p ≡ some r
    → Rising 0 js
row_rises buf idx pre [] post p r e s g = tt
row_rises buf idx pre (j ∷ js) post p r e s g =
    let (test, more) = round_read buf idx (length js) idx p r g in
    (
      omega arith,
      later_rises buf idx (idx + 1) j pre js post (set p (get_or buf idx 0) (pos 1)) r
          (e ∙ sym (append_assoc pre (j ∷ []) (js ++ post))) (omega arith) (omega arith) more,
    )

-- A number of places that unpack_rows goes on with.
in_bounds : (last idx ω : ℕ) → (ltb last idx || ltb ω last) ≡ false → (idx ≤ last) × (last ≤ ω)
in_bounds last idx ω h = (ground arith, ground arith)

abbrev out_of : Option (PolyVec × ℕ) → ℕ
out_of none = 0
out_of (some (h, out)) = out

-- What an accepted part of a buffer is made of: the places of n rows in `body`, what is behind them,
-- and the numbers of places in `tails`.
abbrev pub Shape : ℕ → ℕ → List ℕ → List ℕ → ℕ → Type 0
Shape n idx body tails out =
    (rows : List (List Bool)) × (rest : List ℕ) × (length rows ≡ n)
    × All (λ row. length row ≡ 256) rows
    × (body ≡ places rows ++ rest)
    × (tails ≡ ends idx rows)
    × (out ≡ idx + length (places rows))

-- One row more.
more_rows :
    (n idx last out : ℕ) (js body more : List ℕ)
    → Rising 0 js
    → All IsByte js
    → idx + length js ≡ last
    → Shape n last body more out
    → Shape (suc n) idx (js ++ body) (last ∷ more) out
more_rows n idx last out js body more r b s (rows, rest, size, full, e, f, g) =
    let same = ones-flags_at 0 256 js refl r b in
    (
      flags_at 0 256 js ∷ rows,
      rest,
      ap suc size,
      (length-flags_at 0 256 js, full),
      ap (◌++◌ js) e
          ∙ sym (append_assoc js (places rows) rest)
          ∙ ap (λ l. (l ++ places rows) ++ rest) (sym same),
      ap₂ ◌∷◌ (sym s ∙ ap (λ l. idx + length l) (sym same))
          (f ∙ ap (λ m. ends m rows) (sym s ∙ ap (λ l. idx + length l) (sym same))),
      g
          ∙ omega (arith, length-append js (places rows))
          ∙ ap (λ l. idx + length (l ++ places rows)) (sym same),
    )

row_read :
    (buf : List ℕ) (ω n i idx last out : ℕ) (h : PolyVec)
    → get_or buf (ω + i) 0 ≡ last
    → unpack_rows buf ω (suc n) i idx ≡ some (h, out)
    → (idx ≤ last)
      × (last ≤ ω)
      × ((r : Poly) × (unpack_row buf idx (last - idx) idx zero_poly ≡ some r))
      × ((h' : PolyVec) × (unpack_rows buf ω n (i + 1) last ≡ some (h', out)))
unfolding unpack_rows
row_read buf ω n i idx last out h e g =
    let place = get_or buf (ω + i) 0 in
    let (r, one, more) =
      bind_some
        (if ltb place idx || ltb ω place
          then none
          else unpack_row buf idx (place - idx) idx zero_poly)
        (λ row. unpack_rows buf ω n (i + 1) place >>= λ (rows, idx'). some (row ∷ rows, idx'))
        (h, out) g in
    let (test, row) = if_some _ _ r one in
    let ((h', out'), rows, last_row) =
      bind_some (unpack_rows buf ω n (i + 1) place) (λ (rows, idx'). some (r ∷ rows, idx')) (h, out)
        more in
    let (low, high) = in_bounds place idx ω test in
    (
      omega (arith, e, low),
      omega (arith, e, high),
      (r, ap (λ m. unpack_row buf idx (m - idx) idx zero_poly) (sym e) ∙ row),
      (
        h',
        ap (unpack_rows buf ω n (i + 1)) (sym e)
            ∙ rows
            ∙ ap (λ o. some (h', o)) (ap out_of last_row),
      ),
    )

tails_front :
    (done body counts : List ℕ) (last : ℕ) (more : List ℕ)
    → done ++ (body ++ (counts ++ (last ∷ more))) ≡ (done ++ (body ++ counts)) ++ (last ∷ more)
tails_front done body counts last more = simp append_assoc

body_split :
    (done js body counts : List ℕ) (last : ℕ) (more : List ℕ)
    → done ++ ((js ++ body) ++ (counts ++ (last ∷ more)))
      ≡ (done ++ js) ++ (body ++ ((counts ++ (last ∷ [])) ++ more))
body_split done js body counts last more = simp append_assoc

pub rows_read :
    (buf : List ℕ) (ω n i idx out : ℕ) (done body counts tails : List ℕ) (h : PolyVec)
    → buf ≡ done ++ (body ++ (counts ++ tails))
    → length done ≡ idx
    → idx + length body ≡ ω
    → length counts ≡ i
    → length tails ≡ n
    → All IsByte body
    → unpack_rows buf ω n i idx ≡ some (h, out)
    → Shape n idx body tails out
unfolding unpack_rows
rows_read buf ω zero i idx out done body counts [] h e s t u v b g =
    ([], body, refl, tt, refl, refl, sym (ap out_of g) ∙ omega arith)
rows_read buf ω zero i idx out done body counts (last ∷ more) h e s t u v b g = absurd (omega arith)
rows_read buf ω (suc n) i idx out done body counts [] h e s t u v b g = absurd (omega arith)
rows_read buf ω (suc n) i idx out done body counts (last ∷ more) h e s t u v b g =
    let front = done ++ (body ++ counts) in
    let place =
      at_index front last more buf (ω + i) (e ∙ tails_front done body counts last more)
        (omega (arith, length-append done (body ++ counts), length-append body counts)) in
    let (low, high, (r, row), (h', rows)) = row_read buf ω n i idx last out h place g in
    let js = take (last - idx) body in
    let left = drop (last - idx) body in
    let whole = take-append-drop (last - idx) body in
    let size : length js ≡ last - idx = omega (arith, length-take (last - idx) body) in
    let split : buf ≡ done ++ ((js ++ left) ++ (counts ++ (last ∷ more))) =
      e ∙ ap (λ l. done ++ (l ++ (counts ++ (last ∷ more)))) (sym whole) in
    subst (λ l. Shape (suc n) idx l (last ∷ more) out) whole
      (more_rows n idx last out js left more
        (row_rises buf idx done js (left ++ (counts ++ (last ∷ more))) zero_poly r
          (split ∙ ap (◌++◌ done) (append_assoc js left (counts ++ (last ∷ more)))) s
          (ap (λ m. unpack_row buf idx m idx zero_poly) size ∙ row))
        (All-take IsByte (last - idx) body b) (omega arith)
        (rows_read buf ω n (i + 1) last out (done ++ js) left (counts ++ (last ∷ [])) more h'
          (split ∙ body_split done js left counts last more) (omega (arith, length-append done js))
          (omega (arith, length-drop (last - idx) body))
          (omega (arith, length-append counts (last ∷ []))) (omega arith)
          (All-drop IsByte (last - idx) body b) rows))
