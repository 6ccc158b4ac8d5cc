-- ===== src/Fips204/Ntt/Passes.antt =====
-- The passes of nttForward and nttInverse of mldsa_fips204.h over their layers.
use native.Mathlib.Nat.{mod-lt}
use bht_bhte.Prelude.{
  ltb, ◌==◌, ◌%◌, if◌then◌else◌, false, ℕ, zero, suc, ◌+◌, ◌-◌, ◌*◌, ◌/◌, ◌≤◌, ◌<◌, ◌≡◌, refl, sym,
  ap, ◌∙◌, Bool, true, List, [], ◌∷◌, ◌++◌, map, foldl, length, zip_with, range, All, arith,
}
use bht_bhte.Prelude.Int.{pos, ◌-ℤ◌}
use bht_bhte.Fips204.Field.{q, Poly}
use bht_bhte.Fips204.Ntt.{
  mod_pow, mod_pow_loop, bitrev8, zeta_at, forward_butterfly, inverse_butterfly, forward_block,
  inverse_block, block_starts,
}
use bht_bhte.Fips204.Ntt.Butterfly.{upper, lower, inverse_lower}
use bht_bhte.Fips204.Ntt.Blocks.{forward_butterfly-places, inverse_butterfly-places, butterflies}
use bht_bhte.Fips204.Ntt.Layers.{blocks, iterate, roots, layer_of, layer}
use bht_bhte.Fips204.Ntt.Undo.{plain_upper, length-blocks, All-blocks}

-- The root with an index, and the roots and the counters of the two directions.
unfoldable pub root_at : ℕ → ℕ
root_at i = mod_pow (pos 1753) (bitrev8 i) q

abbrev pub forward_root : ℕ → ℕ
forward_root kk = root_at (kk + 1)

abbrev pub inverse_root : ℕ → ℕ
inverse_root kk = q - root_at (kk - 1)

abbrev pub up : ℕ → ℕ
up kk = kk + 1

abbrev pub down : ℕ → ℕ
down kk = kk - 1

abbrev Any : ℕ → Type 0
Any n = Unit {0}

abbrev pub AtMost : ℕ → ℕ → Type 0
AtMost m n = n ≤ m

All-Any : (xs : List ℕ) → All Any xs
All-Any [] = tt
All-Any (x ∷ xs) = (tt, All-Any xs)

forward_one :
    (len kk : ℕ) (us vs post pre : List ℕ) (start : ℕ)
    → Any kk
    → length pre ≡ start
    → length us ≡ len
    → length vs ≡ len
    → All Any vs
    → forward_block len (kk, map pos (pre ++ (us ++ (vs ++ post)))) start ≡ (
      up kk,
      map pos (
          pre
          ++ (zip_with (upper (forward_root kk)) us vs
              ++ (zip_with (lower (forward_root kk)) us vs ++ post))),
    )
unfolding forward_block zeta_at root_at
forward_one len kk us vs post pre start c s h k ok =
    let z = mod_pow (pos 1753) (bitrev8 (kk + 1)) q in
    ap (λ l. (up kk, l))
      (ap
          (λ n.
            foldl (forward_butterfly (pos z) len) (map pos (pre ++ (us ++ (vs ++ post))))
              (range start n))
          (sym h)
        ∙ butterflies (forward_butterfly (pos z) len) len (upper z) (lower z) Any
            (λ pre x between y post ok. forward_butterfly-places z pre x between y post len) us []
            vs post pre start s (h ∙ sym k) (omega arith) ok)

either_below : (b : Bool) (x y m : ℕ) → x < m → y < m → (if b then x else y) < m
either_below true x y m h k = h
either_below false x y m h k = k

mod_pow_loop-below : (fuel base exp m r : ℕ) → r < m → mod_pow_loop fuel base exp m r < m
unfolding mod_pow_loop
mod_pow_loop-below zero base exp m r h = h
mod_pow_loop-below (suc fuel) base exp m r h =
    let next = if exp % 2 == 1 then r * base % m else r in
    either_below (ltb 0 exp) (mod_pow_loop fuel (base * base % m) (exp / 2) m next) r m
      (mod_pow_loop-below fuel (base * base % m) (exp / 2) m next
        (either_below (exp % 2 == 1) (r * base % m) r m (mod-lt (r * base) (omega (arith, h))) h))
      h

-- Every root is at most q.
root_at_bound : (i : ℕ) → root_at i ≤ q
unfolding root_at mod_pow
root_at_bound i = omega (arith, mod_pow_loop-below 64 1753 (bitrev8 i) q 1 (omega arith))

minus_pos : (n : ℕ) → n ≤ q → pos q -ℤ pos n ≡ pos (q - n)
unfolding ◌-ℤ◌
minus_pos n h = ground arith

zeta_at-root_at : (i : ℕ) → zeta_at i ≡ pos (root_at i)
unfolding zeta_at root_at
zeta_at-root_at i = refl

minus_root : (i : ℕ) → i < 256 → pos q -ℤ zeta_at i ≡ pos (q - root_at i)
minus_root i h = ap (λ z. pos q -ℤ z) (zeta_at-root_at i) ∙ minus_pos (root_at i) (root_at_bound i)

inverse_one :
    (len kk : ℕ) (us vs post pre : List ℕ) (start : ℕ)
    → AtMost 256 kk
    → length pre ≡ start
    → length us ≡ len
    → length vs ≡ len
    → All (AtMost q) vs
    → inverse_block len (kk, map pos (pre ++ (us ++ (vs ++ post)))) start ≡ (
      down kk,
      map pos (
          pre
          ++ (zip_with (plain_upper (inverse_root kk)) us vs
              ++ (zip_with (inverse_lower (inverse_root kk)) us vs ++ post))),
    )
unfolding inverse_block
inverse_one len kk us vs post pre start c s h k ok =
    let z = inverse_root kk in
    ap (λ l. (down kk, l))
      (ap
          (λ r.
            foldl (inverse_butterfly r len) (map pos (pre ++ (us ++ (vs ++ post))))
              (range start len))
          (minus_root (kk - 1) (omega arith))
        ∙ ap
            (λ n.
              foldl (inverse_butterfly (pos z) len) (map pos (pre ++ (us ++ (vs ++ post))))
                (range start n))
            (sym h)
        ∙ butterflies (inverse_butterfly (pos z) len) len (plain_upper z) (inverse_lower z)
            (AtMost q)
            (λ pre x between y post ok. inverse_butterfly-places z pre x between y post len ok) us
            [] vs post pre start s (h ∙ sym k) (omega arith) ok)

abbrev pub forward_layer : ℕ × List ℕ → ℕ → ℕ × List ℕ
forward_layer s len = layer_of upper lower forward_root up len s

abbrev pub inverse_layer : ℕ × List ℕ → ℕ → ℕ × List ℕ
inverse_layer s len = layer_of plain_upper inverse_lower inverse_root down len s

abbrev pub Fits : ℕ → Type 0
Fits len = 128 / len * (2 * len) ≡ 256

abbrev pub as_poly : ℕ × List ℕ → ℕ × Poly
as_poly (kk, r) = (kk, map pos r)

pub length-roots : (root next : ℕ → ℕ) (n kk : ℕ) → length (roots root next n kk) ≡ n
unfolding roots
length-roots root next zero kk = refl
length-roots root next (suc n) kk = ap suc (length-roots root next n (next kk))

pub length-layer :
    (f g : ℕ → ℕ → ℕ → ℕ) (root next : ℕ → ℕ) (len kk : ℕ) (r : List ℕ)
    → Fits len
    → length r ≡ 256
    → length (blocks f g (roots root next (128 / len) kk) len r) ≡ 256
length-layer f g root next len kk r fit h =
    length-blocks f g (roots root next (128 / len) kk) len r
      (h ∙ sym fit ∙ ap (λ n. n * (2 * len)) (sym (length-roots root next (128 / len) kk)))
    ∙ h

iterate-down : (n kk : ℕ) → kk ≤ 256 → iterate down n kk ≤ 256
iterate-down zero kk h = h
iterate-down (suc n) kk h = iterate-down n (kk - 1) (omega arith)

-- The loops over the layers on polynomials of residues.
pub forward_layers :
    (lens : List ℕ) (kk : ℕ) (r : List ℕ)
    → All Fits lens
    → length r ≡ 256
    → foldl (λ s len. foldl (forward_block len) s (block_starts len)) (kk, map pos r) lens
      ≡ as_poly (foldl forward_layer (kk, r) lens)
forward_layers [] kk r fits h = refl
forward_layers (len ∷ lens) kk r (fit, fits) h =
    ap (λ s. foldl (λ s len. foldl (forward_block len) s (block_starts len)) s lens)
      (layer upper lower forward_root up Any Any (λ kk c. tt) forward_block forward_one len
        (128 / len) 0 kk [] r tt (omega arith) (h ∙ sym fit) (All-Any r))
    ∙ forward_layers lens (iterate up (128 / len) kk)
        (blocks upper lower (roots forward_root up (128 / len) kk) len r) fits
        (length-layer upper lower forward_root up len kk r fit h)

pub inverse_layers :
    (lens : List ℕ) (kk : ℕ) (r : List ℕ)
    → kk ≤ 256
    → All Fits lens
    → All (AtMost q) r
    → length r ≡ 256
    → foldl (λ s len. foldl (inverse_block len) s (block_starts len)) (kk, map pos r) lens
      ≡ as_poly (foldl inverse_layer (kk, r) lens)
inverse_layers [] kk r c fits ok h = refl
inverse_layers (len ∷ lens) kk r c (fit, fits) ok h =
    let zs = roots inverse_root down (128 / len) kk in
    ap (λ s. foldl (λ s len. foldl (inverse_block len) s (block_starts len)) s lens)
      (layer plain_upper inverse_lower inverse_root down (AtMost q) (AtMost 256)
        (λ kk c. omega arith) inverse_block inverse_one len (128 / len) 0 kk [] r c (omega arith)
        (h ∙ sym fit) ok)
    ∙ inverse_layers lens (iterate down (128 / len) kk) (blocks plain_upper inverse_lower zs len r)
        (iterate-down (128 / len) kk c) fits
        (All-blocks (AtMost q) plain_upper inverse_lower (λ z x y. omega arith)
          (λ z x y. omega arith) zs len r ok)
        (length-layer plain_upper inverse_lower inverse_root down len kk r fit h)
