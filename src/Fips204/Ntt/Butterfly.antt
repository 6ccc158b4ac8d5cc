-- ===== src/Fips204/Ntt/Butterfly.antt =====
-- The butterflies of nttForward and nttInverse in mldsa_fips204.h on residues.
use native.Mathlib.Nat.{mod-lt, mul-add, mul_comm, mul_assoc, mul_left_comm, div-add-mod}
use bht_bhte.Prelude.{ℕ, ◌+◌, ◌-◌, ◌*◌, ◌/◌, ◌%◌, ◌≤◌, ◌<◌, ◌≡◌, refl, sym, ap, ◌∙◌, arith}
use bht_bhte.Prelude.Int.{pos, ◌+ℤ◌, ◌-ℤ◌, ◌*ℤ◌}
use bht_bhte.Fips204.Field.{q, mod_q}

pub pos-mul : (x y : ℕ) → pos x *ℤ pos y ≡ pos (x * y)
unfolding ◌*ℤ◌
pos-mul x y = ground arith

pub pos-add : (x y : ℕ) → pos x +ℤ pos y ≡ pos (x + y)
unfolding ◌+ℤ◌
pos-add x y = ground arith

pub mod_q-pos : (x : ℕ) → mod_q (pos x) ≡ pos (x % q)
unfolding mod_q
mod_q-pos x = refl

-- x - y as a residue.
pub mod_q-sub : (x y : ℕ) → y ≤ q → mod_q (pos x -ℤ pos y) ≡ pos ((x + (q - y)) % q)
unfolding ◌-ℤ◌ mod_q
mod_q-sub x y h = ground arith

expand : (a b : ℕ) → a * b ≡ q * (a * (b / q)) + a * (b % q)
expand a b =
    ap (◌*◌ a) (sym (div-add-mod b q))
    ∙ mul-add a (q * (b / q)) (b % q)
    ∙ ap (λ s. s + a * (b % q)) (mul_left_comm a q (b / q))

pub mul-mod_right_q : (a b : ℕ) → (a * (b % q)) % q ≡ (a * b) % q
mul-mod_right_q a b = omega (arith, expand a b)

-- What the forward butterfly leaves in its two places, and what the inverse one leaves.
abbrev pub upper : ℕ → ℕ → ℕ → ℕ
upper z x y = (x + z * y % q) % q

abbrev pub lower : ℕ → ℕ → ℕ → ℕ
lower z x y = (x + (q - z * y % q)) % q

abbrev pub inverse_upper : ℕ → ℕ → ℕ
inverse_upper x y = (x + y) % q

abbrev pub inverse_lower : ℕ → ℕ → ℕ → ℕ
inverse_lower z x y = z * ((x + (q - y)) % q) % q

abbrev pub scale : ℕ → ℕ → ℕ
scale c x = c * x % q

-- c times the sum and the difference of x and t.
both :
    (c x t : ℕ)
    → t < q
    → ((scale c ((x + t) % q) + scale c ((x + (q - t)) % q)) % q ≡ (2 * c) * x % q)
      × ((scale c ((x + t) % q) + (q - scale c ((x + (q - t)) % q))) % q ≡ (2 * c) * t % q)
both c x t h =
    let sum : c * (x + t) ≡ c * x + c * t = mul-add c x t in
    let difference : c * (x + (q - t)) + c * t ≡ c * x + c * q =
      sym (mul-add c (x + (q - t)) t) ∙ ap (◌*◌ c) (omega arith) ∙ mul-add c x q in
    (
      omega (arith, expand c (x + t), expand c (x + (q - t)), sum, difference, mul_assoc 2 c x),
      omega (arith, expand c (x + t), expand c (x + (q - t)), sum, difference, mul_assoc 2 c t),
    )

pub inverse_upper-scale :
    (c z x y : ℕ) → inverse_upper (scale c (upper z x y)) (scale c (lower z x y)) ≡ scale (2 * c) x
inverse_upper-scale c z x y = (both c x (z * y % q) (mod-lt (z * y) (omega arith))).0

-- z' undoes z.
cancel : (z z' y : ℕ) → z * z' % q ≡ 1 → z' * (z * y % q) % q ≡ y % q
cancel z z' y h =
    mul-mod_right_q z' (z * y)
    ∙ ap (λ s. s % q)
        (sym (mul_assoc z' z y) ∙ ap (λ s. s * y) (mul_comm z' z) ∙ mul_comm (z * z') y)
    ∙ sym (mul-mod_right_q y (z * z'))
    ∙ ap (λ s. y * s % q) h
    ∙ omega arith

pub inverse_lower-scale :
    (c z z' x y : ℕ)
    → z * z' % q ≡ 1
    → inverse_lower z' (scale c (upper z x y)) (scale c (lower z x y)) ≡ scale (2 * c) y
inverse_lower-scale c z z' x y h =
    let t = z * y % q in
    let d = (both c x t (mod-lt (z * y) (omega arith))).1 in
    ap (λ s. z' * s % q) d
    ∙ mul-mod_right_q z' (2 * c * t)
    ∙ ap (λ s. s % q) (mul_left_comm z' (2 * c) t)
    ∙ sym (mul-mod_right_q (2 * c) (z' * t))
    ∙ ap (λ s. 2 * c * s % q) (cancel z z' y h)
    ∙ mul-mod_right_q (2 * c) y
