-- ===== src/Has/Inverse.antt =====
-- Division in the field of libneognss-obs/src/broadcast_has.cpp.
use neo_gnss_observatory.Base.{
  ℕ, zero, suc, ◌+◌, ◌/◌, ◌%◌, ◌^◌, ◌≤◌, ◌<◌, ◌≡◌, refl, ap, ◌∙◌, Bool, true, false, ◌&&◌, arith,
  ◌==◌, if◌then◌else◌, Bool-cases, inl, inr,
}
use Prim.Native.Nat.{bit_xor}
use neo_gnss_observatory.Has.{doubled, mul, power, mul_loop, power_loop}

abbrev all_below : ℕ → (ℕ → Bool) → Bool
all_below zero f = true
all_below (suc n) f = f (suc n) && all_below n f

abbrev is_inverse : ℕ → Bool
is_inverse x = mul x (power x 254) == 1

all_inverse : all_below 255 is_inverse ≡ true
unfolding power power_loop mul mul_loop
all_inverse = refl

at_each : (n : ℕ) (f : ℕ → Bool) (i : ℕ) → all_below n f ≡ true → 1 ≤ i → i ≤ n → f i ≡ true
at_each zero f i e l h = absurd (omega (arith, l, h))
at_each (suc n) f i e l h = elim (Bool-cases (i == suc n)) [
  | inl y ↦ (let k : i ≡ suc n = ground arith in rw k (both (f (suc n)) (all_below n f) e).0)
  | inr y ↦ at_each n f i (both (f (suc n)) (all_below n f) e).1 l (ground arith)
]
  where
    both : (a b : Bool) → a && b ≡ true → (a ≡ true) × (b ≡ true)
    both true true q = (refl, refl)
    both true false q = ground arith
    both false b q = ground arith

-- Every element of the field but 0 has `power(x, 254)` as its inverse, by which the elimination of
-- HAS pages divides.
pub mul-power : (x : ℕ) → 1 ≤ x → x < 256 → mul x (power x 254) ≡ 1
mul-power x l h =
    let e : is_inverse x ≡ true = at_each 255 is_inverse x all_inverse l (omega (arith, h)) in
    equal_of_test (mul x (power x 254)) 1 e
  where
    equal_of_test : (a b : ℕ) → a == b ≡ true → a ≡ b
    equal_of_test a b q = ground arith

mul_loop_zero : (n x r : ℕ) → mul_loop n x 0 r ≡ r
unfolding mul_loop
mul_loop_zero zero x r = refl
mul_loop_zero (suc n) x r = refl

-- The loop of `mul` ends within as many turns as y has bits: more of them change nothing.
pub mul_loop_enough : (n k x y r : ℕ) → y < 2 ^ n → mul_loop (n + k) x y r ≡ mul_loop n x y r
unfolding mul_loop
mul_loop_enough zero k x y r h =
    let z : y ≡ 0 = omega (arith, h) in rw z (mul_loop_zero (0 + k) x r)
mul_loop_enough (suc n) k x y r h =
    let e : suc n + k ≡ suc (n + k) = omega arith in
    ap (λ m. mul_loop m x y r) e
    ∙ ap (λ rest. if y == 0 then r else rest)
        (mul_loop_enough n k (doubled x) (y / 2) (if y % 2 == 1 then bit_xor r x else r)
          (omega (arith, h)))
