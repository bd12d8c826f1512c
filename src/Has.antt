-- ===== src/Has.antt =====
-- The field of 256 elements of libneognss-obs/src/broadcast_has.cpp, in which HAS pages are coded.
pub mod Inverse
use Prim.Native.Nat.{bit_xor}
use neo_gnss_observatory.Base.{
  ℕ, zero, suc, ◌+◌, ◌*◌, ◌/◌, ◌%◌, ◌≤◌, ◌<◌, ◌≡◌, refl, Bool, true, false, ◌&&◌, arith, ◌==◌,
  if◌then◌else◌, Bool-cases, inl, inr,
}

-- A turn of the loop of `mul` leaves x doubled, without the polynomial 0x11d.
abbrev pub doubled : ℕ → ℕ
doubled x = let y = x * 2 in if y / 256 % 2 == 1 then bit_xor y 0x11d else y

-- The loop of `mul` while y is not 0; y has eight bits, so that eight turns are enough.
unfoldable pub mul_loop : ℕ → (x y r : ℕ) → ℕ
mul_loop zero x y r = r
mul_loop (suc n) x y r =
    let rest = mul_loop n (doubled x) (y / 2) (if y % 2 == 1 then bit_xor r x else r) in
    if y == 0 then r else rest

unfoldable pub mul : ℕ → ℕ → ℕ
unfolding mul_loop
mul a b = mul_loop 8 a b 0 % 256

-- The loop of `power` while n is not 0; the exponents used are below 256.
unfoldable pub power_loop : ℕ → (r x n : ℕ) → ℕ
unfolding mul
power_loop zero r x n = r
power_loop (suc f) r x n =
    let rest = power_loop f (if n % 2 == 1 then mul r x else r) (mul x x) (n / 2) in
    if n == 0 then r else rest

unfoldable pub power : ℕ → ℕ → ℕ
unfolding power_loop
power x n = power_loop 8 1 x n
