-- ===== src/Base/Xor.antt =====
-- The laws of exclusive or that the checksum proofs use, from its lowest digit upwards.
use Prim.Native.Nat.{ℕ, zero, suc, ◌+◌, ◌*◌, ◌/◌, ◌%◌, ◌^◌, ◌≤◌, ◌<◌, digits, differ, bit_xor}
use Prim.Native.Nat.{bit_xor-bitwise}
use native.Mathlib.Nat.{pow-suc, one-le-pow, mod-lt, div-add-mod', add-zero}
use native.Mathlib.Omega.{arith}
use mathlib.Core.Path.{◌≡◌, refl, ap, ◌∙◌}
use mathlib.Core.Logic.{◌⊎◌}

abbrev xor_digits : ℕ → ℕ → ℕ → ℕ
xor_digits n a b = digits (λ y. y) differ n a b

xor_digits_fuel : (n m a b : ℕ) → a ≤ n → a ≤ m → xor_digits n a b ≡ xor_digits m a b
xor_digits_fuel zero zero a b p q = refl
xor_digits_fuel zero (suc m) zero b p q = refl
xor_digits_fuel zero (suc m) (suc a) b p q = absurd (omega arith)
xor_digits_fuel (suc n) zero zero b p q = refl
xor_digits_fuel (suc n) zero (suc a) b p q = absurd (omega arith)
xor_digits_fuel (suc n) (suc m) zero b p q = refl
xor_digits_fuel (suc n) (suc m) (suc a) b p q =
    omega (arith, xor_digits_fuel n m (suc a / 2) (b / 2) (omega arith) (omega arith))

two_digits : (x y : ℕ) → (x ≡ 0) ⊎ (x ≡ 1) → (y ≡ 0) ⊎ (y ≡ 1) → differ x y ≡ (x + y) % 2
two_digits x y p q = ground arith

digit_cases : (x : ℕ) → (x % 2 ≡ 0) ⊎ (x % 2 ≡ 1)
digit_cases x = omega arith

xor_differ : (a b : ℕ) → bit_xor a b ≡ bit_xor (a / 2) (b / 2) * 2 + differ (a % 2) (b % 2)
xor_differ zero b = ground (arith, bit_xor-bitwise 0 b, bit_xor-bitwise 0 (b / 2))
xor_differ (suc a) b = omega (
  arith,
  bit_xor-bitwise (suc a) b,
  bit_xor-bitwise (suc a / 2) (b / 2),
  xor_digits_fuel a (suc a / 2) (suc a / 2) (b / 2) (omega arith) (omega arith),
)

-- The lowest digit of an exclusive or, and the rest.
pub xor_step : (a b : ℕ) → bit_xor a b ≡ bit_xor (a / 2) (b / 2) * 2 + (a % 2 + b % 2) % 2
xor_step a b =
    omega (arith, xor_differ a b, two_digits (a % 2) (b % 2) (digit_cases a) (digit_cases b))

-- Each law is an induction on a bound of the operands, from the halves to the whole.
xor_comm_below : (n a b : ℕ) → a + b ≤ n → bit_xor a b ≡ bit_xor b a
xor_comm_below zero a b h =
    let e : a ≡ 0 = omega arith in let e' : b ≡ 0 = omega arith in rw (e, e')
xor_comm_below (suc n) a b h =
    omega (arith, xor_step a b, xor_step b a, xor_comm_below n (a / 2) (b / 2) (omega arith))

pub xor_comm : (a b : ℕ) → bit_xor a b ≡ bit_xor b a
xor_comm a b = xor_comm_below (a + b) a b (omega arith)

xor_assoc_below : (n a b c : ℕ) → a + b + c ≤ n → bit_xor (bit_xor a b) c ≡ bit_xor a (bit_xor b c)
xor_assoc_below zero a b c h =
    let e : a ≡ 0 = omega arith in
    let e' : b ≡ 0 = omega arith in let e'' : c ≡ 0 = omega arith in rw (e, e', e'')
xor_assoc_below (suc n) a b c h = ground (
  arith,
  xor_step a b,
  xor_step b c,
  xor_step (bit_xor a b) c,
  xor_step a (bit_xor b c),
  xor_assoc_below n (a / 2) (b / 2) (c / 2) (omega arith),
  halve (bit_xor a b) (bit_xor (a / 2) (b / 2)) ((a % 2 + b % 2) % 2),
  halve (bit_xor b c) (bit_xor (b / 2) (c / 2)) ((b % 2 + c % 2) % 2),
)
  where
    halve : (x y d : ℕ) → x ≡ y * 2 + d → d < 2 → (x / 2 ≡ y) × (x % 2 ≡ d)
    halve x y d e l = omega arith

pub xor_assoc : (a b c : ℕ) → bit_xor (bit_xor a b) c ≡ bit_xor a (bit_xor b c)
xor_assoc a b c = xor_assoc_below (a + b + c) a b c (omega arith)

xor_self_below : (n a : ℕ) → a ≤ n → bit_xor a a ≡ 0
xor_self_below zero a h = let e : a ≡ 0 = omega arith in rw e
xor_self_below (suc n) a h = omega (arith, xor_step a a, xor_self_below n (a / 2) (omega arith))

pub xor_self : (a : ℕ) → bit_xor a a ≡ 0
xor_self a = xor_self_below a a (omega arith)

xor-zero_below : (n a : ℕ) → a ≤ n → bit_xor a 0 ≡ a
xor-zero_below zero a h = let e : a ≡ 0 = omega arith in rw e
xor-zero_below (suc n) a h = omega (arith, xor_step a 0, xor-zero_below n (a / 2) (omega arith))

pub xor-zero : (a : ℕ) → bit_xor a 0 ≡ a
xor-zero a = xor-zero_below a a (omega arith)

pub zero-xor : (a : ℕ) → bit_xor 0 a ≡ a
zero-xor a = omega (arith, xor_comm 0 a, xor-zero a)

-- Exclusive or works on each part of a number cut at a digit. `k` counts the digits.
pub xor_split :
    (k a b c d : ℕ)
    → c < 2 ^ k
    → d < 2 ^ k
    → bit_xor (a * 2 ^ k + c) (b * 2 ^ k + d) ≡ bit_xor a b * 2 ^ k + bit_xor c d
xor_split zero a b c d hc hd =
    let e : c ≡ 0 = omega arith in
    let e' : d ≡ 0 = omega arith in
    let f : a * 2 ^ 0 + 0 ≡ a = omega arith in
    let g : b * 2 ^ 0 + 0 ≡ b = omega arith in rw (e, e', f, g) (omega arith)
xor_split (suc k) a b c d hc hd = ground (
  arith,
  xor_step (a * 2 ^ suc k + c) (b * 2 ^ suc k + d),
  xor_step c d,
  pow-suc 2 k,
  ap (λ (t : ℕ). a * t) (pow-suc 2 k),
  ap (λ (t : ℕ). b * t) (pow-suc 2 k),
  ap (λ (t : ℕ). bit_xor a b * t) (pow-suc 2 k),
  xor_split k a b (c / 2) (d / 2) (omega (arith, pow-suc 2 k)) (omega (arith, pow-suc 2 k)),
)

xor-lt_below : (k a b : ℕ) → a < 2 ^ k → b < 2 ^ k → bit_xor a b < 2 ^ k
xor-lt_below zero a b ha hb =
    let e : a ≡ 0 = omega arith in let e' : b ≡ 0 = omega arith in rw (e, e') (omega arith)
xor-lt_below (suc k) a b ha hb = omega (
  arith,
  pow-suc 2 k,
  xor_step a b,
  xor-lt_below k (a / 2) (b / 2) (omega (arith, pow-suc 2 k)) (omega (arith, pow-suc 2 k)),
)

pub xor-lt : (k a b : ℕ) → a < 2 ^ k → b < 2 ^ k → bit_xor a b < 2 ^ k
xor-lt k a b ha hb = xor-lt_below k a b ha hb

quotient_parts : (m q r : ℕ) → r < m → ((q * m + r) / m ≡ q) × ((q * m + r) % m ≡ r)
quotient_parts m q r h = grind arith

-- Both operands cut at the same digit.
pub xor_parts :
    (k a b : ℕ)
    → (bit_xor a b / 2 ^ k ≡ bit_xor (a / 2 ^ k) (b / 2 ^ k))
      × (bit_xor a b % 2 ^ k ≡ bit_xor (a % 2 ^ k) (b % 2 ^ k))
xor_parts k a b =
    let pos : 0 < 2 ^ k = one-le-pow k 2 (omega arith) in
    let p = mod-lt a pos in
    let q = mod-lt b pos in
    let e = xor_split k (a / 2 ^ k) (b / 2 ^ k) (a % 2 ^ k) (b % 2 ^ k) p q in
    let e' = rw (div-add-mod' a (2 ^ k), div-add-mod' b (2 ^ k)) at e in
    rw e' (quotient_parts _ _ _ (xor-lt k _ _ p q))

pub xor_mul : (k a b : ℕ) → bit_xor (a * 2 ^ k) (b * 2 ^ k) ≡ bit_xor a b * 2 ^ k
xor_mul k a b =
    let pos : 0 < 2 ^ k = one-le-pow k 2 (omega arith) in
    let e = xor_split k a b 0 0 pos pos in
    let e' = rw (add-zero (a * 2 ^ k), add-zero (b * 2 ^ k)) at e in
    e' ∙ add-zero (bit_xor a b * 2 ^ k)

-- The parts of two pairs, regrouped.
pub xor_exchange :
    (a b c d : ℕ) → bit_xor (bit_xor a b) (bit_xor c d) ≡ bit_xor (bit_xor a c) (bit_xor b d)
xor_exchange a b c d = cc (
  xor_assoc a b (bit_xor c d),
  xor_assoc a c (bit_xor b d),
  xor_assoc b c d,
  xor_assoc c b d,
  xor_comm b c,
)

-- A number is the exclusive or of its parts on both sides of a digit.
pub xor_join : (k a b : ℕ) → b < 2 ^ k → bit_xor (a * 2 ^ k) b ≡ a * 2 ^ k + b
xor_join k a b h =
    ground (arith, xor_split k a 0 0 b (one-le-pow k 2 (omega arith)) h, xor-zero a, zero-xor b)
