-- ===== src/Wire/Number.antt =====
-- What the fields of bits are worth: the bits from the first to the last are the binary digits of
-- the value, the first the highest.
use neo_gnss_observatory.Base.{
  ℕ, zero, suc, ◌+◌, ◌-◌, ◌*◌, ◌/◌, ◌%◌, ◌^◌, ◌≤◌, ◌<◌, ◌≡◌, ◌⊎◌, inl, inr, refl, sym, ap, ◌∙◌,
  ◌||◌, true, false, List, none, some, arith, ltb, length, ◌==◌, if◌then◌else◌,
}
use native.Mathlib.Nat.{
  pow-suc, one-le-pow, add-mul, mod-eq_of_lt, pow-le-pow_right, mul_assoc, mul_comm,
  mul-le-mul_right, le-mul_of_pos_right,
}
use neo_gnss_observatory.Base.Int.{ℤ, pos, ◌-ℤ◌}
use neo_gnss_observatory.Wire.Cursor.{
  got, failed, BitCursor, digit, bits_loop, u, s, BroadcastBits, field, signed_field, signed64,
  extended,
}

-- The number whose binary digits are the `n` bits from `bit` on.
abbrev pub number : List ℕ → ℕ → ℕ → ℕ
number bytes bit zero = 0
number bytes bit (suc n) = digit bytes bit * 2 ^ n + number bytes (suc bit) n

digit-lt : (bytes : List ℕ) (bit : ℕ) → digit bytes bit < 2
digit-lt bytes bit = omega arith

times-le : (d P : ℕ) → d < 2 → d * P ≤ P
times-le d P h = omega (arith, mul-le-mul_right P h, add-mul d 1 P)

pub number-lt : (bytes : List ℕ) (bit n : ℕ) → number bytes bit n < 2 ^ n
number-lt bytes bit zero = ground arith
number-lt bytes bit (suc n) =
    let below = number-lt bytes (suc bit) n in
    let top = times-le (digit bytes bit) (2 ^ n) (digit-lt bytes bit) in omega (arith, pow-suc 2 n)

pub bits_loop-number :
    (bytes : List ℕ) (value bit n : ℕ)
    → value * 2 ^ n + number bytes bit n < 2 ^ 64
    → bits_loop bytes value bit n ≡ value * 2 ^ n + number bytes bit n
unfolding bits_loop
bits_loop-number bytes value bit zero h = omega arith
bits_loop-number bytes value bit (suc n) h =
    let d = digit bytes bit in
    let P = 2 ^ n in
    let shift : value * 2 ^ suc n ≡ value * 2 * P =
      ap (λ t. value * t) (pow-suc 2 n ∙ mul_comm P 2) ∙ sym (mul_assoc value 2 P) in
    let split : (value * 2 + d) * P ≡ value * 2 * P + d * P = add-mul (value * 2) d P in
    let total : (value * 2 + d) * P + number bytes (suc bit) n < 2 ^ 64 =
      omega (arith, shift, split, h) in
    let small : value * 2 + d ≤ (value * 2 + d) * P =
      le-mul_of_pos_right (value * 2 + d) (one-le-pow n 2 (omega arith)) in
    let cut : value * 2 % 2 ^ 64 ≡ value * 2 = omega (arith, total, small) in
    rw cut (bits_loop-number bytes (value * 2 + d) (suc bit) n total ∙ omega (arith, shift, split))

pow-le : {n m : ℕ} → n ≤ m → 2 ^ n ≤ 2 ^ m
pow-le h = pow-le-pow_right (omega arith) h

difference : (b l : ℕ) → b ≤ l → l < 2 ^ 64 → (l + 2 ^ 64 - b) % 2 ^ 64 ≡ l - b
difference b l h k = omega arith

admits : (w r : ℕ) → w ≤ 64 → w ≤ r → (ltb 64 w || ltb r w) ≡ false
admits w r h k = ground arith

refuses : (w r : ℕ) → (64 < w) ⊎ (r < w) → (ltb 64 w || ltb r w) ≡ true
refuses w r h = ground arith

admits_field :
    (n size p : ℕ) → n ≤ 63 → p + n ≤ size → (ltb 63 n || ltb size p || ltb (size - p) n) ≡ false
admits_field n size p h k = ground arith

-- On fewer than 2^61 bytes and for a cursor inside them `u` with a width of at most 64 that the remaining bits allow gives the
-- number whose binary digits are the bits from the cursor on, the highest first, and moves the
-- cursor by the width; any other width is an error at the cursor's byte.
pub u-number :
    (c : BitCursor) (width : ℕ)
    → length c.bytes * 8 < 2 ^ 64
    → c.bit ≤ length c.bytes * 8
    → (width ≤ 64
        → c.bit + width ≤ length c.bytes * 8
        → u c width ≡ got (number c.bytes c.bit width, record c { bit = c.bit + width }))
      × ((64 < width) ⊎ (length c.bytes * 8 < c.bit + width) → u c width ≡ failed (c.bit / 8))
unfolding u
u-number c width room within = (reads, fails)
  where
    total : width ≤ 64 → 0 * 2 ^ width + number c.bytes c.bit width < 2 ^ 64
    total h = omega (arith, number-lt c.bytes c.bit width, pow-le h)

    reads :
        width ≤ 64
        → c.bit + width ≤ length c.bytes * 8
        → u c width ≡ got (number c.bytes c.bit width, record c { bit = c.bit + width })
    reads h k =
        let e : bits_loop c.bytes 0 c.bit width ≡ number c.bytes c.bit width =
          bits_loop-number c.bytes 0 c.bit width (total h) ∙ omega arith in
        rw (difference c.bit (length c.bytes * 8) within room)
          (rw (admits width (length c.bytes * 8 - c.bit) h (omega arith)) (rw e refl))

    past :
        (64 < width) ⊎ (length c.bytes * 8 < c.bit + width)
        → (64 < width) ⊎ (length c.bytes * 8 - c.bit < width)
    past (inl h) = inl h
    past (inr h) = inr (omega arith)

    fails : (64 < width) ⊎ (length c.bytes * 8 < c.bit + width) → u c width ≡ failed (c.bit / 8)
    fails h =
        rw (difference c.bit (length c.bytes * 8) within room)
          (rw (refuses width (length c.bytes * 8 - c.bit) (past h)) refl)

field-number :
    (b : BroadcastBits) (p n : ℕ)
    → n ≤ 63
    → p + n ≤ b.size
    → field b p n ≡ some (number b.data' p n)
unfolding field
field-number b p n h k =
    let total : 0 * 2 ^ n + number b.data' p n < 2 ^ 64 =
      omega (arith, number-lt b.data' p n, pow-le h) in
    let e : bits_loop b.data' 0 p n ≡ number b.data' p n =
      bits_loop-number b.data' 0 p n total ∙ omega arith in
    rw (admits_field n b.size p h k) (rw e refl)

-- The two ways to extend a sign agree: by a mask and a bit cast, or by a subtraction.
sign-extension :
    (n v : ℕ)
    → 0 < n
    → n ≤ 63
    → v < 2 ^ n
    → signed64 (extended n v)
      ≡ (if v / 2 ^ (n - 1) % 2 == 1 then pos 0 -ℤ pos (2 ^ n - v) else pos v)
unfolding ◌-ℤ◌
sign-extension n v some_bits most below =
    let P = 2 ^ n in
    let top : P ≤ 2 ^ 63 = pow-le most in
    let cut : v % P ≡ v = mod-eq_of_lt below in ground (arith, cut, top, below)

-- The signed readers of the generated parsers and of the broadcast decoders agree: on the same
-- bytes, fewer than 2^61 of them, at the same position and for a width from 1 to 63 inside both, BitCursor::s and
-- BroadcastBits::s give the same integer.
pub s-signed_field :
    (c : BitCursor) (b : BroadcastBits) (n : ℕ)
    → length c.bytes * 8 < 2 ^ 64
    → b.data' ≡ c.bytes
    → b.size ≤ length c.bytes * 8
    → 0 < n
    → n ≤ 63
    → c.bit + n ≤ b.size
    → (z : ℤ) × (s c n ≡ got (z, record c { bit = c.bit + n })) × (signed_field b c.bit n ≡ some z)
unfolding s signed_field
s-signed_field c b n room same size some_bits most inside =
    let v = number c.bytes c.bit n in
    let read = (u-number c n room (omega arith)).0 (omega arith) (omega arith) in
    let read' : field b c.bit n ≡ some v =
      field-number b c.bit n most inside ∙ ap (λ d. some (number d c.bit n)) same in
    let e = sign-extension n v some_bits most (number-lt c.bytes c.bit n) in
    (signed64 (extended n v), rw (read, s), rw (read', e, signed_field) (unsigned n v some_bits))
  where
    unsigned :
        (n v : ℕ)
        → 0 < n
        → (if n == 0
            then none
            else if v / 2 ^ (n - 1) % 2 == 1
            then some (pos 0 -ℤ pos (2 ^ n - v))
            else some (pos v))
          ≡ some (if v / 2 ^ (n - 1) % 2 == 1 then pos 0 -ℤ pos (2 ^ n - v) else pos v)
    unsigned n v h = ground arith
