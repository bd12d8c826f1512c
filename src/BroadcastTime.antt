-- ===== src/BroadcastTime.antt =====
-- The arithmetic on ticks of libneognss-obs/src/broadcast_bits.hpp: `nearest_week`, and the rounding
-- of BroadcastBits::offset. A tick is a picosecond; a Tick, a 128-bit integer there, is an integer.
use neo_gnss_observatory.Base.{
  ℕ, suc, ◌+◌, ◌*◌, ◌/◌, ◌%◌, ◌^◌, ◌≤◌, ◌<◌, ◌≡◌, ap, ◌∙◌, ◌&&◌, ◌||◌, false, Option, none, some,
  ltb, ◌==◌, not, if◌then◌else◌, arith, ◌⊎◌,
}
use native.Mathlib.Nat.{add-mul, mod-lt, div-add-mod'}
use neo_gnss_observatory.Base.Int.{ℤ, pos, negsuc, ◌+ℤ◌, ◌-ℤ◌, ◌*ℤ◌, ltb_ℤ, quot}
use neo_gnss_observatory.Wire.Cursor.{BroadcastBits, signed_field}

-- `seconds(604800)` and `seconds(302400)`.
abbrev pub week : ℕ
week = 604800000000000000

abbrev pub half_week : ℕ
half_week = 302400000000000000

abbrev pub settled : ℤ → ℤ → ℤ
settled now t =
    let t' = if ltb_ℤ (pos half_week) (t -ℤ now) then t -ℤ pos week else t in
    if ltb_ℤ (pos half_week) (now -ℤ t') then t' +ℤ pos week else t'

unfoldable pub nearest_week : Option ℤ → ℤ → Option ℤ
nearest_week none tow = none
nearest_week (some now) tow =
    if ltb_ℤ tow (pos 0) || not (ltb_ℤ tow (pos week))
    then none
    else some (settled now (quot now week *ℤ pos week +ℤ tow))

-- The rounding of `offset` for a number of ticks, `d` of which are one.
unfoldable pub rounded : ℕ → ℕ → ℕ
rounded x d =
    let q = x / d in let r = x % d in if ltb d (r * 2) || r * 2 == d && q % 2 == 1 then suc q else q

abbrev pub picoseconds : ℕ
picoseconds = 1000000000000

-- `d` is `Tick(1) << -exp`, for an exponent that is not positive.
unfoldable pub offset : BroadcastBits → (p n places : ℕ) → Option ℤ
unfolding rounded
offset b p n places = elim (signed_field b p n) [
  | none ↦ none
  | some (pos x) ↦ some (pos (rounded (x * picoseconds) (2 ^ places)))
  | some (negsuc x) ↦ some (pos 0 -ℤ pos (rounded (suc x * picoseconds) (2 ^ places)))
]

week_start : (n : ℕ) → (n / week * week ≤ n) × (n < n / week * week + week)
week_start n = omega arith

-- How the time moves, on numbers that are `later` by a week so that none is negative.
moved : ℕ → ℕ → ℕ
moved n a =
    if ltb (half_week + n) a then a else if ltb (half_week + a) n then a + 2 * week else a + week

settled-moved :
    (n a : ℕ) → a < n + week → n < a + week → settled (pos n) (pos a) ≡ pos (moved n a) -ℤ pos week
unfolding ◌+ℤ◌ ◌-ℤ◌ moved
settled-moved n a h k = ground arith

guess : (n tow : ℕ) → quot (pos n) week *ℤ pos week +ℤ pos tow ≡ pos (n / week * week + tow)
unfolding ◌+ℤ◌ ◌*ℤ◌ quot
guess n tow = ground arith

in_week :
    (tow : ℕ) → tow < week → (ltb_ℤ (pos tow) (pos 0) || not (ltb_ℤ (pos tow) (pos week))) ≡ false
in_week tow h = ground arith

first_guess :
    (n tow : ℕ)
    → tow < week
    → nearest_week (some (pos n)) (pos tow) ≡ some (settled (pos n) (pos (n / week * week + tow)))
unfolding nearest_week
first_guess n tow h =
    rw (in_week tow h, nearest_week) (ap (λ a. some (settled (pos n) a)) (guess n tow))

-- For a time that is not negative and a time of week, nearest_week gives a time that is at most
-- half a week from the given one and whose time of week is the one asked for. The time is given a
-- week late, as `t`, since it can be negative.
pub nearest_week-near :
    (n tow : ℕ)
    → tow < week
    → (t : ℕ) × (nearest_week (some (pos n)) (pos tow) ≡ some (pos t -ℤ pos week))
      × (t ≤ n + week + half_week)
      × (n + week ≤ t + half_week)
      × (t % week ≡ tow)
unfolding nearest_week moved
nearest_week-near n tow h =
    let a = n / week * week + tow in
    (
      moved n a,
      first_guess n tow h ∙ ap (λ z. some z) (settled-moved n a (omega arith) (omega arith)),
      ground arith,
      ground arith,
      ground arith,
    )

-- For a divisor above 0 the rounding is to the nearest whole number, and half-way to the even one.
pub rounded-near :
    (x d : ℕ)
    → 0 < d
    → (rounded x d * d * 2 ≤ x * 2 + d)
      × (x * 2 ≤ rounded x d * d * 2 + d)
      × ((rounded x d * d * 2 ≡ x * 2 + d) ⊎ (x * 2 ≡ rounded x d * d * 2 + d)
          → rounded x d % 2 ≡ 0)
unfolding rounded
rounded-near x d h =
    let whole = div-add-mod' x d in
    let below = mod-lt x h in let next = add-mul (x / d) 1 d in ground (arith, whole, below, next)
