-- ===== src/Segments/Name/Distinct.antt =====
-- The names of two times are not the same.
use neo_gnss_observatory.Base.{
  ℕ, zero, suc, ◌+◌, ◌-◌, ◌*◌, ◌/◌, ◌%◌, ◌≤◌, ◌<◌, ◌≡◌, refl, sym, ap, ◌∙◌, Bool, ◌&&◌, List, [],
  ◌∷◌, ◌++◌, arith, ltb, ◌==◌, All, Bool-cases, inl, inr,
}
use neo_gnss_observatory.Base.Int.{pos, ◌+ℤ◌, ◌*ℤ◌, rem}
use neo_gnss_observatory.Segments.Name.{
  year_length, month_length, is_leap, year_loop, month_loop, padded, decimal, dated, segment_name,
  gps_epoch_day,
}

-- The days before a year of a period, and those before a month of a year.
abbrev pub days_before_year : ℕ → ℕ
days_before_year zero = 0
days_before_year (suc y) = days_before_year y + year_length y

abbrev pub days_before_month : Bool → ℕ → ℕ
days_before_month leap zero = 0
days_before_month leap (suc m) = days_before_month leap m + month_length leap m

year_loop-days :
    (fuel y n : ℕ)
    → (days_before_year (year_loop fuel y n).0 + (year_loop fuel y n).1 ≡ days_before_year y + n)
      × ((year_loop fuel y n).0 ≤ y + fuel)
unfolding year_loop
year_loop-days zero y n = (refl, omega arith)
year_loop-days (suc fuel) y n = elim (Bool-cases (ltb n (year_length y))) [
  | inl e ↦ rw (year_loop, e) (refl, omega arith)
  | inr e ↦
      let later = year_loop-days fuel (suc y) (n - year_length y) in
      let le : year_length y ≤ n = ground arith in
      rw (year_loop, e) (omega (arith, later.0, le), omega (arith, later.1))
]

month_loop-days :
    (leap : Bool) (fuel m n : ℕ)
    → days_before_month leap (month_loop leap fuel m n).0 + (month_loop leap fuel m n).1
      ≡ days_before_month leap m + n
unfolding month_loop
month_loop-days leap zero m n = refl
month_loop-days leap (suc fuel) m n = elim (Bool-cases (ltb n (month_length leap m))) [
  | inl e ↦ rw (month_loop, e) refl
  | inr e ↦
      let later = month_loop-days leap fuel (suc m) (n - month_length leap m) in
      let le : month_length leap m ≤ n = ground arith in
      rw (month_loop, e) (omega (arith, later, le))
]

-- What digits are worth.
abbrev worth : ℕ → List ℕ → ℕ
worth acc [] = acc
worth acc (c ∷ cs) = worth (acc * 10 + (c - 48)) cs

abbrev AreDigits : List ℕ → Type 0
AreDigits cs = All (λ c. 48 ≤ c) cs

worth-append :
    (acc : ℕ) (xs : List ℕ) (d : ℕ) → worth acc (xs ++ (d ∷ [])) ≡ worth acc xs * 10 + (d - 48)
worth-append acc [] d = refl
worth-append acc (x ∷ xs) d = worth-append (acc * 10 + (x - 48)) xs d

AreDigits-append : (xs : List ℕ) (d : ℕ) → AreDigits xs → 48 ≤ d → AreDigits (xs ++ (d ∷ []))
AreDigits-append [] d h k = (k, tt)
AreDigits-append (x ∷ xs) d h k = (h.0, AreDigits-append xs d h.1 k)

padded-worth :
    (fuel w n : ℕ) → w + n ≤ fuel → AreDigits (padded fuel w n) × (worth 0 (padded fuel w n) ≡ n)
unfolding padded
padded-worth zero w n h = (tt, omega (arith, h))
padded-worth (suc fuel) w n h = elim (Bool-cases (w == 0 && n == 0)) [
  | inl e ↦ let z : n ≡ 0 = ground arith in rw (padded, e) (tt, sym z)
  | inr e ↦
      let less : (w - 1) + n / 10 ≤ fuel = ground arith in
      let k = padded-worth fuel (w - 1) (n / 10) less in
      let last = worth-append 0 (padded fuel (w - 1) (n / 10)) (48 + n % 10) in
      rw (padded, e)
        (
          AreDigits-append (padded fuel (w - 1) (n / 10)) (48 + n % 10) k.0 (omega arith),
          last ∙ omega (arith, k.1),
        )
]

abbrev head : List ℕ → ℕ
head [] = 0
head (c ∷ cs) = c

abbrev tail : List ℕ → List ℕ
tail [] = []
tail (c ∷ cs) = cs

-- Digits end at the first character that is none.
digits_split :
    (xs ys : List ℕ) (c d : ℕ) (r q : List ℕ)
    → AreDigits xs
    → AreDigits ys
    → c < 48
    → d < 48
    → xs ++ (c ∷ r) ≡ ys ++ (d ∷ q)
    → (xs ≡ ys) × (r ≡ q)
digits_split [] [] c d r q h k i j e = (refl, ap tail e)
digits_split [] (y ∷ ys) c d r q h k i j e = absurd (omega (arith, ap head e, k.0, i))
digits_split (x ∷ xs) [] c d r q h k i j e = absurd (omega (arith, ap head e, h.0, j))
digits_split (x ∷ xs) (y ∷ ys) c d r q h k i j e =
    let rest = digits_split xs ys c d r q h.1 k.1 i j (ap tail e) in
    let first : x ≡ y = ap head e in (cc, rest.1)

-- Two numbers in decimal at the start of the same text.
decimal_split :
    (w a b c d : ℕ) (r q : List ℕ)
    → c < 48
    → d < 48
    → decimal w a ++ (c ∷ r) ≡ decimal w b ++ (d ∷ q)
    → (a ≡ b) × (r ≡ q)
decimal_split w a b c d r q i j e =
    let m = padded-worth (w + a) w a (omega arith) in
    let n = padded-worth (w + b) w b (omega arith) in
    let s = digits_split (decimal w a) (decimal w b) c d r q m.0 n.0 i j e in
    (sym m.1 ∙ ap (worth 0) s.0 ∙ n.1, s.1)

abbrev SameFields : (ya yb xa xb ma mb da db s t : ℕ) → Type 0
SameFields ya yb xa xb ma mb da db s t =
    (ya ≡ yb)
    × (ma ≡ mb)
    × (da ≡ db)
    × (s / 3600 ≡ t / 3600)
    × (s / 60 % 60 ≡ t / 60 % 60)
    × (s % 60 ≡ t % 60)
    × (xa ≡ xb)

dated-same :
    (ya yb xa xb : ℕ) (md nd : ℕ × ℕ) (s t : ℕ)
    → dated (decimal 4 ya) (decimal 3 xa) md s ≡ dated (decimal 4 yb) (decimal 3 xb) nd t
    → SameFields ya yb xa xb md.0 nd.0 md.1 nd.1 s t
dated-same ya yb xa xb md nd s t e =
    let y = decimal_split 4 ya yb _ _ _ _ (omega arith) (omega arith) e in
    let m = decimal_split 2 md.0 nd.0 _ _ _ _ (omega arith) (omega arith) y.1 in
    let d = decimal_split 2 (suc md.1) (suc nd.1) _ _ _ _ (omega arith) (omega arith) m.1 in
    let h =
      decimal_split 2 (s / 3600) (t / 3600) _ _ _ _ (omega arith) (omega arith) (ap tail d.1) in
    let i = decimal_split 2 (s / 60 % 60) (t / 60 % 60) _ _ _ _ (omega arith) (omega arith) h.1 in
    let j = decimal_split 2 (s % 60) (t % 60) _ _ _ _ (omega arith) (omega arith) i.1 in
    let x = decimal_split 3 xa xb _ _ _ _ (omega arith) (omega arith) j.1 in
    (y.0, m.0, omega (arith, d.0), h.0, i.0, j.0, x.0)

-- The same year of the calendar is the same period and the same year of it.
same_date :
    (a b : ℕ) (yd ye : ℕ × ℕ)
    → a / 146097 * 400 + yd.0 ≡ b / 146097 * 400 + ye.0
    → days_before_year yd.0 + yd.1 ≡ a % 146097
    → days_before_year ye.0 + ye.1 ≡ b % 146097
    → yd.0 ≤ 399
    → ye.0 ≤ 399
    → (month_loop (is_leap yd.0) 11 1 yd.1).0 ≡ (month_loop (is_leap ye.0) 11 1 ye.1).0
    → (month_loop (is_leap yd.0) 11 1 yd.1).1 ≡ (month_loop (is_leap ye.0) 11 1 ye.1).1
    → a ≡ b
same_date a b (y, i) (z, j) e f g l m p q =
    let same : y ≡ z = omega (arith, e, l, m) in
    let first = month_loop-days (is_leap y) 11 1 i in
    let second = month_loop-days (is_leap z) 11 1 j in
    let days : days_before_year y ≡ days_before_year z = ap days_before_year same in
    let months : days_before_month (is_leap y) (month_loop (is_leap y) 11 1 i).0
        ≡ days_before_month (is_leap z) (month_loop (is_leap z) 11 1 j).0 =
      ap (λ t. days_before_month (is_leap t) (month_loop (is_leap y) 11 1 i).0) same
      ∙ ap (days_before_month (is_leap z)) p in
    let one : days_before_month (is_leap y) 1 ≡ days_before_month (is_leap z) 1 =
      ap (λ t. days_before_month (is_leap t) 1) same in
    omega (arith, e, f, g, days, same, first, second, months, one, q)

sum_pos : (a b : ℕ) → pos a +ℤ pos b ≡ pos (a + b)
unfolding ◌+ℤ◌
sum_pos a b = ground arith

product_pos : (a b : ℕ) → pos a *ℤ pos b ≡ pos (a * b)
unfolding ◌*ℤ◌
product_pos a b = ground arith

-- The name of a time from the start of GPS time on, in natural numbers.
name_of :
    (n : ℕ)
    → segment_name (pos n)
      ≡ b'G'
        ∷ b'P'
        ∷ b'S'
        ∷ b'T'
        ∷ b'-'
        ∷ (let day = n / 1000 / 86400 + gps_epoch_day in
            let yd = year_loop 399 0 (day % 146097) in
            dated
              (decimal 4 (day / 146097 * 400 + yd.0))
              (decimal 3 (n % 1000))
              (month_loop (is_leap yd.0) 11 1 yd.1)
              (n / 1000 % 86400))
unfolding segment_name rem
name_of n =
    let day = n / 1000 / 86400 + gps_epoch_day in
    let yd = year_loop 399 0 (day % 146097) in
    rw
      (
        sum_pos (n / 1000 / 86400) gps_epoch_day,
        product_pos (day / 146097) 400,
        sum_pos (day / 146097 * 400) yd.0,
      )
      refl

-- Two times from the start of GPS time on that have the same name are the same.
pub segment_name_injective : (a b : ℕ) → segment_name (pos a) ≡ segment_name (pos b) → a ≡ b
segment_name_injective a b e =
    let day = a / 1000 / 86400 + gps_epoch_day in
    let other = b / 1000 / 86400 + gps_epoch_day in
    let s =
      dated-same _ _ _ _ _ _ _ _
        (ap (λ t. tail (tail (tail (tail (tail t))))) (sym (name_of a) ∙ e ∙ name_of b)) in
    let f = year_loop-days 399 0 (day % 146097) in
    let g = year_loop-days 399 0 (other % 146097) in
    let d = same_date day other _ _ s.0 (omega (arith, f.0)) (omega (arith, g.0)) f.1 g.1 s.1 s.2 in
    omega (arith, d, s.3, s.4, s.5, s.6)
