-- ===== src/Segments/Name/Enough.antt =====
-- The loops of the calendar in the name of a segment have enough steps: they end inside a year and
-- inside a month.
use mathlib.Core.Path.{subst}
use neo_gnss_observatory.Base.{
  ℕ, zero, suc, ◌+◌, ◌-◌, ◌≤◌, ◌<◌, ◌≡◌, refl, Bool, true, false, arith, ltb, Bool-cases, inl, inr,
  if◌then◌else◌,
}
use neo_gnss_observatory.Segments.Name.{year_length, month_length, year_loop, month_loop}
use neo_gnss_observatory.Segments.Name.Distinct.{days_before_year, days_before_month}

year_loop-lt :
    (fuel y n z : ℕ)
    → z ≡ y + fuel
    → days_before_year y + n < days_before_year (suc z)
    → (year_loop fuel y n).1 < year_length (year_loop fuel y n).0
unfolding year_loop
year_loop-lt zero y n z e h =
    let same : z ≡ y = omega (arith, e) in
    let k = subst (λ t. days_before_year y + n < days_before_year t + year_length t) same h in
    omega (arith, k)
year_loop-lt (suc fuel) y n z e h = elim (Bool-cases (ltb n (year_length y))) [
  | inl f ↦ let l : n < year_length y = ground arith in rw (year_loop, f) l
  | inr f ↦
      let le : year_length y ≤ n = ground arith in
      let rest =
        year_loop-lt fuel (suc y) (n - year_length y) z (omega (arith, e)) (omega (arith, h, le)) in
      rw (year_loop, f) rest
]

month_loop-lt :
    (leap : Bool) (fuel m n z : ℕ)
    → z ≡ m + fuel
    → days_before_month leap m + n < days_before_month leap (suc z)
    → (month_loop leap fuel m n).1 < month_length leap (month_loop leap fuel m n).0
unfolding month_loop
month_loop-lt leap zero m n z e h =
    let same : z ≡ m = omega (arith, e) in
    let k =
      subst (λ t. days_before_month leap m + n < days_before_month leap t + month_length leap t)
        same h in
    omega (arith, k)
month_loop-lt leap (suc fuel) m n z e h = elim (Bool-cases (ltb n (month_length leap m))) [
  | inl f ↦ let l : n < month_length leap m = ground arith in rw (month_loop, f) l
  | inr f ↦
      let le : month_length leap m ≤ n = ground arith in
      let rest =
        month_loop-lt leap fuel (suc m) (n - month_length leap m) z (omega (arith, e))
          (omega (arith, h, le)) in
      rw (month_loop, f) rest
]

-- A day of a period of 400 years is a day of the year that is found.
year_loop_enough : (n : ℕ) → n < 146097 → (year_loop 399 0 n).1 < year_length (year_loop 399 0 n).0
year_loop_enough n h =
    let total : days_before_year 400 ≡ 146097 = refl in
    year_loop-lt 399 0 n 399 refl (omega (arith, h, total))

-- A day of a year is a day of the month that is found.
month_loop_enough :
    (leap : Bool) (n : ℕ)
    → n < (if leap then 366 else 365)
    → (month_loop leap 11 1 n).1 < month_length leap (month_loop leap 11 1 n).0
month_loop_enough true n h = month_loop-lt true 11 1 n 12 refl (omega (arith, h))
month_loop_enough false n h = month_loop-lt false 11 1 n 12 refl (omega (arith, h))
