-- ===== src/Segments/Name.antt =====
-- The name of a segment, as State::flush of libneognss-obs/src/reconstruction.cpp formats it from a
-- time of GPS: the calendar date and time of day of its second, then its milliseconds. The library's
-- calendar is the Gregorian one. Years are found inside a period of 400 years, which has 146097 days,
-- so that 399 steps over years reach each of them, as 11 do each month.
pub mod Distinct
mod Enough
use neo_gnss_observatory.Base.{
  ℕ, zero, suc, ◌+◌, ◌-◌, ◌*◌, ◌/◌, ◌%◌, Bool, true, false, ◌&&◌, ◌||◌, not, List, [], ◌∷◌, ◌++◌,
  ltb, ◌==◌, if◌then◌else◌,
}
use neo_gnss_observatory.Base.Int.{ℤ, pos, negsuc, ◌+ℤ◌, ◌*ℤ◌, rem}

-- Division that rounds down, as std::chrono::floor, and what is left.
abbrev pub floor_div : ℤ → ℕ → ℤ
floor_div (pos n) d = pos (n / d)
floor_div (negsuc n) d = negsuc (n / d)

abbrev pub floor_mod : ℤ → ℕ → ℕ
floor_mod (pos n) d = n % d
floor_mod (negsuc n) d = d - 1 - n % d

abbrev pub is_leap : ℕ → Bool
is_leap y = y % 4 == 0 && (not (y % 100 == 0) || y % 400 == 0)

abbrev pub year_length : ℕ → ℕ
year_length y = if is_leap y then 366 else 365

abbrev pub month_length : Bool → ℕ → ℕ
month_length leap m =
    if m == 2
    then (if leap then 29 else 28)
    else if m == 4 || m == 6 || m == 9 || m == 11
    then 30
    else 31

-- The year, and the day in it, of the `n`th day from the start of year `y`.
unfoldable pub year_loop : ℕ → ℕ → ℕ → ℕ × ℕ
year_loop zero y n = (y, n)
year_loop (suc fuel) y n = elim (ltb n (year_length y)) [
  | true ↦ (y, n)
  | false ↦ year_loop fuel (suc y) (n - year_length y)
]

unfoldable pub month_loop : Bool → ℕ → ℕ → ℕ → ℕ × ℕ
month_loop leap zero m n = (m, n)
month_loop leap (suc fuel) m n = elim (ltb n (month_length leap m)) [
  | true ↦ (m, n)
  | false ↦ month_loop leap fuel (suc m) (n - month_length leap m)
]

-- A number in decimal with at least `w` digits; a step for each digit, and w + n are enough.
unfoldable pub padded : ℕ → ℕ → ℕ → List ℕ
padded zero w n = []
padded (suc fuel) w n = elim (w == 0 && n == 0) [
  | true ↦ []
  | false ↦ padded fuel (w - 1) (n / 10) ++ ((48 + n % 10) ∷ [])
]

abbrev pub decimal : ℕ → ℕ → List ℕ
decimal w n = padded (w + n) w n

-- `%Y`, and `{:03}`, whose width counts the sign.
abbrev pub year_text : ℤ → List ℕ
year_text (pos n) = decimal 4 n
year_text (negsuc n) = b'-' ∷ decimal 4 (suc n)

abbrev pub milliseconds_text : ℤ → List ℕ
milliseconds_text (pos n) = decimal 3 n
milliseconds_text (negsuc n) = b'-' ∷ decimal 2 (suc n)

-- The days from the start of year 0 to the sixth of January 1980.
abbrev pub gps_epoch_day : ℕ
gps_epoch_day = 723185

abbrev pub year_of : ℤ → ℕ × ℕ → ℤ
year_of day yd = floor_div day 146097 *ℤ pos 400 +ℤ pos yd.0

abbrev pub dashed : List ℕ → List ℕ → List ℕ
dashed xs rest = xs ++ (b'-' ∷ rest)

abbrev pub clock_text : ℕ → List ℕ → List ℕ
clock_text s rest =
    dashed (decimal 2 (s / 3600))
      (dashed (decimal 2 (s / 60 % 60)) (dashed (decimal 2 (s % 60)) rest))

-- ".ubx".
abbrev pub extension : List ℕ
extension = b'.' ∷ b'u' ∷ b'b' ∷ b'x' ∷ []

-- From the year to the extension.
abbrev pub dated : (year milliseconds : List ℕ) → ℕ × ℕ → ℕ → List ℕ
dated year milliseconds md s =
    let time = clock_text s (milliseconds ++ extension) in
    dashed year (dashed (decimal 2 md.0) (dashed (decimal 2 (suc md.1)) (b'-' ∷ time)))

abbrev pub day_name : ℤ → ℕ × ℕ → ℕ → List ℕ → List ℕ
day_name day yd s milliseconds =
    dated (year_text (year_of day yd)) milliseconds (month_loop (is_leap yd.0) 11 1 yd.1) s

abbrev pub second_name : ℤ → ℕ → List ℕ → List ℕ
second_name day s milliseconds =
    day_name day (year_loop 399 0 (floor_mod day 146097)) s milliseconds

-- "GPST-" and the rest.
unfoldable pub segment_name : ℤ → List ℕ
segment_name time =
    b'G'
    ∷ b'P'
    ∷ b'S'
    ∷ b'T'
    ∷ b'-'
    ∷ second_name (floor_div (floor_div time 1000) 86400 +ℤ pos gps_epoch_day)
        (floor_mod (floor_div time 1000) 86400) (milliseconds_text (rem time 1000))
