-- ===== src/Sbas/Igp.antt =====
-- igp_coordinate of libneognss-obs/src/sbas.cpp: the points of a band in the order of the loops,
-- of which the mask's bit picks one, counted from 1.
use neo_gnss_observatory.Base.{
  ℕ, zero, suc, ◌-◌, ◌*◌, ◌%◌, Bool, ◌&&◌, ◌||◌, List, [], ◌∷◌, ◌++◌, Option, none, ltb, ◌==◌,
  if◌then◌else◌, get_elem?,
}
use neo_gnss_observatory.Base.Int.{ℤ, pos, ◌+ℤ◌, ◌-ℤ◌, ◌==ℤ◌}

-- `n` numbers from `from` in steps.
abbrev pub stepped : ℤ → ℕ → ℕ → List ℤ
stepped from step zero = []
stepped from step (suc n) = from ∷ stepped (from +ℤ pos step) step n

abbrev pub minus : ℕ → ℤ
minus n = pos 0 -ℤ pos n

abbrev pub when : Bool → List ℤ → List ℤ
when c xs = if c then xs else []

-- The latitudes of a column at a longitude.
unfoldable pub latitudes : ℕ → ℤ → List ℤ
unfolding ◌+ℤ◌ ◌-ℤ◌
latitudes column lon =
    let even = column % 2 == 0 in
    let south = lon ==ℤ minus 140 || lon ==ℤ minus 50 || lon ==ℤ pos 40 || lon ==ℤ pos 130 in
    let north = lon ==ℤ minus 180 || lon ==ℤ minus 90 || lon ==ℤ pos 0 || lon ==ℤ pos 90 in
    when (even && south) (minus 85 ∷ [])
    ++ (when even (minus 75 ∷ minus 65 ∷ [])
        ++ (stepped (minus 55) 5 23
            ++ (when even (pos 65 ∷ pos 75 ∷ []) ++ when (even && north) (pos 85 ∷ []))))

abbrev pub at_longitude : ℤ → List ℤ → List (ℤ × ℤ)
at_longitude lon [] = []
at_longitude lon (lat ∷ lats) = (lat, lon) ∷ at_longitude lon lats

-- The columns from `column` on, `n` of them.
unfoldable pub columns : ℕ → ℕ → ℕ → List (ℤ × ℤ)
unfolding latitudes ◌+ℤ◌ ◌-ℤ◌
columns band column zero = []
columns band column (suc n) =
    let lon = minus 180 +ℤ pos (band * 40) +ℤ pos (column * 5) in
    at_longitude lon (latitudes column lon) ++ columns band (suc column) n

abbrev pub at_latitude : ℤ → List ℤ → List (ℤ × ℤ)
at_latitude lat [] = []
at_latitude lat (lon ∷ lons) = (lat, lon) ∷ at_latitude lat lons

-- The points around a pole: the longitudes from -180 below 180, or from -170.
unfoldable pub polar : ℕ → List (ℤ × ℤ)
unfolding ◌+ℤ◌ ◌-ℤ◌
polar band =
    let side = λ (n : ℕ). if band == 9 then pos n else minus n in
    let last = if band == 10 then minus 170 else minus 180 in
    at_latitude (side 60) (stepped (minus 180) 5 72)
    ++ (at_latitude (side 65) (stepped (minus 180) 10 36)
        ++ (at_latitude (side 70) (stepped (minus 180) 10 36)
            ++ (at_latitude (side 75) (stepped (minus 180) 10 36)
                ++ at_latitude (side 85) (stepped last 30 12))))

unfoldable pub igp_coordinate : ℕ → ℕ → Option (ℤ × ℤ)
unfolding columns polar
igp_coordinate band mask_bit =
    if ltb 10 band || mask_bit == 0
    then none
    else get_elem? (if ltb band 9 then columns band 0 8 else polar band) (mask_bit - 1)
