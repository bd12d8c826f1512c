-- ===== src/Sbas/Grid.antt =====
-- The ionospheric grid points of igp_coordinate in libneognss-obs/src/sbas.cpp.
use neo_gnss_observatory.Base.{
  ℕ, zero, suc, ◌+◌, ◌-◌, ◌*◌, ◌≤◌, ◌<◌, ◌≡◌, refl, ap, Bool, true, false, ◌&&◌, ◌||◌, not, List,
  [], ◌∷◌, Option, none, some, arith, ltb, leb, ◌==◌, if◌then◌else◌, ltb→lt, leb→le, get_elem?,
  length, Bool-cases, inl, inr, ◌⊎◌,
}
use neo_gnss_observatory.Base.Int.{ℤ, pos, pos_part, neg_part, negsuc, ltb_ℤ, ◌≤ℤ◌, ◌+ℤ◌, ◌-ℤ◌}
use neo_gnss_observatory.Sbas.Igp.{igp_coordinate, columns, polar, latitudes}

-- The points of a band in the order of their numbers.
abbrev pub points : ℕ → List (ℤ × ℤ)
points band = if ltb band 9 then columns band 0 8 else polar band

abbrev on_earth : ℤ × ℤ → Bool
on_earth p =
    not (ltb_ℤ (pos 85) p.0)
    && not (ltb_ℤ p.0 (negsuc 84))
    && not (ltb_ℤ p.1 (negsuc 179))
    && ltb_ℤ p.1 (pos 180)

abbrev every : (ℤ × ℤ → Bool) → List (ℤ × ℤ) → Bool
every f [] = true
every f (p ∷ ps) = f p && every f ps

abbrev each_below : ℕ → (ℕ → Bool) → Bool
each_below zero f = true
each_below (suc n) f = f n && each_below n f

all_on_earth : each_below 11 (λ band. every on_earth (points band)) ≡ true
unfolding columns polar latitudes ◌+ℤ◌ ◌-ℤ◌
all_on_earth = refl

-- The bands of the meridians go from west to east and from south to north, the polar ones from the
-- equator to the pole and from west to east.
abbrev key : ℕ → ℤ × ℤ → ℕ
key band p =
    let east = pos_part (p.1 +ℤ pos 180) in
    if ltb band 9
    then east * 200 + pos_part (p.0 +ℤ pos 90)
    else (pos_part p.0 + neg_part p.0) * 400 + east

abbrev rising : (ℤ × ℤ → ℕ) → List (ℤ × ℤ) → Bool
rising f [] = true
rising f (p ∷ []) = true
rising f (p ∷ q ∷ rest) = ltb (f p) (f q) && rising f (q ∷ rest)

all_rising :
    each_below 11 (λ band. rising (key band) (points band) && leb (length (points band)) 201) ≡ true
unfolding columns polar latitudes ◌+ℤ◌ ◌-ℤ◌
all_rising = refl

left_true : (a b : Bool) → a && b ≡ true → a ≡ true
left_true a b h = ground arith

right_true : (a b : Bool) → a && b ≡ true → b ≡ true
right_true a b h = ground arith

at_each : (n : ℕ) (f : ℕ → Bool) (i : ℕ) → each_below n f ≡ true → i < n → f i ≡ true
at_each zero f i e h = absurd (omega (arith, h))
at_each (suc n) f i e h = elim (Bool-cases (i == n)) [
  | inl y ↦ (let k : i ≡ n = ground arith in rw k (left_true (f n) (each_below n f) e))
  | inr y ↦ at_each n f i (right_true (f n) (each_below n f) e) (ground arith)
]

some_injective : {A : Type 0} (a b : A) → some a ≡ some b → a ≡ b
some_injective a b e = ap (λ o. elim o [ none ↦ a | some x ↦ x ]) e

risen :
    (band : ℕ) → band < 11 → (rising (key band) (points band) ≡ true) × (length (points band) ≤ 201)
risen band h =
    let up =
      at_each 11 (λ n. rising (key n) (points n) && leb (length (points n)) 201) band all_rising
        h in
    (
      left_true (rising (key band) (points band)) _ up,
      leb→le (length (points band)) 201 (right_true (rising (key band) (points band)) _ up),
    )

above_head :
    (f : ℤ × ℤ → ℕ) (p q : ℤ × ℤ) (ps : List (ℤ × ℤ)) (j : ℕ)
    → rising f (p ∷ ps) ≡ true
    → get_elem? ps j ≡ some q
    → f p < f q
above_head f p q (r ∷ ps) zero e h =
    let l : f p < f r = ltb→lt (f p) (f r) (left_true (ltb (f p) (f r)) _ e) in
    rw⁻¹ (some_injective r q h) l
above_head f p q (r ∷ ps) (suc j) e h =
    let l : f p < f r = ltb→lt (f p) (f r) (left_true (ltb (f p) (f r)) _ e) in
    omega (arith, l, above_head f r q ps j (right_true (ltb (f p) (f r)) _ e) h)
above_head f p q [] j e h = ground arith

rising-tail :
    (f : ℤ × ℤ → ℕ) (p : ℤ × ℤ) (ps : List (ℤ × ℤ)) → rising f (p ∷ ps) ≡ true → rising f ps ≡ true
rising-tail f p [] e = refl
rising-tail f p (q ∷ ps) e = right_true (ltb (f p) (f q)) (rising f (q ∷ ps)) e

rising_apart :
    (f : ℤ × ℤ → ℕ) (ps : List (ℤ × ℤ)) (p q : ℤ × ℤ) (i j : ℕ)
    → rising f ps ≡ true
    → get_elem? ps i ≡ some p
    → get_elem? ps j ≡ some q
    → i < j
    → f p < f q
rising_apart f [] p q i j e g h l = ground arith
rising_apart f (x ∷ ps) p q i zero e g h l = absurd (omega (arith, l))
rising_apart f (x ∷ ps) p q zero (suc j) e g h l =
    rw⁻¹ (some_injective x p g) (above_head f x q ps j e h)
rising_apart f (x ∷ ps) p q (suc i) (suc j) e g h l =
    rising_apart f ps p q i j (rising-tail f x ps e) g h (omega (arith, l))

same_place :
    (f : ℤ × ℤ → ℕ) (ps : List (ℤ × ℤ)) (p : ℤ × ℤ) (i j : ℕ)
    → rising f ps ≡ true
    → get_elem? ps i ≡ some p
    → get_elem? ps j ≡ some p
    → i ≡ j
same_place f ps p i j e g h = elim (compare_cases i j) [
  | inl l ↦ absurd (omega (arith, rising_apart f ps p p i j e g h l))
  | inr r ↦ elim r [ inl l ↦ absurd (omega (arith, rising_apart f ps p p j i e h g l)) | inr k ↦ k ]
]
  where
    compare_cases : (i j : ℕ) → (i < j) ⊎ (j < i) ⊎ (i ≡ j)
    compare_cases i j = ground arith

every_at :
    (f : ℤ × ℤ → Bool) (ps : List (ℤ × ℤ)) (i : ℕ) (p : ℤ × ℤ)
    → every f ps ≡ true
    → get_elem? ps i ≡ some p
    → (f p ≡ true) × (i < length ps)
every_at f [] i p e h = ground arith
every_at f (x ∷ ps) zero p e h =
    (rw⁻¹ (some_injective x p h) (left_true (f x) (every f ps) e), omega arith)
every_at f (x ∷ ps) (suc i) p e h =
    let r = every_at f ps i p (right_true (f x) (every f ps) e) h in (r.0, omega (arith, r.1))

guarded :
    (c : Bool) (o : Option (ℤ × ℤ)) (p : ℤ × ℤ)
    → (if c then none else o) ≡ some p
    → (c ≡ false) × (o ≡ some p)
guarded true o p h = ground arith
guarded false o p h = (refl, h)

in_range : (band bit : ℕ) → ltb 10 band || bit == 0 ≡ false → (band ≤ 10) × (1 ≤ bit)
in_range band bit h = ground arith

point_at :
    (band bit : ℕ) (p : ℤ × ℤ)
    → igp_coordinate band bit ≡ some p
    → (band ≤ 10) × (1 ≤ bit) × (get_elem? (points band) (bit - 1) ≡ some p)
unfolding igp_coordinate
point_at band bit p h =
    let g = guarded (ltb 10 band || bit == 0) (get_elem? (points band) (bit - 1)) p h in
    let r = in_range band bit g.0 in (r.0, r.1, g.1)

on_earth_limits :
    (p : ℤ × ℤ)
    → on_earth p ≡ true
    → (p.0 ≤ℤ pos 85) × (negsuc 84 ≤ℤ p.0) × (negsuc 179 ≤ℤ p.1) × (pos_part p.1 < 180)
on_earth_limits p h = ground arith

-- A point that igp_coordinate gives is in one of the eleven bands, its number is from 1 to 201, its
-- latitude from -85 to 85 and its longitude from -180 to below 180 degrees.
pub igp_coordinate-bounds :
    (band bit : ℕ) (p : ℤ × ℤ)
    → igp_coordinate band bit ≡ some p
    → (band ≤ 10)
      × (1 ≤ bit)
      × (bit ≤ 201)
      × (p.0 ≤ℤ pos 85)
      × (negsuc 84 ≤ℤ p.0)
      × (negsuc 179 ≤ℤ p.1)
      × (pos_part p.1 < 180)
igp_coordinate-bounds band bit p h =
    let k = point_at band bit p h in
    let sure = at_each 11 (λ n. every on_earth (points n)) band all_on_earth (omega (arith, k.0)) in
    let r = every_at on_earth (points band) (bit - 1) p sure k.2 in
    let up = risen band (omega (arith, k.0)) in
    let l = on_earth_limits p r.0 in (k.0, k.1, omega (arith, r.1, up.1, k.1), l.0, l.1, l.2, l.3)

-- No two numbers of a band give the same point.
pub igp_coordinate_unique :
    (band bit other : ℕ) (p : ℤ × ℤ)
    → igp_coordinate band bit ≡ some p
    → igp_coordinate band other ≡ some p
    → bit ≡ other
igp_coordinate_unique band bit other p h g =
    let k = point_at band bit p h in
    let m = point_at band other p g in
    let up = risen band (omega (arith, k.0)) in
    omega
      (arith, same_place (key band) (points band) p (bit - 1) (other - 1) up.0 k.2 m.2, k.1, m.1)
