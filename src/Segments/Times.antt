-- ===== src/Segments/Times.antt =====
-- Times and lists of segments in order, for SegmentPlanner of
-- libneognss-obs/src/reconstruction.cpp.
use neo_gnss_observatory.Base.{
  ℕ, zero, suc, ◌+◌, ◌*◌, ◌/◌, ◌⊎◌, ◌<◌, ◌≡◌, refl, ap, Bool, true, false, not, List, [], ◌∷◌, ◌++◌,
  Option, none, some, arith, ◌==◌, if◌then◌else◌, length, Bool-cases, inl, inr,
}
use neo_gnss_observatory.Base.Int.{
  ℤ, pos, negsuc, sub_ℕ, pos_part, neg_part, ◌+ℤ◌, ◌-ℤ◌, ◌≤ℤ◌, ltb_ℤ, ◌==ℤ◌, quot,
}
use neo_gnss_observatory.Segments.Plan.{Segment, Member}
use neo_gnss_observatory.Segments.Flush.{day_ms, at_index, filled}

infix 50 ◌<ℤ◌
abbrev pub ◌<ℤ◌ : ℤ → ℤ → Type 0
a <ℤ b = pos_part a + neg_part b < pos_part b + neg_part a

-- From a time to a later one there is no midnight of GPS time after its start: both are before the
-- end of the first day, or inside one of the days that follow.
abbrev pub SameDay : ℤ → ℤ → Type 0
SameDay a b =
    (b <ℤ pos day_ms) ⊎ ((d : ℕ) × (pos (d * day_ms) ≤ℤ a) × (b <ℤ pos (d * day_ms + day_ms)))

-- What a segment is to be: it does not cross midnight, and no interval in it passes the timeout.
abbrev pub IsSegment : ℤ → Segment → Type 0
IsSegment timeout a =
    (a.start_gpst_ms ≤ℤ a.end_gpst_ms)
    × SameDay a.start_gpst_ms a.end_gpst_ms
    × (a.max_observed_interval_ms ≤ℤ timeout)

-- Each segment ends before the next one starts.
abbrev pub InOrder : ℤ → List Segment → Type 0
InOrder timeout [] = Unit
InOrder timeout (a ∷ []) = IsSegment timeout a
InOrder timeout (a ∷ b ∷ rest) =
    IsSegment timeout a × (a.end_gpst_ms <ℤ b.start_gpst_ms) × InOrder timeout (b ∷ rest)

abbrev pub EndsAt : List Segment → ℤ → Type 0
EndsAt [] l = ⊥
EndsAt (a ∷ []) l = a.end_gpst_ms ≡ l
EndsAt (a ∷ b ∷ rest) l = EndsAt (b ∷ rest) l

abbrev pub EndsBefore : List Segment → ℤ → Type 0
EndsBefore [] t = Unit
EndsBefore (a ∷ []) t = a.end_gpst_ms <ℤ t
EndsBefore (a ∷ b ∷ rest) t = EndsBefore (b ∷ rest) t

-- A time that may be added to a segment that ends at `l`.
abbrev pub Follows : ℤ → ℤ → ℤ → Type 0
Follows timeout l time = (l ≤ℤ time) × SameDay l time × ((time -ℤ l) ≤ℤ timeout)

pub within_timeout :
    (timeout l time : ℤ) → ltb_ℤ (l +ℤ timeout) time ≡ false → (time -ℤ l) ≤ℤ timeout
unfolding ◌+ℤ◌ ◌-ℤ◌
within_timeout timeout l time h = ground arith

pub past_timeout :
    (timeout l time : ℤ) → pos 1 ≤ℤ timeout → ltb_ℤ (l +ℤ timeout) time ≡ true → l <ℤ time
unfolding ◌+ℤ◌
past_timeout timeout l time p h = ground arith

pub equal_of_test : (a b : ℤ) → a ==ℤ b ≡ true → a ≡ b
equal_of_test a b h = ground arith

pub test_of_equal : (a : ℤ) → a ==ℤ a ≡ true
test_of_equal a = ground arith

pub le_antisym : (a b : ℤ) → a ≤ℤ b → b ≤ℤ a → a ≡ b
le_antisym a b h k = ground arith

pub not_before : (a b : ℤ) → ltb_ℤ a b ≡ false → b ≤ℤ a
not_before a b h = ground arith

pub SameDay-self : (t : ℤ) → SameDay t t
SameDay-self (negsuc n) = inl (omega arith)
SameDay-self (pos n) = inr (n / day_ms, omega arith, omega arith)

SameDay-through : (a b c : ℤ) → a ≤ℤ b → b ≤ℤ c → SameDay a b → SameDay b c → SameDay a c
SameDay-through a b c h k f (inl g) = inl g
SameDay-through a b c h k (inl f) (inr g) =
    let first : g.0 ≡ 0 = omega (arith, f, g.1) in inl (omega (arith, first, g.2))
SameDay-through a b c h k (inr f) (inr g) =
    let same : f.0 ≡ g.0 = omega (arith, f.1, f.2, g.1, g.2, h, k) in
    inr (f.0, f.1, omega (arith, same, g.2))

same_quot : (l t : ℤ) → l ≤ℤ t → quot t day_ms ≡ quot l day_ms → SameDay l t
unfolding quot
same_quot l (negsuc b) h e = inl (omega arith)
same_quot (pos a) (pos b) h e =
    let q : b / day_ms ≡ a / day_ms = ap pos_part e in
    inr (a / day_ms, omega arith, omega (arith, q))
same_quot (negsuc a) (pos b) h e =
    let q : b / day_ms ≡ pos_part (sub_ℕ 0 (suc a / day_ms)) = ap pos_part e in
    let z : pos_part (sub_ℕ 0 (suc a / day_ms)) ≡ 0 = ground arith in inl (omega (arith, q, z))

pub SameDay-of : (l t : ℤ) → l ≤ℤ t → not (quot t day_ms ==ℤ quot l day_ms) ≡ false → SameDay l t
SameDay-of l t k h =
    let e : quot t day_ms ==ℤ quot l day_ms ≡ true = ground arith in
    same_quot l t k (equal_of_test (quot t day_ms) (quot l day_ms) e)

pub later_day :
    (l t : ℤ) → ltb_ℤ t l ≡ false → not (quot t day_ms ==ℤ quot l day_ms) ≡ true → l <ℤ t
later_day l t h k = elim (Bool-cases (ltb_ℤ l t)) [
  | inl e ↦ ground arith
  | inr e ↦
      let q = le_antisym l t (not_before t l h) (not_before l t e) in
      let r : quot t day_ms ==ℤ quot l day_ms ≡ true = rw q (test_of_equal (quot t day_ms)) in
      ground arith
]

pub Follows-self : (timeout t : ℤ) → pos 1 ≤ℤ timeout → Follows timeout t t
unfolding ◌-ℤ◌
Follows-self timeout t h = (omega arith, SameDay-self t, ground arith)

pub EndsAt-before : (as' : List Segment) (l t : ℤ) → EndsAt as' l → l <ℤ t → EndsBefore as' t
EndsAt-before [] l t h k = tt
EndsAt-before (a ∷ []) l t h k = rw h k
EndsAt-before (a ∷ b ∷ rest) l t h k = EndsAt-before (b ∷ rest) l t h k

pub InOrder-append :
    (timeout : ℤ) (as' : List Segment) (b : Segment)
    → InOrder timeout as'
    → EndsBefore as' b.start_gpst_ms
    → IsSegment timeout b
    → InOrder timeout (as' ++ (b ∷ []))
InOrder-append timeout [] b h k g = g
InOrder-append timeout (a ∷ []) b h k g = (h, k, g)
InOrder-append timeout (a ∷ c ∷ rest) b h k g =
    (h.0, h.1, InOrder-append timeout (c ∷ rest) b h.2 k g)

pub EndsAt-append : (as' : List Segment) (b : Segment) → EndsAt (as' ++ (b ∷ [])) b.end_gpst_ms
EndsAt-append [] b = refl
EndsAt-append (a ∷ []) b = refl
EndsAt-append (a ∷ c ∷ rest) b = EndsAt-append (c ∷ rest) b

if_bounded : (c : Bool) (a b t : ℤ) → a ≤ℤ t → b ≤ℤ t → (if c then a else b) ≤ℤ t
if_bounded true a b t h k = h
if_bounded false a b t h k = k

filled-IsSegment :
    (timeout : ℤ) (group : List Member) (time : ℤ) (a : Segment)
    → IsSegment timeout a
    → Follows timeout a.end_gpst_ms time
    → IsSegment timeout (filled group time a)
unfolding filled
filled-IsSegment timeout group time a h k = (
  omega (arith, h.0, k.0),
  SameDay-through a.start_gpst_ms a.end_gpst_ms time h.0 k.0 h.1 k.1,
  if_bounded (a.nav_epochs == 0) a.max_observed_interval_ms _ timeout h.2 (
      if_bounded (ltb_ℤ a.max_observed_interval_ms (time -ℤ a.end_gpst_ms)) (time -ℤ a.end_gpst_ms)
        a.max_observed_interval_ms timeout k.2 h.2),
)

-- The segments start when the others do.
abbrev pub StartsAs : List Segment → List Segment → Type 0
StartsAs [] bs = Unit
StartsAs (a ∷ as') [] = ⊥
StartsAs (a ∷ as') (b ∷ bs) = b.start_gpst_ms ≡ a.start_gpst_ms

abbrev pub IsExtended : ℤ → ℤ → List Segment → List Segment → Type 0
IsExtended timeout time as' bs =
    InOrder timeout bs × EndsAt bs time × (length bs ≡ length as') × StartsAs as' bs

abbrev pub OnExtended : ℤ → ℤ → List Segment → Option (List Segment) → Type 0
OnExtended timeout time as' none = ⊥
OnExtended timeout time as' (some bs) = IsExtended timeout time as' bs

consed-OnExtended :
    (timeout time : ℤ) (a b : Segment) (rest : List Segment) (o : Option (List Segment))
    → IsSegment timeout a
    → a.end_gpst_ms <ℤ b.start_gpst_ms
    → OnExtended timeout time (b ∷ rest) o
    → OnExtended timeout time (a ∷ b ∷ rest) (elim o [ none ↦ none | some r ↦ some (a ∷ r) ])
consed-OnExtended timeout time a b rest none h k g = absurd g
consed-OnExtended timeout time a b rest (some []) h k g = absurd g.1
consed-OnExtended timeout time a b rest (some (c ∷ r)) h k g =
    ((h, rw g.3 k, g.0), g.1, ap suc g.2, refl)

-- The last of the segments takes a group whose time follows its end: the list keeps its order, and
-- there is such a segment.
pub at_index-OnExtended :
    (timeout l time : ℤ) (group : List Member) (i : ℕ) (as' : List Segment)
    → suc i ≡ length as'
    → InOrder timeout as'
    → EndsAt as' l
    → Follows timeout l time
    → OnExtended timeout time as' (at_index i (filled group time) as')
unfolding filled
at_index-OnExtended timeout l time group i [] e o h k = absurd h
at_index-OnExtended timeout l time group zero (a ∷ []) e o h k =
    (filled-IsSegment timeout group time a o (rw h k), refl, refl, refl)
at_index-OnExtended timeout l time group zero (a ∷ b ∷ rest) e o h k = absurd (omega (arith, e))
at_index-OnExtended timeout l time group (suc i) (a ∷ []) e o h k = absurd (omega (arith, e))
at_index-OnExtended timeout l time group (suc i) (a ∷ b ∷ rest) e o h k =
    consed-OnExtended timeout time a b rest (at_index i (filled group time) (b ∷ rest)) o.0 o.1
      (at_index-OnExtended timeout l time group i (b ∷ rest) (omega (arith, e)) o.2 h k)
