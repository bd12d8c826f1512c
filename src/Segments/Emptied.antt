-- ===== src/Segments/Emptied.antt =====
-- State::flush of SegmentPlanner in libneognss-obs/src/reconstruction.cpp leaves no group.
use neo_gnss_observatory.Base.{
  ℕ, ◌≡◌, refl, Bool, true, false, List, [], ◌∷◌, Option, none, some, if◌then◌else◌,
}
use neo_gnss_observatory.Base.Int.{ℤ}
use neo_gnss_observatory.Segments.Plan.{Member, Segment, Planner, ◌>>=◌, Outcome, done, thrown}
use neo_gnss_observatory.Segments.Flush.{at_index, filled, written, with_artifacts}
use neo_gnss_observatory.Segments.Flush.{flush, flush_group, flush_front}
use neo_gnss_observatory.Segments.Cover.{OnDone}

abbrev pub IsEmptied : Planner → Type 0
IsEmptied t = t.group ≡ []

pub OnDone-if :
    {A : Type 0} (P : A → Type 0) (c : Bool) (m n : Outcome A)
    → OnDone P m
    → OnDone P n
    → OnDone P (if c then m else n)
OnDone-if P true m n h k = h
OnDone-if P false m n h k = k

with_artifacts-IsEmptied :
    (time : ℤ) (s : Planner) (o : Option (List Segment))
    → OnDone IsEmptied (with_artifacts time s o)
with_artifacts-IsEmptied time s none = tt
with_artifacts-IsEmptied time s (some as') = refl

written-IsEmptied : (time : ℤ) (o : Option ℕ) (s : Planner) → OnDone IsEmptied (written time o s)
unfolding written
written-IsEmptied time none s = tt
written-IsEmptied time (some i) s =
    with_artifacts-IsEmptied time s (at_index i (filled s.group time) s.artifacts)

IsEmptied->>= :
    (m : Outcome Planner) (k : Planner → Outcome Planner)
    → ((t : Planner) → OnDone IsEmptied (k t))
    → OnDone IsEmptied (m >>= k)
IsEmptied->>= (thrown e) k h = tt
IsEmptied->>= (done t) k h = h t

flush_group-IsEmptied : (time : ℤ) (s : Planner) → OnDone IsEmptied (flush_group time s)
unfolding flush_group
flush_group-IsEmptied time s = search (OnDone-if, IsEmptied->>=, written-IsEmptied) depth 20

pub flush-IsEmptied : (s : Planner) → OnDone IsEmptied (flush s)
unfolding flush
flush-IsEmptied s = front s.group refl
  where
    front : (ms : List Member) → s.group ≡ ms → OnDone IsEmptied (flush_front ms s)
    front [] e = e
    front (m ∷ ms) e = flush_group-IsEmptied m.epoch.gpst_ms s
