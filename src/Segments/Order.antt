-- ===== src/Segments/Order.antt =====
-- The segments of SegmentPlanner of libneognss-obs/src/reconstruction.cpp are in the order of time,
-- and what it can throw.
use neo_gnss_observatory.Base.{
  ℕ, suc, ◌≡◌, refl, sym, ◌∙◌, ap, Bool, true, false, not, List, [], ◌∷◌, Option, none, some, arith,
  length, length-append, All, Bool-cases, inl, inr,
}
use neo_gnss_observatory.Base.Int.{ℤ, pos, negsuc, ◌+ℤ◌, ◌≤ℤ◌, ltb_ℤ, ◌==ℤ◌, quot}
use neo_gnss_observatory.Wire.Text.{equals}
use neo_gnss_observatory.Segments.Plan.{
  Segment, Reason, Planner, Error, unexpected_index, filename_collision, out_of_range, Outcome,
  done, thrown, ◌>>=◌,
}
use neo_gnss_observatory.Segments.Name.{segment_name}
use neo_gnss_observatory.Segments.Name.Distinct.{segment_name_injective}
use neo_gnss_observatory.Segments.Flush.{
  day_ms, resumed, after_gap, after_midnight, contains, opened, opened_segment, with_artifacts,
  written, runs_back,
}
use neo_gnss_observatory.Segments.Spans.{equals→same}
use neo_gnss_observatory.Segments.Times.{
  ◌<ℤ◌, InOrder, EndsAt, EndsBefore, Follows, within_timeout, past_timeout, Follows-self,
  not_before, later_day, SameDay-of, SameDay-self, EndsAt-before, InOrder-append, EndsAt-append,
  OnExtended, at_index-OnExtended,
}

-- The errors that are about the input; the others are not to be. `unread` is what an index that is
-- not accepted comes from, and a name is taken only by a time before the start of GPS time.
abbrev pub IsExpected : Type 0 → Error → Type 0
IsExpected unread out_of_range = ⊥
IsExpected unread (filename_collision name) =
    (t : ℤ) × (u : ℤ) × (t <ℤ pos 0) × (t <ℤ u) × (name ≡ segment_name t) × (name ≡ segment_name u)
IsExpected unread unexpected_index = unread
IsExpected unread _ = Unit

-- `P` holds of what is returned, and what is thrown is about the input.
abbrev pub OnOutcome : Type 0 → {A : Type 0} → (A → Type 0) → Outcome A → Type 0
OnOutcome unread P (done a) = P a
OnOutcome unread P (thrown e) = IsExpected unread e

pub OnOutcome->>= :
    (unread : Type 0) {A B : Type 0} (P : A → Type 0) (Q : B → Type 0) (m : Outcome A)
    (k : A → Outcome B)
    → OnOutcome unread P m
    → ((a : A) → P a → OnOutcome unread Q (k a))
    → OnOutcome unread Q (m >>= k)
OnOutcome->>= unread P Q (done a) k h f = f a h
OnOutcome->>= unread P Q (thrown e) k h f = h

-- Two times with one name are not both from the start of GPS time on.
before_epoch : (t u : ℤ) → segment_name t ≡ segment_name u → t <ℤ u → t <ℤ pos 0
before_epoch (negsuc a) u e h = omega arith
before_epoch (pos a) (negsuc b) e h = absurd (omega (arith, h))
before_epoch (pos a) (pos b) e h = absurd (omega (arith, h, segment_name_injective a b e))

module _ (unread : Type 0) (given : ℤ) where
  -- The planner's timeout is the one given, which is positive.
  abbrev pub IsTimeout : ℤ → Type 0
  IsTimeout t = (pos 1 ≤ℤ t) × (t ≡ given)

  -- The names that are taken are those of times up to the last, or before a time.
  abbrev pub NamedUpTo : ℤ → List (List ℕ) → Type 0
  NamedUpTo l names = All (λ name. (t : ℤ) × (name ≡ segment_name t) × (t ≤ℤ l)) names

  abbrev pub NamedBefore : ℤ → List (List ℕ) → Type 0
  NamedBefore l names = All (λ name. (t : ℤ) × (name ≡ segment_name t) × (t <ℤ l)) names

  -- Between two groups: no segment before the first group, an open one after it.
  abbrev pub Stands : ℤ → Option ℤ → Option ℕ → List Segment → List (List ℕ) → Type 0
  Stands timeout none none as' names = (as' ≡ []) × (names ≡ [])
  Stands timeout none (some i) as' names = ⊥
  Stands timeout (some l) none as' names = ⊥
  Stands timeout (some l) (some i) as' names =
      (suc i ≡ length as') × InOrder timeout as' × EndsAt as' l × NamedUpTo l names

  abbrev pub IsStanding : Planner → Type 0
  IsStanding s = IsTimeout s.timeout × Stands s.timeout s.last s.segment s.artifacts s.names

  -- Before a segment takes the group of a time: none, or one that it follows.
  abbrev pub Ready : ℤ → ℤ → Option ℕ → List Segment → List (List ℕ) → Type 0
  Ready timeout time none as' names =
      InOrder timeout as' × EndsBefore as' time × NamedBefore time names
  Ready timeout time (some i) as' names =
      (l : ℤ) × (suc i ≡ length as')
      × InOrder timeout as'
      × EndsAt as' l
      × Follows timeout l time
      × NamedUpTo time names

  abbrev pub IsReady : ℤ → Planner → Type 0
  IsReady time s = IsTimeout s.timeout × Ready s.timeout time s.segment s.artifacts s.names

  abbrev pub IsOpen : ℤ → Planner → Type 0
  IsOpen time s =
      (i : ℕ) × (s.segment ≡ some i)
      × IsTimeout s.timeout
      × Ready s.timeout time (some i) s.artifacts s.names

  UpTo-later : (l t : ℤ) (names : List (List ℕ)) → l ≤ℤ t → NamedUpTo l names → NamedUpTo t names
  UpTo-later l t [] k h = tt
  UpTo-later l t (n ∷ ns) k h = ((h.0.0, h.0.1, omega (arith, h.0.2, k)), UpTo-later l t ns k h.1)

  UpTo-before : (l t : ℤ) (names : List (List ℕ)) → l <ℤ t → NamedUpTo l names → NamedBefore t names
  UpTo-before l t [] k h = tt
  UpTo-before l t (n ∷ ns) k h = ((h.0.0, h.0.1, omega (arith, h.0.2, k)), UpTo-before l t ns k h.1)

  Before-UpTo : (t : ℤ) (names : List (List ℕ)) → NamedBefore t names → NamedUpTo t names
  Before-UpTo t [] h = tt
  Before-UpTo t (n ∷ ns) h = ((h.0.0, h.0.1, omega (arith, h.0.2)), Before-UpTo t ns h.1)

  with_artifacts-Standing :
      (time : ℤ) (s : Planner) (i : ℕ) (o : Option (List Segment))
      → IsTimeout s.timeout
      → s.segment ≡ some i
      → suc i ≡ length s.artifacts
      → NamedUpTo time s.names
      → OnExtended s.timeout time s.artifacts o
      → OnOutcome unread IsStanding (with_artifacts time s o)
  with_artifacts-Standing time s i none p e f n h = h
  with_artifacts-Standing time s i (some bs) p e f n h = (p, rw e (f ∙ sym h.2, h.0, h.1, n))

  pub written-Standing :
      (time : ℤ) (s : Planner)
      → IsOpen time s
      → OnOutcome unread IsStanding (written time s.segment s)
  unfolding written
  written-Standing time s h = at s.segment h.1
    where
      at : (o : Option ℕ) → o ≡ some h.0 → OnOutcome unread IsStanding (written time o s)
      at none e = ground arith
      at (some i) e =
          let r = h.3 in
          let j : i ≡ h.0 = ground arith in
          with_artifacts-Standing time s i _ h.2 (h.1 ∙ sym e) (ap suc j ∙ r.1) r.5 (
            at_index-OnExtended s.timeout r.0 time s.group i s.artifacts (ap suc j ∙ r.1) r.2 r.3
              r.4)

  -- A name that is taken is that of an earlier time.
  earlier :
      (time : ℤ) (name : List ℕ) (names : List (List ℕ))
      → NamedBefore time names
      → contains names name ≡ true
      → (t : ℤ) × (name ≡ segment_name t) × (t <ℤ time)
  earlier time name [] h e = absurd (ground arith)
  earlier time name (n ∷ ns) h e = elim (Bool-cases (equals n name)) [
    | inl f ↦ (h.0.0, sym (equals→same n name f) ∙ h.0.1, h.0.2)
    | inr f ↦ earlier time name ns h.1 (let k : contains ns name ≡ true = ground arith in k)
  ]

  pub opened-Open :
      (time : ℤ) (s : Planner) (reason : Reason)
      → IsReady time s
      → OnOutcome unread (IsOpen time) (opened time s.segment s reason)
  unfolding opened
  opened-Open time s reason h = at s.segment refl h.1
    where
      at :
          (o : Option ℕ)
          → s.segment ≡ o
          → Ready s.timeout time o s.artifacts s.names
          → OnOutcome unread (IsOpen time) (opened time o s reason)
      at (some i) e r = (i, e, h.0, r)
      at none e r =
          let new = opened_segment s.timeout time (segment_name time) reason in
          elim (Bool-cases (contains s.names (segment_name time))) [
            | inl f ↦
                let k = earlier time (segment_name time) s.names r.2 f in
                rw f (k.0, time, before_epoch k.0 time (sym k.1) k.2, k.2, k.1, refl)
            | inr f ↦ rw f (
              length s.artifacts,
              refl,
              h.0,
              (
                time,
                omega (arith, length-append s.artifacts (new ∷ [])),
                InOrder-append s.timeout s.artifacts new r.0 r.1
                    (omega arith, SameDay-self time, omega (arith, h.0.0)),
                EndsAt-append s.artifacts new,
                Follows-self s.timeout time h.0.0,
                ((time, refl, omega arith), Before-UpTo time s.names r.2),
              ),
            )
          ]

  unready :
      (l time : ℤ) (s : Planner) (i : ℕ)
      → IsTimeout s.timeout
      → Stands s.timeout (some l) (some i) s.artifacts s.names
      → l <ℤ time
      → IsTimeout s.timeout × Ready s.timeout time none s.artifacts s.names
  unready l time s i p g k =
      (p, (g.1, EndsAt-before s.artifacts l time g.2 k, UpTo-before l time s.names k g.3))

  -- The two tests of `flush` on the time of the last group.
  tested-Ready :
      (late other : Bool) (l time : ℤ) (i : ℕ) (s : Planner)
      → IsTimeout s.timeout
      → s.segment ≡ some i
      → Stands s.timeout (some l) (some i) s.artifacts s.names
      → (late ≡ true → l <ℤ time)
      → (other ≡ true → l <ℤ time)
      → (late ≡ false → other ≡ false → Follows s.timeout l time)
      → IsReady time (after_midnight other (after_gap late l time s)).0
  tested-Ready true true l time i s p f g a b c = unready l time s i p g (a refl)
  tested-Ready true false l time i s p f g a b c = unready l time s i p g (a refl)
  tested-Ready false true l time i s p f g a b c = unready l time s i p g (b refl)
  tested-Ready false false l time i s p f g a b c =
      let k = c refl refl in (p, rw f (l, g.0, g.1, g.2, k, UpTo-later l time s.names k.0 g.3))

  pub resumed-Ready :
      (time : ℤ) (s : Planner)
      → runs_back s.last time ≡ false
      → IsStanding s
      → IsReady time (resumed s.last time s).0
  unfolding resumed
  resumed-Ready time s b h = at s.last s.segment refl b h.1
    where
      at :
          (last : Option ℤ) (o : Option ℕ)
          → s.segment ≡ o
          → runs_back last time ≡ false
          → Stands s.timeout last o s.artifacts s.names
          → IsReady time (resumed last time s).0
      at none none f b g = (h.0, rw (f, g.0, g.1) (tt, tt, tt))
      at none (some i) f b g = absurd g
      at (some l) none f b g = absurd g
      at (some l) (some i) f b g =
          let other = not (quot time day_ms ==ℤ quot l day_ms) in
          let late = ltb_ℤ (l +ℤ s.timeout) time in
          tested-Ready late other l time i s h.0 f g (past_timeout s.timeout l time h.0.0)
            (later_day l time b)
            (λ e d. (
              omega (arith, not_before time l b),
              SameDay-of l time (not_before time l b) d,
              within_timeout s.timeout l time e,
            ))
