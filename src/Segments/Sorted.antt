-- ===== src/Segments/Sorted.antt =====
-- What a whole use of SegmentPlanner of libneognss-obs/src/reconstruction.cpp gives: segments in the
-- order of time, or an error about the input.
use mathlib.Core.Path.{subst}
use neo_gnss_observatory.Base.{
  ℕ, ◌≡◌, ◌⊎◌, refl, ap, Bool, true, false, List, [], ◌∷◌, ◌++◌, Option, none, some, ◌==◌,
  if◌then◌else◌, Bool-cases, inl, inr,
}
use neo_gnss_observatory.Base.Int.{ℤ, pos, ltb_ℤ, ◌==ℤ◌}
use neo_gnss_observatory.Segments.Plan.{
  Segment, Member, Planner, runs_backwards, Outcome, done, thrown, ◌>>=◌, quarantine_all,
  quarantine, no_nav_interval,
}
use neo_gnss_observatory.Segments.Flush.{
  resumed, opened, written, runs_back, any_conflict, nav_total, flush_group, flush_front, flush,
}
use neo_gnss_observatory.Segments.Times.{InOrder, not_before}
use neo_gnss_observatory.Base.{map}
use neo_gnss_observatory.Archive.Epoch.{ArchiveEpoch, archive_noise, unknown_gpst}
use neo_gnss_observatory.Segments.Plan.{has_flag, Span}
use neo_gnss_observatory.Segments.Feed.{
  Join, Source, Plan, Sized, sized, Artifact, gpst_segment, unassigned_frames, all_unassigned,
  overridden, outside, another_time, construct, join_group, feed_dated, feed_epochs, finish,
  plan_of,
}
use neo_gnss_observatory.Segments.Session.{Input, feed_all, session}
use neo_gnss_observatory.Segments.Order.{
  OnOutcome, OnOutcome->>=, IsStanding, Stands, IsOpen, written-Standing, opened-Open,
  resumed-Ready,
}

OnOutcome-if :
    (unread : Type 0) {A : Type 0} (P : A → Type 0) (c : Bool) (m n : Outcome A)
    → OnOutcome unread P m
    → OnOutcome unread P n
    → OnOutcome unread P (if c then m else n)
OnOutcome-if unread P true m n h k = h
OnOutcome-if unread P false m n h k = k

abbrev pub segments_of : List Sized → List Segment
segments_of [] = []
segments_of (a ∷ rest) = elim a.artifact [
  | gpst_segment x ↦ x ∷ segments_of rest
  | unassigned_frames name spans ↦ segments_of rest
]

segments_of-unassigned :
    (filename : List ℕ → List ℕ) (entries : List (List ℕ × List Span))
    → segments_of (map sized (all_unassigned filename entries)) ≡ []
segments_of-unassigned filename [] = refl
segments_of-unassigned filename (entry ∷ rest) = segments_of-unassigned filename rest

segments_of-segments :
    (as' : List Segment) (rest : List Artifact)
    → segments_of (map sized rest) ≡ []
    → segments_of (map sized (map gpst_segment as' ++ rest)) ≡ as'
segments_of-segments [] rest h = h
segments_of-segments (a ∷ as') rest h = ap (λ bs. a ∷ bs) (segments_of-segments as' rest h)

module _ (unread : Type 0) (given : ℤ) where
  abbrev pub Standing : Planner → Type 0
  Standing s = IsStanding unread given s

  quarantine_all-Standing :
      (ms : List Member) (s : Planner) → Standing s → Standing (quarantine_all ms s)
  unfolding quarantine_all quarantine
  quarantine_all-Standing [] s h = h
  quarantine_all-Standing (m ∷ ms) s h =
      quarantine_all-Standing ms (quarantine no_nav_interval m.path m.epoch s) h

  flush_group-Standing :
      (time : ℤ) (s : Planner) → Standing s → OnOutcome unread Standing (flush_group time s)
  unfolding flush_group
  flush_group-Standing time s h =
      OnOutcome-if unread Standing (nav_total s.group == 0) _ _
        (quarantine_all-Standing s.group s h)
        (OnOutcome-if unread Standing (any_conflict s.group) _ _ tt
          (ahead (Bool-cases (runs_back s.last time))))
    where
      ahead :
          ((runs_back s.last time ≡ true) ⊎ (runs_back s.last time ≡ false))
          → OnOutcome unread Standing (
              if runs_back s.last time
              then thrown runs_backwards
              else opened time
                  (resumed s.last time s).0.segment
                  (resumed s.last time s).0
                  (resumed s.last time s).1
                >>= λ t. written time t.segment t)
      ahead (inl e) = rw e tt
      ahead (inr e) = rw e (
          let r = resumed s.last time s in
          OnOutcome->>= unread (IsOpen unread given time) Standing (opened time r.0.segment r.0 r.1)
            (λ t. written time t.segment t)
            (opened-Open unread given time r.0 r.1 (resumed-Ready unread given time s e h))
            (λ t o. written-Standing unread given time t o))

  flush-Standing : (s : Planner) → Standing s → OnOutcome unread Standing (flush s)
  unfolding flush
  flush-Standing s h = front s.group
    where
      front : (ms : List Member) → OnOutcome unread Standing (flush_front ms s)
      front [] = h
      front (m ∷ ms) = flush_group-Standing m.epoch.gpst_ms s h

  join_group-Standing :
      (path : List ℕ) (e : ArchiveEpoch) (s : Planner)
      → Standing s
      → OnOutcome unread Standing (join_group path e s)
  unfolding join_group
  join_group-Standing path e s h =
      OnOutcome->>= unread Standing Standing
        (if another_time s.group e.gpst_ms then flush s else done s) _
        (OnOutcome-if unread Standing (another_time s.group e.gpst_ms) _ (done s)
          (flush-Standing s h) h)
        (λ t k. k)

  feed_dated-Standing :
      (source : Source) (e : ArchiveEpoch) (s : Planner)
      → Standing s
      → OnOutcome unread Standing (feed_dated source e s)
  unfolding feed_dated quarantine
  feed_dated-Standing source e s h = OnOutcome-if unread Standing (has_flag archive_noise e) _ _ h (
      OnOutcome-if unread Standing (outside source e) _ _ h (
        OnOutcome-if unread Standing (e.gpst_ms ==ℤ unknown_gpst) _ _ h
          (join_group-Standing source.path e s h)))

  pub feed_epochs-Standing :
      (source : Source) (es : List ArchiveEpoch) (s : Planner)
      → Standing s
      → OnOutcome unread Standing (feed_epochs source es s)
  unfolding feed_epochs
  feed_epochs-Standing source [] s h = h
  feed_epochs-Standing source (e ∷ es) s h =
      OnOutcome->>= unread Standing Standing
        (feed_dated source (overridden s.overrides source.path e) s) (feed_epochs source es)
        (feed_dated-Standing source (overridden s.overrides source.path e) s h)
        (λ t k. feed_epochs-Standing source es t k)

  feed_all-Standing :
      (is : List Input) (s : Planner) → Standing s → OnOutcome unread Standing (feed_all is s)
  feed_all-Standing [] s h = h
  feed_all-Standing (i ∷ is) s h =
      OnOutcome->>= unread Standing Standing (feed_epochs i.source i.epochs s) (feed_all is)
        (feed_epochs-Standing i.source i.epochs s h) (λ t k. feed_all-Standing is t k)

  abbrev pub IsSortedPlan : Plan → Type 0
  IsSortedPlan plan = InOrder given (segments_of plan.artifacts)

  plan_of-Sorted :
      (filename : List ℕ → List ℕ) (s : Planner) → Standing s → IsSortedPlan (plan_of filename s)
  plan_of-Sorted filename s h =
      rw
        (segments_of-segments s.artifacts (all_unassigned filename s.unassigned)
          (segments_of-unassigned filename s.unassigned))
        (ordered s.last s.segment s.artifacts s.names h.1)
    where
      ordered :
          (last : Option ℤ) (o : Option ℕ) (as' : List Segment) (names : List (List ℕ))
          → Stands unread given s.timeout last o as' names
          → InOrder given as'
      ordered none none as' names g = rw g.0 tt
      ordered (some l) (some i) as' names g = subst (λ t. InOrder t as') h.0.1 g.1
      ordered none (some i) as' names g = absurd g
      ordered (some l) none as' names g = absurd g

  pub finish-Sorted :
      (filename : List ℕ → List ℕ) (s : Planner)
      → Standing s
      → OnOutcome unread IsSortedPlan (finish filename s)
  unfolding finish
  finish-Sorted filename s h =
      OnOutcome->>= unread Standing IsSortedPlan (flush s) (λ t. done (plan_of filename t))
        (flush-Standing s h) (λ t k. plan_of-Sorted filename t k)

  session-Sorted :
      (filename : List ℕ → List ℕ) (joins : List Join) (is : List Input)
      → OnOutcome unread IsSortedPlan (session filename joins given is)
  unfolding construct
  session-Sorted filename joins is = elim (Bool-cases (ltb_ℤ given (pos 1))) [
    | inl e ↦ rw e tt
    | inr e ↦ rw e (
        OnOutcome->>= unread Standing IsSortedPlan (feed_all is _) (finish filename)
          (feed_all-Standing is _ ((not_before given (pos 1) e, refl), (refl, refl)))
          (λ t k. finish-Sorted filename t k))
  ]

-- The segments of a plan are in the order of time, each ending before the next starts; none has an
-- observed interval above the timeout; and none goes over a midnight of GPS time from the second
-- day on: it ends before the end of the first day, or it starts and ends inside one later day.
pub session-InOrder :
    (filename : List ℕ → List ℕ) (joins : List Join) (timeout : ℤ) (is : List Input) (plan : Plan)
    → session filename joins timeout is ≡ done plan
    → InOrder timeout (segments_of plan.artifacts)
session-InOrder filename joins timeout is plan e =
    subst (OnOutcome Unit (λ p. InOrder timeout (segments_of p.artifacts))) e
      (session-Sorted Unit timeout filename joins is)
