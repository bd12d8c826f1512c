-- ===== src/Segments/Cover.antt =====
-- Every byte of the epochs that SegmentPlanner of libneognss-obs/src/reconstruction.cpp is given is
-- in the spans of the plan.
use neo_gnss_observatory.Base.{
  ℕ, ◌+◌, ◌≡◌, refl, ◌∙◌, List, [], ◌∷◌, ◌++◌, Option, none, some, arith, ◌==◌, All, Bool-cases,
  inl, inr,
}
use neo_gnss_observatory.Base.Int.{ℤ}
use neo_gnss_observatory.Segments.Plan.{
  Member, Segment, Planner, Reason, ◌>>=◌, Outcome, done, thrown, no_nav_interval, quarantine,
  quarantine_all,
}
use neo_gnss_observatory.Segments.Name.{segment_name}
use neo_gnss_observatory.Segments.Flush.{
  written, with_artifacts, runs_back, any_conflict, nav_total,
}
use neo_gnss_observatory.Segments.Name.{segment_name}
use neo_gnss_observatory.Segments.Flush.{
  opened, resumed, flush, flush_group, flush_front, opened_segment, contains,
}
use neo_gnss_observatory.Segments.Spans.{
  holds, hits, IsForwardEntry, IsForwardMember, IsForwardSegment, OnSome, IsFilled, group_hits,
  aside_hits, artifact_hits, quarantine_all-hits, quarantine_all-AllForward, at_index-hits,
}

-- `P` holds of what is returned, if anything is.
abbrev pub OnDone : {A : Type 0} → (A → Type 0) → Outcome A → Type 0
OnDone P (done a) = P a
OnDone P (thrown e) = Unit

abbrev pub IsForwardPlanner : Planner → Type 0
IsForwardPlanner s =
    All IsForwardSegment s.artifacts × All IsForwardEntry s.unassigned × All IsForwardMember s.group

module _ (path : List ℕ) (x : ℕ) where
  -- How often the byte is in what the planner holds.
  abbrev pub covered : Planner → ℕ
  covered s =
      artifact_hits path x s.artifacts + aside_hits path x s.unassigned + group_hits path x s.group

  abbrev pub Keeps : Planner → Planner → Type 0
  Keeps s t = (covered t ≡ covered s) × IsForwardPlanner t

  with_artifacts-Keeps :
      (time : ℤ) (s : Planner) (o : Option (List Segment))
      → IsForwardPlanner s
      → OnSome (IsFilled path x s.group s.artifacts) o
      → OnDone (Keeps s) (with_artifacts time s o)
  with_artifacts-Keeps time s none h k = tt
  with_artifacts-Keeps time s (some as') h k = (omega (arith, k.0), (k.1, h.1, tt))

  written-Keeps :
      (time : ℤ) (o : Option ℕ) (s : Planner)
      → IsForwardPlanner s
      → OnDone (Keeps s) (written time o s)
  unfolding written
  written-Keeps time none s h = tt
  written-Keeps time (some i) s h =
      with_artifacts-Keeps time s _ h (at_index-hits path x i s.group time s.artifacts h.0 h.2)

  resumed-Keeps :
      (last : Option ℤ) (time : ℤ) (s : Planner)
      → IsForwardPlanner s
      → Keeps s (resumed last time s).0
  unfolding resumed
  resumed-Keeps last time s h = ground arith

  append-artifact_hits :
      (as' : List Segment) (a : Segment)
      → artifact_hits path x (as' ++ (a ∷ [])) ≡ artifact_hits path x as' + hits path x a.spans
  append-artifact_hits [] a = omega arith
  append-artifact_hits (b ∷ rest) a = omega (arith, append-artifact_hits rest a)

  pub append-group_hits :
      (ms : List Member) (m : Member)
      → group_hits path x (ms ++ (m ∷ []))
        ≡ group_hits path x ms + holds path x m.path m.epoch.first m.epoch.last
  append-group_hits [] m = omega arith
  append-group_hits (n ∷ rest) m = omega (arith, append-group_hits rest m)

  pub append-All :
      {A : Type 0} (P : A → Type 0) (xs : List A) (a : A) → All P xs → P a → All P (xs ++ (a ∷ []))
  append-All P [] a h k = (k, tt)
  append-All P (y ∷ ys) a h k = (h.0, append-All P ys a h.1 k)

  opened-Keeps :
      (time : ℤ) (o : Option ℕ) (s : Planner) (reason : Reason)
      → IsForwardPlanner s
      → OnDone (Keeps s) (opened time o s reason)
  unfolding opened
  opened-Keeps time (some i) s reason h = (refl, h)
  opened-Keeps time none s reason h =
      let new = opened_segment s.timeout time (segment_name time) reason in
      elim (Bool-cases (contains s.names (segment_name time))) [
        | inl c ↦ rw c tt
        | inr c ↦ rw c (
          omega (arith, append-artifact_hits s.artifacts new),
          (append-All IsForwardSegment s.artifacts new h.0 tt, h.1, h.2),
        )
      ]

  -- A step after a step.
  Keeps->>= :
      (s : Planner) (m : Outcome Planner) (k : Planner → Outcome Planner)
      → OnDone (Keeps s) m
      → ((t : Planner) → IsForwardPlanner t → OnDone (Keeps t) (k t))
      → OnDone (Keeps s) (m >>= k)
  Keeps->>= s (thrown e) k h f = tt
  Keeps->>= s (done t) k h f = later (k t) (f t h.1)
    where
      later : (o : Outcome Planner) → OnDone (Keeps t) o → OnDone (Keeps s) o
      later (thrown e) g = tt
      later (done u) g = (g.0 ∙ h.0, g.1)

  quarantine_all-artifacts :
      (ms : List Member) (s : Planner) → (quarantine_all ms s).artifacts ≡ s.artifacts
  unfolding quarantine_all quarantine
  quarantine_all-artifacts [] s = refl
  quarantine_all-artifacts (m ∷ ms) s =
      quarantine_all-artifacts ms (quarantine no_nav_interval m.path m.epoch s)

  quarantine_all-Keeps :
      (s : Planner)
      → IsForwardPlanner s
      → Keeps s (record (quarantine_all s.group s) { group = [] })
  quarantine_all-Keeps s h = rw (quarantine_all-artifacts s.group s) (
    omega (arith, quarantine_all-hits path x s.group s h.1 h.2),
    (h.0, quarantine_all-AllForward s.group s h.1 h.2, tt),
  )

  flush_group-Keeps :
      (time : ℤ) (s : Planner) → IsForwardPlanner s → OnDone (Keeps s) (flush_group time s)
  unfolding flush_group
  flush_group-Keeps time s h = elim (Bool-cases (nav_total s.group == 0)) [
    | inl a ↦ rw a (quarantine_all-Keeps s h)
    | inr a ↦ rw a (elim (Bool-cases (any_conflict s.group)) [
      | inl b ↦ rw b tt
      | inr b ↦ rw b (elim (Bool-cases (runs_back s.last time)) [
        | inl c ↦ rw c tt
        | inr c ↦ rw c (
            let r = resumed s.last time s in
            Keeps->>= s (done r.0)
              (λ u. opened time u.segment u r.1 >>= λ t. written time t.segment t)
              (resumed-Keeps s.last time s h)
              (λ u g.
                Keeps->>= u (opened time u.segment u r.1) (λ t. written time t.segment t)
                  (opened-Keeps time u.segment u r.1 g) (λ t f. written-Keeps time t.segment t f)))
      ])
    ])
  ]

  pub flush-Keeps : (s : Planner) → IsForwardPlanner s → OnDone (Keeps s) (flush s)
  unfolding flush
  flush-Keeps s h = front s.group
    where
      front : (ms : List Member) → OnDone (Keeps s) (flush_front ms s)
      front [] = (refl, h)
      front (m ∷ ms) = flush_group-Keeps m.epoch.gpst_ms s h
