-- ===== src/Segments/Gains.antt =====
-- What each step of SegmentPlanner in libneognss-obs/src/reconstruction.cpp adds to the bytes that
-- the planner holds.
use mathlib.Core.Path.{subst}
use neo_gnss_observatory.Base.{
  ℕ, ◌+◌, ◌≤◌, ◌≡◌, refl, ◌||◌, List, [], ◌∷◌, ◌++◌, arith, if◌then◌else◌, All, Bool-cases, inl,
  inr,
}
use neo_gnss_observatory.Segments.Plan.{Planner, ◌>>=◌, Outcome, done, thrown, quarantine}
use neo_gnss_observatory.Segments.Flush.{flush}
use neo_gnss_observatory.Segments.Feed.{
  Source, overridden, outside, join_group, feed_dated, feed_epochs,
}
use neo_gnss_observatory.Segments.Spans.{
  holds, IsForwardMember, set_aside-hits, set_aside-AllForward,
}
use neo_gnss_observatory.Archive.Epoch.{ArchiveEpoch, archive_noise, unknown_gpst}
use neo_gnss_observatory.Base.Int.{◌==ℤ◌}
use neo_gnss_observatory.Segments.Plan.{has_flag, Override}
use neo_gnss_observatory.Segments.Cover.{
  OnDone, IsForwardPlanner, covered, Keeps, append-group_hits, append-All, flush-Keeps,
}
use neo_gnss_observatory.Segments.Feed.{another_time}
use neo_gnss_observatory.Segments.Session.{Input, feed_all}

abbrev pub IsForwardEpoch : ArchiveEpoch → Type 0
IsForwardEpoch e = e.first ≤ e.last

module _ (path : List ℕ) (x : ℕ) where
  -- Whether the byte is in an epoch that is neither noise nor outside the source's range.
  abbrev pub one_hit : Source → ArchiveEpoch → ℕ
  one_hit source e =
      if has_flag archive_noise e || outside source e
      then 0
      else holds path x source.path e.first e.last

  abbrev pub epoch_hits : Source → List ArchiveEpoch → ℕ
  epoch_hits source [] = 0
  epoch_hits source (e ∷ es) = one_hit source e + epoch_hits source es

  abbrev pub input_hits : List Input → ℕ
  input_hits [] = 0
  input_hits (i ∷ is) = epoch_hits i.source i.epochs + input_hits is

  -- A step that adds `n`.
  abbrev pub Gains : ℕ → Planner → Planner → Type 0
  Gains n s t = (covered path x t ≡ covered path x s + n) × IsForwardPlanner t

  join_group-Gains :
      (q : List ℕ) (e : ArchiveEpoch) (s : Planner)
      → e.first ≤ e.last
      → IsForwardPlanner s
      → OnDone (Gains (holds path x q e.first e.last) s) (join_group q e s)
  unfolding join_group
  join_group-Gains q e s l h = elim (Bool-cases (another_time s.group e.gpst_ms)) [
    | inl a ↦ rw a (joined (flush s) (flush-Keeps path x s h))
    | inr a ↦ rw a (joined (done s) (refl, h))
  ]
    where
      joined :
          (m : Outcome Planner)
          → OnDone (Keeps path x s) m
          → OnDone (Gains (holds path x q e.first e.last) s) (
              m >>= λ t.
              done (record t { group = t.group ++ (record { path = q; epoch = e } ∷ []) }))
      joined (thrown er) k = tt
      joined (done t) k = (
        omega (arith, k.0, append-group_hits path x t.group (record { path = q; epoch = e })),
        (
          k.1.0,
          k.1.1,
          append-All path x IsForwardMember t.group (record { path = q; epoch = e }) k.1.2 l,
        ),
      )

  feed_dated-Gains :
      (source : Source) (e : ArchiveEpoch) (s : Planner)
      → e.first ≤ e.last
      → IsForwardPlanner s
      → OnDone (Gains (one_hit source e) s) (feed_dated source e s)
  unfolding feed_dated quarantine
  feed_dated-Gains source e s l h = elim (Bool-cases (has_flag archive_noise e)) [
    | inl a ↦ rw a (omega arith, h)
    | inr a ↦ rw a (elim (Bool-cases (outside source e)) [
      | inl b ↦ rw b (omega arith, h)
      | inr b ↦ rw b (elim (Bool-cases (e.gpst_ms ==ℤ unknown_gpst)) [
        | inl c ↦ rw c (
          omega (arith, set_aside-hits path x s.unassigned source.path e.first e.last h.1 l),
          (h.0, set_aside-AllForward s.unassigned source.path e.first e.last h.1 l, h.2),
        )
        | inr c ↦ rw c (join_group-Gains source.path e s l h)
      ])
    ])
  ]

  Gains->>= :
      (n k : ℕ) (s : Planner) (m : Outcome Planner) (f : Planner → Outcome Planner)
      → OnDone (Gains n s) m
      → ((t : Planner) → IsForwardPlanner t → OnDone (Gains k t) (f t))
      → OnDone (Gains (n + k) s) (m >>= f)
  Gains->>= n k s (thrown e) f h g = tt
  Gains->>= n k s (done t) f h g = later (f t) (g t h.1)
    where
      later : (o : Outcome Planner) → OnDone (Gains k t) o → OnDone (Gains (n + k) s) o
      later (thrown e) j = tt
      later (done u) j = (omega (arith, h.0, j.0), j.1)

  -- An override changes the time only.
  overridden-same :
      (os : List Override) (q : List ℕ) (e : ArchiveEpoch)
      → ((overridden os q e).first ≡ e.first)
        × ((overridden os q e).last ≡ e.last)
        × ((overridden os q e).flags ≡ e.flags)
  overridden-same [] q e = (refl, refl, refl)
  overridden-same (o ∷ os) q e = ground (arith, overridden-same os q e)

  one_hit-overridden :
      (os : List Override) (source : Source) (e : ArchiveEpoch)
      → one_hit source (overridden os source.path e) ≡ one_hit source e
  one_hit-overridden os source e =
      let k = overridden-same os source.path e in rw (k.0, k.1, k.2) refl

  overridden-forward :
      (os : List Override) (q : List ℕ) (e : ArchiveEpoch)
      → IsForwardEpoch e
      → IsForwardEpoch (overridden os q e)
  overridden-forward os q e l = let k = overridden-same os q e in omega (arith, k.0, k.1)

  feed_epochs-Gains :
      (source : Source) (es : List ArchiveEpoch) (s : Planner)
      → All IsForwardEpoch es
      → IsForwardPlanner s
      → OnDone (Gains (epoch_hits source es) s) (feed_epochs source es s)
  unfolding feed_epochs
  feed_epochs-Gains source [] s l h = (omega arith, h)
  feed_epochs-Gains source (e ∷ es) s l h =
      Gains->>= (one_hit source e) (epoch_hits source es) s
        (feed_dated source (overridden s.overrides source.path e) s) (feed_epochs source es)
        (subst
          (λ n. OnDone (Gains n s) (feed_dated source (overridden s.overrides source.path e) s))
          (one_hit-overridden s.overrides source e)
          (feed_dated-Gains source (overridden s.overrides source.path e) s
            (overridden-forward s.overrides source.path e l.0) h))
        (λ t f. feed_epochs-Gains source es t l.1 f)

  pub feed_all-Gains :
      (is : List Input) (s : Planner)
      → All (λ i. All IsForwardEpoch i.epochs) is
      → IsForwardPlanner s
      → OnDone (Gains (input_hits is) s) (feed_all is s)
  feed_all-Gains [] s l h = (omega arith, h)
  feed_all-Gains (i ∷ is) s l h =
      Gains->>= (epoch_hits i.source i.epochs) (input_hits is) s (feed_epochs i.source i.epochs s)
        (feed_all is) (feed_epochs-Gains i.source i.epochs s l.0 h)
        (λ t f. feed_all-Gains is t l.1 f)
