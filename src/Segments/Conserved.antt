-- ===== src/Segments/Conserved.antt =====
-- The plan that SegmentPlanner of libneognss-obs/src/reconstruction.cpp makes holds every byte of the
-- epochs that it is given as often as they do.
use mathlib.Core.Path.{subst}
use neo_gnss_observatory.Base.{
  ℕ, ◌+◌, ◌≡◌, refl, List, [], ◌∷◌, ◌++◌, arith, All, Bool-cases, inl, inr,
}
use neo_gnss_observatory.Base.Int.{ℤ}
use neo_gnss_observatory.Segments.Plan.{Span, Segment, Planner, ◌>>=◌, Outcome, done, thrown}
use neo_gnss_observatory.Segments.Flush.{flush}
use neo_gnss_observatory.Segments.Feed.{Plan, Sized, spans_of, finish, plan_of}
use neo_gnss_observatory.Segments.Spans.{hits, group_hits, aside_hits, artifact_hits}
use neo_gnss_observatory.Base.{map}
use neo_gnss_observatory.Base.Int.{pos, ltb_ℤ}
use neo_gnss_observatory.Segments.Cover.{OnDone, IsForwardPlanner, covered, Keeps, flush-Keeps}
use neo_gnss_observatory.Segments.Feed.{
  Join, Artifact, sized, gpst_segment, all_unassigned, construct,
}
use neo_gnss_observatory.Segments.Emptied.{flush-IsEmptied}
use neo_gnss_observatory.Segments.Session.{Input, feed_all, session}
use neo_gnss_observatory.Segments.Gains.{IsForwardEpoch, input_hits, Gains, feed_all-Gains}

module _ (path : List ℕ) (x : ℕ) where
  abbrev pub plan_hits : List Sized → ℕ
  plan_hits [] = 0
  plan_hits (a ∷ rest) = hits path x (spans_of a.artifact) + plan_hits rest

  plan_hits-unassigned :
      (filename : List ℕ → List ℕ) (entries : List (List ℕ × List Span))
      → plan_hits (map sized (all_unassigned filename entries)) ≡ aside_hits path x entries
  plan_hits-unassigned filename [] = refl
  plan_hits-unassigned filename (entry ∷ rest) = omega (arith, plan_hits-unassigned filename rest)

  plan_hits-artifacts :
      (as' : List Segment) (rest : List Artifact)
      → plan_hits (map sized (map gpst_segment as' ++ rest))
        ≡ artifact_hits path x as' + plan_hits (map sized rest)
  plan_hits-artifacts [] rest = omega arith
  plan_hits-artifacts (a ∷ as') rest = omega (arith, plan_hits-artifacts as' rest)

  finish-hits :
      (filename : List ℕ → List ℕ) (s : Planner)
      → IsForwardPlanner s
      → OnDone (λ plan. plan_hits plan.artifacts ≡ covered path x s) (finish filename s)
  unfolding finish
  finish-hits filename s h = planned (flush s) (flush-Keeps path x s h) (flush-IsEmptied s)
    where
      planned :
          (m : Outcome Planner)
          → OnDone (Keeps path x s) m
          → OnDone (λ t. t.group ≡ []) m
          → OnDone
              (λ plan. plan_hits plan.artifacts ≡ covered path x s)
              (m >>= λ t. done (plan_of filename t))
      planned (thrown e) k g = tt
      planned (done t) k g =
          let none : group_hits path x t.group ≡ 0 = rw g refl in
          omega (
            arith,
            k.0,
            none,
            plan_hits-artifacts t.artifacts (all_unassigned filename t.unassigned),
            plan_hits-unassigned filename t.unassigned,
          )

  feed_finish-hits :
      (filename : List ℕ → List ℕ) (is : List Input) (s : Planner)
      → All (λ i. All IsForwardEpoch i.epochs) is
      → IsForwardPlanner s
      → covered path x s ≡ 0
      → OnDone
          (λ plan. plan_hits plan.artifacts ≡ input_hits path x is)
          (feed_all is s >>= finish filename)
  feed_finish-hits filename is s l h z = fed (feed_all is s) (feed_all-Gains path x is s l h)
    where
      fed :
          (m : Outcome Planner)
          → OnDone (Gains path x (input_hits path x is) s) m
          → OnDone (λ plan. plan_hits plan.artifacts ≡ input_hits path x is) (m >>= finish filename)
      fed (thrown e) k = tt
      fed (done t) k = finished (finish filename t) (finish-hits filename t k.1)
        where
          finished :
              (o : Outcome Plan)
              → OnDone (λ plan. plan_hits plan.artifacts ≡ covered path x t) o
              → OnDone (λ plan. plan_hits plan.artifacts ≡ input_hits path x is) o
          finished (thrown e) j = tt
          finished (done plan) j = omega (arith, j, k.0, z)

construct-hits :
    (filename : List ℕ → List ℕ) (joins : List Join) (timeout : ℤ) (is : List Input) (path : List ℕ)
    (x : ℕ)
    → All (λ i. All IsForwardEpoch i.epochs) is
    → OnDone
        (λ p. plan_hits path x p.artifacts ≡ input_hits path x is)
        (session filename joins timeout is)
unfolding construct
construct-hits filename joins timeout is path x l = elim (Bool-cases (ltb_ℤ timeout (pos 1))) [
  | inl e ↦ rw e tt
  | inr e ↦ rw e (feed_finish-hits path x filename is _ l (tt, tt, tt) refl)
]

-- Where no epoch ends before it begins, every byte of a source is in as many spans of the plan's
-- artifacts as it is in epochs of the source that are neither noise nor outside the source's range:
-- nothing that the planner accepts is lost, and nothing is written twice.
pub session-hits :
    (filename : List ℕ → List ℕ) (joins : List Join) (timeout : ℤ) (is : List Input) (plan : Plan)
    (path : List ℕ) (x : ℕ)
    → All (λ i. All IsForwardEpoch i.epochs) is
    → session filename joins timeout is ≡ done plan
    → plan_hits path x plan.artifacts ≡ input_hits path x is
session-hits filename joins timeout is plan path x l e =
    subst (OnDone (λ p. plan_hits path x p.artifacts ≡ input_hits path x is)) e
      (construct-hits filename joins timeout is path x l)
