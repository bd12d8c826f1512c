-- ===== src/Segments/Session.antt =====
-- The life of a SegmentPlanner of libneognss-obs/src/reconstruction.cpp: it is made, fed with the
-- epochs of each source, and finished.
use neo_gnss_observatory.Base.{ℕ, List, [], ◌∷◌}
use neo_gnss_observatory.Base.Int.{ℤ}
use neo_gnss_observatory.Segments.Plan.{Planner, ◌>>=◌, Outcome, done}
use neo_gnss_observatory.Segments.Feed.{Source, Plan, feed, feed_epochs, finish}
use neo_gnss_observatory.Archive.Epoch.{ArchiveEpoch}
use neo_gnss_observatory.Segments.Feed.{Join, construct}

-- The epochs of a source, as `feed` reads them.
pub record Input : Type 0 where
  pub source : Source
  pub epochs : List ArchiveEpoch

-- A planner that is made, fed with each input and finished.
abbrev pub feed_all : List Input → Planner → Outcome Planner
feed_all [] s = done s
feed_all (i ∷ is) s = feed_epochs i.source i.epochs s >>= feed_all is

abbrev pub session : (List ℕ → List ℕ) → List Join → ℤ → List Input → Outcome Plan
session filename joins timeout is =
    construct joins timeout >>= λ s. feed_all is s >>= finish filename

-- The same with each source's index as bytes, as the caller gives it.
pub record Given : Type 0 where
  pub source : Source
  pub index : List ℕ

abbrev pub feed_indexes : List Given → Planner → Outcome Planner
feed_indexes [] s = done s
feed_indexes (g ∷ gs) s = feed g.source g.index s >>= feed_indexes gs

abbrev pub planned : (List ℕ → List ℕ) → List Join → ℤ → List Given → Outcome Plan
planned filename joins timeout gs =
    construct joins timeout >>= λ s. feed_indexes gs s >>= finish filename
