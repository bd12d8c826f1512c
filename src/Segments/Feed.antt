-- ===== src/Segments/Feed.antt =====
-- The constructor, feed and finish of SegmentPlanner in libneognss-obs/src/reconstruction.cpp.
-- `finish` ends the planner: what a later call would add to is not kept.
use neo_gnss_observatory.Base.{
  ℕ, ◌+◌, ◌-◌, ◌%◌, ◌^◌, Bool, false, ◌&&◌, ◌||◌, not, List, [], ◌∷◌, ◌++◌, none, ltb, ◌==◌,
  if◌then◌else◌, map,
}
use neo_gnss_observatory.Base.Int.{ℤ, pos, ltb_ℤ, ◌==ℤ◌}
use neo_gnss_observatory.Archive.Epoch.{ArchiveEpoch, unknown_gpst, archive_noise}
use neo_gnss_observatory.Wire.Text.{equals}
use neo_gnss_observatory.Segments.Plan.{
  Span, first_available, unknown_time, Event, non_ubx_or_corrupt_bytes, Segment,
  timeout_not_positive, unexpected_index, Outcome, done, thrown, ◌>>=◌, Member, Override, Planner,
  quarantine, has_flag,
}
use neo_gnss_observatory.Segments.Flush.{flush}
use neo_gnss_observatory.Segments.Index.{is_index, index_epochs}

-- An element of `joins`; one of another kind is passed over.
pub data Join : Type 0 where
  split_epoch_continuation : Override → Join
  other_join : Join

-- The map of the overrides, the last assignment first.
abbrev pub collected : List Join → List Override → List Override
collected [] os = os
collected (split_epoch_continuation o ∷ js) os = collected js (o ∷ os)
collected (other_join ∷ js) os = collected js os

unfoldable pub construct : List Join → ℤ → Outcome Planner
construct joins timeout =
    if ltb_ℤ timeout (pos 1)
    then thrown timeout_not_positive
    else done (record {
      timeout = timeout;
      overrides = collected joins [];
      group = [];
      artifacts = [];
      events = [];
      unassigned = [];
      names = [];
      segment = none;
      last = none;
      pending = first_available;
    })

-- The parts of `source` that are read.
pub record Source : Type 0 where
  pub path : List ℕ
  pub first : ℕ
  pub last : ℕ

abbrev pub overridden : List Override → List ℕ → ArchiveEpoch → ArchiveEpoch
overridden [] path e = e
overridden (o ∷ os) path e =
    if equals o.previous path && o.epoch_begin == e.first
    then record e { gpst_ms = o.anchor }
    else overridden os path e

abbrev pub another_time : List Member → ℤ → Bool
another_time [] time = false
another_time (m ∷ ms) time = not (time ==ℤ m.epoch.gpst_ms)

abbrev pub outside : Source → ArchiveEpoch → Bool
outside source e = ltb e.first source.first || ltb source.last e.last

unfoldable pub join_group : List ℕ → ArchiveEpoch → Planner → Outcome Planner
unfolding flush
join_group path e s = (if another_time s.group e.gpst_ms then flush s else done s) >>= λ t.
    done (record t { group = t.group ++ (record { path = path; epoch = e } ∷ []) })

-- A turn of the loop of `feed` on the epoch with its override.
unfoldable pub feed_dated : Source → ArchiveEpoch → Planner → Outcome Planner
unfolding join_group quarantine
feed_dated source e s =
    if has_flag archive_noise e
    then done (record s {
      events = s.events ++ (non_ubx_or_corrupt_bytes source.path e.first e.last ∷ []);
    })
    else if outside source e
    then done s
    else if e.gpst_ms ==ℤ unknown_gpst
    then done (quarantine unknown_time source.path e s)
    else join_group source.path e s

unfoldable pub feed_epochs : Source → List ArchiveEpoch → Planner → Outcome Planner
unfolding feed_dated
feed_epochs source [] s = done s
feed_epochs source (e ∷ es) s =
    feed_dated source (overridden s.overrides source.path e) s >>= feed_epochs source es

unfoldable pub feed : Source → List ℕ → Planner → Outcome Planner
unfolding feed_epochs is_index index_epochs
feed source index s =
    if is_index index then feed_epochs source (index_epochs index) s else thrown unexpected_index

pub data Artifact : Type 0 where
  gpst_segment : Segment → Artifact
  unassigned_frames : (name : List ℕ) → List Span → Artifact

abbrev pub spans_of : Artifact → List Span
spans_of (gpst_segment a) = a.spans
spans_of (unassigned_frames name spans) = spans

-- The sum over the spans, on 64 bits.
abbrev pub size_from : ℕ → List Span → ℕ
size_from size [] = size
size_from size (s ∷ rest) = size_from ((size + s.last + 2 ^ 64 - s.first) % 2 ^ 64) rest

pub record Sized : Type 0 where
  pub artifact : Artifact
  pub size : ℕ

pub record Plan : Type 0 where
  pub artifacts : List Sized
  pub events : List Event

abbrev pub sized : Artifact → Sized
sized a = record { artifact = a; size = size_from 0 (spans_of a) }

-- "unassigned/".
abbrev pub folder : List ℕ
folder = 117 ∷ 110 ∷ 97 ∷ 115 ∷ 115 ∷ 105 ∷ 103 ∷ 110 ∷ 101 ∷ 100 ∷ 47 ∷ []

abbrev pub all_unassigned : (List ℕ → List ℕ) → List (List ℕ × List Span) → List Artifact
all_unassigned filename [] = []
all_unassigned filename (entry ∷ rest) =
    unassigned_frames (folder ++ filename entry.0) entry.1 ∷ all_unassigned filename rest

abbrev pub plan_of : (List ℕ → List ℕ) → Planner → Plan
plan_of filename s = record {
  artifacts = map sized (map gpst_segment s.artifacts ++ all_unassigned filename s.unassigned);
  events = s.events;
}

-- `filename` is that of std::filesystem::path.
unfoldable pub finish : (List ℕ → List ℕ) → Planner → Outcome Plan
unfolding flush
finish filename s = flush s >>= λ t. done (plan_of filename t)
