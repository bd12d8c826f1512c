-- ===== src/Segments/Flush.antt =====
-- State::flush of SegmentPlanner in libneognss-obs/src/reconstruction.cpp: a group of epochs of one
-- time becomes part of a segment. The sums of times are those of an int64_t that does not overflow.
use neo_gnss_observatory.Base.{
  ℕ, zero, suc, ◌+◌, ◌%◌, ◌^◌, Bool, true, false, ◌||◌, not, List, [], ◌∷◌, ◌++◌, Option, none,
  some, ◌==◌, if◌then◌else◌, length,
}
use neo_gnss_observatory.Base.Int.{ℤ, pos, ◌+ℤ◌, ◌-ℤ◌, ltb_ℤ, ◌==ℤ◌, quot}
use neo_gnss_observatory.Archive.Epoch.{archive_time_conflict}
use neo_gnss_observatory.Wire.Text.{equals}
use neo_gnss_observatory.Segments.Name.{segment_name}
use neo_gnss_observatory.Segments.Plan.{
  Span, Reason, continuation, missing_interval, gpst_midnight, interval, Segment, conflicting_epoch,
  runs_backwards, filename_collision, out_of_range, Outcome, done, thrown, ◌>>=◌, Member, Planner,
  append, quarantine_all, has_flag,
}

-- `nav` wraps at 64 bits.
abbrev pub nav_total : List Member → ℕ
nav_total [] = 0
nav_total (m ∷ ms) = (m.epoch.nav_frames + nav_total ms) % 2 ^ 64

abbrev pub any_conflict : List Member → Bool
any_conflict [] = false
any_conflict (m ∷ ms) = has_flag archive_time_conflict m.epoch || any_conflict ms

abbrev pub day_ms : ℕ
day_ms = 86400000

-- The first test on the time of the last group, for a gap, and the reason of a new segment.
abbrev pub after_gap : Bool → ℤ → ℤ → Planner → Planner × Reason
after_gap false l time s = (s, s.pending)
after_gap true l time s = (
  record s { segment = none; events = s.events ++ (interval l time (time -ℤ l) s.timeout ∷ []) },
  missing_interval,
)

-- The second, for midnight.
abbrev pub after_midnight : Bool → Planner × Reason → Planner × Reason
after_midnight false r = r
after_midnight true (s, reason) =
    (record s { segment = none }, elim s.segment [ none ↦ reason | some i ↦ gpst_midnight ])

unfoldable pub resumed : Option ℤ → ℤ → Planner → Planner × Reason
resumed none time s = (s, s.pending)
resumed (some l) time s =
    after_midnight (not (quot time day_ms ==ℤ quot l day_ms))
      (after_gap (ltb_ℤ (l +ℤ s.timeout) time) l time s)

abbrev pub contains : List (List ℕ) → List ℕ → Bool
contains [] name = false
contains (n ∷ ns) name = equals n name || contains ns name

abbrev pub opened_segment : ℤ → ℤ → List ℕ → Reason → Segment
opened_segment timeout time name reason = record {
  name = name;
  start_gpst_ms = time;
  end_gpst_ms = time;
  gap_timeout_ms = timeout;
  max_observed_interval_ms = pos 0;
  reason = reason;
  frames = 0;
  nav_epochs = 0;
  spans = [];
}

unfoldable pub opened : ℤ → Option ℕ → Planner → Reason → Outcome Planner
opened time (some i) s reason = done s
opened time none s reason =
    let name = segment_name time in
    if contains s.names name
    then thrown (filename_collision name)
    else done (record s {
      names = name ∷ s.names;
      artifacts = s.artifacts ++ (opened_segment s.timeout time name reason ∷ []);
      segment = some (length s.artifacts);
    })

unfoldable pub append_all : List Member → List Span → List Span
unfolding append
append_all [] spans = spans
append_all (m ∷ ms) spans = append_all ms (append spans m.path m.epoch.first m.epoch.last)

abbrev pub frames_after : List Member → ℕ → ℕ
frames_after [] n = n
frames_after (m ∷ ms) n = frames_after ms ((n + m.epoch.frames) % 2 ^ 64)

abbrev pub max_ℤ : ℤ → ℤ → ℤ
max_ℤ a b = if ltb_ℤ a b then b else a

-- The segment with a group of a time.
unfoldable pub filled : List Member → ℤ → Segment → Segment
unfolding append_all
filled group time a = record a {
  spans = append_all group a.spans;
  frames = frames_after group a.frames;
  max_observed_interval_ms =
      if a.nav_epochs == 0
      then a.max_observed_interval_ms
      else max_ℤ a.max_observed_interval_ms (time -ℤ a.end_gpst_ms);
  nav_epochs = (a.nav_epochs + 1) % 2 ^ 64;
  end_gpst_ms = time;
}

-- `artifacts.at(i)` and what is done to it; `none` is its exception.
abbrev pub at_index : ℕ → (Segment → Segment) → List Segment → Option (List Segment)
at_index i f [] = none
at_index zero f (a ∷ rest) = some (f a ∷ rest)
at_index (suc i) f (a ∷ rest) = elim (at_index i f rest) [ none ↦ none | some r ↦ some (a ∷ r) ]

abbrev pub with_artifacts : ℤ → Planner → Option (List Segment) → Outcome Planner
with_artifacts time s none = thrown out_of_range
with_artifacts time s (some as') =
    done (record s { artifacts = as'; last = some time; pending = continuation; group = [] })

unfoldable pub written : ℤ → Option ℕ → Planner → Outcome Planner
unfolding filled
written time none s = thrown out_of_range
written time (some i) s = with_artifacts time s (at_index i (filled s.group time) s.artifacts)

abbrev pub runs_back : Option ℤ → ℤ → Bool
runs_back none time = false
runs_back (some l) time = ltb_ℤ time l

-- State::flush for a group that is not empty, whose first epoch has the time.
unfoldable pub flush_group : ℤ → Planner → Outcome Planner
unfolding resumed opened written quarantine_all
flush_group time s =
    if nav_total s.group == 0
    then done (record (quarantine_all s.group s) { group = [] })
    else if any_conflict s.group
    then thrown (conflicting_epoch time)
    else if runs_back s.last time
    then thrown runs_backwards
    else let r = resumed s.last time s in
      opened time r.0.segment r.0 r.1 >>= λ t. written time t.segment t

abbrev pub flush_front : List Member → Planner → Outcome Planner
flush_front [] s = done s
flush_front (m ∷ ms) s = flush_group m.epoch.gpst_ms s

unfoldable pub flush : Planner → Outcome Planner
unfolding flush_group
flush s = flush_front s.group s
