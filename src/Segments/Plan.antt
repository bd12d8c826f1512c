-- ===== src/Segments/Plan.antt =====
-- The data of SegmentPlanner in libneognss-obs/src/reconstruction.cpp, State::append and
-- State::quarantine. Times are integers. An exception is a value, and a planner that has thrown is
-- not used again.
use neo_gnss_observatory.Base.{
  ℕ, ◌/◌, ◌%◌, Bool, true, false, ◌&&◌, ◌||◌, List, [], ◌∷◌, ◌++◌, Option, none, some, ltb, ◌==◌,
  if◌then◌else◌,
}
use neo_gnss_observatory.Base.Int.{ℤ, ◌==ℤ◌}
use neo_gnss_observatory.Archive.Epoch.{ArchiveEpoch, unknown_gpst}
use neo_gnss_observatory.Wire.Text.{equals}

-- The field `begin` of the source is `first` here, `end` is `last`.
pub record Span : Type 0 where
  pub source : List ℕ
  pub first : ℕ
  pub last : ℕ

pub data Reason : Type 0 where
  first_available continuation missing_interval gpst_midnight : Reason

pub data Quarantine : Type 0 where
  no_nav_interval unknown_time : Quarantine

pub data Event : Type 0 where
  quarantined : Quarantine → (source : List ℕ) (first last : ℕ) → Option ℤ → Event
  interval : (after next length timeout : ℤ) → Event
  non_ubx_or_corrupt_bytes : (source : List ℕ) (first last : ℕ) → Event

-- An artifact of the kind gpst_segment; its start_gpst and end_gpst are the same times in seconds.
pub record Segment : Type 0 where
  pub name : List ℕ
  pub start_gpst_ms : ℤ
  pub end_gpst_ms : ℤ
  pub gap_timeout_ms : ℤ
  pub max_observed_interval_ms : ℤ
  pub reason : Reason
  pub frames : ℕ
  pub nav_epochs : ℕ
  pub spans : List Span

pub data Error : Type 0 where
  timeout_not_positive : Error
  unexpected_index : Error
  conflicting_epoch : ℤ → Error
  runs_backwards : Error
  filename_collision : List ℕ → Error
  out_of_range : Error

pub data Outcome (A : Type 0) : Type 0 where
  done : A → Outcome A
  thrown : Error → Outcome A

infixl 5 ◌>>=◌
abbrev pub ◌>>=◌ : {A B : Type 0} → Outcome A → (A → Outcome B) → Outcome B
done a >>= k = k a
thrown e >>= k = thrown e

-- An epoch with the path of its source.
pub record Member : Type 0 where
  pub path : List ℕ
  pub epoch : ArchiveEpoch

-- An override of `joins`.
pub record Override : Type 0 where
  pub previous : List ℕ
  pub epoch_begin : ℕ
  pub anchor : ℤ

pub record Planner : Type 0 where
  pub timeout : ℤ
  pub overrides : List Override
  pub group : List Member
  pub artifacts : List Segment
  pub events : List Event
  pub unassigned : List (List ℕ × List Span)
  pub names : List (List ℕ)
  pub segment : Option ℕ
  pub last : Option ℤ
  pub pending : Reason

-- State::append.
unfoldable pub append : List Span → List ℕ → ℕ → ℕ → List Span
append [] path b e = record { source = path; first = b; last = e } ∷ []
append (s ∷ []) path b e =
    if equals s.source path && s.last == b
    then record s { last = e } ∷ []
    else s ∷ record { source = path; first = b; last = e } ∷ []
append (s ∷ t ∷ rest) path b e = s ∷ append (t ∷ rest) path b e

-- The order of std::string.
unfoldable pub precedes : List ℕ → List ℕ → Bool
precedes cs [] = false
precedes [] (d ∷ ds) = true
precedes (c ∷ cs) (d ∷ ds) = ltb c d || c == d && precedes cs ds

-- `append(unassigned[path], ...)`, on the map as its entries in the order of their keys.
unfoldable pub set_aside : List (List ℕ × List Span) → List ℕ → ℕ → ℕ → List (List ℕ × List Span)
unfolding append
set_aside [] path b e = (path, append [] path b e) ∷ []
set_aside (entry ∷ rest) path b e =
    let later = set_aside rest path b e in
    if equals entry.0 path
    then (entry.0, append entry.1 path b e) ∷ rest
    else if precedes path entry.0
    then (path, append [] path b e) ∷ entry ∷ rest
    else entry ∷ later

abbrev pub shown : ℤ → Option ℤ
shown t = if t ==ℤ unknown_gpst then none else some t

unfoldable pub quarantine : Quarantine → List ℕ → ArchiveEpoch → Planner → Planner
unfolding set_aside
quarantine reason path e s = record s {
  unassigned = set_aside s.unassigned path e.first e.last;
  events = s.events ++ (quarantined reason path e.first e.last (shown e.gpst_ms) ∷ []);
}

unfoldable pub quarantine_all : List Member → Planner → Planner
unfolding quarantine
quarantine_all [] s = s
quarantine_all (m ∷ ms) s = quarantine_all ms (quarantine no_nav_interval m.path m.epoch s)

abbrev pub has_flag : ℕ → ArchiveEpoch → Bool
has_flag bit e = e.flags / bit % 2 == 1
