-- ===== src/Tests/Plans.antt =====
-- A plan of segments, an error and an index at which the theorems on SegmentPlanner apply.
use neo_gnss_observatory.Base.{
  ℕ, zero, suc, ◌++◌, ◌≡◌, refl, false, List, [], ◌∷◌, Option, none, some, arith, All,
}
use neo_gnss_observatory.Base.Int.{ℤ, pos, ◌+ℤ◌, ◌-ℤ◌, ◌*ℤ◌, quot, rem}
use neo_gnss_observatory.Archive.Epoch.{ArchiveEpoch, unknown_gpst, Event, Float64}
use neo_gnss_observatory.Archive.Scan.{scan_archive, scan_from, turn, sbf_size, ubx_length, lost}
use neo_gnss_observatory.Archive.Assembler.{finish}
use neo_gnss_observatory.Wire.Text.{equals}
use neo_gnss_observatory.Segments.Plan.{
  Planner, first_available, Outcome, done, thrown, append, precedes, set_aside, quarantine,
  quarantine_all,
}
use neo_gnss_observatory.Segments.Flush.{
  resumed, opened, append_all, filled, written, flush_group, flush,
}
use neo_gnss_observatory.Segments.Index.{archive_index, epochs_of}
use neo_gnss_observatory.Segments.Feed.{
  Source, Join, split_epoch_continuation, Plan, construct, join_group, feed_dated, feed_epochs,
  feed, finish as finish_plan,
}
use neo_gnss_observatory.Segments.Session.{Input, session, Given}
use neo_gnss_observatory.Segments.Gains.{IsForwardEpoch, input_hits}
use neo_gnss_observatory.Segments.Conserved.{plan_hits, session-hits}
use neo_gnss_observatory.Segments.Times.{InOrder}
use neo_gnss_observatory.Segments.Sorted.{segments_of, session-InOrder}
use neo_gnss_observatory.Segments.Name.{segment_name, year_loop, month_loop, padded}
use neo_gnss_observatory.Segments.RoundTrip.{Fits, feed-archive_index}

-- GPST-1980-01-06--00-00-00-000.ubx, the first of GPS time.
segment_name-zero :
    segment_name (pos 0)
    ≡ 71 ∷ 80 ∷ 83 ∷ 84 ∷ 45 ∷ 49 ∷ 57 ∷ 56 ∷ 48 ∷ 45 ∷ 48 ∷ 49 ∷ 45 ∷ 48 ∷ 54 ∷ 45 ∷ 45 ∷ 48 ∷ 48
      ∷ 45 ∷ 48 ∷ 48 ∷ 45 ∷ 48 ∷ 48 ∷ 45 ∷ 48 ∷ 48 ∷ 48 ∷ 46 ∷ 117 ∷ 98 ∷ 120 ∷ []
unfolding segment_name year_loop month_loop padded ◌+ℤ◌ ◌*ℤ◌ rem
segment_name-zero = refl

-- GPST-2024-02-29--23-59-59-042.ubx, on a leap day.
segment_name-leap :
    segment_name (pos 1393286399042)
    ≡ 71 ∷ 80 ∷ 83 ∷ 84 ∷ 45 ∷ 50 ∷ 48 ∷ 50 ∷ 52 ∷ 45 ∷ 48 ∷ 50 ∷ 45 ∷ 50 ∷ 57 ∷ 45 ∷ 45 ∷ 50 ∷ 51
      ∷ 45 ∷ 53 ∷ 57 ∷ 45 ∷ 53 ∷ 57 ∷ 45 ∷ 48 ∷ 52 ∷ 50 ∷ 46 ∷ 117 ∷ 98 ∷ 120 ∷ []
unfolding segment_name year_loop month_loop padded ◌+ℤ◌ ◌*ℤ◌ rem
segment_name-leap = refl

abbrev same_name : List ℕ → List ℕ
same_name p = p

abbrev epoch : (first last : ℕ) → ℤ → (flags nav : ℕ) → ArchiveEpoch
epoch first last time flags nav = record {
  first = first;
  last = last;
  gpst_ms = time;
  tow_ms = time;
  fingerprint = 0;
  flags = flags;
  frames = 2;
  nav_frames = nav;
  gps_week = pos 0;
}

abbrev file_a : Source
file_a = record { path = 97 ∷ []; first = 0; last = 1000 }

abbrev file_b : Source
file_b = record { path = 98 ∷ []; first = 0; last = 1000 }

-- Two epochs of one segment, noise, one without navigation frames, a gap, an unknown time and the
-- rest of an epoch in the next file.
abbrev inputs : List Input
inputs =
    record {
      source = file_a;
      epochs =
          epoch 0 100 (pos 1000) 0 1
          ∷ epoch 100 150 (pos 2000) 0 1
          ∷ epoch 150 160 (pos 2000) 32 0
          ∷ epoch 160 170 (pos 2500) 0 0
          ∷ epoch 170 200 (pos 99000) 0 1
          ∷ epoch 200 210 unknown_gpst 0 1
          ∷ [];
    }
    ∷ record {
      source = file_b;
      epochs = epoch 0 50 (pos 5) 0 1 ∷ epoch 50 60 (pos 86400000) 0 1 ∷ [];
    }
    ∷ []

-- The file b begins with the end of the epoch of 99 s.
abbrev joined : List Join
joined =
    split_epoch_continuation (record { previous = 98 ∷ []; epoch_begin = 0; anchor = pos 99000 })
    ∷ []

abbrev plan_in : Outcome Plan → Plan
plan_in (done p) = p
plan_in (thrown e) = record { artifacts = []; events = [] }

abbrev plan : Plan
plan = plan_in (session same_name joined (pos 50000) inputs)

session-planned : session same_name joined (pos 50000) inputs ≡ done plan
unfolding construct feed_epochs feed_dated join_group quarantine quarantine_all set_aside append
    precedes flush flush_group resumed opened written filled append_all finish_plan equals ◌+ℤ◌ ◌-ℤ◌
    quot segment_name year_loop month_loop padded ◌*ℤ◌ rem
session-planned = refl

inputs-IsForward : All (λ i. All IsForwardEpoch i.epochs) inputs
inputs-IsForward = ground arith

session-hits_example : plan_hits (97 ∷ []) 120 plan.artifacts ≡ input_hits (97 ∷ []) 120 inputs
session-hits_example =
    session-hits same_name joined (pos 50000) inputs plan (97 ∷ []) 120 inputs-IsForward
      session-planned

session-InOrder_example : InOrder (pos 50000) (segments_of plan.artifacts)
session-InOrder_example = session-InOrder same_name joined (pos 50000) inputs plan session-planned

abbrev zeros : ℕ → List ℕ
zeros zero = []
zeros (suc n) = 0 ∷ zeros n

-- An index of one epoch, which has conflicting times.
abbrev conflicting_index : List ℕ
conflicting_index =
    85 ∷ 66 ∷ 88 ∷ 73 ∷ 68 ∷ 88 ∷ 48 ∷ 52 ∷ zeros 40
    ++ (zeros 8 ++ (10 ∷ zeros 31))
    ++ (64 ∷ zeros 3)
    ++ (1 ∷ zeros 3)
    ++ (1 ∷ zeros 7)

abbrev conflicting : List Given
conflicting = record { source = file_a; index = conflicting_index } ∷ []

abbrev floats : Float64
floats = record {
  Double = List ℕ;
  read = λ bytes. bytes;
  is_finite = λ t. false;
  is_negative = λ t. false;
  below = λ t n. false;
  round_thousandfold = λ t. pos 0;
}

abbrev archive : List ℕ
archive = 1 ∷ 2 ∷ 3 ∷ []

abbrev list_in : {A : Type 0} → Option (List A) → List A
list_in none = []
list_in (some xs) = xs

abbrev scanned_events : List Event
scanned_events = list_in (scan_archive floats archive)

abbrev written_index : List ℕ
written_index = list_in (archive_index floats (some (zeros 32)) archive)

scan_archive-archive : scan_archive floats archive ≡ some scanned_events
unfolding scan_archive scan_from turn sbf_size ubx_length lost finish
scan_archive-archive = refl

archive_index-archive : archive_index floats (some (zeros 32)) archive ≡ some written_index
unfolding archive_index scan_archive scan_from turn sbf_size ubx_length lost finish
archive_index-archive = refl

scanned-Fits : All Fits (epochs_of scanned_events)
unfolding scan_archive scan_from turn sbf_size ubx_length lost finish
scanned-Fits = ground arith

abbrev made : Planner
made = record {
  timeout = pos 1000;
  overrides = [];
  group = [];
  artifacts = [];
  events = [];
  unassigned = [];
  names = [];
  segment = none;
  last = none;
  pending = first_available;
}

feed-archive_index_example :
    feed file_a written_index made ≡ feed_epochs file_a (epochs_of scanned_events) made
feed-archive_index_example =
    feed-archive_index floats (some (zeros 32)) archive written_index scanned_events file_a made
      archive_index-archive scan_archive-archive scanned-Fits
