-- ===== src/Tests/Components.antt =====
-- Inputs of the logger's output and of the SBAS parser at which their theorems apply.
use neo_gnss_observatory.Base.{
  ℕ, zero, suc, ◌≡◌, ◌≢◌, refl, Bool, true, false, List, [], ◌∷◌, ◌++◌, some, arith, ◌≤◌, ◌<◌,
}
use neo_gnss_observatory.Logger.{
  Job, Action, submitting, checking, working, Logger, start, stop, run, finish, accepted_in, act,
  submit, work, fetch, close, check, quiet, ended, run_worker, notify_one, step_at, open_file,
  write_at, write_file,
}
use neo_gnss_observatory.Logger.Accounting.{IsCounted, run-IsCounted, start-IsCounted}
use neo_gnss_observatory.Logger.Delivery.{IsHealthy, pipeline, run-pipeline}
use neo_gnss_observatory.Logger.Files.{saved}
use neo_gnss_observatory.Logger.Written.{finish-saved}
use neo_gnss_observatory.Logger.Drain.{run-ends}
use neo_gnss_observatory.Sbas.Bits.{out_of_range}
use neo_gnss_observatory.Sbas.Content.{Message, standard, prn_mask}
use neo_gnss_observatory.Sbas.Message.{parse_l1}
use neo_gnss_observatory.Sbas.Igp.{igp_coordinate, columns, latitudes}
use neo_gnss_observatory.Sbas.Grid.{igp_coordinate-bounds, igp_coordinate_unique}
use neo_gnss_observatory.Base.Int.{pos, negsuc, pos_part, ◌≤ℤ◌, ◌+ℤ◌, ◌-ℤ◌}
use neo_gnss_observatory.Sbas.Returns.{parse_l1-returns}

abbrev one_job : Job
one_job = record { path = 97 ∷ []; bytes = 1 ∷ 2 ∷ []; capacity = 2 }

abbrev other_job : Job
other_job = record { path = 98 ∷ []; bytes = 3 ∷ []; capacity = 4 }

-- The second job is submitted while the worker is at the first.
abbrev session : List Action
session = submitting one_job ∷ working true ∷ submitting other_job ∷ checking ∷ working true ∷ []

run-IsCounted_example : IsCounted (run session (start 100))
run-IsCounted_example = run-IsCounted session (start 100) (start-IsCounted 100 (omega arith))

session-IsHealthy : IsHealthy (run session (start 100))
unfolding run act submit work fetch start notify_one step_at open_file write_at write_file
session-IsHealthy = ground arith

run-pipeline_example :
    IsHealthy (start 100)
    × (pipeline (run session (start 100)) ≡ pipeline (start 100) ++ accepted_in session (start 100))
run-pipeline_example = run-pipeline session (start 100) session-IsHealthy

abbrev answers : List Bool
answers =
    true ∷ true ∷ true ∷ true ∷ true ∷ true ∷ true ∷ true ∷ true ∷ true ∷ true ∷ true ∷ true ∷ true
    ∷ true ∷ true ∷ []

abbrev settled : Logger
settled = record (start 100) {
  stopping = true;
  worker = ended;
  file = false;
  current = 98 ∷ [];
  written = one_job ∷ other_job ∷ [];
  files =
      record { path = 98 ∷ []; contents = 3 ∷ [] }
      ∷ record { path = 97 ∷ []; contents = 1 ∷ 2 ∷ [] }
      ∷ [];
}

-- The worker acts once between the flag and notify_one.
finish-session :
    finish (run_worker answers (stop (true ∷ []) (run session (start 100)))) ≡ some (settled, quiet)
unfolding finish check close run act submit work fetch start stop run_worker notify_one step_at
    open_file write_at write_file
finish-session = refl

finish-saved_example : settled.files ≡ saved [] (accepted_in session (start 100))
unfolding start
finish-saved_example =
    finish-saved 100 session (true ∷ []) answers settled (refl, (tt, (refl, (tt, (tt, tt)))))
      finish-session

run-ends_example :
    (run_worker (true ∷ answers) (stop [] (run (submitting one_job ∷ []) (start 100)))).worker
    ≡ ended
unfolding run act submit start stop run_worker notify_one
run-ends_example =
    run-ends 100 (submitting one_job ∷ []) [] (true ∷ answers) (refl, tt) (omega arith)

-- A mask of four satellites.
abbrev mask_message : List ℕ
mask_message =
    83 ∷ 7 ∷ 33 ∷ 0 ∷ 0 ∷ 0 ∷ 0 ∷ 0 ∷ 0 ∷ 0 ∷ 0 ∷ 0 ∷ 0 ∷ 0 ∷ 0 ∷ 0 ∷ 0 ∷ 0 ∷ 0 ∷ 0 ∷ 0 ∷ 0 ∷ 0 ∷ 0
    ∷ 0 ∷ 0 ∷ 0 ∷ 0 ∷ 141 ∷ 163 ∷ 84 ∷ 0 ∷ []

parse_l1-returns_example : parse_l1 mask_message standard ≢ out_of_range
parse_l1-returns_example = parse_l1-returns mask_message standard

abbrev no_bits : ℕ → List Bool
no_bits zero = []
no_bits (suc n) = false ∷ no_bits n

abbrev parsed_mask : Message
parsed_mask = record {
  bytes = mask_message;
  padding_bits = 0;
  preamble = 83;
  type = 1;
  received_crc = 3575120;
  computed_crc = 3575120;
  preamble_valid = true;
  crc_valid = true;
  content = prn_mask (record {
    iodp = 2;
    mask = true ∷ true ∷ false ∷ false ∷ true ∷ false ∷ false ∷ false ∷ false ∷ true ∷ no_bits 200;
  });
}

-- The first point of band 0: 75 degrees south and 180 degrees west.
first_point : igp_coordinate 0 1 ≡ some (negsuc 74, negsuc 179)
unfolding igp_coordinate columns latitudes ◌+ℤ◌ ◌-ℤ◌
first_point = refl

igp_coordinate-bounds_example :
    (0 ≤ 10)
    × (1 ≤ 1)
    × (1 ≤ 201)
    × (negsuc 74 ≤ℤ pos 85)
    × (negsuc 84 ≤ℤ negsuc 74)
    × (negsuc 179 ≤ℤ negsuc 179)
    × (pos_part (negsuc 179) < 180)
igp_coordinate-bounds_example = igp_coordinate-bounds 0 1 (negsuc 74, negsuc 179) first_point

igp_coordinate_unique_example : ◌≡◌ {A = ℕ} 1 1
igp_coordinate_unique_example =
    igp_coordinate_unique 0 1 1 (negsuc 74, negsuc 179) first_point first_point
