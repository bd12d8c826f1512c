-- ===== src/Logger.antt =====
-- LoggerOutput of libcppgnss/examples/logger_output.hpp: a producer that never waits for the disk
-- and one worker thread. What runs under the mutex, and each call of the file system, is one action,
-- so that a run is an interleaving of the two threads. An exception is a value. A worker that
-- waits on the condition variable acts only after notify_one or a spurious wake.
pub mod Accounting
pub mod Delivery
pub mod Drain
pub mod Files
pub mod Calls
pub mod Written
use neo_gnss_observatory.Base.{
  ℕ, ◌+◌, ◌-◌, ◌%◌, ◌^◌, Bool, true, false, List, [], ◌∷◌, ◌++◌, Option, none, some, ltb, ◌==◌,
  ◌&&◌, ◌||◌, not, if◌then◌else◌,
}

-- The capacity of the vector, which can be more than its size, is a number of its own.
pub record Job : Type 0 where
  pub path : List ℕ
  pub bytes : List ℕ
  pub capacity : ℕ

pub data Error : Type 0 where
  close_failed directory_failed open_failed write_failed : List ℕ → Error

-- Where the worker stands in `run`: `waiting` is before the test of the predicate, `sleeping` inside
-- the wait. After fwrite on a null FILE, which is undefined behaviour, nothing is said.
pub data Worker : Type 0 where
  waiting : Worker
  sleeping : Worker
  undefined : Job → Worker
  holding : Job → Worker
  reopening : Job → Worker
  preparing : Job → Worker
  opening : Job → Worker
  writing : Job → Worker
  releasing : ℕ → Worker
  closing : Worker
  raising : Error → Worker
  ended : Worker

pub record File : Type 0 where
  pub path : List ℕ
  pub contents : List ℕ

-- `file` says whether a file is open, which is the newest of `files`, those that the worker has made,
-- the newest first. `written` lists the jobs whose fwrite was complete.
pub record Logger : Type 0 where
  pub limit : ℕ
  pub queue : List Job
  pub buffered : ℕ
  pub stopping : Bool
  pub error_reported : Bool
  pub error : Option Error
  pub worker : Worker
  pub file : Bool
  pub current : List ℕ
  pub written : List Job
  pub files : List File

unfoldable pub start : ℕ → Logger
start capacity = record {
  limit = capacity;
  queue = [];
  buffered = 0;
  stopping = false;
  error_reported = false;
  error = none;
  worker = waiting;
  file = false;
  current = [];
  written = [];
  files = [];
}

abbrev pub same_path : List ℕ → List ℕ → Bool
same_path [] [] = true
same_path (a ∷ as') (b ∷ bs) = a == b && same_path as' bs
same_path _ _ = false

-- The body of the loop under its first lock, with the wait that its predicate does not end.
unfoldable pub fetch : Logger → Logger
fetch s = elim s.queue [
  | [] ↦ record s { worker = if s.stopping then closing else sleeping }
  | j ∷ js ↦ record s { queue = js; worker = holding j }
]

-- The lambda `close`, then `next`; fclose is called only on an open file.
unfoldable pub close : Bool → Worker → Logger → Logger
close ok next s =
    let failed = if ok then next else raising (close_failed s.current) in
    record s { file = false; worker = if s.file then failed else next }

-- fopen with the mode "wbx" answers no file where there is one.
abbrev pub is_present : List File → List ℕ → Bool
is_present [] path = false
is_present (f ∷ fs) path = same_path f.path path || is_present fs path

-- fopen and fwrite; fwrite writes to the newest file, which is the open one.
unfoldable pub open_file : Job → Logger → Logger
open_file j s = record s {
  file = true;
  current = j.path;
  files = record { path = j.path; contents = [] } ∷ s.files;
  worker = writing j;
}

abbrev pub extended_file : Job → List File → List File
extended_file j [] = []
extended_file j (f ∷ fs) = record f { contents = f.contents ++ j.bytes } ∷ fs

unfoldable pub write_file : Job → Logger → Logger
write_file j s = record s {
  written = s.written ++ (j ∷ []);
  files = extended_file j s.files;
  worker = releasing j.capacity;
}

-- fwrite on the file, or on a null FILE where none is open.
unfoldable pub write_at : (file ok : Bool) → Job → Logger → Logger
unfolding write_file
write_at false ok j s = record s { worker = undefined j }
write_at true true j s = write_file j s
write_at true false j s = record s { worker = raising (write_failed s.current) }

-- One action of a worker that stands here; `ok` is what the call of the file system answers.
unfoldable pub step_at : Worker → Bool → Logger → Option Logger
unfolding fetch close open_file write_at
step_at waiting ok s = some (fetch s)
step_at sleeping ok s = none
step_at (undefined j) ok s = none
step_at (holding j) ok s =
    some (record s { worker = if same_path j.path s.current then writing j else reopening j })
step_at (reopening j) ok s = some (close ok (preparing j) s)
step_at (preparing j) ok s =
    some (record s { worker = if ok then opening j else raising (directory_failed j.path) })
step_at (opening j) ok s = some (
    if ok && not (is_present s.files j.path)
    then open_file j s
    else record s { worker = raising (open_failed j.path) })
step_at (writing j) ok s = some (write_at s.file ok j s)
step_at (releasing n) ok s =
    some (record s { buffered = (s.buffered + 2 ^ 64 - n) % 2 ^ 64; worker = waiting })
step_at closing ok s = some (close ok ended s)
step_at (raising e) ok s = some (record s { error = some e; file = false; worker = ended })
step_at ended ok s = none

unfoldable pub work : Bool → Logger → Option Logger
unfolding step_at
work ok s = step_at s.worker ok s

abbrev pub woken : Worker → Worker
woken sleeping = waiting
woken w = w

-- `ready.notify_one()`, and a spurious wake.
unfoldable pub notify_one : Logger → Logger
notify_one s = record s { worker = woken s.worker }

pub data Answer : Type 0 where
  accepted disk_buffer_full quiet : Answer
  rethrown : Error → Answer

-- `check`.
unfoldable pub check : Logger → Logger × Answer
check s = elim s.error [
  | none ↦ (s, quiet)
  | some e ↦ (record s { error_reported = true }, rethrown e)
]

-- `submit`.
unfoldable pub submit : Job → Logger → Logger × Answer
unfolding notify_one
submit j s = elim s.error [
  | some e ↦ (record s { error_reported = true }, rethrown e)
  | none ↦
      if ltb ((s.limit + 2 ^ 64 - s.buffered) % 2 ^ 64) j.capacity then (s, disk_buffer_full) else (
        notify_one (record s {
          queue = s.queue ++ (j ∷ []);
          buffered = (s.buffered + j.capacity) % 2 ^ 64;
        }),
        accepted,
      )
]

abbrev pub attempted : Logger → Option Logger → Logger
attempted s none = s
attempted s (some t) = t

-- Actions of the worker alone.
unfoldable pub run_worker : List Bool → Logger → Logger
unfolding work
run_worker [] s = s
run_worker (ok ∷ oks) s = run_worker oks (attempted s (work ok s))

abbrev pub flagged : Logger → Logger
flagged s = record s { stopping = true }

-- `stop` up to the join, which waits until the worker has ended. Between the flag and notify_one the
-- worker acts on, with the answers `early`.
unfoldable pub stop : List Bool → Logger → Logger
unfolding run_worker notify_one
stop early s = notify_one (run_worker early (flagged s))

-- `finish` after the join, and what the destructor prints.
unfoldable pub finish : Logger → Option (Logger × Answer)
unfolding check
finish s = elim s.worker [ ended ↦ some (check s) | _ ↦ none ]

unfoldable pub destroyed : Logger → Option Error
destroyed s = if s.error_reported then none else s.error

pub data Action : Type 0 where
  submitting : Job → Action
  checking : Action
  asking_to_stop : Action
  notifying : Action
  working : Bool → Action

-- An action of the worker that is not possible leaves everything as it is. `notifying` is what
-- `stop` does after its flag, or a spurious wake.
unfoldable pub act : Action → Logger → Logger
unfolding submit check work notify_one
act (submitting j) s = (submit j s).0
act checking s = (check s).0
act asking_to_stop s = flagged s
act notifying s = notify_one s
act (working ok) s = attempted s (work ok s)

unfoldable pub run : List Action → Logger → Logger
unfolding act
run [] s = s
run (a ∷ as') s = run as' (act a s)

-- The jobs that were accepted in a run.
abbrev pub taken : Answer → Job → List Job
taken accepted j = j ∷ []
taken _ j = []

unfoldable pub accepted_by : Action → Logger → List Job
unfolding submit
accepted_by (submitting j) s = taken (submit j s).1 j
accepted_by _ s = []

unfoldable pub accepted_in : List Action → Logger → List Job
unfolding act accepted_by
accepted_in [] s = []
accepted_in (a ∷ as') s = accepted_by a s ++ accepted_in as' (act a s)
