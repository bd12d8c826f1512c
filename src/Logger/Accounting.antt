-- ===== src/Logger/Accounting.antt =====
-- `buffered` never passes the limit, so that `limit - buffered` and `buffered -= capacity` never
-- go below 0.
use neo_gnss_observatory.Base.{
  ℕ, ◌+◌, ◌^◌, ◌≤◌, ◌<◌, ◌≡◌, Bool, true, false, List, [], ◌∷◌, ◌++◌, none, arith,
}
use neo_gnss_observatory.Logger.{
  Job, Worker, holding, reopening, preparing, opening, writing, releasing, raising, Logger, start,
  fetch, close, work, check, submit, Action, submitting, checking, asking_to_stop, notifying,
  working, step_at, open_file, write_at, write_file, notify_one, undefined, attempted, act, run,
}

-- The capacities of the queue.
abbrev pub total : List Job → ℕ
total [] = 0
total (j ∷ js) = j.capacity + total js

-- What the worker has taken and not given back.
abbrev pub held : Worker → ℕ
held (undefined j) = j.capacity
held (holding j) = j.capacity
held (reopening j) = j.capacity
held (preparing j) = j.capacity
held (opening j) = j.capacity
held (writing j) = j.capacity
held (releasing n) = n
held _ = 0

abbrev pub is_raising : Worker → Bool
is_raising (raising e) = true
is_raising _ = false

-- What is in memory is counted, the count is within the limit, and it is exact until the disk fails.
pub record IsCounted (s : Logger) : Type 0 where
  pub small : s.limit < 2 ^ 64
  pub within : s.buffered ≤ s.limit
  pub covered : total s.queue + held s.worker ≤ s.buffered
  pub exact :
      s.error ≡ none → is_raising s.worker ≡ false → s.buffered ≡ total s.queue + held s.worker

total-append : (js : List Job) (j : Job) → total (js ++ (j ∷ [])) ≡ total js + j.capacity
total-append [] j = omega arith
total-append (i ∷ js) j = omega (arith, total-append js j)

submit-IsCounted : (j : Job) (s : Logger) → IsCounted s → IsCounted (submit j s).0
unfolding submit notify_one
submit-IsCounted j s h = ground (arith, total-append s.queue j)

check-IsCounted : (s : Logger) → IsCounted s → IsCounted (check s).0
unfolding check
check-IsCounted s h = ground arith

attempted-work-IsCounted :
    (ok : Bool) (s : Logger) → IsCounted s → IsCounted (attempted s (work ok s))
unfolding work step_at fetch close open_file write_at write_file
attempted-work-IsCounted ok s h = ground arith

act-IsCounted : (a : Action) (s : Logger) → IsCounted s → IsCounted (act a s)
unfolding act notify_one
act-IsCounted (submitting j) s h = submit-IsCounted j s h
act-IsCounted checking s h = check-IsCounted s h
act-IsCounted asking_to_stop s h = ground arith
act-IsCounted notifying s h = ground arith
act-IsCounted (working ok) s h = attempted-work-IsCounted ok s h

-- Whatever the two threads and the file system do, in any order, the memory of the accepted jobs
-- that are not given back is counted by `buffered`, `buffered` is at most the limit, and until the
-- disk fails the count is exact.
pub run-IsCounted : (as' : List Action) (s : Logger) → IsCounted s → IsCounted (run as' s)
unfolding run
run-IsCounted [] s h = h
run-IsCounted (a ∷ as') s h = run-IsCounted as' (act a s) (act-IsCounted a s h)

pub start-IsCounted : (limit : ℕ) → limit < 2 ^ 64 → IsCounted (start limit)
unfolding start
start-IsCounted limit h = ground arith
