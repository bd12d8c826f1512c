-- ===== src/Logger/Written.antt =====
-- What `finish` of LoggerOutput, libcppgnss/examples/logger_output.hpp, promises of the files.
use mathlib.Core.Path.{subst}
use neo_gnss_observatory.Base.{
  ℕ, ◌≡◌, refl, sym, ap, ◌∙◌, Bool, true, false, List, [], ◌∷◌, ◌++◌, append-nil, none, some, arith,
}
use neo_gnss_observatory.Logger.{
  Job, Worker, closing, ended, Logger, start, fetch, close, work, step_at, open_file, write_file,
  quiet, check, submit, run_worker, flagged, stop, notify_one, finish, Action, submitting, checking,
  asking_to_stop, notifying, working, attempted, act, run, accepted_in,
}
use neo_gnss_observatory.Logger.Accounting.{is_raising}
use neo_gnss_observatory.Logger.Delivery.{
  IsHealthy, pipeline, run-pipeline, work-pipeline, notify_one-pipeline,
}
use neo_gnss_observatory.Logger.Files.{Placed, saved}
use neo_gnss_observatory.Logger.Calls.{AllCalls, run_worker-Placed, stop-Placed}

abbrev is_over : Worker → Bool
is_over closing = true
is_over ended = true
is_over _ = false

-- A worker that is through without an error was asked to stop and has emptied the queue.
abbrev IsEmptied : Logger → Type 0
IsEmptied s = is_over s.worker ≡ true → s.error ≡ none → (s.queue ≡ []) × (s.stopping ≡ true)

work-IsEmptied : (ok : Bool) (s : Logger) → IsEmptied s → IsEmptied (attempted s (work ok s))
unfolding work step_at fetch close open_file write_file
work-IsEmptied ok s h = ground arith

work-stopping : (ok : Bool) (s : Logger) → (attempted s (work ok s)).stopping ≡ s.stopping
unfolding work step_at fetch close open_file write_file
work-stopping ok s = ground arith

submit-IsEmptied :
    (j : Job) (s : Logger) → s.stopping ≡ false → IsEmptied s → IsEmptied (submit j s).0
unfolding submit notify_one
submit-IsEmptied j s e h = ground arith

submit-stopping : (j : Job) (s : Logger) → (submit j s).0.stopping ≡ s.stopping
unfolding submit notify_one
submit-stopping j s = ground arith

check-IsEmptied :
    (s : Logger) → IsEmptied s → IsEmptied (check s).0 × ((check s).0.stopping ≡ s.stopping)
unfolding check
check-IsEmptied s h = ground arith

notify_one-IsEmptied : (s : Logger) → IsEmptied s → IsEmptied (notify_one s)
unfolding notify_one
notify_one-IsEmptied s h = ground arith

run-IsEmptied :
    (as' : List Action) (s : Logger)
    → AllCalls as'
    → s.stopping ≡ false
    → IsEmptied s
    → IsEmptied (run as' s)
unfolding run act notify_one
run-IsEmptied [] s b e h = h
run-IsEmptied (submitting j ∷ as') s b e h =
    run-IsEmptied as' (submit j s).0 b.1 (submit-stopping j s ∙ e) (submit-IsEmptied j s e h)
run-IsEmptied (checking ∷ as') s b e h =
    let k = check-IsEmptied s h in run-IsEmptied as' (check s).0 b.1 (k.1 ∙ e) k.0
run-IsEmptied (asking_to_stop ∷ as') s b e h = absurd b.0
run-IsEmptied (notifying ∷ as') s b e h =
    run-IsEmptied as' (notify_one s) b.1 e (notify_one-IsEmptied s h)
run-IsEmptied (working ok ∷ as') s b e h =
    run-IsEmptied as' (attempted s (work ok s)) b.1 (work-stopping ok s ∙ e) (work-IsEmptied ok s h)

run_worker-IsEmptied : (oks : List Bool) (s : Logger) → IsEmptied s → IsEmptied (run_worker oks s)
unfolding run_worker
run_worker-IsEmptied [] s h = h
run_worker-IsEmptied (ok ∷ oks) s h =
    run_worker-IsEmptied oks (attempted s (work ok s)) (work-IsEmptied ok s h)

run_worker-pipeline :
    (oks : List Bool) (s : Logger)
    → IsHealthy (run_worker oks s)
    → IsHealthy s × (pipeline (run_worker oks s) ≡ pipeline s)
unfolding run_worker
run_worker-pipeline [] s h = (h, refl)
run_worker-pipeline (ok ∷ oks) s h =
    let r = run_worker-pipeline oks (attempted s (work ok s)) h in
    let k = work-pipeline ok s r.0 in (k.0, r.1 ∙ k.1)

stop-pipeline :
    (early : List Bool) (s : Logger)
    → IsHealthy (stop early s)
    → IsHealthy s × (pipeline (stop early s) ≡ pipeline s)
unfolding stop
stop-pipeline early s h =
    let k = notify_one-pipeline (run_worker early (flagged s)) h in
    let r = run_worker-pipeline early (flagged s) k.0 in (r.0, k.1 ∙ r.1)

stop-IsEmptied : (early : List Bool) (s : Logger) → IsEmptied s → IsEmptied (stop early s)
unfolding stop
stop-IsEmptied early s h =
    notify_one-IsEmptied (run_worker early (flagged s))
      (run_worker-IsEmptied early (flagged s) (λ o e. ((h o e).0, refl)))

-- What `finish` says when it returns without an exception.
finish-quiet :
    (s t : Logger) → finish s ≡ some (t, quiet) → (s.worker ≡ ended) × (s.error ≡ none) × (t ≡ s)
unfolding finish check
finish-quiet s t h = ground arith

pipeline_over : (s : Logger) → s.worker ≡ ended → s.queue ≡ [] → pipeline s ≡ s.written
pipeline_over s e q = rw (e, q) (append-nil s.written)

started : (limit : ℕ) → (start limit).stopping ≡ false
unfolding start
started limit = refl

fresh : (limit : ℕ) → IsEmptied (start limit)
unfolding start
fresh limit o e = ground arith

started_pipeline : (limit : ℕ) (js : List Job) → pipeline (start limit) ++ js ≡ js
unfolding start
started_pipeline limit js = refl

-- If a logger is given its jobs, none with an empty path, and `finish` returns without an exception,
-- however the two threads interleave, the files that the worker has made hold the jobs that were
-- accepted, in the order of the calls, and no other: jobs of one path that follow each other are
-- the contents of one file under that path, and another path begins a file.
pub finish-saved :
    (limit : ℕ) (as' : List Action) (early oks : List Bool) (t : Logger)
    → AllCalls as'
    → finish (run_worker oks (stop early (run as' (start limit)))) ≡ some (t, quiet)
    → t.files ≡ saved [] (accepted_in as' (start limit))
finish-saved limit as' early oks t c h =
    let s = run as' (start limit) in
    let u = run_worker oks (stop early s) in
    let q = finish-quiet u t h in
    let late = run_worker-pipeline oks (stop early s) (q.1, ap is_raising q.0) in
    let middle = stop-pipeline early s late.0 in
    let first = run-pipeline as' (start limit) middle.0 in
    let empty =
      run_worker-IsEmptied oks (stop early s) (
        stop-IsEmptied early s (run-IsEmptied as' (start limit) c (started limit) (fresh limit))) in
    let placed = run_worker-Placed oks (stop early s) (stop-Placed limit as' early c) in
    let written : u.written ≡ accepted_in as' (start limit) =
      sym (pipeline_over u q.0 (empty (ap is_over q.0) q.1).0)
      ∙ late.1
      ∙ middle.1
      ∙ first.1
      ∙ started_pipeline limit (accepted_in as' (start limit)) in
    ap (λ (x : Logger). x.files) q.2
    ∙ subst (λ w. Placed w u) q.0 placed.1 q.1
    ∙ ap (saved []) written
