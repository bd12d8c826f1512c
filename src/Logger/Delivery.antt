-- ===== src/Logger/Delivery.antt =====
-- What was accepted is written, once and in order, until the disk fails.
use neo_gnss_observatory.Base.{
  ◌≡◌, sym, ap, ◌∙◌, Bool, false, List, [], ◌∷◌, ◌++◌, append-nil, append_assoc, none, arith,
}
use neo_gnss_observatory.Logger.{
  Job, Worker, holding, reopening, preparing, opening, writing, Logger, fetch, close, work, check,
  submit, Action, submitting, checking, asking_to_stop, notifying, step_at, open_file, write_at,
  write_file, notify_one, undefined, working, attempted, act, run, taken, accepted_by, accepted_in,
}
use neo_gnss_observatory.Logger.Accounting.{is_raising}

-- The job that the worker has and has not written.
abbrev pub carried : Worker → List Job
carried (undefined j) = j ∷ []
carried (holding j) = j ∷ []
carried (reopening j) = j ∷ []
carried (preparing j) = j ∷ []
carried (opening j) = j ∷ []
carried (writing j) = j ∷ []
carried _ = []

-- No call of the file system has failed.
abbrev pub IsHealthy : Logger → Type 0
IsHealthy s = (s.error ≡ none) × (is_raising s.worker ≡ false)

abbrev pub pipeline : Logger → List Job
pipeline s = s.written ++ (carried s.worker ++ s.queue)

pub work-pipeline :
    (ok : Bool) (s : Logger)
    → IsHealthy (attempted s (work ok s))
    → IsHealthy s × (pipeline (attempted s (work ok s)) ≡ pipeline s)
unfolding work step_at fetch close open_file write_at write_file
work-pipeline ok s h = grind (arith, append_assoc)

submit-pipeline :
    (j : Job) (s : Logger)
    → IsHealthy (submit j s).0
    → IsHealthy s × (pipeline (submit j s).0 ≡ pipeline s ++ taken (submit j s).1 j)
unfolding submit notify_one
submit-pipeline j s h = grind (arith, append_assoc, append-nil)

check-pipeline :
    (s : Logger) → IsHealthy (check s).0 → IsHealthy s × (pipeline (check s).0 ≡ pipeline s)
unfolding check
check-pipeline s h = ground arith

pub notify_one-pipeline :
    (s : Logger) → IsHealthy (notify_one s) → IsHealthy s × (pipeline (notify_one s) ≡ pipeline s)
unfolding notify_one
notify_one-pipeline s h = ground arith

act-pipeline :
    (a : Action) (s : Logger)
    → IsHealthy (act a s)
    → IsHealthy s × (pipeline (act a s) ≡ pipeline s ++ accepted_by a s)
unfolding act accepted_by notify_one
act-pipeline (submitting j) s h = submit-pipeline j s h
act-pipeline checking s h = let k = check-pipeline s h in (k.0, k.1 ∙ sym (append-nil (pipeline s)))
act-pipeline asking_to_stop s h = (h, sym (append-nil (pipeline s)))
act-pipeline notifying s h =
    let k = notify_one-pipeline s h in (k.0, k.1 ∙ sym (append-nil (pipeline s)))
act-pipeline (working ok) s h =
    let k = work-pipeline ok s h in (k.0, k.1 ∙ sym (append-nil (pipeline s)))

-- While no call of the file system has failed, the jobs written, the one at the worker and those in
-- the queue are, in this order, those that were there before and those that were accepted since: in
-- every interleaving nothing is lost, repeated or reordered.
pub run-pipeline :
    (as' : List Action) (s : Logger)
    → IsHealthy (run as' s)
    → IsHealthy s × (pipeline (run as' s) ≡ pipeline s ++ accepted_in as' s)
unfolding run accepted_in
run-pipeline [] s h = (h, sym (append-nil (pipeline s)))
run-pipeline (a ∷ as') s h =
    let r = run-pipeline as' (act a s) h in
    let k = act-pipeline a s r.0 in
    (
      k.0,
      r.1
          ∙ ap (λ (t : List Job). t ++ accepted_in as' (act a s)) k.1
          ∙ append_assoc (pipeline s) (accepted_by a s) (accepted_in as' (act a s)),
    )
