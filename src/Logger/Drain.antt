-- ===== src/Logger/Drain.antt =====
-- Once it is asked to stop the worker ends, whatever the file system answers.
use neo_gnss_observatory.Base.{
  ℕ, suc, ◌+◌, ◌*◌, ◌≤◌, ◌<◌, ◌≡◌, ◌⊎◌, ◌≢◌, ◌∙◌, refl, false, inl, inr, Bool, true, List, [], ◌∷◌,
  arith, length,
}
use neo_gnss_observatory.Logger.Files.{Placed, IsPlaced, work-Placed}
use neo_gnss_observatory.Logger.Calls.{stop-Placed, AllCalls}
use neo_gnss_observatory.Logger.{
  Worker, waiting, holding, reopening, preparing, opening, writing, releasing, closing, raising,
  ended, Logger, fetch, close, work, attempted, run, sleeping, undefined, step_at, open_file,
  write_at, write_file, run_worker, flagged, stop, notify_one, woken, start, Action,
}

-- The actions of the worker that are left, at most.
abbrev pub rank : Worker → ℕ
rank ended = 0
rank (undefined j) = 0
rank (raising e) = 1
rank closing = 2
rank waiting = 3
rank sleeping = 3
rank (releasing n) = 4
rank (writing j) = 5
rank (opening j) = 6
rank (preparing j) = 7
rank (reopening j) = 8
rank (holding j) = 9

abbrev pub left_actions : Logger → ℕ
left_actions s = rank s.worker + 7 * length s.queue

rank-le : (w : Worker) → rank w ≤ 9
rank-le w = ground arith

-- A worker that is asleep, or has no file to write to, does not act.
abbrev is_stuck : Worker → Bool
is_stuck sleeping = true
is_stuck (undefined j) = true
is_stuck _ = false

-- An action of a worker that was asked to stop brings the end nearer, and is always possible before.
work-left_actions :
    (ok : Bool) (s : Logger)
    → s.stopping ≡ true
    → is_stuck s.worker ≡ false
    → let t = attempted s (work ok s) in
      (t.stopping ≡ true)
      × (t.worker ≢ sleeping)
      × (s.worker ≡ ended → t.worker ≡ ended)
      × ((s.worker ≡ ended)
          ⊎ (rank t.worker + 7 * length t.queue < rank s.worker + 7 * length s.queue))
unfolding work step_at fetch close open_file write_at write_file
work-left_actions ok s h a = ground arith

Placed-is_stuck : (w : Worker) (s : Logger) → Placed w s → w ≢ sleeping → is_stuck w ≡ false
Placed-is_stuck sleeping s h a = absurd (a refl)
Placed-is_stuck (undefined j) s h a = absurd h
Placed-is_stuck waiting s h a = refl
Placed-is_stuck (holding j) s h a = refl
Placed-is_stuck (reopening j) s h a = refl
Placed-is_stuck (preparing j) s h a = refl
Placed-is_stuck (opening j) s h a = refl
Placed-is_stuck (writing j) s h a = refl
Placed-is_stuck (releasing n) s h a = refl
Placed-is_stuck closing s h a = refl
Placed-is_stuck (raising e) s h a = refl
Placed-is_stuck ended s h a = refl

drain :
    (oks : List Bool) (s : Logger)
    → s.stopping ≡ true
    → s.worker ≢ sleeping
    → IsPlaced s
    → (s.worker ≡ ended) ⊎ (rank s.worker + 7 * length s.queue ≤ length oks)
    → (run_worker oks s).worker ≡ ended
unfolding run_worker
drain [] s h a p k = done s.worker (Placed-is_stuck s.worker s p.1 a) k
  where
    done :
        (w : Worker)
        → is_stuck w ≡ false
        → (w ≡ ended) ⊎ (rank w + 7 * length s.queue ≤ 0)
        → w ≡ ended
    done w a k = ground arith
drain (ok ∷ oks) s h a p k =
    let r = work-left_actions ok s h (Placed-is_stuck s.worker s p.1 a) in
    drain oks (attempted s (work ok s)) r.0 r.1 (work-Placed ok s p) (nearer r.2 r.3 k)
  where
    t : Logger
    t = attempted s (work ok s)

    nearer :
        (s.worker ≡ ended → t.worker ≡ ended)
        → (s.worker ≡ ended)
          ⊎ (rank t.worker + 7 * length t.queue < rank s.worker + 7 * length s.queue)
        → (s.worker ≡ ended) ⊎ (rank s.worker + 7 * length s.queue ≤ suc (length oks))
        → (t.worker ≡ ended) ⊎ (rank t.worker + 7 * length t.queue ≤ length oks)
    nearer stays (inl e) k = inl (stays e)
    nearer stays (inr l) (inl e) = inl (stays e)
    nearer stays (inr l) (inr m) = inr (omega arith)

work-stopping : (ok : Bool) (s : Logger) → (attempted s (work ok s)).stopping ≡ s.stopping
unfolding work step_at fetch close open_file write_at write_file
work-stopping ok s = ground arith

run_worker-stopping : (oks : List Bool) (s : Logger) → (run_worker oks s).stopping ≡ s.stopping
unfolding run_worker
run_worker-stopping [] s = refl
run_worker-stopping (ok ∷ oks) s =
    run_worker-stopping oks (attempted s (work ok s)) ∙ work-stopping ok s

stop-awake :
    (early : List Bool) (s : Logger)
    → ((stop early s).stopping ≡ true) × ((stop early s).worker ≢ sleeping)
unfolding stop notify_one
stop-awake early s =
    (run_worker-stopping early (flagged s), awake (run_worker early (flagged s)).worker)
  where
    awake : (w : Worker) → woken w ≢ sleeping
    awake w e = ground arith

-- After any calls of the owner whose paths are not empty, interleaved with the worker in any way, the
-- join of `stop` does not wait for ever: however the worker acts between the flag and notify_one,
-- it ends within nine actions and seven for each job that is then in the queue, whatever the calls
-- of the file system answer.
pub run-ends :
    (limit : ℕ) (as' : List Action) (early oks : List Bool)
    → AllCalls as'
    → 9 + 7 * length (stop early (run as' (start limit))).queue ≤ length oks
    → (run_worker oks (stop early (run as' (start limit)))).worker ≡ ended
run-ends limit as' early oks c k =
    let s = stop early (run as' (start limit)) in
    let a = stop-awake early (run as' (start limit)) in
    drain oks s a.0 a.1 (stop-Placed limit as' early c) (inr (omega (arith, k, rank-le s.worker)))
