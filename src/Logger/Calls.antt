-- ===== src/Logger/Calls.antt =====
-- The calls of the owner of a logger keep what holds of the worker and its files.
use neo_gnss_observatory.Base.{
  ℕ, ◌+◌, ◌-◌, ◌%◌, ◌^◌, ltb, ◌≡◌, refl, Bool, true, false, List, [], ◌∷◌, ◌++◌, Option, none, some,
  if◌then◌else◌,
}
use neo_gnss_observatory.Logger.{
  Job, Worker, waiting, sleeping, undefined, holding, reopening, preparing, opening, writing,
  releasing, closing, raising, ended, Error, Logger, start, work, woken, notify_one, submit, check,
  quiet, rethrown, accepted, disk_buffer_full, run_worker, flagged, stop, Answer, Action,
  submitting, checking, asking_to_stop, notifying, working, attempted, act, run,
}
use neo_gnss_observatory.Logger.Files.{is_named, AllPaths, Placed, IsPlaced, work-Placed}

woken-Placed : (w : Worker) (s : Logger) → Placed w s → Placed (woken w) s
woken-Placed waiting s h = h
woken-Placed sleeping s h = h
woken-Placed (undefined j) s h = h
woken-Placed (holding j) s h = h
woken-Placed (reopening j) s h = h
woken-Placed (preparing j) s h = h
woken-Placed (opening j) s h = h
woken-Placed (writing j) s h = h
woken-Placed (releasing n) s h = h
woken-Placed closing s h = h
woken-Placed (raising e) s h = h
woken-Placed ended s h = h

-- What a step may say of another state with the same files.
same_Placed :
    (w : Worker) (s : Logger) (queue : List Job) (buffered : ℕ) (stopping reported : Bool)
    (v : Worker)
    → Placed w s
    → Placed w (record s {
      queue = queue;
      buffered = buffered;
      stopping = stopping;
      error_reported = reported;
      worker = v;
    })
same_Placed waiting s q b t r v h = h
same_Placed sleeping s q b t r v h = h
same_Placed (undefined j) s q b t r v h = h
same_Placed (holding j) s q b t r v h = h
same_Placed (reopening j) s q b t r v h = h
same_Placed (preparing j) s q b t r v h = h
same_Placed (opening j) s q b t r v h = h
same_Placed (writing j) s q b t r v h = h
same_Placed (releasing n) s q b t r v h = h
same_Placed closing s q b t r v h = h
same_Placed (raising e) s q b t r v h = h
same_Placed ended s q b t r v h = h

AllPaths-append :
    (js : List Job) (j : Job) → AllPaths js → is_named j.path ≡ true → AllPaths (js ++ (j ∷ []))
AllPaths-append [] j h k = (k, tt)
AllPaths-append (i ∷ js) j h k = (h.0, AllPaths-append js j h.1 k)

pub notify_one-Placed : (s : Logger) → IsPlaced s → IsPlaced (notify_one s)
unfolding notify_one
notify_one-Placed s h = (
  h.0,
  same_Placed (woken s.worker) s s.queue s.buffered s.stopping s.error_reported (woken s.worker)
      (woken-Placed s.worker s h.1),
)

check-Placed : (s : Logger) → IsPlaced s → IsPlaced (check s).0
unfolding check
check-Placed s h = at s.error
  where
    at :
        (o : Option Error)
        → let r : Logger × Answer = elim o [
          | none ↦ (s, quiet)
          | some e ↦ (record s { error_reported = true }, rethrown e)
        ] in
          IsPlaced r.0
    at none = h
    at (some e) = (h.0, same_Placed s.worker s s.queue s.buffered s.stopping true s.worker h.1)

submit-Placed :
    (j : Job) (s : Logger) → is_named j.path ≡ true → IsPlaced s → IsPlaced (submit j s).0
unfolding submit
submit-Placed j s n h = at s.error
  where
    full : Bool
    full = ltb ((s.limit + 2 ^ 64 - s.buffered) % 2 ^ 64) j.capacity

    given : Logger
    given = record s { queue = s.queue ++ (j ∷ []); buffered = (s.buffered + j.capacity) % 2 ^ 64 }

    taken_one : IsPlaced (notify_one given)
    taken_one = notify_one-Placed given (
      AllPaths-append s.queue j h.0 n,
      same_Placed s.worker s given.queue given.buffered s.stopping s.error_reported s.worker h.1,
    )

    tested :
        (c : Bool)
        → let r : Logger × Answer =
            if c then (s, disk_buffer_full) else (notify_one given, accepted) in
          IsPlaced r.0
    tested true = h
    tested false = taken_one

    at :
        (o : Option Error)
        → let r : Logger × Answer = elim o [
          | some e ↦ (record s { error_reported = true }, rethrown e)
          | none ↦ if full then (s, disk_buffer_full) else (notify_one given, accepted)
        ] in
          IsPlaced r.0
    at none = tested full
    at (some e) = (h.0, same_Placed s.worker s s.queue s.buffered s.stopping true s.worker h.1)

-- No path is empty, and none of the actions is `stop`.
abbrev pub IsCall : Action → Type 0
IsCall (submitting j) = is_named j.path ≡ true
IsCall asking_to_stop = ⊥
IsCall _ = Unit

abbrev pub AllCalls : List Action → Type 0
AllCalls [] = Unit
AllCalls (a ∷ as') = IsCall a × AllCalls as'

run-Placed : (as' : List Action) (s : Logger) → AllCalls as' → IsPlaced s → IsPlaced (run as' s)
unfolding run act
run-Placed [] s c h = h
run-Placed (submitting j ∷ as') s c h = run-Placed as' (submit j s).0 c.1 (submit-Placed j s c.0 h)
run-Placed (checking ∷ as') s c h = run-Placed as' (check s).0 c.1 (check-Placed s h)
run-Placed (asking_to_stop ∷ as') s c h = absurd c.0
run-Placed (notifying ∷ as') s c h = run-Placed as' (notify_one s) c.1 (notify_one-Placed s h)
run-Placed (working ok ∷ as') s c h =
    run-Placed as' (attempted s (work ok s)) c.1 (work-Placed ok s h)

pub run_worker-Placed : (oks : List Bool) (s : Logger) → IsPlaced s → IsPlaced (run_worker oks s)
unfolding run_worker
run_worker-Placed [] s h = h
run_worker-Placed (ok ∷ oks) s h =
    run_worker-Placed oks (attempted s (work ok s)) (work-Placed ok s h)

pub flagged-Placed : (s : Logger) → IsPlaced s → IsPlaced (flagged s)
flagged-Placed s h =
    (h.0, same_Placed s.worker s s.queue s.buffered true s.error_reported s.worker h.1)

-- After the calls of an owner and a `stop`.
pub stop-Placed :
    (limit : ℕ) (as' : List Action) (early : List Bool)
    → AllCalls as'
    → IsPlaced (stop early (run as' (start limit)))
unfolding stop start
stop-Placed limit as' early c =
    let s = run as' (start limit) in
    notify_one-Placed (run_worker early (flagged s)) (
      run_worker-Placed early (flagged s)
        (flagged-Placed s (run-Placed as' (start limit) c (tt, (refl, (refl, refl))))))
