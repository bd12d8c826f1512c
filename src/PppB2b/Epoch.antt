-- ===== src/PppB2b/Epoch.antt =====
-- The epoch of a header of decode_pppb2b in libneognss-obs/src/broadcast_pppb2b.cpp.
use neo_gnss_observatory.Base.{
  ℕ, ◌+◌, ◌-◌, ◌*◌, ◌/◌, ◌≤◌, ◌<◌, ◌≡◌, Bool, true, false, arith, if◌then◌else◌,
}
use neo_gnss_observatory.Base.Int.{ℤ, pos, ◌+ℤ◌, ◌-ℤ◌, ◌*ℤ◌, ◌≤ℤ◌, quot}
use neo_gnss_observatory.PppB2b.{seconds, nearest_epoch}

-- Which day the epoch is in, from the two tests on the first guess.
abbrev picked : Bool → Bool → ℤ → ℤ
picked a b t = let t1 = if a then t -ℤ seconds 86400 else t in if b then t1 +ℤ seconds 86400 else t1

picked_day :
    (a b : Bool) (q c : ℕ)
    → (m : ℕ) × (picked a b (pos (q * 86400000000000000 + c)) +ℤ seconds 86400
        ≡ pos (m * 86400000000000000 + c))
unfolding ◌+ℤ◌ ◌-ℤ◌
picked_day true true q c = (q + 1, ground arith)
picked_day true false q c = (q, ground arith)
picked_day false true q c = (q + 2, ground arith)
picked_day false false q c = (q + 1, ground arith)

first_guess :
    (time sod : ℕ)
    → 14 * 1000000000000 ≤ time
    → quot (pos time -ℤ seconds 14) (86400 * 1000000000000) *ℤ seconds 86400 +ℤ seconds (sod + 14)
      ≡ pos (
          (time - 14000000000000) / 86400000000000000 * 86400000000000000
          + (sod + 14) * 1000000000000)
unfolding quot ◌+ℤ◌ ◌-ℤ◌ ◌*ℤ◌
first_guess time sod h = ground arith

nearest_epoch_within :
    (time sod : ℕ)
    → 14 * 1000000000000 ≤ time
    → sod < 86400
    → (nearest_epoch (pos time) sod ≤ℤ pos time +ℤ seconds 43200)
      × (pos time ≤ℤ nearest_epoch (pos time) sod +ℤ seconds 43200)
unfolding nearest_epoch quot ◌+ℤ◌ ◌-ℤ◌ ◌*ℤ◌
nearest_epoch_within time sod h k = ground arith

nearest_epoch_day :
    (time sod : ℕ)
    → 14 * 1000000000000 ≤ time
    → (m : ℕ) × (nearest_epoch (pos time) sod +ℤ seconds 86400
        ≡ pos (m * 86400000000000000 + (sod + 14) * 1000000000000))
unfolding nearest_epoch
nearest_epoch_day time sod h =
    rw (first_guess time sod h) (picked_day _ _ _ ((sod + 14) * 1000000000000))

-- From 14 s of GPS time on, the epoch of a second of the day is at most half a day from the time
-- of reception, and it is that second of a BeiDou day: a day later it is a whole number of days, the
-- seconds and the 14 s between the two systems.
pub nearest_epoch-near :
    (time sod : ℕ)
    → 14 * 1000000000000 ≤ time
    → sod < 86400
    → (nearest_epoch (pos time) sod ≤ℤ pos time +ℤ seconds 43200)
      × (pos time ≤ℤ nearest_epoch (pos time) sod +ℤ seconds 43200)
      × (m : ℕ) × (nearest_epoch (pos time) sod +ℤ seconds 86400
          ≡ pos (m * 86400000000000000 + (sod + 14) * 1000000000000))
nearest_epoch-near time sod h k =
    let n = nearest_epoch_within time sod h k in
    let d = nearest_epoch_day time sod h in (n.0, n.1, d.0, d.1)
