-- ===== src/ReceiverTime.antt =====
-- struct ReceiverTime of libneognss-obs/src/receiver_time.hpp. A Tick, a 128-bit integer there, is
-- an integer here.
pub mod Order
use neo_gnss_observatory.Base.{
  ℕ, ◌*◌, Bool, true, false, ◌&&◌, ◌||◌, Option, none, some, not, if◌then◌else◌,
}
use neo_gnss_observatory.Base.Int.{ℤ, pos, ◌+ℤ◌, ◌-ℤ◌, ◌*ℤ◌, ltb_ℤ, quot}

abbrev pub second : ℕ
second = 1000000000000

pub data Restart : Type 0 where
  no_restart uptime_decrease offset_jump : Restart

pub record ReceiverTime : Type 0 where
  pub period : ℤ
  pub timeout : ℤ
  pub restart_threshold : ℤ
  pub navigation : Option ℤ
  pub progress : Option ℤ
  pub uptime : Option ℤ
  pub anchor_uptime : Option ℤ
  pub uptime_gpst : Option ℤ
  pub paired_offset : Option ℤ
  pub archive_day : ℤ

-- The constructor.
unfoldable pub start : ℤ → ReceiverTime
start cadence = record {
  period = cadence;
  timeout = cadence *ℤ pos 10;
  restart_threshold =
      if ltb_ℤ (pos (5 * second)) (cadence *ℤ pos 2) then cadence *ℤ pos 2 else pos (5 * second);
  navigation = none;
  progress = none;
  uptime = none;
  anchor_uptime = none;
  uptime_gpst = none;
  paired_offset = none;
  archive_day = pos 0;
}

-- `a && b && *a - *b > limit`.
abbrev pub apart : Option ℤ → Option ℤ → ℤ → Bool
apart (some a) (some b) limit = ltb_ℤ limit (a -ℤ b)
apart _ _ _ = false

abbrev pub later : Option ℤ → ℤ → Option ℤ
later none t = some t
later (some p) t = some (if ltb_ℤ p t then t else p)

unfoldable pub advance : ReceiverTime → ℤ → ReceiverTime
advance r t = record r { progress = later r.progress t; archive_day = quot (quot t second) 86400 }

unfoldable pub anchor : ReceiverTime → Option ℤ
anchor r =
    if apart r.progress r.navigation r.timeout || apart r.uptime r.anchor_uptime r.timeout
    then none
    else r.navigation

unfoldable pub associated_uptime : ReceiverTime → Option ℤ
associated_uptime r = if apart r.progress r.uptime_gpst r.timeout then none else r.uptime

unfoldable pub set_navigation : ReceiverTime → Option ℤ → ReceiverTime
unfolding advance associated_uptime
set_navigation r none = record r { navigation = none; anchor_uptime = none }
set_navigation r (some t) =
    let r' = advance (record r { navigation = some t }) t in
    record r' { anchor_uptime = associated_uptime r' }

-- `a && t >= *a && t - *a <= limit`.
abbrev pub follows : Option ℤ → ℤ → ℤ → Bool
follows none t limit = false
follows (some a) t limit = not (ltb_ℤ t a) && not (ltb_ℤ limit (t -ℤ a))

abbrev pub progress_follows : Option ℤ → Option ℤ → ℤ → Bool
progress_follows none n limit = false
progress_follows (some p) n limit = follows n p limit

-- `fresh_pair`: the report's time, if the two belong together.
unfoldable pub fresh_pair : ReceiverTime → ℤ → Option ℤ → Bool → Option ℤ
fresh_pair r t none direct = none
fresh_pair r t (some g) direct =
    if direct
      || (progress_follows r.progress r.navigation r.period && follows r.anchor_uptime t r.period)
    then some g
    else none

abbrev pub is_below : ℤ → Option ℤ → Bool
is_below t none = false
is_below t (some u) = ltb_ℤ t u

unfoldable pub jumps : Option ℤ → ℤ → ℤ → Bool
jumps none offset limit = false
jumps (some o) offset limit = ltb_ℤ limit (offset -ℤ o) || ltb_ℤ limit (o -ℤ offset)

-- The reason, and the offset kept when there is no restart.
unfoldable pub reason : ReceiverTime → ℤ → Option ℤ → Restart
unfolding jumps
reason r t none = if is_below t r.uptime then uptime_decrease else no_restart
reason r t (some g) =
    if is_below t r.uptime
    then uptime_decrease
    else if jumps r.paired_offset (g -ℤ t) r.restart_threshold
    then offset_jump
    else no_restart

abbrev pub offset_after : ReceiverTime → ℤ → Option ℤ → Option ℤ
offset_after r t none = r.paired_offset
offset_after r t (some g) = some (g -ℤ t)

abbrev pub anchor_after : ReceiverTime → ℤ → Option ℤ → Option ℤ
anchor_after r t none = r.anchor_uptime
anchor_after r t (some g) = elim r.anchor_uptime [
  | none ↦ if follows r.navigation g r.period then some t else none
  | some a ↦ some a
]

abbrev pub after_report : ReceiverTime → ℤ → Option ℤ → Restart → ReceiverTime
after_report r t fresh no_restart = record r {
  uptime = some t;
  uptime_gpst = r.progress;
  paired_offset = offset_after r t fresh;
  anchor_uptime = anchor_after r t fresh;
}
after_report r t fresh _ = record r {
  uptime = some t;
  uptime_gpst = r.progress;
  paired_offset = none;
  navigation = none;
  anchor_uptime = none;
}

unfoldable pub report_uptime : ReceiverTime → ℤ → Option ℤ → Bool → ReceiverTime × Restart
unfolding fresh_pair reason
report_uptime r t report_gpst direct_time =
    let fresh = fresh_pair r t report_gpst direct_time in
    let why = reason r t fresh in (after_report r t fresh why, why)
