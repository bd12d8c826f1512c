-- ===== src/Archive/Epoch.antt =====
-- ArchiveEpoch, the flags, the state of EpochAssembler and the times of week of
-- libneognss-obs/src/ubx_archive.cpp and libneognss-obs/include/neognss_obs/ubx_archive.hpp.
use Prim.Native.Nat.{bit_or, bit_xor}
use neo_gnss_observatory.Base.{
  ℕ, ◌+◌, ◌*◌, ◌%◌, ◌^◌, Bool, false, ◌&&◌, ◌||◌, List, [], ◌∷◌, ltb, leb, ◌==◌, not, if◌then◌else◌,
  length, get_or, take,
}
use neo_gnss_observatory.Base.Int.{ℤ, pos, negsuc, ◌+ℤ◌, ◌-ℤ◌, ◌*ℤ◌, ltb_ℤ, ◌==ℤ◌, abs, rem}

-- std::numeric_limits<int64_t>::min().
abbrev pub unknown_gpst : ℤ
unknown_gpst = negsuc 9223372036854775807

abbrev pub week_ms : ℕ
week_ms = 604800000

abbrev pub archive_eoe : ℕ
archive_eoe = 1

abbrev pub archive_pvt : ℕ
archive_pvt = 2

abbrev pub archive_inferred_time : ℕ
archive_inferred_time = 4

abbrev pub archive_no_nav : ℕ
archive_no_nav = 8

abbrev pub archive_partial : ℕ
archive_partial = 16

abbrev pub archive_noise : ℕ
archive_noise = 32

abbrev pub archive_time_conflict : ℕ
archive_time_conflict = 64

abbrev pub archive_rawx : ℕ
archive_rawx = 128

abbrev pub archive_foreign_protocol : ℕ
archive_foreign_protocol = 256

-- The field `begin` of the source's ArchiveEpoch is `first` here, `end` is `last`.
pub record ArchiveEpoch : Type 0 where
  pub first : ℕ
  pub last : ℕ
  pub gpst_ms : ℤ
  pub tow_ms : ℤ
  pub fingerprint : ℕ
  pub flags : ℕ
  pub frames : ℕ
  pub nav_frames : ℕ
  pub gps_week : ℤ

abbrev pub no_epoch : ArchiveEpoch
no_epoch = record {
  first = 0;
  last = 0;
  gpst_ms = unknown_gpst;
  tow_ms = negsuc 0;
  fingerprint = 0;
  flags = 0;
  frames = 0;
  nav_frames = 0;
  gps_week = negsuc 0;
}

pub record EpochAssembler : Type 0 where
  pub epoch : ArchiveEpoch
  pub active : Bool
  pub with_fingerprint : Bool
  pub anchor_tow : ℤ
  pub anchor_gpst : ℤ
  pub rawx_gpst : ℤ

abbrev pub assembler : Bool → EpochAssembler
assembler f = record {
  epoch = no_epoch;
  active = false;
  with_fingerprint = f;
  anchor_tow = negsuc 0;
  anchor_gpst = unknown_gpst;
  rawx_gpst = unknown_gpst;
}

-- What is called from `accept`: `emit` with an epoch, or `on_frame`.
pub data Event : Type 0 where
  emitted : ArchiveEpoch → Event
  on_frame : Event

abbrev pub known : ℤ → Bool
known t = not (t ==ℤ unknown_gpst)

abbrev pub at : List ℕ → ℕ → ℕ
at p i = get_or p i 0

abbrev pub le16 : List ℕ → ℕ → ℕ
le16 p i = at p i + 256 * at p (i + 1)

abbrev pub le32 : List ℕ → ℕ → ℕ
le32 p i = le16 p i + 2 ^ 16 * le16 p (i + 2)

-- The low sixteen bits as an int16_t.
abbrev pub signed16 : ℕ → ℤ
signed16 n = if ltb n 0x8000 then pos n else pos n -ℤ pos 0x10000

-- A difference of times of week, brought back into half a week on each side.
unfoldable pub wrapped : ℤ → ℤ
wrapped delta =
    let up = if ltb_ℤ delta (negsuc 302399999) then delta +ℤ pos week_ms else delta in
    if ltb_ℤ (pos 302400000) up then up -ℤ pos week_ms else up

unfoldable pub mapped : EpochAssembler → ℤ → ℤ
unfolding wrapped
mapped s tow =
    let delta = wrapped (tow -ℤ s.anchor_tow) in
    if ltb_ℤ tow (pos 0) || not (known s.anchor_gpst)
    then unknown_gpst
    else if ltb_ℤ (pos 60000) (abs delta)
    then unknown_gpst
    else s.anchor_gpst +ℤ delta

begins_with_tow : ℕ → Bool
begins_with_tow i =
    i == 0x01
    || i == 0x02
    || i == 0x03
    || i == 0x04
    || i == 0x07
    || i == 0x11
    || i == 0x12
    || i == 0x20
    || i == 0x21
    || i == 0x22
    || i == 0x32
    || i == 0x35
    || i == 0x39
    || i == 0x43
    || i == 0x61

unfoldable pub nav_tow : ℕ → List ℕ → ℤ
unfolding begins_with_tow
nav_tow i p =
    if begins_with_tow i
    then (if leb 4 (length p) then pos (le32 p 0) else negsuc 0)
    else if i == 0x13 || i == 0x14
    then (if leb 8 (length p) then pos (le32 p 4) else negsuc 0)
    else negsuc 0

-- The parts of `double` that `accept` reads a time with: std::bit_cast of eight bytes, the tests
-- of <cmath> and of the operators, and std::llround of a thousandfold.
pub record Float64 : Type 1 where
  pub Double : Type 0
  pub read : List ℕ → Double
  pub is_finite : Double → Bool
  pub is_negative : Double → Bool
  pub below : Double → ℕ → Bool
  pub round_thousandfold : Double → ℤ

-- `timed_rawx` and `measurement`.
unfoldable pub measurement : Float64 → ℕ → ℕ → List ℕ → ℤ
measurement fl cls i p =
    let timed =
      cls == 2
      && i == 0x15
      && leb 16 (length p)
      && ltb 0 (at p 11)
      && at p 13 == 1
      && length p == 16 + at p 11 * 32 in
    let t = fl.read (take 8 p) in
    if timed && fl.is_finite t && not (fl.is_negative t) && fl.below t 604800
    then pos (le16 p 8 * week_ms) +ℤ fl.round_thousandfold t
    else unknown_gpst

-- `gpst` of NAV-TIMEGPS.
unfoldable pub nav_gpst : ℕ → ℕ → List ℕ → ℤ → ℤ → ℤ
nav_gpst cls i p raw_nav_tow tow =
    let week = signed16 (le16 p 8) in
    if cls == 1
      && i == 0x20
      && length p == 16
      && at p 11 % 4 == 3
      && not (ltb_ℤ tow (pos 0))
      && not (ltb_ℤ week (pos 0))
    then week *ℤ pos week_ms +ℤ raw_nav_tow
    else unknown_gpst

-- FNV-1a on a uint64_t.
unfoldable pub fingerprint_of : ℕ → List ℕ → ℕ
fingerprint_of h [] = h
fingerprint_of h (b ∷ bs) = fingerprint_of (bit_xor h b * 1099511628211 % 2 ^ 64) bs

-- The test for the end of the epoch before the frame.
unfoldable pub is_transition : EpochAssembler → ℤ → ℤ → Bool
unfolding wrapped rem abs
is_transition s tow time =
    let delta =
      if not (known time) || ltb_ℤ s.epoch.tow_ms (pos 0)
      then pos 0
      else rem time week_ms -ℤ s.epoch.tow_ms in
    let by_nav =
      not (ltb_ℤ s.epoch.tow_ms (pos 0))
      && not (ltb_ℤ tow (pos 0))
      && not (s.epoch.tow_ms ==ℤ tow) in
    let by_rawx = known time && (known s.rawx_gpst || ltb_ℤ (pos 500) (abs (wrapped delta))) in
    s.active && (by_nav || by_rawx)

-- The times of the frame are put into the epoch.
unfoldable pub with_times : ℤ → ℤ → ArchiveEpoch → ArchiveEpoch
with_times tow gpst e =
    let timed = if ltb_ℤ tow (pos 0) then e else record e { tow_ms = tow } in
    let conflict = known e.gpst_ms && not (e.gpst_ms ==ℤ gpst) in
    if known gpst && not (ltb_ℤ tow (pos 0))
    then record timed {
      gpst_ms = gpst;
      flags = if conflict then bit_or e.flags archive_time_conflict else e.flags;
    }
    else timed

unfoldable pub hashed : Bool → List ℕ → ArchiveEpoch → ArchiveEpoch
unfolding fingerprint_of
hashed wanted wire e =
    let h = if e.frames == 1 then 14695981039346656037 else e.fingerprint in
    if wanted then record e { fingerprint = fingerprint_of h wire } else e
