-- ===== src/Archive/Assembler.antt =====
-- EpochAssembler::finish and EpochAssembler::accept of libneognss-obs/src/ubx_archive.cpp.
use Prim.Native.Nat.{bit_or}
use neo_gnss_observatory.Base.{
  ℕ, ◌+◌, ◌/◌, ◌%◌, ◌^◌, Bool, true, false, ◌&&◌, ◌||◌, List, [], ◌∷◌, ◌++◌, Option, none, some,
  ◌==◌, not, if◌then◌else◌, length,
}
use neo_gnss_observatory.Base.Int.{ℤ, pos, negsuc, ◌+ℤ◌, ◌-ℤ◌, ltb_ℤ, abs, quot, rem}
use neo_gnss_observatory.Frame.{FrameView, id}
use neo_gnss_observatory.Archive.Epoch.{
  emitted, on_frame, unknown_gpst, week_ms, archive_eoe, archive_pvt, archive_inferred_time,
  archive_no_nav, archive_partial, archive_time_conflict, archive_rawx, ArchiveEpoch, no_epoch,
  EpochAssembler, Event, known, wrapped, mapped, nav_tow, Float64, measurement, nav_gpst,
  is_transition, with_times, hashed,
}

-- EpochAssembler::finish up to the anchors: the time of the epoch from RAWX, then from the anchor.
unfoldable pub from_rawx : EpochAssembler → ArchiveEpoch → ArchiveEpoch
unfolding wrapped rem
from_rawx s e =
    let day = rem s.rawx_gpst week_ms in
    if known e.gpst_ms || not (known s.rawx_gpst)
    then e
    else if ltb_ℤ e.tow_ms (pos 0)
    then record e { gpst_ms = s.rawx_gpst; tow_ms = day }
    else record e { gpst_ms = s.rawx_gpst +ℤ wrapped (e.tow_ms -ℤ day) }

unfoldable pub inferred : EpochAssembler → ArchiveEpoch → ArchiveEpoch
unfolding mapped
inferred s e =
    let t = mapped s e.tow_ms in
    if known e.gpst_ms || ltb_ℤ e.tow_ms (pos 0)
    then e
    else if known t
    then record e { gpst_ms = t; flags = bit_or e.flags archive_inferred_time }
    else record e { gpst_ms = t }

unfoldable pub dated : EpochAssembler → ArchiveEpoch → ArchiveEpoch
unfolding abs quot
dated s e =
    let conflict = known s.rawx_gpst && ltb_ℤ (pos 500) (abs (e.gpst_ms -ℤ s.rawx_gpst)) in
    if known e.gpst_ms
    then record e {
      flags = if conflict then bit_or e.flags archive_time_conflict else e.flags;
      gps_week = quot e.gpst_ms week_ms;
    }
    else e

unfoldable pub closed : ℕ → ArchiveEpoch → ArchiveEpoch
closed extra e =
    let flags' = bit_or e.flags extra in
    record e { flags = if e.nav_frames == 0 then bit_or flags' archive_no_nav else flags' }

abbrev pub finished_epoch : EpochAssembler → ℕ → ArchiveEpoch
finished_epoch s extra = closed extra (dated s (inferred s (from_rawx s s.epoch)))

unfoldable pub finish : EpochAssembler → ℕ → EpochAssembler × List Event
finish s extra =
    let e = finished_epoch s extra in
    if s.active
    then (
      record s {
        epoch = no_epoch;
        active = false;
        anchor_tow = if known e.gpst_ms then e.tow_ms else s.anchor_tow;
        anchor_gpst = if known e.gpst_ms then e.gpst_ms else s.anchor_gpst;
        rawx_gpst = unknown_gpst;
      },
      emitted e ∷ [],
    )
    else (s, [])

-- The epoch with the frame in it, flags and counts.
unfoldable pub counted : ℕ → ℕ → FrameView → Bool → ArchiveEpoch → ArchiveEpoch
counted cls i f was_active e =
    let rawx = if cls == 2 && i == 0x15 then bit_or e.flags archive_rawx else e.flags in
    let pvt =
      if cls == 1 && i == 7 && length f.payload == 92 then bit_or rawx archive_pvt else rawx in
    record e {
      first = if was_active then e.first else f.offset;
      last = (f.offset + length f.wire) % 2 ^ 64;
      flags = pvt;
      frames = (e.frames + 1) % 2 ^ 32;
      nav_frames = if cls == 1 then (e.nav_frames + 1) % 2 ^ 32 else e.nav_frames;
    }

-- The part of `accept` after the test for a transition and up to on_frame.
unfoldable pub added : Float64 → FrameView → ℕ → ℤ → ℤ → EpochAssembler → EpochAssembler
unfolding measurement nav_gpst hashed with_times counted
added fl f n raw_nav_tow tow s =
    let cls = n / 256 % 256 in
    let i = n % 256 in
    let time = measurement fl cls i f.payload in
    let gpst = nav_gpst cls i f.payload raw_nav_tow tow in
    record s {
      epoch =
          hashed s.with_fingerprint f.wire (with_times tow gpst (counted cls i f s.active s.epoch));
      active = true;
      rawx_gpst = if known time then time else s.rawx_gpst;
    }

-- `finish` under a condition, with the events.
unfoldable pub finish_if : Bool → ℕ → EpochAssembler → EpochAssembler × List Event
finish_if c extra s = if c then finish s extra else (s, [])

unfoldable pub accept_numbered :
    Float64 → Bool → FrameView → ℕ → EpochAssembler → EpochAssembler × List Event
accept_numbered fl calls_back f n s =
    let cls = n / 256 % 256 in
    let i = n % 256 in
    let raw_nav_tow = if cls == 1 then nav_tow i f.payload else negsuc 0 in
    let tow =
      if not (ltb_ℤ raw_nav_tow (pos 0)) && not (ltb_ℤ (pos week_ms) raw_nav_tow)
      then rem raw_nav_tow week_ms
      else negsuc 0 in
    let time = measurement fl cls i f.payload in
    let q = finish_if (is_transition s tow time) archive_partial s in
    let is_eoe = cls == 1 && i == 0x61 && length f.payload == 4 in
    let r = finish_if is_eoe archive_eoe (added fl f n raw_nav_tow tow q.0) in
    (r.0, q.1 ++ ((if calls_back then on_frame ∷ [] else []) ++ r.1))

-- EpochAssembler::accept; `none` is the exception of FrameView::id.
unfoldable pub accept :
    Float64 → Bool → FrameView → EpochAssembler → Option (EpochAssembler × List Event)
unfolding accept_numbered
accept fl calls_back f s = elim (id f) [
  | none ↦ none
  | some n ↦ some (accept_numbered fl calls_back f n s)
]
