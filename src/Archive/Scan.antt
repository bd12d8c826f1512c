-- ===== src/Archive/Scan.antt =====
-- scan_archive of libneognss-obs/src/ubx_archive.cpp. The bytes from `pos` on are `p`; the loop
-- takes as much fuel as there are bytes, since each turn moves `pos` forward.
use neo_gnss_observatory.Base.{
  ℕ, zero, suc, ◌+◌, ◌-◌, ◌*◌, ◌%◌, ◌&&◌, List, [], ◌∷◌, ◌++◌, Option, none, some, true, false, ltb,
  leb, ◌==◌, if◌then◌else◌, length, slice, drop, take,
}
use neo_gnss_observatory.Frame.{FrameView, ubx_header}
use neo_gnss_observatory.Framing.{fletcher}
use neo_gnss_observatory.Crc.{sbf_crc}
use neo_gnss_observatory.Archive.Epoch.{
  ArchiveEpoch, Event, emitted, no_epoch, EpochAssembler, assembler, Float64, at, le16,
  archive_partial, archive_noise, archive_foreign_protocol,
}
use neo_gnss_observatory.Archive.Assembler.{finish, accept}

-- The size of an intact SBF frame at the front, else 0.
unfoldable pub sbf_size : List ℕ → ℕ
sbf_size p =
    let size = le16 p 6 in
    if leb 8 (length p)
      && at p 0 == 0x24
      && at p 1 == 0x40
      && leb 8 size
      && size % 4 == 0
      && leb size (length p)
      && sbf_crc (slice 4 (size - 4) p) == le16 p 2
    then size
    else 0

-- The length of an intact UBX frame at the front, else 0.
unfoldable pub ubx_length : List ℕ → ℕ
ubx_length p =
    let len = le16 p 4 + 8 in
    let sums = fletcher 0 0 (slice 2 (len - 4) p) in
    if leb 8 (length p)
      && at p 0 == 0xb5
      && at p 1 == 0x62
      && leb len (length p)
      && sums.0 == at p (len - 2)
      && sums.1 == at p (len - 1)
    then len
    else 0

-- The epochs `lost` and `foreign`.
abbrev pub marked : ℕ → ℕ → ℕ → ArchiveEpoch
marked first' last' flags' = record no_epoch { first = first'; last = last'; flags = flags' }

unfoldable pub lost : ℕ → ℕ → List Event
lost noise here = if ltb noise here then emitted (marked noise here archive_noise) ∷ [] else []

abbrev pub ubx_frame : ℕ → ℕ → List ℕ → FrameView
ubx_frame here len p = record {
  header = ubx_header (at p 2 * 256 + at p 3);
  offset = here;
  wire = take len p;
  payload = slice 6 (len - 8) p;
}

-- The variables of the loop, and the epochs that one turn emits.
pub record Turn : Type 0 where
  pub events : List Event
  pub state : EpochAssembler
  pub here : ℕ
  pub noise : ℕ
  pub rest : List ℕ

abbrev pub accepted : List Event → ℕ → List ℕ → Option (EpochAssembler × List Event) → Option Turn
accepted es here' rest' none = none
accepted es here' rest' (some r) =
    some (record { events = es ++ r.1; state = r.0; here = here'; noise = here'; rest = rest' })

-- One turn of the loop, at the byte `b` before `bs`.
unfoldable pub turn : Float64 → EpochAssembler → ℕ → ℕ → ℕ → List ℕ → Option Turn
unfolding finish sbf_size ubx_length lost accept
turn fl s pos noise b bs =
    let p = b ∷ bs in
    let size = sbf_size p in
    let len = ubx_length p in
    let f = finish s archive_partial in
    let foreign = marked pos (pos + size) (archive_noise + archive_foreign_protocol) in
    if ltb 0 size
    then some (record {
      events = f.1 ++ (lost noise pos ++ emitted foreign ∷ []);
      state = f.0;
      here = pos + size;
      noise = pos + size;
      rest = drop size p;
    })
    else if ltb 0 len
    then accepted (lost noise pos) (pos + len) (drop len p)
        (accept fl false (ubx_frame pos len p) s)
    else some (record { events = f.1; state = f.0; here = suc pos; noise = noise; rest = bs })

abbrev pub before : List Event → Option (List Event) → Option (List Event)
before es none = none
before es (some rest) = some (es ++ rest)

unfoldable pub scan_from :
    Float64 → ℕ → EpochAssembler → (pos noise : ℕ) → List ℕ → Option (List Event)
unfolding finish lost turn
scan_from fl fuel s pos noise [] = some ((finish s archive_partial).1 ++ lost noise pos)
scan_from fl zero s pos noise (b ∷ bs) = none
scan_from fl (suc fuel) s pos noise (b ∷ bs) = elim (turn fl s pos noise b bs) [
  | none ↦ none
  | some t ↦ before t.events (scan_from fl fuel t.state t.here t.noise t.rest)
]

unfoldable pub scan_archive : Float64 → List ℕ → Option (List Event)
unfolding scan_from
scan_archive fl bytes = scan_from fl (length bytes) (assembler true) 0 0 bytes
