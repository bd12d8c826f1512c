-- ===== src/Segments/RoundTrip.antt =====
-- What archive_index of libneognss-obs/src/processing.cpp writes is what SegmentPlanner::feed of
-- libneognss-obs/src/reconstruction.cpp reads.
use mathlib.Core.Path.{subst}
use neo_gnss_observatory.Base.{
  ℕ, zero, suc, ◌+◌, ◌-◌, ◌*◌, ◌/◌, ◌^◌, ◌<◌, ◌≡◌, refl, sym, ◌∙◌, ap, ap₂, true, List, [], ◌∷◌,
  ◌++◌, Option, none, some, arith, ◌==◌, length, take, drop, drop-append_length, length-append, All,
  Bool-cases, inl, inr,
}
use neo_gnss_observatory.Base.Int.{ℤ, pos, negsuc, ◌-ℤ◌}
use neo_gnss_observatory.Archive.Epoch.{ArchiveEpoch, Event, Float64}
use neo_gnss_observatory.Archive.Scan.{scan_archive}
use neo_gnss_observatory.Wire.Text.{equals}
use neo_gnss_observatory.Wire.Cursor.{signed64}
use neo_gnss_observatory.Segments.Index.{
  head_of, epochs_of, magic, le_bytes, wrapped_bits, epoch_bytes, epochs_bytes, archive_index,
  le_value, signed32, epoch_at, epochs_at, is_index, index_epochs,
}
use neo_gnss_observatory.Segments.Plan.{Planner}
use neo_gnss_observatory.Segments.Feed.{Source, feed, feed_epochs}

le_value-le_bytes : (n v : ℕ) (rest : List ℕ) → v < 256 ^ n → le_value n (le_bytes n v ++ rest) ≡ v
unfolding le_value le_bytes
le_value-le_bytes zero v rest h = omega arith
le_value-le_bytes (suc n) v rest h =
    omega (arith, le_value-le_bytes n (v / 256) rest (omega (arith, h)))

-- An integer of `width` bits.
abbrev pub FitsSigned : ℕ → ℤ → Type 0
FitsSigned width (pos n) = n < 2 ^ (width - 1)
FitsSigned width (negsuc n) = n < 2 ^ (width - 1)

-- The fields are in the ranges of their types.
abbrev pub Fits : ArchiveEpoch → Type 0
Fits e =
    (e.first < 2 ^ 64)
    × (e.last < 2 ^ 64)
    × FitsSigned 64 e.gpst_ms
    × FitsSigned 64 e.tow_ms
    × (e.fingerprint < 2 ^ 64)
    × (e.flags < 2 ^ 32)
    × (e.frames < 2 ^ 32)
    × (e.nav_frames < 2 ^ 32)
    × FitsSigned 32 e.gps_week

signed64-bits : (z : ℤ) → FitsSigned 64 z → signed64 (wrapped_bits 64 z) ≡ z
unfolding ◌-ℤ◌
signed64-bits (pos n) h = ground arith
signed64-bits (negsuc n) h = ground arith

signed32-bits : (z : ℤ) → FitsSigned 32 z → signed32 (wrapped_bits 32 z) ≡ z
unfolding ◌-ℤ◌
signed32-bits (pos n) h = ground arith
signed32-bits (negsuc n) h = ground arith

bits-lt : (z : ℤ) → FitsSigned 64 z → wrapped_bits 64 z < 256 ^ 8
bits-lt (pos n) h = omega (arith, h)
bits-lt (negsuc n) h = omega arith

bits_lt32 : (z : ℤ) → FitsSigned 32 z → wrapped_bits 32 z < 256 ^ 4
bits_lt32 (pos n) h = omega (arith, h)
bits_lt32 (negsuc n) h = omega arith

some_injective : {A : Type 0} (a b : A) → some a ≡ some b → a ≡ b
some_injective a b e = ap (λ o. elim o [ none ↦ a | some x ↦ x ]) e

eight : (v : ℕ) → v < 2 ^ 64 → le_value 8 (le_bytes 8 v ++ []) ≡ v
eight v h = le_value-le_bytes 8 v [] (omega (arith, h))

four : (v : ℕ) → v < 2 ^ 32 → le_value 4 (le_bytes 4 v ++ []) ≡ v
four v h = le_value-le_bytes 4 v [] (omega (arith, h))

-- The bytes of a record are read one field after the other.
epoch_at-fields :
    (e : ArchiveEpoch) (rest : List ℕ)
    → epoch_at (epoch_bytes e ++ rest) ≡ record {
      first = le_value 8 (le_bytes 8 e.first ++ []);
      last = le_value 8 (le_bytes 8 e.last ++ []);
      gpst_ms = signed64 (le_value 8 (le_bytes 8 (wrapped_bits 64 e.gpst_ms) ++ []));
      tow_ms = signed64 (le_value 8 (le_bytes 8 (wrapped_bits 64 e.tow_ms) ++ []));
      fingerprint = le_value 8 (le_bytes 8 e.fingerprint ++ []);
      flags = le_value 4 (le_bytes 4 e.flags ++ []);
      frames = le_value 4 (le_bytes 4 e.frames ++ []);
      nav_frames = le_value 4 (le_bytes 4 e.nav_frames ++ []);
      gps_week = signed32 (le_value 4 (le_bytes 4 (wrapped_bits 32 e.gps_week) ++ []));
    }
unfolding epoch_at epoch_bytes le_value le_bytes
epoch_at-fields e rest = refl

long_field :
    (z : ℤ) → FitsSigned 64 z → signed64 (le_value 8 (le_bytes 8 (wrapped_bits 64 z) ++ [])) ≡ z
long_field z h =
    ap signed64 (le_value-le_bytes 8 (wrapped_bits 64 z) [] (bits-lt z h)) ∙ signed64-bits z h

int_field :
    (z : ℤ) → FitsSigned 32 z → signed32 (le_value 4 (le_bytes 4 (wrapped_bits 32 z) ++ [])) ≡ z
int_field z h =
    ap signed32 (le_value-le_bytes 4 (wrapped_bits 32 z) [] (bits_lt32 z h)) ∙ signed32-bits z h

epoch_at-epoch_bytes :
    (e : ArchiveEpoch) (rest : List ℕ) → Fits e → epoch_at (epoch_bytes e ++ rest) ≡ e
epoch_at-epoch_bytes e rest h =
    epoch_at-fields e rest
    ∙ rw
        (
          eight e.first h.0,
          eight e.last h.1,
          long_field e.gpst_ms h.2,
          long_field e.tow_ms h.3,
          eight e.fingerprint h.4,
          four e.flags h.5,
          four e.frames h.6,
          four e.nav_frames h.7,
          int_field e.gps_week h.8,
        )
        refl

drop-epoch_bytes : (e : ArchiveEpoch) (rest : List ℕ) → drop 56 (epoch_bytes e ++ rest) ≡ rest
unfolding epoch_bytes le_bytes
drop-epoch_bytes e rest = refl

length-epoch_bytes :
    (e : ArchiveEpoch) (rest : List ℕ) → length (epoch_bytes e ++ rest) ≡ 56 + length rest
unfolding epoch_bytes le_bytes
length-epoch_bytes e rest = omega arith

length-epochs_bytes : (es : List ArchiveEpoch) → length (epochs_bytes es) ≡ 56 * length es
unfolding epochs_bytes
length-epochs_bytes [] = omega arith
length-epochs_bytes (e ∷ es) =
    omega (arith, length-epoch_bytes e (epochs_bytes es), length-epochs_bytes es)

epochs_at-epochs_bytes :
    (es : List ArchiveEpoch) → All Fits es → epochs_at (length es) (epochs_bytes es) ≡ es
unfolding epochs_at epochs_bytes
epochs_at-epochs_bytes [] h = refl
epochs_at-epochs_bytes (e ∷ es) h =
    ap₂ (λ x xs. x ∷ xs) (epoch_at-epoch_bytes e (epochs_bytes es) h.0)
      (ap (epochs_at (length es)) (drop-epoch_bytes e (epochs_bytes es))
        ∙ epochs_at-epochs_bytes es h.1)

length-head_of :
    (digest : List ℕ) (size : ℕ) → length digest ≡ 32 → length (head_of digest size) ≡ 48
unfolding head_of le_bytes
length-head_of digest size h = omega (arith, h, length-append digest (le_bytes 8 size))

equals_self : (xs : List ℕ) → equals xs xs ≡ true
unfolding equals
equals_self [] = refl
equals_self (x ∷ xs) = ground (arith, equals_self xs)

accepted_index :
    (xs : List ℕ) (n : ℕ)
    → length xs ≡ 48 + 56 * n
    → equals (take 8 xs) magic ≡ true
    → is_index xs ≡ true
unfolding is_index
accepted_index xs n l e = ground (arith, l, e)

records_of_index :
    (xs : List ℕ) (n : ℕ) → length xs ≡ 48 + 56 * n → index_epochs xs ≡ epochs_at n (drop 48 xs)
unfolding index_epochs
records_of_index xs n l =
    let k : (length xs - 48) / 56 ≡ n = omega (arith, l) in ap (λ m. epochs_at m (drop 48 xs)) k

drop-head_of :
    (digest : List ℕ) (size : ℕ) (rest : List ℕ)
    → length digest ≡ 32
    → drop 48 (head_of digest size ++ rest) ≡ rest
drop-head_of digest size rest d =
    ap (λ k. drop k (head_of digest size ++ rest)) (sym (length-head_of digest size d))
    ∙ drop-append_length (head_of digest size) rest

headed-index :
    (digest : List ℕ) (size : ℕ) (es : List ArchiveEpoch)
    → length digest ≡ 32
    → All Fits es
    → (is_index (head_of digest size ++ epochs_bytes es) ≡ true)
      × (index_epochs (head_of digest size ++ epochs_bytes es) ≡ es)
unfolding head_of
headed-index digest size es d h =
    let l : length (head_of digest size ++ epochs_bytes es) ≡ 48 + 56 * length es = omega (
      arith,
      length-append (head_of digest size) (epochs_bytes es),
      length-head_of digest size d,
      length-epochs_bytes es,
    ) in
    (
      accepted_index (head_of digest size ++ epochs_bytes es) (length es) l (equals_self magic),
      records_of_index (head_of digest size ++ epochs_bytes es) (length es) l
          ∙ (ap (epochs_at (length es)) (drop-head_of digest size (epochs_bytes es) d)
              ∙ epochs_at-epochs_bytes es h),
    )

-- An index that reads as the epochs of the scan.
abbrev IsReadBack : Float64 → List ℕ → Option (List ℕ) → Type 0
IsReadBack fl bytes none = Unit
IsReadBack fl bytes (some index) =
    (events : List Event)
    → scan_archive fl bytes ≡ some events
    → All Fits (epochs_of events)
    → (is_index index ≡ true) × (index_epochs index ≡ epochs_of events)

archive_index-IsReadBack :
    (fl : Float64) (digest : Option (List ℕ)) (bytes : List ℕ)
    → IsReadBack fl bytes (archive_index fl digest bytes)
unfolding archive_index
archive_index-IsReadBack fl none bytes = tt
archive_index-IsReadBack fl (some digest) bytes = elim (Bool-cases (length digest == 32)) [
  | inr n ↦ rw n tt
  | inl y ↦ rw y (scanned (ground (arith, y)) (scan_archive fl bytes) refl)
]
  where
    scanned :
        length digest ≡ 32
        → (o : Option (List Event)) → scan_archive fl bytes ≡ o
        → IsReadBack fl bytes (elim o [
          | none ↦ none
          | some events ↦ some (head_of digest (length bytes) ++ epochs_bytes (epochs_of events))
        ])
    scanned d none e = tt
    scanned d (some es) e = λ events f h.
        let k : es ≡ events = some_injective es events (sym e ∙ f) in
        rw k (headed-index digest (length bytes) (epochs_of events) d h)

-- The index that archive_index writes for an archive is read back by `feed`: with it, the planner
-- takes the steps of the epochs that scan_archive emits, in their order, where the fields of these
-- are in the ranges of their types.
pub feed-archive_index :
    (fl : Float64) (digest : Option (List ℕ)) (bytes index : List ℕ) (events : List Event)
    (source : Source) (s : Planner)
    → archive_index fl digest bytes ≡ some index
    → scan_archive fl bytes ≡ some events
    → All Fits (epochs_of events)
    → feed source index s ≡ feed_epochs source (epochs_of events) s
unfolding feed
feed-archive_index fl digest bytes index events source s e f h =
    let k = subst (IsReadBack fl bytes) e (archive_index-IsReadBack fl digest bytes) events f h in
    rw (k.0, k.1) refl
