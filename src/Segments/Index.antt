-- ===== src/Segments/Index.antt =====
-- The index of an archive: archive_index of libneognss-obs/src/processing.cpp, which writes it, and
-- what SegmentPlanner::feed of libneognss-obs/src/reconstruction.cpp reads of it.
use neo_gnss_observatory.Base.{
  ℕ, zero, suc, ◌+◌, ◌-◌, ◌*◌, ◌/◌, ◌%◌, ◌^◌, Bool, ◌&&◌, List, [], ◌∷◌, ◌++◌, Option, none, some,
  leb, ltb, ◌==◌, if◌then◌else◌, length, take, drop,
}
use neo_gnss_observatory.Base.Int.{ℤ, pos, negsuc, ◌-ℤ◌}
use neo_gnss_observatory.Archive.Epoch.{ArchiveEpoch, Event, emitted, on_frame, Float64}
use neo_gnss_observatory.Archive.Scan.{scan_archive}
use neo_gnss_observatory.Wire.Text.{equals}
use neo_gnss_observatory.Wire.Cursor.{signed64}

-- "UBXIDX04".
abbrev pub magic : List ℕ
magic = 85 ∷ 66 ∷ 88 ∷ 73 ∷ 68 ∷ 88 ∷ 48 ∷ 52 ∷ []

-- The `n` bytes of an integer, the lowest first.
unfoldable pub le_bytes : ℕ → ℕ → List ℕ
le_bytes zero v = []
le_bytes (suc n) v = v % 256 ∷ le_bytes n (v / 256)

-- The bits of an integer as an unsigned one of the width.
abbrev pub wrapped_bits : ℕ → ℤ → ℕ
wrapped_bits width (pos n) = n
wrapped_bits width (negsuc n) = 2 ^ width - suc n

unfoldable pub epoch_bytes : ArchiveEpoch → List ℕ
unfolding le_bytes
epoch_bytes e =
    le_bytes 8 e.first
    ++ (le_bytes 8 e.last
        ++ (le_bytes 8 (wrapped_bits 64 e.gpst_ms)
            ++ (le_bytes 8 (wrapped_bits 64 e.tow_ms)
                ++ (le_bytes 8 e.fingerprint
                    ++ (le_bytes 4 e.flags
                        ++ (le_bytes 4 e.frames
                            ++ (le_bytes 4 e.nav_frames
                                ++ le_bytes 4 (wrapped_bits 32 e.gps_week))))))))

unfoldable pub epochs_bytes : List ArchiveEpoch → List ℕ
unfolding epoch_bytes
epochs_bytes [] = []
epochs_bytes (e ∷ es) = epoch_bytes e ++ epochs_bytes es

abbrev pub epochs_of : List Event → List ArchiveEpoch
epochs_of [] = []
epochs_of (emitted e ∷ rest) = e ∷ epochs_of rest
epochs_of (on_frame ∷ rest) = epochs_of rest

-- The 48 bytes before the epochs.
unfoldable pub head_of : List ℕ → ℕ → List ℕ
unfolding le_bytes
head_of digest size = magic ++ (digest ++ le_bytes 8 size)

-- `digest` is what EVP_Digest of OpenSSL gives.
unfoldable pub archive_index : Float64 → Option (List ℕ) → List ℕ → Option (List ℕ)
unfolding epochs_bytes head_of
archive_index fl none bytes = none
archive_index fl (some digest) bytes =
    if length digest == 32
    then elim (scan_archive fl bytes) [
      | none ↦ none
      | some events ↦ some (head_of digest (length bytes) ++ epochs_bytes (epochs_of events))
    ]
    else none

-- UBX::read_le at the front of bytes that are enough.
unfoldable pub le_value : ℕ → List ℕ → ℕ
le_value zero p = 0
le_value (suc n) [] = 0
le_value (suc n) (b ∷ p) = b + 256 * le_value n p

abbrev pub signed32 : ℕ → ℤ
signed32 v = if ltb v (2 ^ 31) then pos v else pos v -ℤ pos (2 ^ 32)

unfoldable pub epoch_at : List ℕ → ArchiveEpoch
unfolding le_value
epoch_at p = record {
  first = le_value 8 p;
  last = le_value 8 (drop 8 p);
  gpst_ms = signed64 (le_value 8 (drop 16 p));
  tow_ms = signed64 (le_value 8 (drop 24 p));
  fingerprint = le_value 8 (drop 32 p);
  flags = le_value 4 (drop 40 p);
  frames = le_value 4 (drop 44 p);
  nav_frames = le_value 4 (drop 48 p);
  gps_week = signed32 (le_value 4 (drop 52 p));
}

unfoldable pub epochs_at : ℕ → List ℕ → List ArchiveEpoch
unfolding epoch_at
epochs_at zero p = []
epochs_at (suc n) p = epoch_at p ∷ epochs_at n (drop 56 p)

unfoldable pub is_index : List ℕ → Bool
is_index index =
    leb 48 (length index) && equals (take 8 index) magic && (length index - 48) % 56 == 0

unfoldable pub index_epochs : List ℕ → List ArchiveEpoch
unfolding epochs_at
index_epochs index = epochs_at ((length index - 48) / 56) (drop 48 index)
