-- ===== src/Framing/Stable.antt =====
-- The verdict on what stands at a position, once it is not `wait`, is final: bytes that arrive
-- later do not change it. The one exception is a text line that reaches the bound of 4096 bytes.
use neo_gnss_observatory.Base.{ℕ, ◌≤◌, ◌<◌, ◌≡◌, ◌≢◌, List, ◌++◌, arith, length}
use neo_gnss_observatory.Base.{length-append, true}
use neo_gnss_observatory.Frame.{FrameHeader}
use neo_gnss_observatory.Framing.{
  at, is_delimiter, wait, invalid, found, is_ubx, is_sbf, is_rtcm, text_length, examine,
}
use neo_gnss_observatory.Framing.Binary.{
  at-append, examine_binary-append, examine_binary-found, examine_binary-invalid,
}
use neo_gnss_observatory.Framing.Lines.{
  examine_nmea-append, examine_nmea-found, examine_nmea-invalid,
}

-- A text line that starts here is shorter than the bound.
abbrev pub IsShortLine : List ℕ → Type 0
IsShortLine p = is_delimiter (at p 0) ≡ true → text_length p < 4096

pub examine-append :
    (p q : List ℕ) → 1 ≤ length p → IsShortLine p → examine p ≢ wait → examine (p ++ q) ≡ examine p
unfolding examine
examine-append p q h short ne = ground (
  arith,
  length-append p q,
  at-append p q 0,
  at-append p q 1,
  examine_nmea-append p q h,
  examine_binary-append is_ubx p q,
  examine_binary-append is_sbf p q,
  examine_binary-append is_rtcm p q,
)

pub examine-found :
    (p : List ℕ) {h : FrameHeader} {len start count : ℕ}
    → examine p ≡ found h len start count
    → (1 ≤ len) × (len ≤ length p)
unfolding examine
examine-found p {h} {len} {start} {count} e = ground (
  arith,
  examine_nmea-found p {h = h} {len = len} {start = start} {count = count},
  examine_binary-found is_ubx p {h = h} {len = len} {start = start} {count = count},
  examine_binary-found is_sbf p {h = h} {len = len} {start = start} {count = count},
  examine_binary-found is_rtcm p {h = h} {len = len} {start = start} {count = count},
)

pub examine-invalid :
    (p : List ℕ) {n : ℕ} → 1 ≤ length p → examine p ≡ invalid n → (1 ≤ n) × (n ≤ length p)
unfolding examine
examine-invalid p {n} h e = ground (
  arith,
  examine_nmea-invalid p {n = n},
  examine_binary-invalid is_ubx p {n = n},
  examine_binary-invalid is_sbf p {n = n},
  examine_binary-invalid is_rtcm p {n = n},
)
