-- ===== src/Framing/Binary.antt =====
-- The verdict on a binary frame does not change when more bytes arrive behind it.
use neo_gnss_observatory.Base.{ℕ, ◌-◌, ◌≤◌, ◌<◌, ◌≡◌, ◌≢◌, List, ◌++◌, arith}
use neo_gnss_observatory.Base.{length}
use neo_gnss_observatory.Base.{length-append, get_or-append, slice-append}
use neo_gnss_observatory.Frame.{FrameHeader}
use neo_gnss_observatory.Framing.{
  at, BinaryKind, is_ubx, is_sbf, is_rtcm, wait, invalid, found, head_size, least_length,
  frame_length, is_intact, binary_header, complete_binary, examine_binary,
}

pub at-append : (p q : List ℕ) (i : ℕ) → i < length p → at (p ++ q) i ≡ at p i
at-append p q i h = get_or-append p q i 0 h

frame_length-append :
    (k : BinaryKind) (p q : List ℕ)
    → head_size k ≤ length p
    → frame_length k (p ++ q) ≡ frame_length k p
unfolding head_size frame_length
frame_length-append is_ubx p q h = ground (arith, at-append p q 4, at-append p q 5)
frame_length-append is_sbf p q h = ground (arith, at-append p q 6, at-append p q 7)
frame_length-append is_rtcm p q h = ground (arith, at-append p q 1, at-append p q 2)

module _ (len : ℕ) (p q : List ℕ) (fits : len ≤ length p) where
  is_intact-append :
      (k : BinaryKind) → least_length k ≤ len → is_intact k len (p ++ q) ≡ is_intact k len p
  unfolding is_intact least_length
  is_intact-append is_ubx h = simp (
    slice-append 2 (len - 4) p q (omega arith),
    at-append p q (len - 2) (omega arith),
    at-append p q (len - 1) (omega arith),
  )
  is_intact-append is_sbf h = simp (
    slice-append 4 (len - 4) p q (omega arith),
    at-append p q 2 (omega arith),
    at-append p q 3 (omega arith),
  )
  is_intact-append is_rtcm h = simp (
    slice-append 0 (len - 3) p q (omega arith),
    at-append p q (len - 3) (omega arith),
    at-append p q (len - 2) (omega arith),
    at-append p q (len - 1) (omega arith),
  )

  binary_header-append :
      (k : BinaryKind) → least_length k ≤ len → binary_header k len (p ++ q) ≡ binary_header k len p
  unfolding binary_header least_length
  binary_header-append is_ubx h =
      simp (at-append p q 2 (omega arith), at-append p q 3 (omega arith))
  binary_header-append is_sbf h =
      simp (at-append p q 4 (omega arith), at-append p q 5 (omega arith))
  binary_header-append is_rtcm h =
      simp (at-append p q 3 (omega arith), at-append p q 4 (omega arith))

  complete_binary-append :
      (k : BinaryKind)
      → least_length k ≤ len
      → complete_binary k len (p ++ q) ≡ complete_binary k len p
  unfolding complete_binary
  complete_binary-append k h = simp (is_intact-append k h, binary_header-append k h)

complete_binary-append_all :
    (k : BinaryKind) (len : ℕ) (p q : List ℕ)
    → len ≤ length p
    → least_length k ≤ len
    → complete_binary k len (p ++ q) ≡ complete_binary k len p
complete_binary-append_all k len p q h l = complete_binary-append len p q h k l

pub examine_binary-append :
    (k : BinaryKind) (p q : List ℕ)
    → examine_binary k p ≢ wait
    → examine_binary k (p ++ q) ≡ examine_binary k p
unfolding examine_binary
examine_binary-append k p q ne = ground (
  arith,
  length-append p q,
  frame_length-append k p q,
  complete_binary-append_all k (frame_length k p) p q,
)

-- A frame that is found lies inside the bytes at hand, and at least one byte is consumed.
pub examine_binary-found :
    (k : BinaryKind) (p : List ℕ) {h : FrameHeader} {len start count : ℕ}
    → examine_binary k p ≡ found h len start count
    → (1 ≤ len) × (len ≤ length p)
unfolding examine_binary complete_binary least_length
examine_binary-found is_ubx p e = ground arith
examine_binary-found is_sbf p e = ground arith
examine_binary-found is_rtcm p e = ground arith

pub examine_binary-invalid :
    (k : BinaryKind) (p : List ℕ) {n : ℕ}
    → examine_binary k p ≡ invalid n
    → (1 ≤ n) × (n ≤ length p)
unfolding examine_binary complete_binary least_length head_size
examine_binary-invalid is_ubx p e = ground arith
examine_binary-invalid is_sbf p e = ground arith
examine_binary-invalid is_rtcm p e = ground arith
