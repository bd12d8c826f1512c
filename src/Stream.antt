-- ===== src/Stream.antt =====
-- cppgnss::StreamDecoder of libcppgnss/include/cppgnss/stream.hpp and libcppgnss/src/stream.cpp:
-- the constructor, `feed`, `finish` and the two accessors. The callback is a function on a state
-- `S` of its own, and a thrown exception is its result `raised`. Counters are uint64_t. The set of
-- protocols, a bit mask in the source, is the list of its members.
pub mod Rebase
pub mod Split
pub mod Chunks
pub mod Account
use neo_gnss_observatory.Base.{
  ℕ, zero, suc, ◌+◌, ◌%◌, ◌^◌, Bool, true, false, ◌||◌, List, [], ◌∷◌, ◌++◌,
}
use neo_gnss_observatory.Base.{if◌then◌else◌, length, drop, slice, Option, none, some}
use neo_gnss_observatory.Frame.{Protocol, FrameHeader, FrameView, protocol, same_protocol}
use neo_gnss_observatory.Framing.{Verdict, wait, noise, invalid, found, examine}

pub record StreamDecoder : Type 0 where
  pub bytes : ℕ
  pub frames : ℕ
  pub invalid_frames : ℕ
  pub noise_bytes : ℕ
  pub skipped_protocol_frames : ℕ
  pub skipped_protocol_bytes : ℕ
  pub protocols : List Protocol
  pub pending : List ℕ
  pub offset : ℕ
  pub failed : Bool

abbrev pub u64 : ℕ → ℕ
u64 n = n % 2 ^ 64

pub selects : List Protocol → Protocol → Bool
selects [] q = false
selects (p ∷ ps) q = same_protocol p q || selects ps q

abbrev pub fresh : List Protocol → StreamDecoder
fresh ps = record {
  bytes = 0;
  frames = 0;
  invalid_frames = 0;
  noise_bytes = 0;
  skipped_protocol_frames = 0;
  skipped_protocol_bytes = 0;
  protocols = ps;
  pending = [];
  offset = 0;
  failed = false;
}

-- The constructor throws std::invalid_argument on an empty selection.
pub construct : List Protocol → Option StreamDecoder
construct [] = none
construct (p ∷ ps) = some (fresh (p ∷ ps))

-- What the callback does with a frame.
pub data Callback (S : Type 0) : Type 0 where
  returned : S → Callback S
  raised : S → Callback S

-- `stopped`: the loop is left with these bytes at this position. `aborted`: the callback threw.
pub data Scanned (S : Type 0) : Type 0 where
  stopped : List ℕ → ℕ → StreamDecoder → S → Scanned S
  aborted : StreamDecoder → S → Scanned S

-- `poisoned` is the std::logic_error of a decoder whose callback failed, `rethrown` the
-- callback's own exception.
pub data Outcome (S : Type 0) : Type 0 where
  done : StreamDecoder → S → Outcome S
  poisoned : Outcome S
  rethrown : StreamDecoder → S → Outcome S

pub data Finish : Type 0 where
  complete : Finish
  failed_before : Finish
  truncated_at : ℕ → Finish

module _ {S : Type 0} (emit : FrameView → S → Callback S) where
  -- The rest of the loop, from the next position.
  abbrev pub Rest : Type 0
  Rest = List ℕ → ℕ → StreamDecoder → S → Scanned S

  unfoldable pub called : Rest → Callback S → List ℕ → ℕ → StreamDecoder → Scanned S
  called rest (returned u) p pos d = rest p pos d u
  called rest (raised u) p pos d = aborted (record d { failed = true }) u

  -- `emit_frame` and the move behind the frame.
  unfoldable pub emit_frame : Rest → FrameView → List ℕ → ℕ → StreamDecoder → S → Scanned S
  emit_frame rest f p pos d u =
      let skipped = record d {
        skipped_protocol_frames = u64 (d.skipped_protocol_frames + 1);
        skipped_protocol_bytes = u64 (d.skipped_protocol_bytes + length f.wire);
      } in
      let counted = record d { frames = u64 (d.frames + 1) } in
      if selects d.protocols (protocol f)
      then called rest (emit f u) p pos counted
      else rest p pos skipped u

  abbrev pub view : FrameHeader → ℕ → ℕ → ℕ → List ℕ → ℕ → StreamDecoder → FrameView
  view h len start count p pos d = record {
    header = h;
    offset = u64 (d.offset + pos);
    wire = slice 0 len p;
    payload = slice start count (slice 0 len p);
  }

  unfoldable pub act : Rest → Verdict → Rest
  act rest wait p pos d u = stopped p pos d u
  act rest noise p pos d u =
      rest (drop 1 p) (pos + 1) (record d { noise_bytes = u64 (d.noise_bytes + 1) }) u
  act rest (invalid n) p pos d u =
      rest (drop n p) (pos + n) (record d { invalid_frames = u64 (d.invalid_frames + 1) }) u
  act rest (found h len start count) p pos d u =
      emit_frame rest (view h len start count p pos d) (drop len p) (pos + len) d u

  -- The loop of `feed`. Every round moves on by a byte at least, so the buffer's length is fuel.
  unfoldable pub scan : ℕ → Rest
  scan zero p pos d u = stopped p pos d u
  scan (suc fuel) [] pos d u = stopped [] pos d u
  scan (suc fuel) (x ∷ xs) pos d u = act (scan fuel) (examine (x ∷ xs)) (x ∷ xs) pos d u

  unfoldable pub close : Scanned S → Outcome S
  close (stopped p pos d u) = done (record d { pending = p; offset = u64 (d.offset + pos) }) u
  close (aborted d u) = rethrown d u

  abbrev pub received : StreamDecoder → List ℕ → StreamDecoder
  received d input = record d { bytes = u64 (d.bytes + length input); pending = d.pending ++ input }

  unfoldable pub feed : StreamDecoder → S → List ℕ → Outcome S
  feed d u input =
      let buffer = d.pending ++ input in
      if d.failed then poisoned else close (scan (length buffer) buffer 0 (received d input) u)

finish_pending : List ℕ → ℕ → Finish
finish_pending [] offset = complete
finish_pending (x ∷ xs) offset = truncated_at offset

pub finish : StreamDecoder → Finish
unfolding finish_pending
finish d = if d.failed then failed_before else finish_pending d.pending d.offset

abbrev pub pending_offset : StreamDecoder → ℕ
pending_offset d = d.offset

abbrev pub pending_bytes : StreamDecoder → ℕ
pending_bytes d = length d.pending
