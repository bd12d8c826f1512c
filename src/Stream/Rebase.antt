-- ===== src/Stream/Rebase.antt =====
-- The loop of `feed` does not depend on how the position of a byte in the stream is divided into
-- the offset of the buffer and the position in it, and keeps the counter of the bytes received.
use neo_gnss_observatory.Base.{ℕ, zero, suc, ◌+◌, ◌≡◌, refl, ap, ◌∙◌, false, true, List, [], ◌∷◌}
use neo_gnss_observatory.Base.{arith, drop, length, Bool-cases, inl, inr}
use neo_gnss_observatory.Frame.{FrameView, protocol}
use neo_gnss_observatory.Framing.{Verdict, wait, noise, invalid, found, examine}
use neo_gnss_observatory.Stream.{
  StreamDecoder, u64, selects, Callback, returned, raised, Scanned, stopped, aborted, called,
  emit_frame, view, act, scan,
}

-- Two decoders with equal counters of frames and noise at the same place of the stream.
pub record Moved (bytes bytes' pos : ℕ) (d : StreamDecoder) (pos' : ℕ) (d' : StreamDecoder)
    : Type 0 where
  pub same_frames : d.frames ≡ d'.frames
  pub same_invalid : d.invalid_frames ≡ d'.invalid_frames
  pub same_noise : d.noise_bytes ≡ d'.noise_bytes
  pub same_skipped : d.skipped_protocol_frames ≡ d'.skipped_protocol_frames
  pub same_skipped_bytes : d.skipped_protocol_bytes ≡ d'.skipped_protocol_bytes
  pub same_protocols : d.protocols ≡ d'.protocols
  pub same_place : u64 (d.offset + pos) ≡ u64 (d'.offset + pos')
  pub left_bytes : d.bytes ≡ bytes
  pub right_bytes : d'.bytes ≡ bytes'
  pub left_works : d.failed ≡ false
  pub right_works : d'.failed ≡ false

-- The same for the decoders of a callback that threw.
pub record SameCounts (d d' : StreamDecoder) : Type 0 where
  pub same_frames : d.frames ≡ d'.frames
  pub same_invalid : d.invalid_frames ≡ d'.invalid_frames
  pub same_noise : d.noise_bytes ≡ d'.noise_bytes
  pub same_skipped : d.skipped_protocol_frames ≡ d'.skipped_protocol_frames
  pub same_skipped_bytes : d.skipped_protocol_bytes ≡ d'.skipped_protocol_bytes
  pub left_failed : d.failed ≡ true
  pub right_failed : d'.failed ≡ true

abbrev pub SameScan : {S : Type 0} → ℕ → ℕ → Scanned S → Scanned S → Type 0
SameScan b b' (stopped p pos d u) (stopped p' pos' d' u') =
    (p ≡ p') × (u ≡ u') × Moved b b' pos d pos' d'
SameScan b b' (stopped p pos d u) (aborted d' u') = ⊥
SameScan b b' (aborted d u) (stopped p' pos' d' u') = ⊥
SameScan b b' (aborted d u) (aborted d' u') = (u ≡ u') × SameCounts d d'

module _ (b b' pos pos' : ℕ) (d d' : StreamDecoder) (m : Moved b b' pos d pos' d') where
  noise-Moved :
      Moved b b'
        (pos + 1)
        (record d { noise_bytes = u64 (d.noise_bytes + 1) })
        (pos' + 1)
        (record d' { noise_bytes = u64 (d'.noise_bytes + 1) })
  noise-Moved = ground arith

  invalid-Moved :
      (n : ℕ)
      → Moved b b'
          (pos + n)
          (record d { invalid_frames = u64 (d.invalid_frames + 1) })
          (pos' + n)
          (record d' { invalid_frames = u64 (d'.invalid_frames + 1) })
  invalid-Moved n = ground arith

  frames-Moved :
      (n : ℕ)
      → Moved b b'
          (pos + n)
          (record d { frames = u64 (d.frames + 1) })
          (pos' + n)
          (record d' { frames = u64 (d'.frames + 1) })
  frames-Moved n = ground arith

  skipped-Moved :
      (n k : ℕ)
      → Moved b b'
          (pos + n)
          (record d {
            skipped_protocol_frames = u64 (d.skipped_protocol_frames + 1);
            skipped_protocol_bytes = u64 (d.skipped_protocol_bytes + k);
          })
          (pos' + n)
          (record d' {
            skipped_protocol_frames = u64 (d'.skipped_protocol_frames + 1);
            skipped_protocol_bytes = u64 (d'.skipped_protocol_bytes + k);
          })
  skipped-Moved n k = ground arith

  failed-SameCounts :
      SameCounts
        (record d { frames = u64 (d.frames + 1); failed = true })
        (record d' { frames = u64 (d'.frames + 1); failed = true })
  failed-SameCounts = ground arith

module _ {S : Type 0} (emit : FrameView → S → Callback S) (b b' : ℕ) where
  -- A continuation that treats moved decoders alike.
  abbrev Alike : (List ℕ → ℕ → StreamDecoder → S → Scanned S) → Type 0
  Alike rest =
      (p : List ℕ) (pos pos' : ℕ) (d d' : StreamDecoder) (u : S)
      → Moved b b' pos d pos' d'
      → SameScan b b' (rest p pos d u) (rest p pos' d' u)

  called-SameScan :
      (rest : List ℕ → ℕ → StreamDecoder → S → Scanned S)
      → Alike rest
      → (c : Callback S) (p : List ℕ) (n pos pos' : ℕ) (d d' : StreamDecoder)
      → Moved b b' pos d pos' d'
      → SameScan b b'
          (called emit rest c p (pos + n) (record d { frames = u64 (d.frames + 1) }))
          (called emit rest c p (pos' + n) (record d' { frames = u64 (d'.frames + 1) }))
  unfolding called
  called-SameScan rest same (returned u) p n pos pos' d d' m =
      same p (pos + n) (pos' + n) _ _ u (frames-Moved b b' pos pos' d d' m n)
  called-SameScan rest same (raised u) p n pos pos' d d' m =
      (refl, failed-SameCounts b b' pos pos' d d' m)

  emit_frame-SameScan :
      (rest : List ℕ → ℕ → StreamDecoder → S → Scanned S)
      → Alike rest
      → (f : FrameView) (p : List ℕ) (n pos pos' : ℕ) (d d' : StreamDecoder) (u : S)
      → Moved b b' pos d pos' d'
      → SameScan b b'
          (emit_frame emit rest f p (pos + n) d u)
          (emit_frame emit rest f p (pos' + n) d' u)
  unfolding emit_frame
  emit_frame-SameScan rest same f p n pos pos' d d' u m =
      let same_test : selects d.protocols (protocol f) ≡ selects d'.protocols (protocol f) =
        ap (λ ps. selects ps (protocol f)) m.same_protocols in
      elim (Bool-cases (selects d'.protocols (protocol f))) [
        | inl taken ↦
            rw (same_test ∙ taken, taken) (called-SameScan rest same (emit f u) p n pos pos' d d' m)
        | inr passed ↦
            rw (same_test ∙ passed, passed)
              (same p (pos + n) (pos' + n) _ _ u
                (skipped-Moved b b' pos pos' d d' m n (length f.wire)))
      ]

  act-SameScan :
      (rest : List ℕ → ℕ → StreamDecoder → S → Scanned S)
      → Alike rest
      → (v : Verdict) (p : List ℕ) (pos pos' : ℕ) (d d' : StreamDecoder) (u : S)
      → Moved b b' pos d pos' d'
      → SameScan b b' (act emit rest v p pos d u) (act emit rest v p pos' d' u)
  unfolding act
  act-SameScan rest same wait p pos pos' d d' u m = (refl, refl, m)
  act-SameScan rest same noise p pos pos' d d' u m =
      same (drop 1 p) (pos + 1) (pos' + 1) _ _ u (noise-Moved b b' pos pos' d d' m)
  act-SameScan rest same (invalid n) p pos pos' d d' u m =
      same (drop n p) (pos + n) (pos' + n) _ _ u (invalid-Moved b b' pos pos' d d' m n)
  act-SameScan rest same (found h len start count) p pos pos' d d' u m = rw m.same_place (
      emit_frame-SameScan rest same (view emit h len start count p pos' d') (drop len p) len pos
        pos' d d' u m)

  pub scan-SameScan : (fuel : ℕ) → Alike (scan emit fuel)
  unfolding scan
  scan-SameScan zero p pos pos' d d' u m = (refl, refl, m)
  scan-SameScan (suc fuel) [] pos pos' d d' u m = (refl, refl, m)
  scan-SameScan (suc fuel) (x ∷ xs) pos pos' d d' u m =
      act-SameScan (scan emit fuel) (scan-SameScan fuel) (examine (x ∷ xs)) (x ∷ xs) pos pos' d d' u
        m
