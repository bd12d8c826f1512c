-- ===== src/Stream/Chunks.antt =====
-- "Chunk/file boundaries have no framing significance": what stream.hpp promises of `feed`.
use neo_gnss_observatory.Base.{ℕ, ◌+◌, ◌≡◌, sym, ap, ◌∙◌, true, false, List}
use neo_gnss_observatory.Base.{
  ◌++◌, append_assoc, arith, length, length-append, Bool-cases, inl, inr,
}
use neo_gnss_observatory.Frame.{FrameView}
use neo_gnss_observatory.Stream.{
  StreamDecoder, u64, Callback, Scanned, stopped, aborted, Outcome, done, poisoned, rethrown, scan,
  close, received, feed,
}
use neo_gnss_observatory.Stream.Rebase.{Moved, SameCounts, SameScan, scan-SameScan}
use neo_gnss_observatory.Stream.Split.{HasShortLines, HasShortLines-left, resume, scan-append}

-- The same outcome. A decoder that failed keeps the bytes of its last call, so of two failed
-- decoders only the counters and the callback's state are compared.
abbrev pub Agree : {S : Type 0} → Outcome S → Outcome S → Type 0
Agree (done d u) (done d' u') = (d ≡ d') × (u ≡ u')
Agree poisoned poisoned = Unit
Agree (rethrown d u) (rethrown d' u') = (u ≡ u') × SameCounts d d'
Agree _ _ = ⊥

abbrev pub and_then : {S : Type 0} → Outcome S → (StreamDecoder → S → Outcome S) → Outcome S
and_then (done d u) k = k d u
and_then poisoned k = poisoned
and_then (rethrown d u) k = rethrown d u

module _ {S : Type 0} (emit : FrameView → S → Callback S) where
  close-Agree :
      (b : ℕ) (s s' : Scanned S) → SameScan b b s s' → Agree (close emit s) (close emit s')
  unfolding close
  close-Agree b (stopped p pos d u) (stopped p' pos' d' u') m = (same_closed m.0 m.2, m.1)
    where
      same_closed :
          p ≡ p'
          → Moved b b pos d pos' d'
          → record d { pending = p; offset = u64 (d.offset + pos) }
            ≡ record d' { pending = p'; offset = u64 (d'.offset + pos') }
      same_closed e v = ground arith
  close-Agree b (stopped p pos d u) (aborted d' u') m = absurd m
  close-Agree b (aborted d u) (stopped p' pos' d' u') m = absurd m
  close-Agree b (aborted d u) (aborted d' u') m = m

  feed_works :
      (d : StreamDecoder) (u : S) (input : List ℕ)
      → d.failed ≡ false
      → feed emit d u input
        ≡ close emit (
            scan emit
              (length (d.pending ++ input))
              (d.pending ++ input)
              0
              (received emit d input)
              u)
  unfolding feed
  feed_works d u input w = rw w

  resumed_Moved :
      (bytes bytes' pos pos' : ℕ) (d d' : StreamDecoder) (p input : List ℕ)
      → Moved bytes bytes' pos d pos' d'
      → u64 (bytes + length input) ≡ bytes'
      → Moved bytes' bytes' 0
          (received emit (record d { pending = p; offset = u64 (d.offset + pos) }) input)
          pos'
          d'
  resumed_Moved bytes bytes' pos pos' d d' p input m e = ground arith

  -- The second call, on what the first has left, and the loop that goes on instead.
  second_call :
      (bytes bytes' : ℕ) (input : List ℕ) (first whole : Scanned S)
      → SameScan bytes bytes' first whole
      → u64 (bytes + length input) ≡ bytes'
      → Agree
          (and_then (close emit first) (λ d u. feed emit d u input))
          (close emit (resume emit (λ r. scan emit (length (r ++ input)) (r ++ input)) whole))
  unfolding close
  second_call bytes bytes' input (stopped p pos d u) (stopped p' pos' d' u') m e =
      rw
        (feed_works (record d { pending = p; offset = u64 (d.offset + pos) }) u input
          m.2.left_works)
        (rw (← m.0, ← m.1)
          (close-Agree bytes' _ _ (
            scan-SameScan emit bytes' bytes' (length (p ++ input)) (p ++ input) 0 pos' _ d' u
              (resumed_Moved bytes bytes' pos pos' d d' p input m.2 e))))
  second_call bytes bytes' input (stopped p pos d u) (aborted d' u') m e = absurd m
  second_call bytes bytes' input (aborted d u) (stopped p' pos' d' u') m e = absurd m
  second_call bytes bytes' input (aborted d u) (aborted d' u') m e = m

  -- Where no text line reaches the bound of 4096 bytes, feeding two chunks one after the other and
  -- feeding them as one have the same outcome: the same frames reach the callback with the same
  -- offsets, its state is the same, and the decoder is left with the same counters, pending bytes
  -- and offset. If the callback throws, it does so in both cases, with the same state and counters.
  pub feed-append :
      (d : StreamDecoder) (u : S) (first second : List ℕ)
      → HasShortLines (d.pending ++ first ++ second)
      → Agree
          (and_then (feed emit d u first) (λ d' u'. feed emit d' u' second))
          (feed emit d u (first ++ second))
  feed-append d u first second short = elim (Bool-cases d.failed) [
    | inl failed ↦ rw (feed_failed first failed, feed_failed (first ++ second) failed) tt
    | inr works ↦ rw (feed_works d u first works) (rw (whole works) (both works))
  ]
    where
      buffer : List ℕ
      buffer = d.pending ++ first

      at_once : StreamDecoder
      at_once = received emit d (first ++ second)

      feed_failed : (input : List ℕ) → d.failed ≡ true → feed emit d u input ≡ poisoned
      feed_failed input e = unfold feed in rw e

      whole :
          d.failed ≡ false
          → feed emit d u (first ++ second)
            ≡ close emit (
                resume emit
                  (λ r. scan emit (length (r ++ second)) (r ++ second))
                  (scan emit (length buffer) buffer 0 at_once u))
      whole works =
          feed_works d u (first ++ second) works
          ∙ ap (λ t. close emit (scan emit (length t) t 0 at_once u))
              (sym (append_assoc d.pending first second))
          ∙ ap (close emit) (
              scan-append emit (length (buffer ++ second)) (length buffer) buffer second 0 at_once u
                (HasShortLines-left buffer second short)
                (omega (arith, length-append buffer second)) (omega arith))

      start :
          d.failed ≡ false
          → Moved
              (u64 (d.bytes + length first))
              (u64 (d.bytes + length (first ++ second)))
              0
              (received emit d first)
              0
              at_once
      start works = ground arith

      both :
          d.failed ≡ false
          → Agree
              (and_then
                (close emit (scan emit (length buffer) buffer 0 (received emit d first) u))
                (λ d' u'. feed emit d' u' second))
              (close emit (
                resume emit
                  (λ r. scan emit (length (r ++ second)) (r ++ second))
                  (scan emit (length buffer) buffer 0 at_once u)))
      both works =
          second_call (u64 (d.bytes + length first)) (u64 (d.bytes + length (first ++ second)))
            second _ _
            (scan-SameScan emit _ _ (length buffer) buffer 0 0 (received emit d first) at_once u
              (start works))
            (omega (arith, length-append first second))
