-- ===== src/Stream/Account.antt =====
-- StreamDecoder::feed accounts for every byte, and stops only where more bytes are needed.
use neo_gnss_observatory.Base.{
  ℕ, zero, suc, ◌+◌, ◌≤◌, ◌<◌, ◌≢◌, ◌==◌, ◌&&◌, ltb, ◌≡◌, ◌⊎◌, refl, sym, ◌∙◌, Bool, if◌then◌else◌,
  true, List, [], ◌∷◌, ◌++◌, arith, drop, length, length-drop, length-append, Bool-cases, inl, inr,
}
use mathlib.Core.Path.{subst}
use neo_gnss_observatory.Frame.{FrameView, protocol}
use neo_gnss_observatory.Framing.{
  at, Verdict, wait, noise, invalid, found, examine, examine_nmea, examine_binary, complete_binary,
  nmea_line, text_length, comma_position, BinaryKind, is_ubx, is_sbf, is_rtcm, head_size,
  frame_length,
}
use neo_gnss_observatory.Stream.{
  StreamDecoder, u64, selects, Callback, returned, raised, Scanned, stopped, aborted, Outcome, done,
  poisoned, rethrown, called, emit_frame, act, scan, close, received, feed,
}
use neo_gnss_observatory.Stream.Split.{Consumes, examine-Consumes}

-- A binary frame of which a part is there: its length field is not complete, or it gives a length
-- above what is there.
abbrev pub IsPart : BinaryKind → List ℕ → Type 0
IsPart k p = (length p < head_size k) ⊎ ((head_size k ≤ length p) × (length p < frame_length k p))

-- A line that ends in its text or behind its carriage return.
abbrev pub IsOpenLine : List ℕ → Type 0
IsOpenLine p =
    ((text_length p ≡ length p) × (length p < 4096))
    ⊎ ((text_length p < 4096) × (at p (text_length p) ≡ b'\r') × (length p ≡ text_length p + 1))

-- No more than the first part of a frame: one byte that starts a frame, a line that has not ended,
-- or a part of a frame of the kind that the first two bytes say.
abbrev pub IsPartial : List ℕ → Type 0
IsPartial p =
    ((length p ≡ 1) × ((at p 0 ≡ 0xb5) ⊎ (at p 0 ≡ 0xd3) ⊎ (at p 0 ≡ b'$') ⊎ (at p 0 ≡ b'!')))
    ⊎ (((at p 0 ≡ b'$') ⊎ (at p 0 ≡ b'!')) × IsOpenLine p)
    ⊎ ((at p 0 ≡ 0xb5) × (at p 1 ≡ 0x62) × IsPart is_ubx p)
    ⊎ ((at p 0 ≡ b'$') × (at p 1 ≡ b'@') × IsPart is_sbf p)
    ⊎ ((at p 0 ≡ 0xd3) × IsPart is_rtcm p)

complete_binary-ne-wait : (k : BinaryKind) (len : ℕ) (p : List ℕ) → complete_binary k len p ≢ wait
unfolding complete_binary
complete_binary-ne-wait k len p e = ground arith

nmea_line-ne-wait : (p : List ℕ) (n comma : ℕ) (crlf : Bool) → nmea_line p n comma crlf ≢ wait
unfolding nmea_line
nmea_line-ne-wait p n comma crlf e = ground arith

examine_binary-wait : (k : BinaryKind) (p : List ℕ) → examine_binary k p ≡ wait → IsPart k p
unfolding examine_binary
examine_binary-wait k p e =
    let whole = complete_binary-ne-wait k (frame_length k p) p in ground (arith, whole)

examine_nmea-wait : (p : List ℕ) → examine_nmea p ≡ wait → IsOpenLine p
unfolding examine_nmea
examine_nmea-wait p e =
    let n = text_length p in
    let crlf = ltb (n + 1) (length p) && at p n == b'\r' && at p (n + 1) == b'\n' in
    let whole = nmea_line-ne-wait p n (comma_position n p) crlf in ground (arith, whole)

examine-IsPartial : (p : List ℕ) → examine p ≡ wait → IsPartial p
unfolding examine
examine-IsPartial p e =
    let line = examine_nmea-wait p in
    let ubx = examine_binary-wait is_ubx p in
    let sbf = examine_binary-wait is_sbf p in
    let rtcm = examine_binary-wait is_rtcm p in ground (arith, line, ubx, sbf, rtcm)

module _ {S : Type 0} (emit : FrameView → S → Callback S) where
  -- The callback raised with this state of its own.
  abbrev pub Raises : S → Type 0
  Raises u = (f : FrameView) × (before : S) × (emit f before ≡ raised u)

  -- Where the loop stops: no byte is lost, and nothing is left or more bytes are needed.
  abbrev Ends : (total offset bytes : ℕ) → Scanned S → Type 0
  Ends total offset bytes (stopped p pos d u) =
      (pos + length p ≡ total) × (d.offset ≡ offset) × (d.bytes ≡ bytes) × ((p ≡ []) ⊎ IsPartial p)
  Ends total offset bytes (aborted d u) = (d.failed ≡ true) × Raises u

  abbrev Loop : Type 0
  Loop = List ℕ → ℕ → StreamDecoder → S → Scanned S

  called-Ends :
      (r : Loop) (total : ℕ) (f : FrameView) (before : S) (c : Callback S) (p : List ℕ) (pos : ℕ)
      (d : StreamDecoder)
      → emit f before ≡ c
      → ((u : S) → Ends total d.offset d.bytes (r p pos d u))
      → Ends total d.offset d.bytes (called emit r c p pos d)
  unfolding called
  called-Ends r total f before (returned u) p pos d e h = h u
  called-Ends r total f before (raised u) p pos d e h = (refl, (f, before, e))

  emit_frame-Ends :
      (r : Loop) (total : ℕ) (f : FrameView) (p : List ℕ) (pos : ℕ) (d : StreamDecoder) (u : S)
      → ((d' : StreamDecoder) (u : S)
          → d'.offset ≡ d.offset
          → d'.bytes ≡ d.bytes
          → Ends total d'.offset d'.bytes (r p pos d' u))
      → Ends total d.offset d.bytes (emit_frame emit r f p pos d u)
  unfolding emit_frame
  emit_frame-Ends r total f p pos d u h = elim (Bool-cases (selects d.protocols (protocol f))) [
    | inl taken ↦
        rw taken (called-Ends r total f u (emit f u) p pos _ refl (λ u'. h _ u' refl refl))
    | inr left ↦ rw left (h _ u refl refl)
  ]

  act-Ends :
      (r : Loop) (v : Verdict) (p : List ℕ) (pos : ℕ) (d : StreamDecoder) (u : S)
      → examine p ≡ v
      → Consumes v p
      → ((n : ℕ) (d' : StreamDecoder) (u : S)
          → 1 ≤ n
          → n ≤ length p
          → d'.offset ≡ d.offset
          → d'.bytes ≡ d.bytes
          → Ends (pos + length p) d'.offset d'.bytes (r (drop n p) (pos + n) d' u))
      → Ends (pos + length p) d.offset d.bytes (act emit r v p pos d u)
  unfolding act
  act-Ends r wait p pos d u e c h = (refl, refl, refl, inr (examine-IsPartial p e))
  act-Ends r noise p pos d u e c h = h 1 _ u (omega arith) c refl refl
  act-Ends r (invalid n) p pos d u e c h = h n _ u c.0 c.1 refl refl
  act-Ends r (found hd len start count) p pos d u e c h =
      emit_frame-Ends r (pos + length p) _ (drop len p) (pos + len) d u
        (λ d' u' o b. h len d' u' c.0 c.1 o b)

  scan-Ends :
      (fuel : ℕ) (p : List ℕ) (pos : ℕ) (d : StreamDecoder) (u : S)
      → length p ≤ fuel
      → Ends (pos + length p) d.offset d.bytes (scan emit fuel p pos d u)
  unfolding scan
  scan-Ends zero [] pos d u h = (refl, refl, refl, inl refl)
  scan-Ends zero (x ∷ xs) pos d u h = absurd (omega arith)
  scan-Ends (suc fuel) [] pos d u h = (refl, refl, refl, inl refl)
  scan-Ends (suc fuel) (x ∷ xs) pos d u h =
      act-Ends (scan emit fuel) (examine (x ∷ xs)) (x ∷ xs) pos d u refl
        (examine-Consumes (x ∷ xs) _ (omega arith) refl)
        (λ n d' u' some_bytes le o b.
          let left = length-drop n (x ∷ xs) in
          subst (λ t. Ends t d'.offset d'.bytes (scan emit fuel (drop n (x ∷ xs)) (pos + n) d' u'))
            (omega (arith, left, le))
            (scan-Ends fuel (drop n (x ∷ xs)) (pos + n) d' u' (omega (arith, left, some_bytes, h))))

  -- What `feed` leaves.
  abbrev pub Accounts : StreamDecoder → List ℕ → Outcome S → Type 0
  Accounts d input (done d' u) =
      (u64 (d'.offset + length d'.pending) ≡ u64 (d.offset + length d.pending + length input))
      × (d'.bytes ≡ u64 (d.bytes + length input))
      × ((d'.pending ≡ []) ⊎ IsPartial d'.pending)
  Accounts d input poisoned = d.failed ≡ true
  Accounts d input (rethrown d' u) = (d'.failed ≡ true) × Raises u

  -- Where feed returns it has accounted for every byte: the offset of the pending bytes and their
  -- number grow together by the bytes given, as `bytes` does, all on 64 bits. And it has examined
  -- what it could: nothing is pending, or no more than the first part of a frame, that is one byte
  -- that starts one, a line without its end, or fewer bytes than the length field takes or than it
  -- gives. It refuses
  -- only on a decoder that has failed, and throws only what the callback raised for a frame.
  pub feed-Accounts :
      (d : StreamDecoder) (u : S) (input : List ℕ) → Accounts d input (feed emit d u input)
  unfolding feed close
  feed-Accounts d u input = elim (Bool-cases d.failed) [
    | inl e ↦ subst branches (sym e) e
    | inr e ↦
        subst branches (sym e)
          (closed _ (scan-Ends (length buffer) buffer 0 (received emit d input) u (omega arith)))
  ]
    where
      buffer : List ℕ
      buffer = d.pending ++ input

      branches : Bool → Type 0
      branches b = Accounts d input (
          if b
          then poisoned
          else close emit (scan emit (length buffer) buffer 0 (received emit d input) u))

      total : 0 + length (d.pending ++ input) ≡ length d.pending + length input
      total = omega (arith, length-append d.pending input)

      sums :
          (o pos left a b o' : ℕ)
          → o' ≡ o
          → pos + left ≡ a + b
          → u64 (u64 (o' + pos) + left) ≡ u64 (o + a + b)
      sums o pos left a b o' h k = omega (arith, h, k)

      closed :
          (r : Scanned S)
          → Ends (0 + length (d.pending ++ input)) d.offset (u64 (d.bytes + length input)) r
          → Accounts d input (close emit r)
      closed (stopped p pos d' u') h = (
        sums d.offset pos (length p) (length d.pending) (length input) d'.offset h.1 (h.0 ∙ total),
        h.2,
        h.3,
      )
      closed (aborted d' u') h = h
