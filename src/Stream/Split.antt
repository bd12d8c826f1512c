-- ===== src/Stream/Split.antt =====
-- The loop of `feed` over a buffer is the loop over its first part, resumed with the second part
-- behind what the first has left.
use neo_gnss_observatory.Base.{ℕ, zero, suc, ◌+◌, ◌≤◌, ◌≡◌, ◌≢◌, refl, sym, ap, ◌∙◌, List}
use neo_gnss_observatory.Base.{[], ◌∷◌, ◌++◌, arith, drop, length, Bool-cases, inl, inr, ◌⊎◌}
use neo_gnss_observatory.Base.{length-append, drop-append, slice-append, length-drop}
use neo_gnss_observatory.Frame.{FrameView, protocol}
use neo_gnss_observatory.Framing.{Verdict, wait, noise, invalid, found, examine}
use neo_gnss_observatory.Framing.Lines.{text_run_mono}
use neo_gnss_observatory.Framing.Stable.{
  IsShortLine, examine-append, examine-found, examine-invalid,
}
use neo_gnss_observatory.Stream.{
  StreamDecoder, selects, Callback, returned, raised, Scanned, stopped, aborted, called, emit_frame,
  act, scan,
}

-- No text line in these bytes reaches the bound of 4096 bytes.
abbrev pub HasShortLines : List ℕ → Type 0
HasShortLines [] = Unit
HasShortLines (x ∷ xs) = IsShortLine (x ∷ xs) × HasShortLines xs

pub HasShortLines-drop : (n : ℕ) (p : List ℕ) → HasShortLines p → HasShortLines (drop n p)
HasShortLines-drop zero p h = h
HasShortLines-drop (suc n) [] h = h
HasShortLines-drop (suc n) (x ∷ xs) h = HasShortLines-drop n xs h.1

pub HasShortLines-left : (p q : List ℕ) → HasShortLines (p ++ q) → HasShortLines p
HasShortLines-left [] q h = tt
HasShortLines-left (x ∷ xs) q h =
    (λ e. omega (arith, h.0 e, text_run_mono 4095 xs q), HasShortLines-left xs q h.1)

-- What a verdict consumes is at least a byte and inside the bytes at hand.
abbrev pub Consumes : Verdict → List ℕ → Type 0
Consumes wait p = Unit
Consumes noise p = 1 ≤ length p
Consumes (invalid n) p = (1 ≤ n) × (n ≤ length p)
Consumes (found h len start count) p = (1 ≤ len) × (len ≤ length p)

pub examine-Consumes : (p : List ℕ) (v : Verdict) → 1 ≤ length p → examine p ≡ v → Consumes v p
examine-Consumes p wait h e = tt
examine-Consumes p noise h e = h
examine-Consumes p (invalid n) h e = examine-invalid p h e
examine-Consumes p (found hd len start count) h e = examine-found p e

module _ {S : Type 0} (emit : FrameView → S → Callback S) where
  abbrev Loop : Type 0
  Loop = List ℕ → ℕ → StreamDecoder → S → Scanned S

  abbrev pub resume : Loop → Scanned S → Scanned S
  resume k (stopped p pos d u) = k p pos d u
  resume k (aborted d u) = aborted d u

  -- The two loops agree on every proper rest.
  abbrev AgreeBehind : Loop → Loop → List ℕ → Type 0
  AgreeBehind r r' p =
      (n pos : ℕ) (d : StreamDecoder) (u : S)
      → 1 ≤ n
      → n ≤ length p
      → r (drop n p) pos d u ≡ r' (drop n p) pos d u

  called_cong :
      (r r' : Loop) (c : Callback S) (p : List ℕ) (pos : ℕ) (d : StreamDecoder)
      → ((pos : ℕ) (d : StreamDecoder) (u : S) → r p pos d u ≡ r' p pos d u)
      → called emit r c p pos d ≡ called emit r' c p pos d
  unfolding called
  called_cong r r' (returned u) p pos d h = h pos d u
  called_cong r r' (raised u) p pos d h = refl

  emit_frame_cong :
      (r r' : Loop) (f : FrameView) (p : List ℕ) (pos : ℕ) (d : StreamDecoder) (u : S)
      → ((pos : ℕ) (d : StreamDecoder) (u : S) → r p pos d u ≡ r' p pos d u)
      → emit_frame emit r f p pos d u ≡ emit_frame emit r' f p pos d u
  unfolding emit_frame
  emit_frame_cong r r' f p pos d u h = elim (Bool-cases (selects d.protocols (protocol f))) [
    | inl taken ↦ rw taken (called_cong r r' (emit f u) p pos _ h)
    | inr passed ↦ rw passed (h pos _ u)
  ]

  act_cong :
      (r r' : Loop) (v : Verdict) (p : List ℕ) (pos : ℕ) (d : StreamDecoder) (u : S)
      → Consumes v p
      → AgreeBehind r r' p
      → act emit r v p pos d u ≡ act emit r' v p pos d u
  unfolding act
  act_cong r r' wait p pos d u c h = refl
  act_cong r r' noise p pos d u c h = h 1 (pos + 1) _ u (omega arith) c
  act_cong r r' (invalid n) p pos d u c h = h n (pos + n) _ u c.0 c.1
  act_cong r r' (found hd len start count) p pos d u c h =
      emit_frame_cong r r' _ (drop len p) (pos + len) d u (λ pos d u. h len pos d u c.0 c.1)

  -- Any fuel that covers the bytes gives the same result.
  pub scan_fuel :
      (f g : ℕ) (p : List ℕ) (pos : ℕ) (d : StreamDecoder) (u : S)
      → length p ≤ f
      → length p ≤ g
      → scan emit f p pos d u ≡ scan emit g p pos d u
  unfolding scan
  scan_fuel zero zero p pos d u hf hg = refl
  scan_fuel zero (suc g) [] pos d u hf hg = refl
  scan_fuel zero (suc g) (x ∷ xs) pos d u hf hg = absurd (omega arith)
  scan_fuel (suc f) zero [] pos d u hf hg = refl
  scan_fuel (suc f) zero (x ∷ xs) pos d u hf hg = absurd (omega arith)
  scan_fuel (suc f) (suc g) [] pos d u hf hg = refl
  scan_fuel (suc f) (suc g) (x ∷ xs) pos d u hf hg =
      act_cong (scan emit f) (scan emit g) (examine (x ∷ xs)) (x ∷ xs) pos d u
        (examine-Consumes (x ∷ xs) _ (omega arith) refl)
        (λ n pos d u one inside.
          scan_fuel f g (drop n (x ∷ xs)) pos d u (omega (arith, length-drop n (x ∷ xs)))
            (omega (arith, length-drop n (x ∷ xs))))

  called-resume :
      (r r' k : Loop) (c : Callback S) (p p' : List ℕ) (pos : ℕ) (d : StreamDecoder)
      → ((pos : ℕ) (d : StreamDecoder) (u : S) → r p pos d u ≡ resume k (r' p' pos d u))
      → called emit r c p pos d ≡ resume k (called emit r' c p' pos d)
  unfolding called
  called-resume r r' k (returned u) p p' pos d h = h pos d u
  called-resume r r' k (raised u) p p' pos d h = refl

  emit_frame-resume :
      (r r' k : Loop) (f : FrameView) (p p' : List ℕ) (pos : ℕ) (d : StreamDecoder) (u : S)
      → ((pos : ℕ) (d : StreamDecoder) (u : S) → r p pos d u ≡ resume k (r' p' pos d u))
      → emit_frame emit r f p pos d u ≡ resume k (emit_frame emit r' f p' pos d u)
  unfolding emit_frame
  emit_frame-resume r r' k f p p' pos d u h = elim (Bool-cases (selects d.protocols (protocol f))) [
    | inl taken ↦ rw taken (called-resume r r' k (emit f u) p p' pos _ h)
    | inr passed ↦ rw passed (h pos _ u)
  ]

  act-resume :
      (r r' k : Loop) (v : Verdict) (p q : List ℕ) (pos : ℕ) (d : StreamDecoder) (u : S)
      → v ≢ wait
      → Consumes v p
      → ((n pos : ℕ) (d : StreamDecoder) (u : S)
          → 1 ≤ n
          → n ≤ length p
          → r (drop n p ++ q) pos d u ≡ resume k (r' (drop n p) pos d u))
      → act emit r v (p ++ q) pos d u ≡ resume k (act emit r' v p pos d u)
  unfolding act
  act-resume r r' k wait p q pos d u ne c h = absurd (ne refl)
  act-resume r r' k noise p q pos d u ne c h =
      rw (drop-append 1 p q c) (h 1 (pos + 1) _ u (omega arith) c)
  act-resume r r' k (invalid n) p q pos d u ne c h =
      rw (drop-append n p q c.1) (h n (pos + n) _ u c.0 c.1)
  act-resume r r' k (found hd len start count) p q pos d u ne c h =
      rw (drop-append len p q c.1, slice-append 0 len p q (omega arith))
        (emit_frame-resume r r' k _ (drop len p ++ q) (drop len p) (pos + len) d u
          (λ pos d u. h len pos d u c.0 c.1))

  wait_dec : (v : Verdict) → (v ≡ wait) ⊎ (v ≢ wait)
  wait_dec wait = inl refl
  wait_dec noise = inr (λ e. cc)
  wait_dec (invalid n) = inr (λ e. cc)
  wait_dec (found hd len start count) = inr (λ e. cc)

  scan_waits :
      (g : ℕ) (x : ℕ) (xs : List ℕ) (pos : ℕ) (d : StreamDecoder) (u : S)
      → examine (x ∷ xs) ≡ wait
      → scan emit (suc g) (x ∷ xs) pos d u ≡ stopped (x ∷ xs) pos d u
  unfolding scan act
  scan_waits g x xs pos d u e = rw e

  scan_acts :
      (g : ℕ) (x : ℕ) (xs : List ℕ) (pos : ℕ) (d : StreamDecoder) (u : S)
      → scan emit (suc g) (x ∷ xs) pos d u
        ≡ act emit (scan emit g) (examine (x ∷ xs)) (x ∷ xs) pos d u
  unfolding scan
  scan_acts g x xs pos d u = refl

  scan-nil : (g pos : ℕ) (d : StreamDecoder) (u : S) → scan emit g [] pos d u ≡ stopped [] pos d u
  unfolding scan
  scan-nil zero pos d u = refl
  scan-nil (suc g) pos d u = refl

  pub scan-append :
      (f g : ℕ) (p q : List ℕ) (pos : ℕ) (d : StreamDecoder) (u : S)
      → HasShortLines p
      → length p + length q ≤ f
      → length p ≤ g
      → scan emit f (p ++ q) pos d u
        ≡ resume (λ r. scan emit (length (r ++ q)) (r ++ q)) (scan emit g p pos d u)
  scan-append f g [] q pos d u s hf hg =
      rw (scan-nil g pos d u) (scan_fuel f (length q) q pos d u (omega arith) (omega arith))
  scan-append zero g (x ∷ xs) q pos d u s hf hg = absurd (omega arith)
  scan-append (suc f) zero (x ∷ xs) q pos d u s hf hg = absurd (omega arith)
  scan-append (suc f) (suc g) (x ∷ xs) q pos d u s hf hg = elim (wait_dec (examine (x ∷ xs))) [
    | inl waits ↦ rw (scan_waits g x xs pos d u waits) (
        scan_fuel (suc f) (suc (length (xs ++ q))) (x ∷ (xs ++ q)) pos d u
          (omega (arith, length-append xs q)) (omega (arith, length-append xs q)))
    | inr goes ↦
        scan_acts f x (xs ++ q) pos d u
        ∙ ap (λ v. act emit (scan emit f) v ((x ∷ xs) ++ q) pos d u)
            (examine-append (x ∷ xs) q (omega arith) s.0 goes)
        ∙ act-resume (scan emit f) (scan emit g) (λ r. scan emit (length (r ++ q)) (r ++ q))
            (examine (x ∷ xs)) (x ∷ xs) q pos d u goes
            (examine-Consumes (x ∷ xs) _ (omega arith) refl)
            (λ n pos d u one inside.
              scan-append f g (drop n (x ∷ xs)) q pos d u (HasShortLines-drop n (x ∷ xs) s)
                (omega (arith, length-drop n (x ∷ xs))) (omega (arith, length-drop n (x ∷ xs))))
        ∙ ap (resume (λ r. scan emit (length (r ++ q)) (r ++ q))) (sym (scan_acts g x xs pos d u))
  ]
