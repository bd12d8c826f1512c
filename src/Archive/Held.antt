-- ===== src/Archive/Held.antt =====
-- What EpochAssembler holds between the epochs it has emitted and the frame it takes next.
use neo_gnss_observatory.Base.{
  ℕ, ◌+◌, ◌%◌, ◌^◌, ◌≤◌, ◌<◌, Bool, true, false, ◌≡◌, refl, sym, ◌∙◌, List, [], ◌∷◌, ◌++◌,
  if◌then◌else◌, length, arith,
}
use mathlib.Core.Path.{subst}
use neo_gnss_observatory.Base.Int.{ℤ}
use neo_gnss_observatory.Frame.{FrameView}
use neo_gnss_observatory.Archive.Epoch.{
  ArchiveEpoch, Event, emitted, on_frame, EpochAssembler, Float64, archive_partial, archive_eoe,
  hashed, with_times,
}
use neo_gnss_observatory.Archive.Assembler.{
  from_rawx, inferred, dated, closed, finished_epoch, finish, counted, added, finish_if,
  accept_numbered,
}
use neo_gnss_observatory.Archive.Scan.{lost}

-- The epochs cover the positions from `a` up to `c`, each at least one byte, in order.
abbrev pub Tiles : ℕ → ℕ → List Event → Type 0
Tiles a c [] = a ≡ c
Tiles a c (emitted e ∷ es) = (e.first ≡ a) × (a < e.last) × Tiles e.last c es
Tiles a c (on_frame ∷ es) = Tiles a c es

-- The bytes up to `a` are emitted, and the epoch being gathered holds those from `a` to `c`.
abbrev pub Holds : Bool → ArchiveEpoch → ℕ → ℕ → Type 0
Holds true e a c = (e.first ≡ a) × (a < c) × (e.last ≡ c)
Holds false e a c = a ≡ c

pub Tiles-append :
    (a b c : ℕ) (xs ys : List Event) → Tiles a b xs → Tiles b c ys → Tiles a c (xs ++ ys)
Tiles-append a b c [] ys h k = subst (λ x. Tiles x c ys) (sym h) k
Tiles-append a b c (emitted e ∷ xs) ys h k = (h.0, h.1, Tiles-append e.last b c xs ys h.2 k)
Tiles-append a b c (on_frame ∷ xs) ys h k = Tiles-append a b c xs ys h k

first-finished : (s : EpochAssembler) (extra : ℕ) → (finished_epoch s extra).first ≡ s.epoch.first
unfolding closed dated inferred from_rawx
first-finished s extra = ground arith

last-finished : (s : EpochAssembler) (extra : ℕ) → (finished_epoch s extra).last ≡ s.epoch.last
unfolding closed dated inferred from_rawx
last-finished s extra = ground arith

pub finish-Holds :
    (s : EpochAssembler) (extra a c : ℕ)
    → Holds s.active s.epoch a c
    → Tiles a c (finish s extra).1 × ((finish s extra).0.active ≡ false)
unfolding finish from_rawx inferred closed dated
finish-Holds s extra a c h = go s.active refl h
  where
    go :
        (b : Bool)
        → s.active ≡ b
        → Holds b s.epoch a c
        → Tiles a c (finish s extra).1 × ((finish s extra).0.active ≡ false)
    go true e k = rw e (
      (
        first-finished s extra ∙ k.0,
        subst (λ x. a < x) (sym (last-finished s extra ∙ k.2)) k.1,
        last-finished s extra ∙ k.2,
      ),
      refl,
    )
    go false e k = rw e (k, refl)

pub gap-Tiles : (noise here : ℕ) → noise ≤ here → Tiles noise here (lost noise here)
unfolding lost
gap-Tiles noise here le = ground arith

pub lost-Tiles :
    (b : Bool) (e : ArchiveEpoch) (a noise here : ℕ)
    → Holds b e a noise
    → noise ≤ here
    → (b ≡ true → noise ≡ here)
    → (m : ℕ) × Tiles a m (lost noise here) × Holds b e m here
unfolding lost
lost-Tiles true e a noise here h le active =
    (a, ground (active refl, arith), (h.0, ground (active refl, arith), h.2 ∙ active refl))
lost-Tiles false e a noise here h le active =
    (here, subst (λ x. Tiles x here (lost noise here)) (sym h) (gap-Tiles noise here le), refl)

-- What `added` does to the extent of the epoch.
first-added :
    (fl : Float64) (f : FrameView) (n : ℕ) (raw tow : ℤ) (s : EpochAssembler)
    → (added fl f n raw tow s).epoch.first ≡ (if s.active then s.epoch.first else f.offset)
unfolding added hashed with_times counted
first-added fl f n raw tow s = ground arith

last-added :
    (fl : Float64) (f : FrameView) (n : ℕ) (raw tow : ℤ) (s : EpochAssembler)
    → (added fl f n raw tow s).epoch.last ≡ (f.offset + length f.wire) % 2 ^ 64
unfolding added hashed with_times counted
last-added fl f n raw tow s = ground arith

active-added :
    (fl : Float64) (f : FrameView) (n : ℕ) (raw tow : ℤ) (s : EpochAssembler)
    → (added fl f n raw tow s).active ≡ true
unfolding added
active-added fl f n raw tow s = refl

-- The frame is put behind what the assembler holds.
added-Holds :
    (fl : Float64) (f : FrameView) (n : ℕ) (raw tow : ℤ) (s : EpochAssembler) (a : ℕ)
    → Holds s.active s.epoch a f.offset
    → 0 < length f.wire
    → f.offset + length f.wire < 2 ^ 64
    → Holds
        (added fl f n raw tow s).active
        (added fl f n raw tow s).epoch
        a
        (f.offset + length f.wire)
added-Holds fl f n raw tow s a h some_bytes small = rw (active-added fl f n raw tow s) (
  first-added fl f n raw tow s ∙ start s.active h,
  later s.active h,
  last-added fl f n raw tow s ∙ ground arith,
)
  where
    start : (b : Bool) → Holds b s.epoch a f.offset → (if b then s.epoch.first else f.offset) ≡ a
    start true k = k.0
    start false k = sym k

    later : (b : Bool) → Holds b s.epoch a f.offset → a < f.offset + length f.wire
    later true k = ground (k.1, some_bytes, arith)
    later false k = ground arith

finish_if-Holds :
    (b : Bool) (extra : ℕ) (s : EpochAssembler) (a c : ℕ)
    → Holds s.active s.epoch a c
    → (m : ℕ) × Tiles a m (finish_if b extra s).1
      × Holds (finish_if b extra s).0.active (finish_if b extra s).0.epoch m c
unfolding finish_if
finish_if-Holds false extra s a c h = (a, refl, h)
finish_if-Holds true extra s a c h =
    let k = finish-Holds s extra a c h in
    (c, k.0, subst (λ b. Holds b (finish s extra).0.epoch c c) (sym k.1) refl)

-- A frame is put in by `g` between two conditional calls of `finish`.
around-Holds :
    (c1 c2 cb : Bool) (g : EpochAssembler → EpochAssembler) (s : EpochAssembler) (a c c' : ℕ)
    → Holds s.active s.epoch a c
    → ((s : EpochAssembler) (a : ℕ)
        → Holds s.active s.epoch a c
        → Holds (g s).active (g s).epoch a c')
    → let q = finish_if c1 archive_partial s in
      let r = finish_if c2 archive_eoe (g q.0) in
      (m : ℕ) × Tiles a m (q.1 ++ ((if cb then on_frame ∷ [] else []) ++ r.1))
      × Holds r.0.active r.0.epoch m c'
around-Holds c1 c2 cb g s a c c' h put =
    let q = finish_if c1 archive_partial s in
    let r = finish_if c2 archive_eoe (g q.0) in
    let k = finish_if-Holds c1 archive_partial s a c h in
    let l = finish_if-Holds c2 archive_eoe (g q.0) k.0 c' (put q.0 k.0 k.2) in
    (l.0, Tiles-append a k.0 l.0 q.1 _ k.1 (callback cb k.0 l.0 r.1 l.1), l.2)
  where
    callback :
        (b : Bool) (m c : ℕ) (es : List Event)
        → Tiles m c es
        → Tiles m c ((if b then on_frame ∷ [] else []) ++ es)
    callback true m c es t = t
    callback false m c es t = t

pub accept_numbered-Holds :
    (fl : Float64) (cb : Bool) (f : FrameView) (n : ℕ) (s : EpochAssembler) (a : ℕ)
    → Holds s.active s.epoch a f.offset
    → 0 < length f.wire
    → f.offset + length f.wire < 2 ^ 64
    → (m : ℕ) × Tiles a m (accept_numbered fl cb f n s).1
      × Holds
          (accept_numbered fl cb f n s).0.active
          (accept_numbered fl cb f n s).0.epoch
          m
          (f.offset + length f.wire)
unfolding accept_numbered
accept_numbered-Holds fl cb f n s a h some_bytes small =
    around-Holds _ _ cb (added fl f n _ _) s a f.offset (f.offset + length f.wire) h
      (λ s a k. added-Holds fl f n _ _ s a k some_bytes small)
