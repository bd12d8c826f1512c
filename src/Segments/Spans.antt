-- ===== src/Segments/Spans.antt =====
-- Which bytes are in spans, and what State::append, State::quarantine and the filling of an
-- artifact in libneognss-obs/src/reconstruction.cpp do to them.
use neo_gnss_observatory.Base.{
  ℕ, zero, suc, ◌+◌, ◌≤◌, ◌≡◌, refl, sym, ap₂, true, ◌&&◌, List, [], ◌∷◌, Option, none, some, arith,
  ltb, leb, ◌==◌, if◌then◌else◌, All, Bool-cases, inl, inr,
}
use neo_gnss_observatory.Base.Int.{ℤ}
use neo_gnss_observatory.Wire.Text.{equals}
use neo_gnss_observatory.Segments.Plan.{
  Span, Member, Segment, Planner, no_nav_interval, append, set_aside, precedes, quarantine,
  quarantine_all,
}
use neo_gnss_observatory.Segments.Flush.{append_all, at_index, filled}

pub equals→same : (a b : List ℕ) → equals a b ≡ true → a ≡ b
unfolding equals
equals→same [] [] e = refl
equals→same (a ∷ as') (b ∷ bs) e =
    let h : (a ≡ b) × (equals as' bs ≡ true) = ground arith in
    ap₂ (λ x xs. x ∷ xs) h.0 (equals→same as' bs h.1)
equals→same [] (b ∷ bs) e = ground arith
equals→same (a ∷ as') [] e = ground arith

abbrev pub holds : List ℕ → ℕ → (source : List ℕ) (first last : ℕ) → ℕ
holds path x source first last = if equals source path && (leb first x && ltb x last) then 1 else 0

-- In how many of the spans the byte `x` of the source `path` is.
abbrev pub hits : List ℕ → ℕ → List Span → ℕ
hits path x [] = 0
hits path x (s ∷ rest) = holds path x s.source s.first s.last + hits path x rest

abbrev pub IsForward : Span → Type 0
IsForward s = s.first ≤ s.last

abbrev pub OnSome : {A : Type 0} → (A → Type 0) → Option A → Type 0
OnSome P none = Unit
OnSome P (some a) = P a

abbrev pub IsForwardEntry : List ℕ × List Span → Type 0
IsForwardEntry entry = All IsForward entry.1

abbrev pub IsForwardMember : Member → Type 0
IsForwardMember m = m.epoch.first ≤ m.epoch.last

abbrev pub IsForwardSegment : Segment → Type 0
IsForwardSegment a = All IsForward a.spans

pub append-AllForward :
    (spans : List Span) (q : List ℕ) (b e : ℕ)
    → All IsForward spans
    → b ≤ e
    → All IsForward (append spans q b e)
unfolding append
append-AllForward [] q b e f h = (h, tt)
append-AllForward (s ∷ []) q b e f h = ground arith
append-AllForward (s ∷ t ∷ rest) q b e f h = (f.0, append-AllForward (t ∷ rest) q b e f.1 h)

pub set_aside-AllForward :
    (entries : List (List ℕ × List Span)) (q : List ℕ) (b e : ℕ)
    → All IsForwardEntry entries
    → b ≤ e
    → All IsForwardEntry (set_aside entries q b e)
unfolding set_aside append
set_aside-AllForward [] q b e f h = ((h, tt), tt)
set_aside-AllForward (entry ∷ rest) q b e f h = elim (Bool-cases (equals entry.0 q)) [
  | inl y ↦ rw y (append-AllForward entry.1 q b e f.0 h, f.1)
  | inr n ↦ rw n (elim (Bool-cases (precedes q entry.0)) [
    | inl p ↦ rw p ((h, tt), f)
    | inr m ↦ rw m (f.0, set_aside-AllForward rest q b e f.1 h)
  ])
]

append_all-AllForward :
    (ms : List Member) (spans : List Span)
    → All IsForward spans
    → All IsForwardMember ms
    → All IsForward (append_all ms spans)
unfolding append_all
append_all-AllForward [] spans f g = f
append_all-AllForward (m ∷ ms) spans f g =
    append_all-AllForward ms (append spans m.path m.epoch.first m.epoch.last)
      (append-AllForward spans m.path m.epoch.first m.epoch.last f g.0) g.1

pub quarantine_all-AllForward :
    (ms : List Member) (s : Planner)
    → All IsForwardEntry s.unassigned
    → All IsForwardMember ms
    → All IsForwardEntry (quarantine_all ms s).unassigned
unfolding quarantine_all quarantine
quarantine_all-AllForward [] s f g = f
quarantine_all-AllForward (m ∷ ms) s f g =
    quarantine_all-AllForward ms (quarantine no_nav_interval m.path m.epoch s)
      (set_aside-AllForward s.unassigned m.path m.epoch.first m.epoch.last f g.0) g.1

module _ (path : List ℕ) (x : ℕ) where
  holds_joined :
      (q : List ℕ) (a b c : ℕ)
      → a ≤ b
      → b ≤ c
      → holds path x q a c ≡ holds path x q a b + holds path x q b c
  holds_joined q a b c h k = elim (Bool-cases (equals q path)) [
    | inl e ↦ ground arith
    | inr e ↦ ground arith
  ]

  pub append-hits :
      (spans : List Span) (q : List ℕ) (b e : ℕ)
      → All IsForward spans
      → b ≤ e
      → hits path x (append spans q b e) ≡ hits path x spans + holds path x q b e
  unfolding append
  append-hits [] q b e f h = omega arith
  append-hits (s ∷ []) q b e f h = elim (Bool-cases (equals s.source q && s.last == b)) [
    | inr n ↦ rw n (omega arith)
    | inl y ↦
        let k : (equals s.source q ≡ true) × (s.last ≡ b) = ground arith in
        rw (y, sym (equals→same s.source q k.0), sym k.1)
          (omega (arith, holds_joined s.source s.first s.last e f.0 (omega (arith, k.1))))
  ]
  append-hits (s ∷ t ∷ rest) q b e f h = omega (arith, append-hits (t ∷ rest) q b e f.1 h)

  abbrev pub group_hits : List Member → ℕ
  group_hits [] = 0
  group_hits (m ∷ ms) = holds path x m.path m.epoch.first m.epoch.last + group_hits ms

  abbrev pub aside_hits : List (List ℕ × List Span) → ℕ
  aside_hits [] = 0
  aside_hits (entry ∷ rest) = hits path x entry.1 + aside_hits rest

  abbrev pub artifact_hits : List Segment → ℕ
  artifact_hits [] = 0
  artifact_hits (a ∷ rest) = hits path x a.spans + artifact_hits rest

  pub set_aside-hits :
      (entries : List (List ℕ × List Span)) (q : List ℕ) (b e : ℕ)
      → All IsForwardEntry entries
      → b ≤ e
      → aside_hits (set_aside entries q b e) ≡ aside_hits entries + holds path x q b e
  unfolding set_aside append
  set_aside-hits [] q b e f h = omega arith
  set_aside-hits (entry ∷ rest) q b e f h = elim (Bool-cases (equals entry.0 q)) [
    | inl y ↦ rw y (omega (arith, append-hits entry.1 q b e f.0 h))
    | inr n ↦ rw n (elim (Bool-cases (precedes q entry.0)) [
      | inl p ↦ rw p (omega arith)
      | inr m ↦ rw m (omega (arith, set_aside-hits rest q b e f.1 h))
    ])
  ]

  append_all-hits :
      (ms : List Member) (spans : List Span)
      → All IsForward spans
      → All IsForwardMember ms
      → hits path x (append_all ms spans) ≡ hits path x spans + group_hits ms
  unfolding append_all
  append_all-hits [] spans f g = omega arith
  append_all-hits (m ∷ ms) spans f g = omega (
    arith,
    append_all-hits ms (append spans m.path m.epoch.first m.epoch.last)
        (append-AllForward spans m.path m.epoch.first m.epoch.last f g.0) g.1,
    append-hits spans m.path m.epoch.first m.epoch.last f g.0,
  )

  pub quarantine_all-hits :
      (ms : List Member) (s : Planner)
      → All IsForwardEntry s.unassigned
      → All IsForwardMember ms
      → aside_hits (quarantine_all ms s).unassigned ≡ aside_hits s.unassigned + group_hits ms
  unfolding quarantine_all quarantine
  quarantine_all-hits [] s f g = omega arith
  quarantine_all-hits (m ∷ ms) s f g = omega (
    arith,
    quarantine_all-hits ms (quarantine no_nav_interval m.path m.epoch s)
        (set_aside-AllForward s.unassigned m.path m.epoch.first m.epoch.last f g.0) g.1,
    set_aside-hits s.unassigned m.path m.epoch.first m.epoch.last f g.0,
  )

  -- The artifact that a group is written to has the group's bytes in addition.
  abbrev pub IsFilled : List Member → List Segment → List Segment → Type 0
  IsFilled group as' bs =
      (artifact_hits bs ≡ artifact_hits as' + group_hits group) × All IsForwardSegment bs

  pub at_index-hits :
      (i : ℕ) (group : List Member) (time : ℤ) (as' : List Segment)
      → All IsForwardSegment as'
      → All IsForwardMember group
      → OnSome (IsFilled group as') (at_index i (filled group time) as')
  unfolding filled
  at_index-hits i group time [] f g = tt
  at_index-hits zero group time (a ∷ rest) f g = (
    omega (arith, append_all-hits group a.spans f.0 g),
    (append_all-AllForward group a.spans f.0 g, f.1),
  )
  at_index-hits (suc i) group time (a ∷ rest) f g =
      under (at_index i (filled group time) rest) (at_index-hits i group time rest f.1 g)
    where
      under :
          (o : Option (List Segment))
          → OnSome (IsFilled group rest) o
          → OnSome (IsFilled group (a ∷ rest)) (elim o [ none ↦ none | some r ↦ some (a ∷ r) ])
      under none h = tt
      under (some r) h = (omega (arith, h.0), (f.0, h.1))
