-- ===== src/Archive/Partition.antt =====
-- scan_archive emits a partition of the bytes: each epoch begins where the one before it ended.
use neo_gnss_observatory.Base.{
  ℕ, zero, suc, ◌+◌, ◌*◌, ◌^◌, ◌≤◌, ◌<◌, true, false, ◌≡◌, refl, ◌∙◌, List, [], ◌∷◌, ◌++◌, Option,
  none, some, ltb, length, drop, take, arith, Bool-cases, ltb→lt, inl, inr, length-drop,
  length-take,
}
use mathlib.Core.Path.{subst}
use neo_gnss_observatory.Frame.{id, header_id}
use neo_gnss_observatory.Archive.Epoch.{
  Event, emitted, EpochAssembler, assembler, Float64, at, archive_partial, archive_noise,
  archive_foreign_protocol,
}
use neo_gnss_observatory.Archive.Assembler.{finish, accept_numbered, accept}
use neo_gnss_observatory.Archive.Scan.{
  marked, sbf_size, ubx_length, lost, ubx_frame, Turn, accepted, turn, scan_from, scan_archive,
}
use neo_gnss_observatory.Archive.Held.{
  Tiles, Holds, Tiles-append, finish-Holds, gap-Tiles, lost-Tiles, accept_numbered-Holds,
}

sbf_size-le : (p : List ℕ) → sbf_size p ≤ length p
unfolding sbf_size
sbf_size-le p = ground arith

ubx_length-le : (p : List ℕ) → ubx_length p ≤ length p
unfolding ubx_length
ubx_length-le p = ground arith

-- What one turn leaves, when the bytes before `c` are in the epochs or in the assembler.
abbrev Advances : ℕ → ℕ → ℕ → Option Turn → Type 0
Advances a total left none = ⊥
Advances a total left (some t) =
    (m : ℕ) × Tiles a m t.events
    × Holds t.state.active t.state.epoch m t.noise
    × t.noise ≤ t.here
    × (t.state.active ≡ true → t.noise ≡ t.here)
    × (t.here + length t.rest ≡ total)
    × length t.rest < left

-- After `finish` nothing is held.
idle : (s : EpochAssembler) (m : ℕ) → s.active ≡ false → Holds s.active s.epoch m m
idle s m e = rw e refl

idle-only : (s : EpochAssembler) {A : Type 0} → s.active ≡ false → s.active ≡ true → A
idle-only s e k = absurd (cc (e, k))

module _ (fl : Float64) (s : EpochAssembler) (a pos noise : ℕ) (b : ℕ) (bs : List ℕ) where
  -- The conditions on the variables of the loop.
  abbrev Goes : Type 0
  Goes =
      Holds s.active s.epoch a noise
      × (noise ≤ pos)
      × (s.active ≡ true → noise ≡ pos)
      × (pos + suc (length bs) < 2 ^ 64)

  accepted-Advances :
      (len : ℕ)
      → Goes
      → 0 < len
      → len ≤ suc (length bs)
      → Advances a (pos + suc (length bs)) (suc (length bs)) (
          accepted
            (lost noise pos)
            (pos + len)
            (drop len (b ∷ bs))
            (accept fl false (ubx_frame pos len (b ∷ bs)) s))
  unfolding accept id header_id
  accepted-Advances len g some_bytes le =
      let wire : length (take len (b ∷ bs)) ≡ len = length-take len (b ∷ bs) ∙ ground (le, arith) in
      let n = at (b ∷ bs) 2 * 256 + at (b ∷ bs) 3 in
      let r = accept_numbered fl false (ubx_frame pos len (b ∷ bs)) n s in
      let l = lost-Tiles s.active s.epoch a noise pos g.0 g.1 g.2 in
      let k =
        accept_numbered-Holds fl false (ubx_frame pos len (b ∷ bs)) n s l.0 l.2
          (ground (wire, some_bytes, arith)) (ground (wire, le, g.3, arith)) in
      let left = length-drop len (b ∷ bs) in
      (
        k.0,
        Tiles-append a l.0 k.0 (lost noise pos) r.1 l.1 k.1,
        subst (λ x. Holds r.0.active r.0.epoch k.0 (pos + x)) wire k.2,
        ground arith,
        (λ e. refl),
        ground (left, le, arith),
        ground (left, some_bytes, arith),
      )

  turn-Advances :
      Goes → Advances a (pos + suc (length bs)) (suc (length bs)) (turn fl s pos noise b bs)
  unfolding turn
  turn-Advances g = elim (Bool-cases (ltb 0 (sbf_size (b ∷ bs)))) [
    | inl e ↦ rw e (
        let f = finish-Holds s archive_partial a noise g.0 in
        let size = sbf_size (b ∷ bs) in
        let le = sbf_size-le (b ∷ bs) in
        let left = length-drop size (b ∷ bs) in
        let foreign : Tiles pos (pos + size)
            (emitted (marked pos (pos + size) (archive_noise + archive_foreign_protocol)) ∷ []) =
          (refl, ground (ltb→lt _ _ e, arith), refl) in
        (
          pos + size,
          Tiles-append a noise (pos + size) (finish s archive_partial).1 _ f.0 (
              Tiles-append noise pos (pos + size) (lost noise pos) _ (gap-Tiles noise pos g.1)
                foreign),
          idle (finish s archive_partial).0 (pos + size) f.1,
          ground arith,
          idle-only (finish s archive_partial).0 f.1,
          ground (left, le, arith),
          ground (left, ltb→lt _ _ e, arith),
        ))
    | inr e ↦ rw e (elim (Bool-cases (ltb 0 (ubx_length (b ∷ bs)))) [
      | inl u ↦ rw u (accepted-Advances _ g (ltb→lt _ _ u) (ubx_length-le (b ∷ bs)))
      | inr u ↦ rw u (
          let f = finish-Holds s archive_partial a noise g.0 in
          (
            noise,
            f.0,
            idle (finish s archive_partial).0 noise f.1,
            ground (g.1, arith),
            idle-only (finish s archive_partial).0 f.1,
            ground arith,
            ground arith,
          ))
    ])
  ]

scan_from-some :
    (fl : Float64) (fuel : ℕ) (s : EpochAssembler) (pos noise b : ℕ) (bs : List ℕ) (t : Turn)
    (es : List Event)
    → turn fl s pos noise b bs ≡ some t
    → scan_from fl fuel t.state t.here t.noise t.rest ≡ some es
    → scan_from fl (suc fuel) s pos noise (b ∷ bs) ≡ some (t.events ++ es)
unfolding scan_from
scan_from-some fl fuel s pos noise b bs t es e h = rw (e, h, scan_from)

scan_from-Tiles :
    (fl : Float64) (fuel : ℕ) (s : EpochAssembler) (a pos noise : ℕ) (p : List ℕ)
    → length p ≤ fuel
    → Holds s.active s.epoch a noise
    → noise ≤ pos
    → (s.active ≡ true → noise ≡ pos)
    → pos + length p < 2 ^ 64
    → (es : List Event) × (scan_from fl fuel s pos noise p ≡ some es) × Tiles a (pos + length p) es
unfolding scan_from
scan_from-Tiles fl fuel s a pos noise [] k h le act small =
    let f = finish-Holds s archive_partial a noise h in
    (
      _,
      refl,
      Tiles-append a noise (pos + 0) (finish s archive_partial).1 _ f.0
          (subst (λ x. Tiles noise x (lost noise pos)) (omega arith) (gap-Tiles noise pos le)),
    )
scan_from-Tiles fl zero s a pos noise (b ∷ bs) k h le act small = absurd (omega arith)
scan_from-Tiles fl (suc fuel) s a pos noise (b ∷ bs) k h le act small =
    go (turn fl s pos noise b bs) refl (turn-Advances fl s a pos noise b bs (h, le, act, small))
      (λ t m r. scan_from-Tiles fl fuel t.state m t.here t.noise t.rest r)
  where
    go :
        (o : Option Turn)
        → turn fl s pos noise b bs ≡ o
        → Advances a (pos + suc (length bs)) (suc (length bs)) o
        → ((t : Turn) (m : ℕ)
            → length t.rest ≤ fuel
            → Holds t.state.active t.state.epoch m t.noise
            → t.noise ≤ t.here
            → (t.state.active ≡ true → t.noise ≡ t.here)
            → t.here + length t.rest < 2 ^ 64
            → (es : List Event) × (scan_from fl fuel t.state t.here t.noise t.rest ≡ some es)
              × Tiles m (t.here + length t.rest) es)
        → (es : List Event) × (scan_from fl (suc fuel) s pos noise (b ∷ bs) ≡ some es)
          × Tiles a (pos + suc (length bs)) es
    go none e g on = absurd g
    go (some t) e g on =
        let less : length t.rest < suc (length bs) = g.6 in
        let total : t.here + length t.rest ≡ pos + suc (length bs) = g.5 in
        let r = on t g.0 (omega arith) g.2 g.3 g.4 (rw total small) in
        (
          t.events ++ r.0,
          scan_from-some fl fuel s pos noise b bs t r.0 e r.1,
          Tiles-append a g.0 (pos + suc (length bs)) t.events r.0 g.1
              (subst (λ x. Tiles g.0 x r.0) total r.2),
        )

-- For every input of fewer than 2^64 bytes scan_archive returns, and the epochs it emits are an
-- exhaustive, nonoverlapping partition of the bytes: the first begins at 0, each further one where
-- the one before it ends, none is empty, and the last ends at the number of bytes.
pub scan_archive-Tiles :
    (fl : Float64) (bytes : List ℕ)
    → length bytes < 2 ^ 64
    → (es : List Event) × (scan_archive fl bytes ≡ some es) × Tiles 0 (length bytes) es
unfolding scan_archive
scan_archive-Tiles fl bytes small =
    let zero_add : 0 + length bytes ≡ length bytes = omega arith in
    let r =
      scan_from-Tiles fl (length bytes) (assembler true) 0 0 0 bytes (omega arith) refl
        (omega arith) (λ e. refl) (rw zero_add small) in
    (r.0, r.1, subst (λ x. Tiles 0 x r.0) zero_add r.2)
