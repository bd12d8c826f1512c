-- ===== src/PppB2b/Rows.antt =====
-- The messages that decode_pppb2b of libneognss-obs/src/broadcast_pppb2b.cpp decodes are in range.
use neo_gnss_observatory.Base.{
  ℕ, ◌+◌, ◌-◌, ◌*◌, false, ◌||◌, not, List, [], ◌∷◌, Option, ltb, ◌==◌, if◌then◌else◌,
}
use neo_gnss_observatory.Base.Int.{ℤ}
use neo_gnss_observatory.Wire.Cursor.{BroadcastBits}
use neo_gnss_observatory.Base.{◌++◌}
use neo_gnss_observatory.PppB2b.{◌>>=◌, pure, u, s, header}
use neo_gnss_observatory.PppB2b.Decode.{
  orbits, mask_message, bias_message, clock_message, ura_message, group_counts, clock_group,
  orbit_group,
}
use neo_gnss_observatory.Base.{◌≤◌, ◌<◌, ◌≡◌, arith, All}
use neo_gnss_observatory.PppB2b.Decode.{
  loop, is_slot, direct_entry, ordinal_entry, mask_bit, bias_entry, satellite_biases, concat,
  ura_entry, masked_clocks, direct_clocks,
}
use neo_gnss_observatory.PppB2b.Dispatch.{
  corrections, Tried, tried, with_orbits, with_clocks, with_counts,
}
use neo_gnss_observatory.PppB2b.{Row}
use neo_gnss_observatory.Base.{Bool, none, some, true, refl}
use neo_gnss_observatory.PppB2b.Ranges.{OnPair, IsValidRow}
use neo_gnss_observatory.PppB2b.Ranges.{
  OnRead, OnRead-through, OnRead->>=, OnRead-throw_if, OnRead-if, OnKept, loop-All, keep_if-OnKept,
  IsSlot, IsOrdinal, HasSlot, HasOrdinal, AllRows, is_slot-IsSlot, ordinal_entry-Ordinal,
  direct_entry-Slot, orbits-Valid,
}

append-All : {A : Type 0} (Q : A → Type 0) (xs ys : List A) → All Q xs → All Q ys → All Q (xs ++ ys)
append-All Q [] ys h k = k
append-All Q (x ∷ xs) ys h k = (h.0, append-All Q xs ys h.1 k)

concat-All :
    {A : Type 0} (Q : A → Type 0) (xss : List (List A)) → All (All Q) xss → All Q (concat xss)
concat-All Q [] h = tt
concat-All Q (xs ∷ rest) h = append-All Q xs (concat rest) h.0 (concat-All Q rest h.1)

below_limit : (limit n : ℕ) → ltb limit n ≡ false → n ≤ limit
below_limit limit n h = ground arith

ordinals_within :
    (start nc : ℕ)
    → ltb start 1 || ltb 255 (start + nc - 1) ≡ false
    → (1 ≤ start) × (start + nc ≤ 256)
ordinals_within start nc h = ground arith

module _ (b : BroadcastBits) (time : Option ℤ) (limit : ℕ) where
  mask_bit-Ordinal : (i : ℕ) → 1 ≤ i → i ≤ 255 → OnRead (OnKept (IsOrdinal 255)) (mask_bit b i)
  unfolding mask_bit
  mask_bit-Ordinal i l h =
      OnRead->>= _ (u b 1) _ (λ v p. keep_if-OnKept (IsOrdinal 255) (not (v == 0)) i (λ e. (l, h)))

  mask_message-Valid : OnRead (AllRows limit) (mask_message b time)
  unfolding mask_message
  mask_message-Valid = OnRead->>= _ (header b time 0) _ (λ h. OnRead->>= _ (u b 4) _ (λ p.
      OnRead-through (All (IsOrdinal 255)) (AllRows limit) (loop 1 255 (mask_bit b)) _
        (loop-All (IsOrdinal 255) 1 255 (mask_bit b)
          (λ j l g. mask_bit-Ordinal j l (omega (arith, g))))
        (λ slots k q. (k, tt))))

  bias_entry-Slot : (n j : ℕ) → OnRead (OnKept (λ x. IsSlot x.slot)) (bias_entry b n j)
  unfolding bias_entry
  bias_entry-Slot n j = OnRead->>= _ (u b 4) _ (λ signal.
      OnRead->>= _ (s b 12) _ (λ value p. keep_if-OnKept _ (is_slot n) _ (is_slot-IsSlot n)))

  satellite_biases-Slots :
      (i : ℕ) → OnRead (OnKept (All (λ x. IsSlot x.slot))) (satellite_biases b i)
  unfolding satellite_biases
  satellite_biases-Slots i = OnRead->>= _ (u b 9) _ (λ n. OnRead->>= _ (u b 4) _ (λ m.
      OnRead-through (All (λ x. IsSlot x.slot)) _ (loop 0 m (bias_entry b n)) _
        (loop-All (λ x. IsSlot x.slot) 0 m (bias_entry b n) (λ j l g. bias_entry-Slot n j))
        (λ found k p. k)))

  bias_message-Valid : OnRead (AllRows limit) (bias_message b time)
  unfolding bias_message
  bias_message-Valid = OnRead->>= _ (header b time 86400) _ (λ h. OnRead->>= _ (u b 5) _ (λ n.
      OnRead-through (All (All (λ x. IsSlot x.slot))) (AllRows limit)
        (loop 0 n (satellite_biases b)) _
        (loop-All (All (λ x. IsSlot x.slot)) 0 n (satellite_biases b)
          (λ j l g. satellite_biases-Slots j))
        (λ found k p. (concat-All (λ x. IsSlot x.slot) found k, tt))))

  clock_message-Valid : 276 ≤ limit → OnRead (AllRows limit) (clock_message b time)
  unfolding clock_message
  clock_message-Valid enough = OnRead->>= _ (header b time 12) _ (λ h. OnRead->>= _ (u b 4) _ (λ p.
      OnRead->>= _ (u b 5) _ (λ sub. OnRead-throw_if (AllRows limit) (ltb 11 sub) _ (λ e.
        let m = below_limit 11 sub e in
        OnRead-through (All (HasOrdinal limit)) (AllRows limit)
          (loop 0 23 (ordinal_entry b (sub * 23 + 1))) _
          (loop-All (HasOrdinal limit) 0 23 (ordinal_entry b (sub * 23 + 1)) (λ j l g.
            ordinal_entry-Ordinal b limit (sub * 23 + 1) j (omega arith)
              (omega (arith, m, g, enough))))
          (λ entries k q. (k, tt))))))

  ura_entry-Ordinal :
      (sub i : ℕ)
      → sub ≤ 3
      → i < 70
      → OnRead (OnKept (λ x. IsOrdinal 280 x.mask_ordinal)) (ura_entry b sub i)
  unfolding ura_entry
  ura_entry-Ordinal sub i l h =
      OnRead->>= _ (u b 6) _ (λ index p. (omega arith, omega (arith, l, h)))

  ura_message-Valid : OnRead (AllRows limit) (ura_message b time)
  unfolding ura_message
  ura_message-Valid = OnRead->>= _ (header b time 96) _ (λ h. OnRead->>= _ (u b 4) _ (λ p.
      OnRead->>= _ (u b 3) _ (λ sub. OnRead-throw_if (AllRows limit) (ltb 3 sub) _ (λ e.
        OnRead-through (All (λ x. IsOrdinal 280 x.mask_ordinal)) (AllRows limit)
          (loop 0 70 (ura_entry b sub)) _
          (loop-All (λ x. IsOrdinal 280 x.mask_ordinal) 0 70 (ura_entry b sub)
            (λ j l g. ura_entry-Ordinal sub j (below_limit 3 sub e) (omega (arith, g))))
          (λ entries k q. (k, tt))))))

  masked_clocks-Valid : 255 ≤ limit → (nc : ℕ) → OnRead (AllRows limit) (masked_clocks b time nc)
  unfolding masked_clocks
  masked_clocks-Valid enough nc = OnRead->>= _ (header b time 12) _ (λ h.
      OnRead->>= _ (u b 4) _ (λ p. OnRead->>= _ (u b 9) _ (λ start.
        OnRead-throw_if (AllRows limit) (ltb start 1 || ltb 255 (start + nc - 1)) _ (λ e.
          let m = ordinals_within start nc e in
          OnRead-through (All (HasOrdinal limit)) (AllRows limit)
            (loop 0 nc (ordinal_entry b start)) _
            (loop-All (HasOrdinal limit) 0 nc (ordinal_entry b start) (λ j l g.
              ordinal_entry-Ordinal b limit start j (omega (arith, m.0))
                (omega (arith, m.1, g, enough))))
            (λ entries k q. (k, tt))))))

  direct_clocks-Valid : (nc : ℕ) → OnRead (AllRows limit) (direct_clocks b time nc)
  unfolding direct_clocks
  direct_clocks-Valid nc = OnRead->>= _ (header b time 12) _ (λ h.
      OnRead-through (All HasSlot) (AllRows limit) (loop 0 nc (direct_entry b)) _
        (loop-All HasSlot 0 nc (direct_entry b) (λ j l g. direct_entry-Slot b j))
        (λ entries k p. (k, tt)))

  clock_group-Valid :
      (type : ℕ) → 255 ≤ limit → (nc : ℕ) → OnRead (AllRows limit) (clock_group b time type nc)
  unfolding clock_group
  clock_group-Valid type enough nc =
      OnRead-if (AllRows limit) (nc == 0) (pure []) _ (λ p. tt)
        (OnRead-if (AllRows limit) (type == 6) (masked_clocks b time nc) (direct_clocks b time nc)
          (masked_clocks-Valid enough nc) (direct_clocks-Valid nc))

  orbit_group-Valid : (n : ℕ) → OnRead (AllRows limit) (orbit_group b time n)
  unfolding orbit_group
  orbit_group-Valid n =
      OnRead-if (AllRows limit) (n == 0) (pure []) _ (λ p. tt)
        (OnRead->>= (AllRows limit) (header b time 96) (orbits b n) (λ h. orbits-Valid b limit n h))

  tried-Valid :
      (o : Option (List (Row × Bool) × ℕ)) → OnPair (AllRows limit) o → AllRows limit (tried o).0
  tried-Valid none h = tt
  tried-Valid (some r) h = h

  with_orbits-Valid :
      (clocks : List (Row × Bool)) (o : Option (List (Row × Bool) × ℕ))
      → AllRows limit clocks
      → OnPair (AllRows limit) o
      → AllRows limit (with_orbits clocks o).0
  with_orbits-Valid clocks none h k = h
  with_orbits-Valid clocks (some r) h k = append-All (λ r. IsValidRow limit r.0) clocks r.0 h k

  with_clocks-Valid :
      (n : ℕ) (o : Option (List (Row × Bool) × ℕ))
      → OnPair (AllRows limit) o
      → AllRows limit (with_clocks b time n o).0
  with_clocks-Valid n none h = tt
  with_clocks-Valid n (some r) h =
      with_orbits-Valid r.0 (orbit_group b time n r.1) h (orbit_group-Valid n r.1)

  with_counts-Valid :
      (type : ℕ) (o : Option ((ℕ × ℕ) × ℕ))
      → 255 ≤ limit
      → AllRows limit (with_counts b time type o).0
  with_counts-Valid type none enough = tt
  with_counts-Valid type (some r) enough =
      with_clocks-Valid r.0.1 (clock_group b time type r.0.0 r.1)
        (clock_group-Valid type enough r.0.0 r.1)

  tried_if :
      (c : Bool) (x y : Tried)
      → (c ≡ true → AllRows limit x.0)
      → (c ≡ false → AllRows limit y.0)
      → AllRows limit (if c then x else y).0
  tried_if true x y h k = h refl
  tried_if false x y h k = k refl

  corrections_within :
      (type p : ℕ)
      → 255 ≤ limit
      → (type == 4 ≡ true → 276 ≤ limit)
      → AllRows limit (corrections b time type p).0
  unfolding corrections
  corrections_within type p enough more =
      tried_if (type == 1) _ _ (λ e. tried-Valid (mask_message b time p) (mask_message-Valid p))
        (λ e.
          tried_if (type == 2) _ _
            (λ e.
              tried-Valid ((header b time 96 >>= orbits b 6) p)
                (OnRead->>= _ (header b time 96) _ (λ h. orbits-Valid b limit 6 h) p))
            (λ e.
              tried_if (type == 3) _ _
                (λ e. tried-Valid (bias_message b time p) (bias_message-Valid p))
                (λ e.
                  tried_if (type == 4) _ _
                    (λ e. tried-Valid (clock_message b time p) (clock_message-Valid (more e) p))
                    (λ e.
                      tried_if (type == 5) _ _
                        (λ e. tried-Valid (ura_message b time p) (ura_message-Valid p))
                        (λ e. with_counts-Valid type (group_counts b type p) enough)))))

-- The highest mask ordinal that the clocks of a message of this type can have.
abbrev pub clock_limit : ℕ → ℕ
clock_limit type = if type == 4 then 276 else 255

pub corrections-Valid :
    (b : BroadcastBits) (time : Option ℤ) (type p : ℕ)
    → AllRows (clock_limit type) (corrections b time type p).0
corrections-Valid b time type p =
    corrections_within b time (clock_limit type) type p (ground arith) (ground arith)
