-- ===== src/Sbas/Valid/Entries.antt =====
-- The entries of the lists of the messages of libneognss-obs/src/sbas.cpp.
use neo_gnss_observatory.Base.{ℕ, ◌+◌, ◌*◌, ◌≤◌, Bool, true, false, not, ltb, if◌then◌else◌, All}
use neo_gnss_observatory.Sbas.Bits.{got, ◌>>=◌, BitView, unsigned_at, signed_at, flag_at, each}
use neo_gnss_observatory.Sbas.Content.{times, geo_almanac, long_term, mixed}
use neo_gnss_observatory.Sbas.Fields.{fast_entry, almanac_rest, almanac_entry, almanac_body}
use neo_gnss_observatory.Sbas.Corrections.{
  velocity_fields, long_rest, long_entry, long_half, mixed_body, long_term_body,
}
use neo_gnss_observatory.Sbas.Valid.{
  Post, Post->>=, Post-through, Post-reject, Post-each_from, kept-All, append-All, Post-unless_zero,
  OnSome, HasTime, IsLongTerm, IsSatellite, IsValid, within,
}

module _ (b : BitView) where
  almanac_rest-Post : (p n : ℕ) → 1 ≤ n → n ≤ 210 → Post (OnSome IsSatellite) (almanac_rest b p n)
  unfolding almanac_rest
  almanac_rest-Post p n l h = search (Post->>=, l, h) depth 30

  almanac_entry-Post : (p : ℕ) → Post (OnSome IsSatellite) (almanac_entry b p)
  unfolding almanac_entry
  almanac_entry-Post p =
      Post->>= _ (unsigned_at b (p + 2) 8) _
        (λ n. Post-unless_zero IsSatellite n 210 _ (λ l h. almanac_rest-Post p n l h))

  pub almanac_body-Post : Post (λ v. IsValid (geo_almanac v)) (almanac_body b)
  unfolding almanac_body
  almanac_body-Post = Post->>= _ (unsigned_at b 215 11) _ (λ sod.
      Post-reject _ (not (ltb (sod * 64) 86400)) _ (λ e.
        Post-through (All (OnSome IsSatellite)) _ (each 3 (λ i. almanac_entry b (14 + 67 * i))) _
          (Post-each_from (OnSome IsSatellite) 0 3 _ (λ i. almanac_entry-Post (14 + 67 * i)))
          (λ found h. (within (sod * 64) 86400 e, kept-All IsSatellite found h))))

  velocity_fields-Post : (p : ℕ) → Post HasTime (velocity_fields b p)
  unfolding velocity_fields
  velocity_fields-Post p =
      Post->>= HasTime (each 3 (λ j. signed_at b (p + 58 + 8 * j) 8 >>= λ r. got (times r 1 2048)))
        _
        (λ rates. Post->>= HasTime (signed_at b (p + 82) 8) _ (λ drift.
          Post->>= HasTime (unsigned_at b (p + 90) 13) _ (λ sod.
            Post-reject HasTime (not (ltb (sod * 16) 86400)) _ (λ e. within (sod * 16) 86400 e))))

  long_rest-Post :
      (p half iodp : ℕ) (velocity : Bool) (n : ℕ)
      → 1 ≤ n
      → n ≤ 51
      → Post (OnSome IsLongTerm) (long_rest b p half iodp velocity n)
  unfolding long_rest
  long_rest-Post p half iodp true n l h = Post->>= _ (unsigned_at b (p + 6) 8) _ (λ i.
      Post->>= _ (each 3 (λ j. signed_at b (p + 14 + 11 * j) 11 >>= λ d. got (times d 1 8))) _
        (λ deltas. Post->>= _ (signed_at b (p + 14 + 3 * 11) 11) _ (λ clock.
          Post-through HasTime _ (velocity_fields b p) _ (velocity_fields-Post p)
            (λ v t. (l, h, t)))))
  long_rest-Post p half iodp false n l h = Post->>= _ (unsigned_at b (p + 6) 8) _ (λ i.
      Post->>= _ (each 3 (λ j. signed_at b (p + 14 + 9 * j) 9 >>= λ d. got (times d 1 8))) _
        (λ deltas. Post->>= _ (signed_at b (p + 14 + 3 * 9) 10) _ (λ clock. (l, h, tt))))

  long_entry-Post :
      (p half iodp : ℕ) (velocity : Bool)
      → Post (OnSome IsLongTerm) (long_entry b p half iodp velocity)
  unfolding long_entry
  long_entry-Post p half iodp velocity =
      Post->>= _ (unsigned_at b p 6) _
        (λ n. Post-unless_zero IsLongTerm n 51 _ (λ l h. long_rest-Post p half iodp velocity n l h))

  long_half-Post : (start half : ℕ) → Post (All IsLongTerm) (long_half b start half)
  unfolding long_half
  long_half-Post start half = Post->>= _ (flag_at b start) _ (λ velocity.
      Post->>= _ (unsigned_at b (start + (if velocity then 104 else 103)) 2) _ (λ p.
        Post-through (All (OnSome IsLongTerm)) _ _ _
          (Post-each_from (OnSome IsLongTerm) 0 (if velocity then 1 else 2) _
            (λ i. long_entry-Post (start + 1 + 51 * i) half p velocity))
          (λ found h. kept-All IsLongTerm found h)))

  pub mixed_body-Post : Post (λ v. IsValid (mixed v)) (mixed_body b)
  unfolding mixed_body
  mixed_body-Post = Post->>= _ (unsigned_at b 110 2) _ (λ p.
      Post->>= _ (unsigned_at b 112 2) _ (λ block. Post->>= _ (unsigned_at b 114 2) _ (λ f.
        Post->>= _ (each 6 (λ i. fast_entry b (14 + i * 12) (86 + i * 4))) _ (λ entries.
          Post-through (All IsLongTerm) _ (long_half b 120 1) _ (long_half-Post 120 1)
            (λ long h. h)))))

  pub long_term_body-Post : Post (λ es. IsValid (long_term es)) (long_term_body b)
  unfolding long_term_body
  long_term_body-Post =
      Post-through (All IsLongTerm) _ (long_half b 14 0) _ (long_half-Post 14 0) (λ first h.
        Post-through (All IsLongTerm) _ (long_half b 120 1) _ (long_half-Post 120 1)
          (λ second k. append-All IsLongTerm first second h k))
