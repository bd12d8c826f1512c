-- ===== src/Sbas/Valid/Regions.antt =====
-- The bodies with regions, covariances and grid points in libneognss-obs/src/sbas.cpp.
use neo_gnss_observatory.Base.{
  ℕ, zero, suc, ◌+◌, ◌*◌, ◌≤◌, ◌≡◌, refl, Bool, true, false, ◌&&◌, ◌||◌, not, arith, ltb, All,
  Bool-cases, inl, inr,
}
use neo_gnss_observatory.Sbas.Bits.{
  Parse, got, invalid, out_of_range, BitView, unsigned_at, signed_at, flag_at, each_from, each,
}
use neo_gnss_observatory.Sbas.Content.{ionospheric_mask, ionospheric_delay, service, covariance}
use neo_gnss_observatory.Sbas.Corrections.{
  beyond, service_region, service_regions, service_body, covariance_rest, covariance_entry,
  covariance_body, is_point, mask_bit, ionospheric_mask_body, ionospheric_delay_body,
}
use neo_gnss_observatory.Sbas.Valid.{
  Post, Post->>=, Post-through, Post-reject, Post-each_from, kept-All, Post-unless_zero, OnSome,
  IsRegion, IsCovariance, OnGrid, IsValid,
}

on_map :
    (a b c d : Bool)
    → a || b || c || d ≡ false
    → (a ≡ false) × (b ≡ false) × (c ≡ false) × (d ≡ false)
on_map true b c d e = ground arith
on_map false true c d e = ground arith
on_map false false true d e = ground arith
on_map false false false d e = (refl, refl, refl, e)

service_counts : (n number count : ℕ) → ltb 5 n || ltb count number ≡ false → number ≤ count
service_counts n number count e = ground arith

set_point : (v w : Bool) → v && not w ≡ false → v ≡ true → w ≡ true
set_point true true e t = refl
set_point true false e t = ground arith
set_point false w e t = ground arith

Post-beside :
    {A : Type 0} (F : Type 0) (Q : A → Type 0) (m : Parse A) → F → Post Q m → Post (λ a. F × Q a) m
Post-beside F Q (got a) f q = (f, q)
Post-beside F Q invalid f q = tt
Post-beside F Q out_of_range f q = tt

module _ (b : BitView) where
  service_region-Post : (p : ℕ) → Post IsRegion (service_region b p)
  unfolding service_region
  service_region-Post p = Post->>= _ (signed_at b p 8) _ (λ lat1.
      Post->>= _ (signed_at b (p + 8) 9) _ (λ lon1. Post->>= _ (signed_at b (p + 17) 8) _ (λ lat2.
        Post->>= _ (signed_at b (p + 25) 9) _ (λ lon2. Post->>= _ (flag_at b (p + 34)) _ (λ q.
          Post-reject _ (beyond lat1 90 || beyond lat2 90 || beyond lon1 180 || beyond lon2 180) _
            (on_map (beyond lat1 90) (beyond lat2 90) (beyond lon1 180) (beyond lon2 180)))))))

  service_regions-Post :
      (n number count : ℕ)
      → Post (λ rs. (number ≤ count) × All IsRegion rs) (service_regions b n number count)
  unfolding service_regions
  service_regions-Post n number count = elim (Bool-cases (ltb 5 n || ltb count number)) [
    | inl e ↦ rw e tt
    | inr e ↦ rw e (
        Post-beside (number ≤ count) (All IsRegion) (each n (λ i. service_region b (36 + i * 35)))
          (service_counts n number count e)
          (Post-each_from IsRegion 0 n _ (λ i. service_region-Post (36 + i * 35))))
  ]

  covariance_rest-Post :
      (p n : ℕ) → 1 ≤ n → n ≤ 51 → Post (OnSome IsCovariance) (covariance_rest b p n)
  unfolding covariance_rest
  covariance_rest-Post p n l h = search (Post->>=, l, h) depth 30

  covariance_entry-Post : (p : ℕ) → Post (OnSome IsCovariance) (covariance_entry b p)
  unfolding covariance_entry
  covariance_entry-Post p =
      Post->>= _ (unsigned_at b p 6) _
        (λ n. Post-unless_zero IsCovariance n 51 _ (λ l h. covariance_rest-Post p n l h))

  pub covariance_body-Post : Post (λ v. IsValid (covariance v)) (covariance_body b)
  unfolding covariance_body
  covariance_body-Post = Post->>= _ (unsigned_at b 14 2) _ (λ p.
      Post-through (All (OnSome IsCovariance)) _ (each 2 (λ i. covariance_entry b (16 + 105 * i))) _
        (Post-each_from (OnSome IsCovariance) 0 2 _ (λ i. covariance_entry-Post (16 + 105 * i)))
        (λ found h. kept-All IsCovariance found h))

  mask_bit-Post :
      (band i : ℕ) → Post (λ v. v ≡ true → is_point band (i + 1) ≡ true) (mask_bit b band i)
  unfolding mask_bit
  mask_bit-Post band i = Post->>= _ (flag_at b (24 + i)) _ (λ v.
      Post-reject _ (v && not (is_point band (i + 1))) _ (set_point v (is_point band (i + 1))))

  mask_bits-Post : (band i n : ℕ) → Post (OnGrid band i) (each_from i n (mask_bit b band))
  unfolding each_from
  mask_bits-Post band i zero = tt
  mask_bits-Post band i (suc n) =
      Post-through _ (OnGrid band i) (mask_bit b band i) _ (mask_bit-Post band i) (λ a q.
        Post-through (OnGrid band (suc i)) (OnGrid band i) (each_from (suc i) n (mask_bit b band)) _
          (mask_bits-Post band (suc i) n) (λ rest r. (q, r)))

  band_limits : (x n lx ln : ℕ) → ltb lx x || ltb ln n ≡ false → (x ≤ lx) × (n ≤ ln)
  band_limits x n lx ln e = ground arith

  pub ionospheric_mask_body-Post :
      Post (λ v. IsValid (ionospheric_mask v)) (ionospheric_mask_body b)
  unfolding ionospheric_mask_body
  ionospheric_mask_body-Post = Post->>= _ (unsigned_at b 14 4) _ (λ n.
      Post->>= _ (unsigned_at b 18 4) _ (λ band. Post->>= _ (unsigned_at b 22 2) _ (λ i.
        Post-reject _ (ltb 10 band || ltb 11 n) _ (λ e.
          let l = band_limits band n 10 11 e in
          Post-through (OnGrid band 0) _ (each 201 (mask_bit b band)) _ (mask_bits-Post band 0 201)
            (λ bits g. (l.0, l.1, g))))))

  pub ionospheric_delay_body-Post :
      Post (λ v. IsValid (ionospheric_delay v)) (ionospheric_delay_body b)
  unfolding ionospheric_delay_body
  ionospheric_delay_body-Post = search (Post->>=, Post-reject, band_limits) depth 30

  pub service_body-Post : Post (λ v. IsValid (service v)) (service_body b)
  unfolding service_body
  service_body-Post = Post->>= _ (unsigned_at b 14 3) _ (λ i.
      Post->>= _ (unsigned_at b 17 3) _ (λ count. Post->>= _ (unsigned_at b 20 3) _ (λ number.
        Post->>= _ (unsigned_at b 23 3) _ (λ n. Post->>= _ (unsigned_at b 26 2) _ (λ prio.
          Post->>= _ (unsigned_at b 28 4) _ (λ inside. Post->>= _ (unsigned_at b 32 4) _ (λ outside.
            Post-through _ _ (service_regions b n (number + 1) (count + 1)) _
              (service_regions-Post n (number + 1) (count + 1)) (λ found h. h))))))))
