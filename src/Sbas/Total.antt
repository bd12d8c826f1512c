-- ===== src/Sbas/Total.antt =====
-- No field of an SBAS message lies outside its 250 bits.
use neo_gnss_observatory.Base.{
  ℕ, zero, suc, ◌+◌, ◌*◌, ◌≤◌, ◌<◌, ◌≡◌, Bool, true, false, ◌||◌, Option, none, arith, ltb, ◌==◌,
  if◌then◌else◌, Bool-cases, inl, inr,
}
use neo_gnss_observatory.Sbas.Bits.{
  Parse, got, invalid, out_of_range, ◌>>=◌, reject_if, BitView, unsigned_at, signed_at, flag_at,
  each_from, each,
}
use neo_gnss_observatory.Sbas.Corrections.{
  velocity_fields, long_rest, long_entry, long_half, mixed_body, long_term_body, service_region,
  service_regions, service_body, covariance_rest, covariance_entry, covariance_body, mask_bit,
  ionospheric_mask_body, ionospheric_entry, ionospheric_delay_body,
}
use neo_gnss_observatory.Sbas.Fields.{
  fast_entry, fast, mask_of_prns, integrity_body, fast_degradation_body, geo_navigation_body,
  degradation_body, network_time_body, almanac_rest, unless_zero, almanac_entry, almanac_body,
}

abbrev pub Safe : {A : Type 0} → Parse A → Type 0
Safe (got a) = Unit
Safe invalid = Unit
Safe out_of_range = ⊥

pub Safe->>= :
    {A B : Type 0} (m : Parse A) (k : A → Parse B)
    → Safe m
    → ((a : A) → Safe (k a))
    → Safe (m >>= k)
Safe->>= (got a) k s h = h a
Safe->>= invalid k s h = tt
Safe->>= out_of_range k s h = absurd s

pub Safe-reject_if : (c : Bool) → Safe (reject_if c)
Safe-reject_if true = tt
Safe-reject_if false = tt

pub Safe-each_from :
    {A : Type 0} (i n : ℕ) (body : ℕ → Parse A)
    → ((j : ℕ) → j < i + n → Safe (body j))
    → Safe (each_from i n body)
unfolding each_from
Safe-each_from i zero body h = tt
Safe-each_from i (suc n) body h = Safe->>= (body i) _ (h i (omega arith)) (λ a.
    Safe->>= (each_from (suc i) n body) _ (Safe-each_from (suc i) n body (λ j l. h j (omega arith)))
      (λ rest. tt))

pub Safe-each :
    {A : Type 0} (n : ℕ) (body : ℕ → Parse A)
    → ((j : ℕ) → j < n → Safe (body j))
    → Safe (each n body)
Safe-each n body h = Safe-each_from 0 n body (λ j l. h j (omega arith))

module _ (b : BitView) (e : b.bit_count ≡ 250) where
  pub Safe-unsigned_at : (p n : ℕ) → p + n ≤ 250 → n ≤ 64 → Safe (unsigned_at b p n)
  unfolding unsigned_at
  Safe-unsigned_at p n h k = ground arith

  pub Safe-signed_at : (p n : ℕ) → p + n ≤ 250 → 0 < n → n ≤ 64 → Safe (signed_at b p n)
  unfolding signed_at
  Safe-signed_at p n h l k = ground (arith, Safe-unsigned_at p n h k)

  pub Safe-flag_at : (p : ℕ) → p + 1 ≤ 250 → Safe (flag_at b p)
  Safe-flag_at p h = Safe->>= (unsigned_at b p 1) _ (Safe-unsigned_at p 1 h (omega arith)) (λ v. tt)

  ruleset reads =
      (Safe->>=, Safe-unsigned_at, Safe-signed_at, Safe-flag_at, Safe-reject_if, Safe-each, arith)

  pub fast_entry-Safe : (p q : ℕ) → p + 12 ≤ 250 → q + 4 ≤ 250 → Safe (fast_entry b p q)
  unfolding fast_entry
  fast_entry-Safe p q h k = search reads

  pub fast-Safe : (t : ℕ) → Safe (fast b t)
  unfolding fast
  fast-Safe t = search (reads, fast_entry-Safe)

  pub mask_of_prns-Safe : Safe (mask_of_prns b)
  unfolding mask_of_prns
  mask_of_prns-Safe = search reads

  pub geo_navigation_body-Safe : Safe (geo_navigation_body b)
  unfolding geo_navigation_body
  geo_navigation_body-Safe = search reads

  pub degradation_body-Safe : Safe (degradation_body b)
  unfolding degradation_body
  degradation_body-Safe = search reads

  pub integrity_body-Safe : Safe (integrity_body b)
  unfolding integrity_body
  integrity_body-Safe = search reads

  pub fast_degradation_body-Safe : Safe (fast_degradation_body b)
  unfolding fast_degradation_body
  fast_degradation_body-Safe = search reads

  pub network_time_body-Safe : Safe (network_time_body b)
  unfolding network_time_body
  network_time_body-Safe = search reads

  Safe-unless_zero :
      {A : Type 0} (n limit : ℕ) (m : Parse (Option A)) → Safe m → Safe (unless_zero n limit m)
  Safe-unless_zero n limit m h = choose (n == 0) (ltb limit n)
    where
      choose : (c d : Bool) → Safe (if c then got none else if d then invalid else m)
      choose true d = tt
      choose false true = tt
      choose false false = h

  pub almanac_rest-Safe : (p n : ℕ) → p + 67 ≤ 250 → Safe (almanac_rest b p n)
  unfolding almanac_rest
  almanac_rest-Safe p n h = search reads

  pub almanac_entry-Safe : (p : ℕ) → p + 67 ≤ 250 → Safe (almanac_entry b p)
  unfolding almanac_entry
  almanac_entry-Safe p h = search (reads, Safe-unless_zero, almanac_rest-Safe)

  pub almanac_body-Safe : Safe (almanac_body b)
  unfolding almanac_body
  almanac_body-Safe = search (reads, almanac_entry-Safe)

  pub velocity_fields-Safe : (p : ℕ) → p + 103 ≤ 250 → Safe (velocity_fields b p)
  unfolding velocity_fields
  velocity_fields-Safe p h = search reads

  pub long_rest-Safe :
      (p h i : ℕ) (v : Bool) (n : ℕ)
      → p + (if v then 103 else 51) ≤ 250
      → Safe (long_rest b p h i v n)
  unfolding long_rest
  long_rest-Safe p h i true n le = search (reads, velocity_fields-Safe)
  long_rest-Safe p h i false n le = search reads

  pub long_entry-Safe :
      (p h i : ℕ) (v : Bool) → p + (if v then 103 else 51) ≤ 250 → Safe (long_entry b p h i v)
  unfolding long_entry
  long_entry-Safe p h i true le = search (reads, Safe-unless_zero, long_rest-Safe)
  long_entry-Safe p h i false le = search (reads, Safe-unless_zero, long_rest-Safe)

  pub long_half-Safe : (start h : ℕ) → start + 106 ≤ 250 → Safe (long_half b start h)
  unfolding long_half
  long_half-Safe start h le = Safe->>= (flag_at b start) _ (Safe-flag_at start (omega arith)) (λ v.
      elim v [ true ↦ search (reads, long_entry-Safe) | false ↦ search (reads, long_entry-Safe) ])

  pub mixed_body-Safe : Safe (mixed_body b)
  unfolding mixed_body
  mixed_body-Safe = search (reads, fast_entry-Safe, long_half-Safe)

  pub long_term_body-Safe : Safe (long_term_body b)
  unfolding long_term_body
  long_term_body-Safe = search (reads, long_half-Safe)

  pub service_region-Safe : (p : ℕ) → p + 35 ≤ 250 → Safe (service_region b p)
  unfolding service_region
  service_region-Safe p h = search reads

  pub service_regions-Safe : (n k c : ℕ) → Safe (service_regions b n k c)
  unfolding service_regions
  service_regions-Safe n k c = elim (Bool-cases (ltb 5 n || ltb c k)) [
    | inl h ↦ rw h tt
    | inr h ↦
        let few : n ≤ 5 = ground arith in
        rw h (Safe-each n _ (λ j l. service_region-Safe (36 + j * 35) (omega arith)))
  ]

  pub service_body-Safe : Safe (service_body b)
  unfolding service_body
  service_body-Safe = search (reads, service_regions-Safe)

  pub covariance_rest-Safe : (p n : ℕ) → p + 105 ≤ 250 → Safe (covariance_rest b p n)
  unfolding covariance_rest
  covariance_rest-Safe p n h = search reads

  pub covariance_entry-Safe : (p : ℕ) → p + 105 ≤ 250 → Safe (covariance_entry b p)
  unfolding covariance_entry
  covariance_entry-Safe p h = search (reads, Safe-unless_zero, covariance_rest-Safe)

  pub covariance_body-Safe : Safe (covariance_body b)
  unfolding covariance_body
  covariance_body-Safe = search (reads, covariance_entry-Safe)

  pub mask_bit-Safe : (k i : ℕ) → i < 201 → Safe (mask_bit b k i)
  unfolding mask_bit
  mask_bit-Safe k i h = search reads

  pub ionospheric_mask_body-Safe : Safe (ionospheric_mask_body b)
  unfolding ionospheric_mask_body
  ionospheric_mask_body-Safe = search (reads, mask_bit-Safe)

  pub ionospheric_entry-Safe : (i : ℕ) → i < 15 → Safe (ionospheric_entry b i)
  unfolding ionospheric_entry
  ionospheric_entry-Safe i h = search reads

  pub ionospheric_delay_body-Safe : Safe (ionospheric_delay_body b)
  unfolding ionospheric_delay_body
  ionospheric_delay_body-Safe = search (reads, ionospheric_entry-Safe)
