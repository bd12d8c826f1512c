-- ===== src/Sbas/Valid.antt =====
-- What a decoded SBAS message promises.
pub mod Entries
pub mod Regions
pub mod Decoded
use neo_gnss_observatory.Base.{
  ℕ, zero, suc, ◌+◌, ◌-◌, ◌*◌, ◌≤◌, ◌<◌, ◌≡◌, ◌≢◌, ◌⊎◌, refl, sym, ◌∙◌, Bool, true, false, ◌&&◌,
  ◌||◌, not, List, [], ◌∷◌, ◌++◌, Option, none, some, arith, ltb, ◌==◌, if◌then◌else◌, length, All,
  Bool-cases, inl, inr,
}
use neo_gnss_observatory.Base.Int.{ℤ, pos, negsuc, abs, ltb_ℤ, ◌≤ℤ◌}
use neo_gnss_observatory.Sbas.Bits.{
  Parse, got, invalid, out_of_range, ◌>>=◌, reject_if, BitView, unsigned_at, signed_at, flag_at,
  each_from, each, kept,
}
use neo_gnss_observatory.Sbas.Content.{
  Content, prn_mask, geo_navigation, ionospheric_mask, ionospheric_delay, network_time, geo_almanac,
  long_term, mixed, service, covariance, L1Profile, standard, southpan_open, Message, Status,
  decoded, Result, Velocity, LongTermEntry, GeoAlmanacEntry, ServiceRegion, CovarianceEntry,
  PrnMask, GeoNavigation, NetworkTime, GeoAlmanac, MixedCorrections, ServiceMessage, Covariance,
  IonosphericMask, IonosphericDelay,
}
use neo_gnss_observatory.Sbas.Fields.{
  count_true, mask_of_prns, geo_navigation_body, network_time_body, almanac_rest, unless_zero,
  almanac_entry, almanac_body, fast,
}
use neo_gnss_observatory.Sbas.Corrections.{
  velocity_fields, long_rest, long_entry, long_half, mixed_body, long_term_body, beyond,
  service_region, service_regions, service_body, covariance_rest, covariance_entry, covariance_body,
  is_point, mask_bit, ionospheric_mask_body, ionospheric_delay_body,
}
use neo_gnss_observatory.Sbas.Igp.{igp_coordinate}

-- `P` holds of what is read, if anything is.
abbrev pub Post : {A : Type 0} → (A → Type 0) → Parse A → Type 0
Post P (got a) = P a
Post P _ = Unit

pub Post->>= :
    {A B : Type 0} (P : B → Type 0) (m : Parse A) (k : A → Parse B)
    → ((a : A) → Post P (k a))
    → Post P (m >>= k)
Post->>= P (got a) k h = h a
Post->>= P invalid k h = tt
Post->>= P out_of_range k h = tt

pub Post-through :
    {A B : Type 0} (Q : A → Type 0) (P : B → Type 0) (m : Parse A) (k : A → Parse B)
    → Post Q m
    → ((a : A) → Q a → Post P (k a))
    → Post P (m >>= k)
Post-through Q P (got a) k q h = h a q
Post-through Q P invalid k q h = tt
Post-through Q P out_of_range k q h = tt

pub Post-reject :
    {B : Type 0} (P : B → Type 0) (c : Bool) (k : Unit {0} → Parse B)
    → (c ≡ false → Post P (k tt))
    → Post P (reject_if c >>= k)
Post-reject P true k h = tt
Post-reject P false k h = h refl

pub Post-each_from :
    {A : Type 0} (Q : A → Type 0) (i n : ℕ) (body : ℕ → Parse A)
    → ((j : ℕ) → Post Q (body j))
    → Post (All Q) (each_from i n body)
unfolding each_from
Post-each_from Q i zero body h = tt
Post-each_from Q i (suc n) body h = Post-through Q (All Q) (body i) _ (h i) (λ a q.
    Post-through (All Q) (All Q) (each_from (suc i) n body) _ (Post-each_from Q (suc i) n body h)
      (λ rest r. (q, r)))

abbrev pub OnSome : {A : Type 0} → (A → Type 0) → Option A → Type 0
OnSome Q none = Unit
OnSome Q (some a) = Q a

pub kept-All :
    {A : Type 0} (Q : A → Type 0) (os : List (Option A)) → All (OnSome Q) os → All Q (kept os)
kept-All Q [] h = tt
kept-All Q (none ∷ os) h = kept-All Q os h.1
kept-All Q (some a ∷ os) h = (h.0, kept-All Q os h.1)

pub append-All :
    {A : Type 0} (Q : A → Type 0) (xs ys : List A) → All Q xs → All Q ys → All Q (xs ++ ys)
append-All Q [] ys h k = k
append-All Q (x ∷ xs) ys h k = (h.0, append-All Q xs ys h.1 k)

-- A number that is not 0 and not above the limit reaches the rest of the entry.
pub Post-unless_zero :
    {A : Type 0} (Q : A → Type 0) (n limit : ℕ) (m : Parse (Option A))
    → (1 ≤ n → n ≤ limit → Post (OnSome Q) m)
    → Post (OnSome Q) (unless_zero n limit m)
Post-unless_zero Q n limit m h = elim (Bool-cases (n == 0)) [
  | inl e ↦ rw e tt
  | inr e ↦ rw e (elim (Bool-cases (ltb limit n)) [
    | inl l ↦ rw l tt
    | inr l ↦ rw l (h (ground arith) (ground arith))
  ])
]

abbrev pub HasTime : Option Velocity → Type 0
HasTime none = Unit
HasTime (some v) = v.reference_sod_s < 86400

abbrev pub IsLongTerm : LongTermEntry → Type 0
IsLongTerm e = (1 ≤ e.mask_position) × (e.mask_position ≤ 51) × HasTime e.velocity

abbrev pub IsSatellite : GeoAlmanacEntry → Type 0
IsSatellite e = (1 ≤ e.prn) × (e.prn ≤ 210)

abbrev pub IsRegion : ServiceRegion → Type 0
IsRegion r =
    (beyond r.latitude1_deg 90 ≡ false)
    × (beyond r.latitude2_deg 90 ≡ false)
    × (beyond r.longitude1_deg 180 ≡ false)
    × (beyond r.longitude2_deg 180 ≡ false)

abbrev pub IsCovariance : CovarianceEntry → Type 0
IsCovariance e = (1 ≤ e.mask_position) × (e.mask_position ≤ 51)

abbrev pub IsUtc : NetworkTime → Type 0
IsUtc v = (v.reference_tow_s < 604800) × (1 ≤ v.leap_day) × (v.leap_day ≤ 7)

-- Every point that is set in a mask whose first bit is number `i` is on the grid.
abbrev pub OnGrid : ℕ → ℕ → List Bool → Type 0
OnGrid band i [] = Unit
OnGrid band i (v ∷ vs) = (v ≡ true → is_point band (i + 1) ≡ true) × OnGrid band (suc i) vs

-- What holds of the content of a decoded message.
abbrev pub IsValid : Content → Type 0
IsValid (prn_mask v) = count_true v.mask ≤ 51
IsValid (geo_navigation v) = v.t0_raw * 16 < 86400
IsValid (network_time v) = (v.gps_tow_s < 604800) × ((v.utc_id ≡ 7) ⊎ IsUtc v)
IsValid (geo_almanac v) = (v.reference_sod_s < 86400) × All IsSatellite v.entries
IsValid (long_term es) = All IsLongTerm es
IsValid (mixed v) = All IsLongTerm v.long_term
IsValid (service v) = (v.message_number ≤ v.message_count) × All IsRegion v.regions
IsValid (covariance v) = All IsCovariance v.entries
IsValid (ionospheric_mask v) = (v.band ≤ 10) × (v.number_of_bands_raw ≤ 11) × OnGrid v.band 0 v.mask
IsValid (ionospheric_delay v) = (v.band ≤ 10) × (v.block ≤ 13)
IsValid _ = Unit

pub within : (x limit : ℕ) → not (ltb x limit) ≡ false → x < limit
within x limit e = ground arith

utc_facts :
    (u x day gps : ℕ)
    → not (ltb gps 604800) || not (u == 7) && (not (ltb x 604800) || ltb day 1 || ltb 7 day) ≡ false
    → (gps < 604800) × ((u ≡ 7) ⊎ ((x < 604800) × (1 ≤ day) × (day ≤ 7)))
utc_facts u x day gps e = ground arith

module _ (b : BitView) where
  pub mask_of_prns-Post : Post (λ v. IsValid (prn_mask v)) (mask_of_prns b)
  unfolding mask_of_prns
  mask_of_prns-Post = Post->>= _ (unsigned_at b 224 2) _ (λ p.
      Post->>= _ (each 210 (λ i. flag_at b (14 + i))) _
        (λ bits. Post-reject _ (ltb 51 (count_true bits)) _ (λ e. ground arith)))

  pub geo_navigation_body-Post : Post (λ v. IsValid (geo_navigation v)) (geo_navigation_body b)
  unfolding geo_navigation_body
  geo_navigation_body-Post = Post->>= _ (unsigned_at b 14 8) _ (λ n.
      Post->>= _ (unsigned_at b 22 13) _ (λ t.
        Post-reject _ (not (ltb (t * 16) 86400)) _
          (λ e. let l : t * 16 < 86400 = within (t * 16) 86400 e in search (Post->>=, l) depth 30)))

  pub network_time_body-Post : Post (λ v. IsValid (network_time v)) (network_time_body b)
  unfolding network_time_body
  network_time_body-Post = search (Post->>=, Post-reject, utc_facts) depth 30
