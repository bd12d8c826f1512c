-- ===== src/Sbas/Corrections.antt =====
-- The bodies of the messages with lists of corrections, masks and regions, and parse_l1, of
-- libneognss-obs/src/sbas.cpp.
use neo_gnss_observatory.Base.{
  ℕ, ◌+◌, ◌*◌, Bool, true, false, ◌&&◌, ◌||◌, not, List, ◌++◌, Option, none, some, ltb,
  if◌then◌else◌,
}
use neo_gnss_observatory.Base.Int.{ℤ, pos, ltb_ℤ, abs}
use neo_gnss_observatory.Sbas.Bits.{
  Parse, got, invalid, ◌>>=◌, ◌>>◌, reject_if, BitView, unsigned_at, signed_at, flag_at, each, kept,
}
use neo_gnss_observatory.Sbas.Content.{
  times, IonosphericMask, IonosphericCorrection, IonosphericDelay, Velocity, LongTermEntry,
  MixedCorrections, ServiceRegion, ServiceMessage, CovarianceEntry, Covariance,
}
use neo_gnss_observatory.Sbas.Fields.{fast_entry, unless_zero}
use neo_gnss_observatory.Sbas.Igp.{igp_coordinate}

-- The fields of a velocity code.
unfoldable pub velocity_fields : BitView → ℕ → Parse (Option Velocity)
velocity_fields b p = do
  rates ← each 3 (λ j. signed_at b (p + 58 + 8 * j) 8 >>= λ r. got (times r 1 2048))
  drift ← signed_at b (p + 82) 8
  sod ← unsigned_at b (p + 90) 13
  reject_if (not (ltb (sod * 16) 86400))
  got (
      some (record {
        delta_velocity_m_s = rates;
        clock_drift_raw = drift;
        reference_sod_s = sod * 16;
      }))

unfoldable pub long_rest : BitView → ℕ → ℕ → ℕ → Bool → ℕ → Parse (Option LongTermEntry)
unfolding velocity_fields
long_rest b p half' iodp' velocity' n = do
  let width = if velocity' then 11 else 9
  i ← unsigned_at b (p + 6) 8
  deltas ← each 3 (λ j. signed_at b (p + 14 + width * j) width >>= λ d. got (times d 1 8))
  clock ← signed_at b (p + 14 + 3 * width) (if velocity' then 11 else 10)
  v ← (if velocity' then velocity_fields b p else got none)
  got (
      some (record {
        half = half';
        mask_position = n;
        issue = i;
        iodp = iodp';
        velocity_code = velocity';
        delta_position_m = deltas;
        clock_offset_raw = clock;
        velocity = v;
      }))

unfoldable pub long_entry : BitView → ℕ → ℕ → ℕ → Bool → Parse (Option LongTermEntry)
unfolding long_rest
long_entry b p half' iodp' velocity' = do
  n ← unsigned_at b p 6
  unless_zero n 51 (long_rest b p half' iodp' velocity' n)

-- `long_half`: the entries that it appends; its `false` is `invalid`.
unfoldable pub long_half : BitView → ℕ → ℕ → Parse (List LongTermEntry)
unfolding long_entry
long_half b start half' = do
  velocity' ← flag_at b start
  p ← unsigned_at b (start + (if velocity' then 104 else 103)) 2
  found ←
      each (if velocity' then 1 else 2) (λ i. long_entry b (start + 1 + 51 * i) half' p velocity')
  got (kept found)

unfoldable pub mixed_body : BitView → Parse MixedCorrections
unfolding long_half fast_entry
mixed_body b = do
  p ← unsigned_at b 110 2
  block ← unsigned_at b 112 2
  f ← unsigned_at b 114 2
  entries ← each 6 (λ i. fast_entry b (14 + i * 12) (86 + i * 4))
  long ← long_half b 120 1
  got (record { iodp = p; iodf = f; fast_block = block; fast = entries; long_term = long })

unfoldable pub long_term_body : BitView → Parse (List LongTermEntry)
unfolding long_half
long_term_body b = do first ← long_half b 14 0; second ← long_half b 120 1; got (first ++ second)

abbrev pub beyond : ℤ → ℕ → Bool
beyond z limit = ltb_ℤ (pos limit) (abs z)

unfoldable pub service_region : BitView → ℕ → Parse ServiceRegion
service_region b p = do
  lat1 ← signed_at b p 8
  lon1 ← signed_at b (p + 8) 9
  lat2 ← signed_at b (p + 17) 8
  lon2 ← signed_at b (p + 25) 9
  q ← flag_at b (p + 34)
  reject_if (beyond lat1 90 || beyond lat2 90 || beyond lon1 180 || beyond lon2 180)
  got (record {
    latitude1_deg = lat1;
    longitude1_deg = lon1;
    latitude2_deg = lat2;
    longitude2_deg = lon2;
    quadrangle = q;
  })

unfoldable pub service_regions : BitView → ℕ → ℕ → ℕ → Parse (List ServiceRegion)
unfolding service_region
service_regions b n number' count' =
    if ltb 5 n || ltb count' number' then invalid else each n (λ i. service_region b (36 + i * 35))

unfoldable pub service_body : BitView → Parse ServiceMessage
unfolding service_regions
service_body b = do
  i ← unsigned_at b 14 3
  count' ← unsigned_at b 17 3
  number' ← unsigned_at b 20 3
  n ← unsigned_at b 23 3
  prio ← unsigned_at b 26 2
  inside ← unsigned_at b 28 4
  outside ← unsigned_at b 32 4
  found ← service_regions b n (number' + 1) (count' + 1)
  got (record {
    iods = i;
    message_count = count' + 1;
    message_number = number' + 1;
    priority = prio;
    delta_udre_inside_index = inside;
    delta_udre_outside_index = outside;
    regions = found;
  })

unfoldable pub covariance_rest : BitView → ℕ → ℕ → Parse (Option CovarianceEntry)
covariance_rest b p n = do
  scale ← unsigned_at b (p + 6) 3
  diagonal ← each 4 (λ j. unsigned_at b (p + 9 + 9 * j) 9 >>= λ v. got (pos v))
  rest ← each 6 (λ j. signed_at b (p + 45 + 10 * j) 10)
  got (some (record { mask_position = n; scale_exponent = scale; elements = diagonal ++ rest }))

unfoldable pub covariance_entry : BitView → ℕ → Parse (Option CovarianceEntry)
unfolding covariance_rest
covariance_entry b p = do n ← unsigned_at b p 6; unless_zero n 51 (covariance_rest b p n)

unfoldable pub covariance_body : BitView → Parse Covariance
unfolding covariance_entry
covariance_body b = do
  p ← unsigned_at b 14 2
  found ← each 2 (λ i. covariance_entry b (16 + 105 * i))
  got (record { iodp = p; entries = kept found })

abbrev pub is_point : ℕ → ℕ → Bool
is_point band' bit = elim (igp_coordinate band' bit) [ none ↦ false | some p ↦ true ]

-- One bit of the mask: a point must be there if it is set.
unfoldable pub mask_bit : BitView → ℕ → ℕ → Parse Bool
mask_bit b band' i = do v ← flag_at b (24 + i); reject_if (v && not (is_point band' (i + 1))); got v

unfoldable pub ionospheric_mask_body : BitView → Parse IonosphericMask
unfolding mask_bit
ionospheric_mask_body b = do
  n ← unsigned_at b 14 4
  band' ← unsigned_at b 18 4
  i ← unsigned_at b 22 2
  reject_if (ltb 10 band' || ltb 11 n)
  bits ← each 201 (mask_bit b band')
  got (record { number_of_bands_raw = n; band = band'; iodi = i; mask = bits })

unfoldable pub ionospheric_entry : BitView → ℕ → Parse IonosphericCorrection
ionospheric_entry b i = do
  delay ← unsigned_at b (22 + 13 * i) 9
  g ← unsigned_at b (31 + 13 * i) 4
  got (record { delay_raw = delay; givei = g })

unfoldable pub ionospheric_delay_body : BitView → Parse IonosphericDelay
unfolding ionospheric_entry
ionospheric_delay_body b = do
  band' ← unsigned_at b 14 4
  block' ← unsigned_at b 18 4
  i ← unsigned_at b 217 2
  reject_if (ltb 10 band' || ltb 13 block')
  found ← each 15 (ionospheric_entry b)
  got (record { band = band'; block = block'; iodi = i; corrections = found })
