-- ===== src/Sbas/Fields.antt =====
-- The bodies of the cases of parse_l1 in libneognss-obs/src/sbas.cpp, each a function of the view.
-- A field's cast to a narrower type keeps its value, since the field has fewer bits than the type.
use neo_gnss_observatory.Base.{
  ℕ, suc, ◌+◌, ◌-◌, ◌*◌, Bool, true, false, ◌&&◌, ◌||◌, not, List, [], ◌∷◌, Option, none, some, ltb,
  ◌==◌, if◌then◌else◌,
}
use neo_gnss_observatory.Base.Int.{pos}
use neo_gnss_observatory.Sbas.Bits.{
  Parse, got, invalid, ◌>>=◌, ◌>>◌, reject_if, BitView, unsigned_at, signed_at, flag_at, each, kept,
}
use neo_gnss_observatory.Sbas.Content.{
  times, FastCorrection, FastCorrections, PrnMask, Integrity, FastDegradation, GeoNavigation,
  Degradation, NetworkTime, GeoAlmanacEntry, GeoAlmanac,
}

unfoldable pub fast_entry : BitView → ℕ → ℕ → Parse FastCorrection
fast_entry b p q = do
  correction ← signed_at b p 12
  index ← unsigned_at b q 4
  got (record { correction_raw = correction; udrei = index })

unfoldable pub fast : BitView → ℕ → Parse FastCorrections
fast b type = do
  f ← unsigned_at b 14 2
  p ← unsigned_at b 16 2
  entries ← each 13 (λ i. fast_entry b (18 + 12 * i) (174 + 4 * i))
  got (record {
    iodf = f;
    iodp = p;
    first_mask_position = 1 + 13 * (type - 2);
    satellites = entries;
  })

abbrev pub count_true : List Bool → ℕ
count_true [] = 0
count_true (true ∷ bs) = suc (count_true bs)
count_true (false ∷ bs) = count_true bs

unfoldable pub mask_of_prns : BitView → Parse PrnMask
mask_of_prns b = do
  p ← unsigned_at b 224 2
  bits ← each 210 (λ i. flag_at b (14 + i))
  reject_if (ltb 51 (count_true bits))
  got (record { iodp = p; mask = bits })

unfoldable pub integrity_body : BitView → Parse Integrity
integrity_body b = do
  f ← each 4 (λ i. unsigned_at b (14 + 2 * i) 2)
  u ← each 51 (λ i. unsigned_at b (22 + 4 * i) 4)
  got (record { iodf = f; udrei = u })

unfoldable pub fast_degradation_body : BitView → Parse FastDegradation
fast_degradation_body b = do
  latency ← unsigned_at b 14 4
  p ← unsigned_at b 18 2
  indices ← each 51 (λ i. unsigned_at b (22 + 4 * i) 4)
  got (record { latency_s = latency; iodp = p; degradation_index = indices })

unfoldable pub geo_navigation_body : BitView → Parse GeoNavigation
geo_navigation_body b = do
  n ← unsigned_at b 14 8
  t ← unsigned_at b 22 13
  reject_if (not (ltb (t * 16) 86400))
  a ← unsigned_at b 35 4
  x ← signed_at b 39 30
  y ← signed_at b 69 30
  z ← signed_at b 99 25
  dx ← signed_at b 124 17
  dy ← signed_at b 141 17
  dz ← signed_at b 158 18
  ax ← signed_at b 176 10
  ay ← signed_at b 186 10
  az ← signed_at b 196 10
  offset ← signed_at b 206 12
  drift ← signed_at b 218 8
  got (record {
    iodn_raw = n;
    ura = a;
    t0_raw = t;
    position_raw = x ∷ y ∷ z ∷ [];
    velocity_raw = dx ∷ dy ∷ dz ∷ [];
    acceleration_raw = ax ∷ ay ∷ az ∷ [];
    clock_offset_raw = offset;
    clock_drift_raw = drift;
  })

-- The position of `p` moves by the width of each field.
unfoldable pub degradation_body : BitView → Parse Degradation
degradation_body b = do
  brrc ← unsigned_at b 14 10
  cltc_lsb ← unsigned_at b 24 10
  cltc_v1 ← unsigned_at b 34 10
  iltc_v1 ← unsigned_at b 44 9
  cltc_v0 ← unsigned_at b 53 10
  iltc_v0 ← unsigned_at b 63 9
  cgeo_lsb ← unsigned_at b 72 10
  cgeo_v ← unsigned_at b 82 10
  igeo ← unsigned_at b 92 9
  cer ← unsigned_at b 101 6
  ciono_step ← unsigned_at b 107 10
  iiono ← unsigned_at b 117 9
  ciono_ramp ← unsigned_at b 126 10
  udre ← flag_at b 136
  iono ← flag_at b 137
  ccov ← unsigned_at b 138 7
  got (record {
    brrc_m = times (pos brrc) 2 1000;
    cltc_lsb_m = times (pos cltc_lsb) 2 1000;
    cltc_v1_m_s = times (pos cltc_v1) 5 100000;
    iltc_v1_s = iltc_v1;
    cltc_v0_m = times (pos cltc_v0) 2 1000;
    iltc_v0_s = iltc_v0;
    cgeo_lsb_m = times (pos cgeo_lsb) 5 10000;
    cgeo_v_m_s = times (pos cgeo_v) 5 100000;
    igeo_s = igeo;
    cer_m = times (pos cer) 1 2;
    ciono_step_m = times (pos ciono_step) 1 1000;
    iiono_s = iiono;
    ciono_ramp_m_s = times (pos ciono_ramp) 5 1000000;
    rss_udre = udre;
    rss_iono = iono;
    ccovariance = times (pos ccov) 1 10;
  })

unfoldable pub network_time_body : BitView → Parse NetworkTime
network_time_body b = do
  a1 ← signed_at b 14 24
  a0 ← signed_at b 38 32
  tow ← unsigned_at b 70 8
  week ← unsigned_at b 78 8
  leap ← signed_at b 86 8
  leap_week ← unsigned_at b 94 8
  day ← unsigned_at b 102 8
  future ← signed_at b 110 8
  utc ← unsigned_at b 118 3
  gps_tow ← unsigned_at b 121 20
  gps_week ← unsigned_at b 141 10
  reject_if (
      not (ltb gps_tow 604800)
      || not (utc == 7) && (not (ltb (tow * 4096) 604800) || ltb day 1 || ltb 7 day))
  got (record {
    a0_raw = a0;
    a1_raw = a1;
    reference_tow_s = tow * 4096;
    gps_tow_s = gps_tow;
    reference_week_mod256 = week;
    leap_week_mod256 = leap_week;
    leap_day = day;
    utc_id = utc;
    leap_seconds = leap;
    future_leap_seconds = future;
    gps_week_mod1024 = gps_week;
  })

unfoldable pub almanac_rest : BitView → ℕ → ℕ → Parse (Option GeoAlmanacEntry)
almanac_rest b p n = do
  health ← unsigned_at b (p + 10) 8
  x ← signed_at b (p + 18) 15
  y ← signed_at b (p + 33) 15
  z ← signed_at b (p + 48) 9
  dx ← signed_at b (p + 57) 3
  dy ← signed_at b (p + 60) 3
  dz ← signed_at b (p + 63) 4
  got (
      some (record {
        prn = n;
        health_status = health;
        position_m = times x 2600 1 ∷ times y 2600 1 ∷ times z 26000 1 ∷ [];
        velocity_m_s = times dx 10 1 ∷ times dy 10 1 ∷ times dz 60 1 ∷ [];
      }))

-- `none` is the `continue` of a loop on a zero, `invalid` its return on a number above the limit.
abbrev pub unless_zero : {A : Type 0} → ℕ → ℕ → Parse (Option A) → Parse (Option A)
unless_zero n limit rest = if n == 0 then got none else if ltb limit n then invalid else rest

-- One turn of the almanac's loop.
unfoldable pub almanac_entry : BitView → ℕ → Parse (Option GeoAlmanacEntry)
almanac_entry b p = do n ← unsigned_at b (p + 2) 8; unless_zero n 210 (almanac_rest b p n)

unfoldable pub almanac_body : BitView → Parse GeoAlmanac
almanac_body b = do
  sod ← unsigned_at b 215 11
  reject_if (not (ltb (sod * 64) 86400))
  found ← each 3 (λ i. almanac_entry b (14 + 67 * i))
  got (record { reference_sod_s = sod * 64; entries = kept found })
