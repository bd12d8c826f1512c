-- ===== src/RawBits/Sbf.antt =====
-- The SBF half of `decode` in libneognss-obs/src/raw_bits.cpp: from a block's number and header to
-- the satellite, the message family and the signals. The generated parsers and the
-- copying of their fields are a parameter of the callers, which Page fills.
use neo_gnss_observatory.Base.{
  ℕ, ◌+◌, ◌-◌, ◌*◌, ◌/◌, ◌%◌, Bool, true, false, ◌&&◌, ◌||◌, not, List, [], ◌∷◌,
}
use neo_gnss_observatory.Base.{Option, none, some, ltb, leb, ◌==◌, if◌then◌else◌}
use neo_gnss_observatory.RawBits.Record.{
  System, gps, gal, bds, qzs, sbas, Family, gps_lnav, qzs_lnav, gps_cnav, qzs_cnav, gps_cnav2,
  qzs_cnav2, sbas_l1, sbas_l5, gal_fnav, gal_inav, gal_cnav, bds_d1, bds_d2, bds_d1d2_unclassified,
  bds_bcnav1, bds_bcnav2, bds_b2b_unclassified, qzs_l1s, qzs_l5s, qzs_l6_unclassified, no_family,
  Signal, gps_l1_ca, gps_l2c, gps_l5_i, gps_l1c, qzs_l1_ca, qzs_l1_cb, qzs_l2c, qzs_l5_i, qzs_l1c,
  qzs_l1s_signal, qzs_l5s_signal, qzs_l6d, qzs_l6e, sbas_l1_signal, sbas_l5_signal, gal_e1_b,
  gal_e5a_i, gal_e5b_i, gal_e6_b, bds_b1i, bds_b2i, bds_b3i, bds_b1c, bds_b2a, bds_b2b, RawBits,
  unsupported, Flow, next, leave,
}

-- NavigationPage: a typed receiver header and the words of the page as bytes.
pub record NavigationPage : Type 0 where
  pub tow : ℕ
  pub week : ℕ
  pub satellite : ℕ
  pub source : ℕ
  pub channel : ℕ
  pub crc1 : ℕ
  pub crc2 : ℕ
  pub viterbi : Option ℕ
  pub rs : Option ℕ
  pub bits : List ℕ

one_of : ℕ → List ℕ → Bool
one_of x [] = false
one_of x (y ∷ ys) = x == y || one_of x ys

-- Which blocks carry a count of corrected symbols, and which.
unfoldable pub page_counts : ℕ → NavigationPage → RawBits → RawBits
unfolding one_of
page_counts id page r =
    if one_of id (4018 ∷ 4019 ∷ 4020 ∷ 4021 ∷ 4022 ∷ 4023 ∷ 4024 ∷ 4067 ∷ 4068 ∷ 4228 ∷ 4246 ∷ [])
    then record r { viterbi_count = page.viterbi }
    else if one_of id (4069 ∷ 4270 ∷ 4271 ∷ [])
    then record r { rs_corrected_symbols = page.rs }
    else r

-- The signal number inside the source byte.
unfoldable pub signal_number : ℕ → ℕ → ℕ
signal_number id source = if leb id 4024 || id == 4067 || id == 4068 then source % 32 else source

-- The map `allowed`.
unfoldable pub allowed : ℕ → Option (List ℕ)
allowed id =
    if id == 4017
    then some (0 ∷ [])
    else if id == 4018
    then some (3 ∷ [])
    else if id == 4019
    then some (4 ∷ [])
    else if id == 4020
    then some (24 ∷ [])
    else if id == 4021
    then some (25 ∷ [])
    else if id == 4022
    then some (20 ∷ [])
    else if id == 4023
    then some (17 ∷ 21 ∷ [])
    else if id == 4024
    then some (19 ∷ [])
    else if id == 4047
    then some (28 ∷ 29 ∷ 30 ∷ [])
    else if id == 4066
    then some (6 ∷ 38 ∷ [])
    else if id == 4067
    then some (7 ∷ [])
    else if id == 4068
    then some (26 ∷ [])
    else if id == 4218
    then some (13 ∷ [])
    else if id == 4219
    then some (14 ∷ [])
    else if id == 4242
    then some (34 ∷ [])
    else if id == 4221
    then some (5 ∷ [])
    else if id == 4227
    then some (32 ∷ [])
    else if id == 4228
    then some (33 ∷ [])
    else if id == 4246
    then some (39 ∷ [])
    else if id == 4270
    then some (1 ∷ [])
    else if id == 4271
    then some (2 ∷ [])
    else if id == 4069
    then some (0 ∷ 1 ∷ 2 ∷ [])
    else none

unfoldable pub allows : Option (List ℕ) → ℕ → Bool
unfolding one_of
allows none sig = true
allows (some sigs) sig = one_of sig sigs

-- The time of the page, where the header carries one.
unfoldable pub page_time : NavigationPage → Option ℕ
page_time page =
    if ltb page.tow 604800000 && not (page.week == 65535)
    then some (page.week * 604800000 + page.tow)
    else none

-- The satellite number of the SBF header, as a system and the number used while decoding.
unfoldable pub sbf_satellite : ℕ → Option (System × ℕ)
sbf_satellite sv =
    if leb 1 sv && leb sv 37
    then some (gps, sv)
    else if leb 71 sv && leb sv 106
    then some (gal, sv - 70)
    else if leb 120 sv && leb sv 140 || leb 198 sv && leb sv 215
    then some (sbas, if leb sv 140 then sv else sv - 57)
    else if leb 141 sv && leb sv 180
    then some (bds, sv - 140)
    else if leb 223 sv && leb sv 245
    then some (bds, sv - 182)
    else if leb 181 sv && leb sv 190
    then some (qzs, sv + 12)
    else none

-- What the block's number says of the message: family, signals and the bits used of each word.
pub record Kind : Type 0 where
  pub family : Family
  pub signals : List Signal
  pub width : ℕ

abbrev pub kind : Family → List Signal → Kind
kind f s = record { family = f; signals = s; width = 32 }

unfoldable pub bds_raw_family : ℕ → Family
bds_raw_family sat =
    if leb 6 sat && leb sat 58
    then bds_d1
    else if leb 1 sat && leb sat 5 || leb 59 sat && leb sat 63
    then bds_d2
    else bds_d1d2_unclassified

unfoldable pub inav_signals : ℕ → List Signal
inav_signals source =
    if source / 32 % 2 == 1
    then gal_e1_b ∷ gal_e5b_i ∷ []
    else if source % 32 == 21
    then gal_e5b_i ∷ []
    else gal_e1_b ∷ []

unfoldable pub l6_signals : ℕ → ℕ → List Signal
l6_signals id source =
    if not (id == 4069)
    then (if id == 4270 then qzs_l6d ∷ [] else qzs_l6e ∷ [])
    else if not (source == 0)
    then (if source == 1 then qzs_l6d ∷ [] else qzs_l6e ∷ [])
    else []

-- The switch over the block's number; a number that it does not name leaves the family empty.
unfoldable pub sbf_kind : ℕ → ℕ → ℕ → Kind
unfolding bds_raw_family inav_signals l6_signals
sbf_kind id source sat =
    if id == 4017
    then record { family = gps_lnav; signals = gps_l1_ca ∷ []; width = 30 }
    else if id == 4066
    then record {
      family = qzs_lnav;
      signals = if source == 38 then qzs_l1_cb ∷ [] else qzs_l1_ca ∷ [];
      width = 30;
    }
    else if id == 4018
    then kind gps_cnav (gps_l2c ∷ [])
    else if id == 4019
    then kind gps_cnav (gps_l5_i ∷ [])
    else if id == 4067
    then kind qzs_cnav (qzs_l2c ∷ [])
    else if id == 4068
    then kind qzs_cnav (qzs_l5_i ∷ [])
    else if id == 4020
    then kind sbas_l1 (sbas_l1_signal ∷ [])
    else if id == 4021
    then kind sbas_l5 (sbas_l5_signal ∷ [])
    else if id == 4022
    then kind gal_fnav (gal_e5a_i ∷ [])
    else if id == 4023
    then kind gal_inav (inav_signals source)
    else if id == 4024
    then kind gal_cnav (gal_e6_b ∷ [])
    else if id == 4047
    then kind (bds_raw_family sat)
        (if source == 28 then bds_b1i ∷ [] else if source == 29 then bds_b2i ∷ [] else bds_b3i ∷ [])
    else if id == 4218
    then kind bds_bcnav1 (bds_b1c ∷ [])
    else if id == 4219
    then kind bds_bcnav2 (bds_b2a ∷ [])
    else if id == 4242
    then kind bds_b2b_unclassified (bds_b2b ∷ [])
    else if id == 4221
    then kind gps_cnav2 (gps_l1c ∷ [])
    else if id == 4227
    then kind qzs_cnav2 (qzs_l1c ∷ [])
    else if id == 4228
    then kind qzs_l1s (qzs_l1s_signal ∷ [])
    else if id == 4246
    then kind qzs_l5s (qzs_l5s_signal ∷ [])
    else if id == 4069 || id == 4270 || id == 4271
    then kind qzs_l6_unclassified (l6_signals id source)
    else kind no_family []

-- The record of a block whose satellite is known.
unfoldable pub sbf_located : ℕ → NavigationPage → RawBits → Option (System × ℕ) → Flow (RawBits × ℕ)
sbf_located id page counted none = leave unsupported
sbf_located id page counted (some (sys, sat)) =
    let k = sbf_kind id page.source sat in
    next (
      record counted {
        gpst_ms = page_time page;
        system = sys;
        satellite = sat;
        family = k.family;
        signals = k.signals;
      },
      k.width,
    )

-- The SBF header read into the record: satellite, time, counts, family and signals.
unfoldable pub sbf_identify : ℕ → NavigationPage → RawBits → Flow (RawBits × ℕ)
sbf_identify id page r =
    let counted = page_counts id page (record r { receiver_channel = some page.channel }) in
    if not (allows (allowed id) (signal_number id page.source))
    then leave unsupported
    else sbf_located id page counted (sbf_satellite page.satellite)
