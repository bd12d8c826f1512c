-- ===== src/RawBits/Formats.antt =====
-- The end of `decode` in libneognss-obs/src/raw_bits.cpp: the body's format by family, the number of
-- words it needs, the message type of a B2b page and the RINEX letter of the satellite.
use neo_gnss_observatory.Base.{
  ℕ, ◌+◌, ◌-◌, ◌/◌, ◌%◌, ◌^◌, Bool, true, false, ◌&&◌, ◌||◌, not, List, [],
}
use neo_gnss_observatory.Base.{◌∷◌, Option, none, some, leb, ◌==◌, if◌then◌else◌}
use neo_gnss_observatory.RawBits.Record.{
  System, no_system, gps, gal, bds, qzs, sbas, letter_g, letter_e, letter_c, letter_j, letter_s,
  Family, no_family, gps_lnav, qzs_lnav, gps_cnav, qzs_cnav, gps_cnav2, qzs_cnav2, sbas_l1, sbas_l5,
  gal_fnav, gal_inav, gal_cnav, bds_d1, bds_d2, bds_d1d2_unclassified, bds_bcnav1, bds_bcnav2,
  bds_bcnav3, bds_ppp_b2b, bds_b2b_unclassified, qzs_l1s, qzs_l5s, qzs_l6_unclassified, Format,
  lnav_300, cnav_300, inav_228, fnav_238, cnav_page_486, d1d2_300, bcnav1_1800, bcnav2_576, b2b_984,
  cnav2_1800, l6_2000, sbas_l1_250, sbas_l5_250, qzs_l1s_250, qzs_l5s_250, Scope, message, subframe,
  page, RawBitsCheck, Origin, CheckKind, CheckResult, independent, crc, pass,
  bds_ppp_b2b_code_assigned,
}

pub record Layout : Type 0 where
  pub format : Format
  pub length : ℕ
  pub unit : Scope

abbrev layout : Format → ℕ → Scope → Option Layout
layout f n u = some (record { format = f; length = n; unit = u })

-- The chain of tests on the family; `none` is its std::logic_error.
unfoldable pub family_layout : Family → Option Layout
family_layout gps_lnav = layout lnav_300 300 subframe
family_layout qzs_lnav = layout lnav_300 300 subframe
family_layout gps_cnav = layout cnav_300 300 message
family_layout qzs_cnav = layout cnav_300 300 message
family_layout gal_inav = layout inav_228 228 page
family_layout gal_fnav = layout fnav_238 238 page
family_layout gal_cnav = layout cnav_page_486 486 page
family_layout bds_d1 = layout d1d2_300 300 subframe
family_layout bds_d2 = layout d1d2_300 300 subframe
family_layout bds_d1d2_unclassified = layout d1d2_300 300 subframe
family_layout bds_bcnav1 = layout bcnav1_1800 1800 message
family_layout bds_bcnav2 = layout bcnav2_576 576 message
family_layout bds_b2b_unclassified = layout b2b_984 984 message
family_layout gps_cnav2 = layout cnav2_1800 1800 message
family_layout qzs_cnav2 = layout cnav2_1800 1800 message
family_layout qzs_l6_unclassified = layout l6_2000 2000 message
family_layout sbas_l1 = layout sbas_l1_250 250 message
family_layout sbas_l5 = layout sbas_l5_250 250 message
family_layout qzs_l1s = layout qzs_l1s_250 250 message
family_layout qzs_l5s = layout qzs_l5s_250 250 message
family_layout no_family = none
family_layout bds_bcnav3 = none
family_layout bds_ppp_b2b = none

-- `family.substr(0, family.find('_'))`.
unfoldable pub family_system : Family → System
family_system no_family = no_system
family_system gps_lnav = gps
family_system gps_cnav = gps
family_system gps_cnav2 = gps
family_system qzs_lnav = qzs
family_system qzs_cnav = qzs
family_system qzs_cnav2 = qzs
family_system qzs_l1s = qzs
family_system qzs_l5s = qzs
family_system qzs_l6_unclassified = qzs
family_system sbas_l1 = sbas
family_system sbas_l5 = sbas
family_system gal_fnav = gal
family_system gal_inav = gal
family_system gal_cnav = gal
family_system other = bds

abbrev pub same_system : System → System → Bool
same_system gps gps = true
same_system gal gal = true
same_system bds bds = true
same_system qzs qzs = true
same_system sbas sbas = true
same_system no_system no_system = true
same_system letter_g letter_g = true
same_system letter_e letter_e = true
same_system letter_c letter_c = true
same_system letter_j letter_j = true
same_system letter_s letter_s = true
same_system _ _ = false

abbrev pub is_lnav : Format → Bool
is_lnav lnav_300 = true
is_lnav _ = false

abbrev pub is_d1d2 : Format → Bool
is_d1d2 d1d2_300 = true
is_d1d2 _ = false

abbrev pub is_inav : Format → Bool
is_inav inav_228 = true
is_inav _ = false

-- How many words the receiver must have delivered.
unfoldable pub needed_words : Bool → Format → ℕ → ℕ
needed_words is_sbf f len =
    if is_lnav f || not is_sbf && is_d1d2 f
    then 10
    else if not is_sbf && is_inav f
    then 8
    else (len + 31) / 32

-- UBX messages of two families may carry one word more.
unfoldable pub allows_extra_word : Bool → Family → Bool
allows_extra_word true f = false
allows_extra_word false sbas_l1 = true
allows_extra_word false qzs_l1s = true
allows_extra_word false other = false

abbrev is_independent : Origin → Bool
is_independent independent = true
is_independent _ = false

abbrev is_crc : CheckKind → Bool
is_crc crc = true
is_crc _ = false

abbrev is_message : Scope → Bool
is_message message = true
is_message _ = false

abbrev is_pass : CheckResult → Bool
is_pass pass = true
is_pass _ = false

unfoldable pub is_passed_message_crc : RawBitsCheck → Bool
is_passed_message_crc c =
    is_independent c.origin && is_crc c.kind && is_message c.scope && is_pass c.outcome

unfoldable pub any_passed : List RawBitsCheck → Bool
unfolding is_passed_message_crc
any_passed [] = false
any_passed (c ∷ cs) = is_passed_message_crc c || any_passed cs

-- The family of a B2b page whose gate holds, by its message type.
unfoldable pub b2b_family : ℕ → ℕ → Family
unfolding bds_ppp_b2b_code_assigned
b2b_family type sat =
    if type == 10 || type == 30 || type == 40
    then bds_bcnav3
    else if (leb 1 type && leb type 7 || type == 63) && bds_ppp_b2b_code_assigned sat
    then bds_ppp_b2b
    else bds_b2b_unclassified

-- The RINEX letter, with the satellite number inside its system; a uint16_t wraps.
unfoldable pub rinex_identity : System → ℕ → System × ℕ
rinex_identity gps n = (letter_g, n)
rinex_identity gal n = (letter_e, n)
rinex_identity bds n = (letter_c, n)
rinex_identity qzs n = (letter_j, (n + 2 ^ 16 - 192) % 2 ^ 16)
rinex_identity sbas n = (letter_s, (n + 2 ^ 16 - 100) % 2 ^ 16)
rinex_identity other n = (other, n)
