-- ===== src/RawBits/Ubx.antt =====
-- The UBX half of `decode` in libneognss-obs/src/raw_bits.cpp: from the identifiers of an RXM-SFRBX
-- subframe to the satellite, the message family and the signals.
use neo_gnss_observatory.Base.{ℕ, Bool, true, false, ◌&&◌, ◌||◌, not, List, [], ◌∷◌, none, some}
use neo_gnss_observatory.Base.{leb, ◌==◌, if◌then◌else◌}
use neo_gnss_observatory.Base.{Option, none, some}
use neo_gnss_observatory.Subframe.{NavigationSubframe, prn}
use neo_gnss_observatory.RawBits.Record.{
  System, gps, gal, bds, qzs, sbas, no_system, gps_lnav, qzs_lnav, gps_cnav, qzs_cnav, sbas_l1,
  gal_fnav, gal_inav, bds_d1, bds_d2, qzs_l1s, no_family, gps_l1_ca, gps_l2c, gps_l5_i, qzs_l1_ca,
  qzs_l2c, qzs_l5_i, qzs_l1s_signal, sbas_l1_signal, gal_e1_b, gal_e5a_i, gal_e5b_i, bds_b1i,
  bds_b2i, bds_b3i, RawBits, Family, Signal, excluded, unsupported, Flow, next, leave,
}
use neo_gnss_observatory.RawBits.Sbf.{Kind, kind}

-- `r.family.empty()`.
unfoldable pub is_empty_family : Family → Bool
is_empty_family no_family = true
is_empty_family other = false

-- What a signal says of the system and the message; the empty family where it is not supported.
pub record Source : Type 0 where
  pub system : System
  pub message_kind : Kind

abbrev source : System → Family → List Signal → Source
source sys f signals = record { system = sys; message_kind = kind f signals }

abbrev narrow : System → Family → List Signal → Source
narrow sys f signals = record {
  system = sys;
  message_kind = record { family = f; signals = signals; width = 30 };
}

-- GPS and QZSS share their branch; the flag says which it is.
unfoldable pub gps_qzs_source : Bool → ℕ → Source
gps_qzs_source is_gps sig =
    let sys = if is_gps then gps else qzs in
    if sig == 0
    then (if is_gps
        then narrow gps gps_lnav (gps_l1_ca ∷ [])
        else narrow qzs qzs_lnav (qzs_l1_ca ∷ []))
    else if is_gps && (sig == 3 || sig == 4) || not is_gps && (sig == 4 || sig == 5)
    then (if is_gps then source gps gps_cnav (gps_l2c ∷ []) else source qzs qzs_cnav (qzs_l2c ∷ []))
    else if is_gps && sig == 6 || not is_gps && sig == 8
    then (if is_gps
        then source gps gps_cnav (gps_l5_i ∷ [])
        else source qzs qzs_cnav (qzs_l5_i ∷ []))
    else if not is_gps && sig == 1
    then source qzs qzs_l1s (qzs_l1s_signal ∷ [])
    else source sys no_family []

unfoldable pub gal_source : ℕ → Source
gal_source sig =
    if sig == 1 || sig == 5
    then source gal gal_inav (if sig == 1 then gal_e1_b ∷ [] else gal_e5b_i ∷ [])
    else if sig == 3
    then source gal gal_fnav (gal_e5a_i ∷ [])
    else source gal no_family []

unfoldable pub bds_source : ℕ → Source
bds_source sig =
    if leb sig 4 || sig == 10
    then narrow bds (if sig == 1 || sig == 3 || sig == 10 then bds_d2 else bds_d1)
        (if leb sig 1 then bds_b1i ∷ [] else if leb sig 3 then bds_b2i ∷ [] else bds_b3i ∷ [])
    else source bds no_family []

unfoldable pub ubx_source : ℕ → ℕ → Source
unfolding gps_qzs_source gal_source bds_source
ubx_source g sig =
    if g == 0 || g == 5
    then gps_qzs_source (g == 0) sig
    else if g == 1 && sig == 0
    then source sbas sbas_l1 (sbas_l1_signal ∷ [])
    else if g == 2
    then gal_source sig
    else if g == 3
    then bds_source sig
    else source no_system no_family []

-- The record of a subframe whose satellite is known.
unfoldable pub ubx_located : NavigationSubframe → RawBits → Option ℕ → Flow (RawBits × ℕ)
ubx_located s r none = leave unsupported
ubx_located s r (some satellite) =
    let from = ubx_source s.signal.gnss_id s.signal.sig_id in
    if is_empty_family from.message_kind.family
    then leave unsupported
    else next (
      record r {
        receiver_channel = some s.chn;
        satellite = satellite;
        system = from.system;
        family = from.message_kind.family;
        signals = from.message_kind.signals;
      },
      from.message_kind.width,
    )

-- The subframe's identifiers read into the record, with the bits used of each word.
unfoldable pub ubx_identify : NavigationSubframe → RawBits → Flow (RawBits × ℕ)
ubx_identify s r =
    if s.signal.gnss_id == 6 || s.signal.gnss_id == 7
    then leave excluded
    else ubx_located s r (prn s.signal)
