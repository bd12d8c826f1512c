-- ===== src/Sbas/Content.antt =====
-- The message types of libneognss-obs/include/neognss_obs/sbas.hpp. An array is the list of its
-- elements. A double that is an integer times a constant is kept as the two factors.
use neo_gnss_observatory.Base.{ℕ, Bool, List, Option, none, some, ◌==◌, if◌then◌else◌}
use neo_gnss_observatory.Base.Int.{ℤ, pos}

pub record Product : Type 0 where
  pub raw : ℤ
  pub numerator : ℕ
  pub denominator : ℕ

abbrev pub times : ℤ → ℕ → ℕ → Product
times z n d = record { raw = z; numerator = n; denominator = d }

pub record FastCorrection : Type 0 where
  pub correction_raw : ℤ
  pub udrei : ℕ

abbrev pub correction_m : FastCorrection → Product
correction_m c = times c.correction_raw 1 8

pub record FastCorrections : Type 0 where
  pub iodf : ℕ
  pub iodp : ℕ
  pub first_mask_position : ℕ
  pub satellites : List FastCorrection

pub record PrnMask : Type 0 where
  pub iodp : ℕ
  pub mask : List Bool

pub record Integrity : Type 0 where
  pub iodf : List ℕ
  pub udrei : List ℕ

pub record FastDegradation : Type 0 where
  pub latency_s : ℕ
  pub iodp : ℕ
  pub degradation_index : List ℕ

pub record GeoNavigation : Type 0 where
  pub iodn_raw : ℕ
  pub ura : ℕ
  pub t0_raw : ℕ
  pub position_raw : List ℤ
  pub velocity_raw : List ℤ
  pub acceleration_raw : List ℤ
  pub clock_offset_raw : ℤ
  pub clock_drift_raw : ℤ

pub record IonosphericMask : Type 0 where
  pub number_of_bands_raw : ℕ
  pub band : ℕ
  pub iodi : ℕ
  pub mask : List Bool

pub data IgpStatus : Type 0 where
  usable not_monitored do_not_use : IgpStatus

pub record IonosphericCorrection : Type 0 where
  pub delay_raw : ℕ
  pub givei : ℕ

unfoldable pub igp_status : IonosphericCorrection → IgpStatus
igp_status c =
    if c.delay_raw == 511 then do_not_use else if c.givei == 15 then not_monitored else usable

unfoldable pub delay_m : IonosphericCorrection → Option Product
delay_m c = if c.delay_raw == 511 then none else some (times (pos c.delay_raw) 1 8)

pub record IonosphericDelay : Type 0 where
  pub band : ℕ
  pub block : ℕ
  pub iodi : ℕ
  pub corrections : List IonosphericCorrection

pub record Degradation : Type 0 where
  pub brrc_m : Product
  pub cltc_lsb_m : Product
  pub cltc_v1_m_s : Product
  pub iltc_v1_s : ℕ
  pub cltc_v0_m : Product
  pub iltc_v0_s : ℕ
  pub cgeo_lsb_m : Product
  pub cgeo_v_m_s : Product
  pub igeo_s : ℕ
  pub cer_m : Product
  pub ciono_step_m : Product
  pub iiono_s : ℕ
  pub ciono_ramp_m_s : Product
  pub rss_udre : Bool
  pub rss_iono : Bool
  pub ccovariance : Product

pub record NetworkTime : Type 0 where
  pub a0_raw : ℤ
  pub a1_raw : ℤ
  pub reference_tow_s : ℕ
  pub gps_tow_s : ℕ
  pub reference_week_mod256 : ℕ
  pub leap_week_mod256 : ℕ
  pub leap_day : ℕ
  pub utc_id : ℕ
  pub leap_seconds : ℤ
  pub future_leap_seconds : ℤ
  pub gps_week_mod1024 : ℕ

pub record GeoAlmanacEntry : Type 0 where
  pub prn : ℕ
  pub health_status : ℕ
  pub position_m : List Product
  pub velocity_m_s : List Product

pub record GeoAlmanac : Type 0 where
  pub reference_sod_s : ℕ
  pub entries : List GeoAlmanacEntry

-- The fields that only a velocity code has.
pub record Velocity : Type 0 where
  pub delta_velocity_m_s : List Product
  pub clock_drift_raw : ℤ
  pub reference_sod_s : ℕ

pub record LongTermEntry : Type 0 where
  pub half : ℕ
  pub mask_position : ℕ
  pub issue : ℕ
  pub iodp : ℕ
  pub velocity_code : Bool
  pub delta_position_m : List Product
  pub clock_offset_raw : ℤ
  pub velocity : Option Velocity

pub record MixedCorrections : Type 0 where
  pub iodp : ℕ
  pub iodf : ℕ
  pub fast_block : ℕ
  pub fast : List FastCorrection
  pub long_term : List LongTermEntry

pub record ServiceRegion : Type 0 where
  pub latitude1_deg : ℤ
  pub longitude1_deg : ℤ
  pub latitude2_deg : ℤ
  pub longitude2_deg : ℤ
  pub quadrangle : Bool

pub record ServiceMessage : Type 0 where
  pub iods : ℕ
  pub message_count : ℕ
  pub message_number : ℕ
  pub priority : ℕ
  pub delta_udre_inside_index : ℕ
  pub delta_udre_outside_index : ℕ
  pub regions : List ServiceRegion

pub record CovarianceEntry : Type 0 where
  pub mask_position : ℕ
  pub scale_exponent : ℕ
  pub elements : List ℤ

pub record Covariance : Type 0 where
  pub iodp : ℕ
  pub entries : List CovarianceEntry

-- The variant of the message; `test_mode` has the corrections of an embedded message 2.
pub data Content : Type 0 where
  no_content : Content
  test_mode : Option FastCorrections → Content
  null_message : Content
  prn_mask : PrnMask → Content
  fast_corrections : FastCorrections → Content
  integrity : Integrity → Content
  fast_degradation : FastDegradation → Content
  geo_navigation : GeoNavigation → Content
  ionospheric_mask : IonosphericMask → Content
  ionospheric_delay : IonosphericDelay → Content
  degradation : Degradation → Content
  network_time : NetworkTime → Content
  geo_almanac : GeoAlmanac → Content
  long_term : List LongTermEntry → Content
  mixed : MixedCorrections → Content
  service : ServiceMessage → Content
  covariance : Covariance → Content

pub data L1Profile : Type 0 where
  standard southpan_open : L1Profile

pub record Message : Type 0 where
  pub bytes : List ℕ
  pub padding_bits : ℕ
  pub preamble : ℕ
  pub type : ℕ
  pub received_crc : ℕ
  pub computed_crc : ℕ
  pub preamble_valid : Bool
  pub crc_valid : Bool
  pub content : Content

pub data Status : Type 0 where
  decoded invalid_word_count invalid_preamble invalid_crc unsupported_message invalid_content :
      Status

pub record Result : Type 0 where
  pub status : Status
  pub message : Option Message
