-- ===== src/RawBits/Record.antt =====
-- The record types of libneognss-obs/include/neognss_obs/raw_bits.hpp. The source's names are views
-- of string literals that are never built at run time; each set of literals is a data type here.
-- `no_family`, `no_format` and `no_system` are the empty views of a record under construction.
use neo_gnss_observatory.Base.{ℕ, Bool, ◌&&◌, ◌||◌, List, [], leb}
use neo_gnss_observatory.Base.{Option, none, some}

-- bds_ppp_b2b_code_assigned.
unfoldable pub bds_ppp_b2b_code_assigned : ℕ → Bool
bds_ppp_b2b_code_assigned prn = leb 1 prn && leb prn 5 || leb 59 prn && leb prn 63

-- The names used while decoding, and the RINEX letters that replace them at the end.
pub data System : Type 0 where
  no_system gps gal bds qzs sbas : System
  letter_g letter_e letter_c letter_j letter_s : System

pub data Family : Type 0 where
  no_family gps_lnav qzs_lnav gps_cnav qzs_cnav gps_cnav2 qzs_cnav2 : Family
  sbas_l1 sbas_l5 gal_fnav gal_inav gal_cnav : Family
  bds_d1 bds_d2 bds_d1d2_unclassified bds_bcnav1 bds_bcnav2 bds_bcnav3 bds_ppp_b2b : Family
  bds_b2b_unclassified qzs_l1s qzs_l5s qzs_l6_unclassified : Family

pub data Signal : Type 0 where
  gps_l1_ca gps_l2c gps_l5_i gps_l1c qzs_l1_ca qzs_l1_cb qzs_l2c qzs_l5_i qzs_l1c : Signal
  qzs_l1s_signal qzs_l5s_signal qzs_l6d qzs_l6e sbas_l1_signal sbas_l5_signal : Signal
  gal_e1_b gal_e5a_i gal_e5b_i gal_e6_b bds_b1i bds_b2i bds_b3i bds_b1c bds_b2a bds_b2b : Signal

pub data Format : Type 0 where
  no_format lnav_300 cnav_300 inav_228 fnav_238 cnav_page_486 d1d2_300 bcnav1_1800 : Format
  bcnav2_576 b2b_984 cnav2_1800 l6_2000 sbas_l1_250 sbas_l5_250 qzs_l1s_250 qzs_l5s_250 : Format

-- The transmission unit, also the scope of most checks.
pub data Scope : Type 0 where
  message subframe page sf2 sf3 normalized_word_chain : Scope

pub data Content : Type 0 where
  navigation_bits binary_symbols : Content

pub data Origin : Type 0 where
  independent receiver : Origin

pub data CheckKind : Type 0 where
  crc parity bch reed_solomon : CheckKind

pub data CheckResult : Type 0 where
  pass fail unknown : CheckResult

pub data Evidence : Type 0 where
  computed source_field : Evidence

pub data SourceField : Type 0 where
  no_field crc_passed crc_sf2 crc_sf3 parity_field : SourceField

pub record RawBitsCheck : Type 0 where
  pub origin : Origin
  pub kind : CheckKind
  pub scope : Scope
  pub outcome : CheckResult
  pub evidence : Evidence
  pub field : SourceField

pub record RawBits : Type 0 where
  pub system : System
  pub family : Family
  pub format : Format
  pub unit : Scope
  pub content : Content
  pub satellite : ℕ
  pub signals : List Signal
  pub bit_length : ℕ
  pub body : List ℕ
  pub checks : List RawBitsCheck
  pub receiver_channel : Option ℕ
  pub viterbi_count : Option ℕ
  pub rs_corrected_symbols : Option ℕ
  pub gpst_ms : Option ℕ

-- A record with the defaults of the struct.
abbrev pub empty_record : RawBits
empty_record = record {
  system = no_system;
  family = no_family;
  format = no_format;
  unit = message;
  content = navigation_bits;
  satellite = 0;
  signals = [];
  bit_length = 0;
  body = [];
  checks = [];
  receiver_channel = none;
  viterbi_count = none;
  rs_corrected_symbols = none;
  gpst_ms = none;
}

-- RawBitsStatus without `decoded`, which alone comes with a record.
pub data Refusal : Type 0 where
  unrelated excluded unsupported malformed : Refusal

pub data RawBitsResult : Type 0 where
  dropped : Refusal → RawBitsResult
  decoded : RawBits → RawBitsResult

-- What a step of `decode` does: go on, return early, or throw.
pub data Flow (A : Type 0) : Type 0 where
  next : A → Flow A
  leave : Refusal → Flow A
  out_of_range : Flow A
  logic_error : Flow A

infixl 5 ◌>>=◌
abbrev pub ◌>>=◌ : {A B : Type 0} → Flow A → (A → Flow B) → Flow B
next a >>= k = k a
leave r >>= k = leave r
out_of_range >>= k = out_of_range
logic_error >>= k = logic_error

-- A read that may throw std::out_of_range.
abbrev pub reading : {A : Type 0} → Option A → Flow A
reading none = out_of_range
reading (some a) = next a
