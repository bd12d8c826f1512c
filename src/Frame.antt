-- ===== src/Frame.antt =====
-- The frame types of libcppgnss/include/cppgnss/stream.hpp and FrameView::id of
-- libcppgnss/src/stream.cpp. A byte is a number below 256, a std::span or std::string_view the
-- list of its bytes, and a thrown std::logic_error is `none`.
use neo_gnss_observatory.Base.{ℕ, Bool, true, false, List, [], ◌∷◌, Option, none, some}
use neo_gnss_observatory.Base.{◌==◌, if◌then◌else◌, drop, take}

pub data Protocol : Type 0 where
  ubx sbf rtcm3 nmea : Protocol

pub data FrameHeader : Type 0 where
  ubx_header : ℕ → FrameHeader
  sbf_header : ℕ → ℕ → FrameHeader
  rtcm3_header : ℕ → FrameHeader
  -- The address without its delimiter, and the delimiter.
  nmea_header : List ℕ → ℕ → FrameHeader

pub record FrameView : Type 0 where
  pub header : FrameHeader
  pub offset : ℕ
  pub wire : List ℕ
  pub payload : List ℕ

unfoldable pub header_protocol : FrameHeader → Protocol
header_protocol (ubx_header i) = ubx
header_protocol (sbf_header i r) = sbf
header_protocol (rtcm3_header i) = rtcm3
header_protocol (nmea_header a d) = nmea

unfoldable pub protocol : FrameView → Protocol
unfolding header_protocol
protocol f = header_protocol f.header

unfoldable pub header_id : FrameHeader → Option ℕ
header_id (ubx_header i) = some i
header_id (sbf_header i r) = some i
header_id (rtcm3_header i) = some i
header_id (nmea_header a d) = none

-- FrameView::id throws for NMEA, which has no numeric identifier.
unfoldable pub id : FrameView → Option ℕ
unfolding header_id
id f = header_id f.header

abbrev pub same_protocol : Protocol → Protocol → Bool
same_protocol ubx ubx = true
same_protocol sbf sbf = true
same_protocol rtcm3 rtcm3 = true
same_protocol nmea nmea = true
same_protocol _ _ = false

starts_with_p : List ℕ → Bool
starts_with_p [] = false
starts_with_p (c ∷ cs) = c == b'P'

-- NmeaHeader::talker: `P` of a proprietary address, else the first two bytes at most.
pub talker : List ℕ → List ℕ
unfolding starts_with_p
talker address = take (if starts_with_p address then 1 else 2) address

-- NmeaHeader::sentence: what follows the talker.
pub sentence : List ℕ → List ℕ
unfolding starts_with_p
sentence address = drop (if starts_with_p address then 1 else 2) address
