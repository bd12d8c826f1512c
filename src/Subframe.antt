-- ===== src/Subframe.antt =====
-- libcppgnss/include/cppgnss/ubx_subframe.hpp and libcppgnss/src/ubx_subframe.cpp: the navigation
-- subframe of a UBX RXM-SFRBX message. The generated message type and its number are parameters.
use neo_gnss_observatory.Base.{ℕ, ◌+◌, ◌*◌, ◌%◌, ◌^◌, Bool, false, ◌&&◌, ◌||◌, not, List}
use neo_gnss_observatory.Base.{◌==◌, ltb, leb, if◌then◌else◌, Option, none, some, length, get_or}
use neo_gnss_observatory.Frame.{FrameView, id, protocol, same_protocol, ubx}
use neo_gnss_observatory.Parse.{ParseResult, parsed, refused, MessageType, parse}

pub record SignalKey : Type 0 where
  pub gnss_id : ℕ
  pub sv_id : ℕ
  pub sig_id : ℕ
  pub freq_id : ℕ

-- SignalKey::prn.
unfoldable pub prn : SignalKey → Option ℕ
prn s =
    if s.gnss_id == 0 || s.gnss_id == 2 || s.gnss_id == 3 || s.gnss_id == 7
    then (if s.sv_id == 0 then none else some s.sv_id)
    else if s.gnss_id == 1
    then (if leb 120 s.sv_id && leb s.sv_id 158 then some s.sv_id else none)
    else if s.gnss_id == 5
    then (if leb 1 s.sv_id && leb s.sv_id 10 then some ((s.sv_id + 192) % 2 ^ 16) else none)
    else none

pub record NavigationSubframe : Type 0 where
  pub signal : SignalKey
  pub version : ℕ
  pub chn : ℕ
  pub raw_freq_id : ℕ
  pub reserved0 : ℕ
  pub words : List ℕ

-- SubframeStatus with the optional subframe, which only `decoded` carries.
pub data SubframeResult : Type 0 where
  decoded : NavigationSubframe → SubframeResult
  not_sfrbx invalid_frame invalid_length unsupported_version : SubframeResult

-- The fields of the generated ubx_rxm_sfrbx.
pub record Sfrbx : Type 0 where
  pub gnss_id : ℕ
  pub sv_id : ℕ
  pub sig_id : ℕ
  pub freq_id : ℕ
  pub version : ℕ
  pub chn : ℕ
  pub reserved0 : ℕ
  pub dwrd : List ℕ

abbrev payload_at : FrameView → ℕ → ℕ
payload_at f i = get_or f.payload i 0

unfoldable pub subframe_of : ParseResult Sfrbx → SubframeResult
subframe_of (refused e) = invalid_frame
subframe_of (parsed m consumed) = decoded (record {
  signal = record {
    gnss_id = m.gnss_id;
    sv_id = m.sv_id;
    sig_id = m.sig_id;
    freq_id = if m.gnss_id == 6 then m.freq_id else 0;
  };
  version = m.version;
  chn = m.chn;
  raw_freq_id = m.freq_id;
  reserved0 = m.reserved0;
  words = m.dwrd;
})

abbrev pub has_id : Option ℕ → ℕ → Bool
has_id none k = false
has_id (some i) k = i == k

module _ (sfrbx : MessageType Sfrbx) (rxm_sfrbx : ℕ) where
  unfoldable pub parse_subframe : FrameView → SubframeResult
  unfolding subframe_of
  parse_subframe f =
      let n = payload_at f 4 in
      if not (same_protocol (protocol f) ubx)
      then invalid_frame
      else if not (has_id (id f) rxm_sfrbx)
      then not_sfrbx
      else if ltb (length f.payload) 8
      then invalid_length
      else if not (payload_at f 6 == 2)
      then unsupported_version
      else if n == 0 || ltb 16 n || not (length f.payload == 8 + 4 * n)
      then invalid_length
      else subframe_of (parse sfrbx f)
