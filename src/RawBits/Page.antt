-- ===== src/RawBits/Page.antt =====
-- `navigation_page` of libneognss-obs/src/raw_bits.cpp, and what `decode_raw_bits` does with it. The
-- generated message types are parameters: for each block number a parser into the fields that the
-- source reads.
use Prim.Native.Nat.{bit_or}
use neo_gnss_observatory.Base.{ℕ, ◌*◌, ◌%◌, ◌^◌, ◌≡◌, ◌≢◌, List, Option, none, some, if◌then◌else◌}
use neo_gnss_observatory.Frame.{FrameView, id}
use neo_gnss_observatory.Parse.{ParseResult, parsed, refused, MessageType, parse}
use neo_gnss_observatory.Subframe.{Sfrbx}
use neo_gnss_observatory.RawBits.Record
use neo_gnss_observatory.RawBits.Record.{RawBits}
use neo_gnss_observatory.RawBits.Sbf.{NavigationPage}
use neo_gnss_observatory.RawBits.{decode_raw_bits}
use neo_gnss_observatory.RawBits.Total.{known_block}
use neo_gnss_observatory.RawBits.Shape.{IsWellFormed}
use neo_gnss_observatory.RawBits.Sound.{
  OnlyKnownBlocks, decode_raw_bits-ne-none, decode_raw_bits-IsWellFormed,
}

-- The field that a message has for its check: CRCSF2 and CRCSF3, Parity or CRCPassed.
pub data PageCheck : Type 0 where
  two_subframes : ℕ → ℕ → PageCheck
  parity_field : ℕ → PageCheck
  passed_field : ℕ → PageCheck

-- The fields of a generated SBF message; a field that only some messages have is an Option.
pub record SbfMessage : Type 0 where
  pub time_of_week : ℕ
  pub week_number : ℕ
  pub sv_id : ℕ
  pub sig_idx : ℕ
  pub l1bc_flag : Option ℕ
  pub rx_channel : ℕ
  pub check : PageCheck
  pub viterbi_cnt : Option ℕ
  pub rs_cnt : Option ℕ
  pub nav_bits : List ℕ

abbrev pub first_check : PageCheck → ℕ
first_check (two_subframes a b) = a
first_check (parity_field a) = a
first_check (passed_field a) = a

abbrev pub second_check : PageCheck → ℕ
second_check (two_subframes a b) = b
second_check _ = 0

abbrev pub with_flag : ℕ → Option ℕ → ℕ
with_flag s none = s
with_flag s (some flag) = bit_or s (flag * 32) % 2 ^ 8

abbrev pub page_of_message : SbfMessage → NavigationPage
page_of_message v = record {
  tow = v.time_of_week;
  week = v.week_number;
  satellite = v.sv_id;
  source = with_flag v.sig_idx v.l1bc_flag;
  channel = v.rx_channel;
  crc1 = first_check v.check;
  crc2 = second_check v.check;
  viterbi = v.viterbi_cnt;
  rs = v.rs_cnt;
  bits = v.nav_bits;
}

abbrev pub page_result : ParseResult SbfMessage → ParseResult NavigationPage
page_result (refused e) = refused e
page_result (parsed v used) = parsed (page_of_message v) used

-- The switch over the block's number.
unfoldable pub navigation_page :
    (ℕ → MessageType SbfMessage) → FrameView → Option (ParseResult NavigationPage)
unfolding parse
navigation_page messages f = elim (id f) [
  | none ↦ none
  | some n ↦ if known_block n then some (page_result (parse (messages n) f)) else none
]

module _ (messages : ℕ → MessageType SbfMessage) (sfrbx : MessageType Sfrbx) (rxm_sfrbx : ℕ) where
  navigation_page-OnlyKnownBlocks : OnlyKnownBlocks (navigation_page messages) sfrbx rxm_sfrbx
  unfolding navigation_page
  navigation_page-OnlyKnownBlocks f n e k = rw (e, k, navigation_page)

  -- Whatever the generated parsers give, decode_raw_bits returns for every frame: no exception
  -- leaves it.
  pub decode-ne-none :
      (f : FrameView) → decode_raw_bits (navigation_page messages) sfrbx rxm_sfrbx f ≢ none
  decode-ne-none =
      decode_raw_bits-ne-none (navigation_page messages) sfrbx rxm_sfrbx
        navigation_page-OnlyKnownBlocks

  -- Whatever the generated parsers give, every record that decode_raw_bits delivers has the number
  -- of bits that belongs to its format, a body of just the bytes that hold them, and a RINEX
  -- identity: a system letter G, E, C, J or S with a satellite number above 0, for J from 1 to 10
  -- and for S from 20 to 58.
  pub decode-IsWellFormed :
      (f : FrameView) (r : RawBits)
      → decode_raw_bits (navigation_page messages) sfrbx rxm_sfrbx f ≡ some (Record.decoded r)
      → IsWellFormed r
  decode-IsWellFormed =
      decode_raw_bits-IsWellFormed (navigation_page messages) sfrbx rxm_sfrbx
        navigation_page-OnlyKnownBlocks
