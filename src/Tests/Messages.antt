-- ===== src/Tests/Messages.antt =====
-- A GPS L1 C/A subframe in an SBF block 4017, decoded from end to end.
use neo_gnss_observatory.Base.{true, ℕ, ◌≡◌, ◌≢◌, refl, false, List, [], ◌∷◌, none, some}
use neo_gnss_observatory.Frame.{
  sbf, FrameView, sbf_header, id, ubx, header_id, protocol, header_protocol,
}
use neo_gnss_observatory.Parse.{parse, parsed, MessageType}
use neo_gnss_observatory.Subframe.{Sfrbx}
use neo_gnss_observatory.RawBits.Record
use neo_gnss_observatory.RawBits.Record.{RawBits}
use neo_gnss_observatory.RawBits.Bits.{
  unpack, resize, read_le32, word_at, physical, chunk, get_loop, value,
}
use neo_gnss_observatory.RawBits.Integrity.{
  push_result, push_receiver, push_crc, pack_loop, pack, lnav_parity, lnav_link, lnav_next,
  lnav_states, check_format, integrity,
}
use neo_gnss_observatory.RawBits.Sbf.{
  page_counts, signal_number, allowed, allows, page_time, sbf_satellite, sbf_kind, sbf_located,
  sbf_identify,
}
use neo_gnss_observatory.RawBits.Formats.{
  family_layout, family_system, needed_words, allows_extra_word, any_passed, b2b_family,
  rinex_identity,
}
use neo_gnss_observatory.RawBits.{
  classify_b2b, receiver_checks, rename, pair_pages, deliver, accept, complete, gather_page,
  gather_parsed, gather_sbf, gather_words, gather_ubx, decode_numbered, decode, settle,
  decode_raw_bits,
}
use neo_gnss_observatory.RawBits.Shape.{IsWellFormed}
use neo_gnss_observatory.RawBits.Page.{
  SbfMessage, passed_field, navigation_page, decode-ne-none, decode-IsWellFormed,
}

abbrev zeros : List ℕ
zeros =
    0 ∷ 0 ∷ 0 ∷ 0 ∷ 0 ∷ 0 ∷ 0 ∷ 0 ∷ 0 ∷ 0 ∷ 0 ∷ 0 ∷ 0 ∷ 0 ∷ 0 ∷ 0 ∷ 0 ∷ 0 ∷ 0 ∷ 0 ∷ 0 ∷ 0 ∷ 0 ∷ 0
    ∷ 0 ∷ 0 ∷ 0 ∷ 0 ∷ 0 ∷ 0 ∷ 0 ∷ 0 ∷ 0 ∷ 0 ∷ 0 ∷ 0 ∷ 0 ∷ 0 ∷ 0 ∷ 0 ∷ []

abbrev subframe_message : SbfMessage
subframe_message = record {
  time_of_week = 1000;
  week_number = 2300;
  sv_id = 5;
  sig_idx = 0;
  l1bc_flag = none;
  rx_channel = 7;
  check = passed_field 1;
  viterbi_cnt = none;
  rs_cnt = none;
  nav_bits = zeros;
}

-- Every parser reads this message.
abbrev messages : ℕ → MessageType SbfMessage
messages n = record {
  message_protocol = sbf;
  matches = λ f. true;
  decode_payload = λ f. parsed subframe_message 40;
}

abbrev no_sfrbx : MessageType Sfrbx
no_sfrbx = record {
  message_protocol = ubx;
  matches = λ f. false;
  decode_payload = λ f.
      parsed
        (record {
          gnss_id = 0;
          sv_id = 0;
          sig_id = 0;
          freq_id = 0;
          version = 2;
          chn = 0;
          reserved0 = 0;
          dwrd = [];
        })
        0;
}

abbrev frame : FrameView
frame = record { header = sbf_header 4017 0; offset = 0; wire = zeros; payload = zeros }

abbrev delivered : RawBits
delivered = record {
  system = Record.letter_g;
  family = Record.gps_lnav;
  format = Record.lnav_300;
  unit = Record.subframe;
  content = Record.navigation_bits;
  satellite = 5;
  signals = Record.gps_l1_ca ∷ [];
  bit_length = 300;
  body =
      0 ∷ 0 ∷ 0 ∷ 0 ∷ 0 ∷ 0 ∷ 0 ∷ 0 ∷ 0 ∷ 0 ∷ 0 ∷ 0 ∷ 0 ∷ 0 ∷ 0 ∷ 0 ∷ 0 ∷ 0 ∷ 0 ∷ 0 ∷ 0 ∷ 0 ∷ 0 ∷ 0
      ∷ 0 ∷ 0 ∷ 0 ∷ 0 ∷ 0 ∷ 0 ∷ 0 ∷ 0 ∷ 0 ∷ 0 ∷ 0 ∷ 0 ∷ 0 ∷ 0 ∷ [];
  checks =
      record {
        origin = Record.independent;
        kind = Record.parity;
        scope = Record.normalized_word_chain;
        outcome = Record.pass;
        evidence = Record.computed;
        field = Record.no_field;
      }
      ∷ record {
        origin = Record.receiver;
        kind = Record.parity;
        scope = Record.subframe;
        outcome = Record.pass;
        evidence = Record.source_field;
        field = Record.crc_passed;
      }
      ∷ [];
  receiver_channel = some 7;
  viterbi_count = none;
  rs_corrected_symbols = none;
  gpst_ms = some 1391040001000;
}

delivered_by :
    decode_raw_bits (navigation_page messages) no_sfrbx 0x0213 frame
    ≡ some (Record.decoded delivered)
unfolding navigation_page parse id header_id protocol header_protocol classify_b2b receiver_checks
    rename pair_pages deliver accept complete gather_page gather_parsed gather_sbf gather_words
    gather_ubx decode_numbered decode settle decode_raw_bits unpack resize read_le32 word_at
    physical chunk get_loop value push_result push_receiver push_crc pack_loop pack lnav_parity
    lnav_link lnav_next lnav_states check_format integrity page_counts signal_number allowed allows
    page_time sbf_satellite sbf_kind sbf_located sbf_identify family_layout family_system
    needed_words allows_extra_word any_passed b2b_family rinex_identity
delivered_by = refl

decode-ne-none_example : decode_raw_bits (navigation_page messages) no_sfrbx 0x0213 frame ≢ none
decode-ne-none_example = decode-ne-none messages no_sfrbx 0x0213 frame

decode-IsWellFormed_example : IsWellFormed delivered
decode-IsWellFormed_example =
    decode-IsWellFormed messages no_sfrbx 0x0213 frame delivered delivered_by
