-- ===== src/RawBits.antt =====
-- `decode` and `decode_raw_bits` of libneognss-obs/src/raw_bits.cpp: a validated frame to a record of
-- the navigation bits that it carries. The copying of the fields of the generated SBF parsers
-- (`navigation_page`, which Page fills), the generated RXM-SFRBX type and its number are parameters.
pub mod Bits
pub mod Record
pub mod Integrity
pub mod Sbf
pub mod Ubx
pub mod Formats
pub mod Total
pub mod Shape
pub mod WellFormed
pub mod Sound
pub mod Page
use neo_gnss_observatory.Base.{ℕ, suc, ◌+◌, ◌*◌, ◌/◌, Bool, true, false, ◌&&◌, ◌||◌, not, List, []}
use neo_gnss_observatory.Base.{Option, none, some, ltb, leb, ◌==◌, if◌then◌else◌, length}
use neo_gnss_observatory.Frame.{FrameView, id, protocol, same_protocol, ubx, sbf}
use neo_gnss_observatory.Parse.{
  ParseResult, parsed, refused, ParseErrorCode, unsupported_revision, MessageType,
}
use neo_gnss_observatory.Subframe.{Sfrbx, SubframeResult, parse_subframe, has_id}
use neo_gnss_observatory.Subframe
use Bits.{value, unpack, resize}
use Record.{
  System, bds, Family, bds_b2b_unclassified, Format, lnav_300, d1d2_300, inav_228, Scope, sf2, sf3,
  binary_symbols, navigation_bits, CheckKind, crc, parity, bch, reed_solomon, crc_passed, crc_sf2,
  crc_sf3, parity_field, RawBits, RawBitsResult, empty_record, Flow, next, leave, out_of_range,
  logic_error, reading, ◌>>=◌,
}
use Record
use Integrity.{push_receiver, pack, integrity}
use Sbf.{NavigationPage, sbf_identify}
use Ubx.{ubx_identify}
use Formats.{
  Layout, family_layout, family_system, same_system, is_inav, needed_words, allows_extra_word,
  any_passed, b2b_family, rinex_identity,
}

-- What both halves of `decode` hand on: the record so far, the view of the words, the number of
-- words delivered, and the two receiver verdicts.
pub record Gathered : Type 0 where
  pub rec : RawBits
  pub view : Bits.Bits
  pub actual_words : ℕ
  pub crc1 : ℕ
  pub crc2 : ℕ

abbrev is_unsupported_revision : ParseErrorCode → Bool
is_unsupported_revision unsupported_revision = true
is_unsupported_revision _ = false

abbrev is_b2b : Family → Bool
is_b2b bds_b2b_unclassified = true
is_b2b _ = false

-- Whether the unprotected prefix and both verdicts let the message type name the family.
b2b_gate : Bool → RawBits → ℕ → ℕ → Bool
b2b_gate is_sbf r crc1 prefix =
    is_sbf && is_b2b r.family && crc1 == 1 && prefix == r.satellite && any_passed r.checks

-- The reclassification of a B2b page.
unfoldable pub classify_b2b : Bool → ℕ → Bits.Bits → RawBits → Flow RawBits
unfolding b2b_gate
classify_b2b is_sbf crc1 b r =
    if is_sbf && is_b2b r.family && crc1 == 1
    then (reading (value b 0 6) >>= λ prefix.
        if b2b_gate is_sbf r crc1 prefix
        then (reading (value b 12 18) >>= λ type.
            next (record r { family = b2b_family type r.satellite }))
        else next r)
    else next r

receiver_kind : ℕ → Format → CheckKind
receiver_kind len lnav_300 = parity
receiver_kind len d1d2_300 = bch
receiver_kind len other = if len == 2000 then reed_solomon else crc

-- The receiver's own checks, which only SBF carries.
unfoldable pub receiver_checks : Bool → ℕ → ℕ → ℕ → RawBits → RawBits
unfolding receiver_kind
receiver_checks false len crc1 crc2 r = r
receiver_checks true len crc1 crc2 r =
    if len == 1800
    then push_receiver (push_receiver r crc sf2 crc1 crc_sf2) crc sf3 crc2 crc_sf3
    else push_receiver r (receiver_kind len r.format) r.unit crc1
        (if len == 2000 then parity_field else crc_passed)

-- The RINEX identity replaces the system and the satellite number.
unfoldable pub rename : RawBits → RawBits
unfolding rinex_identity
rename r =
    let (letter, n) = rinex_identity r.system r.satellite in
    record r { system = letter; satellite = n }

-- A UBX page of I/NAV is a pair of half pages with tail bits between and behind them.
unfoldable pub pair_pages : Bool → Format → Bits.Bits → Flow Bits.Bits
pair_pages is_sbf f b =
    if not is_sbf && is_inav f
    then (if ltb b.size 242
        then leave Record.malformed
        else reading (resize (record b { inav_pair = true }) 228))
    else next b

abbrev lay_out : Option Layout → Flow Layout
lay_out none = logic_error
lay_out (some l) = next l

-- The body is cut, packed and checked, and the identity is made final.
unfoldable pub deliver : Bool → ℕ → ℕ → ℕ → Bits.Bits → RawBits → Flow RawBits
unfolding classify_b2b receiver_checks rename
deliver is_sbf len crc1 crc2 b r = do
  cut ← reading (resize b len)
  packed ← reading (pack r cut)
  checked ← reading (integrity packed cut)
  classified ← classify_b2b is_sbf crc1 cut checked
  next (rename (receiver_checks is_sbf len crc1 crc2 classified))

abbrev laid_out : Layout → RawBits → RawBits
laid_out l r = record r {
  format = l.format;
  unit = l.unit;
  content = if leb 576 l.length then binary_symbols else navigation_bits;
}

-- The tests before a body is accepted.
unfoldable pub accept : Bool → Gathered → Layout → Bits.Bits → Flow RawBits
unfolding deliver
accept is_sbf g l b =
    let words = needed_words is_sbf l.format l.length in
    let extra = allows_extra_word is_sbf g.rec.family && g.actual_words == words + 1 in
    if not (g.actual_words == words) && not extra
    then leave Record.malformed
    else if not (same_system (family_system g.rec.family) g.rec.system)
    then leave Record.unsupported
    else if ltb b.size l.length
    then leave Record.malformed
    else deliver is_sbf l.length g.crc1 g.crc2 b (laid_out l g.rec)

-- From the identified message to the finished record.
unfoldable pub complete : Bool → Gathered → Flow RawBits
unfolding pair_pages accept
complete is_sbf g = do
  l ← lay_out (family_layout g.rec.family)
  b ← pair_pages is_sbf l.format g.view
  accept is_sbf g l b

module _ (navigation_page : FrameView → Option (ParseResult NavigationPage))
    (sfrbx : MessageType Sfrbx) (rxm_sfrbx : ℕ) where
  unfoldable pub gather_page : FrameView → ℕ → ParseResult NavigationPage → Flow Gathered
  gather_page f block (refused e) =
      leave (if is_unsupported_revision e.code then Record.unsupported else Record.malformed)
  gather_page f block (parsed page n) = do
    (r, width) ← sbf_identify block page empty_record
    next (record {
      rec = r;
      view = unpack page.bits width;
      actual_words = length page.bits / 4;
      crc1 = page.crc1;
      crc2 = page.crc2;
    })

  unfoldable pub gather_parsed : FrameView → ℕ → Option (ParseResult NavigationPage) → Flow Gathered
  gather_parsed f block none = leave Record.unrelated
  gather_parsed f block (some page) = gather_page f block page

  unfoldable pub gather_sbf : FrameView → ℕ → Flow Gathered
  gather_sbf f block =
      if block == 4026 || block == 4093
      then leave Record.excluded
      else gather_parsed f block (navigation_page f)

  unfoldable pub gather_words : SubframeResult → Flow Gathered
  gather_words (Subframe.decoded s) = do
    (r, width) ← ubx_identify s empty_record
    next (record {
      rec = r;
      view = record {
        bytes = [];
        words = s.words;
        width = width;
        size = length s.words * width;
        inav_pair = false;
      };
      actual_words = length s.words;
      crc1 = 0;
      crc2 = 0;
    })
  gather_words other = leave Record.malformed

  unfoldable pub gather_ubx : FrameView → ℕ → Flow Gathered
  gather_ubx f message =
      if not (message == 0x0213)
      then leave Record.unrelated
      else gather_words (parse_subframe sfrbx rxm_sfrbx f)

  unfoldable pub decode_numbered : FrameView → Option ℕ → Flow RawBits
  decode_numbered f none = leave Record.unrelated
  decode_numbered f (some number) =
      if same_protocol (protocol f) sbf
      then (gather_sbf f number >>= complete true)
      else if same_protocol (protocol f) ubx
      then (gather_ubx f number >>= complete false)
      else leave Record.unrelated

  -- Only UBX and SBF frames are looked at; both have a number.
  unfoldable pub decode : FrameView → Flow RawBits
  decode f = decode_numbered f (id f)

  -- `none` is a std::logic_error that leaves the function.
  unfoldable pub settle : Flow RawBits → Option RawBitsResult
  settle (next r) = some (Record.decoded r)
  settle (leave r) = some (Record.dropped r)
  settle out_of_range = some (Record.dropped Record.malformed)
  settle logic_error = none

  unfoldable pub decode_raw_bits : FrameView → Option RawBitsResult
  decode_raw_bits f = settle (decode f)
