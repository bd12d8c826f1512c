-- ===== src/Tests/Streams.antt =====
-- Checksums, the stream decoder and the archive scan on concrete bytes.
use neo_gnss_observatory.Base.{
  ℕ, ◌≡◌, refl, false, List, [], ◌∷◌, ◌++◌, some, arith, IsBytes, length,
}
use neo_gnss_observatory.Base.Int.{pos}
use neo_gnss_observatory.Frame.{ubx, FrameView}
use neo_gnss_observatory.Crc.{sbf_crc, rtcm3_crc}
use neo_gnss_observatory.Crc.Reference.{crc16, message_bits, sbf_crc-crc16}
use neo_gnss_observatory.Stream.{fresh, Callback, returned, feed}
use neo_gnss_observatory.Stream.Split.{HasShortLines}
use neo_gnss_observatory.Stream.Chunks.{Agree, and_then, feed-append}
use neo_gnss_observatory.Stream.Account.{Accounts, feed-Accounts}
use neo_gnss_observatory.Archive.Epoch.{Event, Float64}
use neo_gnss_observatory.Archive.Scan.{scan_archive}
use neo_gnss_observatory.Archive.Held.{Tiles}
use neo_gnss_observatory.Archive.Partition.{scan_archive-Tiles}

-- The text 123456789, whose CRC-16/XMODEM is known.
abbrev check_text : List ℕ
check_text = 49 ∷ 50 ∷ 51 ∷ 52 ∷ 53 ∷ 54 ∷ 55 ∷ 56 ∷ 57 ∷ []

check_text-IsBytes : IsBytes check_text
check_text-IsBytes = ground arith

sbf_crc_check : sbf_crc check_text ≡ 0x31c3
unfolding sbf_crc
sbf_crc_check = refl

rtcm3_crc_check : rtcm3_crc check_text ≡ 0xcde703
unfolding rtcm3_crc
rtcm3_crc_check = refl

sbf_crc-crc16_example : sbf_crc check_text ≡ crc16 0 (message_bits check_text)
sbf_crc-crc16_example = sbf_crc-crc16 check_text check_text-IsBytes

-- UBX-ACK-ACK in two parts, with a byte of noise before it.
abbrev first_part : List ℕ
first_part = 0x00 ∷ 0xb5 ∷ 0x62 ∷ 0x05 ∷ 0x01 ∷ []

abbrev second_part : List ℕ
second_part = 0x02 ∷ 0x00 ∷ 0x06 ∷ 0x01 ∷ 0x0f ∷ 0x38 ∷ []

abbrev keep : FrameView → List FrameView → Callback (List FrameView)
keep f fs = returned (f ∷ fs)

parts-HasShortLines : HasShortLines ([] ++ first_part ++ second_part)
parts-HasShortLines = ground arith

feed-append_example :
    Agree
      (and_then (feed keep (fresh (ubx ∷ [])) [] first_part) (λ d' u'. feed keep d' u' second_part))
      (feed keep (fresh (ubx ∷ [])) [] (first_part ++ second_part))
feed-append_example =
    feed-append keep (fresh (ubx ∷ [])) [] first_part second_part parts-HasShortLines

feed-Accounts_example :
    Accounts keep (fresh (ubx ∷ [])) first_part (feed keep (fresh (ubx ∷ [])) [] first_part)
feed-Accounts_example = feed-Accounts keep (fresh (ubx ∷ [])) [] first_part

-- A reader of numbers for which no time of a measurement is finite.
abbrev no_floats : Float64
no_floats = record {
  Double = List ℕ;
  read = λ bytes. bytes;
  is_finite = λ t. false;
  is_negative = λ t. false;
  below = λ t n. false;
  round_thousandfold = λ t. pos 0;
}

scan_archive-Tiles_example :
    (es : List Event) × (scan_archive no_floats (first_part ++ second_part) ≡ some es)
    × Tiles 0 (length (first_part ++ second_part)) es
scan_archive-Tiles_example = scan_archive-Tiles no_floats (first_part ++ second_part) (omega arith)
