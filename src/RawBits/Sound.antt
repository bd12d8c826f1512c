-- ===== src/RawBits/Sound.antt =====
-- `decode_raw_bits` from end to end: it never throws, and what it delivers is well formed.
use neo_gnss_observatory.Base.{ℕ, true, false, ◌≡◌, ◌≢◌, refl, Option, none, some, ◌==◌, ◌||◌}
use neo_gnss_observatory.Base.{Bool-cases, inl, inr}
use mathlib.Core.Path.{subst}
use mathlib.Core.Option.{some-injective}
use neo_gnss_observatory.Frame.{FrameView, id, protocol, same_protocol, sbf, ubx}
use neo_gnss_observatory.Parse.{ParseResult, parsed, refused, MessageType}
use neo_gnss_observatory.Subframe.{Sfrbx, SubframeResult, parse_subframe}
use neo_gnss_observatory.Subframe
use neo_gnss_observatory.RawBits.Record
use neo_gnss_observatory.RawBits.Record.{
  RawBits, Flow, next, leave, out_of_range, logic_error, ◌>>=◌,
}
use neo_gnss_observatory.RawBits.Sbf.{NavigationPage}
use neo_gnss_observatory.RawBits.{
  gather_page, gather_parsed, gather_words, gather_sbf, gather_ubx, decode_numbered, decode, settle,
  decode_raw_bits,
}
use neo_gnss_observatory.RawBits.Total.{Gives, Gives->>=, known_block}
use neo_gnss_observatory.RawBits.Shape.{IsWellFormed}
use neo_gnss_observatory.RawBits.WellFormed.{
  IsIdentified, complete-IsWellFormed, sbf_identify-IsIdentified, ubx_identify-IsIdentified,
}

module _ (navigation_page : FrameView → Option (ParseResult NavigationPage))
    (sfrbx : MessageType Sfrbx) (rxm_sfrbx : ℕ) where
  -- The generated SBF parsers exist only for the blocks that the switch over numbers names.
  abbrev pub OnlyKnownBlocks : Type 0
  OnlyKnownBlocks =
      (f : FrameView) (n : ℕ) → id f ≡ some n → known_block n ≡ false → navigation_page f ≡ none

  gather_page-Gives :
      (f : FrameView) (n : ℕ) (p : ParseResult NavigationPage)
      → known_block n ≡ true
      → Gives (λ g. IsIdentified g.rec) (gather_page navigation_page sfrbx rxm_sfrbx f n p)
  unfolding gather_page
  gather_page-Gives f n (refused e) k = tt
  gather_page-Gives f n (parsed page used) k =
      Gives->>= (λ q. IsIdentified q.0) (λ g. IsIdentified g.rec) _ _
        (sbf_identify-IsIdentified n page _ k) (λ q h. h)

  gather_words-Gives :
      (s : SubframeResult)
      → Gives (λ g. IsIdentified g.rec) (gather_words navigation_page sfrbx rxm_sfrbx s)
  unfolding gather_words
  gather_words-Gives (Subframe.decoded s) =
      Gives->>= (λ q. IsIdentified q.0) (λ g. IsIdentified g.rec) _ _
        (ubx_identify-IsIdentified s _) (λ q h. h)
  gather_words-Gives _ = tt

  gather_parsed-Gives :
      (f : FrameView) (n : ℕ) (o : Option (ParseResult NavigationPage))
      → (known_block n ≡ false → o ≡ none)
      → Gives (λ g. IsIdentified g.rec) (gather_parsed navigation_page sfrbx rxm_sfrbx f n o)
  unfolding gather_parsed
  gather_parsed-Gives f n none h = tt
  gather_parsed-Gives f n (some p) h = elim (Bool-cases (known_block n)) [
    | inl known ↦ gather_page-Gives f n p known
    | inr foreign ↦ let e = h foreign in absurd (some_ne_none e)
  ]
    where
      some_ne_none : some p ≡ none → ⊥
      some_ne_none e = cc

  gather_sbf-Gives :
      OnlyKnownBlocks
      → (f : FrameView) (n : ℕ) → id f ≡ some n
      → Gives (λ g. IsIdentified g.rec) (gather_sbf navigation_page sfrbx rxm_sfrbx f n)
  unfolding gather_sbf
  gather_sbf-Gives blocks f n e = elim (Bool-cases (n == 4026 || n == 4093)) [
    | inl glonass ↦ rw glonass tt
    | inr other ↦ rw other (gather_parsed-Gives f n (navigation_page f) (blocks f n e))
  ]

  gather_ubx-Gives :
      (f : FrameView) (n : ℕ)
      → Gives (λ g. IsIdentified g.rec) (gather_ubx navigation_page sfrbx rxm_sfrbx f n)
  unfolding gather_ubx
  gather_ubx-Gives f n = elim (Bool-cases (n == 0x0213)) [
    | inl subframe ↦ rw subframe (gather_words-Gives (parse_subframe sfrbx rxm_sfrbx f))
    | inr other ↦ rw other tt
  ]

  decode_numbered-Gives :
      OnlyKnownBlocks
      → (f : FrameView) (o : Option ℕ) → id f ≡ o
      → Gives IsWellFormed (decode_numbered navigation_page sfrbx rxm_sfrbx f o)
  unfolding decode_numbered
  decode_numbered-Gives blocks f none e = tt
  decode_numbered-Gives blocks f (some n) e = elim (Bool-cases (same_protocol (protocol f) sbf)) [
    | inl from_sbf ↦ rw from_sbf (
        Gives->>= (λ g. IsIdentified g.rec) IsWellFormed _ _ (gather_sbf-Gives blocks f n e)
          (complete-IsWellFormed true))
    | inr not_sbf ↦ elim (Bool-cases (same_protocol (protocol f) ubx)) [
      | inl from_ubx ↦
          rw (not_sbf, from_ubx)
            (Gives->>= (λ g. IsIdentified g.rec) IsWellFormed _ _ (gather_ubx-Gives f n)
              (complete-IsWellFormed false))
      | inr neither ↦ rw (not_sbf, neither) tt
    ]
  ]

  decode-Gives :
      OnlyKnownBlocks
      → (f : FrameView) → Gives IsWellFormed (decode navigation_page sfrbx rxm_sfrbx f)
  unfolding decode
  decode-Gives blocks f = decode_numbered-Gives blocks f (id f) refl

  settle-ne-none :
      (m : Flow RawBits) → Gives IsWellFormed m → settle navigation_page sfrbx rxm_sfrbx m ≢ none
  unfolding settle
  settle-ne-none (next r) h e = cc
  settle-ne-none (leave r) h e = cc
  settle-ne-none out_of_range h e = cc
  settle-ne-none logic_error h e = absurd h

  settle-decoded :
      (m : Flow RawBits) (r : RawBits)
      → Gives IsWellFormed m
      → settle navigation_page sfrbx rxm_sfrbx m ≡ some (Record.decoded r)
      → IsWellFormed r
  unfolding settle
  settle-decoded (next x) r h e = subst IsWellFormed (decoded-injective (some-injective _ _ e)) h
    where
      decoded-injective : Record.decoded x ≡ Record.decoded r → x ≡ r
      decoded-injective eq = cc
  settle-decoded (leave x) r h e = absurd (dropped_ne_decoded (some-injective _ _ e))
    where
      dropped_ne_decoded : Record.dropped x ≡ Record.decoded r → ⊥
      dropped_ne_decoded eq = cc
  settle-decoded out_of_range r h e = absurd (dropped_ne_decoded (some-injective _ _ e))
    where
      dropped_ne_decoded : Record.dropped Record.malformed ≡ Record.decoded r → ⊥
      dropped_ne_decoded eq = cc
  settle-decoded logic_error r h e = absurd h

  -- If the generated parsers exist only for the SBF blocks that the source names, decode_raw_bits
  -- returns for every frame: no exception leaves it.
  pub decode_raw_bits-ne-none :
      OnlyKnownBlocks → (f : FrameView) → decode_raw_bits navigation_page sfrbx rxm_sfrbx f ≢ none
  unfolding decode_raw_bits
  decode_raw_bits-ne-none blocks f = settle-ne-none _ (decode-Gives blocks f)

  -- If the generated parsers exist only for the SBF blocks that the source names, every record that
  -- decode_raw_bits delivers has the number of bits
  -- that belongs to its format, a body of just the bytes that hold them, and a RINEX identity: a
  -- system letter G, E, C, J or S with a satellite number above 0, for J from 1 to 10 and for S from
  -- 20 to 58.
  pub decode_raw_bits-IsWellFormed :
      OnlyKnownBlocks
      → (f : FrameView) (r : RawBits)
      → decode_raw_bits navigation_page sfrbx rxm_sfrbx f ≡ some (Record.decoded r)
      → IsWellFormed r
  unfolding decode_raw_bits
  decode_raw_bits-IsWellFormed blocks f r e = settle-decoded _ r (decode-Gives blocks f) e
