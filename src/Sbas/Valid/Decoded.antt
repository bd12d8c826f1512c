-- ===== src/Sbas/Valid/Decoded.antt =====
-- What parse_l1 of libneognss-obs/src/sbas.cpp says of a message that it decodes.
use neo_gnss_observatory.Wire.Number.{number}
use neo_gnss_observatory.Base.{ℕ, ◌≡◌, true, List, Option, none, some}
use neo_gnss_observatory.Sbas.Bits.{Parse, got}
use neo_gnss_observatory.Sbas.Content.{Content, Message, Status, decoded, Result}
use neo_gnss_observatory.Sbas.Valid.{Post, IsValid}
use neo_gnss_observatory.Sbas.Message.{is_preamble}
use neo_gnss_observatory.Sbas.Bits.{crc24q}
use neo_gnss_observatory.Sbas.Message.{cleared}

-- The default has no body; another case reads what is valid.
abbrev OnRead : Option (Parse Content) → Type 0
OnRead none = Unit
OnRead (some m) = Post IsValid m

-- Which bits of the padded words the fields of the header are.
abbrev pub HasHeader : List ℕ → Message → Type 0
HasHeader bytes m =
    (m.bytes ≡ cleared bytes)
    × (m.preamble ≡ number (cleared bytes) 0 8)
    × (m.type ≡ number (cleared bytes) 8 6)
    × (m.received_crc ≡ number (cleared bytes) 226 24)

-- What a decoded message is to have.
abbrev pub IsSoundMessage : List ℕ → Message → Type 0
IsSoundMessage bytes m =
    HasHeader bytes m
    × (is_preamble m.preamble ≡ true)
    × (crc24q (cleared bytes) 226 ≡ got m.received_crc)
    × IsValid m.content

abbrev OnDecoded : List ℕ → Status → Option Message → Type 0
OnDecoded bytes decoded (some m) = IsSoundMessage bytes m
OnDecoded bytes decoded none = ⊥
OnDecoded bytes _ _ = Unit

abbrev IsSound : List ℕ → Result → Type 0
IsSound bytes r = OnDecoded bytes r.status r.message
