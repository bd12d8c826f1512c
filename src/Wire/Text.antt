-- ===== src/Wire/Text.antt =====
-- `quoted`, `nmea_identity` and `rtcm_matches` of libcppgnss/include/cppgnss/wire_typed.hpp. A
-- string is the list of its bytes.
use neo_gnss_observatory.Base.{
  ℕ, ◌+◌, ◌*◌, ◌/◌, ◌%◌, ◌≤◌, Bool, true, false, ◌&&◌, ◌||◌, List, [], ◌∷◌, ◌++◌, Option, none,
  some, ltb, leb, ◌==◌, not, if◌then◌else◌, length, get_or, drop, arith, All, IsBytes,
}
use neo_gnss_observatory.Frame.{FrameView, FrameHeader, nmea_header, id}
use neo_gnss_observatory.Wire.Fields.{text_cursor, remaining, take}

abbrev pub hex_digit : ℕ → ℕ
hex_digit d = if ltb d 10 then 48 + d else 87 + d

-- The bytes that stand for one byte between the quotes.
unfoldable pub escaped : ℕ → List ℕ
escaped c =
    if c == 34 || c == 92
    then 92 ∷ c ∷ []
    else if ltb c 32 || leb 127 c
    then 92 ∷ b'x' ∷ hex_digit (c / 16) ∷ hex_digit (c % 16) ∷ []
    else c ∷ []

unfoldable pub quoted_body : List ℕ → List ℕ
unfolding escaped
quoted_body [] = 34 ∷ []
quoted_body (c ∷ cs) = escaped c ++ quoted_body cs

unfoldable pub quoted : List ℕ → List ℕ
unfolding quoted_body
quoted value = 34 ∷ quoted_body value

-- The operator `==` of strings, and starts_with.
unfoldable pub equals : List ℕ → List ℕ → Bool
equals [] [] = true
equals (a ∷ as') (b ∷ bs) = a == b && equals as' bs
equals _ _ = false

unfoldable pub starts_with : List ℕ → List ℕ → Bool
starts_with cs [] = true
starts_with [] (p ∷ ps) = false
starts_with (c ∷ cs) (p ∷ ps) = c == p && starts_with cs ps

abbrev pub begins_with_digit : List ℕ → Bool
begins_with_digit [] = false
begins_with_digit (c ∷ cs) = leb 48 c && leb c 57

-- The words of `nmea_identity`.
abbrev ashr : List ℕ
ashr = b'A' ∷ b'S' ∷ b'H' ∷ b'R' ∷ []

abbrev gppadv : List ℕ
gppadv = b'G' ∷ b'P' ∷ b'P' ∷ b'A' ∷ b'D' ∷ b'V' ∷ []

abbrev fec : List ℕ
fec = b'F' ∷ b'E' ∷ b'C' ∷ []

abbrev ssn : List ℕ
ssn = b'S' ∷ b'S' ∷ b'N' ∷ []

abbrev tnl : List ℕ
tnl = b'T' ∷ b'N' ∷ b'L' ∷ []

abbrev ubx_word : List ℕ
ubx_word = b'U' ∷ b'B' ∷ b'X' ∷ []

abbrev qtm : List ℕ
qtm = b'Q' ∷ b'T' ∷ b'M' ∷ []

abbrev ok_word : List ℕ
ok_word = b'O' ∷ b'K' ∷ []

abbrev error_word : List ℕ
error_word = b'E' ∷ b'R' ∷ b'R' ∷ b'O' ∷ b'R' ∷ []

abbrev qtmack : List ℕ
qtmack = b'Q' ∷ b'T' ∷ b'M' ∷ b'A' ∷ b'C' ∷ b'K' ∷ []

abbrev qtmnak : List ℕ
qtmnak = b'Q' ∷ b'T' ∷ b'M' ∷ b'N' ∷ b'A' ∷ b'K' ∷ []

abbrev qtmcfgmsgrate : List ℕ
qtmcfgmsgrate =
    b'Q' ∷ b'T' ∷ b'M' ∷ b'C' ∷ b'F' ∷ b'G' ∷ b'M' ∷ b'S' ∷ b'G' ∷ b'R' ∷ b'A' ∷ b'T' ∷ b'E' ∷ []

abbrev nover : List ℕ
nover = b'_' ∷ b'N' ∷ b'O' ∷ b'V' ∷ b'E' ∷ b'R' ∷ []

abbrev intfnover : List ℕ
intfnover = b'_' ∷ b'I' ∷ b'N' ∷ b'T' ∷ b'F' ∷ b'N' ∷ b'O' ∷ b'V' ∷ b'E' ∷ b'R' ∷ []

abbrev intf : List ℕ
intf = b'_' ∷ b'I' ∷ b'N' ∷ b'T' ∷ b'F' ∷ []

abbrev qtmcfgsat : List ℕ
qtmcfgsat = b'Q' ∷ b'T' ∷ b'M' ∷ b'C' ∷ b'F' ∷ b'G' ∷ b'S' ∷ b'A' ∷ b'T' ∷ []

abbrev low : List ℕ
low = b'_' ∷ b'L' ∷ b'O' ∷ b'W' ∷ []

abbrev qtmcfggeofence : List ℕ
qtmcfggeofence =
    b'Q' ∷ b'T' ∷ b'M' ∷ b'C' ∷ b'F' ∷ b'G' ∷ b'G' ∷ b'E' ∷ b'O' ∷ b'F' ∷ b'E' ∷ b'N' ∷ b'C' ∷ b'E'
    ∷ []

abbrev poly : List ℕ
poly = b'_' ∷ b'P' ∷ b'O' ∷ b'L' ∷ b'Y' ∷ []

abbrev qtmsn : List ℕ
qtmsn = b'Q' ∷ b'T' ∷ b'M' ∷ b'S' ∷ b'N' ∷ []

abbrev alt : List ℕ
alt = b'_' ∷ b'A' ∷ b'L' ∷ b'T' ∷ []

abbrev stmdrsenmsg : List ℕ
stmdrsenmsg = b'S' ∷ b'T' ∷ b'M' ∷ b'D' ∷ b'R' ∷ b'S' ∷ b'E' ∷ b'N' ∷ b'M' ∷ b'S' ∷ b'G' ∷ []

-- The proprietary addresses whose first field is a part of the identity.
takes_first : List ℕ → List ℕ → Bool
unfolding equals
takes_first key first =
    let is_ashr = equals key ashr in
    (is_ashr
      || equals key gppadv
      || equals key fec
      || equals key ssn
      || equals key tnl
      || equals key ubx_word)
    && (not is_ashr || not (begins_with_digit first))

-- What is put behind a key that starts with QTM.
qtm_suffix : List ℕ → ℕ → List ℕ → List ℕ
unfolding equals
qtm_suffix key count first =
    if equals key qtmcfgmsgrate
    then (if count == 3
        then nover
        else if count == 5
        then intfnover
        else if count == 6
        then intf
        else [])
    else if equals key qtmcfgsat && count == 4
    then low
    else if equals key qtmcfggeofence && count == 13
    then poly
    else if equals key qtmsn && begins_with_digit first
    then alt
    else []

proprietary : List ℕ → ℕ → List ℕ → List ℕ
unfolding takes_first qtm_suffix starts_with equals
proprietary address count first =
    let key = if takes_first address first then address ++ first else address in
    let key' = if starts_with key qtm then key ++ qtm_suffix key count first else key in
    if starts_with key qtm && count == 1 && equals first ok_word
    then qtmack
    else if starts_with key qtm && count == 2 && equals first error_word
    then qtmnak
    else if equals key' stmdrsenmsg
    then key' ++ (b'_' ∷ first)
    else key'

begins_with_p : List ℕ → Bool
begins_with_p [] = false
begins_with_p (c ∷ cs) = c == b'P'

identity : FrameHeader → List ℕ → Option (List ℕ)
unfolding proprietary begins_with_p text_cursor remaining take
identity (nmea_header address delimiter) payload =
    let c = text_cursor payload in
    let r = take c in
    if not (begins_with_p address)
    then some (if ltb 2 (length address) then drop 2 address else [])
    else some (proprietary (drop 1 address) (remaining c) r.0)
identity _ payload = none

-- `none` is the std::bad_variant_access of a frame that is not NMEA.
unfoldable pub nmea_identity : FrameView → Option (List ℕ)
unfolding identity
nmea_identity f = identity f.header f.payload

-- `subtype` is `none` for a negative number.
unfoldable pub rtcm_matches : FrameView → ℕ → Option ℕ → Option Bool
rtcm_matches f number subtype = elim (id f) [
  | none ↦ none
  | some n ↦ if not (n == number) then some false else elim subtype [
    | none ↦ some true
    | some wanted ↦
        let second = get_or f.payload 1 0 in
        let third = get_or f.payload 2 0 in
        if ltb (length f.payload) 3
        then some false
        else some (second % 2 * 128 + third / 2 == wanted)
  ]
]

-- A printable character of seven bits.
abbrev pub IsPrintable : ℕ → Type 0
IsPrintable c = (32 ≤ c) × (c ≤ 126)

escaped-IsPrintable : (c : ℕ) → c ≤ 255 → All IsPrintable (escaped c)
unfolding escaped
escaped-IsPrintable c h = ground arith

append-IsPrintable :
    (xs ys : List ℕ) → All IsPrintable xs → All IsPrintable ys → All IsPrintable (xs ++ ys)
append-IsPrintable [] ys h k = k
append-IsPrintable (x ∷ xs) ys h k = (h.0, append-IsPrintable xs ys h.1 k)

quoted_body-IsPrintable : (cs : List ℕ) → IsBytes cs → All IsPrintable (quoted_body cs)
unfolding quoted_body
quoted_body-IsPrintable [] h = ((omega arith, omega arith), tt)
quoted_body-IsPrintable (c ∷ cs) h =
    append-IsPrintable (escaped c) (quoted_body cs) (escaped-IsPrintable c (omega (arith, h.0)))
      (quoted_body-IsPrintable cs h.1)

-- Whatever bytes a text field holds, `quoted` writes printable characters of seven bits only.
pub quoted-IsPrintable : (value : List ℕ) → IsBytes value → All IsPrintable (quoted value)
unfolding quoted
quoted-IsPrintable value h = ((omega arith, omega arith), quoted_body-IsPrintable value h)
