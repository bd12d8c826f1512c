-- ===== src/Framing.antt =====
-- The framing decisions inside the loop of StreamDecoder::feed, libcppgnss/src/stream.cpp: what
-- the bytes from one position on are. The list is the pending buffer from that position to its
-- end, `p[i]` is `at p i`, and the loop's `break` is `wait`.
pub mod Binary
pub mod Lines
pub mod Stable
use Prim.Native.Nat.{bit_xor}
use neo_gnss_observatory.Base.{
  ℕ, zero, suc, ◌+◌, ◌-◌, ◌*◌, ◌/◌, ◌%◌, ◌^◌, Bool, true, false, ◌&&◌, ◌||◌,
}
use neo_gnss_observatory.Base.{
  not, List, [], ◌∷◌, ◌==◌, ltb, leb, if◌then◌else◌, length, get_or, slice,
}
use neo_gnss_observatory.Base.{Option, none, some, drop}
use neo_gnss_observatory.Frame.{FrameHeader, ubx_header, sbf_header, rtcm3_header, nmea_header}
use neo_gnss_observatory.Crc.{sbf_crc, rtcm3_crc}

abbrev pub at : List ℕ → ℕ → ℕ
at p i = get_or p i 0

-- `found header length start count`: a frame of `length` bytes whose payload is the `count`
-- bytes from `start`. `invalid n`: a damaged frame, of which `n` bytes are dropped.
pub data Verdict : Type 0 where
  wait noise : Verdict
  invalid : ℕ → Verdict
  found : FrameHeader → ℕ → ℕ → ℕ → Verdict

-- The two running sums of a UBX frame, each a uint8_t.
unfoldable pub fletcher : ℕ → ℕ → List ℕ → ℕ × ℕ
fletcher a b [] = (a, b)
fletcher a b (x ∷ xs) = let a' = (a + x) % 256 in fletcher a' ((b + a') % 256) xs

abbrev pub is_delimiter : ℕ → Bool
is_delimiter c = c == b'$' || c == b'!'

unfoldable pub is_text : ℕ → Bool
is_text c = leb 32 c && leb c 126 && not (is_delimiter c)

-- How many of at most `k` bytes belong to the line.
unfoldable pub text_run : ℕ → List ℕ → ℕ
unfolding is_text
text_run zero xs = 0
text_run (suc k) [] = 0
text_run (suc k) (x ∷ xs) = if is_text x then suc (text_run k xs) else 0

-- How many of at most `k` bytes stand before the first comma or asterisk.
unfoldable pub field_run : ℕ → List ℕ → ℕ
field_run zero xs = 0
field_run (suc k) [] = 0
field_run (suc k) (x ∷ xs) = if x == b',' || x == b'*' then 0 else suc (field_run k xs)

unfoldable pub all_address : List ℕ → Bool
all_address [] = true
all_address (c ∷ cs) = (leb b'A' c && leb c b'Z' || leb b'0' c && leb c b'9') && all_address cs

unfoldable pub hex : ℕ → Option ℕ
hex c =
    if leb b'0' c && leb c b'9'
    then some (c - b'0')
    else if leb b'A' c && leb c b'F'
    then some (c - b'A' + 10)
    else if leb b'a' c && leb c b'f'
    then some (c - b'a' + 10)
    else none

unfoldable pub xor_sum : ℕ → List ℕ → ℕ
xor_sum c [] = c
xor_sum c (x ∷ xs) = xor_sum (bit_xor c x) xs

unfoldable pub hex_matches : Option ℕ → Option ℕ → ℕ → Bool
hex_matches none lo sum = false
hex_matches (some hi) none sum = false
hex_matches (some hi) (some lo) sum = sum == hi * 16 + lo

-- The tests on a complete line whose text is `n` bytes long, its delimiter counted.
unfoldable pub nmea_accepts : List ℕ → ℕ → ℕ → Bool → Bool
nmea_accepts p n comma crlf =
    crlf
    && ltb 1 comma
    && all_address (slice 1 (comma - 1) p)
    && leb 4 n
    && at p (n - 3) == b'*'
    && leb comma (n - 3)
    && hex_matches (hex (at p (n - 2))) (hex (at p (n - 1))) (xor_sum 0 (slice 1 (n - 4) p))

-- The verdict on a line of which the end is known to be here or damaged.
unfoldable pub nmea_line : List ℕ → ℕ → ℕ → Bool → Verdict
nmea_line p n comma crlf =
    if nmea_accepts p n comma crlf
    then (let start = if ltb comma (n - 3) then comma + 1 else comma in
        found (nmea_header (slice 1 (comma - 1) p) (at p 0)) (n + 2) start (n - 3 - start))
    else invalid 1

-- The length of the line's text, its delimiter counted, up to 4096.
abbrev pub text_length : List ℕ → ℕ
text_length p = 1 + text_run 4095 (drop 1 p)

abbrev pub comma_position : ℕ → List ℕ → ℕ
comma_position n p = 1 + field_run (n - 1) (drop 1 p)

unfoldable pub examine_nmea : List ℕ → Verdict
examine_nmea p =
    let n = text_length p in
    if (n == length p) && ltb n 4096
    then wait
    else if ltb n 4096 && at p n == b'\r' && (n + 1 == length p)
    then wait
    else nmea_line p n (comma_position n p)
        (ltb (n + 1) (length p) && at p n == b'\r' && at p (n + 1) == b'\n')

pub data BinaryKind : Type 0 where
  is_ubx is_sbf is_rtcm : BinaryKind

-- The fewest bytes that hold the length field.
unfoldable pub head_size : BinaryKind → ℕ
head_size is_rtcm = 3
head_size _ = 8

unfoldable pub least_length : BinaryKind → ℕ
least_length is_rtcm = 6
least_length _ = 8

unfoldable pub frame_length : BinaryKind → List ℕ → ℕ
frame_length is_rtcm p = 6 + 256 * (at p 1 % 4) + at p 2
frame_length is_ubx p = 8 + at p 4 + 256 * at p 5
frame_length is_sbf p = at p 6 + 256 * at p 7

unfoldable pub is_misaligned : BinaryKind → ℕ → Bool
is_misaligned is_sbf len = not (len % 4 == 0)
is_misaligned _ len = false

unfoldable pub sums_match : ℕ × ℕ → ℕ → ℕ → Bool
sums_match (a, b) x y = a == x && b == y

-- The checksum of a frame of `len` bytes.
unfoldable pub is_intact : BinaryKind → ℕ → List ℕ → Bool
unfolding fletcher sums_match
is_intact is_ubx len p =
    sums_match (fletcher 0 0 (slice 2 (len - 4) p)) (at p (len - 2)) (at p (len - 1))
is_intact is_sbf len p = sbf_crc (slice 4 (len - 4) p) == at p 2 + 256 * at p 3
is_intact is_rtcm len p =
    rtcm3_crc (slice 0 (len - 3) p)
    == at p (len - 3) * 2 ^ 16 + at p (len - 2) * 2 ^ 8 + at p (len - 1)

unfoldable pub binary_header : BinaryKind → ℕ → List ℕ → FrameHeader
binary_header is_rtcm len p =
    rtcm3_header (if len == 6 then 0 else (at p 3 * 16 + at p 4 / 16) % 2 ^ 16)
binary_header is_ubx len p = ubx_header (at p 2 * 256 + at p 3)
binary_header is_sbf len p = sbf_header ((at p 4 + 256 * at p 5) % 2 ^ 13) (at p 5 / 32)

unfoldable pub payload_start : BinaryKind → ℕ
payload_start is_rtcm = 3
payload_start is_ubx = 6
payload_start is_sbf = 8

unfoldable pub overhead : BinaryKind → ℕ
overhead is_rtcm = 6
overhead _ = 8

abbrev pub is_rtcm_seven : BinaryKind → ℕ → Bool
is_rtcm_seven is_rtcm len = len == 7
is_rtcm_seven _ len = false

-- The verdict on a binary frame whose length is known and whose bytes are all there.
unfoldable pub complete_binary : BinaryKind → ℕ → List ℕ → Verdict
complete_binary k len p =
    if not (is_intact k len p)
    then invalid 1
    else if is_rtcm_seven k len
    then invalid len
    else found (binary_header k len p) len (payload_start k) (len - overhead k)

unfoldable pub examine_binary : BinaryKind → List ℕ → Verdict
examine_binary k p =
    let len = frame_length k p in
    if ltb (length p) (head_size k)
    then wait
    else if ltb len (least_length k) || is_misaligned k len
    then invalid 1
    else if ltb (length p) len
    then wait
    else complete_binary k len p

-- What stands at the start of a nonempty rest of the buffer.
unfoldable pub examine : List ℕ → Verdict
examine p =
    let sbf = at p 0 == 0x24 && at p 1 == 0x40 in
    if length p == 1
    then (if at p 0 == 0xb5 || is_delimiter (at p 0) || at p 0 == 0xd3 then wait else noise)
    else if not sbf && is_delimiter (at p 0)
    then examine_nmea p
    else if at p 0 == 0xb5 && at p 1 == 0x62
    then examine_binary is_ubx p
    else if sbf
    then examine_binary is_sbf p
    else if at p 0 == 0xd3
    then examine_binary is_rtcm p
    else noise
