-- ===== src/Sbas/Message.antt =====
-- parse_l1 and status_name of libneognss-obs/src/sbas.cpp. `none` is an exception.
use neo_gnss_observatory.Base.{
  ℕ, ◌*◌, ◌/◌, ◌%◌, Bool, ◌||◌, not, List, [], ◌∷◌, ◌++◌, Option, none, some, ◌==◌, if◌then◌else◌,
  length, take, get_or,
}
use neo_gnss_observatory.Sbas.Bits.{
  Parse, got, invalid, out_of_range, ◌>>=◌, BitView, bit_view, unsigned_at, crc24q,
}
use neo_gnss_observatory.Sbas.Content.{
  Content, no_content, test_mode, null_message, prn_mask, fast_corrections, integrity,
  fast_degradation, geo_navigation, ionospheric_mask, ionospheric_delay, degradation, network_time,
  geo_almanac, long_term, mixed, service, covariance, L1Profile, standard, southpan_open, Message,
  Status, decoded, invalid_word_count, invalid_preamble, invalid_crc, unsupported_message,
  invalid_content, Result,
}
use neo_gnss_observatory.Sbas.Fields.{
  fast, mask_of_prns, integrity_body, fast_degradation_body, geo_navigation_body, degradation_body,
  network_time_body, almanac_body,
}
use neo_gnss_observatory.Sbas.Corrections.{
  mixed_body, long_term_body, service_body, covariance_body, ionospheric_mask_body,
  ionospheric_delay_body,
}

abbrev pub read_as : {A : Type 0} → (A → Content) → Parse A → Option (Parse Content)
read_as make m = some (m >>= λ a. got (make a))

abbrev pub test_body : L1Profile → BitView → Option (Parse Content)
test_body standard b = some (got (test_mode none))
test_body southpan_open b = read_as (λ f. test_mode (some f)) (fast b 2)

-- The switch over the message's type; `none` is its default.
unfoldable pub content_of : L1Profile → ℕ → BitView → Option (Parse Content)
content_of profile type b =
    if type == 0
    then test_body profile b
    else if type == 63
    then some (got null_message)
    else if type == 1
    then read_as prn_mask (mask_of_prns b)
    else if type == 2 || type == 3 || type == 4 || type == 5
    then read_as fast_corrections (fast b type)
    else if type == 6
    then read_as integrity (integrity_body b)
    else if type == 7
    then read_as fast_degradation (fast_degradation_body b)
    else if type == 9
    then read_as geo_navigation (geo_navigation_body b)
    else if type == 10
    then read_as degradation (degradation_body b)
    else if type == 12
    then read_as network_time (network_time_body b)
    else if type == 17
    then read_as geo_almanac (almanac_body b)
    else if type == 24
    then read_as mixed (mixed_body b)
    else if type == 25
    then read_as long_term (long_term_body b)
    else if type == 27
    then read_as service (service_body b)
    else if type == 28
    then read_as covariance (covariance_body b)
    else if type == 18
    then read_as ionospheric_mask (ionospheric_mask_body b)
    else if type == 26
    then read_as ionospheric_delay (ionospheric_delay_body b)
    else none

abbrev pub answer : Status → Message → Result
answer s m = record { status = s; message = some m }

-- The end of the switch; a Parse that has a Result never is `invalid`.
abbrev pub with_content : Message → Option (Parse Content) → Parse Result
with_content m none = got (answer unsupported_message m)
with_content m (some (got c)) = got (answer decoded (record m { content = c }))
with_content m (some invalid) = got (answer invalid_content m)
with_content m (some out_of_range) = out_of_range

-- From the checks of the preamble and the checksum on.
unfoldable pub judged : L1Profile → BitView → Message → Parse Result
unfolding content_of
judged profile b m =
    if not m.preamble_valid
    then got (answer invalid_preamble m)
    else if not m.crc_valid
    then got (answer invalid_crc m)
    else with_content m (content_of profile m.type b)

-- The bytes with the padding cleared.
abbrev pub cleared : List ℕ → List ℕ
cleared bytes = take 31 bytes ++ (get_or bytes 31 0 / 64 * 64 ∷ [])

unfoldable pub is_preamble : ℕ → Bool
is_preamble p = p == 0x53 || p == 0x9a || p == 0xc6

unfoldable pub headed : List ℕ → (p t received computed : ℕ) → Message
unfolding is_preamble
headed bytes p t received computed = record {
  bytes = cleared bytes;
  padding_bits = get_or bytes 31 0 % 64;
  preamble = p;
  type = t;
  received_crc = received;
  computed_crc = computed;
  preamble_valid = is_preamble p;
  crc_valid = received == computed;
  content = no_content;
}

unfoldable pub parse_words : List ℕ → L1Profile → Parse Result
unfolding judged headed
parse_words bytes profile = do
  b ← bit_view (cleared bytes) 250
  p ← unsigned_at b 0 8
  t ← unsigned_at b 8 6
  received ← unsigned_at b 226 24
  computed ← crc24q (cleared bytes) 226
  judged profile b (headed bytes p t received computed)

unfoldable pub parse_l1 : List ℕ → L1Profile → Parse Result
unfolding parse_words
parse_l1 bytes profile =
    if not (length bytes == 32)
    then got (record { status = invalid_word_count; message = none })
    else parse_words bytes profile
