-- ===== src/RawBits/Integrity.antt =====
-- `crc`, `pack` and `integrity` of libneognss-obs/src/raw_bits.cpp. A record under construction is
-- returned with the checks that were appended to it; `none` is std::out_of_range.
use Prim.Native.Nat.{bit_and, bit_xor, min}
use neo_gnss_observatory.Base.{ℕ, zero, suc, ◌+◌, ◌-◌, ◌*◌, ◌/◌, ◌%◌, ◌^◌, Bool, true, ◌&&◌, ◌||◌}
use neo_gnss_observatory.Base.{List, [], ◌∷◌, ◌++◌, Option, some, ◌==◌}
use neo_gnss_observatory.Base.{if◌then◌else◌}
use neo_gnss_observatory.RawBits.Bits.{Bits, value, ◌>>=◌}
use neo_gnss_observatory.RawBits.Record.{
  RawBits, CheckKind, crc, parity, bch, Scope, message, page, sf2, sf3, normalized_word_chain, pass,
  fail, unknown, SourceField, no_field, independent, receiver, computed, source_field, Format,
  lnav_300, inav_228, d1d2_300, bcnav1_1800, bcnav2_576, b2b_984, cnav2_1800, l6_2000, qzs_l5s_250,
}

-- `result`: append an independent check.
unfoldable pub push_result : RawBits → CheckKind → Scope → Bool → RawBits
push_result r kind scope passed = record r {
  checks =
      r.checks
      ++ record {
        origin = independent;
        kind = kind;
        scope = scope;
        outcome = if passed then pass else fail;
        evidence = computed;
        field = no_field;
      }
        ∷ [];
}

-- `receiver`: append the receiver's own verdict, of which 1 passes and 0 fails.
unfoldable pub push_receiver : RawBits → CheckKind → Scope → ℕ → SourceField → RawBits
push_receiver r kind scope v field = record r {
  checks =
      r.checks
      ++ record {
        origin = receiver;
        kind = kind;
        scope = scope;
        outcome = if v == 1 then pass else if v == 0 then fail else unknown;
        evidence = source_field;
        field = field;
      }
        ∷ [];
}

-- The table of `crc`.
unfoldable pub crc24_round : ℕ → ℕ
crc24_round v = bit_xor (v * 2 % 2 ^ 24) (if v / 0x800000 % 2 == 1 then 0x864cfb else 0)

unfoldable pub crc24_rounds : ℕ → ℕ → ℕ
crc24_rounds zero v = v
crc24_rounds (suc n) v = crc24_rounds n (crc24_round v)

unfoldable pub crc24_table : ℕ → ℕ
unfolding crc24_rounds crc24_round
crc24_table i = crc24_rounds 8 (i * 2 ^ 16)

-- One bit of the loop that ends `crc`.
unfoldable pub crc24_bit : ℕ → ℕ → ℕ
crc24_bit c bit =
    let top = bit_xor (c / 2 ^ 23) bit in
    let moved = c * 2 % 2 ^ 24 in if top == 0 then moved else bit_xor moved 0x864cfb

unfoldable pub crc24_byte : ℕ → ℕ → ℕ
unfolding crc24_table
crc24_byte c byte = bit_xor (c * 256 % 2 ^ 24) (crc24_table (bit_xor (c / 2 ^ 16) byte))

unfoldable pub crc24_bits : ℕ → Bits → ℕ → ℕ → Option ℕ
crc24_bits zero b i c = some c
crc24_bits (suc n) b i c = value b i (i + 1) >>= λ bit. crc24_bits n b (i + 1) (crc24_bit c bit)

unfoldable pub crc24_bytes : ℕ → Bits → ℕ → ℕ → Option ℕ
crc24_bytes zero b i c = some c
crc24_bytes (suc n) b i c =
    value b i (i + 8) >>= λ byte. crc24_bytes n b (i + 8) (crc24_byte c byte)

-- The register after the bits from `begin` to `end`: whole bytes, then single bits.
unfoldable pub crc24 : Bits → ℕ → ℕ → Option ℕ
crc24 b begin end =
    let n = (end - begin) / 8 in
    crc24_bytes n b begin 0 >>= λ c. crc24_bits ((end - begin) % 8) b (begin + n * 8) c

unfoldable pub push_crc : RawBits → Bits → ℕ → ℕ → Scope → Option RawBits
push_crc r b begin end scope = crc24 b begin end >>= λ c. some (push_result r crc scope (c == 0))

-- The bytes of `pack`, the last one filled up with zero bits.
unfoldable pub pack_loop : ℕ → Bits → ℕ → Option (List ℕ)
pack_loop zero b i = some []
pack_loop (suc n) b i =
    let end = min (i + 8) b.size in
    value b i end >>= λ v.
    pack_loop n b (i + 8) >>= λ rest. some (v * 2 ^ (8 - (end - i)) % 256 ∷ rest)

unfoldable pub pack : RawBits → Bits → Option RawBits
unfolding pack_loop
pack r b = pack_loop ((b.size + 7) / 8) b 0 >>= λ bytes.
    some (record r { bit_length = b.size; body = bytes })

-- The number of ones among the lowest `n` bits, std::popcount.
popcount : ℕ → ℕ → ℕ
popcount zero x = 0
popcount (suc n) x = x % 2 + popcount n (x / 2)

abbrev masks : List ℕ
masks = 0xBB1F3480 ∷ 0x5D8F9A40 ∷ 0xAEC7CD00 ∷ 0x5763E680 ∷ 0x6BB1F340 ∷ 0x8B7A89C0 ∷ []

-- The six parity bits of a word after one that ends in the bits `prev`.
unfoldable pub lnav_parity : List ℕ → ℕ → ℕ → ℕ → ℕ
unfolding popcount
lnav_parity [] prev w calculated = calculated
lnav_parity (mask ∷ rest) prev w calculated =
    lnav_parity rest prev w
      (calculated * 2 + popcount 32 (bit_and (prev * 2 ^ 30 + bit_and w 0x3fffffc0) mask) % 2)

-- The word's own parity bits under the previous word's last bit.
lnav_received : ℕ → ℕ → ℕ
lnav_received w prev = bit_xor (w % 64) (if prev % 2 == 1 then 63 else 0)

-- Whether `prev` allows the word and leads to the state `s`.
unfoldable pub lnav_link : ℕ → ℕ → ℕ → Bool
unfolding lnav_parity lnav_received
lnav_link w prev s =
    lnav_parity masks prev w 0 == lnav_received w prev && lnav_received w prev % 4 == s

-- The mask `states`, a set of the last two bits of a word.
abbrev pub StateSet : Type 0
StateSet = Bool × Bool × Bool × Bool

unfoldable pub lnav_next : ℕ → StateSet → ℕ → Bool
lnav_next w (p0, p1, p2, p3) s =
    p0 && lnav_link w 0 s || p1 && lnav_link w 1 s || p2 && lnav_link w 2 s || p3 && lnav_link w 3 s

unfoldable pub lnav_states : ℕ → Bits → ℕ → StateSet → Option StateSet
unfolding lnav_next
lnav_states zero b i states = some states
lnav_states (suc n) b i states = value b (i * 30) ((i + 1) * 30) >>= λ w.
    lnav_states n b (i + 1)
      (lnav_next w states 0, lnav_next w states 1, lnav_next w states 2, lnav_next w states 3)

abbrev any_state : StateSet → Bool
any_state (p0, p1, p2, p3) = p0 || p1 || p2 || p3

-- Dividing a word of fifteen bits by the generator of the BCH code, from bit 14 down.
unfoldable pub bch_loop : ℕ → ℕ → ℕ
bch_loop zero word = word
bch_loop (suc n) word =
    bch_loop n (if word / 2 ^ (n + 4) % 2 == 1 then bit_xor word (19 * 2 ^ n) else word)

unfoldable pub bch_valid : ℕ → Bool
unfolding bch_loop
bch_valid word = bch_loop 11 word == 0

-- The two interleaved codewords of the word at bit `w`.
bch_pair : Bits → ℕ → Option Bool
unfolding bch_valid
bch_pair b w = value b w (w + 11) >>= λ first. value b (w + 22) (w + 26) >>= λ p.
    value b (w + 11) (w + 22) >>= λ second. value b (w + 26) (w + 30) >>= λ q.
    some (bch_valid (first * 16 + p) && bch_valid (second * 16 + q))

unfoldable pub bch_words : ℕ → Bits → ℕ → Bool → Option Bool
unfolding bch_pair
bch_words zero b w passed = some passed
bch_words (suc n) b w passed = bch_pair b w >>= λ ok_. bch_words n b (w + 30) (passed && ok_)

-- The check that belongs to a format.
unfoldable pub check_format : Format → RawBits → Bits → Option RawBits
check_format lnav_300 r b = lnav_states 10 b 0 (true, true, true, true) >>= λ states.
    some (push_result r parity normalized_word_chain (any_state states))
check_format d1d2_300 r b = value b 15 30 >>= λ first.
    bch_words 9 b 30 (bch_valid first) >>= λ passed.
    some (push_result r bch normalized_word_chain passed)
check_format bcnav1_1800 r b = push_crc r b 72 672 sf2 >>= λ r'. push_crc r' b 1272 1536 sf3
check_format cnav2_1800 r b = push_crc r b 52 652 sf2 >>= λ r'. push_crc r' b 1252 1526 sf3
check_format bcnav2_576 r b = push_crc r b 0 288 message
check_format b2b_984 r b = push_crc r b 12 498 message
check_format inav_228 r b = push_crc r b 0 220 page
check_format l6_2000 r b = some r
check_format qzs_l5s_250 r b = some r
check_format other r b = push_crc r b 0 b.size r.unit

unfoldable pub integrity : RawBits → Bits → Option RawBits
unfolding check_format
integrity r b = check_format r.format r b
