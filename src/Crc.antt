-- ===== src/Crc.antt =====
-- `sbf_crc` and `rtcm3_crc` of libcppgnss/src/stream.cpp. A table that the source fills at compile
-- time is the function of its index; `c & 0x8000` as a test is the digit `c / 0x8000 % 2`.
pub mod Linear
pub mod Slicing
pub mod Eight
pub mod Reference
use Prim.Native.Nat.{bit_xor}
use neo_gnss_observatory.Base.{ℕ, zero, suc, ◌*◌, ◌/◌, ◌%◌, ◌^◌, List, [], ◌∷◌, ◌==◌, if◌then◌else◌}

-- One round of the table's loop on a uint16_t; the value is cut to sixteen bits by the store.
unfoldable pub sbf_round : ℕ → ℕ
sbf_round c = bit_xor (c * 2) (if c / 0x8000 % 2 == 1 then 0x1021 else 0) % 2 ^ 16

unfoldable pub sbf_rounds : ℕ → ℕ → ℕ
sbf_rounds zero c = c
sbf_rounds (suc n) c = sbf_rounds n (sbf_round c)

-- `table[k][i]`.
unfoldable pub sbf_table : ℕ → ℕ → ℕ
unfolding sbf_rounds sbf_round
sbf_table zero i = sbf_rounds 8 (i * 256 % 2 ^ 16)
sbf_table (suc k) i =
    let v = sbf_table k i in bit_xor (v * 256) (sbf_rounds 8 (v / 256 * 256 % 2 ^ 16)) % 2 ^ 16

-- The loop over the last bytes, one at a time.
unfoldable pub sbf_tail : ℕ → List ℕ → ℕ
unfolding sbf_table
sbf_tail crc [] = crc
sbf_tail crc (b ∷ bs) =
    sbf_tail (bit_xor (crc * 256) (sbf_table 0 (bit_xor (crc / 256) b)) % 2 ^ 16) bs

-- The register after eight bytes that are read at once.
unfoldable pub sbf_sliced : ℕ → ℕ → ℕ → ℕ → ℕ → ℕ → ℕ → ℕ → ℕ → ℕ
unfolding sbf_table
sbf_sliced crc b0 b1 b2 b3 b4 b5 b6 b7 =
    let t76 =
      bit_xor (sbf_table 7 (bit_xor b0 (crc / 256))) (sbf_table 6 (bit_xor b1 (crc % 256))) in
    let t5 = bit_xor t76 (sbf_table 5 b2) in
    let t4 = bit_xor t5 (sbf_table 4 b3) in
    let t3 = bit_xor t4 (sbf_table 3 b4) in
    let t2 = bit_xor t3 (sbf_table 2 b5) in
    let t1 = bit_xor t2 (sbf_table 1 b6) in bit_xor t1 (sbf_table 0 b7)

-- Eight bytes at once while there are eight, then the rest.
unfoldable pub sbf_loop : ℕ → List ℕ → ℕ
unfolding sbf_tail sbf_sliced
sbf_loop crc (b0 ∷ b1 ∷ b2 ∷ b3 ∷ b4 ∷ b5 ∷ b6 ∷ b7 ∷ bs) =
    sbf_loop (sbf_sliced crc b0 b1 b2 b3 b4 b5 b6 b7) bs
sbf_loop crc bs = sbf_tail crc bs

unfoldable pub sbf_crc : List ℕ → ℕ
unfolding sbf_loop
sbf_crc bytes = sbf_loop 0 bytes

-- One round of the RTCM table's loop on a uint32_t.
unfoldable pub rtcm3_round : ℕ → ℕ
rtcm3_round c = bit_xor (c * 2 % 2 ^ 32) (if c / 0x800000 % 2 == 1 then 0x1864cfb else 0)

unfoldable pub rtcm3_rounds : ℕ → ℕ → ℕ
rtcm3_rounds zero c = c
rtcm3_rounds (suc n) c = rtcm3_rounds n (rtcm3_round c)

unfoldable pub rtcm3_table : ℕ → ℕ
unfolding rtcm3_rounds rtcm3_round
rtcm3_table i = rtcm3_rounds 8 (i * 2 ^ 16) % 2 ^ 24

unfoldable pub rtcm3_loop : ℕ → List ℕ → ℕ
unfolding rtcm3_table
rtcm3_loop crc [] = crc
rtcm3_loop crc (b ∷ bs) =
    rtcm3_loop (bit_xor (crc * 256 % 2 ^ 24) (rtcm3_table (bit_xor (crc / 2 ^ 16) b))) bs

unfoldable pub rtcm3_crc : List ℕ → ℕ
unfolding rtcm3_loop
rtcm3_crc bytes = rtcm3_loop 0 bytes
