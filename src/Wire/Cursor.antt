-- ===== src/Wire/Cursor.antt =====
-- struct BitCursor of libcppgnss/include/cppgnss/wire_typed.hpp, and BroadcastBits of
-- libneognss-obs/src/broadcast_bits.hpp, which reads fields of bits at given positions.
use neo_gnss_observatory.Base.{
  ℕ, zero, suc, ◌+◌, ◌-◌, ◌*◌, ◌/◌, ◌%◌, ◌^◌, ◌&&◌, ◌||◌, List, Option, none, some, ltb, ◌==◌,
  if◌then◌else◌, length, get_or,
}
use neo_gnss_observatory.Base.Int.{ℤ, pos, ◌-ℤ◌}

-- A thrown WireError is `failed` with its offset.
pub data Read (A : Type 0) : Type 0 where
  got : A → Read A
  failed : ℕ → Read A

pub record BitCursor : Type 0 where
  pub bytes : List ℕ
  pub bit : ℕ

-- `(bytes[bit / 8] >> (7 - bit % 8)) & 1`.
abbrev pub digit : List ℕ → ℕ → ℕ
digit bytes bit = get_or bytes (bit / 8) 0 / 2 ^ (7 - bit % 8) % 2

-- The loop over `n` bits; the low digit of the shifted value is 0, so that `|` adds.
unfoldable pub bits_loop : List ℕ → (value bit n : ℕ) → ℕ
bits_loop bytes value bit zero = value
bits_loop bytes value bit (suc n) =
    bits_loop bytes (value * 2 % 2 ^ 64 + digit bytes bit) (suc bit) n

-- `bytes.size() * 8 - bit` on size_t.
abbrev pub left_bits : BitCursor → ℕ
left_bits c = (length c.bytes * 8 + 2 ^ 64 - c.bit) % 2 ^ 64

unfoldable pub u : BitCursor → ℕ → Read (ℕ × BitCursor)
unfolding bits_loop
u c width =
    if ltb 64 width || ltb (left_bits c) width
    then failed (c.bit / 8)
    else got (bits_loop c.bytes 0 c.bit width, record c { bit = c.bit + width })

-- The value of a uint64_t as an int64_t.
abbrev pub signed64 : ℕ → ℤ
signed64 v = if ltb v (2 ^ 63) then pos v else pos v -ℤ pos (2 ^ 64)

abbrev pub extended : ℕ → ℕ → ℕ
extended width v =
    if ltb 0 width && ltb width 64 && v / 2 ^ (width - 1) % 2 == 1
    then v % 2 ^ width + (2 ^ 64 - 2 ^ width)
    else v

unfoldable pub s : BitCursor → ℕ → Read (ℤ × BitCursor)
unfolding u
s c width = elim (u c width) [
  | got r ↦ got (signed64 (extended width r.0), r.1)
  | failed o ↦ failed o
]

unfoldable pub count : BitCursor → ℕ → Read ℕ
count c value = if ltb (left_bits c) value then failed (c.bit / 8) else got value

-- BroadcastBits: the bytes and the number of bits that the constructor admitted. `none` is the
-- exception that a member function throws.
pub record BroadcastBits : Type 0 where
  pub data' : List ℕ
  pub size : ℕ

unfoldable pub broadcast_bits : List ℕ → ℕ → Option BroadcastBits
broadcast_bits bytes n =
    if ltb (length bytes * 8) n then none else some (record { data' = bytes; size = n })

unfoldable pub field : BroadcastBits → ℕ → ℕ → Option ℕ
unfolding bits_loop
field b p n =
    if ltb 63 n || ltb b.size p || ltb (b.size - p) n then none else some (bits_loop b.data' 0 p n)

-- BroadcastBits::s.
unfoldable pub signed_field : BroadcastBits → ℕ → ℕ → Option ℤ
unfolding field
signed_field b p n = elim (field b p n) [
  | none ↦ none
  | some v ↦
      if n == 0
      then none
      else if v / 2 ^ (n - 1) % 2 == 1
      then some (pos 0 -ℤ pos (2 ^ n - v))
      else some (pos v)
]
