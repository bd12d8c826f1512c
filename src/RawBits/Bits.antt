-- ===== src/RawBits/Bits.antt =====
-- struct Bits of libneognss-obs/src/raw_bits.cpp: a view of the receiver's words as one sequence of
-- bits. `none` is the std::out_of_range of `get` and of UBX::read_le.
use neo_gnss_observatory.Base.{ℕ, zero, suc, ◌+◌, ◌-◌, ◌*◌, ◌/◌, ◌%◌, ◌^◌, Bool, false, ◌&&◌, ◌||◌}
use neo_gnss_observatory.Base.{
  List, [], ◌∷◌, Option, none, some, ltb, leb, if◌then◌else◌, length, get_elem?,
}
use neo_gnss_observatory.Base.{get_or}
use Prim.Native.Nat.{min}

infixl 5 ◌>>=◌
abbrev pub ◌>>=◌ : {A B : Type 0} → Option A → (A → Option B) → Option B
none >>= k = none
some a >>= k = k a

pub record Bits : Type 0 where
  pub bytes : List ℕ
  pub words : List ℕ
  pub width : ℕ
  pub size : ℕ
  pub inav_pair : Bool

-- `unpack`: the words of a byte span.
unfoldable pub unpack : List ℕ → ℕ → Bits
unpack bytes width = record {
  bytes = bytes;
  words = [];
  width = width;
  size = length bytes / 4 * width;
  inav_pair = false;
}

unfoldable pub resize : Bits → ℕ → Option Bits
resize b n = if ltb b.size n then none else some (record b { size = n })

-- UBX::read_le<uint32_t>.
unfoldable pub read_le32 : List ℕ → ℕ → Option ℕ
read_le32 payload offset =
    if ltb (length payload) offset || ltb (length payload - offset) 4
    then none
    else some (
        get_or payload offset 0
        + get_or payload (offset + 1) 0 * 2 ^ 8
        + get_or payload (offset + 2) 0 * 2 ^ 16
        + get_or payload (offset + 3) 0 * 2 ^ 24)

-- The word of a physical position. A vector is read without a test; the views of the decoder
-- never reach its end.
unfoldable pub word_at : Bits → ℕ → Option ℕ
unfolding read_le32
word_at b i = elim b.words [ [] ↦ read_le32 b.bytes (i * 4) | w ∷ ws ↦ get_elem? (w ∷ ws) i ]

-- The words of an I/NAV page pair hold fourteen bits that are not part of the page.
unfoldable pub physical : Bits → ℕ → ℕ
physical b i = i + (if b.inav_pair && leb 114 i then 14 else 0)

-- How many bits the next round takes.
unfoldable pub chunk : Bits → ℕ → ℕ → ℕ
unfolding physical
chunk b begin end =
    let count = min (end - begin) (b.width - physical b begin % b.width) in
    if b.inav_pair && ltb begin 114 then min count (114 - begin) else count

-- The loop of `get`, with as many rounds as there are bits to read.
unfoldable pub get_loop : ℕ → Bits → ℕ → ℕ → ℕ → Option ℕ
unfolding word_at chunk
get_loop zero b begin end result = some result
get_loop (suc fuel) b begin end result =
    if ltb begin end
    then (word_at b (physical b begin / b.width) >>= λ word.
        let count = chunk b begin end in
        let shift = b.width - physical b begin % b.width - count in
        get_loop fuel b (begin + count) end (result * 2 ^ count + word / 2 ^ shift % 2 ^ count))
    else some result

-- `value` and Bits::get.
unfoldable pub value : Bits → ℕ → ℕ → Option ℕ
unfolding get_loop
value b begin end =
    if ltb end begin || ltb b.size end || ltb 32 (end - begin)
    then none
    else get_loop (end - begin) b begin end 0
