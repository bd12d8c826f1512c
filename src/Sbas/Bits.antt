-- ===== src/Sbas/Bits.antt =====
-- BitView and crc24q of libneognss-obs/src/sbas.cpp, and the monad of the parser: `out_of_range` is
-- the exception, `invalid` the return of Status::invalid_content.
use Prim.Native.Nat.{bit_xor}
use neo_gnss_observatory.Base.{
  ℕ, zero, suc, ◌+◌, ◌-◌, ◌*◌, ◌/◌, ◌%◌, ◌^◌, Bool, ◌||◌, List, [], ◌∷◌, Option, none, some, ltb,
  ◌==◌, if◌then◌else◌, length,
}
use neo_gnss_observatory.Base.Int.{ℤ}
use neo_gnss_observatory.Wire.Cursor.{bits_loop, signed64, extended}

pub data Parse (A : Type 0) : Type 0 where
  got : A → Parse A
  invalid : Parse A
  out_of_range : Parse A

infixl 5 ◌>>=◌ ◌>>◌
abbrev pub ◌>>=◌ : {A B : Type 0} → Parse A → (A → Parse B) → Parse B
got a >>= k = k a
invalid >>= k = invalid
out_of_range >>= k = out_of_range

abbrev pub ◌>>◌ : {B : Type 0} → Parse (Unit {0}) → Parse B → Parse B
m >> k = m >>= λ _. k

-- `if (b) return {Status::invalid_content, m};`.
abbrev pub reject_if : Bool → Parse (Unit {0})
reject_if b = if b then invalid else got tt

pub record BitView : Type 0 where
  pub bytes : List ℕ
  pub bit_count : ℕ

unfoldable pub bit_view : List ℕ → ℕ → Parse BitView
bit_view bytes count =
    if ltb (length bytes * 8) count
    then out_of_range
    else got (record { bytes = bytes; bit_count = count })

unfoldable pub unsigned_at : BitView → ℕ → ℕ → Parse ℕ
unsigned_at b offset width =
    if ltb 64 width || ltb b.bit_count offset || ltb (b.bit_count - offset) width
    then out_of_range
    else got (bits_loop b.bytes 0 offset width)

unfoldable pub signed_at : BitView → ℕ → ℕ → Parse ℤ
signed_at b offset width =
    let v = unsigned_at b offset width in
    if width == 0 then out_of_range else v >>= λ value. got (signed64 (extended width value))

abbrev pub flag_at : BitView → ℕ → Parse Bool
flag_at b offset = unsigned_at b offset 1 >>= λ v. got (v == 1)

-- A loop that collects what its body reads for `n` numbers from `i` on.
unfoldable pub each_from : {A : Type 0} → ℕ → ℕ → (ℕ → Parse A) → Parse (List A)
each_from i zero body = got []
each_from i (suc n) body = body i >>= λ a. each_from (suc i) n body >>= λ rest. got (a ∷ rest)

abbrev pub each : {A : Type 0} → ℕ → (ℕ → Parse A) → Parse (List A)
each n body = each_from 0 n body

abbrev pub kept : {A : Type 0} → List (Option A) → List A
kept [] = []
kept (none ∷ rest) = kept rest
kept (some a ∷ rest) = a ∷ kept rest

-- A turn of crc24q for one bit.
unfoldable pub crc24q_bit : ℕ → ℕ → ℕ
crc24q_bit crc bit =
    let shifted = crc * 2 % 2 ^ 24 in
    if (crc / 2 ^ 23 + bit) % 2 == 1 then bit_xor shifted 0x864cfb else shifted

unfoldable pub crc24q_loop : BitView → ℕ → ℕ → ℕ → Parse ℕ
crc24q_loop b crc i zero = got crc
crc24q_loop b crc i (suc n) =
    unsigned_at b i 1 >>= λ bit. crc24q_loop b (crc24q_bit crc bit) (suc i) n

unfoldable pub crc24q : List ℕ → ℕ → Parse ℕ
crc24q bytes count = bit_view bytes count >>= λ b. crc24q_loop b 0 0 count
