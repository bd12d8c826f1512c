-- ===== src/Crc/Slicing.antt =====
-- `sbf_crc` reads eight bytes at once; here it is the checksum that feeds the register one byte
-- at a time, each byte by eight single rounds.
use Prim.Native.Nat.{bit_xor}
use neo_gnss_observatory.Base.{ℕ, zero, suc, ◌*◌, ◌/◌, ◌%◌, ◌^◌, ◌<◌, ◌≡◌, refl, sym, ◌∙◌}
use neo_gnss_observatory.Base.{
  ap, ap₂, Bool, true, ◌&&◌, List, [], ◌∷◌, arith, ◌==◌, ==_iff, length,
}
use neo_gnss_observatory.Base.{IsBytes}
use neo_gnss_observatory.Base.Xor.{xor_parts, xor_mul, xor_join, xor_assoc, xor_comm, xor-zero}
use neo_gnss_observatory.Base.Xor.{zero-xor, xor-lt}
use neo_gnss_observatory.Crc.{sbf_round, sbf_rounds, sbf_table, sbf_tail}
use neo_gnss_observatory.Crc.Linear.{sbf_rounds-xor, sbf_rounds-lt}

-- The register after one byte.
abbrev pub take_byte : ℕ → ℕ → ℕ
take_byte c b = sbf_rounds 8 (bit_xor c (b * 256))

abbrev pub bytewise : ℕ → List ℕ → ℕ
bytewise c [] = c
bytewise c (b ∷ bs) = bytewise (take_byte c b) bs

-- The register after `n` zero bytes.
pub zeros : ℕ → ℕ → ℕ
zeros zero c = c
zeros (suc n) c = zeros n (sbf_rounds 8 c)

zeros-xor : (n c d : ℕ) → zeros n (bit_xor c d) ≡ bit_xor (zeros n c) (zeros n d)
unfolding zeros
zeros-xor zero c d = refl
zeros-xor (suc n) c d = rw (sbf_rounds-xor 8 c d) (zeros-xor n (sbf_rounds 8 c) (sbf_rounds 8 d))

zeros_last : (n c : ℕ) → zeros (suc n) c ≡ sbf_rounds 8 (zeros n c)
unfolding zeros
zeros_last zero c = refl
zeros_last (suc n) c = zeros_last n (sbf_rounds 8 c)

every_below : ℕ → (ℕ → Bool) → Bool
every_below zero p = true
every_below (suc n) p = p n && every_below n p

every_below_sound : (n : ℕ) (p : ℕ → Bool) (x : ℕ) → every_below n p ≡ true → x < n → p x ≡ true
unfolding every_below
every_below_sound zero p x h l = absurd (omega arith)
every_below_sound (suc n) p x h l = ground (arith, every_below_sound n p x)

low_byte_table : every_below 256 (λ x. sbf_rounds 8 x == x * 256) ≡ true
unfolding every_below sbf_rounds sbf_round
low_byte_table = refl

-- Eight rounds move the low byte up and meet no feedback.
sbf_rounds-low : (x : ℕ) → x < 256 → sbf_rounds 8 x ≡ x * 256
sbf_rounds-low x h = (==_iff _ _).0 (every_below_sound 256 _ x low_byte_table h)

split_byte : (c : ℕ) → bit_xor (c / 256 * 256) (c % 256) ≡ c
split_byte c = omega (arith, xor_join 8 (c / 256) (c % 256) (omega arith))

-- What a byte does to the register, by its high and its low byte.
take_byte_parts :
    (c b : ℕ) → take_byte c b ≡ bit_xor (sbf_rounds 8 (bit_xor (c / 256) b * 256)) (c % 256 * 256)
take_byte_parts c b =
    let lo : sbf_rounds 8 (c % 256) ≡ c % 256 * 256 = sbf_rounds-low (c % 256) (omega arith) in
    let regroup : bit_xor c (b * 256) ≡ bit_xor (bit_xor (c / 256) b * 256) (c % 256) = cc (
      split_byte c,
      xor_mul 8 (c / 256) b,
      xor_assoc (c / 256 * 256) (c % 256) (b * 256),
      xor_assoc (c / 256 * 256) (b * 256) (c % 256),
      xor_comm (c % 256) (b * 256),
    ) in
    ap (sbf_rounds 8) regroup ∙ sbf_rounds-xor 8 _ _ ∙ ap (bit_xor _) lo

table_step : ℕ → ℕ → ℕ
table_step c x = bit_xor (c * 256) (sbf_rounds 8 (x * 256 % 2 ^ 16)) % 2 ^ 16

table_step_lem :
    (c b : ℕ) → c < 2 ^ 16 → b < 256 → table_step c (bit_xor (c / 256) b) ≡ take_byte c b
unfolding table_step
table_step_lem c b hc hb =
    let x = bit_xor (c / 256) b in
    let small : x < 256 = xor-lt 8 (c / 256) b (omega arith) hb in
    let a : x * 256 % 2 ^ 16 ≡ x * 256 = omega arith in
    let top : c * 256 % 2 ^ 16 ≡ c % 256 * 256 = omega arith in
    let fits : sbf_rounds 8 (x * 256) < 2 ^ 16 = sbf_rounds-lt 8 (x * 256) (omega arith) in
    let keep : sbf_rounds 8 (x * 256) % 2 ^ 16 ≡ sbf_rounds 8 (x * 256) = omega arith in
    rw a (
      (xor_parts 16 (c * 256) (sbf_rounds 8 (x * 256))).1
      ∙ ap₂ bit_xor top keep
      ∙ xor_comm _ _
      ∙ sym (take_byte_parts c b))

zeros-lt : (n c : ℕ) → c < 2 ^ 16 → zeros n c < 2 ^ 16
unfolding zeros
zeros-lt zero c h = h
zeros-lt (suc n) c h = zeros-lt n (sbf_rounds 8 c) (sbf_rounds-lt 8 c h)

table_step-zero : (c : ℕ) → c < 2 ^ 16 → table_step c (c / 256) ≡ sbf_rounds 8 c
table_step-zero c h =
    ap (table_step c) (sym (xor-zero (c / 256)))
    ∙ table_step_lem c 0 h (omega arith)
    ∙ ap (sbf_rounds 8) (xor-zero c)

sbf_table-zero : (i : ℕ) → sbf_table 0 i ≡ sbf_rounds 8 (i * 256 % 2 ^ 16)
unfolding sbf_table
sbf_table-zero i = refl

sbf_table-suc : (k i : ℕ) → sbf_table (suc k) i ≡ table_step (sbf_table k i) (sbf_table k i / 256)
unfolding sbf_table table_step
sbf_table-suc k i = refl

-- `table[k][i]` is the register after the byte `i` and `k` zero bytes.
sbf_table_lem : (k i : ℕ) → i < 256 → sbf_table k i ≡ zeros (suc k) (i * 256)
sbf_table_lem zero i h =
    let e : i * 256 % 2 ^ 16 ≡ i * 256 = omega arith in
    sbf_table-zero i ∙ ap (sbf_rounds 8) e ∙ unfold zeros in refl
sbf_table_lem (suc k) i h =
    sbf_table-suc k i
    ∙ ap (λ v. table_step v (v / 256)) (sbf_table_lem k i h)
    ∙ table_step-zero (zeros (suc k) (i * 256)) (zeros-lt (suc k) (i * 256) (omega arith))
    ∙ sym (zeros_last (suc k) (i * 256))

tail_byte :
    (c b : ℕ)
    → c < 2 ^ 16
    → b < 256
    → bit_xor (c * 256) (sbf_table 0 (bit_xor (c / 256) b)) % 2 ^ 16 ≡ take_byte c b
tail_byte c b hc hb =
    rw (sbf_table-zero (bit_xor (c / 256) b)) (unfold table_step in table_step_lem c b hc hb)

-- A take_byte always leaves sixteen bits.
pub take_byte-lt : (c b : ℕ) → c < 2 ^ 16 → b < 256 → take_byte c b < 2 ^ 16
take_byte-lt c b hc hb =
    sbf_rounds-lt 8 (bit_xor c (b * 256)) (xor-lt 16 c (b * 256) hc (omega arith))

-- The loop that ends `sbf_crc` is the byte at a time checksum.
pub sbf_tail-bytewise :
    (bs : List ℕ) (c : ℕ) → c < 2 ^ 16 → IsBytes bs → sbf_tail c bs ≡ bytewise c bs
sbf_tail-bytewise [] c h v = unfold sbf_tail in refl
sbf_tail-bytewise (b ∷ bs) c h v =
    sbf_tail_cons
    ∙ ap (λ t. sbf_tail t bs) (tail_byte c b h v.0)
    ∙ sbf_tail-bytewise bs (take_byte c b) (take_byte-lt c b h v.0) v.1
  where
    sbf_tail_cons :
        sbf_tail c (b ∷ bs)
        ≡ sbf_tail (bit_xor (c * 256) (sbf_table 0 (bit_xor (c / 256) b)) % 2 ^ 16) bs
    sbf_tail_cons = unfold sbf_tail in refl

-- The register's old value and the bytes that are read add up.
pub bytewise_split :
    (bs : List ℕ) (c : ℕ) → bytewise c bs ≡ bit_xor (zeros (length bs) c) (bytewise 0 bs)
bytewise_split [] c = sym (xor-zero c) ∙ unfold zeros in refl
bytewise_split (b ∷ bs) c =
    let n = length bs in
    let z = zeros n in
    let apart : take_byte c b ≡ bit_xor (sbf_rounds 8 c) (sbf_rounds 8 (b * 256)) =
      sbf_rounds-xor 8 c (b * 256) in
    let alone : take_byte 0 b ≡ sbf_rounds 8 (b * 256) = ap (sbf_rounds 8) (zero-xor (b * 256)) in
    let here = bytewise_split bs (take_byte c b) in
    let there = bytewise_split bs (take_byte 0 b) in
    here
    ∙ ap (λ t. bit_xor (z t) (bytewise 0 bs)) apart
    ∙ ap (λ t. bit_xor t (bytewise 0 bs)) (zeros-xor n (sbf_rounds 8 c) (sbf_rounds 8 (b * 256)))
    ∙ xor_assoc (z (sbf_rounds 8 c)) (z (sbf_rounds 8 (b * 256))) (bytewise 0 bs)
    ∙ ap (bit_xor (z (sbf_rounds 8 c)))
        (sym (there ∙ ap (λ t. bit_xor (z t) (bytewise 0 bs)) alone))
    ∙ unfold zeros in refl

pub bytewise-cons :
    (b : ℕ) (bs : List ℕ)
    → b < 256
    → bytewise 0 (b ∷ bs) ≡ bit_xor (sbf_table (length bs) b) (bytewise 0 bs)
bytewise-cons b bs h =
    let alone : take_byte 0 b ≡ sbf_rounds 8 (b * 256) = ap (sbf_rounds 8) (zero-xor (b * 256)) in
    bytewise_split bs (take_byte 0 b)
    ∙ ap (λ t. bit_xor (zeros (length bs) t) (bytewise 0 bs)) alone
    ∙ ap (λ t. bit_xor t (bytewise 0 bs))
        (sym (sbf_table_lem (length bs) b h ∙ unfold zeros in refl))

-- The two bytes of the old register meet the first two bytes that are read.
pub first_byte :
    (c b : ℕ) (bs : List ℕ)
    → c < 2 ^ 16
    → b < 256
    → zeros (suc (length bs)) (take_byte c b)
      ≡ bit_xor
          (sbf_table (suc (length bs)) (bit_xor b (c / 256)))
          (sbf_table (length bs) (c % 256))
first_byte c b bs hc hb =
    let n = length bs in
    let x = bit_xor (c / 256) b in
    let small : x < 256 = xor-lt 8 (c / 256) b (omega arith) hb in
    ap (zeros (suc n)) (take_byte_parts c b)
    ∙ zeros-xor (suc n) (sbf_rounds 8 (x * 256)) (c % 256 * 256)
    ∙ ap₂ bit_xor
        (sym (
          ap (sbf_table (suc n)) (xor_comm b (c / 256))
          ∙ sbf_table_lem (suc n) x small
          ∙ unfold zeros in refl))
        (sym (sbf_table_lem n (c % 256) (omega arith)))

pub sbf_table-xor :
    (k x y : ℕ)
    → x < 256
    → y < 256
    → sbf_table k (bit_xor x y) ≡ bit_xor (sbf_table k x) (sbf_table k y)
sbf_table-xor k x y hx hy =
    sbf_table_lem k (bit_xor x y) (xor-lt 8 x y hx hy)
    ∙ ap (zeros (suc k)) (sym (xor_mul 8 x y))
    ∙ zeros-xor (suc k) (x * 256) (y * 256)
    ∙ sym (ap₂ bit_xor (sbf_table_lem k x hx) (sbf_table_lem k y hy))
