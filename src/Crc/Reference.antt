-- ===== src/Crc/Reference.antt =====
-- The CRC-16 of polynomial 0x1021 as a shift register that takes the message bit by bit, the
-- description of which `sbf_crc` is an optimised form.
use Prim.Native.Nat.{bit_xor}
use neo_gnss_observatory.Base.{ℕ, zero, suc, ◌+◌, ◌*◌, ◌/◌, ◌%◌, ◌^◌, ◌<◌, ◌≡◌, refl, sym, ◌∙◌}
use neo_gnss_observatory.Base.{ap, ap₂, List, [], ◌∷◌, ◌++◌, arith, IsBytes, ◌==◌}
use neo_gnss_observatory.Base.{if◌then◌else◌}
use neo_gnss_observatory.Base.Xor.{xor_parts, xor_assoc, xor_comm, xor-zero, xor-lt}
use neo_gnss_observatory.Crc.{sbf_round, sbf_rounds, sbf_crc}
use neo_gnss_observatory.Crc.Linear.{feedback, feedback_table, sbf_round-xor}
use neo_gnss_observatory.Crc.Slicing.{take_byte, bytewise, take_byte-lt}
use neo_gnss_observatory.Crc.Eight.{sbf_crc-bytewise}

-- One message bit: the register moves up, and the polynomial is subtracted if the bit that
-- leaves differs from the message bit.
abbrev pub shift_in : ℕ → ℕ → ℕ
shift_in c d = bit_xor (c * 2 % 2 ^ 16) (if (c / 2 ^ 15 + d) % 2 == 1 then 0x1021 else 0)

-- The bits of a byte, the most significant first.
abbrev pub byte_bits : ℕ → List ℕ
byte_bits b =
    b / 128 % 2
    ∷ b / 64 % 2
    ∷ b / 32 % 2
    ∷ b / 16 % 2
    ∷ b / 8 % 2
    ∷ b / 4 % 2
    ∷ b / 2 % 2
    ∷ b % 2
    ∷ []

abbrev pub message_bits : List ℕ → List ℕ
message_bits [] = []
message_bits (b ∷ bs) = byte_bits b ++ message_bits bs

abbrev pub crc16 : ℕ → List ℕ → ℕ
crc16 c [] = c
crc16 c (d ∷ ds) = crc16 (shift_in c d) ds

round_message :
    (r : ℕ) → r < 2 ^ 16 → sbf_round r ≡ bit_xor (r * 2 % 2 ^ 16) (feedback (r / 2 ^ 15))
unfolding sbf_round
round_message r h =
    let top : r / 0x8000 % 2 ≡ r / 2 ^ 15 = omega arith in
    (xor_parts 16 (r * 2) (feedback (r / 0x8000 % 2))).1 ∙ ap₂ bit_xor refl (ground arith)

-- A message that waits below the register moves up with it.
round_both :
    (c r : ℕ)
    → c < 2 ^ 16
    → r < 2 ^ 16
    → sbf_round (bit_xor c r) ≡ bit_xor (shift_in c (r / 2 ^ 15)) (r * 2 % 2 ^ 16)
round_both c r hc hr =
    let top = c * 2 % 2 ^ 16 in
    let low = r * 2 % 2 ^ 16 in
    let p = feedback (c / 2 ^ 15) in
    let q = feedback (r / 2 ^ 15) in
    let both : feedback ((c / 2 ^ 15 + r / 2 ^ 15) % 2) ≡ bit_xor p q =
      feedback_table (c / 2 ^ 15) (r / 2 ^ 15) (omega arith) (omega arith) in
    let regroup : bit_xor (bit_xor top p) (bit_xor low q)
        ≡ bit_xor (bit_xor top (bit_xor p q)) low =
      cc (
        xor_assoc top p (bit_xor low q),
        xor_assoc top (bit_xor p q) low,
        xor_assoc p q low,
        xor_comm low q,
      ) in
    sbf_round-xor c r
    ∙ ap₂ bit_xor (round_message c hc) (round_message r hr)
    ∙ regroup
    ∙ ap (λ t. bit_xor (bit_xor top t) low) (sym both)

shift_in-lt : (c d : ℕ) → shift_in c d < 2 ^ 16
shift_in-lt c d =
    xor-lt 16 (c * 2 % 2 ^ 16) (feedback ((c / 2 ^ 15 + d) % 2)) (omega arith) (ground arith)

-- `n` rounds take the upper `n` bits of the sixteen that wait, `r`.
waiting_bits : ℕ → ℕ → List ℕ
waiting_bits zero r = []
waiting_bits (suc n) r = r / 2 ^ 15 ∷ waiting_bits n (r * 2 % 2 ^ 16)

waiting_rest : ℕ → ℕ → ℕ
waiting_rest zero r = r
waiting_rest (suc n) r = waiting_rest n (r * 2 % 2 ^ 16)

sbf_rounds-crc16 :
    (n c r : ℕ)
    → c < 2 ^ 16
    → r < 2 ^ 16
    → sbf_rounds n (bit_xor c r) ≡ bit_xor (crc16 c (waiting_bits n r)) (waiting_rest n r)
unfolding sbf_rounds waiting_bits waiting_rest
sbf_rounds-crc16 zero c r hc hr = refl
sbf_rounds-crc16 (suc n) c r hc hr =
    ap (sbf_rounds n) (round_both c r hc hr)
    ∙ sbf_rounds-crc16 n (shift_in c (r / 2 ^ 15)) (r * 2 % 2 ^ 16) (shift_in-lt c (r / 2 ^ 15))
        (omega arith)

waiting_byte : (b : ℕ) → b < 256 → waiting_bits 8 (b * 256) ≡ byte_bits b
unfolding waiting_bits
waiting_byte b h = ground arith

waiting_done : (b : ℕ) → b < 256 → waiting_rest 8 (b * 256) ≡ 0
unfolding waiting_rest
waiting_done b h = omega arith

take_byte-crc16 : (c b : ℕ) → c < 2 ^ 16 → b < 256 → take_byte c b ≡ crc16 c (byte_bits b)
take_byte-crc16 c b hc hb =
    sbf_rounds-crc16 8 c (b * 256) hc (omega arith)
    ∙ ap₂ bit_xor (ap (crc16 c) (waiting_byte b hb)) (waiting_done b hb)
    ∙ xor-zero (crc16 c (byte_bits b))

crc16-append : (ds es : List ℕ) (c : ℕ) → crc16 c (ds ++ es) ≡ crc16 (crc16 c ds) es
crc16-append [] es c = refl
crc16-append (d ∷ ds) es c = crc16-append ds es (shift_in c d)

bytewise-crc16 :
    (bs : List ℕ) (c : ℕ) → c < 2 ^ 16 → IsBytes bs → bytewise c bs ≡ crc16 c (message_bits bs)
bytewise-crc16 [] c h v = refl
bytewise-crc16 (b ∷ bs) c h v =
    bytewise-crc16 bs (take_byte c b) (take_byte-lt c b h v.0) v.1
    ∙ ap (λ t. crc16 t (message_bits bs)) (take_byte-crc16 c b h v.0)
    ∙ sym (crc16-append (byte_bits b) (message_bits bs) c)

-- On every sequence of bytes, sbf_crc, which reads eight bytes at once through eight tables,
-- returns the CRC-16 of polynomial 0x1021 and initial value 0 that takes the message bit by bit.
pub sbf_crc-crc16 : (bs : List ℕ) → IsBytes bs → sbf_crc bs ≡ crc16 0 (message_bits bs)
sbf_crc-crc16 bs h = sbf_crc-bytewise bs h ∙ bytewise-crc16 bs 0 (omega arith) h
