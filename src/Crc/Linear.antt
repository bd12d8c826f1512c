-- ===== src/Crc/Linear.antt =====
-- The rounds of the SBF checksum table are linear for exclusive or.
use Prim.Native.Nat.{bit_xor}
use neo_gnss_observatory.Base.{ℕ, zero, suc, ◌+◌, ◌*◌, ◌/◌, ◌%◌, ◌^◌, ◌<◌, ◌≡◌, refl, ◌∙◌, ap, ap₂}
use neo_gnss_observatory.Base.{◌⊎◌, ◌==◌, if◌then◌else◌, arith}
use neo_gnss_observatory.Base.Xor.{xor_step, xor_parts, xor_mul, xor_exchange}
use neo_gnss_observatory.Crc.{sbf_round, sbf_rounds}

abbrev pub feedback : ℕ → ℕ
feedback t = if t == 1 then 0x1021 else 0

pub feedback_table :
    (x y : ℕ)
    → (x ≡ 0) ⊎ (x ≡ 1)
    → (y ≡ 0) ⊎ (y ≡ 1)
    → feedback ((x + y) % 2) ≡ bit_xor (feedback x) (feedback y)
feedback_table x y p q = ground arith

feedback-xor :
    (c d : ℕ)
    → feedback (bit_xor c d / 0x8000 % 2)
      ≡ bit_xor (feedback (c / 0x8000 % 2)) (feedback (d / 0x8000 % 2))
feedback-xor c d =
    let e : bit_xor c d / 0x8000 % 2 ≡ (c / 0x8000 % 2 + d / 0x8000 % 2) % 2 =
      omega (arith, (xor_parts 15 c d).0, xor_step (c / 0x8000) (d / 0x8000)) in
    rw e (feedback_table (c / 0x8000 % 2) (d / 0x8000 % 2) (omega arith) (omega arith))

pub sbf_round-xor : (c d : ℕ) → sbf_round (bit_xor c d) ≡ bit_xor (sbf_round c) (sbf_round d)
unfolding sbf_round
sbf_round-xor c d =
    let twice : bit_xor c d * 2 ≡ bit_xor (c * 2) (d * 2) = omega (arith, xor_mul 1 c d) in
    ap (λ t. t % 2 ^ 16) (ap₂ bit_xor twice (feedback-xor c d) ∙ xor_exchange (c * 2) (d * 2) _ _)
    ∙ (xor_parts 16 _ _).1

pub sbf_rounds-xor :
    (n c d : ℕ) → sbf_rounds n (bit_xor c d) ≡ bit_xor (sbf_rounds n c) (sbf_rounds n d)
unfolding sbf_rounds
sbf_rounds-xor zero c d = refl
sbf_rounds-xor (suc n) c d = rw (sbf_round-xor c d) (sbf_rounds-xor n (sbf_round c) (sbf_round d))

sbf_round-lt : (c : ℕ) → sbf_round c < 2 ^ 16
unfolding sbf_round
sbf_round-lt c = omega arith

pub sbf_rounds-lt : (n c : ℕ) → c < 2 ^ 16 → sbf_rounds n c < 2 ^ 16
unfolding sbf_rounds
sbf_rounds-lt zero c h = h
sbf_rounds-lt (suc n) c h = sbf_rounds-lt n (sbf_round c) (sbf_round-lt c)
