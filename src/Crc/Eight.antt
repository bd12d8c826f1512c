-- ===== src/Crc/Eight.antt =====
-- The body of the sliced loop of `sbf_crc`, and the whole checksum.
use Prim.Native.Nat.{bit_xor}
use neo_gnss_observatory.Base.{ℕ, suc, ◌/◌, ◌%◌, ◌^◌, ◌<◌, ◌≡◌, refl, sym, ◌∙◌, ap, ap₂}
use neo_gnss_observatory.Base.{List, [], ◌∷◌, arith, IsBytes, length}
use neo_gnss_observatory.Base.Xor.{xor_assoc, xor_comm, xor-zero}
use neo_gnss_observatory.Crc.{sbf_table, sbf_sliced, sbf_loop, sbf_crc}
use neo_gnss_observatory.Crc.Slicing.{
  bytewise, take_byte, take_byte-lt, bytewise_split, bytewise-cons, first_byte, sbf_table-xor,
  sbf_tail-bytewise,
}

-- One table entry for each byte, by the number of bytes behind it.
tables : List ℕ → ℕ
tables [] = 0
tables (b ∷ bs) = bit_xor (sbf_table (length bs) b) (tables bs)

tables-cons :
    (b : ℕ) (bs : List ℕ) → tables (b ∷ bs) ≡ bit_xor (sbf_table (length bs) b) (tables bs)
unfolding tables
tables-cons b bs = refl

bytewise-tables : (bs : List ℕ) → IsBytes bs → bytewise 0 bs ≡ tables bs
unfolding tables
bytewise-tables [] h = refl
bytewise-tables (b ∷ bs) h =
    bytewise-cons b bs h.0 ∙ ap (bit_xor (sbf_table (length bs) b)) (bytewise-tables bs h.1)

-- Two bytes or more: the old register is spread over the first two tables.
bytewise_two :
    (c b0 b1 : ℕ) (bs : List ℕ)
    → c < 2 ^ 16
    → IsBytes (b0 ∷ b1 ∷ bs)
    → bytewise c (b0 ∷ b1 ∷ bs)
      ≡ bit_xor
          (bit_xor
            (sbf_table (suc (length bs)) (bit_xor b0 (c / 256)))
            (sbf_table (length bs) (bit_xor b1 (c % 256))))
          (tables bs)
bytewise_two c b0 b1 bs hc h =
    let n = length bs in
    let a = sbf_table (suc n) (bit_xor b0 (c / 256)) in
    let l = sbf_table n (c % 256) in
    let m = sbf_table n b1 in
    let join : sbf_table n (bit_xor b1 (c % 256)) ≡ bit_xor m l =
      sbf_table-xor n b1 (c % 256) h.1.0 (omega arith) in
    bytewise_split (b1 ∷ bs) (take_byte c b0)
    ∙ ap₂ bit_xor (first_byte c b0 bs hc h.0) (bytewise-tables (b1 ∷ bs) h.1 ∙ tables-cons b1 bs)
    ∙ sym (xor_assoc (bit_xor a l) m (tables bs))
    ∙ ap (λ t. bit_xor t (tables bs)) (xor_assoc a l m ∙ ap (bit_xor a) (xor_comm l m ∙ sym join))

-- The source adds the entries up from the left.
sum_six :
    (x t5 t4 t3 t2 t1 t0 : ℕ)
    → bit_xor x (bit_xor t5 (bit_xor t4 (bit_xor t3 (bit_xor t2 (bit_xor t1 (bit_xor t0 0))))))
      ≡ bit_xor (bit_xor (bit_xor (bit_xor (bit_xor (bit_xor x t5) t4) t3) t2) t1) t0
sum_six x t5 t4 t3 t2 t1 t0 = simp (xor-zero, xor_assoc)

bytewise-lt : (bs : List ℕ) (c : ℕ) → c < 2 ^ 16 → IsBytes bs → bytewise c bs < 2 ^ 16
bytewise-lt [] c h v = h
bytewise-lt (b ∷ bs) c h v = bytewise-lt bs (take_byte c b) (take_byte-lt c b h v.0) v.1

tables_six :
    (x b2 b3 b4 b5 b6 b7 : ℕ)
    → bit_xor x (tables (b2 ∷ b3 ∷ b4 ∷ b5 ∷ b6 ∷ b7 ∷ []))
      ≡ bit_xor
          (bit_xor
            (bit_xor
              (bit_xor (bit_xor (bit_xor x (sbf_table 5 b2)) (sbf_table 4 b3)) (sbf_table 3 b4))
              (sbf_table 2 b5))
            (sbf_table 1 b6))
          (sbf_table 0 b7)
unfolding tables
tables_six x b2 b3 b4 b5 b6 b7 = sum_six _ _ _ _ _ _ _

sbf_loop_round :
    (c b0 b1 b2 b3 b4 b5 b6 b7 : ℕ) (bs : List ℕ)
    → sbf_loop c (b0 ∷ b1 ∷ b2 ∷ b3 ∷ b4 ∷ b5 ∷ b6 ∷ b7 ∷ bs)
      ≡ sbf_loop (sbf_sliced c b0 b1 b2 b3 b4 b5 b6 b7) bs
unfolding sbf_loop
sbf_loop_round c b0 b1 b2 b3 b4 b5 b6 b7 bs = refl

sbf_sliced_sum :
    (c b0 b1 b2 b3 b4 b5 b6 b7 : ℕ)
    → sbf_sliced c b0 b1 b2 b3 b4 b5 b6 b7
      ≡ bit_xor
          (bit_xor (sbf_table 7 (bit_xor b0 (c / 256))) (sbf_table 6 (bit_xor b1 (c % 256))))
          (tables (b2 ∷ b3 ∷ b4 ∷ b5 ∷ b6 ∷ b7 ∷ []))
sbf_sliced_sum c b0 b1 b2 b3 b4 b5 b6 b7 = opened ∙ sym (tables_six _ b2 b3 b4 b5 b6 b7)
  where
    x : ℕ
    x = bit_xor (sbf_table 7 (bit_xor b0 (c / 256))) (sbf_table 6 (bit_xor b1 (c % 256)))

    opened :
        sbf_sliced c b0 b1 b2 b3 b4 b5 b6 b7
        ≡ bit_xor
            (bit_xor
              (bit_xor
                (bit_xor (bit_xor (bit_xor x (sbf_table 5 b2)) (sbf_table 4 b3)) (sbf_table 3 b4))
                (sbf_table 2 b5))
              (sbf_table 1 b6))
            (sbf_table 0 b7)
    opened = unfold sbf_sliced in refl

-- One round of the sliced loop is eight bytes of the plain one.
sliced_round :
    (c b0 b1 b2 b3 b4 b5 b6 b7 : ℕ) (bs : List ℕ)
    → c < 2 ^ 16
    → IsBytes (b0 ∷ b1 ∷ b2 ∷ b3 ∷ b4 ∷ b5 ∷ b6 ∷ b7 ∷ [])
    → sbf_loop c (b0 ∷ b1 ∷ b2 ∷ b3 ∷ b4 ∷ b5 ∷ b6 ∷ b7 ∷ bs)
      ≡ sbf_loop (bytewise c (b0 ∷ b1 ∷ b2 ∷ b3 ∷ b4 ∷ b5 ∷ b6 ∷ b7 ∷ [])) bs
sliced_round c b0 b1 b2 b3 b4 b5 b6 b7 bs h v =
    sbf_loop_round c b0 b1 b2 b3 b4 b5 b6 b7 bs
    ∙ ap (λ t. sbf_loop t bs)
        (sbf_sliced_sum c b0 b1 b2 b3 b4 b5 b6 b7
          ∙ sym (bytewise_two c b0 b1 (b2 ∷ b3 ∷ b4 ∷ b5 ∷ b6 ∷ b7 ∷ []) h v))

-- The sliced loop, on any register and any number of bytes.
sbf_loop-bytewise : (bs : List ℕ) (c : ℕ) → c < 2 ^ 16 → IsBytes bs → sbf_loop c bs ≡ bytewise c bs
sbf_loop-bytewise [] c h v = unfold sbf_loop in refl
sbf_loop-bytewise (b0 ∷ []) c h v = unfold sbf_loop in sbf_tail-bytewise (b0 ∷ []) c h v
sbf_loop-bytewise (b0 ∷ b1 ∷ []) c h v = unfold sbf_loop in sbf_tail-bytewise (b0 ∷ b1 ∷ []) c h v
sbf_loop-bytewise (b0 ∷ b1 ∷ b2 ∷ []) c h v =
    unfold sbf_loop in sbf_tail-bytewise (b0 ∷ b1 ∷ b2 ∷ []) c h v
sbf_loop-bytewise (b0 ∷ b1 ∷ b2 ∷ b3 ∷ []) c h v =
    unfold sbf_loop in sbf_tail-bytewise (b0 ∷ b1 ∷ b2 ∷ b3 ∷ []) c h v
sbf_loop-bytewise (b0 ∷ b1 ∷ b2 ∷ b3 ∷ b4 ∷ []) c h v =
    unfold sbf_loop in sbf_tail-bytewise (b0 ∷ b1 ∷ b2 ∷ b3 ∷ b4 ∷ []) c h v
sbf_loop-bytewise (b0 ∷ b1 ∷ b2 ∷ b3 ∷ b4 ∷ b5 ∷ []) c h v =
    unfold sbf_loop in sbf_tail-bytewise (b0 ∷ b1 ∷ b2 ∷ b3 ∷ b4 ∷ b5 ∷ []) c h v
sbf_loop-bytewise (b0 ∷ b1 ∷ b2 ∷ b3 ∷ b4 ∷ b5 ∷ b6 ∷ []) c h v =
    unfold sbf_loop in sbf_tail-bytewise (b0 ∷ b1 ∷ b2 ∷ b3 ∷ b4 ∷ b5 ∷ b6 ∷ []) c h v
sbf_loop-bytewise (b0 ∷ b1 ∷ b2 ∷ b3 ∷ b4 ∷ b5 ∷ b6 ∷ b7 ∷ bs) c h v =
    sliced_round c b0 b1 b2 b3 b4 b5 b6 b7 bs h eight
    ∙ sbf_loop-bytewise bs (bytewise c (b0 ∷ b1 ∷ b2 ∷ b3 ∷ b4 ∷ b5 ∷ b6 ∷ b7 ∷ []))
        (bytewise-lt (b0 ∷ b1 ∷ b2 ∷ b3 ∷ b4 ∷ b5 ∷ b6 ∷ b7 ∷ []) c h eight) v.1.1.1.1.1.1.1.1
  where
    eight : IsBytes (b0 ∷ b1 ∷ b2 ∷ b3 ∷ b4 ∷ b5 ∷ b6 ∷ b7 ∷ [])
    eight = (
      v.0,
      (
        v.1.0,
        (
          v.1.1.0,
          (v.1.1.1.0, (v.1.1.1.1.0, (v.1.1.1.1.1.0, (v.1.1.1.1.1.1.0, (v.1.1.1.1.1.1.1.0, tt))))),
        ),
      ),
    )

pub sbf_crc-bytewise : (bs : List ℕ) → IsBytes bs → sbf_crc bs ≡ bytewise 0 bs
unfolding sbf_crc
sbf_crc-bytewise bs h = sbf_loop-bytewise bs 0 (omega arith) h
