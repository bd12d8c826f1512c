-- ===== src/Framing/Lines.antt =====
-- The verdict on a text line does not change when more bytes arrive behind it, as long as the
-- text is shorter than the bound of 4096 bytes.
use neo_gnss_observatory.Base.{ℕ, zero, suc, ◌+◌, ◌-◌, ◌≤◌, ◌<◌, ◌≡◌, ◌≢◌, refl, sym, ap, ◌∙◌, List}
use neo_gnss_observatory.Base.{
  [], ◌∷◌, ◌++◌, arith, ltb, if◌then◌else◌, true, false, Bool, length, drop, ◌&&◌,
}
use neo_gnss_observatory.Base.{length-append, slice-append, drop-append, length-drop, ◌==◌}
use neo_gnss_observatory.Frame.{FrameHeader}
use neo_gnss_observatory.Framing.{
  at, Verdict, wait, invalid, found, text_run, field_run, nmea_accepts, nmea_line, text_length,
  comma_position, examine_nmea,
}
use neo_gnss_observatory.Framing.Binary.{at-append}

pub text_run-le : (k : ℕ) (xs : List ℕ) → (text_run k xs ≤ k) × (text_run k xs ≤ length xs)
unfolding text_run
text_run-le zero xs = omega arith
text_run-le (suc k) [] = omega arith
text_run-le (suc k) (x ∷ xs) = ground (arith, text_run-le k xs)

-- A run that ends before its bound and before the bytes do is not made longer.
pub text_run-append :
    (k : ℕ) (xs ys : List ℕ)
    → text_run k xs < k
    → text_run k xs < length xs
    → text_run k (xs ++ ys) ≡ text_run k xs
unfolding text_run
text_run-append zero xs ys h l = refl
text_run-append (suc k) [] ys h l = absurd (omega arith)
text_run-append (suc k) (x ∷ xs) ys h l = ground (arith, text_run-append k xs ys)

pub text_run_mono : (k : ℕ) (xs ys : List ℕ) → text_run k xs ≤ text_run k (xs ++ ys)
unfolding text_run
text_run_mono zero xs ys = omega arith
text_run_mono (suc k) [] ys = omega arith
text_run_mono (suc k) (x ∷ xs) ys = ground (arith, text_run_mono k xs ys)

field_run-append :
    (k : ℕ) (xs ys : List ℕ) → k ≤ length xs → field_run k (xs ++ ys) ≡ field_run k xs
unfolding field_run
field_run-append zero xs ys h = refl
field_run-append (suc k) [] ys h = absurd (omega arith)
field_run-append (suc k) (x ∷ xs) ys h = ground (arith, field_run-append k xs ys)

field_run-le : (k : ℕ) (xs : List ℕ) → field_run k xs ≤ k
unfolding field_run
field_run-le zero xs = omega arith
field_run-le (suc k) [] = omega arith
field_run-le (suc k) (x ∷ xs) = ground (arith, field_run-le k xs)

module _ (p q : List ℕ) (n comma : ℕ) (crlf : Bool) (some_byte : 1 ≤ length p)
    (inside : n ≤ length p) (before : comma ≤ n) where
  nmea_accepts-append : nmea_accepts (p ++ q) n comma crlf ≡ nmea_accepts p n comma crlf
  unfolding nmea_accepts
  nmea_accepts-append = simp (
    slice-append 1 (comma - 1) p q (omega arith),
    slice-append 1 (n - 4) p q (omega arith),
    at-append p q (n - 3) (omega arith),
    at-append p q (n - 2) (omega arith),
    at-append p q (n - 1) (omega arith),
  )

  nmea_line-append : nmea_line (p ++ q) n comma crlf ≡ nmea_line p n comma crlf
  unfolding nmea_line
  nmea_line-append = simp (
    nmea_accepts-append,
    slice-append 1 (comma - 1) p q (omega arith),
    at-append p q 0 (omega arith),
  )

length-drop_one : (p : List ℕ) → 1 ≤ length p → length (drop 1 p) + 1 ≡ length p
length-drop_one p h = omega (arith, length-drop 1 p)

text_length-append :
    (p q : List ℕ)
    → 1 ≤ length p
    → text_length p < 4096
    → text_length p < length p
    → text_length (p ++ q) ≡ text_length p
text_length-append p q h l inside =
    let e = text_run-append 4095 (drop 1 p) q (omega arith) (omega (arith, length-drop_one p h)) in
    rw (drop-append 1 p q h) (ap (λ t. 1 + t) e)

comma_position-append :
    (n : ℕ) (p q : List ℕ)
    → 1 ≤ length p
    → n ≤ length p
    → comma_position n (p ++ q) ≡ comma_position n p
comma_position-append n p q h inside =
    rw (drop-append 1 p q h)
      (ap (λ t. 1 + t) (field_run-append (n - 1) (drop 1 p) q (omega (arith, length-drop_one p h))))

comma_position-le : (n : ℕ) (p : List ℕ) → 1 ≤ n → comma_position n p ≤ n
comma_position-le n p h = omega (arith, field_run-le (n - 1) (drop 1 p))

text_length-le : (p : List ℕ) → 1 ≤ length p → text_length p ≤ length p
text_length-le p h = omega (arith, text_run-le 4095 (drop 1 p), length-drop_one p h)

-- The tests at the end of the text.
line_end : ℕ → List ℕ → Verdict
line_end n p =
    if (n == length p) && ltb n 4096
    then wait
    else if ltb n 4096 && at p n == b'\r' && (n + 1 == length p)
    then wait
    else nmea_line p n (comma_position n p)
        (ltb (n + 1) (length p) && at p n == b'\r' && at p (n + 1) == b'\n')

examine_nmea-line_end : (p : List ℕ) → examine_nmea p ≡ line_end (text_length p) p
unfolding examine_nmea line_end
examine_nmea-line_end p = refl

line_end-append :
    (n : ℕ) (p q : List ℕ)
    → 1 ≤ n
    → n < 4096
    → n ≤ length p
    → line_end n p ≢ wait
    → (n < length p) × (line_end n (p ++ q) ≡ line_end n p)
unfolding line_end
line_end-append n p q h l inside ne =
    let some_byte : 1 ≤ length p = omega arith in
    let c = comma_position n p in
    let before : c ≤ n = comma_position-le n p h in
    (
      ground arith,
      ground (
        arith,
        length-append p q,
        at-append p q n,
        at-append p q (n + 1),
        comma_position-append n p q some_byte inside,
        nmea_line-append p q n c true some_byte inside before,
        nmea_line-append p q n c false some_byte inside before,
      ),
    )

pub examine_nmea-append :
    (p q : List ℕ)
    → 1 ≤ length p
    → text_length p < 4096
    → examine_nmea p ≢ wait
    → examine_nmea (p ++ q) ≡ examine_nmea p
examine_nmea-append p q h l ne =
    let n = text_length p in
    let (inside, same) =
      line_end-append n p q (omega arith) l (text_length-le p h)
        (λ e. ne (examine_nmea-line_end p ∙ e)) in
    examine_nmea-line_end (p ++ q)
    ∙ ap (λ t. line_end t (p ++ q)) (text_length-append p q h l inside)
    ∙ same
    ∙ sym (examine_nmea-line_end p)

pub examine_nmea-found :
    (p : List ℕ) {h : FrameHeader} {len start count : ℕ}
    → examine_nmea p ≡ found h len start count
    → (1 ≤ len) × (len ≤ length p)
unfolding examine_nmea nmea_line nmea_accepts
examine_nmea-found p e = ground arith

pub examine_nmea-invalid : (p : List ℕ) {n : ℕ} → examine_nmea p ≡ invalid n → n ≡ 1
unfolding examine_nmea nmea_line
examine_nmea-invalid p e = ground arith
