-- ===== src/RawBits/Shape.antt =====
-- What every record that `decode_raw_bits` delivers looks like.
use neo_gnss_observatory.Base.{ℕ, zero, suc, ◌+◌, ◌/◌, ◌≤◌, Bool, ◌≡◌, refl, sym, ap, ◌∙◌}
use mathlib.Core.Path.{subst}
use neo_gnss_observatory.Base.{Option, none, some, arith, IsBytes, length}
use neo_gnss_observatory.RawBits.Bits.{Bits, resize, ◌>>=◌ as then_read}
use neo_gnss_observatory.RawBits.Record
use neo_gnss_observatory.RawBits.Record.{
  System, no_system, gps, gal, bds, qzs, sbas, letter_g, letter_e, letter_c, letter_j, letter_s,
  Family, no_family, Format, lnav_300, cnav_300, inav_228, fnav_238, cnav_page_486, d1d2_300,
  bcnav1_1800, bcnav2_576, b2b_984, cnav2_1800, l6_2000, sbas_l1_250, sbas_l5_250, qzs_l1s_250,
  qzs_l5s_250, no_format, RawBits, Flow, next, leave, out_of_range, logic_error, ◌>>=◌, reading,
  Scope, CheckKind,
}
use neo_gnss_observatory.RawBits.Integrity.{
  pack, pack_loop, check_format, push_crc, push_result, push_receiver,
}
use neo_gnss_observatory.RawBits.Formats.{rinex_identity}
use neo_gnss_observatory.RawBits.{classify_b2b, receiver_checks, rename}
use neo_gnss_observatory.RawBits.Total.{Gives}

-- The number of bits of a body, by its format.
abbrev pub format_bits : Format → ℕ
format_bits no_format = 0
format_bits lnav_300 = 300
format_bits cnav_300 = 300
format_bits inav_228 = 228
format_bits fnav_238 = 238
format_bits cnav_page_486 = 486
format_bits d1d2_300 = 300
format_bits bcnav1_1800 = 1800
format_bits bcnav2_576 = 576
format_bits b2b_984 = 984
format_bits cnav2_1800 = 1800
format_bits l6_2000 = 2000
format_bits sbas_l1_250 = 250
format_bits sbas_l5_250 = 250
format_bits qzs_l1s_250 = 250
format_bits qzs_l5s_250 = 250

-- A satellite of a record under construction, before the RINEX letter is given.
abbrev pub IsSource : System → ℕ → Type 0
IsSource gps n = 1 ≤ n
IsSource gal n = 1 ≤ n
IsSource bds n = 1 ≤ n
IsSource qzs n = (193 ≤ n) × (n ≤ 202)
IsSource sbas n = (120 ≤ n) × (n ≤ 158)
IsSource _ n = ⊥

-- A RINEX satellite: QZSS from J01 to J10, SBAS from S20 to S58, no satellite number 0.
abbrev pub IsRinex : System → ℕ → Type 0
IsRinex letter_g n = 1 ≤ n
IsRinex letter_e n = 1 ≤ n
IsRinex letter_c n = 1 ≤ n
IsRinex letter_j n = (1 ≤ n) × (n ≤ 10)
IsRinex letter_s n = (20 ≤ n) × (n ≤ 58)
IsRinex _ n = ⊥

pub record HasBody (r : RawBits) : Type 0 where
  pub whole : r.bit_length ≡ format_bits r.format
  pub filled : length r.body ≡ (r.bit_length + 7) / 8
  pub in_bytes : IsBytes r.body

-- The parts that the later steps leave alone.
pub record SameBody (r r' : RawBits) : Type 0 where
  pub same_bits : r'.bit_length ≡ r.bit_length
  pub same_format : r'.format ≡ r.format
  pub same_body : r'.body ≡ r.body
  pub same_system : r'.system ≡ r.system
  pub same_satellite : r'.satellite ≡ r.satellite

SameBody-refl : (r : RawBits) → SameBody r r
SameBody-refl r = record {
  same_bits = refl;
  same_format = refl;
  same_body = refl;
  same_system = refl;
  same_satellite = refl;
}

abbrev pub OfSome : {A : Type 0} → (A → Type 0) → Option A → Type 0
OfSome P none = Unit
OfSome P (some a) = P a

pack_loop-IsBytes :
    (n : ℕ) (b : Bits) (i : ℕ) → OfSome (λ xs. (length xs ≡ n) × IsBytes xs) (pack_loop n b i)
unfolding pack_loop
pack_loop-IsBytes zero b i = (refl, tt)
pack_loop-IsBytes (suc n) b i = ground (arith, pack_loop-IsBytes n b (i + 8))

pack-IsBytes :
    (r : RawBits) (b : Bits)
    → OfSome
        (λ r'.
          (r'.bit_length ≡ b.size)
          × (length r'.body ≡ (b.size + 7) / 8)
          × IsBytes r'.body
          × (r'.format ≡ r.format)
          × (r'.system ≡ r.system)
          × (r'.satellite ≡ r.satellite))
        (pack r b)
unfolding pack
pack-IsBytes r b = ground (arith, pack_loop-IsBytes ((b.size + 7) / 8) b 0)

push_crc-SameBody :
    (r : RawBits) (b : Bits) (begin end : ℕ) (s : Scope)
    → OfSome (SameBody r) (push_crc r b begin end s)
unfolding push_crc push_result
push_crc-SameBody r b begin end s = ground arith

two_crcs-SameBody :
    (r : RawBits) (b : Bits) (i j k l : ℕ)
    → OfSome
        (SameBody r)
        (then_read (push_crc r b i j Record.sf2) (λ r'. push_crc r' b k l Record.sf3))
unfolding push_crc push_result
two_crcs-SameBody r b i j k l = ground arith

pub check_format-SameBody :
    (f : Format) (r : RawBits) (b : Bits) → OfSome (SameBody r) (check_format f r b)
unfolding check_format push_result
check_format-SameBody bcnav1_1800 r b = two_crcs-SameBody r b 72 672 1272 1536
check_format-SameBody cnav2_1800 r b = two_crcs-SameBody r b 52 652 1252 1526
check_format-SameBody l6_2000 r b = SameBody-refl r
check_format-SameBody qzs_l5s_250 r b = SameBody-refl r
check_format-SameBody bcnav2_576 r b = push_crc-SameBody r b 0 288 Record.message
check_format-SameBody b2b_984 r b = push_crc-SameBody r b 12 498 Record.message
check_format-SameBody inav_228 r b = push_crc-SameBody r b 0 220 Record.page
check_format-SameBody lnav_300 r b = ground arith
check_format-SameBody d1d2_300 r b = ground arith
check_format-SameBody _ r b = push_crc-SameBody r b 0 b.size r.unit

pub classify_b2b-SameBody :
    (is_sbf : Bool) (crc1 : ℕ) (b : Bits) (r : RawBits)
    → Gives (SameBody r) (classify_b2b is_sbf crc1 b r)
unfolding classify_b2b
classify_b2b-SameBody is_sbf crc1 b r = ground arith

pub receiver_checks-SameBody :
    (is_sbf : Bool) (len crc1 crc2 : ℕ) (r : RawBits)
    → SameBody r (receiver_checks is_sbf len crc1 crc2 r)
unfolding receiver_checks push_receiver
receiver_checks-SameBody is_sbf len crc1 crc2 r = ground arith

rinex_identity-IsRinex :
    (s : System) (n : ℕ) → IsSource s n → IsRinex (rinex_identity s n).0 (rinex_identity s n).1
unfolding rinex_identity
rinex_identity-IsRinex s n h = ground arith

pub record IsWellFormed (r : RawBits) : Type 0 where
  pub shape : HasBody r
  pub identity : IsRinex r.system r.satellite

pub rename-IsWellFormed :
    (r : RawBits) → HasBody r → IsSource r.system r.satellite → IsWellFormed (rename r)
unfolding rename
rename-IsWellFormed r h s = record {
  shape = record { whole = h.whole; filled = h.filled; in_bytes = h.in_bytes };
  identity = rinex_identity-IsRinex r.system r.satellite s;
}

HasBody-SameBody : (r r' : RawBits) → HasBody r → SameBody r r' → HasBody r'
HasBody-SameBody r r' h s = record {
  whole = s.same_bits ∙ h.whole ∙ ap format_bits (sym s.same_format);
  filled = ap length s.same_body ∙ h.filled ∙ ap (λ n. (n + 7) / 8) (sym s.same_bits);
  in_bytes = subst IsBytes (sym s.same_body) h.in_bytes;
}

-- A record with its body, and with the satellite that the receiver's numbers gave.
abbrev pub IsPacked : RawBits → Type 0
IsPacked r = HasBody r × IsSource r.system r.satellite

pub IsPacked-SameBody : (r r' : RawBits) → IsPacked r → SameBody r r' → IsPacked r'
IsPacked-SameBody r r' h s = (HasBody-SameBody r r' h.0 s, rw (s.same_system, s.same_satellite) h.1)

pub OfSome-eq : {A : Type 0} (P : A → Type 0) (o : Option A) {a : A} → OfSome P o → o ≡ some a → P a
OfSome-eq P o h e = subst (OfSome P) e h

pub resize-size : (b : Bits) (n : ℕ) → OfSome (λ c. c.size ≡ n) (resize b n)
unfolding resize
resize-size b n = ground arith

pub pack-IsPacked :
    (r p : RawBits) (b : Bits)
    → IsSource r.system r.satellite
    → b.size ≡ format_bits r.format
    → pack r b ≡ some p
    → IsPacked p
pack-IsPacked r p b s e eq =
    let h = OfSome-eq _ (pack r b) (pack-IsBytes r b) eq in
    (
      record {
        whole = h.0 ∙ e ∙ ap format_bits (sym h.3);
        filled = h.1 ∙ ap (λ n. (n + 7) / 8) (sym h.0);
        in_bytes = h.2;
      },
      rw (h.4, h.5) s,
    )
