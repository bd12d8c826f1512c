-- ===== src/RawBits/WellFormed.antt =====
-- The two halves of `decode` read a known satellite and a family that has a format, and what is
-- completed from that is well formed.
use neo_gnss_observatory.Base.{ℕ, Bool, true, false, ◌≡◌, ◌≢◌, refl, ◌∙◌}
use neo_gnss_observatory.Base.{Option, none, some, arith, ◌==◌, ◌||◌, Bool-cases, inl, inr}
use neo_gnss_observatory.Subframe.{NavigationSubframe, SignalKey, prn}
use neo_gnss_observatory.RawBits.Bits.{Bits, resize}
use neo_gnss_observatory.RawBits.Record.{System, Family, RawBits, next, ◌>>=◌, reading}
use neo_gnss_observatory.RawBits.Integrity.{integrity}
use neo_gnss_observatory.RawBits.Sbf.{
  NavigationPage, sbf_identify, sbf_located, sbf_satellite, allows, allowed, signal_number,
}
use neo_gnss_observatory.RawBits.Ubx.{ubx_identify, ubx_located, is_empty_family, ubx_source}
use neo_gnss_observatory.RawBits.Formats.{Layout, family_layout}
use neo_gnss_observatory.RawBits.{
  Gathered, lay_out, laid_out, complete, accept, deliver, pair_pages, classify_b2b, receiver_checks,
  rename,
}
use neo_gnss_observatory.RawBits.Total.{
  Gives, Gives->>=, Gives-reading, Any, known_block, sbf_kind-layout, ubx_source-layout,
}
use neo_gnss_observatory.RawBits.Shape.{
  OfSome, OfSome-eq, IsPacked, IsSource, SameBody, IsWellFormed, format_bits, resize-size,
  pack-IsPacked, IsPacked-SameBody, check_format-SameBody, classify_b2b-SameBody,
  receiver_checks-SameBody, rename-IsWellFormed,
}

module _ (is_sbf : Bool) (len crc1 crc2 : ℕ) where
  finish-IsWellFormed :
      (c : RawBits) → IsPacked c → IsWellFormed (rename (receiver_checks is_sbf len crc1 crc2 c))
  finish-IsWellFormed c h =
      let k = IsPacked-SameBody c _ h (receiver_checks-SameBody is_sbf len crc1 crc2 c) in
      rename-IsWellFormed _ k.0 k.1

  classify-IsWellFormed :
      (b : Bits) (c : RawBits)
      → IsPacked c
      → Gives IsWellFormed (
          classify_b2b is_sbf crc1 b c >>= λ d.
          next (rename (receiver_checks is_sbf len crc1 crc2 d)))
  classify-IsWellFormed b c h =
      Gives->>= (SameBody c) IsWellFormed _ _ (classify_b2b-SameBody is_sbf crc1 b c)
        (λ d s. finish-IsWellFormed d (IsPacked-SameBody c d h s))

  checked-IsWellFormed :
      (b : Bits) (p : RawBits)
      → IsPacked p
      → Gives IsWellFormed (
          reading (integrity p b) >>= λ c. classify_b2b is_sbf crc1 b c >>= λ d.
          next (rename (receiver_checks is_sbf len crc1 crc2 d)))
  unfolding integrity
  checked-IsWellFormed b p h =
      Gives->>= IsPacked IsWellFormed _ _
        (Gives-reading IsPacked _
          (λ c e. IsPacked-SameBody p c h (OfSome-eq _ _ (check_format-SameBody p.format p b) e)))
        (λ c k. classify-IsWellFormed b c k)

  deliver-IsWellFormed :
      (b : Bits) (r : RawBits)
      → IsSource r.system r.satellite
      → len ≡ format_bits r.format
      → Gives IsWellFormed (deliver is_sbf len crc1 crc2 b r)
  unfolding deliver
  deliver-IsWellFormed b r s e =
      Gives->>= (λ cut. cut.size ≡ len) IsWellFormed _ _
        (Gives-reading (λ (cut : Bits). cut.size ≡ len) (resize b len)
          (λ cut eq. OfSome-eq (λ (c : Bits). c.size ≡ len) (resize b len) (resize-size b len) eq))
        (λ cut size.
          Gives->>= IsPacked IsWellFormed _ _
            (Gives-reading IsPacked _ (λ p eq. pack-IsPacked r p cut s (size ∙ e) eq))
            (λ p h. checked-IsWellFormed cut p h))

family_layout-bits :
    (f : Family) (l : Layout) → family_layout f ≡ some l → l.length ≡ format_bits l.format
unfolding family_layout
family_layout-bits f l e = ground arith

-- What the two halves have read into the record before its body is looked at.
abbrev pub IsIdentified : RawBits → Type 0
IsIdentified r = IsSource r.system r.satellite × (family_layout r.family ≢ none)

accept-IsWellFormed :
    (is_sbf : Bool) (g : Gathered) (l : Layout) (b : Bits)
    → IsSource g.rec.system g.rec.satellite
    → l.length ≡ format_bits l.format
    → Gives IsWellFormed (accept is_sbf g l b)
unfolding accept
accept-IsWellFormed is_sbf g l b s e =
    ground (arith, deliver-IsWellFormed is_sbf l.length g.crc1 g.crc2 b (laid_out l g.rec) s e)

pair_pages-Gives :
    (is_sbf : Bool) (l : Layout) (b : Bits) → Gives Any (pair_pages is_sbf l.format b)
unfolding pair_pages resize
pair_pages-Gives is_sbf l b = ground arith

lay_out-Gives :
    (f : Family)
    → family_layout f ≢ none
    → Gives (λ l. l.length ≡ format_bits l.format) (lay_out (family_layout f))
lay_out-Gives f h = laid (family_layout f) refl
  where
    laid :
        (o : Option Layout)
        → family_layout f ≡ o
        → Gives (λ l. l.length ≡ format_bits l.format) (lay_out o)
    laid none e = absurd (h e)
    laid (some l) e = family_layout-bits f l e

pub complete-IsWellFormed :
    (is_sbf : Bool) (g : Gathered) → IsIdentified g.rec → Gives IsWellFormed (complete is_sbf g)
unfolding complete
complete-IsWellFormed is_sbf g (s, layout) =
    Gives->>= (λ (l : Layout). l.length ≡ format_bits l.format) IsWellFormed _ _
      (lay_out-Gives g.rec.family layout)
      (λ l e.
        Gives->>= Any IsWellFormed _ _ (pair_pages-Gives is_sbf l g.view)
          (λ b _. accept-IsWellFormed is_sbf g l b s e))

sbf_satellite-IsSource : (sv : ℕ) → OfSome (λ q. IsSource q.0 q.1) (sbf_satellite sv)
unfolding sbf_satellite
sbf_satellite-IsSource sv = ground arith

sbf_located-IsIdentified :
    (n : ℕ) (page : NavigationPage) (r : RawBits) (o : Option (System × ℕ))
    → known_block n ≡ true
    → OfSome (λ q. IsSource q.0 q.1) o
    → Gives (λ q. IsIdentified q.0) (sbf_located n page r o)
unfolding sbf_located
sbf_located-IsIdentified n page r none k h = tt
sbf_located-IsIdentified n page r (some (sys, sat)) k h = (h, sbf_kind-layout n page.source sat k)

pub sbf_identify-IsIdentified :
    (n : ℕ) (page : NavigationPage) (r : RawBits)
    → known_block n ≡ true
    → Gives (λ q. IsIdentified q.0) (sbf_identify n page r)
unfolding sbf_identify
sbf_identify-IsIdentified n page r k =
    elim (Bool-cases (allows (allowed n) (signal_number n page.source))) [
      | inl allowed_here ↦ rw allowed_here (
          sbf_located-IsIdentified n page _ (sbf_satellite page.satellite) k
            (sbf_satellite-IsSource page.satellite))
      | inr other ↦ rw other tt
    ]

ubx_source-IsSource :
    (s : SignalKey)
    → is_empty_family (ubx_source s.gnss_id s.sig_id).message_kind.family ≡ false
    → OfSome (λ n. IsSource (ubx_source s.gnss_id s.sig_id).system n) (prn s)
unfolding ubx_source prn is_empty_family
ubx_source-IsSource s h = ground arith

ubx_located-IsIdentified :
    (s : NavigationSubframe) (r : RawBits) (o : Option ℕ)
    → prn s.signal ≡ o
    → Gives (λ q. IsIdentified q.0) (ubx_located s r o)
unfolding ubx_located
ubx_located-IsIdentified s r none e = tt
ubx_located-IsIdentified s r (some n) e =
    let family = (ubx_source s.signal.gnss_id s.signal.sig_id).message_kind.family in
    elim (Bool-cases (is_empty_family family)) [
      | inl empty ↦ rw empty tt
      | inr known ↦ rw known (
        OfSome-eq _ (prn s.signal) (ubx_source-IsSource s.signal known) e,
        ubx_source-layout s.signal.gnss_id s.signal.sig_id known,
      )
    ]

pub ubx_identify-IsIdentified :
    (s : NavigationSubframe) (r : RawBits) → Gives (λ q. IsIdentified q.0) (ubx_identify s r)
unfolding ubx_identify
ubx_identify-IsIdentified s r = elim (Bool-cases (s.signal.gnss_id == 6 || s.signal.gnss_id == 7)) [
  | inl out ↦ rw out tt
  | inr tracked ↦ rw tracked (ubx_located-IsIdentified s r (prn s.signal) refl)
]
