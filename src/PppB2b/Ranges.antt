-- ===== src/PppB2b/Ranges.antt =====
-- The rows that decode_pppb2b of libneognss-obs/src/broadcast_pppb2b.cpp reads.
use neo_gnss_observatory.Base.{
  ℕ, zero, suc, ◌+◌, Bool, true, false, List, ◌∷◌, Option, none, some, if◌then◌else◌,
}
use neo_gnss_observatory.Wire.Cursor.{BroadcastBits}
use neo_gnss_observatory.PppB2b.{
  Reader, ◌>>=◌, throw_if, u, s, Header, Clock, Row, status, mask, orbit, code_bias, clock_mask,
  clock_direct, ura,
}
use neo_gnss_observatory.PppB2b.Decode.{orbits}
use neo_gnss_observatory.Base.{◌≤◌, ◌<◌, ◌≡◌, refl, arith, All}
use neo_gnss_observatory.PppB2b.Decode.{
  loop, is_slot, keep_if, orbit_entry, direct_entry, ordinal_entry,
}

-- `P` holds of what is read, if anything is.
abbrev pub OnPair : {A : Type 0} → (A → Type 0) → Option (A × ℕ) → Type 0
OnPair P none = Unit
OnPair P (some r) = P r.0

abbrev pub OnRead : {A : Type 0} → (A → Type 0) → Reader A → Type 0
OnRead P m = (p : ℕ) → OnPair P (m p)

pub OnRead-through :
    {A B : Type 0} (Q : A → Type 0) (P : B → Type 0) (m : Reader A) (k : A → Reader B)
    → OnRead Q m
    → ((a : A) → Q a → OnRead P (k a))
    → OnRead P (m >>= k)
unfolding ◌>>=◌
OnRead-through {A = A} Q P m k q h p = step (m p) (q p)
  where
    step :
        (o : Option (A × ℕ)) → OnPair Q o → OnPair P (elim o [ none ↦ none | some r ↦ k r.0 r.1 ])
    step none j = tt
    step (some r) j = h r.0 j r.1

pub OnRead->>= :
    {A B : Type 0} (P : B → Type 0) (m : Reader A) (k : A → Reader B)
    → ((a : A) → OnRead P (k a))
    → OnRead P (m >>= k)
unfolding ◌>>=◌
OnRead->>= {A = A} P m k h p = step (m p)
  where
    step : (o : Option (A × ℕ)) → OnPair P (elim o [ none ↦ none | some r ↦ k r.0 r.1 ])
    step none = tt
    step (some r) = h r.0 r.1

pub OnRead-throw_if :
    {B : Type 0} (P : B → Type 0) (c : Bool) (k : Unit {0} → Reader B)
    → (c ≡ false → OnRead P (k tt))
    → OnRead P (throw_if c >>= k)
unfolding ◌>>=◌
OnRead-throw_if P true k h p = tt
OnRead-throw_if P false k h p = h refl p

pub OnRead-if :
    {A : Type 0} (P : A → Type 0) (c : Bool) (m n : Reader A)
    → OnRead P m
    → OnRead P n
    → OnRead P (if c then m else n)
OnRead-if P true m n h k = h
OnRead-if P false m n h k = k

abbrev pub OnKept : {A : Type 0} → (A → Type 0) → Option A → Type 0
OnKept Q none = Unit
OnKept Q (some a) = Q a

pub loop-All :
    {A : Type 0} (Q : A → Type 0) (i n : ℕ) (turn : ℕ → Reader (Option A))
    → ((j : ℕ) → i ≤ j → j < i + n → OnRead (OnKept Q) (turn j))
    → OnRead (All Q) (loop i n turn)
unfolding loop
loop-All Q i zero turn h = λ p. tt
loop-All {A = A} Q i (suc n) turn h =
    OnRead-through (OnKept Q) (All Q) (turn i) _ (h i (omega arith) (omega arith)) (λ o q.
      OnRead-through (All Q) (All Q) (loop (suc i) n turn) _
        (loop-All Q (suc i) n turn (λ j l g. h j (omega (arith, l)) (omega (arith, g))))
        (λ rest r p. kept o rest q r))
  where
    kept :
        (o : Option A) (rest : List A)
        → OnKept Q o
        → All Q rest
        → All Q (elim o [ none ↦ rest | some a ↦ a ∷ rest ])
    kept none rest q r = r
    kept (some a) rest q r = (q, r)

pub keep_if-OnKept :
    {A : Type 0} (Q : A → Type 0) (c : Bool) (a : A) → (c ≡ true → Q a) → OnKept Q (keep_if c a)
keep_if-OnKept Q true a h = h refl
keep_if-OnKept Q false a h = tt

abbrev pub IsSlot : ℕ → Type 0
IsSlot n = (1 ≤ n) × (n ≤ 137)

abbrev pub IsOrdinal : ℕ → ℕ → Type 0
IsOrdinal limit n = (1 ≤ n) × (n ≤ limit)

abbrev pub HasSlot : Clock → Type 0
HasSlot c = (n : ℕ) × (c.slot ≡ some n) × IsSlot n

abbrev pub HasOrdinal : ℕ → Clock → Type 0
HasOrdinal limit c = (n : ℕ) × (c.mask_ordinal ≡ some n) × IsOrdinal limit n

-- The mask ordinals of clocks are at most `limit`.
abbrev pub IsValidRow : ℕ → Row → Type 0
IsValidRow limit status = Unit
IsValidRow limit (mask h p slots) = All (IsOrdinal 255) slots
IsValidRow limit (orbit h entries) = All (λ x. IsSlot x.slot) entries
IsValidRow limit (code_bias h entries) = All (λ x. IsSlot x.slot) entries
IsValidRow limit (clock_mask h p entries) = All (HasOrdinal limit) entries
IsValidRow limit (clock_direct h entries) = All HasSlot entries
IsValidRow limit (ura h p entries) = All (λ x. IsOrdinal 280 x.mask_ordinal) entries

abbrev pub AllRows : ℕ → List (Row × Bool) → Type 0
AllRows limit rows = All (λ r. IsValidRow limit r.0) rows

pub is_slot-IsSlot : (n : ℕ) → is_slot n ≡ true → IsSlot n
is_slot-IsSlot n h = ground arith

module _ (b : BroadcastBits) where
  orbit_entry-Slot : (i : ℕ) → OnRead (OnKept (λ x. IsSlot x.slot)) (orbit_entry b i)
  unfolding orbit_entry
  orbit_entry-Slot i = OnRead->>= _ (u b 9) _ (λ n. OnRead->>= _ (u b 10) _ (λ nav.
      OnRead->>= _ (u b 3) _ (λ corr. OnRead->>= _ (s b 15) _ (λ a. OnRead->>= _ (s b 13) _ (λ c.
        OnRead->>= _ (s b 13) _ (λ d.
          OnRead->>= _ (u b 6) _
            (λ index p. keep_if-OnKept _ (is_slot n) _ (is_slot-IsSlot n))))))))

  pub direct_entry-Slot : (i : ℕ) → OnRead (OnKept HasSlot) (direct_entry b i)
  unfolding direct_entry
  direct_entry-Slot i = OnRead->>= _ (u b 9) _ (λ n. OnRead->>= _ (u b 3) _ (λ corr.
      OnRead->>= _ (s b 15) _
        (λ value p. keep_if-OnKept HasSlot (is_slot n) _ (λ h. (n, refl, is_slot-IsSlot n h)))))

  pub ordinal_entry-Ordinal :
      (limit start i : ℕ)
      → 1 ≤ start + i
      → start + i ≤ limit
      → OnRead (OnKept (HasOrdinal limit)) (ordinal_entry b start i)
  unfolding ordinal_entry
  ordinal_entry-Ordinal limit start i l h =
      OnRead->>= _ (u b 3) _
        (λ corr. OnRead->>= _ (s b 15) _ (λ value p. (start + i, refl, (l, h))))

  pub orbits-Valid : (limit n : ℕ) (h : Header) → OnRead (AllRows limit) (orbits b n h)
  unfolding orbits
  orbits-Valid limit n h =
      OnRead-through (All (λ x. IsSlot x.slot)) (AllRows limit) (loop 0 n (orbit_entry b)) _
        (loop-All (λ x. IsSlot x.slot) 0 n (orbit_entry b) (λ j l g. orbit_entry-Slot j))
        (λ entries k p. (k, tt))
