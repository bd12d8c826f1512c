-- ===== src/PppB2b/Layout.antt =====
-- What decode_pppb2b of libneognss-obs/src/broadcast_pppb2b.cpp publishes and counts.
use neo_gnss_observatory.Base.{
  ℕ, ◌+◌, ◌-◌, ◌*◌, ◌^◌, Bool, true, false, ◌&&◌, ◌||◌, not, List, [], ◌∷◌, Option, none, some, ltb,
  ◌==◌,
}
use neo_gnss_observatory.Base.Int.{ℤ}
use neo_gnss_observatory.Wire.Cursor.{BroadcastBits, field, bits_loop}
use neo_gnss_observatory.Base.{length, map}
use neo_gnss_observatory.Wire.Cursor.{broadcast_bits}
use neo_gnss_observatory.RawBits.Record.{bds_ppp_b2b_code_assigned}
use neo_gnss_observatory.PppB2b.{Row, status, DecodedMessage, Counts, plus}
use neo_gnss_observatory.Base.{◌≤◌, ◌<◌, ◌≡◌, ◌⊎◌, inl, inr, refl, arith, All, Bool-cases}
use neo_gnss_observatory.PppB2b.Dispatch.{
  corrections, emitted, published, dispatched, with_bits, decode_pppb2b,
}
use neo_gnss_observatory.PppB2b.Ranges.{IsValidRow, AllRows}
use neo_gnss_observatory.PppB2b.Rows.{corrections-Valid, clock_limit}
use neo_gnss_observatory.PppB2b.Dispatch.{Tried}

-- A message is in range, and a candidate only if the service is available.
abbrev pub IsSound : DecodedMessage → Type 0
IsSound m =
    IsValidRow (clock_limit m.message_type) m.row
    × (m.candidate ≡ true → m.service_available ≡ true)

-- The status message comes first, and alone if the layout was counted as invalid.
abbrev pub StartsWithStatus : List DecodedMessage → Type 0
StartsWithStatus [] = Unit
StartsWithStatus (m ∷ rest) = m.row ≡ status

-- What the decoder returns for given counters.
abbrev pub IsPublished : Counts → List DecodedMessage × Counts → Type 0
IsPublished counts r =
    All IsSound r.0
    × StartsWithStatus r.0
    × (r.1.decoded_messages ≡ plus counts.decoded_messages (length r.0))
    × ((r.1.invalid_layout ≡ counts.invalid_layout) ⊎ (length r.0 ≡ 1))

candidate_available : (c a : Bool) → c && a ≡ true → a ≡ true
candidate_available c a h = ground arith

emitted-All :
    (type : ℕ) (available : Bool) (rows : List (Row × Bool))
    → AllRows (clock_limit type) rows
    → All IsSound (map (emitted type available) rows)
emitted-All type available [] h = tt
emitted-All type available (r ∷ rest) h =
    ((h.0, candidate_available r.1 available), emitted-All type available rest h.1)

published-IsPublished :
    (type : ℕ) (available : Bool) (counts : Counts) (o : Tried)
    → AllRows (clock_limit type) o.0
    → IsPublished counts (published type available counts o)
published-IsPublished type available counts (rows, true) h =
    (((tt, candidate_available false available), tt), refl, refl, inr refl)
published-IsPublished type available counts (rows, false) h = (
  ((tt, candidate_available false available), emitted-All type available rows h),
  refl,
  refl,
  inl refl,
)

dispatched-IsPublished :
    (b : BroadcastBits) (time : Option ℤ) (counts : Counts) (type : ℕ) (available : Bool)
    → IsPublished counts (dispatched b time counts type available)
unfolding dispatched
dispatched-IsPublished b time counts type available = elim (Bool-cases (type == 63)) [
  | inl e ↦ rw e (((tt, candidate_available false available), tt), refl, refl, inl refl)
  | inr e ↦ rw e (elim (Bool-cases (ltb type 1 || ltb 7 type)) [
    | inl f ↦ rw f (((tt, candidate_available false available), tt), refl, refl, inl refl)
    | inr f ↦ rw f (
        published-IsPublished type available counts (corrections b time type 18)
          (corrections-Valid b time type 18))
  ])
]

-- A field inside the body is read.
field_inside :
    (b : BroadcastBits) (p n : ℕ) → n ≤ 63 → p + n ≤ b.size → (v : ℕ) × (field b p n ≡ some v)
unfolding field
field_inside b p n h k =
    let c : ltb 63 n || ltb b.size p || ltb (b.size - p) n ≡ false = ground arith in
    (bits_loop b.data' 0 p n, rw c refl)

abbrev HasPublished : Counts → Option (List DecodedMessage × Counts) → Type 0
HasPublished counts none = ⊥
HasPublished counts (some r) = IsPublished counts r

with_bits-HasPublished :
    (b : BroadcastBits) (satellite : ℕ) (time : Option ℤ) (counts : Counts)
    → b.size ≡ 474
    → counts.decoded_messages < 2 ^ 64
    → HasPublished counts (with_bits satellite time counts (some b))
with_bits-HasPublished b satellite time counts h k =
    let prn = field_inside b 0 6 (omega arith) (omega (arith, h)) in
    let available = field_inside b 6 1 (omega arith) (omega (arith, h)) in
    let type = field_inside b 12 6 (omega arith) (omega (arith, h)) in
    elim (Bool-cases (not (bds_ppp_b2b_code_assigned satellite))) [
      | inl e ↦ rw e (tt, tt, omega (arith, k), inl refl)
      | inr e ↦
          rw (e, prn.1)
            (elim (Bool-cases (not (prn.0 == satellite))) [
              | inl f ↦ rw f (tt, tt, omega (arith, k), inl refl)
              | inr f ↦
                  rw (f, available.1, type.1)
                    (dispatched-IsPublished b time counts type.0 (available.0 == 0))
            ])
    ]

-- Where a body of at least 474 bits is given, decode_pppb2b returns. What it returns is nothing or
-- begins with the status message; every slot is from 1 to 137, every mask ordinal of a clock from 1
-- to 276 in a message of type 4 and to 255 in one of another type, that of an accuracy at most 280
-- and that of a mask at most 255; a message is a candidate only if the service is available;
-- decoded_messages grows by the number of the messages; and if the layout is counted as invalid,
-- no more than one message is published, whatever had been emitted before the exception.
pub decode_pppb2b-IsPublished :
    (body : List ℕ) (satellite : ℕ) (time : Option ℤ) (counts : Counts)
    → 474 ≤ length body * 8
    → counts.decoded_messages < 2 ^ 64
    → (r : List DecodedMessage × Counts) × (decode_pppb2b body satellite time counts ≡ some r)
      × IsPublished counts r
unfolding decode_pppb2b broadcast_bits
decode_pppb2b-IsPublished body satellite time counts h k =
    let c : ltb (length body * 8) 474 ≡ false = ground arith in
    let b : BroadcastBits = record { data' = body; size = 474 } in
    found (with_bits satellite time counts (some b))
      (with_bits-HasPublished b satellite time counts refl k) (rw c refl)
  where
    found :
        (o : Option (List DecodedMessage × Counts))
        → HasPublished counts o
        → decode_pppb2b body satellite time counts ≡ o
        → (r : List DecodedMessage × Counts) × (decode_pppb2b body satellite time counts ≡ some r)
          × IsPublished counts r
    found none g e = absurd g
    found (some r) g e = (r, e, g)
