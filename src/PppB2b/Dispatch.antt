-- ===== src/PppB2b/Dispatch.antt =====
-- The dispatch of decode_pppb2b in libneognss-obs/src/broadcast_pppb2b.cpp on the message's type, and
-- what it publishes. A satellite's number is not negative.
use neo_gnss_observatory.Base.{
  ℕ, Bool, false, ◌&&◌, ◌||◌, not, List, [], ◌∷◌, Option, none, some, ltb, ◌==◌, if◌then◌else◌,
}
use neo_gnss_observatory.Base.Int.{ℤ}
use neo_gnss_observatory.Wire.Cursor.{BroadcastBits, field}
use neo_gnss_observatory.Base.{length, map, take, ◌++◌, true}
use neo_gnss_observatory.Wire.Cursor.{broadcast_bits}
use neo_gnss_observatory.RawBits.Record.{bds_ppp_b2b_code_assigned}
use neo_gnss_observatory.PppB2b.{◌>>=◌, header, Row, status, DecodedMessage, Counts, plus}
use neo_gnss_observatory.PppB2b.Decode.{
  orbits, mask_message, bias_message, clock_message, ura_message, group_counts, clock_group,
  orbit_group,
}

-- The rows that the body of `try` has emitted when it ends, and whether it ended by the exception. A
-- message of one row has emitted nothing when it throws.
abbrev pub Tried : Type 0
Tried = List (Row × Bool) × Bool

abbrev pub tried : Option (List (Row × Bool) × ℕ) → Tried
tried none = ([], true)
tried (some r) = (r.0, false)

-- The orbits behind the clocks that have been emitted.
abbrev pub with_orbits : List (Row × Bool) → Option (List (Row × Bool) × ℕ) → Tried
with_orbits clocks none = (clocks, true)
with_orbits clocks (some r) = (clocks ++ r.0, false)

abbrev pub with_clocks : BroadcastBits → Option ℤ → ℕ → Option (List (Row × Bool) × ℕ) → Tried
with_clocks b time n none = ([], true)
with_clocks b time n (some r) = with_orbits r.0 (orbit_group b time n r.1)

abbrev pub with_counts : BroadcastBits → Option ℤ → ℕ → Option ((ℕ × ℕ) × ℕ) → Tried
with_counts b time type none = ([], true)
with_counts b time type (some r) = with_clocks b time r.0.1 (clock_group b time type r.0.0 r.1)

-- The body of `try`.
unfoldable pub corrections : BroadcastBits → Option ℤ → ℕ → ℕ → Tried
unfolding mask_message header orbits bias_message clock_message ura_message group_counts clock_group
    orbit_group ◌>>=◌
corrections b time type p =
    if type == 1
    then tried (mask_message b time p)
    else if type == 2
    then tried ((header b time 96 >>= orbits b 6) p)
    else if type == 3
    then tried (bias_message b time p)
    else if type == 4
    then tried (clock_message b time p)
    else if type == 5
    then tried (ura_message b time p)
    else with_counts b time type (group_counts b type p)

abbrev pub emitted : ℕ → Bool → Row × Bool → DecodedMessage
emitted type available r = record {
  message_type = type;
  service_available = available;
  row = r.0;
  candidate = r.1 && available;
}

abbrev pub status_message : ℕ → Bool → DecodedMessage
status_message type available = emitted type available (status, false)

-- All that is in `out`, the status first, with `out.resize(1)` where the body has thrown.
abbrev pub published : ℕ → Bool → Counts → Tried → List DecodedMessage × Counts
published type available counts (rows, true) =
    let out = take 1 (status_message type available ∷ map (emitted type available) rows) in
    (
      out,
      record counts {
        invalid_layout = plus counts.invalid_layout 1;
        decoded_messages = plus counts.decoded_messages (length out);
      },
    )
published type available counts (rows, false) =
    let out = status_message type available ∷ map (emitted type available) rows in
    (out, record counts { decoded_messages = plus counts.decoded_messages (length out) })

-- From the fields before the corrections on.
unfoldable pub dispatched :
    BroadcastBits → Option ℤ → Counts → (type : ℕ) (available : Bool) → List DecodedMessage × Counts
unfolding corrections
dispatched b time counts type available =
    let only = status_message type available ∷ [] in
    if type == 63
    then (
      only,
      record counts {
        null_messages = plus counts.null_messages 1;
        decoded_messages = plus counts.decoded_messages 1;
      },
    )
    else if ltb type 1 || ltb 7 type
    then (
      only,
      record counts {
        reserved_messages = plus counts.reserved_messages 1;
        decoded_messages = plus counts.decoded_messages 1;
      },
    )
    else published type available counts (corrections b time type 18)

-- What is read after the satellite's number agrees; `none` is an exception.
abbrev pub typed :
    BroadcastBits
    → Option ℤ
    → Counts
    → (reserved type : Option ℕ) → Option (List DecodedMessage × Counts)
typed b time counts (some a) (some type) = some (dispatched b time counts type (a == 0))
typed b time counts _ _ = none

abbrev pub numbered :
    BroadcastBits → ℕ → Option ℤ → Counts → Option ℕ → Option (List DecodedMessage × Counts)
numbered b satellite time counts none = none
numbered b satellite time counts (some prn) =
    if not (prn == satellite)
    then some ([], record counts { prn_mismatch = plus counts.prn_mismatch 1 })
    else typed b time counts (field b 6 1) (field b 12 6)

abbrev pub with_bits :
    ℕ → Option ℤ → Counts → Option BroadcastBits → Option (List DecodedMessage × Counts)
with_bits satellite time counts none = none
with_bits satellite time counts (some b) =
    if not (bds_ppp_b2b_code_assigned satellite)
    then some ([], record counts { unassigned_code = plus counts.unassigned_code 1 })
    else numbered b satellite time counts (field b 0 6)

unfoldable pub decode_pppb2b :
    List ℕ → ℕ → Option ℤ → Counts → Option (List DecodedMessage × Counts)
unfolding broadcast_bits dispatched field
decode_pppb2b body satellite time counts = with_bits satellite time counts (broadcast_bits body 474)
