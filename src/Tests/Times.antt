-- ===== src/Tests/Times.antt =====
-- Cursors, text, times of week and the receiver's clock on concrete values.
use neo_gnss_observatory.Base.{
  ℕ, ◌+◌, ◌*◌, ◌%◌, ◌/◌, ◌≤◌, ◌<◌, ◌≡◌, refl, ◌⊎◌, true, false, List, [], ◌∷◌, none, some, arith,
  IsBytes, All,
}
use neo_gnss_observatory.Base.Int.{ℤ, pos, ◌-ℤ◌}
use neo_gnss_observatory.ReceiverTime.{
  ReceiverTime, start, anchor, is_below, report_uptime, advance, set_navigation,
}
use neo_gnss_observatory.ReceiverTime.Order.{
  Call, advancing, setting, reporting, run, IsOrdered, run-IsOrdered, run-anchor,
}
use neo_gnss_observatory.BroadcastTime.{
  nearest_week, nearest_week-near, week, half_week, rounded, rounded-near,
}
use neo_gnss_observatory.Wire.Cursor.{BitCursor, BroadcastBits, got, failed, u, s, signed_field}
use neo_gnss_observatory.Wire.Number.{number, u-number, s-signed_field}
use neo_gnss_observatory.Wire.Fields.{text_cursor, remaining}
use neo_gnss_observatory.Wire.Remaining.{take_fields, join, take_fields-remaining}
use neo_gnss_observatory.Wire.Text.{quoted, IsPrintable, quoted-IsPrintable}

-- A cadence of one second.
abbrev clock : ReceiverTime
clock = start (pos 1000000000000)

abbrev calls : List Call
calls =
    advancing (pos 5)
    ∷ reporting (pos 3) none false
    ∷ setting (some (pos 7))
    ∷ reporting (pos 2) none false
    ∷ []

run-IsOrdered_example : IsOrdered (run clock calls)
unfolding start
run-IsOrdered_example = run-IsOrdered calls clock (tt, tt, tt, tt)

-- A receiver on which the calls have been made, so that its last uptime is two periods.
abbrev used : ReceiverTime
used = run clock (setting (some (pos 7)) ∷ advancing (pos 5) ∷ reporting (pos 9) none false ∷ [])

used-below : is_below (pos 3) used.uptime ≡ true
unfolding start run report_uptime advance set_navigation
used-below = refl

run-anchor_example :
    anchor (
      run
        (report_uptime used (pos 3) none false).0
        (advancing (pos 2) ∷ reporting (pos 4) none true ∷ []))
    ≡ none
run-anchor_example =
    run-anchor used (pos 3) none false (advancing (pos 2) ∷ reporting (pos 4) none true ∷ [])
      used-below (tt, (tt, tt))

-- Three bytes, read from the fourth bit on.
abbrev three_bytes : BitCursor
three_bytes = record { bytes = 0xd3 ∷ 0x7f ∷ 0x01 ∷ []; bit = 4 }

u-number_example :
    (10 ≤ 64
      → 4 + 10 ≤ 3 * 8
      → u three_bytes 10 ≡ got (number three_bytes.bytes 4 10, record three_bytes { bit = 4 + 10 }))
    × ((64 < 10) ⊎ (3 * 8 < 4 + 10) → u three_bytes 10 ≡ failed (4 / 8))
u-number_example = u-number three_bytes 10 (omega arith) (omega arith)

abbrev same_bytes : BroadcastBits
same_bytes = record { data' = 0xd3 ∷ 0x7f ∷ 0x01 ∷ []; size = 20 }

s-signed_field_example :
    (z : ℤ) × (s three_bytes 10 ≡ got (z, record three_bytes { bit = 4 + 10 }))
    × (signed_field same_bytes 4 10 ≡ some z)
s-signed_field_example =
    s-signed_field three_bytes same_bytes 10 (omega arith) refl (omega arith) (omega arith)
      (omega arith) (omega arith)

-- The text a,,b.
abbrev fields_text : List ℕ
fields_text = 97 ∷ 44 ∷ 44 ∷ 98 ∷ []

take_fields-remaining_example :
    let r = take_fields (remaining (text_cursor fields_text)) (text_cursor fields_text) in
    (join r.0 ≡ fields_text) × (r.1.ended ≡ true)
take_fields-remaining_example = take_fields-remaining fields_text

fields_text-IsBytes : IsBytes fields_text
fields_text-IsBytes = ground arith

quoted-IsPrintable_example : All IsPrintable (quoted fields_text)
quoted-IsPrintable_example = quoted-IsPrintable fields_text fields_text-IsBytes

-- The first second of a week, seen from the end of the week before.
nearest_week-near_example :
    (t : ℕ) × (nearest_week (some (pos 604799000000000000)) (pos 1000000000000)
      ≡ some (pos t -ℤ pos week))
    × (t ≤ 604799000000000000 + week + half_week)
    × (604799000000000000 + week ≤ t + half_week)
    × (t % week ≡ 1000000000000)
nearest_week-near_example = nearest_week-near 604799000000000000 1000000000000 (omega arith)

rounded-near_example :
    (rounded 7 2 * 2 * 2 ≤ 7 * 2 + 2)
    × (7 * 2 ≤ rounded 7 2 * 2 * 2 + 2)
    × ((rounded 7 2 * 2 * 2 ≡ 7 * 2 + 2) ⊎ (7 * 2 ≡ rounded 7 2 * 2 * 2 + 2) → rounded 7 2 % 2 ≡ 0)
rounded-near_example = rounded-near 7 2 (omega arith)
