-- ===== src/Tests/Corrections.antt =====
-- A message with orbits, a time of reception and elements of the field of HAS, at which the
-- theorems on decode_pppb2b and on that field apply.
use neo_gnss_observatory.Base.{ℕ, ◌+◌, ◌*◌, ◌≡◌, List, [], ◌∷◌, some, arith}
use neo_gnss_observatory.Base.Int.{pos, ◌+ℤ◌, ◌≤ℤ◌}
use neo_gnss_observatory.Has.{mul, power, mul_loop}
use neo_gnss_observatory.Has.Inverse.{mul-power, mul_loop_enough}
use neo_gnss_observatory.PppB2b.{seconds, nearest_epoch, DecodedMessage, Counts}
use neo_gnss_observatory.PppB2b.Dispatch.{decode_pppb2b}
use neo_gnss_observatory.PppB2b.Layout.{IsPublished, decode_pppb2b-IsPublished}
use neo_gnss_observatory.PppB2b.Epoch.{nearest_epoch-near}

-- Six orbits for the slots 1 to 6, at an hour of the day.
abbrev orbit_body : List ℕ
orbit_body =
    240 ∷ 0 ∷ 129 ∷ 194 ∷ 0 ∷ 128 ∷ 64 ∷ 82 ∷ 0 ∷ 0 ∷ 0 ∷ 0 ∷ 0 ∷ 0 ∷ 4 ∷ 2 ∷ 144 ∷ 0 ∷ 0 ∷ 0 ∷ 0
    ∷ 0 ∷ 0 ∷ 48 ∷ 20 ∷ 128 ∷ 0 ∷ 0 ∷ 0 ∷ 0 ∷ 0 ∷ 2 ∷ 0 ∷ 164 ∷ 0 ∷ 0 ∷ 0 ∷ 0 ∷ 0 ∷ 0 ∷ 20 ∷ 5 ∷ 32
    ∷ 0 ∷ 0 ∷ 0 ∷ 0 ∷ 0 ∷ 0 ∷ 192 ∷ 41 ∷ 0 ∷ 0 ∷ 0 ∷ 0 ∷ 0 ∷ 0 ∷ 0 ∷ 0 ∷ 0 ∷ []

abbrev no_counts : Counts
no_counts = record {
  unassigned_code = 0;
  prn_mismatch = 0;
  null_messages = 0;
  reserved_messages = 0;
  invalid_layout = 0;
  decoded_messages = 7;
}

-- An hour after midnight of a day.
abbrev reception : ℕ
reception = 86403600000000000000

decode_pppb2b-IsPublished_example :
    (r : List DecodedMessage × Counts) × (decode_pppb2b orbit_body 60
        (some (pos reception))
        no_counts
      ≡ some r)
    × IsPublished no_counts r
decode_pppb2b-IsPublished_example =
    decode_pppb2b-IsPublished orbit_body 60 (some (pos reception)) no_counts (omega arith)
      (omega arith)

nearest_epoch-near_example :
    (nearest_epoch (pos reception) 3600 ≤ℤ pos reception +ℤ seconds 43200)
    × (pos reception ≤ℤ nearest_epoch (pos reception) 3600 +ℤ seconds 43200)
    × (m : ℕ) × (nearest_epoch (pos reception) 3600 +ℤ seconds 86400
        ≡ pos (m * 86400000000000000 + (3600 + 14) * 1000000000000))
nearest_epoch-near_example = nearest_epoch-near reception 3600 (omega arith) (omega arith)

mul-power_example : mul 83 (power 83 254) ≡ 1
mul-power_example = mul-power 83 (omega arith) (omega arith)

mul_loop_enough_example : mul_loop (8 + 2) 83 202 0 ≡ mul_loop 8 83 202 0
mul_loop_enough_example = mul_loop_enough 8 2 83 202 0 (omega arith)
