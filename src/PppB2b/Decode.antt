-- ===== src/PppB2b/Decode.antt =====
-- The messages of decode_pppb2b in libneognss-obs/src/broadcast_pppb2b.cpp by type.
use neo_gnss_observatory.Base.{
  ℕ, zero, suc, ◌+◌, ◌-◌, ◌*◌, Bool, true, ◌&&◌, ◌||◌, not, List, [], ◌∷◌, Option, none, some, ltb,
  leb, ◌==◌, if◌then◌else◌,
}
use neo_gnss_observatory.Base.Int.{ℤ, ◌==ℤ◌}
use neo_gnss_observatory.Wire.Cursor.{BroadcastBits}
use neo_gnss_observatory.Sbas.Content.{Product, times}
use neo_gnss_observatory.Base.{◌++◌}
use neo_gnss_observatory.Base.Int.{negsuc}
use neo_gnss_observatory.PppB2b.{
  Reader, ◌>>=◌, ◌>>◌, pure, throw_if, u, s, Header, header, Orbit, Clock, Bias, Ura, Row, mask,
  orbit, code_bias, clock_mask, clock_direct, ura,
}

-- A loop over `n` numbers from `i` on, with the entries that its turns keep.
unfoldable pub loop : {A : Type 0} → ℕ → ℕ → (ℕ → Reader (Option A)) → Reader (List A)
unfolding ◌>>=◌
loop i zero turn = pure []
loop i (suc n) turn = turn i >>= λ o.
    loop (suc i) n turn >>= λ rest. pure (elim o [ none ↦ rest | some a ↦ a ∷ rest ])

-- A scaled value, or none for the one that says it is not available.
abbrev pub unless : ℤ → ℕ → ℤ → Option Product
unless unavailable numerator z = if z ==ℤ unavailable then none else some (times z numerator 10000)

abbrev pub is_slot : ℕ → Bool
is_slot n = leb 1 n && leb n 137

abbrev pub keep_if : {A : Type 0} → Bool → A → Option A
keep_if c a = if c then some a else none

unfoldable pub orbit_entry : BroadcastBits → ℕ → Reader (Option Orbit)
unfolding u s ◌>>=◌
orbit_entry b i = do
  n ← u b 9
  nav ← u b 10
  corr ← u b 3
  a ← s b 15
  c ← s b 13
  d ← s b 13
  index ← u b 6
  pure (
      keep_if (is_slot n) (record {
        slot = n;
        iodn = nav;
        iod_corr = corr;
        radial_m = unless (negsuc 16383) 16 a;
        along_m = unless (negsuc 4095) 64 c;
        cross_m = unless (negsuc 4095) 64 d;
        urai = index;
      }))

unfoldable pub orbits : BroadcastBits → ℕ → Header → Reader (List (Row × Bool))
unfolding loop orbit_entry ◌>>=◌
orbits b n h = loop 0 n (orbit_entry b) >>= λ entries. pure ((orbit h entries, true) ∷ [])

abbrev pub clock_value : ℤ → Option Product
clock_value z = unless (negsuc 16383) 16 z

-- A turn of `clocks` with `direct`, and one without.
unfoldable pub direct_entry : BroadcastBits → ℕ → Reader (Option Clock)
unfolding u s ◌>>=◌
direct_entry b i = do
  n ← u b 9
  corr ← u b 3
  value ← s b 15
  pure (
      keep_if (is_slot n)
        (record { slot = some n; mask_ordinal = none; iod_corr = corr; c0_m = clock_value value }))

unfoldable pub ordinal_entry : BroadcastBits → ℕ → ℕ → Reader (Option Clock)
unfolding u s ◌>>=◌
ordinal_entry b start i = do
  corr ← u b 3
  value ← s b 15
  pure (
      some (record {
        slot = none;
        mask_ordinal = some (start + i);
        iod_corr = corr;
        c0_m = clock_value value;
      }))

-- The kinds of message from here on, each a list of the rows it emits with their candidate flags.
unfoldable pub mask_bit : BroadcastBits → ℕ → Reader (Option ℕ)
unfolding u ◌>>=◌
mask_bit b i = do v ← u b 1; pure (keep_if (not (v == 0)) i)

unfoldable pub mask_message : BroadcastBits → Option ℤ → Reader (List (Row × Bool))
unfolding header u loop mask_bit ◌>>=◌
mask_message b time = do
  h ← header b time 0
  p ← u b 4
  slots ← loop 1 255 (mask_bit b)
  pure ((mask h p slots, true) ∷ [])

unfoldable pub bias_entry : BroadcastBits → ℕ → ℕ → Reader (Option Bias)
unfolding u s ◌>>=◌
bias_entry b n j = do
  signal ← u b 4
  value ← s b 12
  pure (
      keep_if (is_slot n)
        (record { slot = n; signal_index = signal; bias_m = times value 17 1000 }))

unfoldable pub satellite_biases : BroadcastBits → ℕ → Reader (Option (List Bias))
unfolding u loop bias_entry ◌>>=◌
satellite_biases b i = do n ← u b 9; m ← u b 4; found ← loop 0 m (bias_entry b n); pure (some found)

abbrev pub concat : {A : Type 0} → List (List A) → List A
concat [] = []
concat (xs ∷ rest) = xs ++ concat rest

unfoldable pub bias_message : BroadcastBits → Option ℤ → Reader (List (Row × Bool))
unfolding header u loop satellite_biases ◌>>=◌
bias_message b time = do
  h ← header b time 86400
  n ← u b 5
  found ← loop 0 n (satellite_biases b)
  pure ((code_bias h (concat found), true) ∷ [])

unfoldable pub clock_message : BroadcastBits → Option ℤ → Reader (List (Row × Bool))
unfolding header u loop ordinal_entry ◌>>=◌
clock_message b time = do
  h ← header b time 12
  p ← u b 4
  sub ← u b 5
  throw_if (ltb 11 sub)
  entries ← loop 0 23 (ordinal_entry b (sub * 23 + 1))
  pure ((clock_mask h p entries, true) ∷ [])

unfoldable pub ura_entry : BroadcastBits → ℕ → ℕ → Reader (Option Ura)
unfolding u ◌>>=◌
ura_entry b sub i = do
  index ← u b 6
  pure (some (record { mask_ordinal = sub * 70 + i + 1; urai = index }))

unfoldable pub ura_message : BroadcastBits → Option ℤ → Reader (List (Row × Bool))
unfolding header u loop ura_entry ◌>>=◌
ura_message b time = do
  h ← header b time 96
  p ← u b 4
  sub ← u b 3
  throw_if (ltb 3 sub)
  entries ← loop 0 70 (ura_entry b sub)
  pure ((ura h p entries, true) ∷ [])

unfoldable pub masked_clocks : BroadcastBits → Option ℤ → ℕ → Reader (List (Row × Bool))
unfolding header u loop ordinal_entry ◌>>=◌
masked_clocks b time nc = do
  h ← header b time 12
  p ← u b 4
  start ← u b 9
  throw_if (ltb start 1 || ltb 255 (start + nc - 1))
  entries ← loop 0 nc (ordinal_entry b start)
  pure ((clock_mask h p entries, true) ∷ [])

unfoldable pub direct_clocks : BroadcastBits → Option ℤ → ℕ → Reader (List (Row × Bool))
unfolding header loop direct_entry ◌>>=◌
direct_clocks b time nc = do
  h ← header b time 12
  entries ← loop 0 nc (direct_entry b)
  pure ((clock_direct h entries, true) ∷ [])

-- Types 6 and 7: the numbers of clocks and of orbits, the clocks, and the orbits.
unfoldable pub group_counts : BroadcastBits → ℕ → Reader (ℕ × ℕ)
unfolding u ◌>>=◌
group_counts b type = do
  nc ← u b 5
  orbit_count ← u b 3
  throw_if (ltb (if type == 6 then 22 else 15) nc || ltb 6 orbit_count)
  pure (nc, orbit_count)

unfoldable pub clock_group : BroadcastBits → Option ℤ → ℕ → ℕ → Reader (List (Row × Bool))
unfolding masked_clocks direct_clocks
clock_group b time type nc =
    if nc == 0
    then pure []
    else if type == 6
    then masked_clocks b time nc
    else direct_clocks b time nc

unfoldable pub orbit_group : BroadcastBits → Option ℤ → ℕ → Reader (List (Row × Bool))
unfolding header orbits ◌>>=◌
orbit_group b time n = if n == 0 then pure [] else header b time 96 >>= orbits b n
