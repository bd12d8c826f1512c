-- ===== src/PppB2b.antt =====
-- decode_pppb2b of libneognss-obs/src/broadcast_pppb2b.cpp: the corrections of a PPP-B2b message.
-- Times are in picoseconds. A double that is an integer times a constant is kept as its factors. A
-- row of a kind is a record with the row's fields.
pub mod Decode
pub mod Dispatch
pub mod Layout
pub mod Ranges
pub mod Rows
pub mod Epoch
use neo_gnss_observatory.Base.{
  ℕ, zero, suc, ◌+◌, ◌-◌, ◌*◌, ◌%◌, ◌^◌, Bool, true, false, ◌&&◌, ◌||◌, not, List, [], ◌∷◌, Option,
  none, some, ltb, leb, ◌==◌, if◌then◌else◌,
}
use neo_gnss_observatory.Base.Int.{ℤ, pos, ◌+ℤ◌, ◌-ℤ◌, ◌*ℤ◌, ltb_ℤ, ◌==ℤ◌, quot}
use neo_gnss_observatory.Wire.Cursor.{BroadcastBits, field, signed_field}
use neo_gnss_observatory.Sbas.Content.{Product, times}

-- What reads from a position on; `none` is std::out_of_range.
abbrev pub Reader : Type 0 → Type 0
Reader A = ℕ → Option (A × ℕ)

infixl 5 ◌>>=◌ ◌>>◌
unfoldable pub ◌>>=◌ : {A B : Type 0} → Reader A → (A → Reader B) → Reader B
(m >>= k) p = elim (m p) [ none ↦ none | some r ↦ k r.0 r.1 ]

abbrev pub ◌>>◌ : {A B : Type 0} → Reader A → Reader B → Reader B
m >> k = m >>= λ _. k

abbrev pub pure : {A : Type 0} → A → Reader A
pure a p = some (a, p)

abbrev pub throw : {A : Type 0} → Reader A
throw p = none

abbrev pub throw_if : Bool → Reader (Unit {0})
throw_if c = if c then throw else pure tt

unfoldable pub u : BroadcastBits → ℕ → Reader ℕ
u b n p = elim (field b p n) [ none ↦ none | some v ↦ some (v, p + n) ]

unfoldable pub s : BroadcastBits → ℕ → Reader ℤ
s b n p = elim (signed_field b p n) [ none ↦ none | some v ↦ some (v, p + n) ]

-- `seconds(n)`.
abbrev pub seconds : ℕ → ℤ
seconds n = pos (n * 1000000000000)

pub record Header : Type 0 where
  pub iod_ssr : ℕ
  pub epoch_bdt_sod_s : ℤ
  pub epoch_gpst : Option ℤ
  pub valid_until_gpst : Option ℤ

-- The time of day nearest to a time.
unfoldable pub nearest_epoch : ℤ → ℕ → ℤ
nearest_epoch time sod =
    let t =
      quot (time -ℤ seconds 14) (86400 * 1000000000000) *ℤ seconds 86400 +ℤ seconds (sod + 14) in
    let t1 = if ltb_ℤ (time +ℤ seconds 43200) t then t -ℤ seconds 86400 else t in
    if ltb_ℤ (t1 +ℤ seconds 43200) time then t1 +ℤ seconds 86400 else t1

unfoldable pub epoch_of : Option ℤ → ℕ → Option ℤ
unfolding nearest_epoch
epoch_of none sod = none
epoch_of (some time) sod = if ltb sod 86400 then some (nearest_epoch time sod) else none

abbrev pub until : ℕ → Option ℤ → Option ℤ
until validity none = none
until validity (some t) = if validity == 0 then none else some (t +ℤ seconds validity)

unfoldable pub header : BroadcastBits → Option ℤ → ℕ → Reader Header
unfolding u epoch_of ◌>>=◌
header b time validity = do
  sod ← u b 17
  reserved ← u b 4
  iod ← u b 2
  pure (record {
    iod_ssr = iod;
    epoch_bdt_sod_s = seconds sod;
    epoch_gpst = epoch_of time sod;
    valid_until_gpst = until validity (epoch_of time sod);
  })

pub record Orbit : Type 0 where
  pub slot : ℕ
  pub iodn : ℕ
  pub iod_corr : ℕ
  pub radial_m : Option Product
  pub along_m : Option Product
  pub cross_m : Option Product
  pub urai : ℕ

pub record Clock : Type 0 where
  pub slot : Option ℕ
  pub mask_ordinal : Option ℕ
  pub iod_corr : ℕ
  pub c0_m : Option Product

pub record Bias : Type 0 where
  pub slot : ℕ
  pub signal_index : ℕ
  pub bias_m : Product

pub record Ura : Type 0 where
  pub mask_ordinal : ℕ
  pub urai : ℕ

-- The kinds with their rows; `iodp` of a clock is there for a mask only.
pub data Row : Type 0 where
  status : Row
  mask : Header → (iodp : ℕ) (slots : List ℕ) → Row
  orbit : Header → List Orbit → Row
  code_bias : Header → List Bias → Row
  clock_mask : Header → (iodp : ℕ) → List Clock → Row
  clock_direct : Header → List Clock → Row
  ura : Header → (iodp : ℕ) → List Ura → Row

-- `message_type` and `service_available` are in every row.
pub record DecodedMessage : Type 0 where
  pub message_type : ℕ
  pub service_available : Bool
  pub row : Row
  pub candidate : Bool

-- The counters of `counts` that the decoder adds to.
pub record Counts : Type 0 where
  pub unassigned_code : ℕ
  pub prn_mismatch : ℕ
  pub null_messages : ℕ
  pub reserved_messages : ℕ
  pub invalid_layout : ℕ
  pub decoded_messages : ℕ

abbrev pub plus : ℕ → ℕ → ℕ
plus n k = (n + k) % 2 ^ 64
