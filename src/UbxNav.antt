-- ===== src/UbxNav.antt =====
-- libcppgnss/src/ubx_nav.cpp: the validity of a NAV-PVT message and the name of its fix. The fields
-- that the generated parser fills are bytes.
use neo_gnss_observatory.Base.{
  ℕ, ◌%◌, ◌/◌, Bool, false, ◌&&◌, ◌||◌, List, [], ◌∷◌, ◌++◌, ltb, leb, ◌==◌, not, if◌then◌else◌,
}

-- The fields of `_ubx_nav_pvt` that the file reads.
pub record NavPvt : Type 0 where
  pub valid_bit : ℕ
  pub month : ℕ
  pub day : ℕ
  pub hour : ℕ
  pub minute : ℕ
  pub second : ℕ
  pub flags_bit : ℕ
  pub fix_type : ℕ

unfoldable pub semantically_valid : NavPvt → Bool
semantically_valid p =
    if not (p.valid_bit % 4 == 3)
    then false
    else if ltb p.month 1 || ltb 12 p.month
    then false
    else if ltb p.day 1 || ltb 31 p.day
    then false
    else if ltb 23 p.hour || ltb 59 p.minute
    then false
    else leb p.second 60

unfoldable pub fix_ok : NavPvt → Bool
unfolding semantically_valid
fix_ok p = semantically_valid p && p.flags_bit % 2 == 1 && leb 2 p.fix_type && leb p.fix_type 5

abbrev pub invalid_name : List ℕ
invalid_name = b'I' ∷ b'N' ∷ b'V' ∷ b'A' ∷ b'L' ∷ b'I' ∷ b'D' ∷ []

abbrev pub no_name : List ℕ
no_name = b'N' ∷ b'O' ∷ []

abbrev pub dr_name : List ℕ
dr_name = b'D' ∷ b'R' ∷ []

abbrev pub two_name : List ℕ
two_name = b'2' ∷ b'D' ∷ []

abbrev pub three_name : List ℕ
three_name = b'3' ∷ b'D' ∷ []

abbrev pub gdr_name : List ℕ
gdr_name = b'G' ∷ b'+' ∷ b'D' ∷ b'R' ∷ []

abbrev pub time_name : List ℕ
time_name = b'T' ∷ b'I' ∷ b'M' ∷ b'E' ∷ []

abbrev pub other_name : List ℕ
other_name = b'?' ∷ []

abbrev pub dgnss : List ℕ
dgnss = b'/' ∷ b'D' ∷ b'G' ∷ b'N' ∷ b'S' ∷ b'S' ∷ []

unfoldable pub base_name : ℕ → List ℕ
base_name t =
    if t == 0
    then no_name
    else if t == 1
    then dr_name
    else if t == 2
    then two_name
    else if t == 3
    then three_name
    else if t == 4
    then gdr_name
    else if t == 5
    then time_name
    else other_name

-- ubx_nav_pvt_fix_type.
unfoldable pub fix_name : NavPvt → List ℕ
unfolding base_name semantically_valid
fix_name p =
    let name = base_name p.fix_type in
    if not (semantically_valid p)
    then invalid_name
    else if p.flags_bit / 2 % 2 == 1
    then name ++ dgnss
    else name
