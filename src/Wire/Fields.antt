-- ===== src/Wire/Fields.antt =====
-- struct TextCursor of libcppgnss/include/cppgnss/wire_typed.hpp, which takes the fields of an NMEA
-- sentence. `rest` holds the bytes from `offset` on; std::from_chars is a parameter.
use neo_gnss_observatory.Base.{
  ℕ, suc, ◌+◌, Bool, true, false, ◌&&◌, ◌||◌, List, [], ◌∷◌, Option, none, some, ltb, leb, ◌==◌,
  not, if◌then◌else◌, length,
}
use neo_gnss_observatory.Base.Int.{ℤ, pos, ltb_ℤ, pos_part}
use neo_gnss_observatory.Wire.Cursor.{Read, got, failed}

pub record TextCursor : Type 0 where
  pub rest : List ℕ
  pub offset : ℕ
  pub ended : Bool
  pub brackets : Bool

abbrev is_empty : List ℕ → Bool
is_empty [] = true
is_empty (c ∷ cs) = false

-- The constructor.
unfoldable pub text_cursor : List ℕ → TextCursor
text_cursor input = record { rest = input; offset = 0; ended = is_empty input; brackets = false }

unfoldable pub commas : List ℕ → ℕ
commas [] = 0
commas (c ∷ cs) = if c == b',' then suc (commas cs) else commas cs

unfoldable pub remaining : TextCursor → ℕ
unfolding commas
remaining c = if c.ended then 0 else suc (commas c.rest)

-- The bytes before the first comma, and those behind it if there is one.
abbrev pub before : ℕ → List ℕ × Option (List ℕ) → List ℕ × Option (List ℕ)
before c r = (c ∷ r.0, r.1)

unfoldable pub split_comma : List ℕ → List ℕ × Option (List ℕ)
split_comma [] = ([], none)
split_comma (c ∷ cs) = let r = split_comma cs in if c == b',' then ([], some cs) else before c r

unfoldable pub strip_opening : List ℕ → List ℕ
strip_opening [] = []
strip_opening (c ∷ cs) = let r = strip_opening cs in if c == b'[' then r else c ∷ cs

unfoldable pub strip_closing : List ℕ → List ℕ
strip_closing [] = []
strip_closing (c ∷ cs) = elim (strip_closing cs) [
  | [] ↦ if c == b']' then [] else c ∷ []
  | d ∷ ds ↦ c ∷ d ∷ ds
]

unfoldable pub unbracketed : Bool → List ℕ → List ℕ
unfolding strip_opening strip_closing
unbracketed true value = strip_closing (strip_opening value)
unbracketed false value = value

-- The cursor behind the field `value`, if anything is left.
abbrev pub past : TextCursor → ℕ → Option (List ℕ) → TextCursor
past c n none = record c { rest = []; offset = c.offset + n; ended = true }
past c n (some after) = record c { rest = after; offset = c.offset + n + 1 }

unfoldable pub take : TextCursor → List ℕ × TextCursor
unfolding split_comma unbracketed
take c =
    let r = split_comma c.rest in
    if c.ended then ([], c) else (unbracketed c.brackets r.0, past c (length r.0) r.1)

abbrev pub without_plus : List ℕ → List ℕ
without_plus [] = []
without_plus (c ∷ cs) = if c == b'+' then cs else c ∷ cs

module _ {T : Type 0} (from_chars : ℕ → List ℕ → Option (T × ℕ)) (accepts : T → Bool) where
  -- What std::from_chars gives must end at the end of the field and pass the test for finiteness.
  unfoldable pub number : TextCursor → ℕ → Read (Option T × TextCursor)
  unfolding take
  number c base =
      let r = take c in
      let text = without_plus r.0 in
      if is_empty r.0 then got (none, r.1) else elim (from_chars base text) [
        | none ↦ failed c.offset
        | some v ↦
            if v.1 == length text && accepts v.0 then got (some v.0, r.1) else failed c.offset
      ]

unfoldable pub text : TextCursor → Bool → Read (Option (List ℕ) × TextCursor)
unfolding take
text c character =
    let r = take c in
    if is_empty r.0
    then got (none, r.1)
    else if character && not (length r.0 == 1)
    then failed c.offset
    else got (some r.0, r.1)

abbrev pub is_hex : ℕ → Bool
is_hex c = leb 48 c && leb c 57 || leb 97 c && leb c 102 || leb 65 c && leb c 70

abbrev pub all_hex : List ℕ → Bool
all_hex [] = true
all_hex (c ∷ cs) = is_hex c && all_hex cs

unfoldable pub hex_integer : TextCursor → Read (Option (List ℕ) × TextCursor)
unfolding take
hex_integer c =
    let r = take c in
    if is_empty r.0
    then got (none, r.1)
    else if all_hex r.0
    then got (some r.0, r.1)
    else failed c.offset

unfoldable pub repetitions : TextCursor → Option ℤ → Read ℕ
unfolding remaining
repetitions c none = failed c.offset
repetitions c (some n) =
    if ltb_ℤ n (pos 0) || ltb (remaining c) (pos_part n) then failed c.offset else got (pos_part n)
