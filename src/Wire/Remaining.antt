-- ===== src/Wire/Remaining.antt =====
-- `remaining` counts the calls of `take` that are left.
use neo_gnss_observatory.Base.{
  ℕ, zero, suc, true, false, ◌≡◌, refl, sym, ==_iff, ap, ◌∙◌, List, [], ◌∷◌, ◌++◌, Option, none,
  some, arith, ◌==◌, length, Bool-cases, inl, inr,
}
use mathlib.Core.Path.{subst}
use neo_gnss_observatory.Wire.Fields.{
  TextCursor, before, commas, past, remaining, split_comma, take, unbracketed, text_cursor,
}

-- The fields that `n` calls of `take` give.
unfoldable pub take_fields : ℕ → TextCursor → List (List ℕ) × TextCursor
take_fields zero c = ([], c)
take_fields (suc n) c = let r = take c in let rest = take_fields n r.1 in (r.0 ∷ rest.0, rest.1)

abbrev commas_after : Option (List ℕ) → ℕ
commas_after none = 0
commas_after (some after) = suc (commas after)

commas-split : (cs : List ℕ) → commas cs ≡ commas_after (split_comma cs).1
unfolding commas split_comma
commas-split [] = refl
commas-split (c ∷ cs) = ground (arith, commas-split cs)

-- The fields with the commas between them.
abbrev pub join : List (List ℕ) → List ℕ
join [] = []
join (f ∷ []) = f
join (f ∷ g ∷ fs) = f ++ (b',' ∷ join (g ∷ fs))

abbrev with_rest : List ℕ × Option (List ℕ) → List ℕ
with_rest r = elim r.1 [ none ↦ r.0 | some after ↦ r.0 ++ (b',' ∷ after) ]

with_rest-before :
    (c : ℕ) (f : List ℕ) (o : Option (List ℕ)) → with_rest (before c (f, o)) ≡ c ∷ with_rest (f, o)
with_rest-before c f none = refl
with_rest-before c f (some after) = refl

with_rest-split : (cs : List ℕ) → with_rest (split_comma cs) ≡ cs
unfolding split_comma
with_rest-split [] = refl
with_rest-split (c ∷ cs) =
    let r = split_comma cs in
    let further : with_rest (before c r) ≡ c ∷ cs =
      with_rest-before c r.0 r.1 ∙ ap (λ (t : List ℕ). c ∷ t) (with_rest-split cs) in
    elim (Bool-cases (c == b',')) [
      | inl h ↦ rw h (ap (λ (x : ℕ). x ∷ cs) (sym ((==_iff c b',').0 h)))
      | inr h ↦ rw h further
    ]

-- The fields that are taken from `rest`, when it is cut at its commas.
Joins : List ℕ → List (List ℕ) × TextCursor → Type 0
Joins cs r = (join r.0 ≡ cs) × (r.1.ended ≡ true)

take-plain :
    (c : TextCursor)
    → c.ended ≡ false
    → c.brackets ≡ false
    → take c
      ≡ ((split_comma c.rest).0, past c (length (split_comma c.rest).0) (split_comma c.rest).1)
unfolding take unbracketed
take-plain c e plain = rw (e, plain, unbracketed)

Fields : ℕ → Type 0
Fields n =
    (c : TextCursor)
    → c.ended ≡ false
    → c.brackets ≡ false
    → commas c.rest ≡ n
    → Joins c.rest (take_fields (suc n) c)

-- The field `f` is taken, and what `o` holds is left.
field-Joins :
    (n : ℕ) (c : TextCursor) (f : List ℕ) (o : Option (List ℕ))
    → c.ended ≡ false
    → c.brackets ≡ false
    → with_rest (f, o) ≡ c.rest
    → n ≡ commas_after o
    → ((m : ℕ) → n ≡ suc m → Fields m)
    → Joins c.rest
        (f ∷ (take_fields n (past c (length f) o)).0, (take_fields n (past c (length f) o)).1)
unfolding take_fields Joins Fields
field-Joins zero c f none e plain w h on = (w, refl)
field-Joins (suc n) c f none e plain w h on = absurd (omega (arith, h))
field-Joins zero c f (some after) e plain w h on = absurd (omega (arith, h))
field-Joins (suc n) c f (some after) e plain w h on =
    let r = on n refl (past c (length f) (some after)) e plain (omega (arith, h)) in
    (ap (λ (t : List ℕ). f ++ (b',' ∷ t)) r.0 ∙ w, r.1)

next-Fields : (n : ℕ) → ((m : ℕ) → n ≡ suc m → Fields m) → Fields n
unfolding take_fields Fields
next-Fields n on c e plain k =
    subst (λ t. Joins c.rest (t.0 ∷ (take_fields n t.1).0, (take_fields n t.1).1))
      (sym (take-plain c e plain))
      (field-Joins n c (split_comma c.rest).0 (split_comma c.rest).1 e plain
        (with_rest-split c.rest) (sym k ∙ commas-split c.rest) on)

join_left : (n : ℕ) → Fields n
join_left zero = next-Fields zero (λ m h. absurd (omega (arith, h)))
join_left (suc n) = next-Fields (suc n) (λ m h. subst Fields (omega (arith, h)) (join_left n))

-- `remaining` is the number of fields: on a new cursor over any bytes that many calls of `take` give
-- fields that, with commas between them, are those bytes again, and they leave the cursor ended. For
-- no bytes there are no fields.
pub take_fields-remaining :
    (bytes : List ℕ)
    → let r = take_fields (remaining (text_cursor bytes)) (text_cursor bytes) in
      (join r.0 ≡ bytes) × (r.1.ended ≡ true)
unfolding take_fields remaining text_cursor Joins Fields
take_fields-remaining [] = (refl, refl)
take_fields-remaining (c ∷ cs) = join_left (commas (c ∷ cs)) (text_cursor (c ∷ cs)) refl refl refl
