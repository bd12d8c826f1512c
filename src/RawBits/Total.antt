-- ===== src/RawBits/Total.antt =====
-- `decode_raw_bits` never throws: the families that reach the table of formats are in it.
use neo_gnss_observatory.Base.{
  ℕ, Bool, true, false, ◌||◌, ◌≡◌, ◌≢◌, refl, Option, none, some, arith, ◌==◌,
}
use neo_gnss_observatory.RawBits.Record.{
  RawBits, Flow, next, leave, out_of_range, logic_error, ◌>>=◌, reading,
}
use neo_gnss_observatory.RawBits.Sbf.{sbf_kind}
use neo_gnss_observatory.RawBits.Ubx.{is_empty_family, ubx_source}
use neo_gnss_observatory.RawBits.Formats.{family_layout}

-- What holds of the value with which a step goes on; a std::logic_error meets no promise.
abbrev pub Gives : {A : Type 0} → (A → Type 0) → Flow A → Type 0
Gives P (next a) = P a
Gives P (leave r) = Unit
Gives P out_of_range = Unit
Gives P logic_error = ⊥

pub Gives->>= :
    {A B : Type 0} (P : A → Type 0) (Q : B → Type 0) (m : Flow A) (k : A → Flow B)
    → Gives P m
    → ((a : A) → P a → Gives Q (k a))
    → Gives Q (m >>= k)
Gives->>= P Q (next a) k h f = f a h
Gives->>= P Q (leave r) k h f = tt
Gives->>= P Q out_of_range k h f = tt
Gives->>= P Q logic_error k h f = absurd h

abbrev pub Any : {A : Type 0} → A → Type 0
Any a = Unit

pub Gives-reading :
    {A : Type 0} (P : A → Type 0) (o : Option A)
    → ((a : A) → o ≡ some a → P a)
    → Gives P (reading o)
Gives-reading P none h = tt
Gives-reading P (some a) h = h a refl

-- The families for which the chain of tests has a format.
abbrev pub HasLayout : RawBits → Type 0
HasLayout r = family_layout r.family ≢ none

-- The blocks that the switch over SBF numbers names.
abbrev pub known_block : ℕ → Bool
known_block n =
    n == 4017
    || n == 4066
    || n == 4018
    || n == 4019
    || n == 4067
    || n == 4068
    || n == 4020
    || n == 4021
    || n == 4022
    || n == 4023
    || n == 4024
    || n == 4047
    || n == 4218
    || n == 4219
    || n == 4242
    || n == 4221
    || n == 4227
    || n == 4228
    || n == 4246
    || n == 4069
    || n == 4270
    || n == 4271

pub sbf_kind-layout :
    (n source sat : ℕ) → known_block n ≡ true → family_layout (sbf_kind n source sat).family ≢ none
unfolding sbf_kind family_layout
sbf_kind-layout n source sat h = ground arith

pub ubx_source-layout :
    (g sig : ℕ)
    → is_empty_family (ubx_source g sig).message_kind.family ≡ false
    → family_layout (ubx_source g sig).message_kind.family ≢ none
unfolding ubx_source is_empty_family family_layout
ubx_source-layout g sig h = ground arith
