-- ===== src/Sbas/Returns.antt =====
-- parse_l1 throws on no input.
use neo_gnss_observatory.Base.{
  ℕ, zero, suc, ◌+◌, ◌*◌, ◌≤◌, ◌<◌, ◌≡◌, ◌≢◌, refl, Bool, true, false, not, List, [], ◌∷◌, Option,
  none, some, arith, ◌==◌, if◌then◌else◌, length, take, length-take, length-append, Bool-cases, inl,
  inr, ==_iff,
}
use neo_gnss_observatory.Sbas.Bits.{
  Parse, got, invalid, out_of_range, BitView, bit_view, unsigned_at, crc24q_loop, crc24q_bit,
  crc24q,
}
use neo_gnss_observatory.Sbas.Content.{Content, L1Profile, standard, southpan_open, Message, Result}
use neo_gnss_observatory.Sbas.Fields.{fast}
use neo_gnss_observatory.Sbas.Message.{
  read_as, content_of, judged, headed, cleared, parse_words, parse_l1, with_content, test_body,
}
use neo_gnss_observatory.Sbas.Total.{
  Safe, Safe->>=, Safe-unsigned_at, fast-Safe, mask_of_prns-Safe, geo_navigation_body-Safe,
  degradation_body-Safe, integrity_body-Safe, fast_degradation_body-Safe, network_time_body-Safe,
  almanac_body-Safe, mixed_body-Safe, long_term_body-Safe, service_body-Safe, covariance_body-Safe,
  ionospheric_mask_body-Safe, ionospheric_delay_body-Safe,
}

module _ (b : BitView) (e : b.bit_count ≡ 250) where
  -- A body that is there reads inside the message.
  abbrev SafeBody : Option (Parse Content) → Type 0
  SafeBody none = Unit
  SafeBody (some m) = Safe m

  read_as-Safe :
      {A : Type 0} (make : A → Content) (m : Parse A) → Safe m → SafeBody (read_as make m)
  read_as-Safe make m h = Safe->>= m _ h (λ a. tt)

  SafeBody-if :
      (c : Bool) (x y : Option (Parse Content))
      → SafeBody x
      → SafeBody y
      → SafeBody (if c then x else y)
  SafeBody-if true x y h k = h
  SafeBody-if false x y h k = k

  test_body-Safe : (profile : L1Profile) → SafeBody (test_body profile b)
  test_body-Safe standard = tt
  test_body-Safe southpan_open = read_as-Safe _ (fast b 2) (fast-Safe b e 2)

  content_of-Safe : (profile : L1Profile) (t : ℕ) → SafeBody (content_of profile t b)
  unfolding content_of
  content_of-Safe profile t =
      search
        (
          SafeBody-if,
          read_as-Safe,
          test_body-Safe,
          fast-Safe b e,
          mask_of_prns-Safe b e,
          integrity_body-Safe b e,
          fast_degradation_body-Safe b e,
          geo_navigation_body-Safe b e,
          degradation_body-Safe b e,
          network_time_body-Safe b e,
          almanac_body-Safe b e,
          mixed_body-Safe b e,
          long_term_body-Safe b e,
          service_body-Safe b e,
          covariance_body-Safe b e,
          ionospheric_mask_body-Safe b e,
          ionospheric_delay_body-Safe b e,
        )
        depth 40

  -- Everything but a body that is out of range gives a result.
  with_content-Safe :
      (m : Message) (o : Option (Parse Content)) → SafeBody o → Safe (with_content m o)
  with_content-Safe m none h = tt
  with_content-Safe m (some (got c)) h = tt
  with_content-Safe m (some invalid) h = tt
  with_content-Safe m (some out_of_range) h = h

  judged-Safe : (profile : L1Profile) (m : Message) → Safe (judged profile b m)
  unfolding judged
  judged-Safe profile m =
      choose _ _ _ (not m.preamble_valid) (not m.crc_valid)
        (with_content-Safe m (content_of profile m.type b) (content_of-Safe profile m.type))
    where
      choose :
          (x y : Result) (z : Parse Result) (c d : Bool)
          → Safe z
          → Safe (if c then got x else if d then got y else z)
      choose x y z true d h = tt
      choose x y z false true h = tt
      choose x y z false false h = h

bit_Safe : (b : BitView) (i : ℕ) → i < b.bit_count → Safe (unsigned_at b i 1)
unfolding unsigned_at
bit_Safe b i h = ground arith

crc24q_loop-Safe : (b : BitView) (crc i n : ℕ) → i + n ≤ b.bit_count → Safe (crc24q_loop b crc i n)
unfolding crc24q_loop
crc24q_loop-Safe b crc i zero h = tt
crc24q_loop-Safe b crc i (suc n) h =
    Safe->>= (unsigned_at b i 1) _ (bit_Safe b i (omega arith))
      (λ bit. crc24q_loop-Safe b (crc24q_bit crc bit) (suc i) n (omega arith))

bit_view_enough :
    (bytes : List ℕ) (n : ℕ)
    → n ≤ length bytes * 8
    → bit_view bytes n ≡ got (record { bytes = bytes; bit_count = n })
unfolding bit_view
bit_view_enough bytes n h = ground arith

crc24q-Safe : (bytes : List ℕ) (n : ℕ) → n ≤ length bytes * 8 → Safe (crc24q bytes n)
unfolding crc24q
crc24q-Safe bytes n h =
    rw (bit_view_enough bytes n h)
      (crc24q_loop-Safe (record { bytes = bytes; bit_count = n }) 0 0 n (omega arith))

length-cleared : (bytes : List ℕ) → length bytes ≡ 32 → length (cleared bytes) ≡ 32
length-cleared bytes h =
    omega (arith, length-append (take 31 bytes) (_ ∷ []), length-take 31 bytes, h)

parse_words-Safe :
    (bytes : List ℕ) (profile : L1Profile) → length bytes ≡ 32 → Safe (parse_words bytes profile)
unfolding parse_words
parse_words-Safe bytes profile h =
    let b : BitView = record { bytes = cleared bytes; bit_count = 250 } in
    let len = length-cleared bytes h in
    rw (bit_view_enough (cleared bytes) 250 (omega (arith, len))) (
      Safe->>= (unsigned_at b 0 8) _ (Safe-unsigned_at b refl 0 8 (omega arith) (omega arith)) (λ p.
        Safe->>= (unsigned_at b 8 6) _ (Safe-unsigned_at b refl 8 6 (omega arith) (omega arith))
          (λ t.
            Safe->>= (unsigned_at b 226 24) _
              (Safe-unsigned_at b refl 226 24 (omega arith) (omega arith))
              (λ received.
                Safe->>= (crc24q (cleared bytes) 226) _
                  (crc24q-Safe (cleared bytes) 226 (omega (arith, len)))
                  (λ computed. judged-Safe b refl profile (headed bytes p t received computed))))))

not_thrown : {A : Type 0} (m : Parse A) → Safe m → m ≢ out_of_range
not_thrown (got a) h e = cc
not_thrown invalid h e = cc
not_thrown out_of_range h e = h

-- parse_l1 returns a result for every input and profile: no field of any message is read outside
-- its 250 bits, and no exception leaves it.
pub parse_l1-returns :
    (bytes : List ℕ) (profile : L1Profile) → parse_l1 bytes profile ≢ out_of_range
unfolding parse_l1
parse_l1-returns bytes profile = elim (Bool-cases (length bytes == 32)) [
  | inl h ↦ rw h (
      not_thrown (parse_words bytes profile)
        (parse_words-Safe bytes profile ((==_iff (length bytes) 32).0 h)))
  | inr h ↦ rw h (λ k. cc)
]
