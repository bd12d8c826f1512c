-- ===== src/ReceiverTime/Order.antt =====
-- The times that ReceiverTime keeps stay in order over every sequence of calls.
use neo_gnss_observatory.Base.{
  Bool, true, false, ◌≡◌, refl, Option, none, some, List, [], ◌∷◌, if◌then◌else◌, arith,
}
use neo_gnss_observatory.Base.Int.{ℤ, ◌≤ℤ◌}
use neo_gnss_observatory.ReceiverTime.{
  ReceiverTime, Restart, no_restart, uptime_decrease, offset_jump, later, advance,
  associated_uptime, anchor, set_navigation, fresh_pair, is_below, reason, anchor_after,
  after_report, report_uptime, follows,
}

-- If there is a first time there is a second, not before it.
abbrev pub Precedes : Option ℤ → Option ℤ → Type 0
Precedes none b = Unit
Precedes (some a) none = ⊥
Precedes (some a) (some b) = a ≤ℤ b

abbrev pub Needs : Option ℤ → Option ℤ → Type 0
Needs none b = Unit
Needs (some a) none = ⊥
Needs (some a) (some b) = Unit

-- The anchor is not later than the progress, its uptime not later than the uptime, and there is no
-- anchor uptime without an anchor. The time at which the uptime was read is not later than the progress.
abbrev pub IsOrdered : ReceiverTime → Type 0
IsOrdered r =
    Precedes r.navigation r.progress
    × Precedes r.anchor_uptime r.uptime
    × Needs r.anchor_uptime r.navigation
    × Precedes r.uptime_gpst r.progress

-- The calls that change the state.
pub data Call : Type 0 where
  advancing : ℤ → Call
  setting : Option ℤ → Call
  reporting : ℤ → Option ℤ → Bool → Call

unfoldable pub run : ReceiverTime → List Call → ReceiverTime
run r [] = r
run r (advancing t ∷ cs) = run (advance r t) cs
run r (setting n ∷ cs) = run (set_navigation r n) cs
run r (reporting t g direct ∷ cs) = run (report_uptime r t g direct).0 cs

Precedes-later : (n p : Option ℤ) (t : ℤ) → Precedes n p → Precedes n (later p t)
Precedes-later none p t h = tt
Precedes-later (some a) none t h = absurd h
Precedes-later (some a) (some p) t h = ground arith

later-ge : (p : Option ℤ) (t : ℤ) → Precedes (some t) (later p t)
later-ge none t = ground arith
later-ge (some p) t = ground arith

advance-IsOrdered : (r : ReceiverTime) (t : ℤ) → IsOrdered r → IsOrdered (advance r t)
unfolding advance
advance-IsOrdered r t h = (
  Precedes-later r.navigation r.progress t h.0,
  h.1,
  h.2,
  Precedes-later r.uptime_gpst r.progress t h.3,
)

Precedes-self : (b : Bool) (u : Option ℤ) → Precedes (if b then none else u) u
Precedes-self true u = tt
Precedes-self false none = tt
Precedes-self false (some u) = ground arith

Needs-some : (a : Option ℤ) (t : ℤ) → Needs a (some t)
Needs-some none t = tt
Needs-some (some a) t = tt

set_navigation-IsOrdered :
    (r : ReceiverTime) (n : Option ℤ) → IsOrdered r → IsOrdered (set_navigation r n)
unfolding set_navigation advance associated_uptime
set_navigation-IsOrdered r none h = (tt, tt, tt, h.3)
set_navigation-IsOrdered r (some t) h = (
  later-ge r.progress t,
  Precedes-self _ r.uptime,
  Needs-some _ t,
  Precedes-later r.uptime_gpst r.progress t h.3,
)

-- Where there is no restart the uptime did not decrease.
reason-is_below :
    (r : ReceiverTime) (t : ℤ) (g : Option ℤ)
    → reason r t g ≡ no_restart
    → is_below t r.uptime ≡ false
unfolding reason
reason-is_below r t none e = ground arith
reason-is_below r t (some g) e = ground arith

Precedes-uptime :
    (a u : Option ℤ) (t : ℤ) → Precedes a u → is_below t u ≡ false → Precedes a (some t)
Precedes-uptime none u t h e = tt
Precedes-uptime (some a) none t h e = absurd h
Precedes-uptime (some a) (some u) t h e = ground arith

after-Precedes :
    (r : ReceiverTime) (t : ℤ) (g : Option ℤ)
    → Precedes r.anchor_uptime (some t)
    → Precedes (anchor_after r t g) (some t)
after-Precedes r t none h = h
after-Precedes r t (some g) h = go r.anchor_uptime h (follows r.navigation g r.period)
  where
    go :
        (a : Option ℤ)
        → Precedes a (some t)
        → (b : Bool)
        → Precedes (elim a [ none ↦ if b then some t else none | some x ↦ some x ]) (some t)
    go none k true = ground arith
    go none k false = tt
    go (some x) k b = k

after-Needs :
    (r : ReceiverTime) (t : ℤ) (g : Option ℤ)
    → Needs r.anchor_uptime r.navigation
    → Needs (anchor_after r t g) r.navigation
after-Needs r t none h = h
after-Needs r t (some g) h = go r.anchor_uptime r.navigation h
  where
    go :
        (a n : Option ℤ)
        → Needs a n
        → Needs
            (elim a [ none ↦ if follows n g r.period then some t else none | some x ↦ some x ])
            n
    go none none k = tt
    go none (some x) k = Needs-some _ x
    go (some x) n k = k

after_report-IsOrdered :
    (r : ReceiverTime) (t : ℤ) (g : Option ℤ) (why : Restart)
    → IsOrdered r
    → reason r t g ≡ why
    → IsOrdered (after_report r t g why)
after_report-IsOrdered r t g no_restart h e = (
  h.0,
  after-Precedes r t g (Precedes-uptime r.anchor_uptime r.uptime t h.1 (reason-is_below r t g e)),
  after-Needs r t g h.2,
  Precedes-self false r.progress,
)
after_report-IsOrdered r t g uptime_decrease h e = (tt, tt, tt, Precedes-self false r.progress)
after_report-IsOrdered r t g offset_jump h e = (tt, tt, tt, Precedes-self false r.progress)

report_uptime-IsOrdered :
    (r : ReceiverTime) (t : ℤ) (g : Option ℤ) (direct : Bool)
    → IsOrdered r
    → IsOrdered (report_uptime r t g direct).0
unfolding report_uptime
report_uptime-IsOrdered r t g direct h =
    after_report-IsOrdered r t (fresh_pair r t g direct) _ h refl

-- Every sequence of calls on a receiver whose times are in order keeps the order: the anchor is
-- never later than the progress, its uptime never later than the last uptime, the time at which the
-- uptime was read never later than the progress, and an anchor uptime never stands without an
-- anchor.
pub run-IsOrdered : (cs : List Call) (r : ReceiverTime) → IsOrdered r → IsOrdered (run r cs)
unfolding run
run-IsOrdered [] r h = h
run-IsOrdered (advancing t ∷ cs) r h = run-IsOrdered cs (advance r t) (advance-IsOrdered r t h)
run-IsOrdered (setting n ∷ cs) r h =
    run-IsOrdered cs (set_navigation r n) (set_navigation-IsOrdered r n h)
run-IsOrdered (reporting t g direct ∷ cs) r h =
    run-IsOrdered cs (report_uptime r t g direct).0 (report_uptime-IsOrdered r t g direct h)

abbrev pub IsOther : Call → Type 0
IsOther (setting n) = ⊥
IsOther _ = Unit

abbrev pub AllOther : List Call → Type 0
AllOther [] = Unit
AllOther (c ∷ cs) = IsOther c × AllOther cs

after_report-navigation :
    (r : ReceiverTime) (t : ℤ) (g : Option ℤ) (why : Restart)
    → r.navigation ≡ none
    → (after_report r t g why).navigation ≡ none
after_report-navigation r t g no_restart h = h
after_report-navigation r t g uptime_decrease h = refl
after_report-navigation r t g offset_jump h = refl

run-navigation :
    (cs : List Call) (r : ReceiverTime)
    → AllOther cs
    → r.navigation ≡ none
    → (run r cs).navigation ≡ none
unfolding run advance report_uptime
run-navigation [] r o h = h
run-navigation (advancing t ∷ cs) r o h = run-navigation cs (advance r t) o.1 h
run-navigation (setting n ∷ cs) r o h = absurd o.0
run-navigation (reporting t g direct ∷ cs) r o h =
    run-navigation cs (report_uptime r t g direct).0 o.1
      (after_report-navigation r t (fresh_pair r t g direct) _ h)

restart-navigation :
    (r : ReceiverTime) (t : ℤ) (g : Option ℤ) (direct : Bool)
    → is_below t r.uptime ≡ true
    → (report_uptime r t g direct).0.navigation ≡ none
unfolding report_uptime
restart-navigation r t g direct h = cleared _ refl
  where
    fresh : Option ℤ
    fresh = fresh_pair r t g direct

    cleared :
        (why : Restart) → reason r t fresh ≡ why → (after_report r t fresh why).navigation ≡ none
    cleared no_restart e = absurd (cc (h, reason-is_below r t fresh e))
    cleared uptime_decrease e = refl
    cleared offset_jump e = refl

anchor-none : (r : ReceiverTime) → r.navigation ≡ none → anchor r ≡ none
unfolding anchor
anchor-none r h = ground arith

-- After a report of an uptime below the last one there is no anchor, however the clock goes on and
-- whatever uptimes are reported, until a navigation time is set.
pub run-anchor :
    (r : ReceiverTime) (t : ℤ) (g : Option ℤ) (direct : Bool) (cs : List Call)
    → is_below t r.uptime ≡ true
    → AllOther cs
    → anchor (run (report_uptime r t g direct).0 cs) ≡ none
run-anchor r t g direct cs h o =
    anchor-none (run (report_uptime r t g direct).0 cs)
      (run-navigation cs (report_uptime r t g direct).0 o (restart-navigation r t g direct h))
