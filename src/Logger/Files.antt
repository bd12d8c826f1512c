-- ===== src/Logger/Files.antt =====
-- The files that the worker makes, against the jobs that it has written, while paths are not empty.
use mathlib.Core.Path.{subst}
use neo_gnss_observatory.Base.{
  ℕ, ◌≡◌, refl, sym, ap, ◌∙◌, Bool, true, false, ◌&&◌, not, List, [], ◌∷◌, ◌++◌, Option, none, some,
  arith, if◌then◌else◌, Bool-cases, inl, inr, All,
}
use neo_gnss_observatory.Logger.{
  Job, File, Worker, waiting, sleeping, undefined, holding, reopening, preparing, opening, writing,
  releasing, closing, raising, ended, Logger, same_path, fetch, close, is_present, extended_file,
  open_file, write_file, step_at, write_at, work, attempted,
}

-- The file that a job begins, and what a list of jobs leaves in files: jobs of one path that follow
-- each other share a file.
abbrev pub begun : Job → File
begun j = record { path = j.path; contents = j.bytes }

abbrev pub stored : List File → Job → List File
stored [] j = begun j ∷ []
stored (f ∷ fs) j =
    if same_path j.path f.path
    then record f { contents = f.contents ++ j.bytes } ∷ fs
    else begun j ∷ f ∷ fs

abbrev pub saved : List File → List Job → List File
saved fs [] = fs
saved fs (j ∷ js) = saved (stored fs j) js

saved-append :
    (fs : List File) (js : List Job) (j : Job) → saved fs (js ++ (j ∷ [])) ≡ stored (saved fs js) j
saved-append fs [] j = refl
saved-append fs (i ∷ js) j = saved-append (stored fs i) js j

abbrev pub is_named : List ℕ → Bool
is_named [] = false
is_named (c ∷ cs) = true

abbrev pub AllPaths : List Job → Type 0
AllPaths js = All (λ j. is_named j.path ≡ true) js

-- The newest file is open under its path, or there is none.
abbrev pub Newest : List File → Bool → List ℕ → Type 0
Newest [] file current = (file ≡ false) × (current ≡ [])
Newest (f ∷ fs) file current = (file ≡ true) × (current ≡ f.path)

abbrev pub Last : List File → List ℕ → Type 0
Last [] current = current ≡ []
Last (f ∷ fs) current = current ≡ f.path

abbrev pub Tidy : Logger → Type 0
Tidy s = (s.files ≡ saved [] s.written) × Newest s.files s.file s.current

abbrev pub Moving : Job → Logger → Type 0
Moving j s =
    (s.files ≡ saved [] s.written) × Last s.files s.current × (same_path j.path s.current ≡ false)

abbrev pub Ready : Job → Logger → Type 0
Ready j s =
    (f : File) × (fs : List File) × (s.files ≡ f ∷ fs)
    × (s.file ≡ true)
    × (s.current ≡ f.path)
    × (extended_file j (f ∷ fs) ≡ stored (saved [] s.written) j)

abbrev pub Placed : Worker → Logger → Type 0
Placed waiting s = Tidy s
Placed sleeping s = Tidy s
Placed (undefined j) s = ⊥
Placed (holding j) s = Tidy s × (is_named j.path ≡ true)
Placed (reopening j) s = Moving j s
Placed (preparing j) s = Moving j s
Placed (opening j) s = Moving j s
Placed (writing j) s = Ready j s
Placed (releasing n) s = Tidy s
Placed closing s = s.files ≡ saved [] s.written
Placed (raising e) s = Unit
Placed ended s = (s.error ≡ none) → (s.files ≡ saved [] s.written)

abbrev pub IsPlaced : Logger → Type 0
IsPlaced s = AllPaths s.queue × Placed s.worker s

abbrev OnStep : Option Logger → Type 0
OnStep none = Unit
OnStep (some t) = IsPlaced t

fetch-Placed : (s : Logger) → AllPaths s.queue → Tidy s → IsPlaced (fetch s)
unfolding fetch
fetch-Placed s q h = at s.queue refl q
  where
    at : (js : List Job) → s.queue ≡ js → AllPaths js → IsPlaced (fetch s)
    at [] e q = elim (Bool-cases s.stopping) [
      | inl f ↦ rw (e, f) (tt, h.0)
      | inr f ↦ rw (e, f) (tt, h)
    ]
    at (j ∷ js) e q = rw e (q.1, (h, q.0))

unnamed : (p : List ℕ) → is_named p ≡ true → same_path p [] ≡ true → ⊥
unnamed [] h k = ground arith
unnamed (c ∷ cs) h k = ground arith

holding-Ready :
    (j : Job) (s : Logger)
    → Tidy s
    → is_named j.path ≡ true
    → same_path j.path s.current ≡ true
    → Ready j s
holding-Ready j s h n e = at s.files refl h.0 h.1
  where
    at :
        (fs : List File)
        → s.files ≡ fs
        → fs ≡ saved [] s.written
        → Newest fs s.file s.current
        → Ready j s
    at [] f g k = absurd (unnamed j.path n (subst (λ c. same_path j.path c ≡ true) k.1 e))
    at (x ∷ xs) f g k =
        let e' : same_path j.path x.path ≡ true = subst (λ c. same_path j.path c ≡ true) k.1 e in
        (x, xs, f, k.0, k.1, subst (λ fs. extended_file j (x ∷ xs) ≡ stored fs j) g (rw e' refl))

Last-of :
    (fs : List File) (file : Bool) (current : List ℕ) → Newest fs file current → Last fs current
Last-of [] file current h = h.1
Last-of (f ∷ fs) file current h = h.1

opening-Ready : (j : Job) (s : Logger) → Moving j s → Ready j (open_file j s)
unfolding open_file
opening-Ready j s h = (
  record { path = j.path; contents = [] },
  s.files,
  refl,
  refl,
  refl,
  subst (λ fs. (begun j ∷ s.files) ≡ stored fs j) h.0 (at s.files h.1),
)
  where
    at : (fs : List File) → Last fs s.current → (begun j ∷ fs) ≡ stored fs j
    at [] k = refl
    at (x ∷ xs) k =
        let e : same_path j.path x.path ≡ false = subst (λ c. same_path j.path c ≡ false) k h.2 in
        rw e refl

writing-Tidy : (j : Job) (s : Logger) → Ready j s → Tidy (write_file j s)
unfolding write_file
writing-Tidy j s (f, fs, e, o, c, g) =
    (ap (extended_file j) e ∙ g ∙ sym (saved-append [] s.written j), rw e (o, c))

close-Placed :
    (ok : Bool) (next : Worker) (s : Logger)
    → AllPaths s.queue
    → Placed next (record s { file = false; worker = next })
    → IsPlaced (close ok next s)
unfolding close
close-Placed ok next s q h = elim (Bool-cases s.file) [
  | inl e ↦ elim (Bool-cases ok) [ inl f ↦ rw (e, f) (q, h) | inr f ↦ rw (e, f) (q, tt) ]
  | inr e ↦ rw e (q, h)
]

write_at-Placed :
    (file ok : Bool) (j : Job) (s : Logger)
    → file ≡ true
    → AllPaths s.queue
    → Ready j s
    → IsPlaced (write_at file ok j s)
unfolding write_at write_file
write_at-Placed false ok j s e q h = absurd (ground arith)
write_at-Placed true true j s e q h = (q, writing-Tidy j s h)
write_at-Placed true false j s e q h = (q, tt)

step_at-Placed :
    (w : Worker) (ok : Bool) (s : Logger) → AllPaths s.queue → Placed w s → OnStep (step_at w ok s)
unfolding step_at
step_at-Placed waiting ok s q h = fetch-Placed s q h
step_at-Placed sleeping ok s q h = tt
step_at-Placed (undefined j) ok s q h = absurd h
step_at-Placed (holding j) ok s q h = elim (Bool-cases (same_path j.path s.current)) [
  | inl e ↦ rw e (q, holding-Ready j s h.0 h.1 e)
  | inr e ↦ rw e (q, (h.0.0, Last-of s.files s.file s.current h.0.1, e))
]
step_at-Placed (reopening j) ok s q h = close-Placed ok (preparing j) s q h
step_at-Placed (preparing j) true s q h = (q, h)
step_at-Placed (preparing j) false s q h = (q, tt)
step_at-Placed (opening j) ok s q h = elim (Bool-cases (ok && not (is_present s.files j.path))) [
  | inl e ↦ rw e (q, opening-Ready j s h)
  | inr e ↦ rw e (q, tt)
]
step_at-Placed (writing j) ok s q h = write_at-Placed s.file ok j s h.3 q h
step_at-Placed (releasing n) ok s q h = (q, h)
step_at-Placed closing ok s q h = close-Placed ok ended s q (λ e. h)
step_at-Placed (raising e) ok s q h = (q, λ f. absurd (ground arith))
step_at-Placed ended ok s q h = tt

pub work-Placed : (ok : Bool) (s : Logger) → IsPlaced s → IsPlaced (attempted s (work ok s))
unfolding work
work-Placed ok s h = at (step_at s.worker ok s) (step_at-Placed s.worker ok s h.0 h.1)
  where
    at : (o : Option Logger) → OnStep o → IsPlaced (attempted s o)
    at none k = h
    at (some t) k = k
