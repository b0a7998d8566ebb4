-- ===== src/Texts/FilePath.antt =====
-- Go's `path` package on paths that do not begin with a slash.
use cartolensia.Prelude.{
  ℕ, true, false, ◌||◌, List, [], ◌∷◌, ◌++◌, ◌≡◌, ◌≢◌, ◌⊎◌, inl, inr, refl, Text, text_eq, ◌==◌,
  same_text_iff, All, All-append, All-mono, Bool-cases, if◌then◌else◌,
}
use mathlib.Core.List.{reverse, reverse-cons}
use cartolensia.Texts.{has_prefix, split, join}
use cartolensia.Texts.Parts.{Lacks, split-Lacks, split-join}

abbrev pub slash : ℕ
slash = b'/'

abbrev pub dot : Text
dot = b'.' ∷ []

abbrev pub dots : Text
dots = b'.' ∷ b'.' ∷ []

-- One element of the path, put on the elements before it, the last one first: a leading `..` stays.
abbrev pub clean_step : List Text → Text → List Text
clean_step done part =
    if part == [] || part == dot
    then done
    else if part == dots
    then (elim done [
      | [] ↦ part ∷ []
      | last ∷ rest ↦ if last == dots then part ∷ last ∷ rest else rest
    ])
    else part ∷ done

unfoldable pub clean_parts : List Text → List Text → List Text
clean_parts done [] = done
clean_parts done (part ∷ parts) = clean_parts (clean_step done part) parts

abbrev pub or_dot : List Text → Text
or_dot [] = dot
or_dot (part ∷ parts) = join slash (part ∷ parts)

-- path.Clean
unfoldable pub clean : Text → Text
unfolding clean_parts split join
clean s = or_dot (reverse (clean_parts [] (split slash s)))

abbrev pub without_last : List Text → List Text
without_last [] = []
without_last (part ∷ []) = []
without_last (part ∷ next ∷ parts) = part ∷ without_last (next ∷ parts)

-- path.Dir
unfoldable pub dir : Text → Text
unfolding clean_parts split join
dir s = or_dot (reverse (clean_parts [] (without_last (split slash s))))

abbrev pub dots_slash : Text
dots_slash = dots ++ (slash ∷ [])

-- An element of a clean path that does not leave its folder.
abbrev pub IsPlain : Text → Type 0
IsPlain part = (part ≢ []) × (part ≢ dot) × (part ≢ dots) × Lacks slash part

-- The text is such elements with slashes between them.
abbrev pub IsInside : Text → Type 0
IsInside s = All IsPlain (split slash s)

-- The list ends in `..`; elements put on in reverse, this is a path that leaves its folder.
abbrev Leaves : List Text → Type 0
Leaves [] = ⊥
Leaves (part ∷ rest) = ((part ≡ dots) × (rest ≡ [])) ⊎ Leaves rest

abbrev Stays : List Text → Type 0
Stays done = All IsPlain done ⊎ Leaves done

plain :
    (part : Text)
    → Lacks slash part
    → (part == []) ≡ false
    → (part == dot) ≡ false
    → (part == dots) ≡ false
    → IsPlain part
plain part lacks a b c = (
  (λ e. cc (a, (same_text_iff part []).1 e)),
  (λ e. cc (b, (same_text_iff part dot).1 e)),
  (λ e. cc (c, (same_text_iff part dots).1 e)),
  lacks,
)

down-Stays : (done : List Text) (part : Text) → IsPlain part → Stays done → Stays (part ∷ done)
down-Stays done part p (inl all) = inl (p, all)
down-Stays done part p (inr l) = inr (inr l)

kept-Stays :
    (part last : Text) (rest : List Text)
    → last ≡ dots
    → Stays (last ∷ rest)
    → Stays (part ∷ last ∷ rest)
kept-Stays part last rest e (inl (p, all)) = absurd (p.2 e)
kept-Stays part last rest e (inr l) = inr (inr l)

rest-Stays : (last : Text) (rest : List Text) → last ≢ dots → Stays (last ∷ rest) → Stays rest
rest-Stays last rest n (inl (p, all)) = inl all
rest-Stays last rest n (inr (inl (e, empty))) = absurd (n e)
rest-Stays last rest n (inr (inr l)) = inr l

up-Stays :
    (done : List Text) (part : Text)
    → part ≡ dots
    → Stays done
    → Stays (elim done [
      | [] ↦ part ∷ []
      | last ∷ rest ↦ if last == dots then part ∷ last ∷ rest else rest
    ])
up-Stays [] part e h = inr (inl (e, refl))
up-Stays (last ∷ rest) part e h = elim (Bool-cases (last == dots)) [
  | inl b ↦ rw b (kept-Stays part last rest ((same_text_iff last dots).0 b) h)
  | inr b ↦ rw b (rest-Stays last rest (λ n. cc (b, (same_text_iff last dots).1 n)) h)
]

clean_step-Stays :
    (done : List Text) (part : Text) → Lacks slash part → Stays done → Stays (clean_step done part)
clean_step-Stays done part lacks h = elim (Bool-cases (part == [])) [
  | inl a ↦ rw a h
  | inr a ↦ elim (Bool-cases (part == dot)) [
    | inl b ↦ rw (a, b) h
    | inr b ↦ elim (Bool-cases (part == dots)) [
      | inl c ↦ rw (a, b, c) (up-Stays done part ((same_text_iff part dots).0 c) h)
      | inr c ↦ rw (a, b, c) (down-Stays done part (plain part lacks a b c) h)
    ]
  ]
]

clean_parts-Stays :
    (done parts : List Text) → All (Lacks slash) parts → Stays done → Stays (clean_parts done parts)
unfolding clean_parts
clean_parts-Stays done [] lacks h = h
clean_parts-Stays done (part ∷ parts) (here, lacks) h =
    clean_parts-Stays (clean_step done part) parts lacks (clean_step-Stays done part here h)

All-reverse : (parts : List Text) → All IsPlain parts → All IsPlain (reverse parts)
All-reverse [] h = h
All-reverse (part ∷ parts) (p, h) =
    rw (reverse-cons part parts)
      (All-append IsPlain (reverse parts) (part ∷ []) (All-reverse parts h) (p, tt))

Leaves-reverse :
    (parts : List Text) → Leaves parts → (rest : List Text) × (reverse parts ≡ dots ∷ rest)
Leaves-reverse [] h = elim h [ ]
Leaves-reverse (part ∷ parts) (inl (e, none_left)) = ([], rw (e, none_left) refl)
Leaves-reverse (part ∷ parts) (inr h) =
    let (rest, e) = Leaves-reverse parts h in (rest ++ (part ∷ []), rw (reverse-cons part parts, e))

reverse-Stays :
    (done : List Text)
    → Stays done
    → All IsPlain (reverse done) ⊎ ((rest : List Text) × (reverse done ≡ dots ∷ rest))
reverse-Stays done (inl all) = inl (All-reverse done all)
reverse-Stays done (inr l) = inr (Leaves-reverse done l)

IsInside-join :
    (part : Text) (parts : List Text)
    → All IsPlain (part ∷ parts)
    → IsInside (join slash (part ∷ parts))
IsInside-join part parts h =
    rw (split-join slash part parts h.0.3 (All-mono (λ p q. q.3) parts h.1)) h

begins : (part rest : Text) → part ≡ dots → has_prefix (part ++ (slash ∷ rest)) dots_slash ≡ true
unfolding has_prefix
begins part rest e = rw e refl

IsInside-or_dot :
    (parts : List Text)
    → All IsPlain parts ⊎ ((rest : List Text) × (parts ≡ dots ∷ rest))
    → or_dot parts ≢ dot
    → or_dot parts ≢ dots
    → has_prefix (or_dot parts) dots_slash ≡ false
    → IsInside (or_dot parts)
unfolding join
IsInside-or_dot [] h a b c = absurd (a refl)
IsInside-or_dot (part ∷ parts) (inl all) a b c = IsInside-join part parts all
IsInside-or_dot (part ∷ []) (inr (rest, e)) a b c = absurd (b (cc e))
IsInside-or_dot (part ∷ next ∷ parts) (inr (rest, e)) a b c =
    cc (c, begins part (join slash (next ∷ parts)) (cc e))

-- A path with no slash in front whose cleaned form is neither `.` nor `..` and does not begin with `../`
-- has a cleaned form with no empty element, no `.` and no `..`.
pub clean-IsInside :
    (s : Text)
    → clean s ≢ dot
    → clean s ≢ dots
    → has_prefix (clean s) dots_slash ≡ false
    → IsInside (clean s)
unfolding clean
clean-IsInside s a b c =
    let done : List Text = clean_parts [] (split slash s) in
    IsInside-or_dot (reverse done)
      (reverse-Stays done (clean_parts-Stays [] (split slash s) (split-Lacks slash s) (inl tt))) a b
      c
