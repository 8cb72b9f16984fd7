-- ===== src/Paths/Laws.antt =====
-- What the patterns of internal/mwutil/util.go match.
use mathlib.Core.Path.{subst}
use zerohttp.Prelude.{
  Exists, ◌∙◌, ℕ, ◌-◌, ◌≡◌, refl, ap, sym, ◌↔◌, inl, inr, true, false, List, [], ◌∷◌, ◌++◌, none,
  some, arith, any, length, Bool-cases, Option-cases, All,
}
use zerohttp.Text.{Text, codes, text_eq, has_suffix, cut_suffix, take}
use zerohttp.Text.Laws.{
  text_eq_iff, prefix_rest, has_prefix_append, cut_suffix_append, suffix_front,
}
use zerohttp.Paths.{path_matches, should_process_middleware}

-- The meaning of a pattern, by its last byte.
pub data Matches (path : Text) : Text → Type 0 where
  exact : (p : Text) → p ≡ path → Matches path p
  wildcard : (base rest p : Text) → p ≡ base ++ codes "*" → path ≡ base ++ rest → Matches path p
  directory : (base p : Text) → p ≡ base ++ codes "/" → path ≡ base → Matches path p
  below : (base rest p : Text) → p ≡ base ++ codes "/" → path ≡ p ++ rest → Matches path p

cut_suffix-some : (s t base : Text) → cut_suffix s t ≡ some base → s ≡ base ++ t
unfolding cut_suffix
cut_suffix-some s t base h = elim (Bool-cases (has_suffix s t)) [
  | inl there ↦
      let front : take (length s - length t) s ≡ base = ground arith in
      subst (λ x. s ≡ x ++ t) front (suffix_front s t there)
  | inr missing ↦ absurd (let e : none ≡ some base = (rw missing at h) in cc)
]

last_of : Text → ℕ
last_of [] = 0
last_of (a ∷ []) = a
last_of (a ∷ b ∷ s) = last_of (b ∷ s)

last_of-snoc : (s : Text) (a : ℕ) → last_of (s ++ a ∷ []) ≡ a
unfolding last_of
last_of-snoc [] a = refl
last_of-snoc (b ∷ []) a = refl
last_of-snoc (b ∷ c ∷ s) a = last_of-snoc (c ∷ s) a

slash_not_star : (base : Text) → cut_suffix (base ++ codes "/") (codes "*") ≡ none
slash_not_star base = elim (Option-cases (cut_suffix (base ++ codes "/") (codes "*"))) [
  | inl none_there ↦ none_there
  | inr (b, found) ↦
      let e = ap last_of (cut_suffix-some (base ++ codes "/") (codes "*") b found) in
      let clash : ◌≡◌ {A = ℕ} b'/' b'*' = sym (last_of-snoc base b'/') ∙ e ∙ last_of-snoc b b'*' in
      absurd (omega arith)
]

path_matches_sound : (path p : Text) → path_matches path p ≡ true → Matches path p
unfolding path_matches
path_matches_sound path p h = elim (Bool-cases (text_eq p path)) [
  | inl same ↦ exact p ((text_eq_iff p path).0 same)
  | inr other ↦ elim (Option-cases (cut_suffix p (codes "*"))) [
    | inr (base, star) ↦
        let (rest, e) = prefix_rest path base (rw (other, star) at h) in
        wildcard base rest p (cut_suffix-some p (codes "*") base star) e
    | inl no_star ↦ elim (Option-cases (cut_suffix p (codes "/"))) [
      | inl no_slash ↦ absurd (let e : false ≡ true = (rw (other, no_star, no_slash) at h) in cc)
      | inr (base, slash) ↦ elim (Bool-cases (text_eq path base)) [
        | inl dir ↦
            directory base p (cut_suffix-some p (codes "/") base slash)
              ((text_eq_iff path base).0 dir)
        | inr deeper ↦
            let (rest, e) = prefix_rest path p (rw (other, no_star, slash, deeper) at h) in
            below base rest p (cut_suffix-some p (codes "/") base slash) e
      ]
    ]
  ]
]

path_matches_complete : (path p : Text) → Matches path p → path_matches path p ≡ true
unfolding path_matches
path_matches_complete path p (exact _ e) = ground (arith, text_eq_iff p path)
path_matches_complete path p (wildcard base rest _ e f) =
    rw (e, cut_suffix_append base (codes "*"), f, has_prefix_append base rest) (ground arith)
path_matches_complete path p (directory base _ e f) =
    rw (e, slash_not_star base, e, cut_suffix_append base (codes "/"), f)
      (ground (arith, text_eq_iff base base))
path_matches_complete path p (below base rest _ e f) =
    rw
      (
        e,
        slash_not_star base,
        e,
        cut_suffix_append base (codes "/"),
        f,
        e,
        has_prefix_append (base ++ codes "/") rest,
      )
      (ground arith)

-- A pattern matches a path exactly when it is the path, ends in `*` and is otherwise a prefix of the
-- path, or ends in `/` and is the path with one `/` more or a prefix of the path.
pub path_matches_iff : (path p : Text) → (path_matches path p ≡ true) ↔ Matches path p
path_matches_iff path p = (path_matches_sound path p, path_matches_complete path p)

any_sound :
    (path : Text) (ps : List Text) → any (path_matches path) ps ≡ true → Exists (Matches path) ps
any_sound path [] h = cc
any_sound path (p ∷ ps) h = elim (Bool-cases (path_matches path p)) [
  | inl hit ↦ inl (path_matches_sound path p hit)
  | inr miss ↦ inr (any_sound path ps (rw miss at h))
]

any_complete :
    (path : Text) (ps : List Text) → Exists (Matches path) ps → any (path_matches path) ps ≡ true
any_complete path [] h = absurd h
any_complete path (p ∷ ps) (inl h) = rw (path_matches_complete path p h)
any_complete path (p ∷ ps) (inr h) = ground (arith, any_complete path ps h)

none_sound :
    (path : Text) (ps : List Text)
    → any (path_matches path) ps ≡ false
    → All (λ p. ¬ Matches path p) ps
none_sound path [] h = tt
none_sound path (p ∷ ps) h = (
  λ m. let hit = path_matches_complete path p m in ground arith,
  none_sound path ps (ground arith),
)

none_complete :
    (path : Text) (ps : List Text)
    → All (λ p. ¬ Matches path p) ps
    → any (path_matches path) ps ≡ false
none_complete path [] h = refl
none_complete path (p ∷ ps) (h, hs) = elim (Bool-cases (path_matches path p)) [
  | inl hit ↦ absurd (h (path_matches_sound path p hit))
  | inr miss ↦ rw miss (none_complete path ps hs)
]

-- What the two lists of a configuration ask for: with included paths one of them matches, and
-- without them none of the excluded paths does.
abbrev pub Applies : Text → List Text → List Text → Type 0
Applies path [] excluded = All (λ p. ¬ Matches path p) excluded
Applies path (i ∷ included) excluded = Exists (Matches path) (i ∷ included)

-- A middleware handles a request exactly when its path lists ask for it.
pub should_process_middleware_iff :
    (path : Text) (included excluded : List Text)
    → (should_process_middleware path included excluded ≡ true) ↔ Applies path included excluded
unfolding should_process_middleware
should_process_middleware_iff path [] excluded =
    (λ h. none_sound path excluded (ground arith), λ h. rw (none_complete path excluded h))
should_process_middleware_iff path (i ∷ included) excluded =
    (any_sound path (i ∷ included), any_complete path (i ∷ included))
