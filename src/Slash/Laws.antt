-- ===== src/Slash/Laws.antt =====
-- What middleware/trailingslash/trailing_slash.go does with a path, and where its redirects lead.
use zerohttp.Prelude.{
  ℕ, zero, suc, ◌+◌, ◌-◌, ◌≤◌, ◌<◌, ◌≡◌, ◌≢◌, refl, sym, ap, ◌∙◌, ◌⊎◌, ◌↔◌, inl, inr, Bool, true,
  false, [], ◌∷◌, ◌++◌, Option, none, some, if◌then◌else◌, arith, Option-cases, length,
}
use zerohttp.Text.{Text, text_eq, has_suffix, trim_suffix, take}
use zerohttp.Text.Laws.{
  text_eq_iff, has_suffix_append, suffix_front, trim_suffix_append, length-append_text,
}
use zerohttp.Http.{Headers, Request, Outcome, pass, redirect}
use zerohttp.Slash.{redirect_action, Config, slash, new_path, handle}

-- The end of the path is as preferred, or the path is the root.
abbrev pub IsSettled : Bool → Text → Type 0
IsSettled prefer path = (path ≡ slash) ⊎ (has_suffix path slash ≡ prefer)

-- The next path that a client asks for which follows the redirects, if there is one.
next : Bool → Text → Option Text
next prefer path = if text_eq path slash then none else new_path prefer path

next-none : (prefer : Bool) (path : Text) → next prefer path ≡ none → IsSettled prefer path
unfolding next new_path
next-none prefer path h = ground (arith, text_eq_iff path slash)

next_settled : (prefer : Bool) (path : Text) → IsSettled prefer path → next prefer path ≡ none
unfolding next new_path
next_settled prefer path h = ground (arith, text_eq_iff path slash)

handle-next :
    (c : Config) (r : Request) (w : Headers)
    → c.action ≡ redirect_action
    → handle c r w ≡ elim (next c.prefer_trailing_slash r.path) [
      | none ↦ pass r w
      | some p ↦ redirect c.redirect_code p w
    ]
unfolding handle next
handle-next c r w e = ground arith

-- With redirects as the action, a request is passed on unchanged exactly when its path is settled,
-- and is redirected to a path exactly when that is the corrected one.
redirect_iff :
    (c : Config) (r : Request) (w : Headers)
    → c.action ≡ redirect_action
    → ((handle c r w ≡ pass r w) ↔ IsSettled c.prefer_trailing_slash r.path)
      × ((p : Text)
          → (handle c r w ≡ redirect c.redirect_code p w)
            ↔ (next c.prefer_trailing_slash r.path ≡ some p))
redirect_iff c r w e =
    let prefer = c.prefer_trailing_slash in
    let step = handle-next c r w e in
    (
      (
        λ h. next-none prefer r.path (ground arith),
        λ s. step ∙ (rw (next_settled prefer r.path s)),
      ),
      λ p. (λ h. ground arith, λ h. step ∙ (rw h)),
    )

-- Without the preference for a slash each redirect takes one byte off.
trimmed_front :
    (path : Text) → has_suffix path slash ≡ true → length (trim_suffix path slash) + 1 ≡ length path
trimmed_front path h =
    let front = take (length path - length slash) path in
    let e : path ≡ front ++ slash = suffix_front path slash h in
    let same : trim_suffix path slash ≡ front =
      ap (λ x. trim_suffix x slash) e ∙ trim_suffix_append front slash in
    omega (arith, ap length same, ap length e, length-append_text front slash)

trimmed : (path p : Text) → next false path ≡ some p → length p + 1 ≡ length path
unfolding next new_path
trimmed path p h = ground (arith, trimmed_front path)

trimmed_root : (path : Text) → next false path ≢ some []
unfolding next new_path
trimmed_root path h =
    let root : has_suffix path slash ≡ true → trim_suffix path slash ≡ [] → path ≡ slash =
      λ e empty.
        let front = take (length path - length slash) path in
        let split : path ≡ front ++ slash = suffix_front path slash e in
        let none_left : front ≡ [] =
          sym (ap (λ x. trim_suffix x slash) split ∙ trim_suffix_append front slash) ∙ empty in
        split ∙ ap (λ x. x ++ slash) none_left in
    ground (arith, root, text_eq_iff path slash)

appended_length : (path p : Text) → next true path ≡ some p → 0 < length p
unfolding next new_path
appended_length path p h = ground (arith, length-append_text path slash)

-- With it the first redirect settles the path.
appended : (path p : Text) → next true path ≡ some p → next true p ≡ none
unfolding next new_path
appended path p h = ground (arith, has_suffix_append path slash)

-- The path that a client asks for after a redirect: Redirect of net/http makes the root of an empty one.
abbrev pub resolved : Text → Text
resolved [] = slash
resolved (a ∷ path) = a ∷ path

-- No redirect leads to the empty path.
resolved-next : (prefer : Bool) (path p : Text) → next prefer path ≡ some p → resolved p ≡ p
resolved-next true path [] h = absurd (ground (arith, appended_length path [] h))
resolved-next false path [] h = absurd (trimmed_root path h)
resolved-next prefer path (a ∷ p) h = refl

-- A client that asks again where it is redirected, at most so often. It takes the redirect as a path of
-- this server; one that begins with two slashes, which a browser takes for a host, is not told apart.
unfoldable pub follow : ℕ → Config → Request → Headers → Outcome
follow zero c r w = handle c r w
follow (suc n) c r w = elim (handle c r w) [
  | redirect code path v ↦ follow n c (record r { path = resolved path }) w
  | other ↦ other
]

-- The outcome of the client, by the paths that it asks for.
follow-none :
    (n : ℕ) (c : Config) (r : Request) (w : Headers)
    → c.action ≡ redirect_action
    → next c.prefer_trailing_slash r.path ≡ none
    → follow n c r w ≡ pass r w
unfolding follow
follow-none zero c r w e done = handle-next c r w e ∙ (rw done)
follow-none (suc n) c r w e done =
    let step : handle c r w ≡ pass r w = handle-next c r w e ∙ (rw done) in rw (step, follow)

follow-some :
    (n : ℕ) (c : Config) (r : Request) (w : Headers) (p : Text)
    → c.action ≡ redirect_action
    → next c.prefer_trailing_slash r.path ≡ some p
    → follow (suc n) c r w ≡ follow n c (record r { path = p }) w
unfolding follow
follow-some n c r w p e more =
    let step : handle c r w ≡ redirect c.redirect_code p w = handle-next c r w e ∙ (rw more) in
    let asked = resolved-next c.prefer_trailing_slash r.path p more in rw (step, follow, asked)

empty_settled : (path : Text) → length path ≤ 0 → next false path ≡ none
unfolding next new_path has_suffix text_eq
empty_settled [] h = refl
empty_settled (a ∷ path) h = absurd (omega arith)

-- As many redirects as are followed.
abbrev pub redirects : Bool → Text → ℕ
redirects prefer path = if prefer then 1 else length path

-- A redirect leaves fewer of them.
redirects-next :
    (n : ℕ) (prefer : Bool) (path p : Text)
    → redirects prefer path ≤ suc n
    → next prefer path ≡ some p
    → (next prefer p ≡ none) ⊎ (redirects prefer p ≤ n)
redirects-next n true path p h more = inl (appended path p more)
redirects-next n false path p h more = inr (omega (arith, trimmed path p more))

no_redirects : (prefer : Bool) (path : Text) → redirects prefer path ≤ 0 → next prefer path ≡ none
no_redirects true path h = absurd (omega arith)
no_redirects false path h = empty_settled path h

-- With redirects as the action they end: a client that follows them through the handler, each as a path
-- of this server, at most once where a trailing slash is preferred, and at most as often as the path has
-- bytes where it is not, is passed on, and differs in nothing but its path, which is settled.
pub follow-IsSettled :
    (n : ℕ) (c : Config) (r : Request) (w : Headers)
    → c.action ≡ redirect_action
    → redirects c.prefer_trailing_slash r.path ≤ n
    → (path : Text) × (follow n c r w ≡ pass (record r { path = path }) w)
      × IsSettled c.prefer_trailing_slash path
follow-IsSettled zero c r w e h =
    let done = no_redirects c.prefer_trailing_slash r.path h in
    (r.path, follow-none 0 c r w e done, next-none c.prefer_trailing_slash r.path done)
follow-IsSettled (suc n) c r w e h = elim (Option-cases (next c.prefer_trailing_slash r.path)) [
  | inl done ↦
      (r.path, follow-none (suc n) c r w e done, next-none c.prefer_trailing_slash r.path done)
  | inr (p, more) ↦
      let step = follow-some n c r w p e more in
      elim (redirects-next n c.prefer_trailing_slash r.path p h more) [
        | inl done ↦ (
          p,
          step ∙ follow-none n c (record r { path = p }) w e done,
          next-none c.prefer_trailing_slash p done,
        )
        | inr fewer ↦
            let (q, passed, settled) = follow-IsSettled n c (record r { path = p }) w e fewer in
            (q, step ∙ passed, settled)
      ]
]
