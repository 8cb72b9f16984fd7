-- ===== src/Http.antt =====
-- What the middlewares see of net/http: header fields by their canonical names, a request, and what
-- a handler does with the response and with the handler that it wraps.
pub mod Contains
use zerohttp.Prelude.{
  ℕ, ◌≡◌, refl, ◌↔◌, Bool, true, false, List, [], ◌∷◌, Option, none, some, if◌then◌else◌, any,
  arith,
}
use zerohttp.Prelude.Int.{ℤ}
use zerohttp.Text.{Text, text_eq}
use zerohttp.Map.{Map, lookup, insert, text_keys, lookup-insert}

abbrev pub Headers : Type 0
Headers = Map Text (List Text)

abbrev pub first_or_empty : Option (List Text) → Text
first_or_empty none = []
first_or_empty (some []) = []
first_or_empty (some (v ∷ vs)) = v

-- `Header.Get`: the first value, or the empty string.
unfoldable pub get : Text → Headers → Text
get name hs = first_or_empty (lookup name hs)

-- `Header.Set`: one value in place of all.
unfoldable pub set : Text → Text → Headers → Headers
set name value hs = insert name (value ∷ []) hs

-- `Header[name]`: all values.
unfoldable pub values : Text → Headers → List Text
values name hs = elim (lookup name hs) [ none ↦ [] | some vs ↦ vs ]

pub record Request : Type 0 where
  pub method : Text
  pub path : Text
  pub host : Text
  pub headers : Headers
  -- Negative where the length is not known.
  pub content_length : ℤ

-- How a middleware ends: it calls the wrapped handler with a request, writes a status, renders a
-- problem detail (its status and message), or redirects; each with the response's header fields at that moment.
pub data Outcome : Type 0 where
  pass : Request → Headers → Outcome
  write : (status : ℕ) → Headers → Outcome
  problem : (status : ℕ) → (detail : Text) → Headers → Outcome
  redirect : (code : ℕ) → (path : Text) → Headers → Outcome

unfoldable pub contains : Text → List Text → Bool
contains x xs = any (text_eq x) xs

pub get-set :
    (name other value : Text) (hs : Headers)
    → get other (set name value hs) ≡ (if text_eq name other then value else get other hs)
unfolding get set
get-set name other value hs = ground (arith, lookup-insert name other (value ∷ []) hs)

-- A middleware that decides by one test: what it answers tells the result of the test.
pub verdict_iff {ℓ} :
    {P : Type ℓ} (b : Bool) (r : Request) (status : ℕ) (title : Text) (v w : Headers)
    → ((b ≡ true) ↔ P)
    → (((if b then pass r v else problem status title w) ≡ pass r v) ↔ P)
      × (((if b then pass r v else problem status title w) ≡ problem status title w) ↔ (¬ P))
verdict_iff true r status title v w (f, g) =
    (((λ _. f refl), (λ _. refl)), ((λ e. cc), (λ n. absurd (n (f refl)))))
verdict_iff false r status title v w (f, g) =
    (((λ e. cc), (λ p. let h = g p in cc)), ((λ e p. let h = g p in cc), (λ _. refl)))
