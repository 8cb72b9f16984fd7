-- ===== src/Sse/Replay/Order.antt =====
-- The order and the number of the events that sse/replayer.go keeps.
use mathlib.Core.Path.{subst}
use zerohttp.Prelude.{
  ℕ, zero, suc, ◌+◌, ◌-◌, ◌<◌, ◌≤◌, ◌≡◌, sym, ◌⊎◌, inl, inr, Bool, List, [], ◌∷◌, ◌++◌, All,
  Bool-cases, All-append, All-drop, arith, if◌then◌else◌, ltb, length, drop, keep, length-drop,
}
use zerohttp.Sse.Replay.{Stored, Replayer, unexpired, newest, store, new_replayer}

module _ {E : Type 0} where
  -- The identities of the events go up, from above the bound.
  abbrev pub GoUp : ℕ → List (Stored E) → Type 0
  GoUp low [] = Unit
  GoUp low (e ∷ es) = (low < e.id) × GoUp e.id es

  abbrev pub IsWithin : ℕ → List (Stored E) → Type 0
  IsWithin max es = (max ≡ 0) ⊎ (length es ≤ max)

  -- The identities go up and are at most the last one given, and the limit holds.
  abbrev pub IsValid : Replayer E → Type 0
  IsValid r =
      GoUp 0 r.events × All (λ e. e.id ≤ r.last_id) r.events × IsWithin r.max_events r.events

  GoUp-lower : (low high : ℕ) (es : List (Stored E)) → low ≤ high → GoUp high es → GoUp low es
  GoUp-lower low high [] h g = tt
  GoUp-lower low high (e ∷ es) h (b, g) = (omega arith, g)

  GoUp-keep :
      (p : Stored E → Bool) (low : ℕ) (es : List (Stored E)) → GoUp low es → GoUp low (keep p es)
  GoUp-keep p low [] g = tt
  GoUp-keep p low (e ∷ es) (b, g) = elim (Bool-cases (p e)) [
    | inl kept ↦ rw (kept, GoUp) (b, GoUp-keep p e.id es g)
    | inr dropped ↦
        rw (dropped, GoUp) (GoUp-lower low e.id (keep p es) (omega arith) (GoUp-keep p e.id es g))
  ]

  GoUp-drop : (n low : ℕ) (es : List (Stored E)) → GoUp low es → GoUp low (drop n es)
  GoUp-drop zero low es g = g
  GoUp-drop (suc n) low [] g = tt
  GoUp-drop (suc n) low (e ∷ es) (b, g) =
      GoUp-lower low e.id (drop n es) (omega arith) (GoUp-drop n e.id es g)

  pub GoUp-snoc :
      (low last : ℕ) (es : List (Stored E)) (x : Stored E)
      → GoUp low es
      → All (λ e. e.id ≤ last) es
      → low ≤ last
      → last < x.id
      → GoUp low (es ++ x ∷ [])
  GoUp-snoc low last [] x g a h k = (omega arith, tt)
  GoUp-snoc low last (e ∷ es) x (b, g) (a, as_) h k = (b, GoUp-snoc e.id last es x g as_ a k)

  All-keep {κ} :
      (P : Stored E → Type κ) (p : Stored E → Bool) (es : List (Stored E))
      → All P es
      → All P (keep p es)
  All-keep P p [] h = tt
  All-keep P p (e ∷ es) (h, hs) = elim (Bool-cases (p e)) [
    | inl kept ↦ rw (kept, All) (h, All-keep P p es hs)
    | inr dropped ↦ rw (dropped, All) (All-keep P p es hs)
  ]

  All-le :
      (m n : ℕ) (es : List (Stored E)) → m ≤ n → All (λ e. e.id ≤ m) es → All (λ e. e.id ≤ n) es
  All-le m n [] h a = tt
  All-le m n (e ∷ es) h (a, as_) = (omega arith, All-le m n es h as_)

  unexpired-GoUp : (ttl now : ℕ) (es : List (Stored E)) → GoUp 0 es → GoUp 0 (unexpired ttl now es)
  unfolding unexpired
  unexpired-GoUp ttl now es g = elim (Bool-cases (ltb 0 ttl)) [
    | inl some_ ↦ rw (some_, unexpired) (GoUp-keep _ 0 es g)
    | inr none_ ↦ rw (none_, unexpired) g
  ]

  unexpired-All :
      (ttl now last : ℕ) (es : List (Stored E))
      → All (λ e. e.id ≤ last) es
      → All (λ e. e.id ≤ last) (unexpired ttl now es)
  unfolding unexpired
  unexpired-All ttl now last es a = elim (Bool-cases (ltb 0 ttl)) [
    | inl some_ ↦ rw (some_, unexpired) (All-keep _ _ es a)
    | inr none_ ↦ rw (none_, unexpired) a
  ]

  -- What the limit leaves is the list without a beginning, and within the limit.
  pub newest-drop :
      (max : ℕ) (es : List (Stored E))
      → (newest max es ≡ drop (if ltb 0 max then length es - max else 0) es)
        × IsWithin max (newest max es)
  unfolding newest
  newest-drop max es = (ground arith, ground (arith, length-drop (length es - max) es))

  -- Storing an event keeps the replayer valid: the identities go up, are at most the last one given,
  -- and the events are within the limit. A new replayer is valid.
  pub store-IsValid :
      (max ttl now : ℕ) (event : E) (r : Replayer E)
      → IsValid r
      → IsValid (new_replayer max ttl) × IsValid (store now event r)
  unfolding store new_replayer
  store-IsValid max ttl now event r (g, a, w) =
      let kept = unexpired r.ttl now r.events in
      let x : Stored E = record { id = r.last_id + 1; event = event; timestamp = now } in
      let older = unexpired-All r.ttl now r.last_id r.events a in
      let up : GoUp 0 (kept ++ x ∷ []) =
        GoUp-snoc 0 r.last_id kept x (unexpired-GoUp r.ttl now r.events g) older (omega arith)
          (omega arith) in
      let below : All (λ e. e.id ≤ r.last_id + 1) (kept ++ x ∷ []) =
        All-append _ kept (x ∷ []) (All-le r.last_id (r.last_id + 1) kept (omega arith) older)
          (omega arith, tt) in
      let (e, within) = newest-drop r.max_events (kept ++ x ∷ []) in
      (
        (tt, tt, inr (omega arith)),
        (
          subst (GoUp 0) (sym e) (GoUp-drop _ 0 _ up),
          subst (All (λ e. e.id ≤ r.last_id + 1)) (sym e) (All-drop _ _ _ below),
          within,
        ),
      )
