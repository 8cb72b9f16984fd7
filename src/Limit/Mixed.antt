-- ===== src/Limit/Mixed.antt =====
-- The sliding window of middleware/ratelimit/store.go, where calls for many keys share the store.
use mathlib.Core.Path.{subst}
use zerohttp.Prelude.{
  ℕ, ◌+◌, ◌≤◌, ◌<◌, ◌≡◌, refl, sym, ◌∙◌, ◌⊎◌, inl, inr, false, ◌&&◌, List, [], ◌∷◌, ◌++◌, none,
  arith, ltb, leb, Bool-cases, Option-cases, All, length, if◌then◌else◌, keep,
}
use zerohttp.Text.{Text, text_eq}
use zerohttp.Text.Laws.{text_eq_refl, text_eq_iff}
use zerohttp.Map.{
  Map, lookup, insert, delete, text_keys, lookup-insert, lookup-delete, length-delete-le,
}
use zerohttp.Limit.{WindowEntry, check_sliding_window, slide_entry, fresh_window, make_room, recent}
use zerohttp.Limit.Sliding.{
  was_allowed, Tracks, after, Tracks-renewed, Tracks-step, Tracks-quota, Ascending,
}

module _ (window rate max_keys : ℕ) (key : Text) where
  -- A call at a time for some key; the times of the allowed calls for `key` are noted.
  unfoldable pub call_for : Text → ℕ → Map Text WindowEntry × List ℕ → Map Text WindowEntry × List ℕ
  call_for k now (m, log) =
      let (next, answer) = check_sliding_window window rate max_keys k now m in
      (
        next,
        if text_eq k key && was_allowed window rate max_keys key answer
            then log ++ now ∷ []
            else log,
      )

  unfoldable pub mixed :
      List (Text × ℕ) → Map Text WindowEntry × List ℕ → Map Text WindowEntry × List ℕ
  mixed [] s = s
  mixed ((k, now) ∷ cs) s = mixed cs (call_for k now s)

  -- The times of the calls for `key`.
  abbrev pub times_of : List (Text × ℕ) → List ℕ
  times_of [] = []
  times_of ((k, now) ∷ cs) = if text_eq k key then now ∷ times_of cs else times_of cs

  -- Whenever a call for another key comes, the store is not full.
  abbrev pub HasRoom : List (Text × ℕ) → Map Text WindowEntry × List ℕ → Type 0
  HasRoom [] s = Unit
  HasRoom ((k, now) ∷ cs) s = ((k ≡ key) ⊎ (length s.0 < max_keys)) × HasRoom cs (call_for k now s)

  call_for-own :
      (now : ℕ) (m : Map Text WindowEntry) (log : List ℕ)
      → call_for key now (m, log) ≡ after window rate max_keys key now m log
  unfolding call_for
  call_for-own now m log = rw (text_eq_refl key, call_for) refl

  make_room-lookup :
      (k : Text) (m : Map Text WindowEntry)
      → text_eq k key ≡ false
      → length m < max_keys
      → lookup key (make_room (λ e. e.last_access) max_keys k m) ≡ lookup key m
  unfolding make_room
  make_room-lookup k m other room =
      let small : leb max_keys (length (delete k m)) ≡ false =
        ground (arith, length-delete-le k m) in
      rw (small, make_room) (lookup-delete k key m ∙ (rw other))

  insert-lookup :
      (k : Text) (e : WindowEntry) (m : Map Text WindowEntry)
      → text_eq k key ≡ false
      → lookup key (insert k e m) ≡ lookup key m
  insert-lookup k e m other = lookup-insert k key e m ∙ (rw other)

  fresh-lookup :
      (k : Text) (e : WindowEntry) (m : Map Text WindowEntry)
      → text_eq k key ≡ false
      → length m < max_keys
      → lookup key (insert k e (make_room (λ e. e.last_access) max_keys k m)) ≡ lookup key m
  fresh-lookup k e m other room = insert-lookup k e _ other ∙ make_room-lookup k m other room

  slide_entry-lookup :
      (k : Text) (now : ℕ) (kept : List ℕ) (m : Map Text WindowEntry)
      → text_eq k key ≡ false
      → lookup key (slide_entry window rate max_keys k now kept m).0 ≡ lookup key m
  unfolding slide_entry
  slide_entry-lookup k now kept m other = elim (Bool-cases (ltb (length kept) rate)) [
    | inl room ↦ rw (room, slide_entry) (insert-lookup k _ m other)
    | inr full ↦ rw (full, slide_entry) (insert-lookup k _ m other)
  ]

  -- A call for another key leaves the entry as it is.
  check_sliding_window-other :
      (k : Text) (now : ℕ) (m : Map Text WindowEntry)
      → text_eq k key ≡ false
      → length m < max_keys
      → lookup key (check_sliding_window window rate max_keys k now m).0 ≡ lookup key m
  unfolding check_sliding_window fresh_window
  check_sliding_window-other k now m other room = elim (Option-cases (lookup k m)) [
    | inl absent ↦ rw (absent, check_sliding_window) (fresh-lookup k _ m other room)
    | inr (e, found) ↦ elim (Bool-cases (ltb (e.last_access + window) now)) [
      | inl over ↦ rw (found, check_sliding_window, over) (fresh-lookup k _ m other room)
      | inr live ↦ rw (found, check_sliding_window, live) (slide_entry-lookup k now _ m other)
    ]
  ]

  call_for-other :
      (k : Text) (now : ℕ) (m : Map Text WindowEntry) (log : List ℕ)
      → text_eq k key ≡ false
      → call_for k now (m, log) ≡ ((check_sliding_window window rate max_keys k now m).0, log)
  unfolding call_for
  call_for-other k now m log other = rw (other, call_for) refl

  -- The key has no entry and no call for it was allowed, or its entry holds those of its window.
  abbrev IsTracked : ℕ → Map Text WindowEntry × List ℕ → Type 0
  IsTracked last s =
      ((lookup key s.0 ≡ none) × (s.1 ≡ [])) ⊎ Tracks window rate max_keys key last s.0 s.1

  IsTracked-other :
      (k : Text) (now last : ℕ) (m : Map Text WindowEntry) (log : List ℕ)
      → text_eq k key ≡ false
      → length m < max_keys
      → IsTracked last (m, log)
      → IsTracked last (call_for k now (m, log))
  IsTracked-other k now last m log other room h =
      let same = check_sliding_window-other k now m other room in
      subst (IsTracked last) (sym (call_for-other k now m log other)) (elim h [
        | inl unseen ↦ inl (same ∙ unseen.0, unseen.1)
        | inr t ↦ inr (record {
          entry = t.entry;
          stored = same ∙ t.stored;
          accessed = t.accessed;
          stamps = t.stamps;
          quota = t.quota;
          past = t.past;
        })
      ])

  IsTracked-own :
      (now last : ℕ) (m : Map Text WindowEntry) (log : List ℕ)
      → 0 < rate
      → last ≤ now
      → IsTracked last (m, log)
      → Tracks window rate max_keys key now
          (call_for key now (m, log)).0
          (call_for key now (m, log)).1
  IsTracked-own now last m log p h s =
      subst (λ (x : Map Text WindowEntry × List ℕ). Tracks window rate max_keys key now x.0 x.1)
        (sym (call_for-own now m log))
        (elim s [
          | inl unseen ↦
              Tracks-renewed window rate max_keys key now m log p (inl unseen.0) (rw unseen.1 refl)
                (rw unseen.1 tt)
          | inr t ↦ Tracks-step window rate max_keys key last now m log p t h
        ])

  mixed_from :
      (last t : ℕ) (cs : List (Text × ℕ)) (s : Map Text WindowEntry × List ℕ)
      → 0 < rate
      → IsTracked last s
      → Ascending window rate max_keys key last (times_of cs)
      → last ≤ t
      → All (λ u. u ≤ t) (times_of cs)
      → HasRoom cs s
      → length (keep (recent window t) (mixed cs s).1) ≤ rate
  unfolding mixed
  mixed_from last t [] (m, log) p (inl (absent, empty)) a h below room = rw empty (omega arith)
  mixed_from last t [] (m, log) p (inr tracked) a h below room =
      Tracks-quota window rate max_keys key last t m log tracked h
  mixed_from last t ((k, now) ∷ cs) (m, log) p tracked a h below (here, room) =
      elim (Bool-cases (text_eq k key)) [
        | inl own ↦
            let e : k ≡ key = (text_eq_iff k key).0 own in
            let times : times_of ((k, now) ∷ cs) ≡ now ∷ times_of cs = rw own refl in
            let ascends = subst (Ascending window rate max_keys key last) times a in
            let under = subst (All (λ u. u ≤ t)) times below in
            let next =
              subst (λ (x : Text). IsTracked now (call_for x now (m, log))) (sym e)
                (inr (IsTracked-own now last m log p ascends.0 tracked)) in
            mixed_from now t cs (call_for k now (m, log)) p next ascends.1 under.0 under.1 room
        | inr other ↦
            let times : times_of ((k, now) ∷ cs) ≡ times_of cs = rw other refl in
            let free : length m < max_keys = elim here [
              | inl same ↦ absurd (ground (arith, (text_eq_iff k key).1 same))
              | inr space ↦ space
            ] in
            mixed_from last t cs (call_for k now (m, log)) p
              (IsTracked-other k now last m log other free tracked)
              (subst (Ascending window rate max_keys key last) times a) h
              (subst (All (λ u. u ≤ t)) times below) room
      ]

  -- The quota of the sliding window among calls for any keys: if the rate is at least 1, the key has no
  -- entry at first, the times of the calls for it do not go back, and the store is not full whenever a
  -- call for another key comes, then at no time `t` from its last call on are there more allowed calls
  -- for the key after `t - window` than the rate.
  pub mixed_quota :
      (t : ℕ) (cs : List (Text × ℕ)) (m : Map Text WindowEntry)
      → 0 < rate
      → lookup key m ≡ none
      → Ascending window rate max_keys key 0 (times_of cs)
      → All (λ u. u ≤ t) (times_of cs)
      → HasRoom cs (m, [])
      → length (keep (recent window t) (mixed cs (m, [])).1) ≤ rate
  mixed_quota t cs m p absent a below room =
      mixed_from 0 t cs (m, []) p (inl (absent, refl)) a (omega arith) below room
