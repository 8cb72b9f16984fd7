-- ===== src/Limit/Sliding.antt =====
-- The sliding window of middleware/ratelimit/store.go.
use zerohttp.Prelude.{
  ◌∙◌, ℕ, suc, ◌+◌, ◌≤◌, ◌<◌, ◌≡◌, refl, ap, sym, ◌⊎◌, inl, inr, Bool, true, false, List, [], ◌∷◌,
  ◌++◌, Option, none, some, arith, ltb, Bool-cases, All, All-append, length, if◌then◌else◌, keep,
  length-append, length-keep-le, keep-append,
}
use zerohttp.Prelude.Int.{pos, ◌-ℤ◌}
use zerohttp.Text.{Text}
use zerohttp.Text.Laws.{text_eq_refl}
use zerohttp.Map.{Map, lookup, insert, text_keys, lookup-insert}
use zerohttp.Limit.{WindowEntry, Answer, check_sliding_window, slide_entry, make_room, recent}

module _ (window rate max_keys : ℕ) (key : Text) where
  keep-recent :
      (then' now : ℕ) (xs : List ℕ)
      → then' ≤ now
      → keep (recent window now) (keep (recent window then') xs) ≡ keep (recent window now) xs
  keep-recent then' now [] h = refl
  keep-recent then' now (x ∷ xs) h = ground (arith, keep-recent then' now xs h)

  abbrev pub was_allowed : Option Answer → Bool
  was_allowed none = false
  was_allowed (some a) = a.0

  -- The calls for one key at the given times: the map afterwards, and the times that were allowed,
  -- after those of earlier calls.
  unfoldable pub slide : List ℕ → Map Text WindowEntry × List ℕ → Map Text WindowEntry × List ℕ
  slide [] s = s
  slide (now ∷ times) (m, log) =
      let (next, answer) = check_sliding_window window rate max_keys key now m in
      slide times (next, if was_allowed answer then log ++ now ∷ [] else log)

  -- The entry holds the allowed times that are still in the window of its last access.
  pub record Tracks (last : ℕ) (m : Map Text WindowEntry) (log : List ℕ) : Type 0 where
    pub entry : WindowEntry
    pub stored : lookup key m ≡ some entry
    pub accessed : entry.last_access ≡ last
    pub stamps : keep (recent window last) entry.timestamps ≡ keep (recent window last) log
    pub quota : length entry.timestamps ≤ rate
    pub past : All (λ t. t ≤ last) log

  stored_self : (e : WindowEntry) (m : Map Text WindowEntry) → lookup key (insert key e m) ≡ some e
  stored_self e m = rw (lookup-insert, text_eq_refl key)

  renewed :
      (now : ℕ) (m : Map Text WindowEntry)
      → (lookup key m ≡ none)
        ⊎ ((e : WindowEntry) × (lookup key m ≡ some e) × (e.last_access + window < now))
      → check_sliding_window window rate max_keys key now m ≡ (
        insert key
            (record { timestamps = now ∷ []; last_access = now })
            (make_room (λ e. e.last_access) max_keys key m),
        some (true, pos rate -ℤ pos 1, now + window),
      )
  unfolding check_sliding_window
  renewed now m (inl absent) = rw (absent, check_sliding_window)
  renewed now m (inr (e, found, over)) =
      let expired : ltb (e.last_access + window) now ≡ true = ground arith in
      rw (found, check_sliding_window, expired)

  went_on :
      (now : ℕ) (m : Map Text WindowEntry) (e : WindowEntry)
      → lookup key m ≡ some e
      → now ≤ e.last_access + window
      → check_sliding_window window rate max_keys key now m
        ≡ slide_entry window rate max_keys key now (keep (recent window now) e.timestamps) m
  unfolding check_sliding_window
  went_on now m e found h =
      let live : ltb (e.last_access + window) now ≡ false = ground arith in
      rw (found, check_sliding_window, live)

  keep_past :
      (last now : ℕ) (log : List ℕ)
      → last + window < now
      → All (λ t. t ≤ last) log
      → keep (recent window now) log ≡ []
  keep_past last now [] h past = refl
  keep_past last now (t ∷ log) h past = ground (arith, keep_past last now log h past.1)

  All-weaken :
      (last now : ℕ) (log : List ℕ) → last ≤ now → All (λ t. t ≤ last) log → All (λ t. t ≤ now) log
  All-weaken last now [] h past = tt
  All-weaken last now (t ∷ log) h (p, past) = (omega arith, All-weaken last now log h past)

  past_now :
      (last now : ℕ) (log : List ℕ)
      → last ≤ now
      → All (λ t. t ≤ last) log
      → All (λ t. t ≤ now) (log ++ now ∷ [])
  past_now last now log h past =
      All-append (λ t. t ≤ now) log (now ∷ []) (All-weaken last now log h past) (omega arith, tt)

  -- One call of the loop.
  abbrev pub after : ℕ → Map Text WindowEntry → List ℕ → Map Text WindowEntry × List ℕ
  after now m log = (
    (check_sliding_window window rate max_keys key now m).0,
    if was_allowed (check_sliding_window window rate max_keys key now m).1
        then log ++ now ∷ []
        else log,
  )

  pub Tracks-renewed :
      (now : ℕ) (m : Map Text WindowEntry) (log : List ℕ)
      → 0 < rate
      → (lookup key m ≡ none)
        ⊎ ((e : WindowEntry) × (lookup key m ≡ some e) × (e.last_access + window < now))
      → keep (recent window now) log ≡ []
      → All (λ t. t ≤ now) log
      → Tracks now (after now m log).0 (after now m log).1
  Tracks-renewed now m log p over gone past = rw (renewed now m over) (record {
    entry = record { timestamps = now ∷ []; last_access = now };
    stored = stored_self _ _;
    accessed = refl;
    stamps = rw (keep-append (recent window now) log (now ∷ []), gone);
    quota = p;
    past = past_now now now log (omega arith) past;
  })

  abbrev entry_with : ℕ → List ℕ → WindowEntry
  entry_with now stamps = record { timestamps = stamps; last_access = now }

  with_room :
      (now : ℕ) (kept : List ℕ) (m : Map Text WindowEntry)
      → length kept < rate
      → ((slide_entry window rate max_keys key now kept m).0
          ≡ insert key (entry_with now (kept ++ now ∷ [])) m)
        × (was_allowed (slide_entry window rate max_keys key now kept m).1 ≡ true)
  unfolding slide_entry
  with_room now [] m h = let room : ltb 0 rate ≡ true = ground arith in rw room (refl, refl)
  with_room now (k ∷ kept) m h =
      let room : ltb (suc (length kept)) rate ≡ true = ground arith in rw room (refl, refl)

  with_no_room :
      (now : ℕ) (kept : List ℕ) (m : Map Text WindowEntry)
      → rate ≤ length kept
      → ((slide_entry window rate max_keys key now kept m).0 ≡ insert key (entry_with now kept) m)
        × (was_allowed (slide_entry window rate max_keys key now kept m).1 ≡ false)
  unfolding slide_entry
  with_no_room now [] m h = let full : ltb 0 rate ≡ false = ground arith in rw full (refl, refl)
  with_no_room now (k ∷ kept) m h =
      let full : ltb (suc (length kept)) rate ≡ false = ground arith in rw full (refl, refl)

  -- What is kept of the entry is what is recent of the log.
  kept_recent :
      (last now : ℕ) (stamps log : List ℕ)
      → last ≤ now
      → keep (recent window last) stamps ≡ keep (recent window last) log
      → keep (recent window now) stamps ≡ keep (recent window now) log
  kept_recent last now stamps log h same =
      sym (keep-recent last now stamps h)
      ∙ ap (keep (recent window now)) same
      ∙ keep-recent last now log h

  Tracks-went_on :
      (last now : ℕ) (m : Map Text WindowEntry) (log : List ℕ)
      → (t : Tracks last m log) → last ≤ now
      → now ≤ last + window
      → Tracks now (after now m log).0 (after now m log).1
  Tracks-went_on last now m log t h live =
      let kept = keep (recent window now) t.entry.timestamps in
      let same : keep (recent window now) kept ≡ keep (recent window now) log =
        keep-recent now now t.entry.timestamps (omega arith)
        ∙ kept_recent last now t.entry.timestamps log h t.stamps in
      let goes = went_on now m t.entry t.stored (ground (arith, t.accessed)) in
      elim (Bool-cases (ltb (length kept) rate)) [
        | inl room ↦
            let (next, yes_) = with_room now kept m (ground arith) in
            rw (goes, next, yes_)
              (record {
                entry = entry_with now (kept ++ now ∷ []);
                stored = stored_self _ _;
                accessed = refl;
                stamps = rw (
                  keep-append (recent window now) kept (now ∷ []),
                  keep-append (recent window now) log (now ∷ []),
                  same,
                );
                quota = ground (arith, length-append kept (now ∷ []));
                past = past_now last now log h t.past;
              })
        | inr full ↦
            let (next, no_) = with_no_room now kept m (ground arith) in
            rw (goes, next, no_)
              (record {
                entry = entry_with now kept;
                stored = stored_self _ _;
                accessed = refl;
                stamps = same;
                quota =
                    ground (arith, length-keep-le (recent window now) t.entry.timestamps, t.quota);
                past = All-weaken last now log h t.past;
              })
      ]

  pub Tracks-step :
      (last now : ℕ) (m : Map Text WindowEntry) (log : List ℕ)
      → 0 < rate
      → Tracks last m log
      → last ≤ now
      → Tracks now (after now m log).0 (after now m log).1
  Tracks-step last now m log p t h = elim (Bool-cases (ltb (last + window) now)) [
    | inl over ↦
        Tracks-renewed now m log p (inr (t.entry, t.stored, ground (arith, t.accessed)))
          (keep_past last now log (ground arith) t.past) (All-weaken last now log h t.past)
    | inr live ↦ Tracks-went_on last now m log t h (ground arith)
  ]

  -- Times that do not go back.
  abbrev pub Ascending : ℕ → List ℕ → Type 0
  Ascending last [] = Unit
  Ascending last (now ∷ times) = (last ≤ now) × Ascending now times

  pub Tracks-quota :
      (last t : ℕ) (m : Map Text WindowEntry) (log : List ℕ)
      → Tracks last m log
      → last ≤ t
      → length (keep (recent window t) log) ≤ rate
  Tracks-quota last t m log r h =
      rw (← kept_recent last t r.entry.timestamps log h r.stamps)
        (ground (arith, length-keep-le (recent window t) r.entry.timestamps, r.quota))

  slide_from :
      (last t : ℕ) (times : List ℕ) (m : Map Text WindowEntry) (log : List ℕ)
      → 0 < rate
      → Tracks last m log
      → Ascending last times
      → last ≤ t
      → All (λ now. now ≤ t) times
      → length (keep (recent window t) (slide times (m, log)).1) ≤ rate
  unfolding slide
  slide_from last t [] m log p r a h below = Tracks-quota last t m log r h
  slide_from last t (now ∷ times) m log p r a h below =
      slide_from now t times (after now m log).0 (after now m log).1 p
        (Tracks-step last now m log p r a.0) a.1 below.0 below.1

  pub slide_quota :
      (now t : ℕ) (times : List ℕ) (m : Map Text WindowEntry)
      → 0 < rate
      → lookup key m ≡ none
      → Ascending now times
      → All (λ u. u ≤ t) (now ∷ times)
      → length (keep (recent window t) (slide (now ∷ times) (m, [])).1) ≤ rate
  unfolding slide
  slide_quota now t times m p absent a below =
      slide_from now t times (after now m []).0 (after now m []).1 p
        (Tracks-renewed now m [] p (inl absent) refl tt) a below.0 below.1
