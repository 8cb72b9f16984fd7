-- ===== src/Sse/Replay/Missed.antt =====
-- What a client that comes back gets from sse/replayer.go.
use zerohttp.Prelude.{
  ℕ, zero, suc, ◌+◌, ◌-◌, ◌<◌, ◌≤◌, ◌≡◌, refl, sym, ap, ◌∙◌, ◌⊎◌, Bool, true, false, List, [], ◌∷◌,
  ◌++◌, All, arith, if◌then◌else◌, ltb, length, drop, keep, length-append, length-keep-le,
}
use zerohttp.Sse.Replay.Order.{GoUp, IsValid, GoUp-snoc, newest-drop, store-IsValid}
use zerohttp.Sse.Replay.{
  Stored, Replayer, unexpired, newest, store, send_all, events_of, snapshot, replay,
}

module _ {E : Type 0} where
  keep_above :
      (start low : ℕ) (es : List (Stored E))
      → GoUp low es
      → start ≤ low
      → keep (λ e. ltb start e.id) es ≡ es
  keep_above start low [] g h = refl
  keep_above start low (e ∷ es) (b, g) h =
      ground (arith, ap (λ x. e ∷ x) (keep_above start e.id es g (omega arith)))

  keep_none :
      (start : ℕ) (es : List (Stored E))
      → All (λ e. e.id ≤ start) es
      → keep (λ e. ltb start e.id) es ≡ []
  keep_none start [] a = refl
  keep_none start (e ∷ es) (a, as_) = ground (arith, keep_none start es as_)

  -- The events with an identity above the given one, which stay where older ones are dropped.
  keep-drop :
      (n low start : ℕ) (es : List (Stored E))
      → GoUp low es
      → length (keep (λ e. ltb start e.id) es) ≤ length es - n
      → keep (λ e. ltb start e.id) (drop n es) ≡ keep (λ e. ltb start e.id) es
  keep-drop zero low start es g h = refl
  keep-drop (suc n) low start [] g h = refl
  keep-drop (suc n) low start (e ∷ es) (b, g) h =
      ground (arith, keep-drop n e.id start es g, keep_above start e.id es g)

  keep_snoc :
      (start : ℕ) (es : List (Stored E)) (x : Stored E)
      → start < x.id
      → keep (λ e. ltb start e.id) (es ++ x ∷ []) ≡ keep (λ e. ltb start e.id) es ++ x ∷ []
  keep_snoc start [] x h = ground arith
  keep_snoc start (e ∷ es) x h = ground (arith, keep_snoc start es x h)

  -- The events above an identity.
  above : ℕ → Replayer E → List (Stored E)
  above start r = keep (λ e. ltb start e.id) r.events

  stored_at : ℕ → E → Replayer E → Stored E
  stored_at now event r = record { id = r.last_id + 1; event = event; timestamp = now }

  unexpired_zero : (ttl now : ℕ) (es : List (Stored E)) → ttl ≡ 0 → unexpired ttl now es ≡ es
  unfolding unexpired
  unexpired_zero ttl now es t = ground arith

  above-store :
      (start now : ℕ) (event : E) (r : Replayer E)
      → IsValid r
      → r.ttl ≡ 0
      → start ≤ r.last_id
      → (r.max_events ≡ 0) ⊎ (length (above start r) + 1 ≤ r.max_events)
      → above start (store now event r) ≡ above start r ++ stored_at now event r ∷ []
  unfolding above store stored_at
  above-store start now event r (g, a, w) t h room =
      let x = stored_at now event r in
      let xs = r.events ++ x ∷ [] in
      let everything = unexpired_zero r.ttl now r.events t in
      let up : GoUp 0 xs = GoUp-snoc 0 r.last_id r.events x g a (omega arith) (omega arith) in
      let snoc : above start (record r { events = xs }) ≡ above start r ++ x ∷ [] =
        keep_snoc start r.events x (omega arith) in
      let n = if ltb 0 r.max_events then length xs - r.max_events else 0 in
      let e = (newest-drop r.max_events xs).0 in
      let few : length (keep (λ e. ltb start e.id) xs) ≤ length xs - n = ground (
        arith,
        ap length snoc,
        length-append (above start r) (x ∷ []),
        length-keep-le (λ e. ltb start e.id) xs,
        room,
      ) in
      let same = keep-drop n 0 start xs up few in
      ap (λ l. keep (λ e. ltb start e.id) (newest r.max_events (l ++ x ∷ []))) everything
      ∙ ap (keep (λ e. ltb start e.id)) e
      ∙ same
      ∙ snoc

  -- Events stored one after the other.
  unfoldable pub store_all : List (ℕ × E) → Replayer E → Replayer E
  store_all [] r = r
  store_all ((now, event) ∷ es) r = store_all es (store now event r)

  abbrev pub payloads : List (ℕ × E) → List E
  payloads [] = []
  payloads ((now, event) ∷ es) = event ∷ payloads es

  events_of-snoc :
      (es : List (Stored E)) (x : Stored E)
      → events_of (es ++ x ∷ []) ≡ events_of es ++ x.event ∷ []
  events_of-snoc [] x = refl
  events_of-snoc (e ∷ es) x = ap (λ l. e.event ∷ l) (events_of-snoc es x)

  snoc_append : (xs : List E) (y : E) (ys : List E) → (xs ++ y ∷ []) ++ ys ≡ xs ++ y ∷ ys
  snoc_append [] y ys = refl
  snoc_append (x ∷ xs) y ys = ap (λ l. x ∷ l) (snoc_append xs y ys)

  append_nil : (xs : List E) → xs ++ [] ≡ xs
  append_nil [] = refl
  append_nil (x ∷ xs) = ap (λ l. x ∷ l) (append_nil xs)

  snapshot-store_all :
      (start : ℕ) (es : List (ℕ × E)) (r : Replayer E)
      → IsValid r
      → r.ttl ≡ 0
      → start ≤ r.last_id
      → (r.max_events ≡ 0) ⊎ (length (above start r) + length es ≤ r.max_events)
      → snapshot start (store_all es r) ≡ events_of (above start r) ++ payloads es
  unfolding store_all snapshot above store stored_at
  snapshot-store_all start [] r v t h room = sym (append_nil _)
  snapshot-store_all start ((now, event) ∷ es) r v t h room =
      let step = above-store start now event r v t h (ground (arith, room)) in
      let rest =
        snapshot-store_all start es (store now event r) (store-IsValid 0 0 now event r v).1 t
          (omega arith)
          (ground (
            arith,
            room,
            ap length step,
            length-append (above start r) (stored_at now event r ∷ []),
          )) in
      rest
      ∙ ap (λ l. events_of l ++ payloads es) step
      ∙ ap (λ l. l ++ payloads es) (events_of-snoc (above start r) (stored_at now event r))
      ∙ snoc_append (events_of (above start r)) event (payloads es)

  -- A function that notes the events that it is given, and fails for some.
  abbrev pub noting : (E → Bool) → E → List E → List E × Bool
  noting goes e log = (log ++ e ∷ [], goes e)

  -- The first of the events that are left, if any, fails.
  abbrev pub StopsAt : (E → Bool) → List E → Type 0
  StopsAt goes [] = Unit
  StopsAt goes (e ∷ es) = goes e ≡ false

  abbrev pub first_of : List E → List E
  first_of [] = []
  first_of (e ∷ es) = e ∷ []

  abbrev pub is_empty : List E → Bool
  is_empty [] = true
  is_empty (e ∷ es) = false

  send_all-noting :
      (goes : E → Bool) (before after log : List E)
      → All (λ e. goes e ≡ true) before
      → StopsAt goes after
      → send_all (noting goes) (before ++ after) log
        ≡ (log ++ (before ++ first_of after), (length before, is_empty after))
  unfolding send_all
  send_all-noting goes [] [] log h stop = ap (λ l. (l, (0, true))) (sym (append_nil log))
  send_all-noting goes [] (e ∷ after) log h stop = rw (stop, send_all) refl
  send_all-noting goes (x ∷ before) after log (h, hs) stop =
      let rest = send_all-noting goes before after (log ++ x ∷ []) hs stop in
      rw (h, rest, snoc_append log x (before ++ first_of after)) (ground arith)

  snapshot_missed :
      (es : List (ℕ × E)) (r : Replayer E)
      → IsValid r
      → r.ttl ≡ 0
      → (r.max_events ≡ 0) ⊎ (length es ≤ r.max_events)
      → snapshot r.last_id (store_all es r) ≡ payloads es
  unfolding above
  snapshot_missed es r v t room =
      let none_ : above r.last_id r ≡ [] = keep_none r.last_id r.events v.1 in
      snapshot-store_all r.last_id es r v t (omega arith) (ground (arith, none_, room))
      ∙ ap (λ l. events_of l ++ payloads es) none_

  -- A client that comes back with the last identity that a valid replayer gave misses nothing: where
  -- events do not expire and the events stored since are within the limit, or there is none, a replay
  -- hands these to the function that sends, in the order in which they were stored, up to and with the
  -- first one that fails, if any; it counts those before that one, and reports whether none failed.
  pub replay_missed :
      (es : List (ℕ × E)) (before after : List E) (goes : E → Bool) (log : List E) (r : Replayer E)
      → IsValid r
      → r.ttl ≡ 0
      → (r.max_events ≡ 0) ⊎ (length es ≤ r.max_events)
      → payloads es ≡ before ++ after
      → All (λ e. goes e ≡ true) before
      → StopsAt goes after
      → replay r.last_id (noting goes) (store_all es r) log
        ≡ (log ++ (before ++ first_of after), (length before, is_empty after))
  unfolding replay
  replay_missed es before after goes log r v t room split h stop =
      ap (λ l. send_all (noting goes) l log) (snapshot_missed es r v t room ∙ split)
      ∙ send_all-noting goes before after log h stop
