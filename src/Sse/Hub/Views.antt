-- ===== src/Sse/Hub/Views.antt =====
-- What the hub of sse/hub.go knows: who is registered, and who is subscribed to which topic.
use zerohttp.Prelude.{
  ℕ, ◌≡◌, refl, Bool, true, false, not, ◌&&◌, ◌||◌, [], ◌∷◌, Option, none, some, arith,
  if◌then◌else◌, nat_beq, Bool-cases, Option-cases, inl, inr,
}
use zerohttp.Text.{Text, text_eq}
use zerohttp.Text.Laws.{text_eq_iff}
use zerohttp.Map.{Map, lookup, insert, delete, text_keys, nat_keys, lookup-insert, lookup-delete}
use zerohttp.Sse.Hub.{
  Connections, Hub, register, is_none_left, leave_topics, unregister, subscribers, subscribe,
  unsubscribe, new_hub,
}

unfoldable pub has : ℕ → Connections → Bool
has s m = elim (lookup s m) [ none ↦ false | some _ ↦ true ]

-- The view of a hub.
unfoldable pub is_registered : ℕ → Hub → Bool
is_registered s h = has s h.connections

abbrev pub has_in : ℕ → Option Connections → Bool
has_in s none = false
has_in s (some subs) = has s subs

unfoldable pub is_subscribed : Text → ℕ → Hub → Bool
is_subscribed topic s h = has_in s (lookup topic h.topics)

-- A topic is there once, and has a subscriber.
abbrev pub AreTopics : Map Text Connections → Type 0
AreTopics [] = Unit
AreTopics ((topic, subs) ∷ m) = (lookup topic m ≡ none) × (is_none_left subs ≡ false) × AreTopics m

abbrev pub IsValid : Hub → Type 0
IsValid h = AreTopics h.topics

has-insert : (s j : ℕ) (m : Connections) → has j (insert s tt m) ≡ (nat_beq s j || has j m)
unfolding has
has-insert s j m = ground (arith, lookup-insert s j tt m)

has-delete : (s j : ℕ) (m : Connections) → has j (delete s m) ≡ (not (nat_beq s j) && has j m)
unfolding has
has-delete s j m = ground (arith, lookup-delete s j m)

-- The topic after a connection has left it.
abbrev left_topic : ℕ → Option Connections → Option Connections
left_topic s none = none
left_topic s (some subs) = if is_none_left (delete s subs) then none else some (delete s subs)

lookup-leave_topics :
    (s : ℕ) (topic : Text) (m : Map Text Connections)
    → AreTopics m
    → lookup topic (leave_topics s m) ≡ left_topic s (lookup topic m)
unfolding lookup leave_topics
lookup-leave_topics s topic [] v = refl
lookup-leave_topics s topic ((t, subs) ∷ m) (once, full, v) =
    ground (arith, lookup-leave_topics s topic m v, text_eq_iff t topic, text_eq_iff topic t)

leave_topics-AreTopics :
    (s : ℕ) (m : Map Text Connections) → AreTopics m → AreTopics (leave_topics s m)
unfolding leave_topics
leave_topics-AreTopics s [] v = tt
leave_topics-AreTopics s ((t, subs) ∷ m) (once, full, v) =
    elim (Bool-cases (is_none_left (delete s subs))) [
      | inl empty ↦ rw empty (leave_topics-AreTopics s m v)
      | inr some_left ↦
          rw some_left
            (ground (arith, lookup-leave_topics s t m v), some_left, leave_topics-AreTopics s m v)
    ]

insert-AreTopics :
    (topic : Text) (subs : Connections) (m : Map Text Connections)
    → is_none_left subs ≡ false
    → AreTopics m
    → AreTopics (insert topic subs m)
unfolding insert lookup
insert-AreTopics topic subs [] n v = (refl, n, tt)
insert-AreTopics topic subs ((t, w) ∷ m) n (once, full, v) = elim (Bool-cases (text_eq t topic)) [
  | inl same ↦ rw same (ground (arith, text_eq_iff t topic), n, v)
  | inr other ↦ rw other (
    ground (arith, lookup-insert topic t subs m, text_eq_iff topic t, text_eq_iff t topic),
    full,
    insert-AreTopics topic subs m n v,
  )
]

delete-AreTopics :
    (topic : Text) (m : Map Text Connections) → AreTopics m → AreTopics (delete topic m)
unfolding delete
delete-AreTopics topic [] v = tt
delete-AreTopics topic ((t, w) ∷ m) (once, full, v) = elim (Bool-cases (text_eq t topic)) [
  | inl same ↦ rw same (delete-AreTopics topic m v)
  | inr other ↦ rw other (ground (arith, lookup-delete topic t m), full, delete-AreTopics topic m v)
]

insert_full : (s : ℕ) (m : Connections) → is_none_left (insert s tt m) ≡ false
unfolding insert
insert_full s [] = refl
insert_full s ((j, w) ∷ m) = ground arith

unsubscribe-IsValid : (s : ℕ) (topic : Text) (h : Hub) → IsValid h → IsValid (unsubscribe s topic h)
unfolding unsubscribe
unsubscribe-IsValid s topic h v = elim (Option-cases (lookup topic h.topics)) [
  | inl none_ ↦ rw (none_, unsubscribe) v
  | inr (subs, found) ↦ elim (Bool-cases (is_none_left (delete s subs))) [
    | inl empty ↦ rw (found, unsubscribe, empty) (delete-AreTopics topic h.topics v)
    | inr full ↦ rw (found, unsubscribe, full) (insert-AreTopics topic _ h.topics full v)
  ]
]

-- A new hub is valid, and every operation keeps a hub valid: each topic is there once and has a
-- subscriber.
pub hub-IsValid :
    (s : ℕ) (topic : Text) (h : Hub)
    → IsValid h
    → IsValid new_hub
      × IsValid (register s h)
      × IsValid (unregister s h)
      × IsValid (subscribe s topic h)
      × IsValid (unsubscribe s topic h)
unfolding new_hub register unregister subscribe
hub-IsValid s topic h v = (
  tt,
  v,
  leave_topics-AreTopics s h.topics v,
  insert-AreTopics topic _ h.topics (insert_full s (subscribers topic h)) v,
  unsubscribe-IsValid s topic h v,
)

pub has_none : (j : ℕ) (m : Connections) → is_none_left m ≡ true → has j m ≡ false
unfolding has lookup
has_none j [] h = refl
has_none j (x ∷ m) h = cc

unregister_view :
    (s j : ℕ) (u : Text) (h : Hub)
    → IsValid h
    → is_subscribed u j (unregister s h) ≡ (not (nat_beq s j) && is_subscribed u j h)
unfolding is_subscribed unregister
unregister_view s j u h v = elim (Option-cases (lookup u h.topics)) [
  | inl none_ ↦ ground (arith, lookup-leave_topics s u h.topics v)
  | inr (subs, found) ↦
      ground
        (arith, lookup-leave_topics s u h.topics v, has-delete s j subs, has_none j (delete s subs))
]

unsubscribe_view :
    (s j : ℕ) (topic u : Text) (h : Hub)
    → is_subscribed u j (unsubscribe s topic h)
      ≡ (not (text_eq topic u && nat_beq s j) && is_subscribed u j h)
unfolding is_subscribed unsubscribe
unsubscribe_view s j topic u h = elim (Option-cases (lookup topic h.topics)) [
  | inl none_ ↦ ground (arith, text_eq_iff topic u)
  | inr (subs, found) ↦ ground (
    arith,
    text_eq_iff topic u,
    lookup-delete topic u h.topics,
    lookup-insert topic u (delete s subs) h.topics,
    has-delete s j subs,
    has_none j (delete s subs),
  )
]

pub has_empty : (j : ℕ) → has j [] ≡ false
unfolding has lookup
has_empty j = refl

subscribe_view :
    (s j : ℕ) (topic u : Text) (h : Hub)
    → is_subscribed u j (subscribe s topic h)
      ≡ (text_eq topic u && nat_beq s j || is_subscribed u j h)
unfolding is_subscribed subscribe subscribers
subscribe_view s j topic u h = ground (
  arith,
  text_eq_iff topic u,
  lookup-insert topic u (insert s tt (subscribers topic h)) h.topics,
  has-insert s j (subscribers topic h),
  has_empty j,
)

-- The hub as who is registered and who is subscribed to what, for a valid hub: `Register` adds the
-- connection, `Subscribe` adds it to the topic, `Unsubscribe` takes it from the topic, and
-- `Unregister` takes it out and from every topic; nothing else changes.
pub hub-refines :
    (s j : ℕ) (topic u : Text) (h : Hub)
    → IsValid h
    → ((is_registered j (register s h) ≡ (nat_beq s j || is_registered j h))
        × (is_subscribed u j (register s h) ≡ is_subscribed u j h))
      × ((is_registered j (subscribe s topic h) ≡ is_registered j h)
          × (is_subscribed u j (subscribe s topic h)
              ≡ (text_eq topic u && nat_beq s j || is_subscribed u j h)))
      × ((is_registered j (unsubscribe s topic h) ≡ is_registered j h)
          × (is_subscribed u j (unsubscribe s topic h)
              ≡ (not (text_eq topic u && nat_beq s j) && is_subscribed u j h)))
      × ((is_registered j (unregister s h) ≡ (not (nat_beq s j) && is_registered j h))
          × (is_subscribed u j (unregister s h) ≡ (not (nat_beq s j) && is_subscribed u j h)))
unfolding is_registered register subscribe unsubscribe unregister is_subscribed
hub-refines s j topic u h v = (
  (has-insert s j h.connections, refl),
  (refl, subscribe_view s j topic u h),
  (ground arith, unsubscribe_view s j topic u h),
  (has-delete s j h.connections, unregister_view s j u h v),
)
