-- ===== src/Sse/Hub.antt =====
-- sse/hub.go: the type Hub with its methods. A connection is a number, its identity. What one
-- broadcast sends on a connection fails or not: the function `fails` is an argument. That a
-- connection taken out is closed is left out.
pub mod Views
pub mod Broadcast
pub mod Tests
use zerohttp.Prelude.{
  ℕ, Bool, true, false, List, [], ◌∷◌, Option, none, some, if◌then◌else◌, length, keep,
}
use zerohttp.Text.{Text}
use zerohttp.Map.{Map, lookup, insert, delete, text_keys, nat_keys}

abbrev pub Connections : Type 0
Connections = Map ℕ Unit

pub record Hub : Type 0 where
  pub connections : Connections
  pub topics : Map Text Connections

unfoldable pub new_hub : Hub
new_hub = record { connections = []; topics = [] }

unfoldable pub register : ℕ → Hub → Hub
register s h = record h { connections = insert s tt h.connections }

abbrev pub is_none_left : Connections → Bool
is_none_left [] = true
is_none_left (c ∷ cs) = false

-- The loop of `Unregister` over the topics.
unfoldable pub leave_topics : ℕ → Map Text Connections → Map Text Connections
leave_topics s [] = []
leave_topics s ((topic, subs) ∷ m) =
    let rest = leave_topics s m in
    if is_none_left (delete s subs) then rest else (topic, delete s subs) ∷ rest

unfoldable pub unregister : ℕ → Hub → Hub
unregister s h = record h { connections = delete s h.connections; topics = leave_topics s h.topics }

-- `h.topics[topic]`, which is empty for a topic that is not there.
unfoldable pub subscribers : Text → Hub → Connections
subscribers topic h = elim (lookup topic h.topics) [ none ↦ [] | some subs ↦ subs ]

unfoldable pub subscribe : ℕ → Text → Hub → Hub
subscribe s topic h = record h {
  topics = insert topic (insert s tt (subscribers topic h)) h.topics;
}

unfoldable pub unsubscribe : ℕ → Text → Hub → Hub
unsubscribe s topic h = elim (lookup topic h.topics) [
  | none ↦ h
  | some subs ↦
      if is_none_left (delete s subs)
      then record h { topics = delete topic h.topics }
      else record h { topics = insert topic (delete s subs) h.topics }
]

abbrev pub ids : Connections → List ℕ
ids [] = []
ids ((s, _) ∷ m) = s ∷ ids m

-- The loop over the connections that failed.
unfoldable pub drop_failed : List ℕ → Hub → Hub
drop_failed [] h = h
drop_failed (s ∷ failed) h = drop_failed failed (unregister s h)

-- `Broadcast` and `BroadcastTo` with nothing between the snapshot and the removal.
unfoldable pub broadcast : (ℕ → Bool) → Hub → Hub
broadcast fails h = drop_failed (keep fails (ids h.connections)) h

unfoldable pub broadcast_to : Text → (ℕ → Bool) → Hub → Hub
broadcast_to topic fails h = drop_failed (keep fails (ids (subscribers topic h))) h

unfoldable pub connection_count : Hub → ℕ
connection_count h = length h.connections

unfoldable pub topic_count : Text → Hub → ℕ
topic_count topic h = length (subscribers topic h)
