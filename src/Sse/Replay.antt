-- ===== src/Sse/Replay.antt =====
-- sse/replayer.go: the type MemoryReplayer with its methods. The clock and the function that sends an
-- event, with the state that it changes, are arguments. Identities are numbers: their text in the events and the
-- header, and the error for one that is no number, are left out; Store returns the event with the
-- identity `last_id` of the new state. NewMemoryReplayer takes a negative limit for 0.
pub mod Order
pub mod Missed
pub mod Tests
use zerohttp.Prelude.{
  ℕ, ◌+◌, ◌-◌, ◌<◌, Bool, true, false, List, [], ◌∷◌, ◌++◌, Option, none, some, if◌then◌else◌, ltb,
  length, drop, keep,
}

-- An event, and the identity that Store gives it.
pub record Stored (E : Type 0) : Type 0 where
  pub id : ℕ
  pub event : E
  pub timestamp : ℕ

pub record Replayer (E : Type 0) : Type 0 where
  pub events : List (Stored E)
  pub max_events : ℕ
  pub ttl : ℕ
  pub last_id : ℕ

module _ {E : Type 0} where
  unfoldable pub new_replayer : ℕ → ℕ → Replayer E
  new_replayer max_events ttl = record {
    events = [];
    max_events = max_events;
    ttl = ttl;
    last_id = 0;
  }

  -- The events that have not expired; with no ttl all of them.
  unfoldable pub unexpired : ℕ → ℕ → List (Stored E) → List (Stored E)
  unexpired ttl now events =
      if ltb 0 ttl then keep (λ e. ltb now (e.timestamp + ttl)) events else events

  -- The newest events within the limit; with no limit all of them.
  unfoldable pub newest : ℕ → List (Stored E) → List (Stored E)
  newest max events =
      if ltb 0 max
      then (if ltb max (length events) then drop (length events - max) events else events)
      else events

  unfoldable pub store : ℕ → E → Replayer E → Replayer E
  store now event r =
      let id = r.last_id + 1 in
      record r {
        events = newest r.max_events (
            unexpired r.ttl now r.events
            ++ record { id = id; event = event; timestamp = now } ∷ []);
        last_id = id;
      }

  -- The loop that sends, which stops at the first failure: how many events were sent, and whether none
  -- failed. Sending an event changes the state that the function keeps.
  unfoldable pub send_all : {S : Type 0} → (E → S → S × Bool) → List E → S → S × (ℕ × Bool)
  send_all send [] s = (s, (0, true))
  send_all send (e ∷ es) s =
      let (t, sent) = send e s in
      let (u, counted) = send_all send es t in
      if sent then (u, (counted.0 + 1, counted.1)) else (t, (0, false))

  abbrev pub events_of : List (Stored E) → List E
  events_of [] = []
  events_of (e ∷ es) = e.event ∷ events_of es

  -- The events after an identity.
  unfoldable pub snapshot : ℕ → Replayer E → List E
  snapshot start r = events_of (keep (λ e. ltb start e.id) r.events)

  unfoldable pub replay : {S : Type 0} → ℕ → (E → S → S × Bool) → Replayer E → S → S × (ℕ × Bool)
  replay start send r s = send_all send (snapshot start r) s
