-- ===== src/Sse/Hub/Broadcast.antt =====
-- The broadcasts of sse/hub.go.
use zerohttp.Prelude.{
  ℕ, ◌≡◌, refl, Bool, true, not, ◌&&◌, List, [], ◌∷◌, arith, nat_beq, nat_beq_iff, any, keep,
}
use zerohttp.Text.{Text}
use zerohttp.Map.{lookup}
use zerohttp.Sse.Hub.{
  Connections, Hub, unregister, subscribers, ids, drop_failed, broadcast, broadcast_to,
}
use zerohttp.Sse.Hub.Views.{
  IsValid, has, has_empty, is_registered, is_subscribed, hub-IsValid, hub-refines,
}

drop_failed_view :
    (failed : List ℕ) (j : ℕ) (u : Text) (h : Hub)
    → IsValid h
    → (is_registered j (drop_failed failed h) ≡ (not (any (nat_beq j) failed) && is_registered j h))
      × (is_subscribed u j (drop_failed failed h)
          ≡ (not (any (nat_beq j) failed) && is_subscribed u j h))
unfolding drop_failed
drop_failed_view [] j u h v = (refl, refl)
drop_failed_view (s ∷ failed) j u h v =
    let (more, subs) = drop_failed_view failed j u (unregister s h) ((hub-IsValid s u h v).2) in
    let (one, sub) = (hub-refines s j u u h v).3 in (ground arith, ground arith)

any-keep-ids :
    (fails : ℕ → Bool) (j : ℕ) (m : Connections)
    → any (nat_beq j) (keep fails (ids m)) ≡ (has j m && fails j)
unfolding has lookup
any-keep-ids fails j [] = refl
any-keep-ids fails j ((s, w) ∷ m) =
    let e : nat_beq s j ≡ true → s ≡ j = (nat_beq_iff s j).0 in
    ground (arith, any-keep-ids fails j m)

has-subscribers : (u : Text) (j : ℕ) (h : Hub) → has j (subscribers u h) ≡ is_subscribed u j h
unfolding is_subscribed subscribers
has-subscribers u j h = ground (arith, has_empty j)

-- A broadcast takes out the registered connections that fail, from every topic as well, and leaves
-- every other connection and subscription of a valid hub as it is; a broadcast to a topic does so
-- with the subscribers of the topic that fail.
pub broadcast-refines :
    (fails : ℕ → Bool) (j : ℕ) (topic u : Text) (h : Hub)
    → IsValid h
    → ((is_registered j (broadcast fails h)
          ≡ (not (is_registered j h && fails j) && is_registered j h))
        × (is_subscribed u j (broadcast fails h)
            ≡ (not (is_registered j h && fails j) && is_subscribed u j h)))
      × ((is_registered j (broadcast_to topic fails h)
            ≡ (not (is_subscribed topic j h && fails j) && is_registered j h))
          × (is_subscribed u j (broadcast_to topic fails h)
              ≡ (not (is_subscribed topic j h && fails j) && is_subscribed u j h)))
unfolding broadcast broadcast_to is_registered
broadcast-refines fails j topic u h v =
    let everyone = any-keep-ids fails j h.connections in
    let members = any-keep-ids fails j (subscribers topic h) in
    let same = has-subscribers topic j h in
    let (a, b) = drop_failed_view (keep fails (ids h.connections)) j u h v in
    let (c, d) = drop_failed_view (keep fails (ids (subscribers topic h))) j u h v in
    ((ground arith, ground arith), (ground arith, ground arith))
