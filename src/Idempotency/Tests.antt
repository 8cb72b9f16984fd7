-- ===== src/Idempotency/Tests.antt =====
-- Requests with one idempotency key at concrete stores.
use zerohttp.Prelude.{◌≤◌, ◌≡◌, refl, true, [], ◌∷◌, none, some, arith, if◌then◌else◌, length}
use zerohttp.Text.{Text, codes, text_eq}
use zerohttp.Map.{lookup, insert, delete}
use zerohttp.Idempotency.{
  Record, MemoryStore, new_memory_store, get_record, set_record, make_room, is_locked, lock, unlock,
  arrived, missed, running, finished, answered, World, thread_at, set_stage, is_stored, arrive,
  get_missed, lock_acquired, handler_ended, record_set, unlocked, Reachable, begin, then_step,
  cache_key,
}
use zerohttp.Idempotency.Exclusion.{count, holds, is_running, one_at_a_time}
use zerohttp.Idempotency.Bounded.{HasNames, set_record-bounded}

abbrev key : Text
key = codes "k"

abbrev done : Record
done = record { status_code = 201; headers = []; body = codes "ok" }

-- Both requests find nothing; the first then runs, is stored and releases its lock; the second acquires
-- the lock and runs the handler again.
abbrev w1 : World
w1 = record { shared = new_memory_store 10; threads = record { key = key; stage = arrived } ∷ [] }

reached : Reachable 60 3 w1
reached = then_step (begin 10) (arrive key (record { shared = new_memory_store 10; threads = [] }))

abbrev w2 : World
w2 = record {
  shared = new_memory_store 10;
  threads = record { key = key; stage = arrived } ∷ record { key = key; stage = arrived } ∷ [];
}

reached2 : Reachable 60 3 w2
reached2 = then_step reached (arrive key w1)

abbrev after_misses : World
after_misses = record w2 { threads = set_stage 1 missed (set_stage 0 missed w2.threads) }

both_missed : Reachable 60 3 after_misses
unfolding set_stage thread_at get_record new_memory_store lookup
both_missed =
    then_step (then_step reached2 (get_missed 0 1 key w2 refl refl))
      (get_missed 1 1 key (record w2 { threads = set_stage 0 missed w2.threads }) refl refl)

abbrev first_runs : World
first_runs = record {
  shared = (lock key after_misses.shared).0;
  threads = set_stage 0 running after_misses.threads;
}

first_running : Reachable 60 3 first_runs
unfolding set_stage thread_at lock is_locked new_memory_store lookup
first_running = then_step both_missed (lock_acquired 0 key after_misses refl refl)

one_at_a_time_example :
    (count holds key first_runs.threads ≡ (if is_locked key first_runs.shared then 1 else 0))
    × (count is_running key first_runs.threads ≤ (if is_locked key first_runs.shared then 1 else 0))
one_at_a_time_example = one_at_a_time 60 3 key first_running

abbrev stored : World
stored = record {
  shared = unlock key (set_record 2 key done 60 first_runs.shared);
  threads = set_stage 0 answered first_runs.threads;
}

first_done : Reachable 60 3 stored
unfolding set_stage thread_at is_stored unlock set_record lock is_locked new_memory_store lookup
first_done =
    let ended : World = record first_runs {
      threads = set_stage 0 (finished (some done)) first_runs.threads;
    } in
    let set_ : World = record {
      shared = set_record 2 key done 60 first_runs.shared;
      threads = set_stage 0 (finished none) ended.threads;
    } in
    then_step
      (then_step (then_step first_running (handler_ended 0 key true done first_runs refl))
        (record_set 0 2 key done ended refl))
      (unlocked 0 key set_ refl)

-- The record is there, and yet the second request may run the handler.
second_runs_again :
    Reachable 60 3
      (record { shared = (lock key stored.shared).0; threads = set_stage 1 running stored.threads })
    × (get_record 3 key stored.shared ≡ some done)
unfolding set_stage thread_at unlock set_record make_room lock is_locked new_memory_store lookup
    insert delete text_eq get_record
second_runs_again = (then_step first_done (lock_acquired 1 key stored refl refl), refl)

-- Two requests with different keys and paths have one key.
same_cache_key :
    cache_key (codes "k") (codes "POST") (codes "/x:POST:/y") (codes "h")
    ≡ cache_key (codes "k:POST:/x") (codes "POST") (codes "/y") (codes "h")
unfolding cache_key
same_cache_key = refl

abbrev full : MemoryStore
full = set_record 0 (codes "a") done 60 (new_memory_store 1)

named : HasNames full.entries
unfolding set_record make_room new_memory_store insert
named = ((λ e. cc), tt)

one_entry : length full.entries ≡ 1
unfolding set_record make_room new_memory_store insert
one_entry = refl

limit : full.max_keys ≡ 1
unfolding set_record new_memory_store
limit = refl

set_record-bounded_example : length (set_record 1 (codes "b") done 60 full).entries ≤ full.max_keys
set_record-bounded_example =
    set_record-bounded 1 60 (codes "b") done full (omega (arith, limit)) named
      (omega (arith, one_entry, limit))
