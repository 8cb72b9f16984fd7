-- ===== src/Idempotency.antt =====
-- middleware/idempotency: the MemoryStore of store.go, and the handler of idempotency.go from the
-- computed key on, as the steps of requests that run at the same time. A step is what runs under one lock
-- of the store, or the wrapped handler's end. Stores that fail and bodies over the limit are left out.
pub mod Exclusion
pub mod Bounded
pub mod Tests
use zerohttp.Prelude.{
  ℕ, zero, suc, ◌+◌, ◌≤◌, ◌<◌, ◌≡◌, Bool, true, false, ◌&&◌, ◌||◌, List, [], ◌∷◌, ◌++◌, Option,
  none, some, if◌then◌else◌, ltb, leb, length,
}
use zerohttp.Text.{Text, codes, text_eq}
use zerohttp.Map.{Map, lookup, insert, delete, text_keys}
use zerohttp.Http.{Headers, get}

-- The header fields are a flat list: a name, its value, the next name.
pub record Record : Type 0 where
  pub status_code : ℕ
  pub headers : List Text
  pub body : Text

pub record Entry : Type 0 where
  pub value : Record
  pub expiry : ℕ

pub record MemoryStore : Type 0 where
  pub entries : Map Text Entry
  -- No limit, or a negative one, is 0.
  pub max_keys : ℕ
  pub locks : Map {0, 0} Text Unit

unfoldable pub new_memory_store : ℕ → MemoryStore
new_memory_store max_keys = record { entries = []; max_keys = max_keys; locks = [] }

-- `Get`.
unfoldable pub get_record : (now : ℕ) → Text → MemoryStore → Option Record
get_record now key s = elim (lookup key s.entries) [
  | none ↦ none
  | some entry ↦ if ltb entry.expiry now then none else some entry.value
]

unfoldable pub remove_expired : (now : ℕ) → Map Text Entry → Map Text Entry
remove_expired now [] = []
remove_expired now ((key, entry) ∷ m) =
    let rest = remove_expired now m in if ltb entry.expiry now then rest else (key, entry) ∷ rest

-- The loop of `removeOldest`, with the key and the time so far.
unfoldable pub oldest_from : Text → ℕ → Map Text Entry → Text
oldest_from oldest_key oldest_expiry [] = oldest_key
oldest_from oldest_key oldest_expiry ((key, entry) ∷ m) =
    let older = oldest_from key entry.expiry m in
    let same = oldest_from oldest_key oldest_expiry m in
    if text_eq oldest_key [] || ltb entry.expiry oldest_expiry then older else same

unfoldable pub remove_oldest : Map Text Entry → Map Text Entry
remove_oldest m = if text_eq (oldest_from [] 0 m) [] then m else delete (oldest_from [] 0 m) m

-- `Set`: room is made, whether the key is there or not.
unfoldable pub make_room : (now max_keys : ℕ) → Map Text Entry → Map Text Entry
make_room now max_keys m =
    let kept = remove_expired now m in
    if ltb 0 max_keys && leb max_keys (length m)
    then if leb max_keys (length kept) then remove_oldest kept else kept
    else m

unfoldable pub set_record : (now : ℕ) → Text → Record → (ttl : ℕ) → MemoryStore → MemoryStore
set_record now key value ttl s = record s {
  entries =
      insert key (record { value = value; expiry = now + ttl })
        (make_room now s.max_keys s.entries);
}

unfoldable pub is_locked : Text → MemoryStore → Bool
is_locked key s = elim (lookup key s.locks) [ none ↦ false | some u ↦ true ]

-- `Lock`: the store after it, and whether the lock was acquired.
unfoldable pub lock : Text → MemoryStore → MemoryStore × Bool
lock key s =
    if is_locked key s then (s, false) else (record s { locks = insert key tt s.locks }, true)

unfoldable pub unlock : Text → MemoryStore → MemoryStore
unlock key s = record s { locks = delete key s.locks }

-- The key of a request, from its header, method, path and the hash of its body.
unfoldable pub cache_key : (idempotency_key method path body_hash : Text) → Text
cache_key idempotency_key method path body_hash =
    idempotency_key ++ ((b':' ∷ method) ++ ((b':' ∷ path) ++ (b':' ∷ body_hash)))

-- Where a request stands.
pub data Stage : Type 0 where
  -- Before the first Get.
  arrived : Stage
  -- Get has found nothing.
  missed : Stage
  -- The request holds the lock, and the wrapped handler runs.
  running : Stage
  -- The handler has ended; what is still to be stored.
  finished : Option Record → Stage
  -- Another request holds the lock; so many retries are over.
  waiting : (retries : ℕ) → Stage
  replayed : Record → Stage
  answered : Stage
  cancelled : Stage
  conflict : Stage

pub record Thread : Type 0 where
  pub key : Text
  pub stage : Stage

pub record World : Type 0 where
  pub shared : MemoryStore
  pub threads : List Thread

unfoldable pub thread_at : ℕ → List Thread → Option Thread
thread_at i [] = none
thread_at zero (t ∷ ts) = some t
thread_at (suc i) (t ∷ ts) = thread_at i ts

unfoldable pub set_stage : ℕ → Stage → List Thread → List Thread
set_stage i st [] = []
set_stage zero st (t ∷ ts) = record t { stage = st } ∷ ts
set_stage (suc i) st (t ∷ ts) = t ∷ set_stage i st ts

-- `recorder.HasWritten && recorder.Status >= 200 && recorder.Status < 300`.
unfoldable pub is_stored : Bool → ℕ → Bool
is_stored has_written status = has_written && (leb 200 status && ltb status 300)

module _ (ttl lock_max_retries : ℕ) where
  -- One step of one request, at a time `now` where the store is asked.
  pub data Step : World → World → Type 0 where
    arrive :
        (key : Text) (w : World)
        → Step w (record w { threads = w.threads ++ record { key = key; stage = arrived } ∷ [] })
    get_found :
        (i now : ℕ) (key : Text) (r : Record) (w : World)
        → thread_at i w.threads ≡ some (record { key = key; stage = arrived })
        → get_record now key w.shared ≡ some r
        → Step w (record w { threads = set_stage i (replayed r) w.threads })
    get_missed :
        (i now : ℕ) (key : Text) (w : World)
        → thread_at i w.threads ≡ some (record { key = key; stage = arrived })
        → get_record now key w.shared ≡ none
        → Step w (record w { threads = set_stage i missed w.threads })
    lock_acquired :
        (i : ℕ) (key : Text) (w : World)
        → thread_at i w.threads ≡ some (record { key = key; stage = missed })
        → (lock key w.shared).1 ≡ true
        → Step w
            (record { shared = (lock key w.shared).0; threads = set_stage i running w.threads })
    lock_refused :
        (i : ℕ) (key : Text) (w : World)
        → thread_at i w.threads ≡ some (record { key = key; stage = missed })
        → (lock key w.shared).1 ≡ false
        → Step w
            (record { shared = (lock key w.shared).0; threads = set_stage i (waiting 0) w.threads })
    -- The wrapped handler returns; a panic is a response that nothing was written to.
    handler_ended :
        (i : ℕ) (key : Text) (has_written : Bool) (r : Record) (w : World)
        → thread_at i w.threads ≡ some (record { key = key; stage = running })
        → Step w (record w {
          threads =
              set_stage i
                (finished (if is_stored has_written r.status_code then some r else none))
                w.threads;
        })
    record_set :
        (i now : ℕ) (key : Text) (r : Record) (w : World)
        → thread_at i w.threads ≡ some (record { key = key; stage = finished (some r) })
        → Step w (record {
          shared = set_record now key r ttl w.shared;
          threads = set_stage i (finished none) w.threads;
        })
    unlocked :
        (i : ℕ) (key : Text) (w : World)
        → thread_at i w.threads ≡ some (record { key = key; stage = finished none })
        → Step w (record { shared = unlock key w.shared; threads = set_stage i answered w.threads })
    retry_found :
        (i now retries : ℕ) (key : Text) (r : Record) (w : World)
        → thread_at i w.threads ≡ some (record { key = key; stage = waiting retries })
        → retries < lock_max_retries
        → get_record now key w.shared ≡ some r
        → Step w (record w { threads = set_stage i (replayed r) w.threads })
    retry_missed :
        (i now retries : ℕ) (key : Text) (w : World)
        → thread_at i w.threads ≡ some (record { key = key; stage = waiting retries })
        → retries < lock_max_retries
        → get_record now key w.shared ≡ none
        → Step w (record w { threads = set_stage i (waiting (retries + 1)) w.threads })
    context_done :
        (i retries : ℕ) (key : Text) (w : World)
        → thread_at i w.threads ≡ some (record { key = key; stage = waiting retries })
        → retries < lock_max_retries
        → Step w (record w { threads = set_stage i cancelled w.threads })
    retries_over :
        (i retries : ℕ) (key : Text) (w : World)
        → thread_at i w.threads ≡ some (record { key = key; stage = waiting retries })
        → lock_max_retries ≤ retries
        → Step w (record w { threads = set_stage i conflict w.threads })

  -- What a new store comes to, after any steps in any order.
  pub data Reachable : World → Type 0 where
    begin : (max_keys : ℕ) → Reachable (record { shared = new_memory_store max_keys; threads = [] })
    then_step : {w v : World} → Reachable w → Step w v → Reachable v
