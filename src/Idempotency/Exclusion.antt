-- ===== src/Idempotency/Exclusion.antt =====
-- The locks of middleware/idempotency while requests run in any order.
use zerohttp.Prelude.{
  ℕ, zero, suc, ◌+◌, ◌≤◌, ◌≡◌, refl, ◌∙◌, Bool, true, false, ◌&&◌, List, [], ◌∷◌, ◌++◌, none, some,
  if◌then◌else◌, arith,
}
use zerohttp.Text.{Text, text_eq}
use zerohttp.Text.Laws.{text_eq_iff}
use zerohttp.Map.{lookup, text_keys, lookup-insert, lookup-delete}
use zerohttp.Idempotency.{
  MemoryStore, new_memory_store, set_record, is_locked, lock, unlock, Stage, arrived, missed,
  running, finished, waiting, replayed, answered, cancelled, conflict, Thread, World, thread_at,
  set_stage, Step, arrive, get_found, get_missed, lock_acquired, lock_refused, handler_ended,
  record_set, unlocked, retry_found, retry_missed, context_done, retries_over, Reachable, begin,
  then_step, is_stored,
}

-- From the acquisition of the lock to its release.
abbrev pub holds : Stage → Bool
holds running = true
holds (finished r) = true
holds _ = false

abbrev pub is_running : Stage → Bool
is_running running = true
is_running _ = false

module _ (test : Stage → Bool) where
  -- How many requests with the key are at such a stage.
  abbrev pub at_stage : Text → Thread → ℕ
  at_stage key t = if text_eq key t.key && test t.stage then 1 else 0

  abbrev pub count : Text → List Thread → ℕ
  count key [] = 0
  count key (t ∷ ts) = at_stage key t + count key ts

  count-append :
      (key : Text) (ts : List Thread) (t : Thread)
      → count key (ts ++ t ∷ []) ≡ count key ts + at_stage key t
  count-append key [] t = omega arith
  count-append key (u ∷ ts) t = omega (arith, count-append key ts t)

  count-set_stage :
      (key : Text) (i : ℕ) (st : Stage) (t : Thread) (ts : List Thread)
      → thread_at i ts ≡ some t
      → count key (set_stage i st ts) + at_stage key t
        ≡ count key ts + at_stage key (record t { stage = st })
  unfolding thread_at set_stage
  count-set_stage key i st t [] h = cc
  count-set_stage key zero st t (u ∷ ts) h =
      let same : u ≡ t = ground arith in rw same (omega arith)
  count-set_stage key (suc i) st t (u ∷ ts) h = omega (arith, count-set_stage key i st t ts h)

-- Each lock is held by one request, and each holder has a lock.
abbrev IsExclusive : World → Type 0
IsExclusive w = (key : Text) → count holds key w.threads ≡ (if is_locked key w.shared then 1 else 0)

-- A step between two stages that both hold the lock or both do not.
keep-IsExclusive :
    (i : ℕ) (st : Stage) (t : Thread) (w : World) (s : MemoryStore)
    → thread_at i w.threads ≡ some t
    → holds st ≡ holds t.stage
    → s.locks ≡ w.shared.locks
    → IsExclusive w
    → IsExclusive (record { shared = s; threads = set_stage i st w.threads })
unfolding is_locked
keep-IsExclusive i st t w s at same locks h key =
    let counted = count-set_stage holds key i st t w.threads at in
    let before = h key in ground arith

lock-IsExclusive :
    (i : ℕ) (key : Text) (w : World)
    → thread_at i w.threads ≡ some (record { key = key; stage = missed })
    → (lock key w.shared).1 ≡ true
    → IsExclusive w
    → IsExclusive
        (record { shared = (lock key w.shared).0; threads = set_stage i running w.threads })
unfolding lock is_locked
lock-IsExclusive i key w at won h other =
    let counted =
      count-set_stage holds other i running (record { key = key; stage = missed }) w.threads at in
    ground (
      arith,
      h other,
      h key,
      lookup-insert key other tt w.shared.locks,
      text_eq_iff key other,
      text_eq_iff other key,
    )

unlock-IsExclusive :
    (i : ℕ) (key : Text) (w : World)
    → thread_at i w.threads ≡ some (record { key = key; stage = finished none })
    → IsExclusive w
    → IsExclusive
        (record { shared = unlock key w.shared; threads = set_stage i answered w.threads })
unfolding unlock is_locked
unlock-IsExclusive i key w at h other =
    let counted =
      count-set_stage holds other i answered (record { key = key; stage = finished none }) w.threads
        at in
    ground (
      arith,
      h other,
      h key,
      lookup-delete key other w.shared.locks,
      text_eq_iff key other,
      text_eq_iff other key,
    )

lock-refused :
    (key : Text) (s : MemoryStore) → (lock key s).1 ≡ false → (lock key s).0.locks ≡ s.locks
unfolding lock
lock-refused key s h = ground arith

running_holds : (st : Stage) → is_running st ≡ true → holds st ≡ true
running_holds running h = refl
running_holds arrived h = cc
running_holds missed h = cc
running_holds (finished r) h = refl
running_holds (waiting n) h = cc
running_holds (replayed r) h = cc
running_holds answered h = cc
running_holds cancelled h = cc
running_holds conflict h = cc

module _ (ttl lock_max_retries : ℕ) where
  Step-IsExclusive : {w v : World} → Step ttl lock_max_retries w v → IsExclusive w → IsExclusive v
  unfolding set_record
  Step-IsExclusive (arrive key w) h = λ k.
      count-append holds k w.threads (record { key = key; stage = arrived }) ∙ ground (arith, h k)
  Step-IsExclusive (get_found i now key r w at got) h =
      keep-IsExclusive i (replayed r) _ w w.shared at refl refl h
  Step-IsExclusive (get_missed i now key w at got) h =
      keep-IsExclusive i missed _ w w.shared at refl refl h
  Step-IsExclusive (lock_acquired i key w at won) h = lock-IsExclusive i key w at won h
  Step-IsExclusive (lock_refused i key w at lost) h =
      keep-IsExclusive i (waiting 0) _ w (lock key w.shared).0 at refl
        (lock-refused key w.shared lost) h
  Step-IsExclusive (handler_ended i key has_written r w at) h =
      keep-IsExclusive i (finished (if is_stored has_written r.status_code then some r else none)) _
        w w.shared at refl refl h
  Step-IsExclusive (record_set i now key r w at) h =
      keep-IsExclusive i (finished none) _ w (set_record now key r ttl w.shared) at refl refl h
  Step-IsExclusive (unlocked i key w at) h = unlock-IsExclusive i key w at h
  Step-IsExclusive (retry_found i now retries key r w at more got) h =
      keep-IsExclusive i (replayed r) _ w w.shared at refl refl h
  Step-IsExclusive (retry_missed i now retries key w at more got) h =
      keep-IsExclusive i (waiting (retries + 1)) _ w w.shared at refl refl h
  Step-IsExclusive (context_done i retries key w at more) h =
      keep-IsExclusive i cancelled _ w w.shared at refl refl h
  Step-IsExclusive (retries_over i retries key w at over) h =
      keep-IsExclusive i conflict _ w w.shared at refl refl h

  Reachable-IsExclusive : {w : World} → Reachable ttl lock_max_retries w → IsExclusive w
  unfolding is_locked new_memory_store lookup
  Reachable-IsExclusive (begin max_keys) = λ key. refl
  Reachable-IsExclusive (then_step r s) = Step-IsExclusive s (Reachable-IsExclusive r)

  running-le-holds : (key : Text) (ts : List Thread) → count is_running key ts ≤ count holds key ts
  running-le-holds key [] = omega arith
  running-le-holds key (t ∷ ts) = ground (arith, running-le-holds key ts, running_holds t.stage)

  -- In whatever order the requests run: of those with one key the wrapped handler runs for one at most,
  -- and only while the key is locked; a key that is locked is held by exactly one request, which has not
  -- yet released it.
  pub one_at_a_time :
      {w : World} (key : Text)
      → Reachable ttl lock_max_retries w
      → (count holds key w.threads ≡ (if is_locked key w.shared then 1 else 0))
        × (count is_running key w.threads ≤ (if is_locked key w.shared then 1 else 0))
  one_at_a_time {w = w} key r =
      let h = Reachable-IsExclusive r key in (h, omega (arith, running-le-holds key w.threads))
