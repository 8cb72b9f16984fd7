-- ===== src/Cache/Store/History.antt =====
-- Any calls on a MemoryStore of middleware/cache/store.go, one after another.
use zerohttp.Prelude.{
  ℕ, ◌≤◌, ◌<◌, ◌≡◌, refl, sym, ◌∙◌, ap, List, [], ◌∷◌, Option, none, some, length, arith,
  Option-cases, inl, inr,
}
use zerohttp.Text.{Text}
use zerohttp.Map.{text_keys, nat_keys}
use zerohttp.Cache.Store.{
  CacheEntry, MemoryStore, new_memory_store, remove_entry, evict_oldest, get_entry, get_at, update,
  push, set_at, delete_at,
}
use zerohttp.Cache.Store.Recency.{find, without, drop_last, recent_get, recent_set}
use zerohttp.Cache.Store.Represents.{new_memory_store-Represents}
use zerohttp.Cache.Store.Represents.Addressed.{length-erased, length-addresses}
use zerohttp.Cache.Store.Refines.{Holds, Agree, get_at-Holds, delete_at-Holds}
use zerohttp.Cache.Store.Refines.Writes.{set_at-Holds}

pub data Call (R : Type 0) : Type 0 where
  get_call : (now : ℕ) → Text → Call R
  set_call : (now : ℕ) → Text → R → (ttl : ℕ) → Call R
  delete_call : Text → Call R

module _ {R : Type 0} where
  -- What a call leaves, and what it answers.
  abbrev pub run_call : Call R → MemoryStore R → MemoryStore R × Option R
  run_call (get_call now key) s = get_at now key s
  run_call (set_call now key value ttl) s = (set_at now key value ttl s, none)
  run_call (delete_call key) s = (delete_at key s, none)

  abbrev pub run_recent : ℕ → Call R → List (CacheEntry R) → List (CacheEntry R) × Option R
  run_recent max (get_call now key) es = recent_get now key es
  run_recent max (set_call now key value ttl) es = (recent_set max now key value ttl es, none)
  run_recent max (delete_call key) es = (without key es, none)

  abbrev pub after_all : List (Call R) → MemoryStore R → MemoryStore R
  after_all [] s = s
  after_all (c ∷ cs) s = after_all cs (run_call c s).0

  abbrev pub answers : List (Call R) → MemoryStore R → List (Option R)
  answers [] s = []
  answers (c ∷ cs) s = (run_call c s).1 ∷ answers cs (run_call c s).0

  abbrev pub recent_answers : ℕ → List (Call R) → List (CacheEntry R) → List (Option R)
  recent_answers max [] es = []
  recent_answers max (c ∷ cs) es =
      (run_recent max c es).1 ∷ recent_answers max cs (run_recent max c es).0

  max_entries-remove_entry :
      (a : ℕ) (s : MemoryStore R) → (remove_entry a s).max_entries ≡ s.max_entries
  unfolding remove_entry
  max_entries-remove_entry a s = ground arith

  max_entries-run_call :
      (c : Call R) (s : MemoryStore R) → (run_call c s).0.max_entries ≡ s.max_entries
  unfolding get_at get_entry set_at update push evict_oldest delete_at
  max_entries-run_call (get_call now key) s = grind (arith, max_entries-remove_entry)
  max_entries-run_call (set_call now key value ttl) s = grind (arith, max_entries-remove_entry)
  max_entries-run_call (delete_call key) s = grind (arith, max_entries-remove_entry)

  run_call-Holds :
      (c : Call R) (s : MemoryStore R) (es : List (CacheEntry R))
      → Holds s es
      → Agree (run_call c s) (run_recent s.max_entries c es)
  run_call-Holds (get_call now key) s es h = get_at-Holds now key s es h
  run_call-Holds (set_call now key value ttl) s es h = (set_at-Holds now key value ttl s es h, refl)
  run_call-Holds (delete_call key) s es h = (delete_at-Holds key s es h, refl)

  answers-Holds :
      (cs : List (Call R)) (s : MemoryStore R) (es : List (CacheEntry R))
      → Holds s es
      → answers cs s ≡ recent_answers s.max_entries cs es
  answers-Holds [] s es h = refl
  answers-Holds (c ∷ cs) s es h =
      let (next, same) = run_call-Holds c s es h in
      let later = answers-Holds cs (run_call c s).0 (run_recent s.max_entries c es).0 next in
      let (left, answer) = run_recent s.max_entries c es in
      let rest = later ∙ ap (λ m. recent_answers m cs left) (max_entries-run_call c s) in
      ap (λ x. x ∷ answers cs (run_call c s).0) same ∙ ap (λ xs. answer ∷ xs) rest

  pub empty-Holds : (max : ℕ) → Holds (new_memory_store {R = R} max) []
  empty-Holds max = ([], new_memory_store-Represents max, refl)

  -- Whatever the calls and their times, a new store answers as the entries by recency do: a key has the
  -- record written last until it expires, is deleted, or is the least recently used where a new key
  -- finds the store full.
  pub answers-refines :
      (max : ℕ) (cs : List (Call R)) → answers cs (new_memory_store max) ≡ recent_answers max cs []
  unfolding new_memory_store
  answers-refines max cs = answers-Holds cs (new_memory_store max) [] (empty-Holds max)

  length-without-le : (key : Text) (es : List (CacheEntry R)) → length (without key es) ≤ length es
  length-without-le key [] = omega arith
  length-without-le key (e ∷ es) = ground (arith, length-without-le key es)

  length-without-lt :
      (key : Text) (e : CacheEntry R) (es : List (CacheEntry R))
      → find key es ≡ some e
      → length (without key es) < length es
  length-without-lt key e [] h = absurd (ground arith)
  length-without-lt key e (f ∷ es) h = ground (arith, length-without-lt key e es)

  length-drop_last :
      (e : CacheEntry R) (es : List (CacheEntry R)) → length (drop_last (e ∷ es)) ≡ length es
  length-drop_last e [] = refl
  length-drop_last e (f ∷ es) = ap ℕ.suc (length-drop_last f es)

  recent_set-bounded :
      (max now : ℕ) (key : Text) (value : R) (ttl : ℕ) (es : List (CacheEntry R))
      → 0 < max
      → length es ≤ max
      → length (recent_set max now key value ttl es) ≤ max
  recent_set-bounded max now key value ttl [] m h = ground arith
  recent_set-bounded max now key value ttl (e ∷ es) m h = elim (Option-cases (find key (e ∷ es))) [
    | inl missing ↦ rw (missing, recent_set) (ground (arith, length-drop_last e es))
    | inr (f, found) ↦ rw (found, recent_set) (ground (arith, length-without-lt key f (e ∷ es)))
  ]

  run_recent-bounded :
      (max : ℕ) (c : Call R) (es : List (CacheEntry R))
      → 0 < max
      → length es ≤ max
      → length (run_recent max c es).0 ≤ max
  run_recent-bounded max (get_call now key) es m h = elim (Option-cases (find key es)) [
    | inl missing ↦ rw (missing, recent_get) h
    | inr (f, found) ↦
        rw (found, recent_get)
          (ground (arith, length-without-lt key f es, length-without-le key es))
  ]
  run_recent-bounded max (set_call now key value ttl) es m h =
      recent_set-bounded max now key value ttl es m h
  run_recent-bounded max (delete_call key) es m h = omega (arith, length-without-le key es)

  length-Holds :
      (s : MemoryStore R) (es : List (CacheEntry R))
      → Holds s es
      → (length s.entries ≡ length es) × (length s.lru_list ≡ length es)
  length-Holds s es (xs, r, same) = (
    r.size ∙ sym (length-erased xs) ∙ ap length same,
    ap length r.in_order ∙ length-addresses xs ∙ sym (length-erased xs) ∙ ap length same,
  )

  after_all-Holds :
      (cs : List (Call R)) (s : MemoryStore R) (es : List (CacheEntry R))
      → 0 < s.max_entries
      → length es ≤ s.max_entries
      → Holds s es
      → (length (after_all cs s).entries ≤ s.max_entries)
        × (length (after_all cs s).lru_list ≡ length (after_all cs s).entries)
  after_all-Holds [] s es m b h = let (n, l) = length-Holds s es h in (omega arith, l ∙ sym n)
  after_all-Holds (c ∷ cs) s es m b h =
      let (next, same) = run_call-Holds c s es h in
      let kept = max_entries-run_call c s in
      let bounded = run_recent-bounded s.max_entries c es m b in
      let (n, l) =
        after_all-Holds cs (run_call c s).0 (run_recent s.max_entries c es).0 (omega arith)
          (omega arith) next in
      (omega arith, l)

  -- Whatever the calls, a new store with a limit never has more entries than the limit, and its list has
  -- as many elements as its map has keys.
  pub after_all-bounded :
      (max : ℕ) (cs : List (Call R))
      → 0 < max
      → (length (after_all cs (new_memory_store max)).entries ≤ max)
        × (length (after_all cs (new_memory_store max)).lru_list
            ≡ length (after_all cs (new_memory_store max)).entries)
  unfolding new_memory_store
  after_all-bounded max cs m =
      after_all-Holds cs (new_memory_store max) [] m (omega arith) (empty-Holds max)
