-- ===== src/Cache/Store/Recency.antt =====
-- What the MemoryStore of middleware/cache/store.go promises: entries by the recency of their use.
use zerohttp.Prelude.{
  ℕ, ◌+◌, ◌&&◌, List, [], ◌∷◌, Option, none, some, if◌then◌else◌, ltb, leb, length,
}
use zerohttp.Text.{Text, text_eq}
use zerohttp.Cache.Store.{CacheEntry}

module _ {R : Type 0} where
  -- The entry of a key.
  abbrev pub find : Text → List (CacheEntry R) → Option (CacheEntry R)
  find key [] = none
  find key (e ∷ es) = if text_eq e.key key then some e else find key es

  abbrev pub without : Text → List (CacheEntry R) → List (CacheEntry R)
  without key [] = []
  without key (e ∷ es) = let rest = without key es in if text_eq e.key key then es else e ∷ rest

  abbrev pub drop_last : List (CacheEntry R) → List (CacheEntry R)
  drop_last [] = []
  drop_last (e ∷ []) = []
  drop_last (e ∷ f ∷ es) = e ∷ drop_last (f ∷ es)

  -- A hit makes its entry the most recent; an expired entry goes.
  abbrev pub recent_get : (now : ℕ) → Text → List (CacheEntry R) → List (CacheEntry R) × Option R
  recent_get now key es = elim (find key es) [
    | none ↦ (es, none)
    | some e ↦
        if ltb e.expiry now then (without key es, none) else (e ∷ without key es, some e.value)
  ]

  -- The written entry is the most recent; a new key takes the place of the least recent where it is full.
  abbrev pub recent_set :
      (max now : ℕ) → Text → R → (ttl : ℕ) → List (CacheEntry R) → List (CacheEntry R)
  recent_set max now key value ttl es = elim (find key es) [
    | some e ↦ record { key = key; value = value; expiry = now + ttl } ∷ without key es
    | none ↦
        record { key = key; value = value; expiry = now + ttl }
        ∷ (if ltb 0 max && leb max (length es) then drop_last es else es)
  ]
