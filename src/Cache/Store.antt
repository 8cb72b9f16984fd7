-- ===== src/Cache/Store.antt =====
-- middleware/cache/store.go: the MemoryStore of the response cache. The entries lie on a heap; the map
-- and the list of container/list hold their addresses, and an entry's list element has the address of
-- the entry. A time is a natural number, and `After` is `<`. No limit, or a negative one, is 0.
pub mod Represents
pub mod Recency
pub mod Refines
pub mod History
pub mod Tests
use zerohttp.Prelude.{
  ℕ, ◌+◌, Bool, true, false, ◌&&◌, List, [], ◌∷◌, Option, none, some, if◌then◌else◌, nat_beq, ltb,
  leb, length,
}
use zerohttp.Text.{Text}
use zerohttp.Map.{Map, lookup, insert, delete, text_keys, nat_keys}

pub record CacheEntry (R : Type 0) : Type 0 where
  pub key : Text
  pub value : R
  pub expiry : ℕ

pub record MemoryStore (R : Type 0) : Type 0 where
  pub heap : Map ℕ (CacheEntry R)
  pub next_address : ℕ
  pub entries : Map Text ℕ
  -- From the front, the most recent, to the back.
  pub lru_list : List ℕ
  pub lru_index : Map Text ℕ
  pub max_entries : ℕ

-- container/list: an element is taken out, or put in front of the others.
unfoldable pub remove_element : ℕ → List ℕ → List ℕ
remove_element a [] = []
remove_element a (b ∷ bs) = let rest = remove_element a bs in if nat_beq a b then bs else b ∷ rest

unfoldable pub has_element : ℕ → List ℕ → Bool
has_element a [] = false
has_element a (b ∷ bs) = if nat_beq a b then true else has_element a bs

unfoldable pub move_to_front : ℕ → List ℕ → List ℕ
move_to_front a bs = if has_element a bs then a ∷ remove_element a bs else bs

unfoldable pub back : List ℕ → Option ℕ
back [] = none
back (a ∷ []) = some a
back (a ∷ b ∷ bs) = back (b ∷ bs)

module _ {R : Type 0} where
  -- `NewMemoryStore`.
  unfoldable pub new_memory_store : ℕ → MemoryStore R
  new_memory_store max_entries = record {
    heap = [];
    next_address = 0;
    entries = [];
    lru_list = [];
    lru_index = [];
    max_entries = max_entries;
  }

  -- `removeEntry`, of the entry at the address; an address without an entry does not occur.
  unfoldable pub remove_entry : ℕ → MemoryStore R → MemoryStore R
  remove_entry a s = elim (lookup a s.heap) [
    | none ↦ s
    | some entry ↦ record s {
      entries = delete entry.key s.entries;
      lru_index = delete entry.key s.lru_index;
      lru_list = remove_element a s.lru_list;
    }
  ]

  unfoldable pub evict_oldest : MemoryStore R → MemoryStore R
  evict_oldest s = elim (back s.lru_list) [ none ↦ s | some a ↦ remove_entry a s ]

  -- `Get` of an entry.
  unfoldable pub get_entry : (now a : ℕ) → CacheEntry R → MemoryStore R → MemoryStore R × Option R
  get_entry now a entry s =
      if ltb entry.expiry now
      then (remove_entry a s, none)
      else (record s { lru_list = move_to_front a s.lru_list }, some entry.value)

  unfoldable pub get_at : (now : ℕ) → Text → MemoryStore R → MemoryStore R × Option R
  get_at now key s = elim (lookup key s.entries) [
    | none ↦ (s, none)
    | some a ↦ elim (lookup a s.heap) [ none ↦ (s, none) | some entry ↦ get_entry now a entry s ]
  ]

  -- `Set` of a key that is there: the entry is changed where it lies.
  unfoldable pub update : (now a : ℕ) → R → (ttl : ℕ) → MemoryStore R → MemoryStore R
  update now a value ttl s = elim (lookup a s.heap) [
    | none ↦ s
    | some entry ↦ record s {
      lru_list = move_to_front a s.lru_list;
      heap = insert a (record entry { value = value; expiry = now + ttl }) s.heap;
    }
  ]

  -- `Set` of a new key, once there is room.
  unfoldable pub push : (now : ℕ) → Text → R → (ttl : ℕ) → MemoryStore R → MemoryStore R
  push now key value ttl s = record s {
    heap = insert s.next_address (record { key = key; value = value; expiry = now + ttl }) s.heap;
    next_address = s.next_address + 1;
    entries = insert key s.next_address s.entries;
    lru_list = s.next_address ∷ s.lru_list;
    lru_index = insert key s.next_address s.lru_index;
  }

  unfoldable pub set_at : (now : ℕ) → Text → R → (ttl : ℕ) → MemoryStore R → MemoryStore R
  set_at now key value ttl s = elim (lookup key s.lru_index) [
    | some a ↦ update now a value ttl s
    | none ↦
        push now key value ttl (
          if ltb 0 s.max_entries && leb s.max_entries (length s.entries) then evict_oldest s else s)
  ]

  -- `Delete`.
  unfoldable pub delete_at : Text → MemoryStore R → MemoryStore R
  delete_at key s = elim (lookup key s.entries) [ none ↦ s | some a ↦ remove_entry a s ]
