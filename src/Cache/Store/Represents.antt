-- ===== src/Cache/Store/Represents.antt =====
-- The heap, the maps and the list of middleware/cache/store.go as the entries that they stand for, and
-- what the methods make of these.
pub mod Addressed
use mathlib.Core.Path.{subst}
use zerohttp.Prelude.{
  ℕ, ◌+◌, ◌<◌, ◌≡◌, ◌≢◌, refl, sym, ◌∙◌, ap, Bool, true, false, List, [], ◌∷◌, Option, none, some,
  All, length, arith, Bool-cases, Option-cases, List-cases, inl, inr, if◌then◌else◌, nat_beq,
  nat_beq_iff,
}
use zerohttp.Text.{Text, text_eq}
use zerohttp.Text.Laws.{text_eq_iff}
use zerohttp.Map.{
  Map, lookup, insert, delete, text_keys, nat_keys, IsMap, lookup-delete, lookup-insert,
  IsMap-delete, IsMap-insert, length-delete_present, length-insert_absent,
}
use zerohttp.Cache.Store.{
  CacheEntry, MemoryStore, new_memory_store, remove_entry, evict_oldest, update, push,
  move_to_front, remove_element, has_element, back,
}
use zerohttp.Cache.Store.Recency.{drop_last}
use zerohttp.Cache.Store.Represents.Addressed.{
  Cells, find_cell, address_in, cells_without, addresses, erased, AreApart, All-find_cell,
  find_cell-key, remove_element-found, has_element-found, find_cell-without, All-without,
  AreApart-without, length-without, addresses-without, back-cells,
}

-- The store holds these cells, the most recent first.
pub record Represents {R : Type 0} (s : MemoryStore R) (xs : Cells R) : Type 0 where
  pub in_order : s.lru_list ≡ addresses xs
  pub on_heap : All (λ (x : ℕ × CacheEntry R). lookup x.0 s.heap ≡ some x.1) xs
  pub allocated : All (λ (x : ℕ × CacheEntry R). x.0 < s.next_address) xs
  pub apart : AreApart xs
  pub by_entries : (key : Text) → lookup key s.entries ≡ address_in (find_cell key xs)
  pub by_index : (key : Text) → lookup key s.lru_index ≡ address_in (find_cell key xs)
  pub single : IsMap s.entries
  pub size : length s.entries ≡ length xs

module _ {R : Type 0} where
  pub new_memory_store-Represents : (max : ℕ) → Represents (new_memory_store {R = R} max) []
  unfolding new_memory_store lookup
  new_memory_store-Represents max = record {
    in_order = refl;
    on_heap = tt;
    allocated = tt;
    apart = tt;
    by_entries = λ key. refl;
    by_index = λ key. refl;
    single = tt;
    size = refl;
  }

  -- Two values that agree on every key, whichever it is.
  address_without :
      (key : Text) (xs : Cells R) (m : Map Text ℕ)
      → AreApart xs
      → ((j : Text) → lookup j m ≡ address_in (find_cell j xs))
      → (j : Text) → lookup j (delete key m) ≡ address_in (find_cell j (cells_without key xs))
  address_without key xs m apart h j =
      ground (arith, lookup-delete key j m, find_cell-without key j xs apart, h j)

  -- The store without the entry.
  abbrev taken_out : Text → ℕ → MemoryStore R → MemoryStore R
  taken_out key a s = record s {
    entries = delete key s.entries;
    lru_index = delete key s.lru_index;
    lru_list = remove_element a s.lru_list;
  }

  remove_entry_lem :
      (a : ℕ) (e : CacheEntry R) (s : MemoryStore R)
      → lookup a s.heap ≡ some e
      → remove_entry a s ≡ taken_out e.key a s
  unfolding remove_entry
  remove_entry_lem a e s h = rw (h, remove_entry) refl

  pub entry_on_heap :
      (key : Text) (a : ℕ) (e : CacheEntry R) (xs : Cells R) (s : MemoryStore R)
      → Represents s xs
      → find_cell key xs ≡ some (a, e)
      → lookup a s.heap ≡ some e
  entry_on_heap key a e xs s r found =
      All-find_cell (λ (x : ℕ × CacheEntry R). lookup x.0 s.heap ≡ some x.1) key a e xs found
        r.on_heap

  pub remove_entry-Represents :
      (key : Text) (a : ℕ) (e : CacheEntry R) (xs : Cells R) (s : MemoryStore R)
      → Represents s xs
      → find_cell key xs ≡ some (a, e)
      → Represents (remove_entry a s) (cells_without key xs)
  remove_entry-Represents key a e xs s r found =
      let named = find_cell-key key a e xs found in
      let present : lookup key s.entries ≡ some a = r.by_entries key ∙ ap address_in found in
      let same : remove_entry a s ≡ taken_out key a s =
        remove_entry_lem a e s (entry_on_heap key a e xs s r found)
        ∙ ap (λ k. taken_out k a s) named in
      subst (λ (t : MemoryStore R). Represents t (cells_without key xs)) (sym same)
        (record {
          in_order =
              ap (remove_element a) r.in_order ∙ remove_element-found key a e xs r.apart found;
          on_heap = All-without _ key xs r.on_heap;
          allocated = All-without _ key xs r.allocated;
          apart = AreApart-without key xs r.apart;
          by_entries = address_without key xs s.entries r.apart r.by_entries;
          by_index = address_without key xs s.lru_index r.apart r.by_index;
          single = IsMap-delete key s.entries r.single;
          size = omega (
            arith,
            length-delete_present key a s.entries r.single present,
            length-without key a e xs found,
            r.size,
          );
        })

  -- The entry is moved to the front; the heap may have changed at its address.
  abbrev pub touched : ℕ → Map ℕ (CacheEntry R) → MemoryStore R → MemoryStore R
  touched a heap s = record s { lru_list = move_to_front a s.lru_list; heap = heap }

  abbrev pub IsChangedAt : ℕ → CacheEntry R → Map ℕ (CacheEntry R) → Map ℕ (CacheEntry R) → Type 0
  IsChangedAt a e heap next =
      (b : ℕ) → lookup b next ≡ (if nat_beq a b then some e else lookup b heap)

  lookup-heap :
      (a : ℕ) (e : CacheEntry R) (heap next : Map ℕ (CacheEntry R)) (ys : Cells R)
      → IsChangedAt a e heap next
      → All (λ (x : ℕ × CacheEntry R). x.0 ≢ a) ys
      → All (λ (x : ℕ × CacheEntry R). lookup x.0 heap ≡ some x.1) ys
      → All (λ (x : ℕ × CacheEntry R). lookup x.0 next ≡ some x.1) ys
  lookup-heap a e heap next [] c n h = tt
  lookup-heap a e heap next ((b, f) ∷ ys) c (n, ns) (h, hs) =
      (ground (arith, c b, nat_beq_iff a b), lookup-heap a e heap next ys c ns hs)

  move_to_front-found :
      (key : Text) (a : ℕ) (e : CacheEntry R) (xs : Cells R)
      → AreApart xs
      → find_cell key xs ≡ some (a, e)
      → move_to_front a (addresses xs) ≡ a ∷ addresses (cells_without key xs)
  unfolding move_to_front
  move_to_front-found key a e xs apart found =
      rw (has_element-found key a e xs found, remove_element-found key a e xs apart found) refl

  address_front :
      (key : Text) (a : ℕ) (e f : CacheEntry R) (xs : Cells R) (m : Map Text ℕ)
      → AreApart xs
      → find_cell key xs ≡ some (a, e)
      → f.key ≡ key
      → ((j : Text) → lookup j m ≡ address_in (find_cell j xs))
      → (j : Text) → lookup j m ≡ address_in (find_cell j ((a, f) ∷ cells_without key xs))
  address_front key a e f xs m apart found named h j =
      ground (arith, h j, find_cell-without key j xs apart, text_eq_iff key j, text_eq_iff f.key j)

  pub touched-Represents :
      (key : Text) (a : ℕ) (e f : CacheEntry R) (next : Map ℕ (CacheEntry R)) (xs : Cells R)
      (s : MemoryStore R)
      → Represents s xs
      → find_cell key xs ≡ some (a, e)
      → f.key ≡ key
      → IsChangedAt a f s.heap next
      → Represents (touched a next s) ((a, f) ∷ cells_without key xs)
  touched-Represents key a e f next xs s r found named changed =
      let elsewhere = addresses-without key a e xs r.apart found in
      record {
        in_order = ap (move_to_front a) r.in_order ∙ move_to_front-found key a e xs r.apart found;
        on_heap = (
          ground (arith, changed a, nat_beq_iff a a),
          lookup-heap a f s.heap next (cells_without key xs) changed elsewhere
              (All-without _ key xs r.on_heap),
        );
        allocated = (
          All-find_cell (λ (x : ℕ × CacheEntry R). x.0 < s.next_address) key a e xs found
              r.allocated,
          All-without _ key xs r.allocated,
        );
        apart = (
          ground (arith, find_cell-without key f.key xs r.apart, text_eq_iff key f.key),
          elsewhere,
          AreApart-without key xs r.apart,
        );
        by_entries = address_front key a e f xs s.entries r.apart found named r.by_entries;
        by_index = address_front key a e f xs s.lru_index r.apart found named r.by_index;
        single = r.single;
        size = omega (arith, length-without key a e xs found, r.size);
      }

  -- `Set` of a new key.
  fresh_addresses :
      (n : ℕ) (xs : Cells R)
      → All (λ (x : ℕ × CacheEntry R). x.0 < n) xs
      → All (λ (x : ℕ × CacheEntry R). x.0 ≢ n) xs × All (λ (x : ℕ × CacheEntry R). x.0 < n + 1) xs
  fresh_addresses n [] h = (tt, tt)
  fresh_addresses n ((b, f) ∷ xs) (h, hs) =
      let (others, below) = fresh_addresses n xs hs in
      (((λ e. omega arith), others), (omega arith, below))

  address_pushed :
      (n : ℕ) (e : CacheEntry R) (xs : Cells R) (m : Map Text ℕ)
      → ((j : Text) → lookup j m ≡ address_in (find_cell j xs))
      → (j : Text) → lookup j (insert e.key n m) ≡ address_in (find_cell j ((n, e) ∷ xs))
  address_pushed n e xs m h j = ground (arith, h j, lookup-insert e.key j n m)

  absent : (o : Option (ℕ × CacheEntry R)) → address_in o ≡ none → o ≡ none
  absent none h = refl
  absent (some (a, e)) h = cc

  pub push-Represents :
      (now : ℕ) (key : Text) (value : R) (ttl : ℕ) (xs : Cells R) (s : MemoryStore R)
      → Represents s xs
      → find_cell key xs ≡ none
      → Represents
          (push now key value ttl s)
          ((s.next_address, record { key = key; value = value; expiry = now + ttl }) ∷ xs)
  unfolding push
  push-Represents now key value ttl xs s r new =
      let e : CacheEntry R = record { key = key; value = value; expiry = now + ttl } in
      let (others, below) = fresh_addresses s.next_address xs r.allocated in
      let missing : lookup key s.entries ≡ none = r.by_entries key ∙ ap address_in new in
      record {
        in_order = ap (λ as_. s.next_address ∷ as_) r.in_order;
        on_heap = (
          ground (
            arith,
            lookup-insert s.next_address s.next_address e s.heap,
            nat_beq_iff s.next_address s.next_address,
          ),
          lookup-heap s.next_address e s.heap (insert s.next_address e s.heap) xs
              (λ b. lookup-insert s.next_address b e s.heap) others r.on_heap,
        );
        allocated = (omega arith, below);
        apart = (new, others, r.apart);
        by_entries = address_pushed s.next_address e xs s.entries r.by_entries;
        by_index = address_pushed s.next_address e xs s.lru_index r.by_index;
        single = IsMap-insert key s.next_address s.entries r.single;
        size = omega (arith, length-insert_absent key s.next_address s.entries missing, r.size);
      }
