-- ===== src/Cache/Store/Refines/Writes.antt =====
-- `Set` of the MemoryStore of middleware/cache/store.go against the entries by recency.
use mathlib.Core.Path.{subst}
use zerohttp.Prelude.{
  ℕ, ◌+◌, ◌≤◌, ◌≡◌, refl, sym, ◌∙◌, ap, ◌&&◌, List, [], ◌∷◌, none, some, length, arith, Bool-cases,
  Option-cases, inl, inr, if◌then◌else◌, ltb, leb,
}
use zerohttp.Text.{Text}
use zerohttp.Text.Laws.{text_eq_refl}
use zerohttp.Map.{lookup, insert, text_keys, nat_keys, lookup-insert}
use zerohttp.Cache.Store.{
  CacheEntry, MemoryStore, remove_entry, evict_oldest, get_at, update, push, set_at, back,
}
use zerohttp.Cache.Store.Recency.{find, without, drop_last, recent_get, recent_set}
use zerohttp.Cache.Store.Represents.{
  Represents, remove_entry-Represents, touched, touched-Represents, push-Represents, entry_on_heap,
}
use zerohttp.Cache.Store.Represents.Addressed.{
  Cells, find_cell, address_in, cells_without, erased, find_cell-key, back-cells, find-erased,
  length-erased,
}
use zerohttp.Cache.Store.Refines.{Holds, carried, found_in, without_in, get_at-Holds, entry_absent}

back_empty : back [] ≡ none
unfolding back
back_empty = refl

module _ {R : Type 0} where
  evict_oldest-Holds :
      (s : MemoryStore R) (es : List (CacheEntry R))
      → Holds s es
      → Holds (evict_oldest s) (drop_last es)
  unfolding evict_oldest
  evict_oldest-Holds s es ([], r, same) =
      let nothing : back s.lru_list ≡ none = ap back r.in_order ∙ back_empty in
      let unchanged : evict_oldest s ≡ s = rw (nothing, evict_oldest) refl in
      subst (λ (t : MemoryStore R). Holds t (drop_last es)) (sym unchanged)
        ([], r, ap drop_last same)
  evict_oldest-Holds s es (x ∷ xs, r, same) =
      let (a, e, last, found, taken) = back-cells x xs r.apart in
      let removed : evict_oldest s ≡ remove_entry a s =
        rw (ap back r.in_order ∙ last, evict_oldest) refl in
      subst (λ (t : MemoryStore R). Holds t (drop_last es)) (sym removed)
        (
          cells_without e.key (x ∷ xs),
          remove_entry-Represents e.key a e (x ∷ xs) s r found,
          taken ∙ ap drop_last same,
        )

  update-Holds :
      (now : ℕ) (key : Text) (value : R) (ttl a : ℕ) (e : CacheEntry R) (xs : Cells R)
      (s : MemoryStore R) (es : List (CacheEntry R))
      → Represents s xs
      → erased xs ≡ es
      → find_cell key xs ≡ some (a, e)
      → Holds
          (update now a value ttl s)
          (record { key = key; value = value; expiry = now + ttl } ∷ without key es)
  unfolding update
  update-Holds now key value ttl a e xs s es r same found =
      let f : CacheEntry R = record e { value = value; expiry = now + ttl } in
      let named = find_cell-key key a e xs found in
      let moved : update now a value ttl s ≡ touched a (insert a f s.heap) s =
        rw (entry_on_heap key a e xs s r found, update) refl in
      subst
        (λ (t : MemoryStore R).
          Holds t (record { key = key; value = value; expiry = now + ttl } ∷ without key es))
        (sym moved)
        (
          (a, f) ∷ cells_without key xs,
          touched-Represents key a e f (insert a f s.heap) xs s r found named
              (λ b. lookup-insert a b f s.heap),
          rw named (
              ap (λ fs. record { key = key; value = value; expiry = now + ttl } ∷ fs)
                (without_in key xs es same)),
        )

  set_present :
      (now : ℕ) (key : Text) (value : R) (ttl a : ℕ) (s : MemoryStore R)
      → lookup key s.lru_index ≡ some a
      → set_at now key value ttl s ≡ update now a value ttl s
  unfolding set_at
  set_present now key value ttl a s h = rw (h, set_at) refl

  -- The store into which a new key is pushed.
  abbrev roomy : MemoryStore R → MemoryStore R
  roomy s =
      if ltb 0 s.max_entries && leb s.max_entries (length s.entries) then evict_oldest s else s

  set_absent :
      (now : ℕ) (key : Text) (value : R) (ttl : ℕ) (s : MemoryStore R)
      → lookup key s.lru_index ≡ none
      → set_at now key value ttl s ≡ push now key value ttl (roomy s)
  unfolding set_at
  set_absent now key value ttl s h = rw (h, set_at) refl

  abbrev roomy_recent : ℕ → List (CacheEntry R) → List (CacheEntry R)
  roomy_recent max es = if ltb 0 max && leb max (length es) then drop_last es else es

  roomy-Holds :
      (s : MemoryStore R) (es : List (CacheEntry R))
      → Holds s es
      → Holds (roomy s) (roomy_recent s.max_entries es)
  roomy-Holds s es (xs, r, same) =
      let measured : length s.entries ≡ length es =
        r.size ∙ sym (length-erased xs) ∙ ap length same in
      let tests = ap (λ n. ltb 0 s.max_entries && leb s.max_entries n) measured in
      elim (Bool-cases (ltb 0 s.max_entries && leb s.max_entries (length es))) [
        | inl full ↦ rw (tests ∙ full, full) (evict_oldest-Holds s es (xs, r, same))
        | inr room ↦ rw (tests ∙ room, room) (xs, r, same)
      ]

  find-drop_last :
      (key : Text) (es : List (CacheEntry R)) → find key es ≡ none → find key (drop_last es) ≡ none
  find-drop_last key [] h = refl
  find-drop_last key (e ∷ []) h = refl
  find-drop_last key (e ∷ f ∷ es) h = ground (arith, find-drop_last key (f ∷ es))

  push-Holds :
      (now : ℕ) (key : Text) (value : R) (ttl : ℕ) (s : MemoryStore R) (es : List (CacheEntry R))
      → Holds s es
      → find key es ≡ none
      → Holds
          (push now key value ttl s)
          (record { key = key; value = value; expiry = now + ttl } ∷ es)
  push-Holds now key value ttl s es (xs, r, same) h =
      let new : find_cell key xs ≡ none =
        entry_absent (find_cell key xs) (sym (find-erased key xs) ∙ ap (find key) same ∙ h) in
      (
        (s.next_address, record { key = key; value = value; expiry = now + ttl }) ∷ xs,
        push-Represents now key value ttl xs s r new,
        ap (λ fs. record { key = key; value = value; expiry = now + ttl } ∷ fs) same,
      )

  pub set_at-Holds :
      (now : ℕ) (key : Text) (value : R) (ttl : ℕ) (s : MemoryStore R) (es : List (CacheEntry R))
      → Holds s es
      → Holds (set_at now key value ttl s) (recent_set s.max_entries now key value ttl es)
  set_at-Holds now key value ttl s es (xs, r, same) = elim (Option-cases (find_cell key xs)) [
    | inl missing ↦
        let new : find key es ≡ none = found_in key xs es none same missing in
        let still_new : find key (roomy_recent s.max_entries es) ≡ none =
          ground (arith, find-drop_last key es) in
        carried (set_absent now key value ttl s (r.by_index key ∙ ap address_in missing))
          (rw (new, recent_set) refl)
          (push-Holds now key value ttl (roomy s) (roomy_recent s.max_entries es)
            (roomy-Holds s es (xs, r, same)) still_new)
    | inr ((a, e), found) ↦
        carried (set_present now key value ttl a s (r.by_index key ∙ ap address_in found))
          (rw (found_in key xs es (some (a, e)) same found, recent_set) refl)
          (update-Holds now key value ttl a e xs s es r same found)
  ]

  recent_get_front :
      (now : ℕ) (e : CacheEntry R) (es : List (CacheEntry R))
      → now ≤ e.expiry
      → (recent_get now e.key (e ∷ es)).1 ≡ some e.value
  recent_get_front now e es fresh = ground (arith, text_eq_refl e.key)

  recent_get_kept :
      (now : ℕ) (e : CacheEntry R) (es : List (CacheEntry R))
      → now ≤ e.expiry
      → (recent_get now e.key (e ∷ es)).0 ≡ e ∷ es
  recent_get_kept now e es fresh = ground (arith, text_eq_refl e.key)

  -- The entry is the one used last.
  abbrev pub IsFront : CacheEntry R → MemoryStore R → Type 0
  IsFront e s = (rest : List (CacheEntry R)) × Holds s (e ∷ rest)

  recent_set_front :
      (max now : ℕ) (key : Text) (value : R) (ttl : ℕ) (es : List (CacheEntry R))
      → (rest : List (CacheEntry R)) × (recent_set max now key value ttl es
          ≡ record { key = key; value = value; expiry = now + ttl } ∷ rest)
  recent_set_front max now key value ttl es = elim (Option-cases (find key es)) [
    | inl missing ↦ (
      (if ltb 0 max && leb max (length es) then drop_last es else es),
      rw (missing, recent_set) refl,
    )
    | inr (f, found) ↦ (without key es, rw (found, recent_set) refl)
  ]

  -- What is written is used last.
  pub set_at-IsFront :
      (now : ℕ) (key : Text) (value : R) (ttl : ℕ) (s : MemoryStore R) (es : List (CacheEntry R))
      → Holds s es
      → IsFront
          (record { key = key; value = value; expiry = now + ttl })
          (set_at now key value ttl s)
  set_at-IsFront now key value ttl s es h =
      let (rest, front) = recent_set_front s.max_entries now key value ttl es in
      (
        rest,
        subst (Holds (set_at now key value ttl s)) front (set_at-Holds now key value ttl s es h),
      )

  -- What was used last is read until it expires, and stays the one used last.
  pub get_at-IsFront :
      (now : ℕ) (e : CacheEntry R) (s : MemoryStore R)
      → now ≤ e.expiry
      → IsFront e s
      → IsFront e (get_at now e.key s).0 × ((get_at now e.key s).1 ≡ some e.value)
  get_at-IsFront now e s fresh (rest, h) =
      let (held, same) = get_at-Holds now e.key s (e ∷ rest) h in
      let kept : (recent_get now e.key (e ∷ rest)).0 ≡ e ∷ rest =
        recent_get_kept now e rest fresh in
      (
        (rest, subst (Holds (get_at now e.key s).0) kept held),
        same ∙ recent_get_front now e rest fresh,
      )
