-- ===== src/Cache/Store/Refines.antt =====
-- The MemoryStore of middleware/cache/store.go against its entries by recency.
pub mod Writes
use mathlib.Core.Path.{subst}
use zerohttp.Prelude.{
  ℕ, ◌+◌, ◌≤◌, ◌≡◌, refl, sym, ◌∙◌, ap, ◌&&◌, List, [], ◌∷◌, Option, none, some, length, arith,
  Bool-cases, Option-cases, inl, inr, if◌then◌else◌, ltb, leb, nat_beq_iff,
}
use zerohttp.Text.{Text}
use zerohttp.Text.Laws.{text_eq_refl}
use zerohttp.Map.{lookup, insert, text_keys, nat_keys, lookup-insert}
use zerohttp.Cache.Store.{
  CacheEntry, MemoryStore, remove_entry, evict_oldest, get_entry, get_at, update, push, set_at,
  delete_at, back,
}
use zerohttp.Cache.Store.Recency.{find, without, drop_last, recent_get, recent_set}
use zerohttp.Cache.Store.Represents.{
  Represents, remove_entry-Represents, touched, touched-Represents, push-Represents, entry_on_heap,
}
use zerohttp.Cache.Store.Represents.Addressed.{
  Cells, find_cell, address_in, entry_in, cells_without, erased, find_cell-key, back-cells,
  erased-without, find-erased, length-erased,
}

module _ {R : Type 0} where
  without_absent :
      (key : Text) (es : List (CacheEntry R)) → find key es ≡ none → without key es ≡ es
  without_absent key [] h = refl
  without_absent key (e ∷ es) h = ground (arith, without_absent key es)

  entry_absent : (o : Option (ℕ × CacheEntry R)) → entry_in o ≡ none → o ≡ none
  entry_absent none h = refl
  entry_absent (some (a, e)) h = cc

  -- The store holds these entries, the most recent first.
  abbrev pub Holds : MemoryStore R → List (CacheEntry R) → Type 0
  Holds s es = (xs : Cells R) × Represents s xs × (erased xs ≡ es)

  carried :
      {s t : MemoryStore R} {es fs : List (CacheEntry R)}
      → s ≡ t
      → es ≡ fs
      → Holds t fs
      → Holds s es
  carried {t = t} {es = es} f g h =
      subst (λ (x : MemoryStore R). Holds x es) (sym f)
        (subst (λ (y : List (CacheEntry R)). Holds t y) (sym g) h)

  abbrev pub Agree : MemoryStore R × Option R → List (CacheEntry R) × Option R → Type 0
  Agree (s, answer) (es, expected) = Holds s es × (answer ≡ expected)

  carried_answer :
      {p p' : MemoryStore R × Option R} {q q' : List (CacheEntry R) × Option R}
      → p ≡ p'
      → q ≡ q'
      → Agree p' q'
      → Agree p q
  carried_answer {p' = p'} {q = q} f g h =
      subst (λ (x : MemoryStore R × Option R). Agree x q) (sym f)
        (subst (λ (y : List (CacheEntry R) × Option R). Agree p' y) (sym g) h)

  -- What both sides find under a key.
  found_in :
      (key : Text) (xs : Cells R) (es : List (CacheEntry R)) (o : Option (ℕ × CacheEntry R))
      → erased xs ≡ es
      → find_cell key xs ≡ o
      → find key es ≡ entry_in o
  found_in key xs es o same h = ap (find key) (sym same) ∙ find-erased key xs ∙ ap entry_in h

  without_in :
      (key : Text) (xs : Cells R) (es : List (CacheEntry R))
      → erased xs ≡ es
      → erased (cells_without key xs) ≡ without key es
  without_in key xs es same = erased-without key xs ∙ ap (without key) same

  get_missing :
      (now : ℕ) (key : Text) (s : MemoryStore R)
      → lookup key s.entries ≡ none
      → get_at now key s ≡ (s, none)
  unfolding get_at
  get_missing now key s h = rw (h, get_at) refl

  get_found :
      (now : ℕ) (key : Text) (a : ℕ) (e : CacheEntry R) (s : MemoryStore R)
      → lookup key s.entries ≡ some a
      → lookup a s.heap ≡ some e
      → get_at now key s ≡ get_entry now a e s
  unfolding get_at
  get_found now key a e s h g = rw (h, g, get_at) refl

  get_entry-Holds :
      (now : ℕ) (key : Text) (a : ℕ) (e : CacheEntry R) (xs : Cells R) (s : MemoryStore R)
      (es : List (CacheEntry R))
      → Represents s xs
      → erased xs ≡ es
      → find_cell key xs ≡ some (a, e)
      → Agree
          (get_entry now a e s)
          (if ltb e.expiry now then (without key es, none) else (e ∷ without key es, some e.value))
  unfolding get_entry
  get_entry-Holds now key a e xs s es r same found = elim (Bool-cases (ltb e.expiry now)) [
    | inl expired ↦ rw expired (
      (
        cells_without key xs,
        remove_entry-Represents key a e xs s r found,
        without_in key xs es same,
      ),
      refl,
    )
    | inr fresh ↦ rw fresh (
      (
        (a, e) ∷ cells_without key xs,
        touched-Represents key a e e s.heap xs s r found (find_cell-key key a e xs found)
            (λ b. ground (arith, entry_on_heap key a e xs s r found, nat_beq_iff a b)),
        ap (λ fs. e ∷ fs) (without_in key xs es same),
      ),
      refl,
    )
  ]

  pub get_at-Holds :
      (now : ℕ) (key : Text) (s : MemoryStore R) (es : List (CacheEntry R))
      → Holds s es
      → Agree (get_at now key s) (recent_get now key es)
  get_at-Holds now key s es (xs, r, same) = elim (Option-cases (find_cell key xs)) [
    | inl missing ↦
        carried_answer (get_missing now key s (r.by_entries key ∙ ap address_in missing))
          (rw (found_in key xs es none same missing, recent_get) refl) ((xs, r, same), refl)
    | inr ((a, e), found) ↦
        carried_answer
          (get_found now key a e s (r.by_entries key ∙ ap address_in found)
            (entry_on_heap key a e xs s r found))
          (rw (found_in key xs es (some (a, e)) same found, recent_get) refl)
          (get_entry-Holds now key a e xs s es r same found)
  ]

  pub delete_at-Holds :
      (key : Text) (s : MemoryStore R) (es : List (CacheEntry R))
      → Holds s es
      → Holds (delete_at key s) (without key es)
  unfolding delete_at
  delete_at-Holds key s es (xs, r, same) = elim (Option-cases (find_cell key xs)) [
    | inl missing ↦
        let unchanged : delete_at key s ≡ s =
          rw (r.by_entries key ∙ ap address_in missing, delete_at) refl in
        let left : without key es ≡ es =
          without_absent key es (found_in key xs es none same missing) in
        subst (λ (t : MemoryStore R). Holds t (without key es)) (sym unchanged)
          (xs, r, same ∙ sym left)
    | inr ((a, e), found) ↦
        let removed : delete_at key s ≡ remove_entry a s =
          rw (r.by_entries key ∙ ap address_in found, delete_at) refl in
        subst (λ (t : MemoryStore R). Holds t (without key es)) (sym removed)
          (
            cells_without key xs,
            remove_entry-Represents key a e xs s r found,
            without_in key xs es same,
          )
  ]
