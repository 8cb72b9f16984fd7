-- ===== src/Limit/Evict.antt =====
-- Which entry `evictOldest` of middleware/ratelimit/store.go removes, and how full the maps get.
use mathlib.Core.Path.{subst}
use zerohttp.Prelude.{
  ◌∙◌, ℕ, ◌+◌, ◌≤◌, ◌<◌, ◌≡◌, refl, ap, sym, ◌⊎◌, ◌↔◌, inl, inr, Bool, true, false, ◌&&◌, ◌||◌, [],
  ◌∷◌, none, some, arith, ltb, leb, nat_beq, Bool-cases, All, length, if◌then◌else◌,
}
use zerohttp.Text.{Text, text_eq, text_lt}
use zerohttp.Text.Laws.{text_eq_iff, text_lt_irrefl, text_lt_asym, text_lt_neg_trans, text_lt_total}
use zerohttp.Map.{
  Map, lookup, insert, delete, text_keys, length-delete-lt, length-delete-le, length-insert-le,
  delete_absent, length-insert_absent, All-delete,
}
use zerohttp.Limit.{oldest_from, evict_oldest, make_room}

-- The order of eviction: by the time of the last access, then by the key.
abbrev pub goes_first : Text × ℕ → Text × ℕ → Bool
goes_first (j, u) (k, t) = ltb u t || (nat_beq u t && text_lt j k)

goes_first_trans :
    (a b c : Text × ℕ) → goes_first a b ≡ false → goes_first b c ≡ false → goes_first a c ≡ false
goes_first_trans (i, s) (j, t) (k, u) h g = ground (arith, text_lt_neg_trans i j k)

goes_first_asym : (a b : Text × ℕ) → goes_first a b ≡ true → goes_first b a ≡ false
goes_first_asym (j, u) (k, t) h = ground (arith, text_lt_asym j k)

goes_first_total : (a b : Text × ℕ) → goes_first a b ≡ false → goes_first b a ≡ false → a ≡ b
goes_first_total (j, u) (k, t) h g = ground (arith, text_lt_total j k)

goes_first_irrefl : (a : Text × ℕ) → goes_first a a ≡ false
goes_first_irrefl (j, u) = ground (arith, text_lt_irrefl j)

module _ {E : Type 0} (last_access : E → ℕ) where
  abbrev stamp : Text × E → Text × ℕ
  stamp (key, entry) = (key, last_access entry)

  -- The pair is the key and the time of one of the entries.
  abbrev pub IsEntry : Text × ℕ → Map Text E → Type 0
  IsEntry p [] = ⊥
  IsEntry p (x ∷ m) = (stamp x ≡ p) ⊎ IsEntry p m

  -- No entry goes before the pair.
  abbrev pub IsOldest : Text × ℕ → Map Text E → Type 0
  IsOldest p m = All (λ x. goes_first (stamp x) p ≡ false) m

  oldest_from_lem :
      (best : Text × ℕ) (m : Map Text E)
      → (p : Text × ℕ) × (oldest_from last_access (some best) m ≡ some p)
        × ((p ≡ best) ⊎ IsEntry p m)
        × (goes_first best p ≡ false)
        × IsOldest p m
  unfolding oldest_from
  oldest_from_lem (k, t) [] = ((k, t), refl, inl refl, goes_first_irrefl (k, t), tt)
  oldest_from_lem (k, t) ((key, entry) ∷ m) =
      let new = stamp (key, entry) in
      elim (Bool-cases (goes_first new (k, t))) [
        | inl before ↦
            let (p, found, origin, first, oldest) = oldest_from_lem new m in
            let skipped = goes_first_trans (k, t) new p (goes_first_asym new (k, t) before) first in
            (
              p,
              rw (before, oldest_from) found,
              inr (elim origin [ inl e ↦ inl (sym e) | inr i ↦ inr i ]),
              skipped,
              (first, oldest),
            )
        | inr after ↦
            let (p, found, origin, first, oldest) = oldest_from_lem (k, t) m in
            (
              p,
              rw (after, oldest_from) found,
              elim origin [ inl e ↦ inl e | inr i ↦ inr (inr i) ],
              first,
              (goes_first_trans new (k, t) p after first, oldest),
            )
      ]

  -- The loop finds, in a map that is not empty, the key and the time of an entry that no entry goes
  -- before: the least recently accessed one, and among those the one with the smallest key.
  pub oldest_lem :
      (x : Text × E) (m : Map Text E)
      → (p : Text × ℕ) × (oldest_from last_access none (x ∷ m) ≡ some p)
        × IsEntry p (x ∷ m)
        × IsOldest p (x ∷ m)
  unfolding oldest_from
  oldest_lem (key, entry) m =
      let (p, found, origin, first, oldest) = oldest_from_lem (key, last_access entry) m in
      (p, found, elim origin [ inl e ↦ inl (sym e) | inr i ↦ inr i ], (first, oldest))

  IsOldest-entry :
      (p q : Text × ℕ) (m : Map Text E) → IsOldest p m → IsEntry q m → goes_first q p ≡ false
  IsOldest-entry p q [] o i = absurd i
  IsOldest-entry p q (x ∷ m) o (inl e) = subst (λ y. goes_first y p ≡ false) e o.0
  IsOldest-entry p q (x ∷ m) o (inr i) = IsOldest-entry p q m o.1 i

  -- Two listings of one map: whatever order the loop meets the entries in, it finds the same one.
  pub oldest_order_free :
      (m n : Map Text E)
      → ((p : Text × ℕ) → IsEntry p m ↔ IsEntry p n)
      → oldest_from last_access none m ≡ oldest_from last_access none n
  oldest_order_free [] [] same = refl
  oldest_order_free [] (y ∷ n) same = absurd ((same (stamp y)).1 (inl refl))
  oldest_order_free (x ∷ m) [] same = absurd ((same (stamp x)).0 (inl refl))
  oldest_order_free (x ∷ m) (y ∷ n) same =
      let (p, found_p, entry_p, oldest_p) = oldest_lem x m in
      let (q, found_q, entry_q, oldest_q) = oldest_lem y n in
      let back = IsOldest-entry p q (x ∷ m) oldest_p ((same q).1 entry_q) in
      let forth = IsOldest-entry q p (y ∷ n) oldest_q ((same p).0 entry_p) in
      found_p ∙ ap some (goes_first_total p q forth back) ∙ sym found_q

  entry_stored : (p : Text × ℕ) (m : Map Text E) → IsEntry p m → (e : E) × (lookup p.0 m ≡ some e)
  unfolding lookup
  entry_stored p [] i = absurd i
  entry_stored p ((key, entry) ∷ m) i = elim (Bool-cases (text_eq key p.0)) [
    | inl here ↦ (entry, rw here)
    | inr there ↦ elim i [
      | inl e ↦ absurd (
          let f : text_eq key p.0 ≡ true = (text_eq_iff key p.0).1 (ap (λ q. q.0) e) in
          ground arith)
      | inr i' ↦ let (e, found) = entry_stored p m i' in (e, rw there found)
    ]
  ]

  -- No key of the map is the empty string.
  abbrev pub IsNamed : Map Text E → Type 0
  IsNamed m = All (λ x. text_eq x.0 [] ≡ false) m

  IsNamed-entry : (p : Text × ℕ) (m : Map Text E) → IsNamed m → IsEntry p m → text_eq p.0 [] ≡ false
  IsNamed-entry p [] h i = absurd i
  IsNamed-entry p (x ∷ m) h (inl e) = subst (λ q. text_eq q.0 [] ≡ false) e h.0
  IsNamed-entry p (x ∷ m) h (inr i) = IsNamed-entry p m h.1 i

  evict_oldest-lt :
      (x : Text × E) (m : Map Text E)
      → IsNamed (x ∷ m)
      → length (evict_oldest last_access (x ∷ m)) < length (x ∷ m)
  unfolding evict_oldest
  evict_oldest-lt x m named =
      let (p, found, entry, oldest) = oldest_lem x m in
      let (e, stored) = entry_stored p (x ∷ m) entry in
      rw (found, evict_oldest, IsNamed-entry p (x ∷ m) named entry)
        (length-delete-lt p.0 e (x ∷ m) stored)

  make_room-lt :
      (max : ℕ) (key : Text) (m : Map Text E)
      → 0 < max
      → IsNamed m
      → length m ≤ max
      → length (make_room last_access max key m) < max
  unfolding make_room
  make_room-lt max key m p named h =
      go (delete key m) (All-delete _ key m named) (length-delete-le key m)
    where
      go :
          (kept : Map Text E)
          → IsNamed kept
          → length kept ≤ length m
          → length (if leb max (length kept) then evict_oldest last_access kept else kept) < max
      go [] n le = ground arith
      go (x ∷ kept) n le = ground (arith, evict_oldest-lt x kept n)

  -- If `maxKeys` is at least 1, no key of the map is empty and the map is within `maxKeys`, then it
  -- still is after the room is made for an entry and the entry is stored.
  pub make_room-bounded :
      (max : ℕ) (key : Text) (entry : E) (m : Map Text E)
      → 0 < max
      → IsNamed m
      → length m ≤ max
      → length (insert key entry (make_room last_access max key m)) ≤ max
  make_room-bounded max key entry m p named h = omega (
    arith,
    make_room-lt max key m p named h,
    length-insert-le key entry (make_room last_access max key m),
  )

  -- Where the loop of `evictOldest` finds the empty key, nothing is evicted: a key that has no entry
  -- is stored on top of all the entries there are, whatever the limit.
  pub empty_key_overflows :
      (max t : ℕ) (key : Text) (entry : E) (m : Map Text E)
      → oldest_from last_access none m ≡ some ([], t)
      → lookup key m ≡ none
      → length (insert key entry (make_room last_access max key m)) ≡ length m + 1
  unfolding make_room evict_oldest text_eq
  empty_key_overflows max t key entry m found absent =
      let same : make_room last_access max key m ≡ m =
        rw (delete_absent key m absent, found, evict_oldest, delete_absent key m absent)
          (ground arith) in
      rw same (length-insert_absent key entry m absent)
