-- ===== src/Idempotency/Bounded.antt =====
-- How many entries the MemoryStore of middleware/idempotency/store.go has.
use mathlib.Core.Path.{subst}
use zerohttp.Prelude.{
  ℕ, ◌+◌, ◌≤◌, ◌<◌, ◌≡◌, ◌≢◌, refl, sym, ◌∙◌, ◌⊎◌, inl, inr, false, ◌||◌, [], ◌∷◌, All, Exists,
  if◌then◌else◌, length, arith, ltb, leb, Bool-cases,
}
use zerohttp.Text.{Text, text_eq}
use zerohttp.Text.Laws.{text_eq_iff}
use zerohttp.Map.{Map, delete, text_keys, length-insert-le, length-delete-le}
use zerohttp.Idempotency.{
  Record, Entry, MemoryStore, remove_expired, oldest_from, remove_oldest, make_room, set_record,
}

-- No key is empty, as with the keys of the handler, which hold colons.
abbrev pub HasNames : Map Text Entry → Type 0
HasNames m = All (λ (x : Text × Entry). x.0 ≢ []) m

abbrev IsKey : Text → Map Text Entry → Type 0
IsKey k m = Exists (λ (x : Text × Entry). x.0 ≡ k) m

oldest_from_lem :
    (k : Text) (t : ℕ) (m : Map Text Entry) → (oldest_from k t m ≡ k) ⊎ IsKey (oldest_from k t m) m
unfolding oldest_from
oldest_from_lem k t [] = inl refl
oldest_from_lem k t ((j, e) ∷ m) =
    let Found : Text → Type 0 = λ x. (x ≡ k) ⊎ IsKey x ((j, e) ∷ m) in
    elim (Bool-cases (text_eq k [] || ltb e.expiry t)) [
      | inl older ↦
          let step : oldest_from k t ((j, e) ∷ m) ≡ oldest_from j e.expiry m =
            rw (older, oldest_from) refl in
          subst Found (sym step) (elim (oldest_from_lem j e.expiry m) [
            | inl same ↦ inr (inl (sym same))
            | inr later ↦ inr (inr later)
          ])
      | inr same ↦
          let step : oldest_from k t ((j, e) ∷ m) ≡ oldest_from k t m =
            rw (same, oldest_from) refl in
          subst Found (sym step)
            (elim (oldest_from_lem k t m) [ inl kept ↦ inl kept | inr later ↦ inr (inr later) ])
    ]

length-delete_key : (k : Text) (m : Map Text Entry) → IsKey k m → length (delete k m) < length m
unfolding delete
length-delete_key k [] h = absurd h
length-delete_key k ((j, e) ∷ m) (inl same) = ground (arith, text_eq_iff j k, length-delete-le k m)
length-delete_key k ((j, e) ∷ m) (inr later) =
    ground (arith, length-delete_key k m later, length-delete-le k m)

named_key : (k : Text) (m : Map Text Entry) → HasNames m → IsKey k m → k ≢ []
named_key k [] names h e = absurd h
named_key k ((j, f) ∷ m) (named, names) (inl same) e = named (same ∙ e)
named_key k ((j, f) ∷ m) (named, names) (inr later) e = named_key k m names later e

remove_oldest-lt :
    (x : Text × Entry) (m : Map Text Entry)
    → HasNames (x ∷ m)
    → length (remove_oldest (x ∷ m)) ≤ length m
unfolding remove_oldest oldest_from text_eq
remove_oldest-lt (j, e) m names =
    let oldest = oldest_from j e.expiry m in
    let present : IsKey oldest ((j, e) ∷ m) = elim (oldest_from_lem j e.expiry m) [
      | inl same ↦ inl (sym same)
      | inr later ↦ inr later
    ] in
    let named = named_key oldest ((j, e) ∷ m) names present in
    let fewer = length-delete_key oldest ((j, e) ∷ m) present in
    let test : text_eq oldest [] ≡ false = ground (arith, text_eq_iff oldest []) in
    rw test (omega arith)

HasNames-remove_expired :
    (now : ℕ) (m : Map Text Entry) → HasNames m → HasNames (remove_expired now m)
unfolding remove_expired
HasNames-remove_expired now [] h = h
HasNames-remove_expired now ((j, e) ∷ m) (n, h) = elim (Bool-cases (ltb e.expiry now)) [
  | inl old ↦ rw old (HasNames-remove_expired now m h)
  | inr fresh ↦ rw fresh (n, HasNames-remove_expired now m h)
]

length-remove_expired-le : (now : ℕ) (m : Map Text Entry) → length (remove_expired now m) ≤ length m
unfolding remove_expired
length-remove_expired-le now [] = omega arith
length-remove_expired-le now ((j, e) ∷ m) = ground (arith, length-remove_expired-le now m)

room_left :
    (max : ℕ) (kept : Map Text Entry)
    → 0 < max
    → length kept ≤ max
    → HasNames kept
    → length (if leb max (length kept) then remove_oldest kept else kept) < max
room_left max [] positive small names = ground arith
room_left max (x ∷ kept) positive small names = ground (arith, remove_oldest-lt x kept names)

-- With a limit and keys that are not empty, Set leaves no more entries than the limit where there were
-- no more before.
pub set_record-bounded :
    (now ttl : ℕ) (key : Text) (r : Record) (s : MemoryStore)
    → 0 < s.max_keys
    → HasNames s.entries
    → length s.entries ≤ s.max_keys
    → length (set_record now key r ttl s).entries ≤ s.max_keys
unfolding set_record make_room
set_record-bounded now ttl key r s positive names small =
    let kept = remove_expired now s.entries in
    let room =
      room_left s.max_keys kept positive (omega (arith, length-remove_expired-le now s.entries))
        (HasNames-remove_expired now s.entries names) in
    let added =
      length-insert-le key (record { value = r; expiry = now + ttl })
        (make_room now s.max_keys s.entries) in
    ground arith
