-- ===== src/Map.antt =====
-- Go maps as association lists. The order of the list is the order in which the source's loop over
-- the map meets the entries; Go leaves that order open, so what is proved of all lists holds of
-- every order.
use zerohttp.Prelude.{
  All, Bool-cases, inl, inr, ℕ, ◌+◌, ◌≤◌, ◌<◌, ◌≡◌, refl, ◌↔◌, Bool, true, List, [], ◌∷◌, Option,
  none, some, arith, if◌then◌else◌, length, nat_beq, nat_beq_iff,
}
use zerohttp.Text.{Text, text_eq}
use zerohttp.Text.Laws.{text_eq_iff}

-- Keys are compared by `beq`.
pub record Eq {ℓ} (A : Type ℓ) : Type ℓ where
  pub beq : A → A → Bool
  pub beq_iff : (a b : A) → (beq a b ≡ true) ↔ (a ≡ b)

instance abbrev pub text_keys : Eq Text
text_keys = record { beq = text_eq; beq_iff = text_eq_iff }

instance abbrev pub nat_keys : Eq ℕ
nat_keys = record { beq = nat_beq; beq_iff = nat_beq_iff }

pub beq_self {ℓ} : {K : Type ℓ} ⦃e : Eq K⦄ (k : K) → e.beq k k ≡ true
beq_self ⦃e⦄ k = (e.beq_iff k k).1 refl

abbrev pub Map {ℓ κ} : Type ℓ → Type κ → Type (ℓ ⊔ κ)
Map K V = List (K × V)

module _ {ℓ κ} {K : Type ℓ} {V : Type κ} ⦃e : Eq K⦄ where
  unfoldable pub lookup : K → Map K V → Option V
  lookup k [] = none
  lookup k ((j, v) ∷ m) = if e.beq j k then some v else lookup k m

  unfoldable pub delete : K → Map K V → Map K V
  delete k [] = []
  delete k ((j, v) ∷ m) = let rest = delete k m in if e.beq j k then rest else (j, v) ∷ rest

  unfoldable pub insert : K → V → Map K V → Map K V
  insert k v [] = (k, v) ∷ []
  insert k v ((j, w) ∷ m) =
      let rest = insert k v m in if e.beq j k then (k, v) ∷ m else (j, w) ∷ rest

  pub lookup-delete :
      (k j : K) (m : Map K V) → lookup j (delete k m) ≡ (if e.beq k j then none else lookup j m)
  unfolding lookup delete
  lookup-delete k j [] = ground arith
  lookup-delete k j ((i, w) ∷ m) =
      ground (arith, e.beq_iff k j, e.beq_iff i k, e.beq_iff i j, lookup-delete k j m)

  pub lookup-insert :
      (k j : K) (v : V) (m : Map K V)
      → lookup j (insert k v m) ≡ (if e.beq k j then some v else lookup j m)
  unfolding lookup insert
  lookup-insert k j v [] = refl
  lookup-insert k j v ((i, w) ∷ m) =
      ground (arith, e.beq_iff k j, e.beq_iff i k, e.beq_iff i j, lookup-insert k j v m)

  pub length-delete-le : (k : K) (m : Map K V) → length (delete k m) ≤ length m
  unfolding delete
  length-delete-le k [] = omega arith
  length-delete-le k ((j, v) ∷ m) = ground (arith, length-delete-le k m)

  pub length-delete-lt :
      (k : K) (v : V) (m : Map K V) → lookup k m ≡ some v → length (delete k m) < length m
  unfolding delete lookup
  length-delete-lt k v [] h = cc
  length-delete-lt k v ((j, w) ∷ m) h = ground (arith, length-delete-lt k v m, length-delete-le k m)

  pub length-insert-le : (k : K) (v : V) (m : Map K V) → length (insert k v m) ≤ length m + 1
  unfolding insert
  length-insert-le k v [] = omega arith
  length-insert-le k v ((j, w) ∷ m) = ground (arith, length-insert-le k v m)

  -- Writing a key that is there does not grow the map.
  pub length-insert_present :
      (k : K) (v w : V) (m : Map K V) → lookup k m ≡ some w → length (insert k v m) ≡ length m
  unfolding insert lookup
  length-insert_present k v w [] h = cc
  length-insert_present k v w ((j, u) ∷ m) h = ground (arith, length-insert_present k v w m)

  pub delete_absent : (k : K) (m : Map K V) → lookup k m ≡ none → delete k m ≡ m
  unfolding delete lookup
  delete_absent k [] h = refl
  delete_absent k ((j, v) ∷ m) h = ground (arith, delete_absent k m)

  pub length-insert_absent :
      (k : K) (v : V) (m : Map K V) → lookup k m ≡ none → length (insert k v m) ≡ length m + 1
  unfolding insert lookup
  length-insert_absent k v [] h = omega arith
  length-insert_absent k v ((j, w) ∷ m) h = ground (arith, length-insert_absent k v m)

  -- What holds of every entry of a map holds of every entry once one is deleted.
  pub All-delete {ι} : (P : K × V → Type ι) (k : K) (m : Map K V) → All P m → All P (delete k m)
  unfolding delete
  All-delete P k [] h = h
  All-delete P k ((j, v) ∷ m) (h, hs) = elim (Bool-cases (e.beq j k)) [
    | inl same ↦ rw same (All-delete P k m hs)
    | inr other ↦ rw other (h, All-delete P k m hs)
  ]

  pub All-insert {ι} :
      (P : K × V → Type ι) (k : K) (v : V) (m : Map K V) → P (k, v) → All P m → All P (insert k v m)
  unfolding insert
  All-insert P k v [] p h = (p, tt)
  All-insert P k v ((j, w) ∷ m) p (h, hs) = elim (Bool-cases (e.beq j k)) [
    | inl same ↦ rw same (p, hs)
    | inr other ↦ rw other (h, All-insert P k v m p hs)
  ]

-- Every key stands in one entry alone, as in a map of Go.
module _ {ℓ κ} {K : Type ℓ} {V : Type κ} ⦃e : Eq K⦄ where
  abbrev pub IsMap : Map K V → Type κ
  IsMap [] = Unit
  IsMap ((k, v) ∷ m) = (lookup k m ≡ none) × IsMap m

  pub IsMap-delete : (k : K) (m : Map K V) → IsMap m → IsMap (delete k m)
  unfolding delete
  IsMap-delete k [] h = tt
  IsMap-delete k ((j, v) ∷ m) (fresh, h) = elim (Bool-cases (e.beq j k)) [
    | inl same ↦ rw same (IsMap-delete k m h)
    | inr other ↦
        rw other
          (ground (arith, lookup-delete k j m, e.beq_iff k j, e.beq_iff j k), IsMap-delete k m h)
  ]

  pub IsMap-insert : (k : K) (v : V) (m : Map K V) → IsMap m → IsMap (insert k v m)
  unfolding insert lookup
  IsMap-insert k v [] h = (refl, tt)
  IsMap-insert k v ((j, w) ∷ m) (fresh, h) = elim (Bool-cases (e.beq j k)) [
    | inl same ↦ rw same (ground (arith, e.beq_iff j k), h)
    | inr other ↦
        rw other (
          ground (arith, lookup-insert k j v m, e.beq_iff k j, e.beq_iff j k),
          IsMap-insert k v m h,
        )
  ]

  pub length-delete_present :
      (k : K) (v : V) (m : Map K V)
      → IsMap m
      → lookup k m ≡ some v
      → length (delete k m) + 1 ≡ length m
  unfolding delete lookup
  length-delete_present k v [] h found = cc
  length-delete_present k v ((j, w) ∷ m) (fresh, h) found =
      ground (arith, e.beq_iff j k, length-delete_present k v m h, delete_absent k m)
