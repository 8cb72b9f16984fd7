-- ===== src/Cache/Store/Represents/Addressed.antt =====
-- Entries of middleware/cache/store.go together with their addresses, the most recent first.
use mathlib.Core.Path.{subst}
use zerohttp.Prelude.{
  ℕ, ◌+◌, ◌≡◌, ◌≢◌, refl, true, false, List, [], ◌∷◌, Option, none, some, All, length, arith,
  Bool-cases, inl, inr, if◌then◌else◌, sym, ap,
}
use zerohttp.Text.{Text, text_eq}
use zerohttp.Text.Laws.{text_eq_iff, text_eq_refl}
use zerohttp.Cache.Store.{CacheEntry, remove_element, has_element, back}
use zerohttp.Cache.Store.Recency.{find, without, drop_last}

abbrev pub Cells : Type 0 → Type 0
Cells R = List (ℕ × CacheEntry R)

module _ {R : Type 0} where
  abbrev pub find_cell : Text → Cells R → Option (ℕ × CacheEntry R)
  find_cell key [] = none
  find_cell key ((a, e) ∷ xs) = if text_eq e.key key then some (a, e) else find_cell key xs

  abbrev pub address_in : Option (ℕ × CacheEntry R) → Option ℕ
  address_in none = none
  address_in (some (a, e)) = some a

  abbrev pub cells_without : Text → Cells R → Cells R
  cells_without key [] = []
  cells_without key ((a, e) ∷ xs) =
      let rest = cells_without key xs in if text_eq e.key key then xs else (a, e) ∷ rest

  abbrev pub addresses : Cells R → List ℕ
  addresses [] = []
  addresses ((a, e) ∷ xs) = a ∷ addresses xs

  abbrev pub erased : Cells R → List (CacheEntry R)
  erased [] = []
  erased ((a, e) ∷ xs) = e ∷ erased xs

  -- No two cells have the key or the address in common.
  abbrev pub AreApart : Cells R → Type 0
  AreApart [] = Unit
  AreApart ((a, e) ∷ xs) =
      (find_cell e.key xs ≡ none) × All (λ (x : ℕ × CacheEntry R). x.0 ≢ a) xs × AreApart xs

  pub All-find_cell {ι} :
      (P : ℕ × CacheEntry R → Type ι) (key : Text) (a : ℕ) (e : CacheEntry R) (xs : Cells R)
      → find_cell key xs ≡ some (a, e)
      → All P xs
      → P (a, e)
  All-find_cell P key a e [] h all = absurd (ground arith)
  All-find_cell P key a e ((b, f) ∷ xs) h (p, all) = elim (Bool-cases (text_eq f.key key)) [
    | inl same ↦ let q : (b, f) ≡ (a, e) = ground arith in subst P q p
    | inr other ↦ All-find_cell P key a e xs (ground arith) all
  ]

  pub find_cell-key :
      (key : Text) (a : ℕ) (e : CacheEntry R) (xs : Cells R)
      → find_cell key xs ≡ some (a, e)
      → e.key ≡ key
  find_cell-key key a e [] h = cc
  find_cell-key key a e ((b, f) ∷ xs) h =
      ground (arith, find_cell-key key a e xs, text_eq_iff f.key key)

  pub remove_element-found :
      (key : Text) (a : ℕ) (e : CacheEntry R) (xs : Cells R)
      → AreApart xs
      → find_cell key xs ≡ some (a, e)
      → remove_element a (addresses xs) ≡ addresses (cells_without key xs)
  unfolding remove_element
  remove_element-found key a e [] apart h = cc
  remove_element-found key a e ((b, f) ∷ xs) (fresh, other_addresses, apart) h = ground (
    arith,
    remove_element-found key a e xs apart,
    All-find_cell (λ (x : ℕ × CacheEntry R). x.0 ≢ b) key a e xs,
  )

  pub has_element-found :
      (key : Text) (a : ℕ) (e : CacheEntry R) (xs : Cells R)
      → find_cell key xs ≡ some (a, e)
      → has_element a (addresses xs) ≡ true
  unfolding has_element
  has_element-found key a e [] h = cc
  has_element-found key a e ((b, f) ∷ xs) h = ground (arith, has_element-found key a e xs)

  pub find_cell-without :
      (key other : Text) (xs : Cells R)
      → AreApart xs
      → find_cell other (cells_without key xs)
        ≡ (if text_eq key other then none else find_cell other xs)
  find_cell-without key other [] apart = ground arith
  find_cell-without key other ((b, f) ∷ xs) (fresh, other_addresses, apart) = ground (
    arith,
    find_cell-without key other xs apart,
    text_eq_iff key other,
    text_eq_iff f.key other,
    text_eq_iff f.key key,
  )

  pub All-without {ι} :
      (P : ℕ × CacheEntry R → Type ι) (key : Text) (xs : Cells R)
      → All P xs
      → All P (cells_without key xs)
  All-without P key [] h = h
  All-without P key ((b, f) ∷ xs) (p, h) = elim (Bool-cases (text_eq f.key key)) [
    | inl same ↦ rw same h
    | inr other ↦ rw other (p, All-without P key xs h)
  ]

  pub AreApart-without : (key : Text) (xs : Cells R) → AreApart xs → AreApart (cells_without key xs)
  AreApart-without key [] h = h
  AreApart-without key ((b, f) ∷ xs) (fresh, others, h) = elim (Bool-cases (text_eq f.key key)) [
    | inl same ↦ rw same h
    | inr other ↦ rw other (
      ground (arith, find_cell-without key f.key xs h),
      All-without (λ (x : ℕ × CacheEntry R). x.0 ≢ b) key xs others,
      AreApart-without key xs h,
    )
  ]

  pub length-without :
      (key : Text) (a : ℕ) (e : CacheEntry R) (xs : Cells R)
      → find_cell key xs ≡ some (a, e)
      → length (cells_without key xs) + 1 ≡ length xs
  length-without key a e [] h = cc
  length-without key a e ((b, f) ∷ xs) h = ground (arith, length-without key a e xs)

  -- The other cells lie elsewhere.
  pub addresses-without :
      (key : Text) (a : ℕ) (e : CacheEntry R) (xs : Cells R)
      → AreApart xs
      → find_cell key xs ≡ some (a, e)
      → All (λ (x : ℕ × CacheEntry R). x.0 ≢ a) (cells_without key xs)
  addresses-without key a e [] apart h = tt
  addresses-without key a e ((b, f) ∷ xs) (fresh, others, apart) h =
      elim (Bool-cases (text_eq f.key key)) [
        | inl same ↦
            let q : b ≡ a = ground arith in
            rw same (subst (λ (c : ℕ). All (λ (x : ℕ × CacheEntry R). x.0 ≢ c) xs) q others)
        | inr other ↦
            let apart_here : a ≢ b =
              All-find_cell (λ (x : ℕ × CacheEntry R). x.0 ≢ b) key a e xs (ground arith) others in
            rw other ((λ q. apart_here (sym q)), addresses-without key a e xs apart (ground arith))
      ]

  -- The last cell is at the back, and taking its key out takes the last cell out.
  pub back-cells :
      (x : ℕ × CacheEntry R) (xs : Cells R)
      → AreApart (x ∷ xs)
      → (a : ℕ) × (e : CacheEntry R) × (back (addresses (x ∷ xs)) ≡ some a)
        × (find_cell e.key (x ∷ xs) ≡ some (a, e))
        × (erased (cells_without e.key (x ∷ xs)) ≡ drop_last (erased (x ∷ xs)))
  unfolding back
  back-cells (a, e) [] apart =
      (a, e, refl, ground (arith, text_eq_refl e.key), ground (arith, text_eq_refl e.key))
  back-cells (b, f) (y ∷ ys) (fresh, others, apart) =
      let (a, e, last, found, taken) = back-cells y ys apart in
      let differs : text_eq f.key e.key ≡ false = ground (arith, text_eq_iff f.key e.key) in
      (a, e, last, rw differs found, rw differs (ap (λ zs. f ∷ zs) taken))

  pub erased-without :
      (key : Text) (xs : Cells R) → erased (cells_without key xs) ≡ without key (erased xs)
  erased-without key [] = refl
  erased-without key ((b, f) ∷ xs) = ground (arith, erased-without key xs)

  abbrev pub entry_in : Option (ℕ × CacheEntry R) → Option (CacheEntry R)
  entry_in none = none
  entry_in (some (a, e)) = some e

  pub find-erased : (key : Text) (xs : Cells R) → find key (erased xs) ≡ entry_in (find_cell key xs)
  find-erased key [] = refl
  find-erased key ((b, f) ∷ xs) = ground (arith, find-erased key xs)

  pub length-erased : (xs : Cells R) → length (erased xs) ≡ length xs
  length-erased [] = refl
  length-erased (x ∷ xs) = ap ℕ.suc (length-erased xs)

  pub length-addresses : (xs : Cells R) → length (addresses xs) ≡ length xs
  length-addresses [] = refl
  length-addresses (x ∷ xs) = ap ℕ.suc (length-addresses xs)
