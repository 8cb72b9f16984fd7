-- ===== src/Router/Allow/Order.antt =====
-- The list of allowed methods of router.go does not depend on the order in which Go's map gives them.
use mathlib.Core.Quot
use mathlib.Core.Quot.{Quot}
use zerohttp.Prelude.{
  ◌≡◌, refl, sym, ap, ◌∙◌, ◌⊎◌, ◌↔◌, inl, inr, Bool, true, false, not, ◌&&◌, List, [], ◌∷◌, ◌++◌,
  arith, Bool-cases, if◌then◌else◌,
}
use zerohttp.Text.{Text, codes, text_eq, text_lt, join}
use zerohttp.Text.Laws.{text_eq_iff, text_lt_total, text_lt_asym, text_lt_neg_trans}
use zerohttp.Http.Contains.{IsIn}
use zerohttp.Map.{lookup, text_keys}
use zerohttp.Router.{Methods, has_method}
use zerohttp.Router.Allow.{keys, insert_sorted, sort, implicit_methods, allowed_methods}

-- Two listings of one map: neighbours with different keys may change places.
pub data SameMap : Methods → Methods → Type 0 where
  empty : SameMap [] []
  cons : (p : Text × Bool) {m n : Methods} → SameMap m n → SameMap (p ∷ m) (p ∷ n)
  swap :
      (p q : Text × Bool) (m : Methods) → text_eq p.0 q.0 ≡ false → SameMap (p ∷ q ∷ m) (q ∷ p ∷ m)
  trans : {m n o : Methods} → SameMap m n → SameMap n o → SameMap m o

insert_sorted_comm :
    (x y : Text) (l : List Text)
    → insert_sorted x (insert_sorted y l) ≡ insert_sorted y (insert_sorted x l)
unfolding insert_sorted
insert_sorted_comm x y [] = ground (arith, text_lt_total x y, text_lt_asym x y)
insert_sorted_comm x y (z ∷ l) = elim (Bool-cases (text_lt z x)) [
  | inl zx ↦ elim (Bool-cases (text_lt z y)) [
    | inl zy ↦ ground (arith, insert_sorted_comm x y l)
    | inr zy ↦ ground (arith, text_lt_neg_trans z y x, text_lt_asym y x)
  ]
  | inr zx ↦ elim (Bool-cases (text_lt z y)) [
    | inl zy ↦ ground (arith, text_lt_neg_trans z x y, text_lt_asym x y)
    | inr zy ↦ ground (arith, text_lt_total x y, text_lt_asym x y)
  ]
]

sort_onto : (xs ys : List Text) → List Text
sort_onto [] ys = sort ys
sort_onto (x ∷ xs) ys = insert_sorted x (sort_onto xs ys)

sort-append : (xs ys : List Text) → sort (xs ++ ys) ≡ sort_onto xs ys
unfolding sort sort_onto
sort-append [] ys = refl
sort-append (x ∷ xs) ys = ap (insert_sorted x) (sort-append xs ys)

sort-same :
    {m n : Methods} (rest : List Text)
    → SameMap m n
    → sort_onto (keys m) rest ≡ sort_onto (keys n) rest
unfolding sort_onto
sort-same rest empty = refl
sort-same rest (cons p s) = ap (insert_sorted p.0) (sort-same rest s)
sort-same rest (swap p q m e) = insert_sorted_comm p.0 q.0 (sort_onto (keys m) rest)
sort-same rest (trans s t) = sort-same rest s ∙ sort-same rest t

has_method-same :
    {m n : Methods} (method : Text) → SameMap m n → has_method method m ≡ has_method method n
unfolding has_method lookup
has_method-same method empty = refl
has_method-same method (cons p s) = ground (arith, has_method-same method s)
has_method-same method (swap p q m e) =
    ground (arith, text_eq_iff p.0 q.0, text_eq_iff p.0 method, text_eq_iff q.0 method)
has_method-same method (trans s t) = has_method-same method s ∙ has_method-same method t

implicit_methods-same : {m n : Methods} → SameMap m n → implicit_methods m ≡ implicit_methods n
unfolding implicit_methods
implicit_methods-same s = rw (
  has_method-same (codes "GET") s,
  has_method-same (codes "HEAD") s,
  has_method-same (codes "OPTIONS") s,
)

-- In whatever order Go's map gives the methods of a path, `Allow` has the same value.
pub allowed_methods_order_free :
    {m n : Methods} → SameMap m n → allowed_methods m ≡ allowed_methods n
unfolding allowed_methods
allowed_methods_order_free {m} {n} s =
    ap (λ l. join l (codes ", "))
      (sort-append (keys m) (implicit_methods m)
        ∙ sort-same (implicit_methods m) s
        ∙ ap (sort_onto (keys n)) (implicit_methods-same s)
        ∙ sym (sort-append (keys n) (implicit_methods n)))

Text-set : IsSet Text
Text-set = hlevel

-- The methods of a path without an order, and `Allow` of them.
abbrev pub MethodSet : Type 0
MethodSet = Quot SameMap

pub allow_of : MethodSet → Text
allow_of = Quot.lift Text-set allowed_methods (λ m n s. allowed_methods_order_free s)

IsIn-insert_sorted :
    (x y : Text) (l : List Text) → IsIn x (insert_sorted y l) ↔ ((x ≡ y) ⊎ IsIn x l)
unfolding insert_sorted
IsIn-insert_sorted x y [] = ((λ h. h), (λ h. h))
IsIn-insert_sorted x y (z ∷ l) = elim (Bool-cases (text_lt z y)) [
  | inl later ↦
      let (f, g) = IsIn-insert_sorted x y l in
      rw later (
        (λ h. elim h [
          | inl first ↦ inr (inl first)
          | inr more ↦ elim (f more) [ inl this ↦ inl this | inr rest ↦ inr (inr rest) ]
        ]),
        (λ h. elim h [
          | inl this ↦ inr (g (inl this))
          | inr (inl first) ↦ inl first
          | inr (inr rest) ↦ inr (g (inr rest))
        ]),
      )
  | inr here ↦ rw here ((λ h. h), (λ h. h))
]

IsIn-sort : (x : Text) (l : List Text) → IsIn x (sort l) ↔ IsIn x l
unfolding sort
IsIn-sort x [] = ((λ h. h), (λ h. h))
IsIn-sort x (y ∷ l) =
    let (f, g) = IsIn-insert_sorted x y (sort l) in
    let (f', g') = IsIn-sort x l in
    (
      (λ h. elim (f h) [ inl this ↦ inl this | inr rest ↦ inr (f' rest) ]),
      (λ h. elim h [ inl this ↦ g (inl this) | inr rest ↦ g (inr (g' rest)) ]),
    )

IsIn-append : (x : Text) (xs ys : List Text) → IsIn x (xs ++ ys) ↔ (IsIn x xs ⊎ IsIn x ys)
IsIn-append x [] ys = ((λ h. inr h), (λ h. elim h [ inl none_ ↦ absurd none_ | inr there ↦ there ]))
IsIn-append x (y ∷ xs) ys =
    let (f, g) = IsIn-append x xs ys in
    (
      (λ h. elim h [
        | inl this ↦ inl (inl this)
        | inr more ↦ elim (f more) [ inl left ↦ inl (inr left) | inr right ↦ inr right ]
      ]),
      (λ h. elim h [
        | inl (inl this) ↦ inl this
        | inl (inr left) ↦ inr (g (inl left))
        | inr right ↦ inr (g (inr right))
      ]),
    )

IsIn-when : (x y : Text) (b : Bool) → IsIn x (if b then y ∷ [] else []) ↔ ((x ≡ y) × (b ≡ true))
IsIn-when x y true = ((λ h. elim h [ inl e ↦ (e, refl) | inr i ↦ absurd i ]), (λ h. inl h.0))
IsIn-when x y false = ((λ h. absurd h), (λ (h : (x ≡ y) × (false ≡ true)). let e = h.1 in cc))

IsIn-unless : (x y : Text) (b : Bool) → IsIn x (if b then [] else y ∷ []) ↔ ((x ≡ y) × (b ≡ false))
IsIn-unless x y false = ((λ h. elim h [ inl e ↦ (e, refl) | inr i ↦ absurd i ]), (λ h. inl h.0))
IsIn-unless x y true = ((λ h. absurd h), (λ (h : (x ≡ y) × (true ≡ false)). let e = h.1 in cc))

IsIn-implicit_methods :
    (x : Text) (m : Methods)
    → IsIn x (implicit_methods m) ↔ (
        ((x ≡ codes "HEAD")
          × (has_method (codes "GET") m ≡ true)
          × (has_method (codes "HEAD") m ≡ false))
        ⊎ ((x ≡ codes "OPTIONS") × (has_method (codes "OPTIONS") m ≡ false)))
unfolding implicit_methods
IsIn-implicit_methods x m =
    let get = has_method (codes "GET") m in
    let head = has_method (codes "HEAD") m in
    let options = has_method (codes "OPTIONS") m in
    let (f, g) =
      IsIn-append x (if get && not head then codes "HEAD" ∷ [] else [])
        (if options then [] else codes "OPTIONS" ∷ []) in
    let (f', g') = IsIn-when x (codes "HEAD") (get && not head) in
    let (h', k') = IsIn-unless x (codes "OPTIONS") options in
    (
      (λ i. elim (f i) [
        | inl heads ↦ let (e, b) = f' heads in inl (e, ground arith, ground arith)
        | inr opts ↦ inr (h' opts)
      ]),
      (λ i. elim i [ inl (e, b, d) ↦ g (inl (g' (e, ground arith))) | inr p ↦ g (inr (k' p)) ]),
    )

-- `Allow` lists a method exactly when it is registered for the path, or it is HEAD where GET is
-- registered without HEAD, or OPTIONS where that is not registered.
pub allowed_methods_iff :
    (x : Text) (m : Methods)
    → IsIn x (sort (keys m ++ implicit_methods m)) ↔ (
        IsIn x (keys m)
        ⊎ (((x ≡ codes "HEAD")
              × (has_method (codes "GET") m ≡ true)
              × (has_method (codes "HEAD") m ≡ false))
            ⊎ ((x ≡ codes "OPTIONS") × (has_method (codes "OPTIONS") m ≡ false))))
allowed_methods_iff x m =
    let (f, g) = IsIn-sort x (keys m ++ implicit_methods m) in
    let (f', g') = IsIn-append x (keys m) (implicit_methods m) in
    let (h, k) = IsIn-implicit_methods x m in
    (
      (λ i. elim (f' (f i)) [ inl known ↦ inl known | inr more ↦ inr (h more) ]),
      (λ i. elim i [ inl known ↦ g (g' (inl known)) | inr more ↦ g (g' (inr (k more))) ]),
    )
