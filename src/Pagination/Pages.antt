-- ===== src/Pagination/Pages.antt =====
-- The pages of pagination/pagination.go and the items that they hold.
use native.Mathlib.Nat.{div-add-mod, div-le_self, mod-lt, mul_comm, suc-mul}
use zerohttp.Prelude.{
  ℕ, zero, suc, ◌+◌, ◌-◌, ◌*◌, ◌/◌, ◌%◌, ◌≤◌, ◌<◌, ◌≡◌, ◌≢◌, refl, ◌∙◌, ap, ◌⊎◌, ◌↔◌, inl, inr,
  true, none, some, arith, nat_beq_iff, Bool-cases, Option-cases,
}
use zerohttp.Prelude.Int.{ℤ, pos, negsuc, ◌+ℤ◌, ◌-ℤ◌, ◌≤ℤ◌, wrap_int, wrap_int-less_one}
use zerohttp.Pagination.{Params, defaults, quotient, total_pages, is_zero, at_least_one}

-- Parameters that name a page and a size.
abbrev pub IsValid : Params → Type 0
IsValid p = (pos 1 ≤ℤ p.page) × (pos 1 ≤ℤ p.per_page)

-- Whatever a request asks for, the defaults make parameters that name a page, of a size up to the limit,
-- and they change nothing of these; where the variables of the package are positive.
pub defaults-IsValid :
    (default_per_page max : ℤ) (p : Params)
    → pos 1 ≤ℤ default_per_page
    → pos 1 ≤ℤ max
    → IsValid (defaults default_per_page max p)
      × ((defaults default_per_page max p).per_page ≤ℤ max)
      × (defaults default_per_page max (defaults default_per_page max p)
          ≡ defaults default_per_page max p)
unfolding defaults
defaults-IsValid d max p positive limit = ((ground arith, ground arith), ground arith, ground arith)

is_zero_sound : (a : ℤ) → is_zero a ≡ true → a ≡ pos 0
is_zero_sound (pos n) h = ground (arith, nat_beq_iff n 0)
is_zero_sound (negsuc n) h = cc

quotient-none_iff : (a b : ℤ) → (quotient a b ≡ none) ↔ (b ≡ pos 0)
quotient-none_iff (pos m) (pos zero) = ((λ e. refl), (λ e. refl))
quotient-none_iff (negsuc m) (pos zero) = ((λ e. refl), (λ e. refl))
quotient-none_iff (pos m) (pos (suc n)) = ((λ e. cc), (λ e. ground arith))
quotient-none_iff (pos m) (negsuc n) = ((λ e. cc), (λ e. cc))
quotient-none_iff (negsuc m) (pos (suc n)) = ((λ e. cc), (λ e. ground arith))
quotient-none_iff (negsuc m) (negsuc n) = ((λ e. cc), (λ e. cc))

-- TotalPages divides by zero exactly where there are items and the size is 0.
pub total_pages_none_iff :
    (p : Params) (total : ℤ)
    → (total_pages p total ≡ none) ↔ ((p.per_page ≡ pos 0) × (total ≢ pos 0))
unfolding total_pages
total_pages_none_iff p total = elim (Bool-cases (is_zero total)) [
  | inl empty ↦
      let nothing = is_zero_sound total empty in
      rw (empty, total_pages) ((λ e. cc), (λ h. absurd (h.1 nothing)))
  | inr some_items ↦
      let (forth, back) =
        quotient-none_iff (wrap_int (wrap_int (total +ℤ p.per_page) -ℤ pos 1)) p.per_page in
      let items : total ≢ pos 0 = λ e. ground arith in
      elim (Option-cases
        (quotient (wrap_int (wrap_int (total +ℤ p.per_page) -ℤ pos 1)) p.per_page)) [
          | inl panic ↦
              rw (some_items, panic, total_pages) ((λ e. (forth panic, items)), (λ h. refl))
          | inr (pages, fine) ↦
              rw (some_items, fine, total_pages) ((λ e. cc), (λ h. let none_found = back h.0 in cc))
        ]
]

-- The quotient of the items and the rest of a page.
ceiling :
    (t k n r : ℕ)
    → (k + 1) * n + r ≡ suc t + k
    → r < k + 1
    → (1 ≤ n) × (suc t ≤ n * suc k) × ((n - 1) * suc k < suc t)
ceiling t k zero r e small = absurd (omega arith)
ceiling t k (suc j) r e small =
    let product : (k + 1) * suc j ≡ suc j * suc k =
      mul_comm (k + 1) (suc j) ∙ ap (λ x. suc j * x) (omega arith) in
    let unfolded : suc j * suc k ≡ j * suc k + suc k = suc-mul j (suc k) in
    let before : (suc j - 1) * suc k ≡ j * suc k = ap (λ x. x * suc k) (omega arith) in
    (omega arith, omega arith, omega arith)

-- With a positive size, and items that together with the size are at most 2 ^ 63, the pages hold all
-- items, there is at least one, and none but the first is empty.
pub total_pages_lem :
    (page : ℤ) (per total : ℕ)
    → 0 < per
    → total + per ≤ 9223372036854775808
    → (n : ℕ) × (total_pages (record { page = page; per_page = pos per }) (pos total)
        ≡ some (pos n))
      × (1 ≤ n)
      × (total ≤ n * per)
      × ((n ≡ 1) ⊎ ((n - 1) * per < total))
unfolding total_pages
total_pages_lem page per zero positive small = (1, refl, omega arith, omega arith, inl refl)
total_pages_lem page zero (suc t) positive small = absurd (omega arith)
total_pages_lem page (suc k) (suc t) positive small =
    let last = suc t + suc k - 1 in
    let whole : wrap_int (wrap_int (pos (suc t) +ℤ pos (suc k)) -ℤ pos 1) ≡ pos last =
      let sum : pos (suc t) +ℤ pos (suc k) ≡ pos (suc t + suc k) = ground arith in
      ap (λ x. wrap_int (wrap_int x -ℤ pos 1)) sum
      ∙ wrap_int-less_one (suc t + suc k) (omega arith) small in
    let (one, hold, full) =
      ceiling t k (last / (k + 1)) (last % (k + 1)) (div-add-mod last (k + 1) ∙ omega arith)
        (mod-lt last (omega arith)) in
    let below : last / (k + 1) ≤ last = div-le_self last (k + 1) in
    let counted : at_least_one (wrap_int (pos (last / (k + 1)))) ≡ pos (last / (k + 1)) =
      ground arith in
    (last / (k + 1), rw (whole, total_pages, counted) (ground arith), one, hold, inr full)
