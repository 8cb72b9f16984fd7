-- ===== src/Pagination.antt =====
-- pagination/pagination.go: the parameters of a page, and the header fields and links that are sent with
-- it. An int has 64 bits, and its sums, products and quotients wrap. What net/url makes of a page's parameters is an argument.
pub mod Pages
pub mod Tests
use zerohttp.Prelude.{
  ℕ, ◌+◌, ◌-◌, ◌*◌, ◌/◌, Bool, true, false, List, [], ◌∷◌, ◌++◌, Option, none, some, if◌then◌else◌,
  nat_beq, map,
}
use zerohttp.Prelude.Int.{ℤ, pos, negsuc, ◌+ℤ◌, ◌-ℤ◌, leb_ℤ, ltb_ℤ, pos_part, neg_part, wrap_int}
use zerohttp.Text.{Text, codes, join, text_eq}
use zerohttp.Http.{Headers, set}
use zerohttp.Limit.Handler.{itoa}

pub record Params : Type 0 where
  pub page : ℤ
  pub per_page : ℤ

pub record ResponseHeaders : Type 0 where
  pub total : ℤ
  pub total_pages : ℤ
  pub page : ℤ
  pub per_page : ℤ
  pub has_prev : Bool
  pub has_next : Bool
  pub prev_page : ℤ
  pub next_page : ℤ

-- The two variables of the package.
module _ (default_per_page default_max_per_page : ℤ) where
  unfoldable pub defaults : Params → Params
  defaults p =
      let page = if ltb_ℤ p.page (pos 1) then pos 1 else p.page in
      let per_page = if ltb_ℤ p.per_page (pos 1) then default_per_page else p.per_page in
      record {
        page = page;
        per_page = (if ltb_ℤ default_max_per_page per_page then default_max_per_page else per_page);
      }

-- The product of integers.
abbrev pub times : ℤ → ℤ → ℤ
times (pos m) (pos n) = pos (m * n)
times (pos m) (negsuc n) = pos 0 -ℤ pos (m * (n + 1))
times (negsuc m) (pos n) = pos 0 -ℤ pos ((m + 1) * n)
times (negsuc m) (negsuc n) = pos ((m + 1) * (n + 1))

-- The quotient of Go, which rounds to zero; `none` is the panic of a division by zero.
abbrev pub quotient : ℤ → ℤ → Option ℤ
quotient a (pos ℕ.zero) = none
quotient (pos m) (pos (ℕ.suc n)) = some (pos (m / (n + 1)))
quotient (pos m) (negsuc n) = some (pos 0 -ℤ pos (m / (n + 1)))
quotient (negsuc m) (pos (ℕ.suc n)) = some (pos 0 -ℤ pos ((m + 1) / (n + 1)))
quotient (negsuc m) (negsuc n) = some (pos ((m + 1) / (n + 1)))

unfoldable pub offset : Params → ℤ
offset p = wrap_int (times (wrap_int (p.page -ℤ pos 1)) p.per_page)

unfoldable pub limit_skip : Params → ℤ × ℤ
limit_skip p = (p.per_page, offset p)

abbrev pub at_least_one : ℤ → ℤ
at_least_one pages = if ltb_ℤ pages (pos 1) then pos 1 else pages

abbrev pub is_zero : ℤ → Bool
is_zero (pos n) = nat_beq n 0
is_zero (negsuc n) = false

unfoldable pub total_pages : Params → ℤ → Option ℤ
total_pages p total =
    if is_zero total
    then some (pos 1)
    else elim (quotient (wrap_int (wrap_int (total +ℤ p.per_page) -ℤ pos 1)) p.per_page) [
      | none ↦ none
      | some pages ↦ some (at_least_one (wrap_int pages))
    ]

unfoldable pub headers_with : Params → ℤ → ℤ → ResponseHeaders
headers_with p total pages = record {
  total = total;
  total_pages = pages;
  page = p.page;
  per_page = p.per_page;
  has_prev = ltb_ℤ (pos 1) p.page;
  has_next = ltb_ℤ p.page pages;
  prev_page = (if ltb_ℤ (pos 1) p.page then p.page -ℤ pos 1 else pos 0);
  next_page = (if ltb_ℤ p.page pages then p.page +ℤ pos 1 else pos 0);
}

-- `Headers`.
unfoldable pub headers : Params → ℤ → Option ResponseHeaders
headers p total = elim (total_pages p total) [
  | none ↦ none
  | some pages ↦ some (headers_with p total pages)
]

-- A link of `BuildLinkHeader`: its relation and its page.
pub record Link : Type 0 where
  pub rel : Text
  pub target : ℤ

unfoldable pub links : (page total_pages : ℤ) → List Link
links page total_pages =
    if ltb_ℤ total_pages (pos 1)
    then []
    else record { rel = codes "first"; target = pos 1 }
      ∷ ((if ltb_ℤ (pos 1) page
            then record { rel = codes "prev"; target = page -ℤ pos 1 } ∷ []
            else [])
          ++ ((if ltb_ℤ page total_pages
                then record { rel = codes "next"; target = page +ℤ pos 1 } ∷ []
                else [])
              ++ record { rel = codes "last"; target = total_pages } ∷ []))

-- The URL of a page is an argument (`cloneURLWithParams`).
module _ (clone_url_with_params : (page per_page : ℤ) → Text) where
  unfoldable pub link_text : ℤ → Link → Text
  link_text per_page l =
      (b'<' ∷ clone_url_with_params l.target per_page)
      ++ (codes ">; rel=\"" ++ (l.rel ++ codes "\""))

  unfoldable pub build_link_header : (page per_page total_pages : ℤ) → Text
  build_link_header page per_page total_pages =
      join (map (link_text per_page) (links page total_pages)) (codes ", ")

  -- `WriteHeaders`, once the numbers are there.
  unfoldable pub write_headers : Params → ResponseHeaders → Headers → Headers
  write_headers p h w =
      let counted = set (codes "X-Per-Page") (itoa h.per_page) (
        set (codes "X-Page") (itoa h.page) (
          set (codes "X-Total-Pages") (itoa h.total_pages)
            (set (codes "X-Total") (itoa h.total) w))) in
      let before =
        if h.has_prev then set (codes "X-Prev-Page") (itoa h.prev_page) counted else counted in
      let after =
        if h.has_next then set (codes "X-Next-Page") (itoa h.next_page) before else before in
      let line = build_link_header p.page p.per_page h.total_pages in
      if text_eq line [] then after else set (codes "Link") line after
