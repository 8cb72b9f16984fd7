-- ===== src/Pagination/Tests.antt =====
-- Pages at concrete numbers.
use zerohttp.Prelude.{ℕ, ◌-◌, ◌*◌, ◌≤◌, ◌<◌, ◌≡◌, ◌⊎◌, refl, ◌++◌, some, arith}
use zerohttp.Prelude.Int.{ℤ, pos, negsuc}
use zerohttp.Text.{Text, codes, join}
use zerohttp.Limit.Handler.{itoa, digits}
use zerohttp.Pagination.{Params, total_pages, build_link_header, links, link_text}
use zerohttp.Pagination.Pages.{total_pages_lem}

abbrev asked : Params
asked = record { page = negsuc 4; per_page = pos 500 }

total_pages_lem_example :
    (n : ℕ) × (total_pages (record { page = pos 1; per_page = pos 10 }) (pos 31) ≡ some (pos n))
    × (1 ≤ n)
    × (31 ≤ n * 10)
    × ((n ≡ 1) ⊎ ((n - 1) * 10 < 31))
total_pages_lem_example = total_pages_lem (pos 1) 10 31 (omega arith) (omega arith)

-- The greatest int of items is taken for one page.
wrapped :
    total_pages (record { page = pos 1; per_page = pos 10 }) (pos 9223372036854775807)
    ≡ some (pos 1)
unfolding total_pages
wrapped = refl

abbrev url : ℤ → ℤ → Text
url page per_page = codes "/?page=" ++ itoa page

linked :
    build_link_header url (pos 2) (pos 10) (pos 2)
    ≡ codes "</?page=1>; rel=\"first\", </?page=1>; rel=\"prev\", </?page=2>; rel=\"last\""
unfolding build_link_header links link_text itoa digits join
linked = refl
