-- ===== src/Api/Pages.antt =====
-- extractPageAndPageSizeFromRequest of app/api/util.go. A query parameter that is absent is empty.
pub mod Accepted
use ecs_gatus_app.Base.{Bool, true, false, ◌&&◌, Option, none, some, [], ◌∷◌, if◌then◌else◌}
use ecs_gatus_app.Base.Int.{ℤ, pos, ltb_ℤ, eqb_ℤ}
use ecs_gatus_app.Base.Text.{Text, atoi, is_empty}

abbrev pub default_page : ℤ
default_page = pos 1

abbrev pub default_page_size : ℤ
default_page_size = pos 50

-- What Atoi reads, or the default where there is an error.
unfoldable pub number_or : ℤ → Option ℤ → ℤ
number_or default none = default
number_or default (some n) = n

unfoldable pub extract_page : Text → ℤ
unfolding number_or
extract_page parameter =
    let page = number_or default_page (atoi parameter) in
    if is_empty parameter then default_page else if ltb_ℤ page (pos 1) then default_page else page

unfoldable pub extract_page_size : Text → ℤ
unfolding number_or
extract_page_size parameter =
    if is_empty parameter then default_page_size else number_or default_page_size (atoi parameter)

-- The bounds on the size of the page.
unfoldable pub limit_page_size : ℤ → ℤ → ℤ → ℤ
limit_page_size maximum_number_of_results page page_size =
    if eqb_ℤ page (pos 1) && ltb_ℤ maximum_number_of_results page_size
    then maximum_number_of_results
    else if ltb_ℤ page_size (pos 1)
    then default_page_size
    else page_size

unfoldable pub extract_page_and_page_size_from_request : Text → Text → ℤ → ℤ × ℤ
unfolding extract_page extract_page_size limit_page_size
extract_page_and_page_size_from_request page_parameter page_size_parameter maximum =
    let page = extract_page page_parameter in
    (page, limit_page_size maximum page (extract_page_size page_size_parameter))
