-- ===== src/Api/Pages/Accepted.antt =====
-- What a page and its size, as they are read from a request, satisfy.
use ecs_gatus_app.Base.{◌≡◌, refl, ◌⊎◌, Option, none, some, arith}
use ecs_gatus_app.Base.Int.{ℤ, pos, ◌≤ℤ◌, ◌<ℤ◌}
use ecs_gatus_app.Base.Text.{Text, atoi, atoi_lt}
use ecs_gatus_app.Memory.Paging.Bounds.{two_63}
use ecs_gatus_app.Api.Pages.{
  default_page, default_page_size, number_or, extract_page, extract_page_size, limit_page_size,
  extract_page_and_page_size_from_request,
}

-- Go's int holds what is read.
number_or_lt :
    (d : ℤ) (s : Text) (o : Option ℤ) → d <ℤ pos two_63 → atoi s ≡ o → number_or d o <ℤ pos two_63
unfolding number_or
number_or_lt d s none h e = h
number_or_lt d s (some n) h e = atoi_lt s n e

page_lem : (s : Text) → (pos 1 ≤ℤ extract_page s) × (extract_page s <ℤ pos two_63)
unfolding extract_page
page_lem s =
    let read = number_or default_page (atoi s) in
    let small : read <ℤ pos two_63 = number_or_lt default_page s (atoi s) (omega arith) refl in
    ground arith

size_lem : (s : Text) → extract_page_size s <ℤ pos two_63
unfolding extract_page_size
size_lem s =
    let read = number_or default_page_size (atoi s) in
    let small : read <ℤ pos two_63 = number_or_lt default_page_size s (atoi s) (omega arith) refl in
    ground arith

-- A page that there can be and a size that is not 0, both in the range of int, the size of the
-- first page within the maximum unless it is the default.
pub record IsPage (maximum : ℤ) (p : ℤ × ℤ) : Type 0 where
  pub page_positive : pos 1 ≤ℤ p.0
  pub page_fits : p.0 <ℤ pos two_63
  pub size_positive : pos 1 ≤ℤ p.1
  pub size_fits : p.1 <ℤ pos two_63
  pub size_limited : (pos 1 <ℤ p.0) ⊎ (p.1 ≤ℤ maximum) ⊎ (p.1 ≡ default_page_size)

limit-IsPage :
    (maximum page size : ℤ)
    → pos 1 ≤ℤ maximum
    → maximum <ℤ pos two_63
    → pos 1 ≤ℤ page
    → page <ℤ pos two_63
    → size <ℤ pos two_63
    → IsPage maximum (page, limit_page_size maximum page size)
unfolding limit_page_size
limit-IsPage maximum page size one fits positive small hs = record {
  page_positive = positive;
  page_fits = small;
  size_positive = ground arith;
  size_fits = ground arith;
  size_limited = ground arith;
}

-- Whatever the two query parameters are, the page that extractPageAndPageSizeFromRequest returns
-- is at least 1 and its size is at least 1, both fit Go's int, and the size of page 1 is at most the
-- maximum or is the default of 50. The maximum has to be at least 1 and to fit int.
pub extract_page_and_page_size_from_request-IsPage :
    (page_parameter page_size_parameter : Text) (maximum : ℤ)
    → pos 1 ≤ℤ maximum
    → maximum <ℤ pos two_63
    → IsPage maximum
        (extract_page_and_page_size_from_request page_parameter page_size_parameter maximum)
unfolding extract_page_and_page_size_from_request
extract_page_and_page_size_from_request-IsPage page_parameter page_size_parameter maximum one fits =
    limit-IsPage maximum (extract_page page_parameter) (extract_page_size page_size_parameter) one
      fits (page_lem page_parameter).0 (page_lem page_parameter).1 (size_lem page_size_parameter)
