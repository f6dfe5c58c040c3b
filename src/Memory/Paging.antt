-- ===== src/Memory/Paging.antt =====
-- Which part of a list a page shows: getStartAndEndIndex and the slices made with it (util.go),
-- and the paging parameters (app/storage/store/common/paging).
pub mod Bounds
pub mod Partition
use ecs_gatus_app.Base.{
  ℕ, ◌-◌, Bool, true, false, ◌&&◌, ◌||◌, List, [], if◌then◌else◌, length, take, drop,
}
use ecs_gatus_app.Base.Int.{ℤ, pos, negsuc, pos_part, ◌-ℤ◌, ◌*ℤ◌, i64, ltb_ℤ}

pub record EndpointStatusParams : Type 0 where
  pub events_page : ℤ
  pub events_page_size : ℤ
  pub results_page : ℤ
  pub results_page_size : ℤ

unfoldable pub new_endpoint_status_params : EndpointStatusParams
new_endpoint_status_params = record {
  events_page = pos 0;
  events_page_size = pos 0;
  results_page = pos 0;
  results_page_size = pos 0;
}

unfoldable pub with_events : ℤ → ℤ → EndpointStatusParams → EndpointStatusParams
with_events page page_size params = record params {
  events_page = page;
  events_page_size = page_size;
}

unfoldable pub with_results : ℤ → ℤ → EndpointStatusParams → EndpointStatusParams
with_results page page_size params = record params {
  results_page = page;
  results_page_size = page_size;
}

pub record SuiteStatusParams : Type 0 where
  pub page : ℤ
  pub page_size : ℤ

unfoldable pub new_suite_status_params : SuiteStatusParams
new_suite_status_params = record { page = pos 1; page_size = pos 20 }

unfoldable pub with_pagination : ℤ → ℤ → SuiteStatusParams → SuiteStatusParams
with_pagination p size params = record params { page = p; page_size = size }

abbrev pub minus_one : ℤ
minus_one = negsuc 0

-- Go's int is 64 bits wide here, and its arithmetic wraps.
unfoldable pub get_start_and_end_index : ℕ → ℤ → ℤ → ℤ × ℤ
get_start_and_end_index n page page_size =
    if ltb_ℤ page (pos 1) || ltb_ℤ page_size (pos 0)
    then (minus_one, minus_one)
    else let start = i64 (pos n -ℤ i64 (page *ℤ page_size)) in
      let end = i64 (pos n -ℤ i64 (i64 (page -ℤ pos 1) *ℤ page_size)) in
      (
        if ltb_ℤ (pos n) start then minus_one else if ltb_ℤ start (pos 0) then pos 0 else start,
        if ltb_ℤ (pos n) end then pos n else end,
      )

-- `xs[start:end]`, for bounds that the caller has found not to be negative.
abbrev pub slice {ℓ} : {A : Type ℓ} → ℕ → ℕ → List A → List A
slice start end xs = take (end - start) (drop start xs)

-- What both shallow copies do with the two bounds.
unfoldable pub page_of {ℓ} : {A : Type ℓ} → List A → ℤ → ℤ → List A
unfolding get_start_and_end_index
page_of xs page page_size =
    let (start, end) = get_start_and_end_index (length xs) page page_size in
    if ltb_ℤ start (pos 0) || ltb_ℤ end (pos 0)
    then []
    else slice (pos_part start) (pos_part end) xs
