-- ===== src/Memory/Paging/Bounds.antt =====
-- The bounds of a page, by which the callers slice.
use ecs_gatus_app.Base.{
  ℕ, zero, suc, ◌+◌, ◌-◌, ◌*◌, ◌%◌, ◌<◌, ◌≡◌, ◌⊎◌, arith, if◌then◌else◌, ◌||◌, false,
}
use ecs_gatus_app.Base.Int.{ℤ, pos, negsuc, ◌≤ℤ◌, ◌<ℤ◌, ◌-ℤ◌, ◌*ℤ◌, i64, ltb_ℤ, to_signed}
use ecs_gatus_app.Memory.Paging.{get_start_and_end_index, minus_one}

-- Either a bound is negative, which the callers test, or the two bounds delimit a part of a list
-- of n elements.
abbrev pub IsSliceable : ℕ → ℤ × ℤ → Type 0
IsSliceable n b = (b.0 <ℤ pos 0) ⊎ (b.1 <ℤ pos 0) ⊎ ((b.0 ≤ℤ b.1) × (b.1 ≤ℤ pos n))

abbrev pub two_63 : ℕ
two_63 = 9_223_372_036_854_775_808

abbrev pub two_64 : ℕ
two_64 = 18_446_744_073_709_551_616

-- The 64 bits of n - x.
abbrev pub residue : ℕ → ℕ → ℕ
residue n x = (n + two_64 - x % two_64) % two_64

i64-difference : (n x : ℕ) → n < two_63 → i64 (pos n -ℤ i64 (pos x)) ≡ to_signed (residue n x)
i64-difference n x h = ground arith

residue-add : (n y z : ℕ) → z < two_63 → residue n y ≡ (residue n (y + z) + z) % two_64
residue-add n y z h = omega arith

-- The two bounds, from the bits of the start and the size of the page.
unfoldable pub clamped : ℕ → ℤ → ℤ → ℤ × ℤ
clamped n start end = (
  if ltb_ℤ (pos n) start then minus_one else if ltb_ℤ start (pos 0) then pos 0 else start,
  if ltb_ℤ (pos n) end then pos n else end,
)

clamped-IsSliceable :
    (n r z : ℕ)
    → n < two_63
    → z < two_63
    → r < two_64
    → IsSliceable n (clamped n (to_signed r) (to_signed ((r + z) % two_64)))
unfolding clamped
clamped-IsSliceable n r z hn hz hr = ground arith

products :
    (p z : ℕ)
    → suc p < two_63
    → (pos (suc p) *ℤ pos z ≡ pos (p * z + z)) × (i64 (pos (suc p) -ℤ pos 1) *ℤ pos z ≡ pos (p * z))
products p z h = (ground arith, ground arith)

-- The guard lets them through.
allowed : (p z : ℕ) → (ltb_ℤ (pos (suc p)) (pos 1) || ltb_ℤ (pos z) (pos 0)) ≡ false
allowed p z = ground arith

-- The bounds of page p + 1, on the branch that computes them.
pub index_lem :
    (n p z : ℕ)
    → n < two_63
    → suc p < two_63
    → z < two_63
    → get_start_and_end_index n (pos (suc p)) (pos z)
      ≡ clamped n
          (to_signed (residue n (p * z + z)))
          (to_signed ((residue n (p * z + z) + z) % two_64))
unfolding get_start_and_end_index clamped
index_lem n p z hn hp hz = rw (
  allowed p z,
  (products p z hp).0,
  (products p z hp).1,
  i64-difference n (p * z + z) hn,
  i64-difference n (p * z) hn,
  residue-add n (p * z) z hz,
)

-- For every length, page and page size that Go's int can hold, the bounds are either refused by
-- the callers' test or delimit a part of the list: slicing by them never panics, not even where
-- the product of page and page size wraps around.
pub get_start_and_end_index-IsSliceable :
    (n : ℕ) (page page_size : ℤ)
    → n < two_63
    → page <ℤ pos two_63
    → page_size <ℤ pos two_63
    → IsSliceable n (get_start_and_end_index n page page_size)
unfolding get_start_and_end_index
get_start_and_end_index-IsSliceable n (negsuc p) page_size hn hp hz = ground arith
get_start_and_end_index-IsSliceable n (pos zero) page_size hn hp hz = ground arith
get_start_and_end_index-IsSliceable n (pos (suc p)) (negsuc z) hn hp hz = ground arith
get_start_and_end_index-IsSliceable n (pos (suc p)) (pos z) hn hp hz =
    rw (index_lem n p z hn (omega arith) (omega arith))
      (clamped-IsSliceable n (residue n (p * z + z)) z hn (omega arith) (omega arith))
