-- ===== src/Memory/Paging/Partition.antt =====
-- What a page shows, counted from the newest element, and the pages put together.
use mathlib.Core.Path.{ap₂}
use native.Mathlib.Decide.{dec_le}
use ecs_gatus_app.Base.{
  ℕ, zero, suc, ◌+◌, ◌-◌, ◌*◌, ◌%◌, true, ◌≤◌, ◌<◌, ◌≡◌, refl, ap, ◌∙◌, sym, arith, List, [], ◌∷◌,
  ◌++◌, length, take, drop, if◌then◌else◌, ◌||◌, take-append-drop,
}
use ecs_gatus_app.Base.Int.{ℤ, pos, pos_part, ltb_ℤ, to_signed}
use ecs_gatus_app.Memory.Paging.Bounds.{two_63, two_64, residue, clamped, index_lem}
use ecs_gatus_app.Memory.Paging.{get_start_and_end_index, page_of, slice}

-- What the two callers make of the bounds.
shown {ℓ} : {A : Type ℓ} → ℤ × ℤ → List A → List A
shown b xs =
    if ltb_ℤ b.0 (pos 0) || ltb_ℤ b.1 (pos 0) then [] else slice (pos_part b.0) (pos_part b.1) xs

module _ {ℓ} {A : Type ℓ} where
  page_of-shown :
      (xs : List A) (page page_size : ℤ)
      → page_of xs page page_size ≡ shown (get_start_and_end_index (length xs) page page_size) xs
  unfolding page_of shown
  page_of-shown xs page page_size = refl

  shown_nonneg : (s e : ℕ) (xs : List A) → shown (pos s, pos e) xs ≡ slice s e xs
  unfolding shown
  shown_nonneg s e xs = ground arith

  shown_negative : (b : ℤ × ℤ) (xs : List A) → ltb_ℤ b.1 (pos 0) ≡ true → shown b xs ≡ []
  unfolding shown
  shown_negative b xs h = ground arith

  slice_empty : (s e : ℕ) (xs : List A) → e ≤ s → slice s e xs ≡ []
  slice_empty s e xs h = let z : e - s ≡ 0 = omega arith in rw z

  take-nil : (n : ℕ) → take {A = A} n [] ≡ []
  take-nil zero = refl
  take-nil (suc n) = refl

  -- A slice that ends where the rest begins.
  slice-append-drop : (i j : ℕ) (xs : List A) → i ≤ j → slice i j xs ++ drop j xs ≡ drop i xs
  slice-append-drop zero j xs h = let e : j - 0 ≡ j = omega arith in rw e (take-append-drop j xs)
  slice-append-drop (suc i) zero xs h = absurd (omega arith)
  slice-append-drop (suc i) (suc j) [] h = rw (take-nil (suc j - suc i))
  slice-append-drop (suc i) (suc j) (x ∷ xs) h =
      let e : suc j - suc i ≡ j - i = omega arith in rw e (slice-append-drop i j xs (omega arith))

  drop-length : (xs : List A) → drop (length xs) xs ≡ []
  drop-length [] = refl
  drop-length (x ∷ xs) = drop-length xs

bounds_inside :
    (n x z : ℕ)
    → n < two_63
    → x + z < two_63
    → x ≤ n
    → clamped n (to_signed (residue n (x + z))) (to_signed ((residue n (x + z) + z) % two_64))
      ≡ (pos (n - (x + z)), pos (n - x))
unfolding clamped
bounds_inside n x z hn hx h = ground arith

bounds_outside :
    (n x z : ℕ)
    → n < two_63
    → x + z < two_63
    → n < x
    → ltb_ℤ
        (clamped n (to_signed (residue n (x + z))) (to_signed ((residue n (x + z) + z) % two_64))).1
        (pos 0)
      ≡ true
unfolding clamped
bounds_outside n x z hn hx h = ground arith

module _ {ℓ} {A : Type ℓ} where
  shown_of_bounds :
      (xs : List A) (x z : ℕ)
      → length xs < two_63
      → x + z < two_63
      → shown
          (clamped
            (length xs)
            (to_signed (residue (length xs) (x + z)))
            (to_signed ((residue (length xs) (x + z) + z) % two_64)))
          xs
        ≡ slice (length xs - (x + z)) (length xs - x) xs
  shown_of_bounds xs x z hn hx = elim (dec_le x (length xs)) [
    | yes h ↦ rw (bounds_inside (length xs) x z hn hx h) (shown_nonneg _ _ xs)
    | no h ↦
        shown_negative _ xs (bounds_outside (length xs) x z hn hx (omega arith))
        ∙ sym (slice_empty (length xs - (x + z)) (length xs - x) xs (omega arith))
  ]

  -- Page p + 1 shows the elements from position n - (p + 1) * z up to position n - p * z.
  pub page_of_lem :
      (xs : List A) (p z : ℕ)
      → length xs < two_63
      → suc p < two_63
      → p * z + z < two_63
      → page_of xs (pos (suc p)) (pos z) ≡ slice (length xs - (p * z + z)) (length xs - p * z) xs
  page_of_lem xs p z hn hp hx =
      page_of-shown xs (pos (suc p)) (pos z)
      ∙ ap (λ b. shown b xs) (index_lem (length xs) p z hn hp (omega arith))
      ∙ shown_of_bounds xs (p * z) z hn hx

  -- The pages k, k - 1, ..., 1, one behind the other.
  abbrev pub pages_down : List A → ℕ → ℕ → List A
  pages_down xs z zero = []
  pages_down xs z (suc p) = page_of xs (pos (suc p)) (pos z) ++ pages_down xs z p

  -- The first k pages, put together from page k down to page 1, are the last k * page_size elements
  -- of the list in their order (all of them, once k * page_size reaches its length): no element is
  -- shown twice and none is skipped. The length and k * page_size have to fit Go's int.
  pub pages_down-drop :
      (xs : List A) (z p : ℕ)
      → length xs < two_63
      → p < two_63
      → p * z < two_63
      → pages_down xs z p ≡ drop (length xs - p * z) xs
  pages_down-drop xs z zero hn hp hz =
      let e : length xs - 0 * z ≡ length xs = omega arith in rw e (sym (drop-length xs))
  pages_down-drop xs z (suc p) hn hp hz =
      ap₂ ◌++◌ (page_of_lem xs p z hn hp (omega arith))
        (pages_down-drop xs z p hn (omega arith) (omega arith))
      ∙ slice-append-drop (length xs - (p * z + z)) (length xs - p * z) xs (omega arith)
      ∙ ap (λ i. drop (length xs - i) xs) (omega arith)
