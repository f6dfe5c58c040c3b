-- ===== src/Memory/History/LastN.antt =====
-- Keeping the last elements of a list.
use ecs_gatus_app.Base.{
  ℕ, zero, suc, ◌+◌, ◌-◌, ◌≤◌, ◌≡◌, refl, ap, sym, ◌∙◌, List, [], ◌∷◌, ◌++◌, length, drop,
  length-append, length-drop, ltb, arith, last?, last?-append, min, some, Bool-cases, inl, inr,
}
use ecs_gatus_app.Memory.History.{trim_to}

module _ {ℓ} {A : Type ℓ} where
  -- The last n elements, in their order.
  abbrev pub last_n : ℕ → List A → List A
  last_n n xs = drop (length xs - n) xs

  pub trim_to-last_n : (n : ℕ) (xs : List A) → trim_to n xs ≡ last_n n xs
  trim_to-last_n n xs = elim (Bool-cases (ltb n (length xs))) [
    | inl more ↦ rw more
    | inr few ↦ let e : length xs - n ≡ 0 = ground arith in rw (few, e)
  ]

  drop-append_le : (i : ℕ) (xs ys : List A) → i ≤ length xs → drop i (xs ++ ys) ≡ drop i xs ++ ys
  drop-append_le zero xs ys h = refl
  drop-append_le (suc i) [] ys h = absurd (omega arith)
  drop-append_le (suc i) (x ∷ xs) ys h = drop-append_le i xs ys (omega arith)

  drop-nil : (n : ℕ) → drop {A = A} n [] ≡ []
  drop-nil zero = refl
  drop-nil (suc n) = refl

  drop-drop : (i j : ℕ) (xs : List A) → drop j (drop i xs) ≡ drop (i + j) xs
  drop-drop zero j xs = ap (λ k. drop k xs) (omega arith)
  drop-drop (suc i) j [] = rw (drop-nil j, drop-nil (suc i + j))
  drop-drop (suc i) j (x ∷ xs) =
      let e : suc i + j ≡ suc (i + j) = omega arith in rw e (drop-drop i j xs)

  -- Keeping the last n before an element is added makes no difference afterwards.
  pub last_n-append :
      (n : ℕ) (xs : List A) (x : A) → last_n n (last_n n xs ++ x ∷ []) ≡ last_n n (xs ++ x ∷ [])
  last_n-append n xs x =
      let i = length xs - n in
      let ys = drop i xs ++ x ∷ [] in
      ap (drop (length ys - n)) (sym (drop-append_le i xs (x ∷ []) (omega arith)))
      ∙ drop-drop i (length ys - n) (xs ++ x ∷ [])
      ∙ ap (λ k. drop k (xs ++ x ∷ []))
          (omega (
            arith,
            length-append xs (x ∷ []),
            length-append (drop i xs) (x ∷ []),
            length-drop i xs,
          ))

  pub length-last_n : (n : ℕ) (xs : List A) → length (last_n n xs) ≡ min n (length xs)
  length-last_n n xs = omega (arith, length-drop (length xs - n) xs)

  -- The last element is among the last n, if n is not 0.
  pub last?-last_n : (n : ℕ) (xs : List A) (x : A) → last? (last_n (suc n) (xs ++ x ∷ [])) ≡ some x
  last?-last_n n xs x =
      let i = length (xs ++ x ∷ []) - suc n in
      ap last? (drop-append_le i xs (x ∷ []) (omega (arith, length-append xs (x ∷ []))))
      ∙ last?-append (drop i xs) x

  -- A list that is short enough is kept whole.
  pub last_n-all : (n : ℕ) (xs : List A) → length xs ≤ n → last_n n xs ≡ xs
  last_n-all n xs h = let e : length xs - n ≡ 0 = omega arith in rw e
