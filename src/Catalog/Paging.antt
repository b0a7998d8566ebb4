-- ===== src/Catalog/Paging.antt =====
-- The pages of lists in internal/catalog/extended_store.go. A limit or an offset below zero is 0, which
-- the code treats alike.
use Prim.Native.Nat.{◌≤◌}
use native.Mathlib.Nat.{suc-mul}
use cartolensia.Prelude.{
  ℕ, zero, suc, ◌+◌, ◌*◌, ◌-◌, ◌||◌, List, [], ◌∷◌, ◌++◌, ◌≡◌, refl, sym, ap, ◌∙◌, arith, eqb, ltb,
  leb, length, take, drop, length-drop, length-take, Bool-cases, inl, inr, if◌then◌else◌,
}

unfoldable pub normalize_limit : ℕ → ℕ
normalize_limit limit = if eqb limit 0 || ltb 500 limit then 200 else limit

add_sub : (a b : ℕ) → (a + b) - a ≡ b
add_sub a b = omega arith

limit_bounds : (limit : ℕ) → (1 ≤ normalize_limit limit) × (normalize_limit limit ≤ 500)
unfolding normalize_limit
limit_bounds limit = ground arith

enough_pages : (n limit m : ℕ) → m ≤ n → m ≤ n * normalize_limit limit
enough_pages n limit m h = grind (arith, limit_bounds limit)

module _ {A : Type 0} where
  -- assets[offset:end]
  abbrev slice : ℕ → ℕ → List A → List A
  slice offset end xs = take (end - offset) (drop offset xs)

  unfoldable pub paginate : List A → ℕ → ℕ → List A
  paginate xs limit offset =
      let limit' = normalize_limit limit in
      if leb (length xs) offset
      then []
      else if ltb (length xs) (offset + limit')
      then slice offset (length xs) xs
      else slice offset (offset + limit') xs

  drop_all : (n : ℕ) (xs : List A) → length xs ≤ n → drop n xs ≡ []
  drop_all zero [] h = refl
  drop_all zero (x ∷ xs) h = absurd (omega (arith, h))
  drop_all (suc n) [] h = refl
  drop_all (suc n) (x ∷ xs) h = drop_all n xs (omega (arith, h))

  take_all : (n : ℕ) (xs : List A) → length xs ≤ n → take n xs ≡ xs
  take_all zero [] h = refl
  take_all zero (x ∷ xs) h = absurd (omega (arith, h))
  take_all (suc n) [] h = refl
  take_all (suc n) (x ∷ xs) h = rw (take_all n xs (omega (arith, h)))

  take_nil : (n : ℕ) → take {A = A} n [] ≡ []
  take_nil zero = refl
  take_nil (suc n) = refl

  paginate-take :
      (xs : List A) (limit offset : ℕ)
      → paginate xs limit offset ≡ take (normalize_limit limit) (drop offset xs)
  unfolding paginate
  paginate-take xs limit offset = elim (Bool-cases (leb (length xs) offset)) [
    | inl e ↦ rw (e, drop_all offset xs (ground arith)) (sym (take_nil (normalize_limit limit)))
    | inr e ↦ elim (Bool-cases (ltb (length xs) (offset + normalize_limit limit))) [
      | inl k ↦
          rw (e, k)
            (take_all (length xs - offset) (drop offset xs) (omega (arith, length-drop offset xs))
              ∙ sym (
                  take_all (normalize_limit limit) (drop offset xs)
                    (ground (arith, length-drop offset xs))))
      | inr k ↦ rw (e, k, add_sub offset (normalize_limit limit))
    ]
  ]

  take_more : (a n : ℕ) (xs : List A) → take (a + n) xs ≡ take a xs ++ take n (drop a xs)
  take_more zero n xs = ap (λ k. take k xs) (omega arith)
  take_more (suc a) n [] = take_nil (suc a + n) ∙ sym (take_nil n)
  take_more (suc a) n (x ∷ xs) =
      let e : suc a + n ≡ suc (a + n) = omega arith in
      ap (λ k. take k (x ∷ xs)) e ∙ ap (λ (t : List A). x ∷ t) (take_more a n xs)

  -- the first pages one after another
  abbrev pub pages : List A → ℕ → ℕ → List A
  pages xs limit zero = []
  pages xs limit (suc n) = pages xs limit n ++ paginate xs limit (n * normalize_limit limit)

  pages-take : (xs : List A) (limit n : ℕ) → pages xs limit n ≡ take (n * normalize_limit limit) xs
  pages-take xs limit zero =
      let e : 0 ≡ 0 * normalize_limit limit = omega arith in ap (λ k. take k xs) e
  pages-take xs limit (suc n) =
      rw (pages-take xs limit n, paginate-take xs limit (n * normalize_limit limit))
        (sym (take_more (n * normalize_limit limit) (normalize_limit limit) xs)
          ∙ ap (λ k. take k xs) (sym (suc-mul n (normalize_limit limit))))

  -- Enough pages one after another, of any limit, are the whole list, and no page is longer than 500.
  pub pages-paginate :
      (xs : List A) (limit n offset : ℕ)
      → length xs ≤ n
      → (pages xs limit n ≡ xs) × (length (paginate xs limit offset) ≤ 500)
  pages-paginate xs limit n offset h = (
    pages-take xs limit n
        ∙ take_all (n * normalize_limit limit) xs (enough_pages n limit (length xs) h),
    rw (paginate-take xs limit offset)
        (omega (arith, length-take (normalize_limit limit) (drop offset xs), limit_bounds limit)),
  )
