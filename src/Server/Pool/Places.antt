-- ===== src/Server/Pool/Places.antt =====
-- Elements of a list by their numbers, where one is changed or added.
use spaceteam.Common.{
  ℕ, zero, suc, ◌==◌, false, List, [], ◌∷◌, ◌++◌, none, some, ◌⊎◌, inl, inr, ◌≡◌, refl, ap, arith,
}
use spaceteam.Server.Pool.{get_elem?, change}

pub get_elem?-change :
    {A : Type 0} (f : A → A) (k : ℕ) (xs : List A) (x : A)
    → get_elem? xs k ≡ some x
    → get_elem? (change f k xs) k ≡ some (f x)
get_elem?-change f k [] x at = cc
get_elem?-change f zero (y ∷ xs) x at = cc
get_elem?-change f (suc k) (y ∷ xs) x at = get_elem?-change f k xs x at

-- the elements of a list of which one is changed, or one added
module _ {A : Type 0} where
  pub change-twice :
      (f g : A → A) (k : ℕ) (xs : List A) → change g k (change f k xs) ≡ change (λ x. g (f x)) k xs
  change-twice f g k [] = refl
  change-twice f g zero (x ∷ xs) = refl
  change-twice f g (suc k) (x ∷ xs) = ap (◌∷◌ x) (change-twice f g k xs)

  pub change_id : (k : ℕ) (xs : List A) → change (λ x. x) k xs ≡ xs
  change_id k [] = refl
  change_id zero (x ∷ xs) = refl
  change_id (suc k) (x ∷ xs) = ap (◌∷◌ x) (change_id k xs)

  pub get_elem?-change_cases :
      (f : A → A) (k j : ℕ) (xs : List A) (d : A)
      → get_elem? (change f k xs) j ≡ some d
      → ((k ≡ j) × ((c : A) × (get_elem? xs k ≡ some c) × (d ≡ f c)))
        ⊎ (((k == j) ≡ false) × (get_elem? xs j ≡ some d))
  get_elem?-change_cases f k j [] d at = cc
  get_elem?-change_cases f zero zero (x ∷ xs) d at = inl (refl, (x, refl, cc))
  get_elem?-change_cases f zero (suc j) (x ∷ xs) d at = inr (ground arith, at)
  get_elem?-change_cases f (suc k) zero (x ∷ xs) d at = inr (ground arith, at)
  get_elem?-change_cases f (suc k) (suc j) (x ∷ xs) d at =
      elim (get_elem?-change_cases f k j xs d at) [
        | inl (same, rest) ↦ inl (ap suc same, rest)
        | inr (other, rest) ↦ inr (ground arith, rest)
      ]

  pub get_elem?-change-none :
      (f : A → A) (k j : ℕ) (xs : List A)
      → get_elem? (change f k xs) j ≡ none
      → get_elem? xs j ≡ none
  get_elem?-change-none f k j [] at = at
  get_elem?-change-none f zero zero (x ∷ xs) at = cc
  get_elem?-change-none f zero (suc j) (x ∷ xs) at = at
  get_elem?-change-none f (suc k) zero (x ∷ xs) at = at
  get_elem?-change-none f (suc k) (suc j) (x ∷ xs) at = get_elem?-change-none f k j xs at

  pub get_elem?-snoc_cases :
      (j : ℕ) (xs : List A) (x d : A)
      → get_elem? (xs ++ x ∷ []) j ≡ some d
      → (get_elem? xs j ≡ some d) ⊎ ((get_elem? xs j ≡ none) × (d ≡ x))
  get_elem?-snoc_cases zero [] x d at = inr (refl, cc)
  get_elem?-snoc_cases (suc j) [] x d at = cc
  get_elem?-snoc_cases zero (y ∷ xs) x d at = inl at
  get_elem?-snoc_cases (suc j) (y ∷ xs) x d at = get_elem?-snoc_cases j xs x d at

  pub get_elem?-snoc-none :
      (j : ℕ) (xs : List A) (x : A) → get_elem? (xs ++ x ∷ []) j ≡ none → get_elem? xs j ≡ none
  get_elem?-snoc-none j [] x at = refl
  get_elem?-snoc-none zero (y ∷ xs) x at = cc
  get_elem?-snoc-none (suc j) (y ∷ xs) x at = get_elem?-snoc-none j xs x at
