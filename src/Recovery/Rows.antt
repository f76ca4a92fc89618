-- ===== src/Recovery/Rows.antt =====
-- Rows that are selected, mapped and maximized.
use bytewax.Prelude.{
  ℕ, ◌≡◌, refl, Bool, true, false, some, List, [], ◌∷◌, map, filter, Any, inl, inr, if◌then◌else◌,
}
use bytewax.Recovery.Resume.{maximum}
use bytewax.Recovery.Extremes.{maximum-some}

module _ {A : Type 0} where
  -- Some rows that pass a filter have a greatest epoch.
  pub maximum_of :
      (P : A → Type 0) (f : A → ℕ) (xs : List A)
      → Any P xs
      → (m : ℕ) × (maximum (map f xs) ≡ some m)
  maximum_of P f [] at = elim at [ ]
  maximum_of P f (x ∷ xs) at = maximum-some (f x) (map f xs)

  pub Any-unmap :
      (f : A → ℕ) (m : ℕ) (xs : List A) → Any (λ n. n ≡ m) (map f xs) → Any (λ a. f a ≡ m) xs
  Any-unmap f m [] at = elim at [ ]
  Any-unmap f m (a ∷ xs) (inl here) = inl here
  Any-unmap f m (a ∷ xs) (inr there) = inr (Any-unmap f m xs there)

  pub Any-unfilter :
      (p : A → Bool) (P : A → Type 0) (xs : List A)
      → Any P (filter p xs)
      → Any (λ a. P a × (p a ≡ true)) xs
  Any-unfilter p P [] at = elim at [ ]
  Any-unfilter p P (a ∷ xs) at = go (p a) (Any-unfilter p P xs) refl at
    where
      go :
          (b : Bool)
          → (Any P (filter p xs) → Any (λ x. P x × (p x ≡ true)) xs)
          → p a ≡ b
          → Any P (if b then a ∷ filter p xs else filter p xs)
          → Any (λ x. P x × (p x ≡ true)) (a ∷ xs)
      go true ih passes (inl here) = inl (here, passes)
      go true ih passes (inr there) = inr (ih there)
      go false ih other there = inr (ih there)
