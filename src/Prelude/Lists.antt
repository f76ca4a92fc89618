-- ===== src/Prelude/Lists.antt =====
-- Lists measured by native numbers, and predicates on lists by recursion.
use Prim.Native.Nat.{ℕ, suc, ◌+◌}
use mathlib.Core.Path.{◌≡◌, refl, ap, ◌∙◌, subst}
use mathlib.Core.Logic.{◌⊎◌, inl, inr}
use mathlib.Core.Bool.{Bool, true}
use mathlib.Core.List.{List, [], ◌∷◌, ◌++◌, Permᴰ}
use native.Mathlib.Omega.{arith}
use bytewax.Prelude.Tests.{if◌then◌else◌, Bool-cases}

module _ {ℓ} {A : Type ℓ} where
  abbrev pub length : List A → ℕ
  length [] = 0
  length (x ∷ xs) = suc (length xs)

  pub length-append : (xs ys : List A) → length (xs ++ ys) ≡ length xs + length ys
  length-append [] ys = omega arith
  length-append (x ∷ xs) ys = omega (arith, length-append xs ys)

  -- `Iterator::filter`.
  abbrev pub filter : (A → Bool) → List A → List A
  filter p [] = []
  filter p (x ∷ xs) = let rest = filter p xs in if p x then x ∷ rest else rest

  -- Predicates by recursion compute to tuples and sums, which the tactics read and build.
  abbrev pub All : (A → Type 0) → List A → Type 0
  All P [] = Unit
  All P (x ∷ xs) = P x × All P xs

  abbrev pub Any : (A → Type 0) → List A → Type 0
  Any P [] = ⊥
  Any P (x ∷ xs) = P x ⊎ Any P xs

  -- Every element stands before those that it relates to.
  abbrev pub Pairs : (A → A → Type 0) → List A → Type 0
  Pairs R [] = Unit
  Pairs R (x ∷ xs) = All (R x) xs × Pairs R xs

module _ {ℓ} {A : Type ℓ} (P : A → Type 0) where
  pub All-append : (xs ys : List A) → All P xs → All P ys → All P (xs ++ ys)
  All-append [] ys hx hy = hy
  All-append (x ∷ xs) ys hx hy = (hx.0, All-append xs ys hx.1 hy)

  pub All-map : {Q : A → Type 0} → ((x : A) → P x → Q x) → (xs : List A) → All P xs → All Q xs
  All-map f [] h = tt
  All-map f (x ∷ xs) h = (f x h.0, All-map f xs h.1)

  pub All-permᴰ : {xs ys : List A} → Permᴰ xs ys → All P xs → All P ys
  All-permᴰ Permᴰ.nil h = tt
  All-permᴰ (Permᴰ.cons e p) h = (subst P e h.0, All-permᴰ p h.1)
  All-permᴰ (Permᴰ.swap e f) h = (subst P f h.1.0, (subst P e h.0, h.1.1))
  All-permᴰ (Permᴰ.trans p q) h = All-permᴰ q (All-permᴰ p h)

module _ {A : Type 0} (P : A → Type 0) where
  pub All-Any : (xs : List A) {a : A} → All P xs → Any (λ x. x ≡ a) xs → P a
  All-Any [] h at = elim at [ ]
  All-Any (x ∷ xs) h (inl here) = subst P here h.0
  All-Any (x ∷ xs) h (inr there) = All-Any xs h.1 there

  -- An element for which the predicate is shown may be taken as a member.
  pub All-member : (xs : List A) → ((a : A) → Any (λ x. x ≡ a) xs → P a) → All P xs
  All-member [] f = tt
  All-member (x ∷ xs) f = (f x (inl refl), All-member xs (λ a at. f a (inr at)))

module _ {ℓ} {A : Type ℓ} (R : A → A → Type 0) (flip : (a b : A) → R a b → R b a) where
  -- A symmetric relation between the elements does not depend on their order.
  pub Pairs-permᴰ : {xs ys : List A} → Permᴰ xs ys → Pairs R xs → Pairs R ys
  Pairs-permᴰ Permᴰ.nil h = tt
  Pairs-permᴰ (Permᴰ.cons {a = a} {b = b} {l₂ = l₂} e p) h =
      (subst (λ x. All (R x) l₂) e (All-permᴰ (R a) p h.0), Pairs-permᴰ p h.1)
  Pairs-permᴰ (Permᴰ.swap {a = a} {b = b} {b' = b'} {l = l} e f) h = (
    (
      subst (λ x. R x b') f (subst (λ x. R b x) e (flip a b h.0.0)),
      subst (λ x. All (R x) l) f h.1.0,
    ),
    (subst (λ x. All (R x) l) e h.0.1, h.1.1),
  )
  Pairs-permᴰ (Permᴰ.trans p q) h = Pairs-permᴰ q (Pairs-permᴰ p h)

  pub Pairs-append_one :
      (xs : List A) (y : A) → Pairs R xs → All (λ x. R x y) xs → Pairs R (xs ++ y ∷ [])
  Pairs-append_one [] y h g = (tt, tt)
  Pairs-append_one (x ∷ xs) y h g =
      (All-append (R x) xs (y ∷ []) h.0 (g.0, tt), Pairs-append_one xs y h.1 g.1)

module _ {ℓ} {A : Type ℓ} (P : A → Type 0) where
  pub Any-append_left : (xs ys : List A) → Any P xs → Any P (xs ++ ys)
  Any-append_left [] ys at = elim at [ ]
  Any-append_left (x ∷ xs) ys (inl here) = inl here
  Any-append_left (x ∷ xs) ys (inr there) = inr (Any-append_left xs ys there)

  pub Any-append_right : (xs ys : List A) → Any P ys → Any P (xs ++ ys)
  Any-append_right [] ys at = at
  Any-append_right (x ∷ xs) ys at = inr (Any-append_right xs ys at)

  pub Any-permᴰ : {xs ys : List A} → Permᴰ xs ys → Any P xs → Any P ys
  Any-permᴰ Permᴰ.nil at = at
  Any-permᴰ (Permᴰ.cons e p) (inl here) = inl (subst P e here)
  Any-permᴰ (Permᴰ.cons e p) (inr there) = inr (Any-permᴰ p there)
  Any-permᴰ (Permᴰ.swap e f) (inl here) = inr (inl (subst P e here))
  Any-permᴰ (Permᴰ.swap e f) (inr (inl here)) = inl (subst P f here)
  Any-permᴰ (Permᴰ.swap e f) (inr (inr there)) = inr (inr there)
  Any-permᴰ (Permᴰ.trans p q) at = Any-permᴰ q (Any-permᴰ p at)

  pub Any-map : {Q : A → Type 0} → ((a : A) → P a → Q a) → (xs : List A) → Any P xs → Any Q xs
  Any-map f [] at = at
  Any-map f (x ∷ xs) (inl here) = inl (f x here)
  Any-map f (x ∷ xs) (inr there) = inr (Any-map f xs there)

-- What a list tells of the elements that a test lets through.
module _ {ℓ} {A : Type ℓ} (p : A → Bool) where
  pub All-filter : (P : A → Type 0) (xs : List A) → All P xs → All P (filter p xs)
  All-filter P [] h = tt
  All-filter P (x ∷ xs) h = ground (arith, All-filter P xs h.1)

  pub Pairs-filter : (R : A → A → Type 0) (xs : List A) → Pairs R xs → Pairs R (filter p xs)
  Pairs-filter R [] h = tt
  Pairs-filter R (x ∷ xs) h = ground (arith, Pairs-filter R xs h.1, All-filter (R x) xs h.0)

  pub filter-passes : (xs : List A) → All (λ x. p x ≡ true) (filter p xs)
  filter-passes [] = tt
  filter-passes (x ∷ xs) = ground (arith, filter-passes xs)

  pub Any-filter :
      (P : A → Type 0) (xs : List A) → Any (λ x. (p x ≡ true) × P x) xs → Any P (filter p xs)
  Any-filter P [] at = elim at [ ]
  Any-filter P (x ∷ xs) (inl here) = rw here.0 (inl here.1)
  Any-filter P (x ∷ xs) (inr there) = elim (Bool-cases (p x)) [
    | inl e ↦ rw e (inr (Any-filter P xs there))
    | inr e ↦ rw e (Any-filter P xs there)
  ]

module _ {ℓ} {A : Type ℓ} where
  pub length-permᴰ : {xs ys : List A} → Permᴰ xs ys → length xs ≡ length ys
  length-permᴰ Permᴰ.nil = refl
  length-permᴰ (Permᴰ.cons e p) = ap suc (length-permᴰ p)
  length-permᴰ (Permᴰ.swap e f) = refl
  length-permᴰ (Permᴰ.trans p q) = length-permᴰ p ∙ length-permᴰ q

pub All-both {ℓ} :
    {A : Type ℓ} (P Q : A → Type 0) (xs : List A) → All P xs → All Q xs → All (λ x. P x × Q x) xs
All-both P Q [] h g = tt
All-both P Q (x ∷ xs) h g = ((h.0, g.0), All-both P Q xs h.1 g.1)
