-- ===== src/Prelude/Order/Keys.antt =====
-- The keys of a map, as a set.
use mathlib.Core.Path.{◌≡◌, refl, sym, subst, ◌∙◌}
use mathlib.Core.Bool.{true, false, false≢true}
use mathlib.Core.List.{List, [], ◌∷◌, Permᴰ}
use mathlib.Core.Logic.{inl, inr}
use native.Mathlib.Omega.{arith}
use bytewax.Prelude.Tests.{if◌then◌else◌, Bool-cases}
use bytewax.Prelude.Lists.{All, All-map, Pairs}
use bytewax.Prelude.Order.Ord.{Ord, eq_of_lt, eq_refl}
use bytewax.Prelude.Order.Map
use bytewax.Prelude.Order.Map.{keys}
use bytewax.Prelude.Order.Set.{contains, Ascends}

module _ {K V : Type 0} ⦃o : Ord K⦄ where
  pub contains-insert :
      (k j : K) (v : V) (m : List (K × V))
      → contains j (keys (Map.insert k v m)) ≡ (if o.eq k j then true else contains j (keys m))
  unfolding contains Map.insert
  contains-insert k j v [] = refl
  contains-insert k j v ((i, w) ∷ m) =
      ground (arith, o.eq_iff k j, o.eq_iff i k, o.eq_iff i j, contains-insert k j v m)

  pub All-keys : (P : K → Type 0) (m : List (K × V)) → All (λ e. P e.0) m → All P (keys m)
  All-keys P [] h = tt
  All-keys P (e ∷ m) h = (h.0, All-keys P m h.1)

  pub Ascends-keys : (m : List (K × V)) → Map.Ascends m → Ascends (keys m)
  Ascends-keys [] h = tt
  Ascends-keys ((k, v) ∷ m) h = (All-keys (λ j. o.lt k j ≡ true) m h.0, Ascends-keys m h.1)

module _ {K : Type 0} ⦃o : Ord K⦄ where
  pub contains-permᴰ : (k : K) {xs ys : List K} → Permᴰ xs ys → contains k xs ≡ contains k ys
  unfolding contains
  contains-permᴰ k Permᴰ.nil = refl
  contains-permᴰ k (Permᴰ.cons e p) = rw (e, contains-permᴰ k p) refl
  contains-permᴰ k (Permᴰ.swap {a = a} {b = b} e f) = rw (e, f) (ground arith)
  contains-permᴰ k (Permᴰ.trans p q) = contains-permᴰ k p ∙ contains-permᴰ k q

  pub eq_flip : (k j : K) → o.eq k j ≡ false → o.eq j k ≡ false
  eq_flip k j apart = elim (Bool-cases (o.eq j k)) [
    | inl same ↦ absurd (false≢true (sym apart ∙ (o.eq_iff k j).1 (sym ((o.eq_iff j k).0 same))))
    | inr other ↦ other
  ]

  -- No member stands twice.
  pub Ascends-Pairs : (s : List K) → Ascends s → Pairs (λ k j. o.eq k j ≡ false) s
  Ascends-Pairs [] h = tt
  Ascends-Pairs (k ∷ s) h =
      (All-map (λ j. o.lt k j ≡ true) (λ j. eq_of_lt k j) s h.0, Ascends-Pairs s h.1)

  contains-below : (k : K) (s : List K) → All (λ j. o.lt k j ≡ true) s → contains k s ≡ false
  unfolding contains
  contains-below k [] h = refl
  contains-below k (j ∷ s) h = ground (arith, o.eq_iff j k, o.lt_irrefl k, contains-below k s h.1)

  contains-above :
      (k j : K) (s : List K)
      → o.lt k j ≡ true
      → All (λ i. o.lt j i ≡ true) s
      → contains k (j ∷ s) ≡ false
  contains-above k j s l h =
      contains-below k (j ∷ s) (l, All-map (λ i. o.lt j i ≡ true) (λ i. o.lt_trans k j i l) s h)

  contains-head : (k : K) (s : List K) → contains k (k ∷ s) ≡ true
  unfolding contains
  contains-head k s = rw (eq_refl k) refl

  -- The least members are the same.
  Ascends-head :
      (x y : K) (xs ys : List K)
      → Ascends (x ∷ xs)
      → Ascends (y ∷ ys)
      → ((k : K) → contains k (x ∷ xs) ≡ contains k (y ∷ ys))
      → x ≡ y
  Ascends-head x y xs ys h g same = elim (Bool-cases (o.lt x y)) [
    | inl less ↦
        absurd
          (false≢true (sym (contains-above x y ys less g.0) ∙ sym (same x) ∙ contains-head x xs))
    | inr not_less ↦ elim (Bool-cases (o.lt y x)) [
      | inl more ↦
          absurd (false≢true (sym (contains-above y x xs more h.0) ∙ same y ∙ contains-head y ys))
      | inr not_more ↦ o.lt_total x y not_less not_more
    ]
  ]

  -- Without its least member a set has the other members.
  Ascends-rest :
      (x : K) (xs ys : List K)
      → Ascends (x ∷ xs)
      → Ascends (x ∷ ys)
      → ((k : K) → contains k (x ∷ xs) ≡ contains k (x ∷ ys))
      → (k : K) → contains k xs ≡ contains k ys
  unfolding contains
  Ascends-rest x xs ys h g same k = elim (Bool-cases (o.eq x k)) [
    | inl at ↦
        let x_k = (o.eq_iff x k).0 at in
        contains-below k xs (subst (λ z. All (λ j. o.lt z j ≡ true) xs) x_k h.0)
        ∙ sym (contains-below k ys (subst (λ z. All (λ j. o.lt z j ≡ true) ys) x_k g.0))
    | inr other ↦ ground (arith, same k, other)
  ]

  -- A set is determined by its members.
  pub Ascends-ext :
      (xs ys : List K)
      → Ascends xs
      → Ascends ys
      → ((k : K) → contains k xs ≡ contains k ys)
      → xs ≡ ys
  unfolding contains
  Ascends-ext [] [] h g same = refl
  Ascends-ext [] (y ∷ ys) h g same = ground (arith, same y, eq_refl y)
  Ascends-ext (x ∷ xs) [] h g same = ground (arith, same x, eq_refl x)
  Ascends-ext (x ∷ xs) (y ∷ ys) h g same =
      let e = Ascends-head x y xs ys h g same in
      let g' = subst (λ z. Ascends (z ∷ ys)) (sym e) g in
      let same' = subst (λ z. (k : K) → contains k (x ∷ xs) ≡ contains k (z ∷ ys)) (sym e) same in
      let rest = Ascends-ext xs ys h.1 g.1 (Ascends-rest x xs ys h g' same') in λ i. e i ∷ rest i
