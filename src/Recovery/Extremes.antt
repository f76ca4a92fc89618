-- ===== src/Recovery/Extremes.antt =====
-- The greatest and the least of some numbers.
use bytewax.Prelude.{
  ℕ, ◌≤◌, ◌≡◌, refl, sym, ◌∙◌, ltb, Option, none, some, List, [], ◌∷◌, arith, All, All-map, Any,
  Option-cases, Bool-cases, inl, inr,
}
use bytewax.Recovery.Resume.{maximum, max_ℕ}

pub maximum-some : (n : ℕ) (ns : List ℕ) → (m : ℕ) × (maximum (n ∷ ns) ≡ some m)
unfolding maximum
maximum-some n ns = elim (Option-cases (maximum ns)) [
  | inl e ↦ (n, rw e refl)
  | inr (m, e) ↦ (max_ℕ n m, rw e refl)
]

nil_of : (ns : List ℕ) → maximum ns ≡ none → ns ≡ []
nil_of [] e = refl
nil_of (n ∷ ns) e = let (m, f) = maximum-some n ns in cc (sym e ∙ f)

-- The greatest of some numbers is one of them.
pub maximum-member : (ns : List ℕ) (m : ℕ) → maximum ns ≡ some m → Any (λ n. n ≡ m) ns
unfolding maximum
maximum-member [] m e = cc e
maximum-member (n ∷ ns) m e = elim (Option-cases (maximum ns)) [
  | inl none_e ↦ inl (ground (arith, none_e, e))
  | inr (l, f) ↦ elim (Bool-cases (ltb n l)) [
    | inl less ↦ inr (maximum-member ns m (ground (arith, f, less, e)))
    | inr more ↦ inl (ground (arith, f, more, e))
  ]
]

pub maximum-ge : (ns : List ℕ) (m : ℕ) → maximum ns ≡ some m → All (λ n. n ≤ m) ns
unfolding maximum
maximum-ge [] m e = tt
maximum-ge (n ∷ ns) m e = go (maximum ns) refl e (maximum-ge ns)
  where
    go :
        (o : Option ℕ)
        → maximum ns ≡ o
        → elim o [ none ↦ some n | some l ↦ some (max_ℕ n l) ] ≡ some m
        → ((l : ℕ) → maximum ns ≡ some l → All (λ k. k ≤ l) ns)
        → All (λ k. k ≤ m) (n ∷ ns)
    go none eq f ih = (ground (arith, f), rw (nil_of ns eq) tt)
    go (some l) eq f ih =
        (ground (arith, f), All-map (λ k. k ≤ l) (λ k le. ground (arith, f)) ns (ih l eq))
