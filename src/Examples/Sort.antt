-- ===== src/Examples/Sort.antt =====
-- A sort of the sessions by their starts, an instance of `sort_unstable`.
use mathlib.Core.List.{Permᴰ}
use mathlib.Core.List.Permᴰ as PermD
use bytewax.Prelude.{
  refl, List, [], ◌∷◌, ltb_ℤ, ltb_ℤ→lt, ltb_ℤ→ge, All-map, All-permᴰ, Pairs, Bool-cases, inl, inr,
  arith, if◌then◌else◌,
}
use bytewax.Window.Session.Defs.{Session, StartsBy, UnstableSort}

unfoldable pub put : Session → List Session → List Session
put s [] = s ∷ []
put s (r ∷ rs) = if ltb_ℤ r.start s.start then r ∷ put s rs else s ∷ r ∷ rs

unfoldable pub sort : List Session → List Session
unfolding put
sort [] = []
sort (s ∷ ss) = put s (sort ss)

put-permᴰ : (s : Session) (ss : List Session) → Permᴰ (s ∷ ss) (put s ss)
unfolding put
put-permᴰ s [] = PermD.refl (s ∷ [])
put-permᴰ s (r ∷ rs) = elim (Bool-cases (ltb_ℤ r.start s.start)) [
  | inl later ↦
      rw (later, put)
        (Permᴰ.trans (Permᴰ.swap {l = rs} refl refl) (Permᴰ.cons refl (put-permᴰ s rs)))
  | inr sooner ↦ rw (sooner, put) (PermD.refl (s ∷ r ∷ rs))
]

put-Pairs : (s : Session) (ss : List Session) → Pairs StartsBy ss → Pairs StartsBy (put s ss)
unfolding put
put-Pairs s [] h = (tt, tt)
put-Pairs s (r ∷ rs) h = elim (Bool-cases (ltb_ℤ r.start s.start)) [
  | inl later ↦
      rw (later, put)
        (
          All-permᴰ (StartsBy r) (put-permᴰ s rs)
              (omega (arith, ltb_ℤ→lt r.start s.start later), h.0),
          put-Pairs s rs h.1,
        )
  | inr sooner ↦
      rw (sooner, put)
        (
          (
            ltb_ℤ→ge r.start s.start sooner,
            All-map (StartsBy r) (λ x le. omega (arith, ltb_ℤ→ge r.start s.start sooner)) rs h.0,
          ),
          h,
        )
]

pub sort-permᴰ : (ss : List Session) → Permᴰ ss (sort ss)
unfolding sort
sort-permᴰ [] = PermD.refl []
sort-permᴰ (s ∷ ss) = Permᴰ.trans (Permᴰ.cons refl (sort-permᴰ ss)) (put-permᴰ s (sort ss))

pub sort-Pairs : (ss : List Session) → Pairs StartsBy (sort ss)
unfolding sort
sort-Pairs [] = tt
sort-Pairs (s ∷ ss) = put-Pairs s (sort ss) (sort-Pairs ss)

abbrev pub by_start : UnstableSort
by_start = record {
  sort_unstable = sort;
  sort_unstable-Pairs = sort-Pairs;
  sort_unstable-permᴰ = sort-permᴰ;
}
