-- ===== src/Examples/Arrange.antt =====
-- Sorting and selecting, instances of what src/timely.rs and src/recovery.rs take from libraries.
use mathlib.Core.List.{Permᴰ}
use mathlib.Core.List.Permᴰ as PermD
use bytewax.Prelude.{
  ℕ, ◌≤◌, ◌≡◌, refl, subst, false, List, [], ◌∷◌, ltb, leb, All, All-map, All-permᴰ, Any, Pairs,
  Bool-cases, inl, inr, arith, if◌then◌else◌,
}
use bytewax.Prelude.Order.Ord.{ℕ_ord}
use bytewax.Timely.Primaries.{Selection}
use bytewax.Timely.Parts.{LoadPartEntry, Greatest}
use bytewax.Recovery.Tables.{SerializedSnapshot}
use bytewax.Recovery.Load.{OrderBy}

module _ {A : Type 0} (key : A → ℕ) where
  unfoldable pub put : A → List A → List A
  put a [] = a ∷ []
  put a (b ∷ bs) = if ltb (key b) (key a) then b ∷ put a bs else a ∷ b ∷ bs

  unfoldable pub sort : List A → List A
  unfolding put
  sort [] = []
  sort (a ∷ xs) = put a (sort xs)

  put-permᴰ : (a : A) (bs : List A) → Permᴰ (a ∷ bs) (put a bs)
  unfolding put
  put-permᴰ a [] = PermD.refl (a ∷ [])
  put-permᴰ a (b ∷ bs) = elim (Bool-cases (ltb (key b) (key a))) [
    | inl later ↦
        rw (later, put)
          (Permᴰ.trans (Permᴰ.swap {l = bs} refl refl) (Permᴰ.cons refl (put-permᴰ a bs)))
    | inr sooner ↦ rw (sooner, put) (PermD.refl (a ∷ b ∷ bs))
  ]

  abbrev Le : A → A → Type 0
  Le a b = key a ≤ key b

  put-Pairs : (a : A) (bs : List A) → Pairs Le bs → Pairs Le (put a bs)
  unfolding put
  put-Pairs a [] h = (tt, tt)
  put-Pairs a (b ∷ bs) h = elim (Bool-cases (ltb (key b) (key a))) [
    | inl later ↦
        rw (later, put)
          (All-permᴰ (Le b) (put-permᴰ a bs) (ground (arith, later), h.0), put-Pairs a bs h.1)
    | inr sooner ↦
        let le : key a ≤ key b = ground (arith, sooner) in
        rw (sooner, put) ((le, All-map (Le b) (λ x k. omega arith) bs h.0), h)
  ]

  pub sort-permᴰ : (xs : List A) → Permᴰ xs (sort xs)
  unfolding sort
  sort-permᴰ [] = PermD.refl []
  sort-permᴰ (a ∷ xs) = Permᴰ.trans (Permᴰ.cons refl (sort-permᴰ xs)) (put-permᴰ a (sort xs))

  pub sort-Pairs : (xs : List A) → Pairs Le (sort xs)
  unfolding sort
  sort-Pairs [] = tt
  sort-Pairs (a ∷ xs) = put-Pairs a (sort xs) (sort-Pairs xs)

unfoldable pub least : (ℕ → ℕ) → ℕ → List ℕ → ℕ
least key w [] = w
least key w (v ∷ vs) = let u = least key w vs in if leb (key u) (key v) then u else v

skip : (P : ℕ → Type 0) (w v : ℕ) (vs : List ℕ) → Any P (w ∷ vs) → Any P (w ∷ v ∷ vs)
skip P w v vs (inl here) = inl here
skip P w v vs (inr there) = inr (inr there)

pub least-Any : (key : ℕ → ℕ) (w : ℕ) (ws : List ℕ) → Any (λ v. v ≡ least key w ws) (w ∷ ws)
unfolding least
least-Any key w [] = inl refl
least-Any key w (v ∷ vs) = elim (Bool-cases (leb (key (least key w vs)) (key v))) [
  | inl e ↦
      let same : least key w vs ≡ least key w (v ∷ vs) = rw e refl in
      skip (λ x. x ≡ least key w (v ∷ vs)) w v vs
        (subst (λ u. Any (λ x. x ≡ u) (w ∷ vs)) same (least-Any key w vs))
  | inr e ↦ let same : v ≡ least key w (v ∷ vs) = rw e refl in inr (inl same)
]

pub least-All :
    (key : ℕ → ℕ) (w : ℕ) (ws : List ℕ) → All (λ v. key (least key w ws) ≤ key v) (w ∷ ws)
unfolding least
least-All key w [] = (omega arith, tt)
least-All key w (v ∷ vs) =
    let h = least-All key w vs in
    let low : key (least key w (v ∷ vs)) ≤ key (least key w vs) = ground arith in
    let here : key (least key w (v ∷ vs)) ≤ key v = ground arith in
    (
      omega (arith, low, h.0),
      (here, All-map (λ x. key (least key w vs) ≤ key x) (λ x k. omega (arith, low, k)) vs h.1),
    )

abbrev pub by_load : Selection ℕ
by_load = record {
  sort_unstable_by_key = λ key ps. sort key ps;
  select_first_by_key = least;
  sort-permᴰ = λ key ps. sort-permᴰ key ps;
  sort-Pairs = λ key ps. sort-Pairs key ps;
  select-Any = least-Any;
  select-All = least-All;
}

module _ {P L : Type 0} where
  unfoldable pub peek :
      LoadPartEntry P L → List (LoadPartEntry P L) → LoadPartEntry P L × List (LoadPartEntry P L)
  peek e [] = (e, [])
  peek e (f ∷ fs) =
      let (m, rest) = peek e fs in if leb f.cap m.cap then (m, f ∷ rest) else (f, m ∷ rest)

  pub peek-permᴰ :
      (e : LoadPartEntry P L) (es : List (LoadPartEntry P L))
      → Permᴰ (e ∷ es) ((peek e es).0 ∷ (peek e es).1)
  unfolding peek
  peek-permᴰ e [] = PermD.refl (e ∷ [])
  peek-permᴰ e (f ∷ fs) =
      let (m, rest) = peek e fs in
      let up = Permᴰ.trans (Permᴰ.swap {l = fs} refl refl) (Permᴰ.cons refl (peek-permᴰ e fs)) in
      elim (Bool-cases (leb f.cap m.cap)) [
        | inl le ↦ rw le (Permᴰ.trans up (Permᴰ.swap {l = rest} refl refl))
        | inr gt ↦ rw gt up
      ]

  peek-up :
      (e f : LoadPartEntry P L) (fs : List (LoadPartEntry P L))
      → (peek e fs).0.cap ≤ (peek e (f ∷ fs)).0.cap
  unfolding peek
  peek-up e f fs = elim (Bool-cases (leb f.cap (peek e fs).0.cap)) [
    | inl le ↦ rw (peek, le) (omega arith)
    | inr gt ↦ rw (peek, gt) (ground (arith, gt))
  ]

  peek-here :
      (e f : LoadPartEntry P L) (fs : List (LoadPartEntry P L)) → f.cap ≤ (peek e (f ∷ fs)).0.cap
  unfolding peek
  peek-here e f fs = elim (Bool-cases (leb f.cap (peek e fs).0.cap)) [
    | inl le ↦ rw (peek, le) (ground (arith, le))
    | inr gt ↦ rw (peek, gt) (omega arith)
  ]

  pub peek-All :
      (e : LoadPartEntry P L) (es : List (LoadPartEntry P L))
      → All (λ x. x.cap ≤ (peek e es).0.cap) (e ∷ es)
  unfolding peek
  peek-All e [] = (omega arith, tt)
  peek-All e (f ∷ fs) =
      let h = peek-All e fs in
      let up : (peek e fs).0.cap ≤ (peek e (f ∷ fs)).0.cap = peek-up e f fs in
      (
        omega (arith, up, h.0),
        (
          peek-here e f fs,
          All-map (λ x. x.cap ≤ (peek e fs).0.cap) (λ x k. omega (arith, up, k)) fs h.1,
        ),
      )

  abbrev pub by_cap : Greatest P L
  by_cap = record { peek = peek; peek-permᴰ = peek-permᴰ; peek-All = peek-All }

pub low_first :
    {S : Type 0} (rows : List (SerializedSnapshot ℕ S))
    → Pairs (λ r s. r.key ≤ s.key) rows
    → Pairs (λ r s. ltb s.key r.key ≡ false) rows
low_first [] h = tt
low_first (r ∷ rows) h =
    (All-map (λ s. r.key ≤ s.key) (λ s le. ground (arith, le)) rows h.0, low_first rows h.1)

abbrev pub by_key : {S : Type 0} → OrderBy ℕ S
by_key {S} = record {
  order_by = λ rows. sort (λ (r : SerializedSnapshot ℕ S). r.key) rows;
  order_by-permᴰ = λ rows. sort-permᴰ (λ (r : SerializedSnapshot ℕ S). r.key) rows;
  order_by-Pairs = λ rows.
      low_first (sort (λ (r : SerializedSnapshot ℕ S). r.key) rows)
        (sort-Pairs (λ (r : SerializedSnapshot ℕ S). r.key) rows);
}
