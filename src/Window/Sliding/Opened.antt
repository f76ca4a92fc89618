-- ===== src/Window/Sliding/Opened.antt =====
-- The windows that an `insert` of src/window/sliding_window.rs opens.
use bytewax.Prelude.{
  ◌≡◌, refl, ap, sym, subst, ◌∙◌, ◌+ℤ◌, ◌≤ℤ◌, ltb_ℤ, eqb_ℤ, eqb_ℤ_iff, ge→ltb_ℤ, true, some, List,
  [], ◌∷◌, map, arith, ◌∙◌, if◌then◌else◌, All, ◌⊎◌, Any, Bool-cases, Option-cases, inl, inr, ◌&&◌,
}
use bytewax.Prelude.Order.Ord.{ℤ_ord, eq_refl}
use bytewax.Prelude.Order.Map.{
  lookup, insert, lookup-insert, lookup-All, Ascends, Ascends-insert, All-insert,
}
use bytewax.Window.Types.{DateTime, WindowKey, InsertResult, ok, late}
use bytewax.Window.Sliding.Defs.{SlidingWindower, consistent, insert_window, insert_all}
use bytewax.Window.Sliding.Intersects.{open_at, IsWindowAt}

-- The boundaries on record are those of the key.
abbrev pub IsEntry : SlidingWindower → WindowKey × (DateTime × DateTime) → Type 0
IsEntry w (k, (o, c)) = (o ≡ open_at w k) × (c ≡ open_at w k +ℤ w.length)

pub record IsConsistent (w : SlidingWindower) : Type 0 where
  pub entries : All (IsEntry w) w.close_times
  pub ascends : Ascends w.close_times

-- An item is late for a window that closes before the watermark.
abbrev pub result_of : DateTime → WindowKey × DateTime × DateTime → InsertResult
result_of watermark (k, o, c) = if ltb_ℤ c watermark then late k else ok k

-- The windows that are not late are entered.
unfoldable pub opened :
    DateTime
    → List (WindowKey × DateTime × DateTime)
    → List (WindowKey × (DateTime × DateTime))
    → List (WindowKey × (DateTime × DateTime))
opened watermark [] m = m
opened watermark ((k, o, c) ∷ es) m =
    opened watermark es (if ltb_ℤ c watermark then m else insert k (o, c) m)

boundaries_agree : (o c o' c' : DateTime) → c ≡ c' → o' ≡ o → (eqb_ℤ c c' && eqb_ℤ o' o) ≡ true
boundaries_agree o c o' c' p q = ground (arith, eqb_ℤ_iff c c', eqb_ℤ_iff o' o)

consistent-lookup :
    (w : SlidingWindower) (k : WindowKey) (m : List (WindowKey × (DateTime × DateTime)))
    → All (IsEntry w) m
    → (o c : DateTime) → IsEntry w (k, (o, c))
    → consistent (lookup k m) o c ≡ true
consistent-lookup w k m h o c e = elim (Option-cases (lookup k m)) [
  | inl none_there ↦ rw none_there refl
  | inr (b, there) ↦
      let same = lookup-All (IsEntry w) k m h b there in
      rw there (boundaries_agree o c b.0 b.1 (e.1 ∙ sym same.1) (same.0 ∙ sym e.0))
]

IsWindowAt-IsEntry :
    (w : SlidingWindower) (time : DateTime) (e : WindowKey × DateTime × DateTime)
    → IsWindowAt w time e
    → IsEntry w (e.0, (e.1, e.2))
IsWindowAt-IsEntry w time e a = (a.opens, a.closes ∙ ap (λ x. x +ℤ w.length) a.opens)

insert_window-consistent :
    (w : SlidingWindower) (k : WindowKey) (o c : DateTime)
    (m : List (WindowKey × (DateTime × DateTime)))
    → consistent (lookup k m) o c ≡ true
    → insert_window (record w { close_times = m }) k o c
      ≡ some (record w { close_times = insert k (o, c) m })
unfolding insert_window
insert_window-consistent w k o c m h = rw h refl

pub insert_all-opened :
    (w : SlidingWindower) (watermark time : DateTime) (es : List (WindowKey × DateTime × DateTime))
    (m : List (WindowKey × (DateTime × DateTime)))
    → All (IsEntry w) m
    → All (IsWindowAt w time) es
    → insert_all watermark es (record w { close_times = m })
      ≡ some (record w { close_times = opened watermark es m }, map (result_of watermark) es)
unfolding insert_all opened
insert_all-opened w watermark time [] m h ws = refl
insert_all-opened w watermark time ((k, o, c) ∷ es) m h ws = elim (Bool-cases (ltb_ℤ c watermark)) [
  | inl passed ↦ rw (passed, insert_all, insert_all-opened w watermark time es m h ws.1) refl
  | inr future ↦
      let entry = IsWindowAt-IsEntry w time (k, o, c) ws.0 in
      rw
        (
          future,
          insert_all,
          insert_window-consistent w k o c m (consistent-lookup w k m h o c entry),
          insert_all-opened w watermark time es (insert k (o, c) m)
              (All-insert (IsEntry w) k (o, c) m entry h) ws.1,
        )
        refl
]

module _ (w : SlidingWindower) (watermark time : DateTime) where
  pub opened-IsEntry :
      (es : List (WindowKey × DateTime × DateTime)) (m : List (WindowKey × (DateTime × DateTime)))
      → All (IsWindowAt w time) es
      → All (IsEntry w) m
      → All (IsEntry w) (opened watermark es m)
  unfolding opened
  opened-IsEntry [] m ws h = h
  opened-IsEntry ((k, o, c) ∷ es) m ws h = elim (Bool-cases (ltb_ℤ c watermark)) [
    | inl passed ↦ rw (passed, opened) (opened-IsEntry es m ws.1 h)
    | inr future ↦
        rw (future, opened)
          (opened-IsEntry es (insert k (o, c) m) ws.1
            (All-insert (IsEntry w) k (o, c) m (IsWindowAt-IsEntry w time (k, o, c) ws.0) h))
  ]

  pub opened-Ascends :
      (es : List (WindowKey × DateTime × DateTime)) (m : List (WindowKey × (DateTime × DateTime)))
      → Ascends m
      → Ascends (opened watermark es m)
  unfolding opened
  opened-Ascends [] m h = h
  opened-Ascends ((k, o, c) ∷ es) m h = elim (Bool-cases (ltb_ℤ c watermark)) [
    | inl passed ↦ rw (passed, opened) (opened-Ascends es m h)
    | inr future ↦
        rw (future, opened) (opened-Ascends es (insert k (o, c) m) (Ascends-insert k (o, c) m h))
  ]

  entry_unique :
      (j k : WindowKey) (c b : DateTime × DateTime)
      → IsEntry w (j, c)
      → IsEntry w (k, b)
      → j ≡ k
      → c ≡ b
  entry_unique j k c b f e same =
      let opens = f.0 ∙ ap (open_at w) same ∙ sym e.0 in
      let closes = f.1 ∙ ap (λ x. open_at w x +ℤ w.length) same ∙ sym e.1 in
      λ i. (opens i, closes i)

  -- An entry stays as it is, also where it is entered again.
  lookup-insert_again :
      (k : WindowKey) (b : DateTime × DateTime) (j : WindowKey) (o c : DateTime)
      (m : List (WindowKey × (DateTime × DateTime)))
      → IsEntry w (k, b)
      → IsEntry w (j, (o, c))
      → lookup k m ≡ some b
      → lookup k (insert j (o, c) m) ≡ some b
  lookup-insert_again k b j o c m e f there =
      rw (lookup-insert j k (o, c) m) (elim (Bool-cases (eqb_ℤ j k)) [
        | inl same ↦ rw same (ap some (entry_unique j k (o, c) b f e ((eqb_ℤ_iff j k).0 same)))
        | inr other ↦ rw other there
      ])

  pub lookup-opened_kept :
      (k : WindowKey) (b : DateTime × DateTime) (es : List (WindowKey × DateTime × DateTime))
      (m : List (WindowKey × (DateTime × DateTime)))
      → All (IsWindowAt w time) es
      → IsEntry w (k, b)
      → lookup k m ≡ some b
      → lookup k (opened watermark es m) ≡ some b
  unfolding opened
  lookup-opened_kept k b [] m ws e there = there
  lookup-opened_kept k b ((j, o, c) ∷ es) m ws e there = elim (Bool-cases (ltb_ℤ c watermark)) [
    | inl passed ↦ rw (passed, opened) (lookup-opened_kept k b es m ws.1 e there)
    | inr future ↦
        rw (future, opened)
          (lookup-opened_kept k b es (insert j (o, c) m) ws.1 e
            (lookup-insert_again k b j o c m e (IsWindowAt-IsEntry w time (j, o, c) ws.0) there))
  ]

  lookup-opened_here :
      (j : WindowKey) (o c : DateTime) (es : List (WindowKey × DateTime × DateTime))
      (m : List (WindowKey × (DateTime × DateTime)))
      → All (IsWindowAt w time) ((j, o, c) ∷ es)
      → watermark ≤ℤ c
      → lookup j (opened watermark ((j, o, c) ∷ es) m) ≡ some (o, c)
  unfolding opened
  lookup-opened_here j o c es m ws l =
      rw (ge→ltb_ℤ c watermark l, opened)
        (lookup-opened_kept j (o, c) es (insert j (o, c) m) ws.1
          (IsWindowAt-IsEntry w time (j, o, c) ws.0)
          (rw (lookup-insert j j (o, c) m, eq_refl j) refl))

  pub lookup-opened :
      (e : WindowKey × DateTime × DateTime) (es : List (WindowKey × DateTime × DateTime))
      (m : List (WindowKey × (DateTime × DateTime)))
      → All (IsWindowAt w time) es
      → watermark ≤ℤ e.2
      → Any (λ x. x ≡ e) es
      → lookup e.0 (opened watermark es m) ≡ some (e.1, e.2)
  unfolding opened
  lookup-opened e [] m ws l at = elim at [ ]
  lookup-opened e ((j, o, c) ∷ es) m ws l (inl here) =
      subst (λ x. lookup x.0 (opened watermark ((j, o, c) ∷ es) m) ≡ some (x.1, x.2)) here
        (lookup-opened_here j o c es m ws (subst (λ x. watermark ≤ℤ x.2) (sym here) l))
  lookup-opened e ((j, o, c) ∷ es) m ws l (inr there) = elim (Bool-cases (ltb_ℤ c watermark)) [
    | inl passed ↦ rw (passed, opened) (lookup-opened e es m ws.1 l there)
    | inr future ↦ rw (future, opened) (lookup-opened e es (insert j (o, c) m) ws.1 l there)
  ]

module _ (watermark : DateTime) where
  -- Nothing else is opened.
  pub lookup-opened_only :
      (k : WindowKey) (es : List (WindowKey × DateTime × DateTime))
      (m : List (WindowKey × (DateTime × DateTime))) (b : DateTime × DateTime)
      → lookup k (opened watermark es m) ≡ some b
      → (lookup k m ≡ some b) ⊎ Any (λ r. r ≡ ok k) (map (result_of watermark) es)
  unfolding opened
  lookup-opened_only k [] m b found = inl found
  lookup-opened_only k ((j, o, c) ∷ es) m b found = elim (Bool-cases (ltb_ℤ c watermark)) [
    | inl passed ↦ elim (lookup-opened_only k es m b (rw (passed, opened) at found)) [
      | inl before ↦ inl before
      | inr named ↦ inr (inr named)
    ]
    | inr future ↦
        elim (lookup-opened_only k es (insert j (o, c) m) b (rw (future, opened) at found)) [
          | inl before ↦ elim (Bool-cases (eqb_ℤ j k)) [
            | inl same ↦ inr (inl (rw future (ap ok ((eqb_ℤ_iff j k).0 same))))
            | inr other ↦
                inl (rw (other) at (subst (λ x. x ≡ some b) (lookup-insert j k (o, c) m) before))
          ]
          | inr named ↦ inr (inr named)
        ]
  ]
