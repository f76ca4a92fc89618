-- ===== src/Stateful/Isolation.antt =====
-- The awakenings of src/operators/stateful_unary.rs, seen from one key.
use bytewax.Prelude.{
  ◌≡◌, ◌⊎◌, refl, ap, ◌∙◌, true, false, Option, none, some, List, [], ◌∷◌, ◌++◌, map, if◌then◌else◌,
  Bool-cases, inl, inr,
}
use bytewax.Prelude.Order.Ord.{Ord}
use bytewax.Prelude.Order.Map.{lookup, lookup-insert, lookup-remove}
use bytewax.Window.Types.{DateTime, Poll}
use bytewax.Window.Logic.Defs.{LogicFate, retain, discard}
use bytewax.Stateful.Defs.{StatefulLogic, State, or_else, set_awake, awake_one, awake_all}

module _ {V R L S : Type 0} (logic : StatefulLogic V R L S) where
  -- One awakening of one key, on its logic and its next awakening.
  unfoldable pub key_step : Option L → Poll V → (Option L × Option DateTime) × List R
  key_step own next_value =
      let (l, out) = logic.on_awake (or_else (logic.builder none) own) next_value in
      elim (logic.fate l) [
        | discard ↦ ((none, none), out)
        | retain ↦ ((some l, logic.next_awake l), out)
      ]

  unfoldable pub key_run :
      Option L × Option DateTime → List (Poll V) → (Option L × Option DateTime) × List R
  unfolding key_step
  key_run own [] = (own, [])
  key_run own (v ∷ vs) =
      let (own₁, out) = key_step own.0 v in
      let (own₂, more) = key_run own₁ vs in (own₂, out ++ more)

fate_cases : (f : LogicFate) → (f ≡ retain) ⊎ (f ≡ discard)
fate_cases retain = inl refl
fate_cases discard = inr refl

module _ {K : Type 0} ⦃o : Ord K⦄ where
  -- What stands under a key.
  unfoldable pub of_key {ℓ} : {A : Type ℓ} → K → List (K × A) → List A
  of_key k [] = []
  of_key k ((j, a) ∷ xs) = let rest = of_key k xs in if o.eq j k then a ∷ rest else rest

  of_key-append :
      {A : Type 0} (k : K) (xs ys : List (K × A)) → of_key k (xs ++ ys) ≡ of_key k xs ++ of_key k ys
  unfolding of_key
  of_key-append k [] ys = refl
  of_key-append k ((j, a) ∷ xs) ys = elim (Bool-cases (o.eq j k)) [
    | inl same ↦ rw (same, of_key, of_key-append k xs ys) refl
    | inr other ↦ rw (other, of_key, of_key-append k xs ys) refl
  ]

  of_key-map :
      {A : Type 0} (k j : K) (xs : List A)
      → of_key k (map (λ a. (j, a)) xs) ≡ (if o.eq j k then xs else [])
  unfolding of_key
  of_key-map k j xs = elim (Bool-cases (o.eq j k)) [
    | inl same ↦ rw same (all same xs)
    | inr other ↦ rw other (nil other xs)
  ]
    where
      all : {A : Type 0} → o.eq j k ≡ true → (ys : List A) → of_key k (map (λ a. (j, a)) ys) ≡ ys
      all same [] = refl
      all same (y ∷ ys) = rw (same, of_key, all same ys) refl

      nil : {A : Type 0} → o.eq j k ≡ false → (ys : List A) → of_key k (map (λ a. (j, a)) ys) ≡ []
      nil other [] = refl
      nil other (y ∷ ys) = rw (other, of_key, nil other ys) refl

module _ {K V R L S : Type 0} ⦃o : Ord K⦄ (logic : StatefulLogic V R L S) where
  -- A key's part of the state: its logic and its next awakening.
  abbrev pub view : K → State K L → Option L × Option DateTime
  view k s = (lookup k s.current_logic, lookup k s.current_next_awake)

  pub lookup-set_awake :
      (j k : K) (t : Option DateTime) (awakes : List (K × DateTime))
      → lookup k (set_awake logic j t awakes) ≡ (if o.eq j k then t else lookup k awakes)
  lookup-set_awake j k none awakes = lookup-remove j k awakes
  lookup-set_awake j k (some t) awakes = lookup-insert j k t awakes

  -- An awakening changes the view of its own key alone.
  view-awake_one :
      (s : State K L) (j k : K) (v : Poll V)
      → view k (awake_one logic s j v).0
        ≡ (if o.eq j k then (key_step logic (lookup j s.current_logic) v).0 else view k s)
  unfolding awake_one key_step
  view-awake_one s j k v =
      let l = (logic.on_awake (or_else (logic.builder none) (lookup j s.current_logic)) v).0 in
      elim (fate_cases (logic.fate l)) [
        | inl kept ↦
            rw
              (
                awake_one,
                key_step,
                kept,
                lookup-insert j k l s.current_logic,
                lookup-set_awake j k (logic.next_awake l) s.current_next_awake,
              )
              (elim (Bool-cases (o.eq j k)) [ inl same ↦ rw same refl | inr other ↦ rw other refl ])
        | inr dropped ↦
            rw
              (
                awake_one,
                key_step,
                dropped,
                lookup-remove j k s.current_logic,
                lookup-remove j k s.current_next_awake,
              )
              (elim (Bool-cases (o.eq j k)) [ inl same ↦ rw same refl | inr other ↦ rw other refl ])
      ]

  outputs-awake_one :
      (s : State K L) (j k : K) (v : Poll V)
      → of_key k (awake_one logic s j v).1
        ≡ (if o.eq j k then (key_step logic (lookup j s.current_logic) v).1 else [])
  unfolding awake_one key_step
  outputs-awake_one s j k v =
      let (l, out) = logic.on_awake (or_else (logic.builder none) (lookup j s.current_logic)) v in
      elim (fate_cases (logic.fate l)) [
        | inl kept ↦ rw (awake_one, key_step, kept) (of_key-map k j out)
        | inr dropped ↦ rw (awake_one, key_step, dropped) (of_key-map k j out)
      ]

  -- However the awakenings of the keys are mixed, a key's logic and next awakening end up as if its
  -- own awakenings had come alone, in their order, and so do its outputs.
  pub awake_all-view :
      (s : State K L) (k : K) (awakes : List (K × Poll V))
      → (view k (awake_all logic s awakes).0 ≡ (key_run logic (view k s) (of_key k awakes)).0)
        × (of_key k (awake_all logic s awakes).1 ≡ (key_run logic (view k s) (of_key k awakes)).1)
  unfolding awake_all key_run of_key
  awake_all-view s k [] = (refl, refl)
  awake_all-view s k ((j, v) ∷ rest) =
      let (s₁, out) = awake_one logic s j v in
      let (state, sent) = awake_all-view s₁ k rest in
      let awakened = view-awake_one s j k v in
      let emitted = outputs-awake_one s j k v in
      elim (Bool-cases (o.eq j k)) [
        | inl same ↦
            let j_k = (o.eq_iff j k).0 same in
            let own : view k s₁ ≡ (key_step logic (lookup k s.current_logic) v).0 =
              awakened ∙ rw (same, j_k) refl in
            let outs : of_key k out ≡ (key_step logic (lookup k s.current_logic) v).1 =
              emitted ∙ rw (same, j_k) refl in
            rw same (
              state ∙ ap (λ x. (key_run logic x (of_key k rest)).0) own,
              of_key-append k out _
                  ∙ ap (λ x. x ++ of_key k (awake_all logic s₁ rest).1) outs
                  ∙ ap (λ y. (key_step logic (lookup k s.current_logic) v).1 ++ y)
                      (sent ∙ ap (λ x. (key_run logic x (of_key k rest)).1) own),
            )
        | inr other ↦
            let own : view k s₁ ≡ view k s = awakened ∙ rw other refl in
            let outs : of_key k out ≡ [] = emitted ∙ rw other refl in
            rw other (
              state ∙ ap (λ x. (key_run logic x (of_key k rest)).0) own,
              of_key-append k out _
                  ∙ ap (λ x. x ++ of_key k (awake_all logic s₁ rest).1) outs
                  ∙ sent
                  ∙ ap (λ x. (key_run logic x (of_key k rest)).1) own,
            )
      ]
