-- ===== src/Window/Logic/Awake.antt =====
-- What `on_awake` of src/window/mod.rs finds of metadata and logics where it expects them.
use mathlib.Core.Bool.{false≢true}
use bytewax.Prelude.{
  ◌∙◌, ◌≡◌, refl, sym, ◌⊎◌, ◌≢◌, none, some, List, [], ◌∷◌, ◌++◌, map, All, All-both, All-map, Any,
  Pairs, inl, inr, Bool-cases, eqb_ℤ, eqb_ℤ_iff,
}
use bytewax.Prelude.Order.Ord.{ℤ_ord}
use bytewax.Prelude.Order.Map.{lookup, insert, remove, lookup-insert, lookup-remove}
use bytewax.Window.Types.{
  DateTime, WindowKey, WindowMetadata, InsertResult, ok, late, Poll, pending, item, eof,
}
use bytewax.Window.Logic.Interface.{Clock, Windower, WindowLogic}
use bytewax.Window.Logic.Defs.{
  WindowStatefulLogic, Output, emit, late_item, or_new, route, route_all, close_all, take_value,
  on_awake,
}
use bytewax.Window.Logic.Laws.{Open, IsRouted, WindowerLaws}

module _ {L : Type 0} where
  -- There is a logic under a key.
  abbrev pub Has : WindowKey → List (WindowKey × L) → Type 0
  Has k state = (l : L) × (lookup k state ≡ some l)

  Has-insert :
      (k j : WindowKey) (l : L) (state : List (WindowKey × L))
      → Has k state ⊎ (j ≡ k)
      → Has k (insert j l state)
  Has-insert k j l state h = rw (lookup-insert j k l state) (elim (Bool-cases (eqb_ℤ j k)) [
    | inl same ↦ rw same (l, refl)
    | inr other ↦ rw other (elim h [
      | inl there ↦ there
      | inr same ↦ absurd (false≢true (sym other ∙ (eqb_ℤ_iff j k).1 same))
    ])
  ])

  Has-remove :
      (k j : WindowKey) (state : List (WindowKey × L))
      → Has k state
      → j ≢ k
      → Has k (remove j state)
  Has-remove k j state there other = rw (lookup-remove j k state) (elim (Bool-cases (eqb_ℤ j k)) [
    | inl same ↦ absurd (other ((eqb_ℤ_iff j k).0 same))
    | inr apart ↦ rw apart there
  ])

module _ {V R C W L : Type 0} (clock : Clock V C) (windower : Windower W)
    (logic : WindowLogic V R L) where
  route-total :
      (w : W) (value : V) (time : DateTime) (r : InsertResult) (state : List (WindowKey × L))
      → IsRouted windower w r
      → (state' : List (WindowKey × L)) × (out : List (Output V R)) × (route clock windower logic w
            value time r state
          ≡ some (state', out))
        × ((k : WindowKey) → Has k state ⊎ (r ≡ ok k) → Has k state')
  unfolding route
  route-total w value time (late j) state h =
      (state, late_item value ∷ [], refl, λ k at. elim at [ inl there ↦ there | inr e ↦ cc e ])
  route-total w value time (ok j) state (m, e) =
      let next =
        logic.with_next (or_new clock windower logic (lookup j state)) (some (value, time)) in
      (
        insert j next.0 state,
        map (emit m) next.1,
        rw e refl,
        λ k at.
            Has-insert k j next.0 state (elim at [ inl there ↦ inl there | inr e ↦ inr (cc e) ]),
      )

  route_all-total :
      (w : W) (value : V) (time : DateTime) (rs : List InsertResult) (state : List (WindowKey × L))
      → All (IsRouted windower w) rs
      → (state' : List (WindowKey × L)) × (out : List (Output V R)) × (route_all clock windower
            logic w value time rs state
          ≡ some (state', out))
        × ((k : WindowKey) → Has k state ⊎ Any (λ r. r ≡ ok k) rs → Has k state')
  unfolding route_all
  route_all-total w value time [] state h =
      (state, [], refl, λ k at. elim at [ inl there ↦ there | inr x ↦ absurd x ])
  route_all-total w value time (r ∷ rs) state h =
      let (s₁, out, e, has₁) = route-total w value time r state h.0 in
      let (s₂, rest, f, has₂) = route_all-total w value time rs s₁ h.1 in
      (
        s₂,
        out ++ rest,
        rw (e, f) refl,
        λ k at. has₂ k (elim at [
          | inl there ↦ inl (has₁ k (inl there))
          | inr named ↦ elim named [ inl here ↦ inl (has₁ k (inr here)) | inr later ↦ inr later ]
        ]),
      )

  close_all-total :
      (closed : List (WindowKey × WindowMetadata)) (state : List (WindowKey × L))
      → All (λ e. Has e.0 state) closed
      → Pairs (λ e f. e.0 ≢ f.0) closed
      → (state' : List (WindowKey × L)) × (out : List (Output V R)) × (close_all clock windower
            logic closed state
          ≡ some (state', out))
        × ((k : WindowKey) → Has k state → All (λ e. e.0 ≢ k) closed → Has k state')
  unfolding close_all
  close_all-total [] state h once = (state, [], refl, λ k there apart. there)
  close_all-total ((j, m) ∷ closed) state h once =
      let (l, e) = h.0 in
      let has =
        All-map (λ x. Has x.0 state × (j ≢ x.0)) (λ x a. Has-remove x.0 j state a.0 a.1) closed
          (All-both (λ x. Has x.0 state) (λ x. j ≢ x.0) closed h.1 once.0) in
      let (s, out, f, keeps) = close_all-total closed (remove j state) has once.1 in
      (
        s,
        map (emit m) (logic.with_next l none).1 ++ out,
        rw (e, f) refl,
        λ k there apart. keeps k (Has-remove k j state there apart.0) apart.1,
      )

module _ {V R C W L : Type 0} (clock : Clock V C) (windower : Windower W)
    (logic : WindowLogic V R L) (laws : WindowerLaws windower) where
  -- Each open window has a logic.
  pub record IsReady (s : WindowStatefulLogic C W L) : Type 0 where
    pub valid : laws.Inv s.windower
    pub has_logic : (k : WindowKey) → Open windower s.windower k → Has k s.current_state

  -- The item that an awakening brings, if any, is one that the windower takes.
  abbrev pub Takes : WindowStatefulLogic C W L → Poll V → Type 0
  Takes s (item v) = laws.Accepts s.windower (clock.time_for s.clock v).1
  Takes s pending = Unit
  Takes s eof = Unit

  -- The windower takes the value of an awakening at the time that the clock finds for it.
  abbrev pub Admits : WindowStatefulLogic C W L → Poll V → Type 0
  Admits s next_value =
      Takes (record s { clock = (clock.watermark s.clock next_value).0 }) next_value

  take_value-total :
      (s : WindowStatefulLogic C W L) (watermark : DateTime) (v : V)
      → IsReady s
      → laws.Accepts s.windower (clock.time_for s.clock v).1
      → (s' : WindowStatefulLogic C W L) × (out : List (Output V R)) × (take_value clock windower
            logic s watermark
            (item v)
          ≡ some (s', out))
        × IsReady s'
  unfolding take_value
  take_value-total s watermark v h a =
      let (c, time) = clock.time_for s.clock v in
      let i = laws.inserts s.windower watermark time h.valid a in
      let (state, out, e, has) =
        route_all-total clock windower logic i.after v time i.results s.current_state i.routed in
      (
        record { clock = c; windower = i.after; current_state = state },
        out,
        rw (i.returns, e) refl,
        record {
          valid = i.keeps;
          has_logic = λ k o. has k (elim (i.only k o) [
            | inl before ↦ inl (h.has_logic k before)
            | inr named ↦ inr named
          ]);
        },
      )

  drain-total :
      (s : WindowStatefulLogic C W L) (watermark : DateTime)
      → IsReady s
      → let (w, closed) = windower.drain_closed s.windower watermark in
        (state : List (WindowKey × L)) × (out : List (Output V R)) × (close_all clock windower logic
            closed s.current_state
          ≡ some (state, out))
        × IsReady (record s { windower = w; current_state = state })
  drain-total s watermark h =
      let d = laws.drains s.windower watermark h.valid in
      let (w, closed) = windower.drain_closed s.windower watermark in
      let (state, out, e, keeps) =
        close_all-total clock windower logic closed s.current_state
          (All-map (λ x. Open windower s.windower x.0) (λ x o. h.has_logic x.0 o) closed
            d.were_open)
          d.once in
      (
        state,
        out,
        e,
        record {
          valid = d.keeps;
          has_logic = λ k o. keeps k (h.has_logic k (d.still k o).0) (d.still k o).1;
        },
      )

  ready : (s : WindowStatefulLogic C W L) → IsReady s → (c : C) → IsReady (record s { clock = c })
  ready s h c = record { valid = h.valid; has_logic = h.has_logic }

  taken :
      (s : WindowStatefulLogic C W L) (watermark : DateTime) (next_value : Poll V)
      → IsReady s
      → Takes s next_value
      → (s' : WindowStatefulLogic C W L) × (out : List (Output V R)) × (take_value clock windower
            logic s watermark next_value
          ≡ some (s', out))
        × IsReady s'
  unfolding take_value
  taken s watermark pending h a = (s, [], refl, h)
  taken s watermark eof h a = (s, [], refl, h)
  taken s watermark (item v) h a = take_value-total s watermark v h a

  -- On a state where each open window has a logic and for an item that the windower takes, an
  -- awakening never panics: the metadata of each window that an item is put in and the logic of
  -- each window that closes are found. Afterwards each open window has a logic again.
  pub on_awake-total :
      (s : WindowStatefulLogic C W L) (next_value : Poll V)
      → IsReady s
      → Admits s next_value
      → (s' : WindowStatefulLogic C W L) × (out : List (Output V R)) × (on_awake clock windower
            logic s next_value
          ≡ some (s', out))
        × IsReady s'
  unfolding on_awake
  on_awake-total s next_value h a =
      let (c, watermark) = clock.watermark s.clock next_value in
      let (s₁, out, e, h₁) = taken (record s { clock = c }) watermark next_value (ready s h c) a in
      let (state, rest, f, h₂) = drain-total s₁ watermark h₁ in
      (
        record s₁ {
          windower = (windower.drain_closed s₁.windower watermark).0;
          current_state = state;
        },
        out ++ rest,
        rw (e, f) refl,
        h₂,
      )
