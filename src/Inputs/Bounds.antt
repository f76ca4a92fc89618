-- ===== src/Inputs/Bounds.antt =====
-- What an activation of `partitioned_input` keeps of its state (src/inputs.rs).
use bytewax.Prelude.{
  ℕ, suc, ◌≤◌, ◌<◌, ◌≡◌, refl, sym, ==_iff, Bool, true, false, Option, none, some, List, [], ◌∷◌,
  ◌++◌, map, filter, if◌then◌else◌, arith, All, All-append, Bool-cases, inl, inr,
}
use bytewax.Prelude.Order.Ord.{Ord, ℕ_ord}
use bytewax.Prelude.Order.Map.{
  insert, remove, Ascends, Ascends-insert, Ascends-remove, All-insert, All-remove,
}
use bytewax.Window.Types.{DateTime, Duration}
use bytewax.Timely.Buffer.{InBuffer}
use bytewax.Timely.Buffer
use bytewax.Timely.Parts.{has_key}
use bytewax.Stateful.Defs.{is_closed, is_eof}
use bytewax.Recovery.Resume.{max_ℕ}
use bytewax.Recovery.Change.{StateChange, upsert, discard}
use bytewax.Inputs.Defs.{Source, PartState, Event}
use bytewax.Inputs.Startup.{
  InputState, Activation, apply_primaries, start_part, load_change, load_batch, load_batches,
  init_parts, finish_loads, step_parts, remove_all,
}
use bytewax.Inputs.Trace.{Returns, epoch_of, step_part_bounds}
use bytewax.Inputs.Activate.{activate, conclude}

-- A partition's two capabilities are at one epoch, from `low` to `high`.
abbrev pub Within : {St : Type 0} → ℕ → ℕ → PartState St → Type 0
Within low high p =
    (p.downstream_cap ≡ p.snap_cap) × (low ≤ p.downstream_cap) × (p.downstream_cap ≤ high)

abbrev pub WithinCaps : ℕ → ℕ → Option (ℕ × ℕ) → Type 0
WithinCaps low high none = Unit
WithinCaps low high (some (d, s)) = (d ≡ s) × (low ≤ d) × (d ≤ high)

widen :
    (low high : ℕ) (caps : Option (ℕ × ℕ))
    → WithinCaps low high caps
    → WithinCaps low (suc high) caps
widen low high none h = tt
widen low high (some (d, s)) h = (h.0, h.1, omega arith)

abbrev pub Sends : {K S I : Type 0} → ℕ → ℕ → K × Event S I → Type 0
Sends low high e = (low ≤ epoch_of e.1) × (epoch_of e.1 ≤ high)

module _ {K St : Type 0} ⦃o : Ord K⦄ where
  abbrev pub AllWithin : ℕ → ℕ → List (K × PartState St) → Type 0
  AllWithin low high parts = Ascends parts × All (λ e. Within low high e.1) parts

  abbrev pub IsWellFormed : ℕ → ℕ → InputState K St → Type 0
  IsWellFormed low high s = AllWithin low high s.parts × WithinCaps low high s.init_caps

  insert-Within :
      (low high : ℕ) (k : K) (p : PartState St) (parts : List (K × PartState St))
      → Within low high p
      → AllWithin low high parts
      → AllWithin low high (insert k p parts)
  insert-Within low high k p parts here h =
      (Ascends-insert k p parts h.0, All-insert (λ e. Within low high e.1) k p parts here h.1)

  remove_all-Within :
      (low high : ℕ) (ks : List K) (parts : List (K × PartState St))
      → AllWithin low high parts
      → AllWithin low high (remove_all ks parts)
  unfolding remove_all
  remove_all-Within low high [] parts h = h
  remove_all-Within low high (k ∷ ks) parts h =
      remove_all-Within low high ks (remove k parts)
        (Ascends-remove k parts h.0, All-remove (λ e. Within low high e.1) k parts h.1)

module _ {K St S I : Type 0} ⦃o : Ord K⦄ (source : K → Source St S I) (now : DateTime)
    (returns : (k : K) → Returns (source k)) (low high : ℕ) where
  start_part-Within :
      (e : ℕ) (k : K) (state : Option S)
      → low ≤ e
      → e ≤ high
      → (p : PartState St) × (start_part source now e e k state ≡ some p) × Within low high p
  unfolding start_part
  start_part-Within e k state l u =
      let (part, f) = (returns k).built now state in
      let (t, g) = (returns k).awoken part in
      (
        record {
          part = part;
          downstream_cap = e;
          snap_cap = e;
          epoch_started = now;
          next_awake = t;
        },
        rw (f, g) refl,
        (refl, l, u),
      )

  module _ (this_worker : ℕ) where
    -- The loads are routed to this worker, and none is of an epoch beyond `high`.
    abbrev pub Arrives : ℕ × List (ℕ × (K × StateChange S)) → Type 0
    Arrives a = (a.0 ≤ high) × All (λ l. l.0 ≡ this_worker) a.1

    load_batch-Within :
        (epoch : ℕ) (incoming : List (ℕ × (K × StateChange S))) (parts : List (K × PartState St))
        → low ≤ epoch
        → epoch ≤ high
        → All (λ l. l.0 ≡ this_worker) incoming
        → AllWithin low high parts
        → (parts' : List (K × PartState St)) × (load_batch source now this_worker epoch incoming
              parts
            ≡ some parts')
          × AllWithin low high parts'
    unfolding load_batch load_change
    load_batch-Within epoch [] parts l u mine h = (parts, refl, h)
    load_batch-Within epoch ((worker, (k, upsert state)) ∷ rest) parts l u mine h =
        let (p, started, here) = start_part-Within epoch k (some state) l u in
        rw ((==_iff worker this_worker).1 mine.0, started)
          (load_batch-Within epoch rest (insert k p parts) l u mine.1
            (insert-Within low high k p parts here h))
    load_batch-Within epoch ((worker, (k, discard)) ∷ rest) parts l u mine h =
        rw ((==_iff worker this_worker).1 mine.0) (load_batch-Within epoch rest parts l u mine.1 h)

    load_batches-Within :
        (loads : List (ℕ × List (ℕ × (K × StateChange S)))) (parts : List (K × PartState St))
        → low ≤ high
        → All Arrives loads
        → AllWithin low high parts
        → (parts' : List (K × PartState St)) × (load_batches source now this_worker low loads parts
            ≡ some parts')
          × AllWithin low high parts'
    unfolding load_batches
    load_batches-Within [] parts fits mine h = (parts, refl, h)
    load_batches-Within ((epoch, incoming) ∷ loads) parts fits mine h =
        let (parts', loaded, h') =
          load_batch-Within (max_ℕ epoch low) incoming parts (ground arith) (ground arith) mine.0.1
            h in
        rw loaded (load_batches-Within loads parts' fits mine.1 h')

  init_parts-Within :
      (e : ℕ) (keys : List K) (parts : List (K × PartState St))
      → low ≤ e
      → e ≤ high
      → AllWithin low high parts
      → (parts' : List (K × PartState St)) × (init_parts source now e e keys parts ≡ some parts')
        × AllWithin low high parts'
  unfolding init_parts
  init_parts-Within e [] parts l u h = (parts, refl, h)
  init_parts-Within e (k ∷ keys) parts l u h = elim (Bool-cases (has_key k parts)) [
    | inl there ↦ rw (there, init_parts) (init_parts-Within e keys parts l u h)
    | inr new ↦
        let (p, started, here) = start_part-Within e k none l u in
        rw (new, init_parts, started)
          (init_parts-Within e keys (insert k p parts) l u
            (insert-Within low high k p parts here h))
  ]

  finish_loads-Within :
      (eof : Bool) (keys : List K) (caps : Option (ℕ × ℕ)) (parts : List (K × PartState St))
      → WithinCaps low high caps
      → AllWithin low high parts
      → (out : Option (ℕ × ℕ) × List (K × PartState St)) × (finish_loads source eof now keys caps
            parts
          ≡ some out)
        × WithinCaps low high out.0
        × AllWithin low high out.1
  unfolding finish_loads
  finish_loads-Within false keys caps parts c h = ((caps, parts), refl, c, h)
  finish_loads-Within true keys none parts c h = ((none, parts), refl, tt, h)
  finish_loads-Within true keys (some (d, s)) parts c h =
      let (parts', made, h') = init_parts-Within d keys parts c.1 c.2 h in
      ((none, parts'), rw ((==_iff d s).1 c.0, sym c.0, made) refl, tt, h')

  map-Sends :
      (k : K) (n : ℕ) (events : List (Event S I))
      → low ≤ n
      → n ≤ high
      → All (λ x. epoch_of x ≡ n) events
      → All (Sends low high) (map (λ (e : Event S I). (k, e)) events)
  map-Sends k n [] l u h = tt
  map-Sends k n (x ∷ events) l u h = ((omega arith, omega arith), map-Sends k n events l u h.1)

  module _ (epoch_interval : Duration) (behind : ℕ → Bool) where
    step_parts-Within :
        (parts : List (K × PartState St))
        → high < 18446744073709551615
        → AllWithin low high parts
        → (out : List (K × PartState St) × List K × Bool × List (K × Event S I)) × (step_parts
              source epoch_interval behind now parts
            ≡ some out)
          × ((j : K) → All (λ e. o.lt j e.0 ≡ true) parts → All (λ e. o.lt j e.0 ≡ true) out.0)
          × AllWithin low (suc high) out.0
          × All (Sends low high) out.3
    unfolding step_parts
    step_parts-Within [] room h = (([], [], false, []), refl, (λ j t. tt), (tt, tt), tt)
    step_parts-Within ((k, p) ∷ parts) room h =
        let (s, steps, same, l, u, at) =
          step_part_bounds (source k) epoch_interval (λ t. behind) p now h.1.0.0 (omega arith)
            (returns k) in
        let (out, rest, order, h', sends) = step_parts-Within parts room (h.0.1, h.1.1) in
        (
          (
            (k, s.after) ∷ out.0,
            (if s.is_eof then k ∷ out.1 else out.1),
            (if s.aborts then true else out.2),
            map (λ (e : Event S I). (k, e)) s.events ++ out.3,
          ),
          rw (steps, rest) refl,
          (λ j t. (t.0, order j t.1)),
          ((order k h.0.0, h'.0), ((same, omega arith, omega arith), h'.1)),
          All-append {A = K × Event S I} (Sends low high)
              (map {B = K × Event S I} (λ (e : Event S I). (k, e)) s.events) out.3
              (map-Sends k p.downstream_cap s.events h.1.0.1 h.1.0.2 at) sends,
        )

    -- An activation does not panic, keeps the two capabilities of every partition at one epoch, not
    -- before the resume epoch `low`, takes no partition beyond the epoch after `high`, and sends at
    -- epochs from `low` to `high` only. The condition is that the loads are those of this worker
    -- and their epochs and the state's are at most `high`, which leaves room in a `u64`, and that no
    -- method of the source raises.
    pub activate-IsWellFormed :
        (this_worker : ℕ) (loads_frontier primaries_frontier : Option ℕ)
        (primaries : List (ℕ × List (K × ℕ))) (loads : List (ℕ × List (ℕ × (K × StateChange S))))
        (s : InputState K St)
        → low ≤ high
        → high < 18446744073709551615
        → All (Arrives this_worker) loads
        → IsWellFormed low high s
        → (a : Activation K St S I) × (activate source epoch_interval this_worker low loads_frontier
              primaries_frontier behind now primaries loads s
            ≡ some a)
          × IsWellFormed low (suc high) a.state
          × All (Sends low high) a.sent
    unfolding activate conclude
    activate-IsWellFormed this_worker loads_frontier primaries_frontier primaries loads s fits room
          mine h =
        let inbuf = Buffer.extend_all primaries s.primaries_inbuf in
        let applied =
          apply_primaries this_worker (filter (is_closed primaries_frontier) (Buffer.epochs inbuf))
            inbuf s.primary_parts in
        let (parts₁, e₁, h₁) = load_batches-Within this_worker loads s.parts fits mine h.0 in
        let (out₂, e₂, c₂, h₂) =
          finish_loads-Within (is_eof loads_frontier) applied.1 s.init_caps parts₁ h.1 h₁ in
        let (out₃, e₃, order, h₃, sends) = step_parts-Within out₂.1 room h₂ in
        (
          conclude (is_eof loads_frontier) now applied.0 applied.1 out₂.0 out₃,
          rw (e₁, e₂, e₃) refl,
          (remove_all-Within low (suc high) out₃.1 out₃.0 h₃, widen low high out₂.0 c₂),
          sends,
        )
