-- ===== src/Recovery/Frontier.antt =====
-- `FrontierOp::frontier`: the progress of a worker, as its operator writes it. The operator's
-- capability is its time, or `none` when it is dropped.
use bytewax.Prelude.{
  ℕ, ◌+◌, ◌≤◌, ◌<◌, ◌≡◌, refl, ltb, ltb→lt, Bool, true, Option, none, some, List, [], ◌∷◌, ◌++◌,
  arith, All, All-map, Pairs, if◌then◌else◌, Bool-cases, inl, inr,
}
use bytewax.Prelude.Words.{wrap_u64}
use bytewax.Recovery.Tables.{FrontierMeta}

-- `frontier.map_or(true, |f| f > *cap.time())`.
abbrev pub progressed : Option ℕ → ℕ → Bool
progressed none cap = true
progressed (some f) cap = ltb cap f

-- `frontier.unwrap_or(*cap.time() + 1)`.
abbrev pub or_next : Option ℕ → ℕ → ℕ
or_next none cap = wrap_u64 (cap + 1)
or_next (some f) cap = f

module _ (ex_num worker_index : ℕ) where
  -- One activation: the capability, and what is emitted, with the epoch that it is emitted in.
  unfoldable pub step : Option ℕ → Option ℕ → Option ℕ × List (ℕ × FrontierMeta)
  step none frontier = (none, [])
  step (some cap) frontier =
      let front : FrontierMeta = record {
        ex_num = ex_num;
        worker_index = worker_index;
        worker_frontier = or_next frontier cap;
      } in
      if progressed frontier cap then (frontier, (cap, front) ∷ []) else (some cap, [])

  unfoldable pub run : Option ℕ → List (Option ℕ) → List (ℕ × FrontierMeta)
  unfolding step
  run cap [] = []
  run cap (frontier ∷ rest) = let (cap', out) = step cap frontier in out ++ run cap' rest

  run-none : (fs : List (Option ℕ)) → run none fs ≡ []
  unfolding run
  run-none [] = refl
  run-none (f ∷ fs) = run-none fs

  -- A frontier is not the last number of a `u64`.
  abbrev pub HasNext : Option ℕ → Type 0
  HasNext none = Unit
  HasNext (some f) = f < 18446744073709551615

  run-above :
      (cap : ℕ) (fs : List (Option ℕ))
      → cap < 18446744073709551615
      → All HasNext fs
      → All (λ e. (cap ≤ e.0) × (e.0 < e.1.worker_frontier)) (run (some cap) fs)
  unfolding run
  run-above cap [] h hs = tt
  run-above cap (none ∷ fs) h hs = rw (run-none fs) (omega arith, tt)
  run-above cap (some f ∷ fs) h hs = elim (Bool-cases (ltb cap f)) [
    | inl more ↦
        let lt = ltb→lt cap f more in
        rw (more, run)
          (
            omega arith,
            All-map (λ e. (f ≤ e.0) × (e.0 < e.1.worker_frontier)) (λ e b. omega (arith, b)) _
                (run-above f fs hs.0 hs.1),
          )
    | inr same ↦ rw (same, run) (run-above cap fs h hs.1)
  ]

  run-rising :
      (cap : ℕ) (rest : List (Option ℕ))
      → cap < 18446744073709551615
      → All HasNext rest
      → Pairs
          (λ a b. (a.1.worker_frontier ≤ b.0) × (a.1.worker_frontier < b.1.worker_frontier))
          (run (some cap) rest)
  unfolding run
  run-rising cap [] room hs = tt
  run-rising cap (none ∷ rest) room hs = rw (run-none rest) (tt, tt)
  run-rising cap (some f ∷ rest) room hs = elim (Bool-cases (ltb cap f)) [
    | inl more ↦
        rw (more, run)
          (
            All-map (λ e. (f ≤ e.0) × (e.0 < e.1.worker_frontier)) (λ e b. omega (arith, b)) _
                (run-above f rest hs.0 hs.1),
            run-rising f rest hs.0 hs.1,
          )
    | inr same ↦ rw (same, run) (run-rising cap rest room hs.1)
  ]

  -- From the resume epoch on, whatever the frontiers of the input at the activations, with room for
  -- one more epoch: each frontier that is written lies after the epoch that it is written in, which
  -- is the resume epoch or later, and each is written at or after the frontier that was written
  -- before, and lies after it.
  pub run-Pairs :
      (resume_epoch : ℕ) (fs : List (Option ℕ))
      → resume_epoch < 18446744073709551615
      → All HasNext fs
      → All (λ e. (resume_epoch ≤ e.0) × (e.0 < e.1.worker_frontier)) (run (some resume_epoch) fs)
        × Pairs
            (λ a b. (a.1.worker_frontier ≤ b.0) × (a.1.worker_frontier < b.1.worker_frontier))
            (run (some resume_epoch) fs)
  run-Pairs resume_epoch fs h hs = (run-above resume_epoch fs h hs, run-rising resume_epoch fs h hs)
