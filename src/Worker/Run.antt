-- ===== src/Worker/Run.antt =====
-- `Worker::run` and `worker_main` (src/worker.rs). What timely's worker is, with the operators in it,
-- is a type `W`, a dataflow in it is known by its probe, and so the steps that timely makes and the
-- callback for interrupts are arguments. A value `none` means that the fuel ran out.
use mathlib.Core.Option.{some-injective}
use bytewax.Prelude.{
  ℕ, zero, suc, ◌<◌, ◌≡◌, refl, Bool, true, false, ◌||◌, Option, none, some, arith, ◌>>=◌, ◌⊎◌, ◌↔◌,
  inl, inr, Bool-cases, sym, ap, ◌∙◌,
}
use bytewax.Prelude.Results.{Result, ok, err}
use bytewax.Recovery.Resume.{ResumeFrom, ResumeError, Resumed, default_resume_from}

pub record Timely (W : Type 0) : Type 1 where
  pub Probe : Type 0
  pub abort : W → Bool
  pub interrupt_callback : W → Bool
  pub done : Probe → W → Bool
  pub step_or_park : W → W
  pub drop_dataflows : W → W

module _ {W : Type 0} (timely : Timely W) where
  open timely use {Probe, abort, interrupt_callback, done, step_or_park, drop_dataflows}

  unfoldable pub stops : Probe → W → Bool
  stops probe w = abort w || interrupt_callback w || done probe w

  unfoldable pub run : ℕ → Probe → W → Option W
  unfolding stops
  run zero probe w = none
  run (suc fuel) probe w = elim (stops probe w) [
    | true ↦ some w
    | false ↦ run fuel probe (step_or_park w)
  ]

  -- The worker after a number of steps.
  unfoldable pub steps : ℕ → W → W
  steps zero w = w
  steps (suc n) w = steps n (step_or_park w)

  -- The worker is aborted or interrupted, or the dataflow is done.
  abbrev pub MustStop : Probe → W → Type 0
  MustStop probe w = (abort w ≡ true) ⊎ (interrupt_callback w ≡ true) ⊎ (done probe w ≡ true)

  abbrev pub MustGo : Probe → W → Type 0
  MustGo probe w = (abort w ≡ false) × (interrupt_callback w ≡ false) × (done probe w ≡ false)

  -- The first moment to stop is after `n` steps.
  abbrev pub FirstStop : ℕ → Probe → W → Type 0
  FirstStop n probe w = ((i : ℕ) → i < n → MustGo probe (steps i w)) × MustStop probe (steps n w)

  stops-MustStop : (probe : Probe) (w : W) → stops probe w ≡ true → MustStop probe w
  unfolding stops
  stops-MustStop probe w e = elim (Bool-cases (abort w)) [
    | inl a ↦ inl a
    | inr a ↦ elim (Bool-cases (interrupt_callback w)) [
      | inl b ↦ inr (inl b)
      | inr b ↦ inr (inr (ground (arith, a, b, e)))
    ]
  ]

  MustStop-stops : (probe : Probe) (w : W) → MustStop probe w → stops probe w ≡ true
  unfolding stops
  MustStop-stops probe w (inl a) = ground (arith, a)
  MustStop-stops probe w (inr (inl b)) = ground (arith, b)
  MustStop-stops probe w (inr (inr c)) = ground (arith, c)

  stops-MustGo : (probe : Probe) (w : W) → stops probe w ≡ false → MustGo probe w
  unfolding stops
  stops-MustGo probe w e = (ground (arith, e), ground (arith, e), ground (arith, e))

  MustGo-stops : (probe : Probe) (w : W) → MustGo probe w → stops probe w ≡ false
  unfolding stops
  MustGo-stops probe w (a, b, c) = ground (arith, a, b, c)

  run-none : (probe : Probe) (w : W) → run zero probe w ≡ none
  unfolding run
  run-none probe w = refl

  halts :
      (fuel : ℕ) (probe : Probe) (w : W) → stops probe w ≡ true → run (suc fuel) probe w ≡ some w
  unfolding run
  halts fuel probe w stop = rw (stop, run) refl

  goes_on :
      (fuel : ℕ) (probe : Probe) (w : W)
      → stops probe w ≡ false
      → run (suc fuel) probe w ≡ run fuel probe (step_or_park w)
  unfolding run
  goes_on fuel probe w go = rw (go, run) refl

  run-steps :
      (n fuel : ℕ) (probe : Probe) (w : W)
      → n < fuel
      → FirstStop n probe w
      → run fuel probe w ≡ some (steps n w)
  unfolding run steps
  run-steps n zero probe w lt h = absurd (omega (arith, lt))
  run-steps zero (suc fuel) probe w lt h = rw (MustStop-stops probe w h.1, run) refl
  run-steps (suc n) (suc fuel) probe w lt h =
      rw (MustGo-stops probe w (h.0 0 (omega arith)), run)
        (run-steps n fuel probe (step_or_park w) (omega (arith, lt))
          (λ i less. h.0 (suc i) (omega arith), h.1))

  run-FirstStop :
      (fuel : ℕ) (probe : Probe) (w w' : W)
      → run fuel probe w ≡ some w'
      → (n : ℕ) × (n < fuel) × FirstStop n probe w × (w' ≡ steps n w)
  unfolding steps
  run-FirstStop zero probe w w' e = absurd (cc (e, run-none probe w))
  run-FirstStop (suc fuel) probe w w' e = elim (Bool-cases (stops probe w)) [
    | inl stop ↦ (
      0,
      omega arith,
      (λ i lt. absurd (omega (arith, lt)), stops-MustStop probe w stop),
      some-injective w' w (sym e ∙ halts fuel probe w stop),
    )
    | inr go ↦
        let (n, lt, first, at) =
          run-FirstStop fuel probe (step_or_park w) w' (sym (goes_on fuel probe w go) ∙ e) in
        (suc n, omega (arith, lt), (later n probe w go first.0, first.1), at)
  ]
    where
      later :
          (n : ℕ) (probe : Probe) (w : W)
          → stops probe w ≡ false
          → ((i : ℕ) → i < n → MustGo probe (steps i (step_or_park w)))
          → (i : ℕ) → i < suc n
          → MustGo probe (steps i w)
      later n probe w go before zero lt = stops-MustGo probe w go
      later n probe w go before (suc i) lt = before i (omega (arith, lt))

  -- The loop of a worker comes to an end just where there is a first moment at which the worker is
  -- aborted or interrupted or the dataflow is done, within the fuel: it makes just the steps up to
  -- that moment and leaves the worker as it is then.
  pub run-first :
      (fuel : ℕ) (probe : Probe) (w w' : W)
      → (run fuel probe w ≡ some w')
        ↔ ((n : ℕ) × (n < fuel) × FirstStop n probe w × (w' ≡ steps n w))
  run-first fuel probe w w' = (
    run-FirstStop fuel probe w w',
    λ (n, lt, first, at). run-steps n fuel probe w lt first ∙ ap some (sym at),
  )

-- What `worker_main` does before the loops: the bundle of the recovery store, if there is a
-- configuration, with the dataflow that reads the progress back, and the dataflow of the user.
pub data MainError (E : Type 0) : Type 0 where
  calc_failed production_failed : E → MainError E
  resume_failed : ResumeError → MainError E

unfoldable pub resumed : {W E : Type 0} → W → Resumed → Result (MainError E) (ResumeFrom × W)
resumed w (Resumed.ok resume_from) = ok (resume_from, w)
resumed w (Resumed.err e) = err (resume_failed e)

-- The recovery store: the dataflow that reads the progress back, and `ResumeCalc::resume_from` of
-- what it has read.
pub record Recovery (E Probe W : Type 0) : Type 0 where
  pub build_resume_calc_dataflow : W → Result E (Probe × W)
  pub resume_from : W → Resumed

module _ {W E : Type 0} (timely : Timely W) where
  open timely use {Probe, drop_dataflows}

  unfoldable pub calc_resume :
      ℕ → Option (Recovery E Probe W) → W → Option (Result (MainError E) (ResumeFrom × W))
  calc_resume fuel none w = some (ok (default_resume_from, w))
  calc_resume fuel (some recovery) w = elim (recovery.build_resume_calc_dataflow w) [
    | err e ↦ some (err (calc_failed e))
    | ok (probe, w₁) ↦ do w₂ ← run timely fuel probe w₁; some (resumed w₂ (recovery.resume_from w₂))
  ]

  unfoldable pub run_production :
      ℕ → (ResumeFrom → W → Result E (Probe × W)) → ResumeFrom → W → Option (Result (MainError E) W)
  run_production fuel build_production_dataflow resume_from w =
      elim (build_production_dataflow resume_from w) [
        | err e ↦ some (err (production_failed e))
        | ok (probe, w₁) ↦ do w₂ ← run timely fuel probe w₁; some (ok (drop_dataflows w₂))
      ]

  unfoldable pub worker_main :
      ℕ
      → Option (Recovery E Probe W)
      → (ResumeFrom → W → Result E (Probe × W))
      → W
      → Option (Result (MainError E) W)
  unfolding calc_resume run_production
  worker_main fuel recovery build_production_dataflow w = calc_resume fuel recovery w >>= λ resumed.
      elim resumed [
        | err e ↦ some (err e)
        | ok (resume_from, w') ↦ run_production fuel build_production_dataflow resume_from w'
      ]
