-- ===== src/Window/Sliding/Intersects.antt =====
-- Which windows `SlidingWindower::intersects` yields for an instant.
use bytewax.Prelude.{
  ℕ, zero, suc, ◌≡◌, refl, ℤ, pos, ◌+ℤ◌, ◌*ℤ◌, ◌≤ℤ◌, ◌<ℤ◌, ltb_ℤ, eq_of_parts, +ℤ_parts, arith, All,
  Any, Bool-cases, subst, ◌⊎◌, All-map, ltb_ℤ→lt, ltb_ℤ→ge, ge→ltb_ℤ, inl, inr,
}
use bytewax.Prelude.Words.{Fits, i32_half, wrap_i32-Fits}
use bytewax.Window.Types.{DateTime, WindowKey}
use bytewax.Window.Sliding.Defs.{SlidingWindower, candidates}

-- When the window of an index opens.
abbrev pub open_at : SlidingWindower → ℤ → DateTime
open_at w k = w.align_to +ℤ w.offset *ℤ k

-- A key, an opening and a closing time, of the window of that key, which contains an instant.
pub record IsWindowAt (w : SlidingWindower) (time : DateTime) (e : WindowKey × DateTime × DateTime)
    : Type 0 where
  pub opens : e.1 ≡ open_at w e.0
  pub closes : e.2 ≡ e.1 +ℤ w.length
  pub started : e.1 ≤ℤ time
  pub not_ended : time <ℤ e.2

module _ (w : SlidingWindower) (time : DateTime) (first : ℤ) where
  -- Between two indices.
  abbrev pub In : ℤ → ℕ → ℤ → Type 0
  In i n k = (first +ℤ i ≤ℤ k) × (k <ℤ first +ℤ i +ℤ pos n)

  In-suc : (i : ℤ) (n : ℕ) (k : ℤ) → In (i +ℤ pos 1) n k → In i (suc n) k
  In-suc i n k h = omega (arith, +ℤ_parts)

  In-here : (i : ℤ) (n : ℕ) → In i (suc n) (first +ℤ i)
  In-here i n = omega (arith, +ℤ_parts)

  In-cases : (i : ℤ) (n : ℕ) (k : ℤ) → In i (suc n) k → (k ≡ first +ℤ i) ⊎ In (i +ℤ pos 1) n k
  In-cases i n k h = elim (Bool-cases (ltb_ℤ (first +ℤ i) k)) [
    | inl l ↦ inr (omega (arith, +ℤ_parts, ltb_ℤ→lt (first +ℤ i) k l))
    | inr g ↦ inl (eq_of_parts _ _ (omega (arith, ltb_ℤ→ge (first +ℤ i) k g)))
  ]

  pub record IsCandidate (i : ℤ) (n : ℕ) (e : WindowKey × DateTime × DateTime) : Type 0 where
    pub lower : first +ℤ i ≤ℤ e.0
    pub upper : e.0 <ℤ first +ℤ i +ℤ pos n
    pub opens : e.1 ≡ open_at w e.0
    pub closes : e.2 ≡ e.1 +ℤ w.length
    pub started : e.1 ≤ℤ time

  IsCandidate-suc :
      (i : ℤ) (n : ℕ) (e : WindowKey × DateTime × DateTime)
      → IsCandidate (i +ℤ pos 1) n e
      → IsCandidate i (suc n) e
  IsCandidate-suc i n e c = record {
    lower = omega (arith, +ℤ_parts, c.lower);
    upper = omega (arith, +ℤ_parts, c.upper);
    opens = c.opens;
    closes = c.closes;
    started = c.started;
  }

  pub candidates_sound :
      (i : ℤ) (n : ℕ)
      → ((k : ℤ) → In i n k → Fits i32_half k)
      → All (IsCandidate i n) (candidates w time first i n)
  unfolding candidates
  candidates_sound i zero fits = tt
  candidates_sound i (suc n) fits =
      let k = first +ℤ i in
      let whole = wrap_i32-Fits k (fits k (In-here i n)) in
      let rest =
        All-map (IsCandidate (i +ℤ pos 1) n) (IsCandidate-suc i n) _
          (candidates_sound (i +ℤ pos 1) n (λ j h. fits j (In-suc i n j h))) in
      elim (Bool-cases (ltb_ℤ time (open_at w k))) [
        | inl early ↦ rw (whole, early) rest
        | inr begun ↦
            rw (whole, begun)
              (
                record {
                  lower = omega arith;
                  upper = omega (arith, +ℤ_parts);
                  opens = refl;
                  closes = refl;
                  started = ltb_ℤ→ge time (open_at w k) begun;
                },
                rest,
              )
      ]

  pub candidates_complete :
      (i : ℤ) (n : ℕ)
      → ((k : ℤ) → In i n k → Fits i32_half k)
      → (k : ℤ) → In i n k
      → open_at w k ≤ℤ time
      → Any (λ e. e ≡ (k, open_at w k, open_at w k +ℤ w.length)) (candidates w time first i n)
  unfolding candidates
  candidates_complete i zero fits k h started = absurd (omega (arith, +ℤ_parts))
  candidates_complete i (suc n) fits k h started =
      let whole = wrap_i32-Fits (first +ℤ i) (fits (first +ℤ i) (In-here i n)) in
      let rest = λ (h' : In (i +ℤ pos 1) n k).
        candidates_complete (i +ℤ pos 1) n (λ j p. fits j (In-suc i n j p)) k h' started in
      rw whole (elim (In-cases i n k h) [
        | inl here ↦
            rw (ge→ltb_ℤ time _ (subst (λ j. open_at w j ≤ℤ time) here started))
              (inl (rw here refl))
        | inr there ↦ elim (Bool-cases (ltb_ℤ time (open_at w (first +ℤ i)))) [
          | inl early ↦ rw early (rest there)
          | inr begun ↦ rw begun (inr (rest there))
        ]
      ])
