-- ===== src/Operators/Epochs.antt =====
-- What the operators without state send in an activation (src/operators/mod.rs), where the user's
-- function does not raise.
use mathlib.Core.List.{append-nil, append_assoc}
use mathlib.Core.Path.{fun_ext}
use bytewax.Prelude.{
  ℕ, ltb, ◌==◌, ◌≤◌, ◌≡◌, refl, ◌∙◌, true, false, not, Option, none, some, List, [], ◌∷◌, ◌++◌, map,
  filter, arith, All, filter-passes, Bool-cases, Option-cases, inl, inr, if◌then◌else◌,
}
use bytewax.Prelude.Order.Ord.{ℕ_ord}
use bytewax.Prelude.Order.Map
use bytewax.Prelude.Order.Map.{lookup, lookup-remove}
use bytewax.Prelude.Order.Set
use bytewax.Timely.Buffer.{InBuffer, extend, extend_all}
use bytewax.Timely.Notificator.{Running, notify_at}
use bytewax.Timely.Rounds.{work, work_at, for_each-work}
use bytewax.Operators.Batches.{buffer_notify, Sent, batch_logic, activate}

-- The epochs that an activation works on: the notified ones before the frontier, and the frontier
-- itself, if it is one of them.
abbrev pub due : ℕ → List ℕ → List ℕ
due frontier queue =
    filter (λ e. ltb e frontier) queue
    ++ (if Set.contains frontier (filter (λ e. not (ltb e frontier)) queue)
        then frontier ∷ []
        else [])

abbrev pub removes : {V : Type 0} → List ℕ → InBuffer V → InBuffer V
removes [] b = b
removes (epoch ∷ es) b = removes es (Map.remove epoch b)

module _ {V R : Type 0} (f : ℕ → List V → List R) where
  abbrev pub out : ℕ → Option (List V) → List (ℕ × List R)
  out epoch none = []
  out epoch (some batch) = (epoch, f epoch batch) ∷ []

  -- One batch for each of the epochs that the buffer has items of.
  abbrev pub emits : List ℕ → InBuffer V → List (ℕ × List R)
  emits [] b = []
  emits (epoch ∷ es) b = out epoch (lookup epoch b) ++ emits es b

  abbrev pure : ℕ → Unit {0} × Sent V R → Unit {0} × Sent V R
  pure epoch (u, (b, sent)) = (u, (Map.remove epoch b, sent ++ out epoch (lookup epoch b)))

  abbrev idle : ℕ → Unit {0} × Sent V R → Unit {0} × Sent V R
  idle epoch dx = dx

  emits-remove :
      (es : List ℕ) (e : ℕ) (b : InBuffer V)
      → All (λ j. ltb e j ≡ true) es
      → emits es (Map.remove e b) ≡ emits es b
  emits-remove [] e b h = refl
  emits-remove (j ∷ es) e b h =
      let apart : (e == j) ≡ false = ground (arith, h.0) in
      rw (lookup-remove e j b, apart, emits-remove es e b h.1) refl

  work-emits :
      (es : List ℕ) (b : InBuffer V) (sent : List (ℕ × List R))
      → Set.Ascends es
      → work pure idle es (tt, (b, sent)) ≡ (tt, (removes es b, sent ++ emits es b))
  unfolding work
  work-emits [] b sent up = rw (append-nil sent) refl
  work-emits (e ∷ es) b sent up =
      work-emits es (Map.remove e b) (sent ++ out e (lookup e b)) up.1
      ∙ rw (emits-remove es e b up.0, append_assoc sent (out e (lookup e b)) (emits es b)) refl

  lookup-removes :
      (es : List ℕ) (j : ℕ) (b : InBuffer V)
      → All (λ e. ltb e j ≡ true) es
      → lookup j (removes es b) ≡ lookup j b
  lookup-removes [] j b h = refl
  lookup-removes (e ∷ es) j b h =
      let apart : (e == j) ≡ false = ground (arith, h.0) in
      lookup-removes es j (Map.remove e b) h.1 ∙ rw (lookup-remove e j b, apart) refl

  emits-append : (es js : List ℕ) (b : InBuffer V) → emits (es ++ js) b ≡ emits es b ++ emits js b
  emits-append [] js b = refl
  emits-append (e ∷ es) js b =
      rw (emits-append es js b, append_assoc (out e (lookup e b)) (emits es b) (emits js b)) refl

  removes-append :
      (es js : List ℕ) (b : InBuffer V) → removes (es ++ js) b ≡ removes js (removes es b)
  removes-append [] js b = refl
  removes-append (e ∷ es) js b = removes-append es js (Map.remove e b)

  work-due :
      (frontier : ℕ) (queue : List ℕ) (b : InBuffer V)
      → Set.Ascends queue
      → work_at pure idle frontier
          (filter (λ e. not (ltb e frontier)) queue)
          (work pure idle (filter (λ e. ltb e frontier) queue) (tt, (b, [])))
        ≡ (tt, (removes (due frontier queue) b, emits (due frontier queue) b))
  unfolding work_at
  work-due frontier queue b up =
      let closed = filter (λ e. ltb e frontier) queue in
      let rest = filter (λ e. not (ltb e frontier)) queue in
      let done = work-emits closed b [] (Set.Ascends-filter (λ e. ltb e frontier) queue up) in
      elim (Bool-cases (Set.contains frontier rest)) [
        | inl there ↦
            rw
              (
                there,
                done,
                emits-append closed (frontier ∷ []) b,
                removes-append closed (frontier ∷ []) b,
                lookup-removes closed frontier b (filter-passes (λ e. ltb e frontier) queue),
                append-nil (out frontier (lookup frontier b)),
              )
              refl
        | inr absent ↦ rw (absent, done, append-nil closed) refl
      ]

  buffer_notify-extend :
      (arrivals : List (ℕ × List V)) (inbuf : InBuffer V) (r : Running (Unit {0})) (queue : List ℕ)
      → buffer_notify arrivals inbuf (record { caps_state = some r; queue = queue })
        ≡ some (
          extend_all arrivals inbuf,
          record { caps_state = some r; queue = Set.extend queue (map (λ a. a.0) arrivals) },
        )
  unfolding buffer_notify extend_all Set.extend notify_at
  buffer_notify-extend [] inbuf r queue = refl
  buffer_notify-extend ((epoch, incoming) ∷ arrivals) inbuf r queue =
      buffer_notify-extend arrivals (extend epoch incoming inbuf) r (Set.insert epoch queue)

  extend-above :
      (cap : ℕ) (s es : List ℕ)
      → All (λ e. cap ≤ e) s
      → All (λ e. cap ≤ e) es
      → All (λ e. cap ≤ e) (Set.extend s es)
  unfolding Set.extend
  extend-above cap s [] h g = h
  extend-above cap s (e ∷ es) h g =
      extend-above cap (Set.insert e s) es (Set.All-insert (λ j. cap ≤ j) e s g.0 h) g.1

  batch_logic-pure :
      (call : ℕ → List V → Option (List R))
      → ((epoch : ℕ) (batch : List V) → call epoch batch ≡ some (f epoch batch))
      → (epoch : ℕ) (dx : Unit {0} × Sent V R) → batch_logic call epoch dx ≡ some (pure epoch dx)
  unfolding batch_logic
  batch_logic-pure call total epoch (u, (b, sent)) = elim (Option-cases (lookup epoch b)) [
    | inl e ↦ rw (e, batch_logic, append-nil sent) refl
    | inr (batch, e) ↦ rw (e, batch_logic, total epoch batch) refl
  ]

  -- Where the user's function does not raise, an activation at a frontier sends, for each notified
  -- epoch before the frontier and for the frontier itself, in rising order, what the function makes
  -- of all the items of the epoch that have arrived; it sends nothing for an epoch without items. The
  -- items of those epochs leave the buffer, and the epochs from the frontier on stay notified.
  pub activate-emits :
      (call : ℕ → List V → Option (List R))
      → ((epoch : ℕ) (batch : List V) → call epoch batch ≡ some (f epoch batch))
      → (arrivals : List (ℕ × List V)) (frontier : ℕ) (inbuf : InBuffer V) (r : Running (Unit {0}))
        (queue : List ℕ)
      → Set.Ascends queue
      → All (λ e. r.cap ≤ e) queue
      → All (λ e. r.cap ≤ e) (map (λ a. a.0) arrivals)
      → r.cap ≤ frontier
      → let queue' = Set.extend queue (map (λ a. a.0) arrivals) in
        let b = extend_all arrivals inbuf in
        activate call arrivals (some frontier) (record { caps_state = some r; queue = queue }) inbuf
        ≡ some (
          record {
            caps_state = some (record { cap = frontier; state = tt });
            queue = filter (λ e. not (ltb e frontier)) queue';
          },
          (removes (due frontier queue') b, emits (due frontier queue') b),
        )
  unfolding activate
  activate-emits call total arrivals frontier inbuf r queue up above from le =
      let queue' = Set.extend queue (map (λ (a : ℕ × List V). a.0) arrivals) in
      let b = extend_all arrivals inbuf in
      let up' = Set.Ascends-extend queue (map (λ (a : ℕ × List V). a.0) arrivals) up in
      let eager : batch_logic call ≡ (λ epoch dx. some (pure epoch dx)) =
        fun_ext (λ epoch. fun_ext (λ dx. batch_logic-pure call total epoch dx)) in
      rw
        (
          buffer_notify-extend arrivals inbuf r queue,
          eager,
          for_each-work pure idle frontier queue' r (b, []) up'
              (extend-above r.cap queue (map (λ (a : ℕ × List V). a.0) arrivals) above from) le,
          work-due frontier queue' b up',
        )
        refl
