-- ===== src/Inputs/Activate.antt =====
-- The activation of `partitioned_input` as a whole (src/inputs.rs).
use bytewax.Prelude.{ℕ, Bool, Option, some, List, filter, ◌>>=◌}
use bytewax.Prelude.Order.Ord.{Ord, ℕ_ord}
use bytewax.Window.Types.{DateTime, Duration}
use bytewax.Timely.Buffer.{InBuffer}
use bytewax.Timely.Buffer
use bytewax.Stateful.Defs.{is_closed, is_eof}
use bytewax.Recovery.Change.{StateChange}
use bytewax.Inputs.Defs.{Source, PartState, Event}
use bytewax.Inputs.Startup.{
  InputState, Activation, apply_primaries, awake_after, load_batches, finish_loads, step_parts,
  remove_all,
}

module _ {K St S I : Type 0} ⦃o : Ord K⦄ where
  -- The end of an activation, after the loop over the partitions.
  unfoldable pub conclude :
      Bool
      → DateTime
      → InBuffer (K × ℕ)
      → List K
      → Option (ℕ × ℕ)
      → List (K × PartState St) × List K × Bool × List (K × Event S I)
      → Activation K St S I
  unfolding remove_all awake_after
  conclude loads_eof now inbuf primary_parts init_caps (stepped, eofd, aborts, sent) =
      let parts = remove_all eofd stepped in
      record {
        state = record {
          parts = parts;
          primary_parts = primary_parts;
          primaries_inbuf = inbuf;
          init_caps = init_caps;
        };
        aborts = aborts;
        sent = sent;
        awake_after = awake_after loads_eof now parts;
      }

module _ {K St S I : Type 0} ⦃o : Ord K⦄ (source : K → Source St S I) (epoch_interval : Duration)
    (this_worker start_at : ℕ) where
  unfoldable pub activate :
      Option ℕ
      → Option ℕ
      → (ℕ → Bool)
      → DateTime
      → List (ℕ × List (K × ℕ))
      → List (ℕ × List (ℕ × (K × StateChange S)))
      → InputState K St
      → Option (Activation K St S I)
  unfolding load_batches apply_primaries finish_loads step_parts
  activate loads_frontier primaries_frontier behind now primaries loads s = do
    let inbuf = Buffer.extend_all primaries s.primaries_inbuf
    loaded ← load_batches source now this_worker start_at loads s.parts
    let (rest, primary_parts) =
        apply_primaries this_worker (filter (is_closed primaries_frontier) (Buffer.epochs inbuf))
          inbuf s.primary_parts
    (init_caps, started) ←
        finish_loads source (is_eof loads_frontier) now primary_parts s.init_caps loaded
    stepped ← step_parts source epoch_interval behind now started
    some (conclude (is_eof loads_frontier) now rest primary_parts init_caps stepped)
