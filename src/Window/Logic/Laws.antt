-- ===== src/Window/Logic/Laws.antt =====
-- What the operator relies on a windower for.
use bytewax.Prelude.{◌≡◌, ◌⊎◌, ◌≢◌, some, List, All, Any, Pairs}
use bytewax.Window.Types.{DateTime, WindowKey, WindowMetadata, InsertResult, ok, late}
use bytewax.Window.Logic.Interface.{Windower}

module _ {W : Type 0} (windower : Windower W) where
  -- A window is open: it has metadata.
  abbrev pub Open : W → WindowKey → Type 0
  Open w k = (m : WindowMetadata) × (windower.get_metadata w k ≡ some m)

  -- The window that a result names is open.
  abbrev pub IsRouted : W → InsertResult → Type 0
  IsRouted w (ok k) = Open w k
  IsRouted w (late k) = Unit

  -- The results of an insertion: a windower of the same kind, in which just the windows from before
  -- and those that the results name are open.
  pub record Inserts (Inv : W → Type 0) (w : W) (watermark time : DateTime) : Type 0 where
    pub after : W
    pub results : List InsertResult
    pub returns : windower.insert w watermark time ≡ some (after, results)
    pub keeps : Inv after
    pub routed : All (IsRouted after) results
    pub only : (k : WindowKey) → Open after k → Open w k ⊎ Any (λ r. r ≡ ok k) results

  -- The windows that are drained were open, each once, and are not open afterwards.
  pub record Drains (Inv : W → Type 0) (w : W) (watermark : DateTime) : Type 0 where
    pub keeps : Inv (windower.drain_closed w watermark).0
    pub were_open : All (λ e. Open w e.0) (windower.drain_closed w watermark).1
    pub once : Pairs (λ e f. e.0 ≢ f.0) (windower.drain_closed w watermark).1
    pub still :
        (k : WindowKey)
        → Open (windower.drain_closed w watermark).0 k
        → Open w k × All (λ e. e.0 ≢ k) (windower.drain_closed w watermark).1

  pub record WindowerLaws : Type 1 where
    pub Inv : W → Type 0
    -- Which items the windower takes.
    pub Accepts : W → DateTime → Type 0
    pub inserts :
        (w : W) (watermark time : DateTime) → Inv w → Accepts w time → Inserts Inv w watermark time
    pub drains : (w : W) (watermark : DateTime) → Inv w → Drains Inv w watermark
