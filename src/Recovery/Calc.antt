-- ===== src/Recovery/Calc.antt =====
-- `ResumeFromOp::resume_from` (src/recovery.rs): the operator that writes the progress rows of all
-- partitions to one database in memory, `ResumeCalc`. A value `none` is a panic.
use bytewax.Prelude.{ℕ, Option, some, List, [], ◌∷◌, ◌++◌, ◌>>=◌}
use bytewax.Prelude.Order.Ord.{ℕ_ord}
use bytewax.Timely.Buffer.{InBuffer, remove, or_empty}
use bytewax.Timely.Notificator.{EagerNotificator, for_each}
use bytewax.Recovery.Tables.{
  PartitionMeta, ExecutionMeta, FrontierMeta, CommitMeta, RecoveryPart, write_all, write_part,
  write_ex, write_front, write_commit,
}
use bytewax.Recovery.Bundle.{no_rows}

-- The four buffers, and the epochs in which a unit was sent downstream.
pub record Inbufs : Type 0 where
  pub parts_inbuf : InBuffer PartitionMeta
  pub exs_inbuf : InBuffer ExecutionMeta
  pub fronts_inbuf : InBuffer FrontierMeta
  pub commits_inbuf : InBuffer CommitMeta
  pub sent : List ℕ

module _ {K S : Type 0} where
  -- `ResumeCalc::new`.
  unfoldable pub new : RecoveryPart K S
  unfolding no_rows
  new = no_rows

  -- A batch of rows, if there is one: an absent batch writes nothing.
  unfoldable pub write_rows :
      List PartitionMeta
      → List ExecutionMeta
      → List FrontierMeta
      → List CommitMeta
      → RecoveryPart K S
      → Option (RecoveryPart K S)
  unfolding write_all
  write_rows parts exs fronts commits p₀ = do
    p₁ ← write_all write_part parts p₀
    p₂ ← write_all write_ex exs p₁
    p₃ ← write_all write_front fronts p₂
    write_all write_commit commits p₃

  unfoldable pub calc_eager : ℕ → RecoveryPart K S × Inbufs → Option (RecoveryPart K S × Inbufs)
  unfolding write_rows remove
  calc_eager epoch (in_mem, b) = do
    let (parts_inbuf, parts) = remove epoch b.parts_inbuf
    let (exs_inbuf, exs) = remove epoch b.exs_inbuf
    let (fronts_inbuf, fronts) = remove epoch b.fronts_inbuf
    let (commits_inbuf, commits) = remove epoch b.commits_inbuf
    in_mem' ← write_rows (or_empty parts) (or_empty exs) (or_empty fronts) (or_empty commits) in_mem
    some (
      in_mem',
      record {
        parts_inbuf = parts_inbuf;
        exs_inbuf = exs_inbuf;
        fronts_inbuf = fronts_inbuf;
        commits_inbuf = commits_inbuf;
        sent = b.sent;
      },
    )

  unfoldable pub calc_close : ℕ → RecoveryPart K S × Inbufs → Option (RecoveryPart K S × Inbufs)
  calc_close epoch (in_mem, b) = some (in_mem, record b { sent = b.sent ++ epoch ∷ [] })

  -- An activation after what has arrived is in the buffers.
  unfoldable pub calc_activate :
      Option ℕ
      → EagerNotificator (RecoveryPart K S)
      → Inbufs
      → Option (EagerNotificator (RecoveryPart K S) × Inbufs)
  unfolding calc_eager calc_close
  calc_activate frontier ncater b = for_each calc_eager calc_close frontier ncater b
