-- ===== src/Recovery/Tables.antt =====
-- The tables of a recovery partition (`get_migrations`) as lists of rows, and the writers. A step and
-- a state key make up one key `K`. A violated constraint makes the write panic, the value `none`;
-- `created_at` is left out.
use bytewax.Prelude.{
  ℕ, ◌==◌, ltb, Bool, true, false, ◌&&◌, Option, some, List, [], ◌∷◌, ◌++◌, ◌>>=◌, ◌>>◌, assert,
  not, if◌then◌else◌,
}
use bytewax.Prelude.Order.Ord.{Ord}

pub record PartitionMeta : Type 0 where
  pub part_index : ℕ
  pub part_count : ℕ

pub record ExecutionMeta : Type 0 where
  pub ex_num : ℕ
  pub worker_count : ℕ
  pub resume_epoch : ℕ

pub record FrontierMeta : Type 0 where
  pub ex_num : ℕ
  pub worker_index : ℕ
  pub worker_frontier : ℕ

pub record CommitMeta : Type 0 where
  pub part_index : ℕ
  pub commit_epoch : ℕ

-- A change `S` that is absent stands for a discarded state.
pub record SerializedSnapshot (K S : Type 0) : Type 0 where
  pub key : K
  pub snap_epoch : ℕ
  pub ser_change : Option S

pub record RecoveryPart (K S : Type 0) : Type 0 where
  pub parts : List PartitionMeta
  pub exs : List ExecutionMeta
  pub fronts : List FrontierMeta
  pub commits : List CommitMeta
  pub snaps : List (SerializedSnapshot K S)

module _ {A : Type 0} (same : A → A → Bool) where
  unfoldable pub has_row : A → List A → Bool
  has_row a [] = false
  has_row a (b ∷ bs) = if same a b then true else has_row a bs

  -- `INSERT INTO`.
  unfoldable pub insert_row : A → List A → Option (List A)
  insert_row a rows = do assert (not (has_row a rows)); some (rows ++ a ∷ [])

  -- `INSERT INTO ... ON CONFLICT ... DO UPDATE`.
  unfoldable pub upsert_row : A → List A → List A
  upsert_row a [] = a ∷ []
  upsert_row a (b ∷ bs) = if same a b then a ∷ bs else b ∷ upsert_row a bs

module _ {A B : Type 0} (write : A → B → Option B) where
  -- The rows of a batch in one transaction.
  unfoldable pub write_all : List A → B → Option B
  write_all [] b = some b
  write_all (a ∷ xs) b = do b' ← write a b; write_all xs b'

-- The primary keys.
abbrev pub same_part : PartitionMeta → PartitionMeta → Bool
same_part a b = a.part_index == b.part_index

abbrev pub same_ex : ExecutionMeta → ExecutionMeta → Bool
same_ex a b = a.ex_num == b.ex_num

abbrev pub same_front : FrontierMeta → FrontierMeta → Bool
same_front a b = a.ex_num == b.ex_num && a.worker_index == b.worker_index

abbrev pub same_commit : CommitMeta → CommitMeta → Bool
same_commit a b = a.part_index == b.part_index

module _ {K S : Type 0} where
  abbrev pub same_snap : ⦃o : Ord K⦄ → SerializedSnapshot K S → SerializedSnapshot K S → Bool
  same_snap ⦃o⦄ a b = o.eq a.key b.key && a.snap_epoch == b.snap_epoch

  unfoldable pub write_part : PartitionMeta → RecoveryPart K S → Option (RecoveryPart K S)
  unfolding insert_row
  write_part a p = do
    assert (ltb a.part_index a.part_count)
    rows ← insert_row same_part a p.parts
    some (record p { parts = rows })

  unfoldable pub write_ex : ExecutionMeta → RecoveryPart K S → Option (RecoveryPart K S)
  unfolding insert_row
  write_ex a p = do
    assert (ltb 0 a.worker_count)
    rows ← insert_row same_ex a p.exs
    some (record p { exs = rows })

  unfoldable pub write_front : FrontierMeta → RecoveryPart K S → Option (RecoveryPart K S)
  unfolding upsert_row
  write_front a p = some (record p { fronts = upsert_row same_front a p.fronts })

  unfoldable pub write_snap :
      ⦃o : Ord K⦄ → SerializedSnapshot K S → RecoveryPart K S → Option (RecoveryPart K S)
  unfolding upsert_row
  write_snap a p = some (record p { snaps = upsert_row same_snap a p.snaps })

  unfoldable pub write_commit : CommitMeta → RecoveryPart K S → Option (RecoveryPart K S)
  unfolding insert_row
  write_commit a p = do
    rows ← insert_row same_commit a p.commits
    some (record p { commits = rows })
