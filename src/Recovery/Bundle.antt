-- ===== src/Recovery/Bundle.antt =====
-- The files of the recovery store: `init_db_dir`, `RecoveryConfig::build` and `RecoveryBundle`
-- (src/recovery.rs). A directory is the list of its files with the database in each; the name of the
-- file of a partition, whether a path has the extension of a database and whether its database can be
-- opened are arguments. A value `none` is an exception or a panic.
use bytewax.Prelude.{ℕ, Bool, true, false, Option, none, some, List, [], ◌∷◌, ◌>>=◌, ◌>>◌, assert}
use bytewax.Prelude.Order.Ord.{Ord, ℕ_ord}
use bytewax.Prelude.Order.Map.{lookup, insert, keys}
use bytewax.Recovery.Tables.{PartitionMeta, RecoveryPart, write_part}
use bytewax.Recovery.Resume.{count_from}

module _ {K S : Type 0} where
  -- The tables of a database that is new.
  unfoldable pub no_rows : RecoveryPart K S
  no_rows = record { parts = []; exs = []; fronts = []; commits = []; snaps = [] }

  abbrev pub or_no_rows : Option (RecoveryPart K S) → RecoveryPart K S
  or_no_rows none = no_rows
  or_no_rows (some p) = p

module _ {F K S : Type 0} ⦃o : Ord F⦄ (part_file : ℕ → F) where
  -- `RecoveryPart::init`: the file is created, if it is not there.
  unfoldable pub init : ℕ → ℕ → List (F × RecoveryPart K S) → Option (List (F × RecoveryPart K S))
  init index count dir = do
    p ←
        write_part (record { part_index = index; part_count = count })
          (or_no_rows (lookup (part_file index) dir))
    some (insert (part_file index) p dir)

  unfoldable pub init_all :
      List ℕ → ℕ → List (F × RecoveryPart K S) → Option (List (F × RecoveryPart K S))
  unfolding init
  init_all [] count dir = some dir
  init_all (index ∷ indices) count dir = do dir' ← init index count dir; init_all indices count dir'

  -- A directory that is not there is `none`.
  unfoldable pub init_db_dir :
      ℕ → Option (List (F × RecoveryPart K S)) → Option (List (F × RecoveryPart K S))
  unfolding init_all
  init_db_dir count db_dir = do dir ← db_dir; init_all (count_from 0 count) count dir

-- The loop over the rows of one file.
unfoldable pub add_paths : {F : Type 0} → F → List PartitionMeta → List (ℕ × F) → List (ℕ × F)
add_paths path [] part_paths = part_paths
add_paths path (meta ∷ batch) part_paths =
    add_paths path batch (insert meta.part_index path part_paths)

module _ {F K S : Type 0} (is_db opens : F → Bool) where
  -- `RecoveryConfig::build`: the files of the directory, in whatever order they are listed.
  unfoldable pub part_paths : List (F × RecoveryPart K S) → List (ℕ × F) → Option (List (ℕ × F))
  unfolding add_paths
  part_paths [] found = some found
  part_paths ((path, part) ∷ dir) found = elim (is_db path) [
    | true ↦ do assert (opens path); part_paths dir (add_paths path part.parts found)
    | false ↦ part_paths dir found
  ]

unfoldable pub local_parts : {F : Type 0} → List (ℕ × F) → List ℕ
local_parts paths = keys paths

-- `RecoveryBundle`: the paths, the partitions that are built, and those opened, the last one first.
pub record Bundle (F : Type 0) : Type 0 where
  pub paths : List (ℕ × F)
  pub built_parts : List (ℕ × F)
  pub opened : List ℕ

module _ {F : Type 0} (opens : F → Bool) where
  -- `new_builder`: the partition of a key, opened only where it is not built yet. Its handle is known
  -- by its file.
  unfoldable pub build_part : ℕ → Bundle F → Option (F × Bundle F)
  build_part part_key bundle = elim (lookup part_key bundle.built_parts) [
    | some part ↦ some (part, bundle)
    | none ↦ do
      path ← lookup part_key bundle.paths
      assert (opens path)
      some (
        path,
        record bundle {
          built_parts = insert part_key path bundle.built_parts;
          opened = part_key ∷ bundle.opened;
        },
      )
  ]

  -- The requests of all the builders, which share one cache, one after the other.
  unfoldable pub build_parts : List ℕ → Bundle F → Option (List F × Bundle F)
  unfolding build_part
  build_parts [] bundle = some ([], bundle)
  build_parts (part_key ∷ part_keys) bundle = do
    (part, bundle₁) ← build_part part_key bundle
    (parts, bundle₂) ← build_parts part_keys bundle₁
    some (part ∷ parts, bundle₂)
