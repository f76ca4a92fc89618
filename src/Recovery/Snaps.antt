-- ===== src/Recovery/Snaps.antt =====
-- Snapshots on their way to a recovery partition and back (src/recovery.rs): `ser_snap`, `de_snap`,
-- `load_snaps` and `filter_snaps`. The user's serialization is an argument.
use bytewax.Prelude.{
  ℕ, ◌≡◌, refl, ap, Bool, true, false, not, ◌&&◌, ltb, Option, none, some, List, [], ◌∷◌, map,
  if◌then◌else◌, length, ◌+◌, suc, All, All-map, Any, Any-map, Bool-cases, inl, inr, ◌∙◌, subst,
}
use bytewax.Prelude.Order.Ord.{Ord}
use bytewax.Recovery.Change.{StateChange, upsert, discard}
use bytewax.Recovery.Tables.{SerializedSnapshot, RecoveryPart, write_all, write_snap}
use bytewax.Recovery.Commit.{resume_rows}
use bytewax.Recovery.Load.{OrderBy, uninit, drain}
use bytewax.Recovery.Store.{latest, newer}
use bytewax.Recovery.Latest.{IsOnly, write_all-IsOnly}

-- The key stands for the step and the key of the state.
pub record Snapshot (K S : Type 0) : Type 0 where
  pub key : K
  pub change : StateChange S

pub record Serde (S X : Type 0) : Type 0 where
  pub ser : S → X
  pub de : X → S

module _ {S X : Type 0} (serde : Serde S X) where
  unfoldable pub ser_change : StateChange S → Option X
  ser_change (upsert snap) = some (serde.ser snap)
  ser_change discard = none

  unfoldable pub de_change : Option X → StateChange S
  de_change (some ser_snap) = upsert (serde.de ser_snap)
  de_change none = discard

  module _ {K : Type 0} where
    -- `ser_snap`, for one snapshot with its epoch.
    unfoldable pub ser_snap : ℕ × Snapshot K S → SerializedSnapshot K X
    unfolding ser_change
    ser_snap (epoch, snap) = record {
      key = snap.key;
      snap_epoch = epoch;
      ser_change = ser_change snap.change;
    }

    unfoldable pub de_snap : SerializedSnapshot K X → Snapshot K S
    unfolding de_change
    de_snap row = record { key = row.key; change = de_change row.ser_change }

    -- `load_snaps` on what the partitions give: each snapshot is delayed to its epoch.
    unfoldable pub load_snaps : List (SerializedSnapshot K X) → List (ℕ × Snapshot K S)
    unfolding de_snap
    load_snaps rows = map (λ (r : SerializedSnapshot K X). (r.snap_epoch, de_snap r)) rows

-- The snapshots of a step, where `step_id` and `state_key` take the key apart.
unfoldable pub filter_snaps :
    {T K Q S : Type 0}
    → ⦃o : Ord T⦄ → (K → T)
    → (K → Q)
    → T
    → List (Snapshot K S)
    → List (Q × StateChange S)
filter_snaps step_id state_key for_step [] = []
filter_snaps ⦃o⦄ step_id state_key for_step (snap ∷ snaps) =
    let rest = filter_snaps step_id state_key for_step snaps in
    if o.eq (step_id snap.key) for_step then (state_key snap.key, snap.change) ∷ rest else rest

module _ {K S : Type 0} ⦃o : Ord K⦄ (before : ℕ) (key : K) where
  abbrev pub is_earlier_snap : ℕ × Snapshot K S → Bool
  is_earlier_snap w = o.eq w.1.key key && ltb w.0 before

  -- The latest snapshot of a key before an epoch: of two at an epoch the second counts.
  abbrev pub newer_snap : Option (ℕ × Snapshot K S) → ℕ × Snapshot K S → Option (ℕ × Snapshot K S)
  newer_snap none w = if is_earlier_snap w then some w else none
  newer_snap (some r) w = if is_earlier_snap w && not (ltb w.0 r.0) then some w else some r

  unfoldable pub latest_snap :
      Option (ℕ × Snapshot K S) → List (ℕ × Snapshot K S) → Option (ℕ × Snapshot K S)
  latest_snap found [] = found
  latest_snap found (w ∷ snaps) = latest_snap (newer_snap found w) snaps

  -- Of a key, just the snapshot given is loaded, or none.
  abbrev pub LoadsOnly : Option (ℕ × Snapshot K S) → List (ℕ × Snapshot K S) → Type 0
  LoadsOnly none loads = All (λ l. o.eq l.1.key key ≡ false) loads
  LoadsOnly (some w) loads =
      Any (λ l. l ≡ w) loads × All (λ l. o.eq l.1.key key ≡ true → l ≡ w) loads

module _ {A B : Type 0} (f : A → B) where
  map-All : (P : B → Type 0) (xs : List A) → All (λ x. P (f x)) xs → All P (map f xs)
  map-All P [] h = tt
  map-All P (x ∷ xs) h = (h.0, map-All P xs h.1)

  map-Any : (P : B → Type 0) (xs : List A) → Any (λ x. P (f x)) xs → Any P (map f xs)
  map-Any P [] at = elim at [ ]
  map-Any P (x ∷ xs) (inl here) = inl here
  map-Any P (x ∷ xs) (inr there) = inr (map-Any P xs there)

module _ {K S X : Type 0} ⦃o : Ord K⦄ (serde : Serde S X) (before : ℕ) (key : K) where
  abbrev or_ser : Option (ℕ × Snapshot K S) → Option (SerializedSnapshot K X)
  or_ser none = none
  or_ser (some w) = some (ser_snap serde w)

  newer-ser_snap :
      (found : Option (ℕ × Snapshot K S)) (w : ℕ × Snapshot K S)
      → newer before key (or_ser found) (ser_snap serde w) ≡ or_ser (newer_snap before key found w)
  unfolding ser_snap
  newer-ser_snap none w = elim (Bool-cases (is_earlier_snap before key w)) [
    | inl e ↦ rw e refl
    | inr e ↦ rw e refl
  ]
  newer-ser_snap (some r) w =
      elim (Bool-cases (is_earlier_snap before key w && not (ltb w.0 r.0))) [
        | inl e ↦ rw e refl
        | inr e ↦ rw e refl
      ]

  latest-ser_snap :
      (found : Option (ℕ × Snapshot K S)) (snaps : List (ℕ × Snapshot K S))
      → latest before key (or_ser found) (map (ser_snap serde) snaps)
        ≡ or_ser (latest_snap before key found snaps)
  unfolding latest latest_snap
  latest-ser_snap found [] = refl
  latest-ser_snap found (w ∷ snaps) =
      ap (λ f. latest before key f (map (ser_snap serde) snaps)) (newer-ser_snap found w)
      ∙ latest-ser_snap (newer_snap before key found w) snaps

  module _ (de-ser : (s : S) → serde.de (serde.ser s) ≡ s) where
    abbrev back : SerializedSnapshot K X → ℕ × Snapshot K S
    back r = (r.snap_epoch, de_snap serde r)

    -- A snapshot is the same after its serialization.
    de_snap-ser_snap : (w : ℕ × Snapshot K S) → back (ser_snap serde w) ≡ w
    unfolding ser_snap de_snap ser_change de_change
    de_snap-ser_snap (epoch, snap) = go epoch snap.key snap.change
      where
        go :
            (epoch : ℕ) (k : K) (change : StateChange S)
            → back (ser_snap serde (epoch, record { key = k; change = change }))
              ≡ (epoch, record { key = k; change = change })
        go epoch k (upsert s) = ap (λ x. (epoch, record { key = k; change = upsert x })) (de-ser s)
        go epoch k discard = refl

    load_snaps-LoadsOnly :
        (found : Option (ℕ × Snapshot K S)) (read : List (SerializedSnapshot K X))
        → IsOnly before key (or_ser found) read
        → LoadsOnly before key found (load_snaps serde read)
    unfolding load_snaps de_snap
    load_snaps-LoadsOnly none read h = map-All back (λ l. o.eq l.1.key key ≡ false) read h
    load_snaps-LoadsOnly (some w) read h = (
      map-Any back (λ l. l ≡ w) read
          (Any-map (λ r. r ≡ ser_snap serde w) (λ r e. ap back e ∙ de_snap-ser_snap w) read h.0),
      map-All back (λ l. o.eq l.1.key key ≡ true → l ≡ w) read
          (All-map (λ r. o.eq r.key key ≡ true → r ≡ ser_snap serde w)
            (λ r same e. ap back (same e) ∙ de_snap-ser_snap w) read h.1),
    )

    -- The store keeps its promise to the operators. Snapshots are serialized and written to a
    -- partition without any, in their order, and then read in batches that are not empty: what is
    -- loaded of a key is just its latest snapshot from before the resume epoch, at that snapshot's
    -- epoch, or nothing where it has none. The condition is that the user's deserialization is the
    -- inverse of the serialization.
    pub load_snaps-latest :
        (by : OrderBy K X) (batch_size : ℕ) (snaps : List (ℕ × Snapshot K S)) (p : RecoveryPart K X)
        → (p' : RecoveryPart K X) × (read : List (SerializedSnapshot K X)) × (write_all write_snap
              (map (ser_snap serde) snaps)
              (record p { snaps = [] })
            ≡ some p')
          × (drain by before
                (suc batch_size)
                p'.snaps
                (length (resume_rows before p'.snaps) + 2)
                uninit
              ≡ some read)
          × LoadsOnly before key (latest_snap before key none snaps) (load_snaps serde read)
    load_snaps-latest by batch_size snaps p =
        let (p', read, written, loaded, only) =
          write_all-IsOnly before key by batch_size (map (ser_snap serde) snaps) p in
        (
          p',
          read,
          written,
          loaded,
          load_snaps-LoadsOnly (latest_snap before key none snaps) read
              (subst (λ f. IsOnly before key f read) (latest-ser_snap none snaps) only),
        )
