-- ===== src/Timely/Routing.antt =====
-- The logics of `PartitionOp` and `RouteOp` (src/timely.rs). A value `none` is a panic. A `HashMap`
-- that is only looked up in and inserted into is modelled as a map in the order of its keys.
use bytewax.Prelude.{
  ℕ, zero, suc, ◌%◌, Bool, true, false, not, Option, none, some, List, [], ◌∷◌, ◌++◌, map, length,
  ◌>>=◌, ◌>>◌, assert,
}
use bytewax.Prelude.Order.Ord.{Ord, ℕ_ord}
use bytewax.Prelude.Order.Map.{lookup, insert}
use bytewax.Prelude.Order.Set
use bytewax.Timely.Buffer.{InBuffer}
use bytewax.Timely.Buffer

abbrev pub is_empty {ℓ} : {A : Type ℓ} → List A → Bool
is_empty [] = true
is_empty (a ∷ xs) = false

-- `Iterator::nth`.
unfoldable pub nth {ℓ} : {A : Type ℓ} → List A → ℕ → Option A
nth [] i = none
nth (a ∷ xs) zero = some a
nth (a ∷ xs) (suc i) = nth xs i

-- What an operator with two inputs closes over: its buffers, and what it has sent, each item with
-- its epoch.
pub record Ports (A B C : Type 0) : Type 0 where
  pub items_inbuf : InBuffer A
  pub updates_inbuf : InBuffer B
  pub sent : List (ℕ × C)

module _ {K P : Type 0} (assign : K → ℕ) where
  -- The body of the loop of `partition`, for one key.
  unfoldable pub part_of : List P → K → Option P
  unfolding nth
  part_of known key = nth known (assign key % length known)

module _ {K V P : Type 0} (assign : K → ℕ) where
  unfoldable pub label_all : List P → List (K × V) → Option (List (P × (K × V)))
  unfolding part_of
  label_all known [] = some []
  label_all known ((key, value) ∷ items) = do
    part ← part_of assign known key
    rest ← label_all known items
    some ((part, (key, value)) ∷ rest)

  unfoldable pub label_items : List P → List (K × V) → Option (List (P × (K × V)))
  unfolding label_all
  label_items known items = do assert (not (is_empty known)); label_all known items

  -- The eager logic of `partition`.
  unfoldable pub partition_eager :
      ℕ → List P × Ports (K × V) P (P × (K × V)) → Option (List P × Ports (K × V) P (P × (K × V)))
  unfolding label_items
  partition_eager epoch (known, x) =
      let (inbuf, incoming) = Buffer.remove epoch x.items_inbuf in
      elim incoming [
        | none ↦ some (known, record x { items_inbuf = inbuf })
        | some items ↦ do
          out ← label_items known items
          some (known, record x { items_inbuf = inbuf; sent = x.sent ++ map (λ c. (epoch, c)) out })
      ]

module _ {A C P : Type 0} ⦃o : Ord P⦄ where
  -- The close logic of `partition`.
  unfoldable pub partition_close : ℕ → List P × Ports A P C → List P × Ports A P C
  partition_close epoch (known, x) =
      let (inbuf, incoming) = Buffer.remove epoch x.updates_inbuf in
      (Set.extend known (Buffer.or_empty incoming), record x { updates_inbuf = inbuf })

module _ {P : Type 0} ⦃o : Ord P⦄ where
  unfoldable pub insert_routes : List (P × ℕ) → List (P × ℕ) → List (P × ℕ)
  insert_routes routing_map [] = routing_map
  insert_routes routing_map ((part, worker) ∷ routes) =
      insert_routes (insert part worker routing_map) routes

module _ {P V : Type 0} ⦃o : Ord P⦄ where
  unfoldable pub route_all : List (P × ℕ) → List (P × V) → Option (List (ℕ × (P × V)))
  route_all routing_map [] = some []
  route_all routing_map ((key, value) ∷ items) = do
    worker ← lookup key routing_map
    rest ← route_all routing_map items
    some ((worker, (key, value)) ∷ rest)

  unfoldable pub route_items : List (P × ℕ) → List (P × V) → Option (List (ℕ × (P × V)))
  unfolding route_all
  route_items routing_map items = do
    assert (not (is_empty routing_map))
    route_all routing_map items

  -- The eager and the close logic of `route`.
  unfoldable pub route_eager :
      ℕ
      → List (P × ℕ) × Ports (P × V) (P × ℕ) (ℕ × (P × V))
      → Option (List (P × ℕ) × Ports (P × V) (P × ℕ) (ℕ × (P × V)))
  unfolding route_items
  route_eager epoch (routing_map, x) =
      let (inbuf, incoming) = Buffer.remove epoch x.items_inbuf in
      elim incoming [
        | none ↦ some (routing_map, record x { items_inbuf = inbuf })
        | some items ↦ do
          out ← route_items routing_map items
          some (
            routing_map,
            record x { items_inbuf = inbuf; sent = x.sent ++ map (λ c. (epoch, c)) out },
          )
      ]

  unfoldable pub route_close :
      ℕ
      → List (P × ℕ) × Ports (P × V) (P × ℕ) (ℕ × (P × V))
      → List (P × ℕ) × Ports (P × V) (P × ℕ) (ℕ × (P × V))
  unfolding insert_routes
  route_close epoch (routing_map, x) =
      let (inbuf, incoming) = Buffer.remove epoch x.updates_inbuf in
      (insert_routes routing_map (Buffer.or_empty incoming), record x { updates_inbuf = inbuf })
