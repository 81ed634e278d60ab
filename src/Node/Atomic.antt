-- ===== src/Node/Atomic.antt =====
-- The four insertions of a sender in src/node.cpp: where one fails, what was inserted before is erased.
use nmos_client.Node.Interfaces.{mem}
use nmos_client.Base.{
  String, Bool, true, false, List, [], ◌∷◌, Option, none, some, Except, ok, err, ◌==◌, string_eq,
  if◌then◌else◌, ◌≡◌, refl, ◌⊎◌, ◌∙◌, Bool-cases, inl, inr, ◌||◌,
}
use nmos_client.Base.Exec.{◌>>=◌, ◌>>◌}
use nmos_client.Node.InterfaceLaws.{or-right}
use nmos_client.Node.Library.{Library}
use nmos_client.Node.State.{Model}
use nmos_client.Node.Resources.{SenderResources}
use nmos_client.Node.Steps.{
  Store, node_store, connection_store, stored, insert_resource_after, erase_resource_if_present,
  shutdown_seen, after_wait, store_in, throw,
}
use nmos_client.Node.Streams.{AddErrors, require_else, erase_source, erase_flow, erase_sender}

or-true : (a b : Bool) → b ≡ true → (a || b) ≡ true
or-true true b h = refl
or-true false b h = h

module _ {D : Type 0} (L : Library D) where
  -- What is found under an id, in a model.
  abbrev pub found : Store → Model L → String → Option L.Resource
  found st m j = L.find_resource (stored L st m) j

  module _ (j j' : String) where
    -- Under `j` there is no resource of the node, but for one of `ids`; under `j'` no connection.
    abbrev pub Only : List String → Model L → Type 0
    Only ids m =
        ((found node_store m j ≡ none) ⊎ (mem j ids ≡ true)) × (found connection_store m j' ≡ none)

    pub node_insert-cases :
        (x : L.Resource) (m : Model L)
        → (b : Bool) × (m' : Model L) × (insert_resource_after L node_store x m ≡ (ok b, m'))
          × ((ids : List String) → Only ids m → Only (if b then L.resource_id x ∷ ids else ids) m')
    unfolding insert_resource_after
    node_insert-cases x m = elim (Bool-cases (shutdown_seen L m.waits)) [
      | inl e ↦ (false, after_wait L m, rw e refl, λ ids o. o)
      | inr e ↦ (
        (L.insert_resource m.node_resources x).0,
        store_in L node_store (L.insert_resource m.node_resources x).1 (after_wait L m),
        rw e refl,
        λ ids o.
            go ids o (L.insert_resource m.node_resources x).0 (L.find-insert m.node_resources x j),
      )
    ]
      where
        go :
            (ids : List String)
            → Only ids m
            → (b : Bool) {o : Option L.Resource}
            → o ≡ (
                if b
                then (if L.resource_id x == j then some x else L.find_resource m.node_resources j)
                else L.find_resource m.node_resources j)
            → ((o ≡ none) ⊎ (mem j (if b then L.resource_id x ∷ ids else ids) ≡ true))
              × (found connection_store m j' ≡ none)
        go ids (inl p, c) true q = (
          elim (Bool-cases (L.resource_id x == j)) [
            | inl e ↦ inr (rw e refl)
            | inr e ↦ inl (q ∙ rw e p)
          ],
          c,
        )
        go ids (inr p, c) true q = (inr (or-true (L.resource_id x == j) (mem j ids) p), c)
        go ids (inl p, c) false q = (inl (q ∙ p), c)
        go ids (inr p, c) false q = (inr p, c)

    connection_insert-cases :
        (x : L.Resource) (m : Model L)
        → (b : Bool) × (m' : Model L) × (insert_resource_after L connection_store x m ≡ (ok b, m'))
          × (b ≡ false → (ids : List String) → Only ids m → Only ids m')
    unfolding insert_resource_after
    connection_insert-cases x m = elim (Bool-cases (shutdown_seen L m.waits)) [
      | inl e ↦ (false, after_wait L m, rw e refl, λ p ids o. o)
      | inr e ↦ (
        (L.insert_resource m.connection_resources x).0,
        store_in L connection_store (L.insert_resource m.connection_resources x).1 (after_wait L m),
        rw e refl,
        λ p ids o. (o.0, (L.find-insert m.connection_resources x j') ∙ rw p o.1),
      )
    ]

    pub erased :
        (ids : List String) (i : String) (m : Model L)
        → Only (i ∷ ids) m
        → Only ids (erase_resource_if_present L node_store i m).1
    unfolding erase_resource_if_present
    erased ids i m (o, c) = (
      elim (Bool-cases (i == j)) [
        | inl e ↦ inl (L.find-erase m.node_resources i j ∙ rw e refl)
        | inr e ↦ rest e o
      ],
      c,
    )
      where
        rest :
            (i == j) ≡ false
            → (found node_store m j ≡ none) ⊎ (((i == j) || mem j ids) ≡ true)
            → (L.find_resource (L.erase_resource m.node_resources i).1 j ≡ none)
              ⊎ (mem j ids ≡ true)
        rest e (inl p) = inl (L.find-erase m.node_resources i j ∙ rw e p)
        rest e (inr p) = inr (or-right (i == j) (mem j ids) e p)

    -- What holds of a result that is an exception.
    abbrev pub Clean : Except (Unit {0}) × Model L → Type 0
    Clean (ok u, m) = Unit
    Clean (err e, m) = Only [] m

    pub erase_source-Clean :
        (r : SenderResources L) (e : String) (m : Model L)
        → Only (L.resource_id r.source ∷ []) m
        → Clean ((erase_source L r >> throw L e) m)
    unfolding erase_resource_if_present
    erase_source-Clean r e m o = erased [] (L.resource_id r.source) m o

    pub erase_flow-Clean :
        (r : SenderResources L) (e : String) (m : Model L)
        → Only (L.resource_id r.flow ∷ L.resource_id r.source ∷ []) m
        → Clean ((erase_flow L r >> throw L e) m)
    unfolding erase_resource_if_present
    erase_flow-Clean r e m o =
        erase_source-Clean r e (erase_resource_if_present L node_store (L.resource_id r.flow) m).1
          (erased (L.resource_id r.source ∷ []) (L.resource_id r.flow) m o)

    erase_sender-Clean :
        (r : SenderResources L) (e : String) (m : Model L)
        → Only (L.resource_id r.sender ∷ L.resource_id r.flow ∷ L.resource_id r.source ∷ []) m
        → Clean ((erase_sender L r >> throw L e) m)
    unfolding erase_resource_if_present
    erase_sender-Clean r e m o =
        erase_flow-Clean r e (erase_resource_if_present L node_store (L.resource_id r.sender) m).1
          (erased (L.resource_id r.flow ∷ L.resource_id r.source ∷ []) (L.resource_id r.sender) m o)

    module _ (errors : AddErrors) (r : SenderResources L) where
      pub insert_connection-Clean :
          (m : Model L)
          → Only (L.resource_id r.sender ∷ L.resource_id r.flow ∷ L.resource_id r.source ∷ []) m
          → Clean (
              (insert_resource_after L connection_store r.connection_sender >>= λ b.
              require_else L b (erase_sender L r) errors.connection_failed)
                m)
      unfolding insert_resource_after erase_resource_if_present
      insert_connection-Clean m o =
          let (b, m', runs, keeps) = connection_insert-cases r.connection_sender m in
          rw runs (go b m' keeps)
        where
          go :
              (b : Bool) (m' : Model L)
              → (b ≡ false → (ids : List String) → Only ids m → Only ids m')
              → Clean (require_else L b (erase_sender L r) errors.connection_failed m')
          go true m' k = tt
          go false m' k = erase_sender-Clean r errors.connection_failed m' (
              k refl (L.resource_id r.sender ∷ L.resource_id r.flow ∷ L.resource_id r.source ∷ [])
                o)
