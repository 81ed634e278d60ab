-- ===== src/Node/AtomicAdd.antt =====
-- The methods of src/node.cpp that add a sender or a receiver, where they throw.
use nmos_client.Base.{
  String, Bool, true, false, List, [], ◌∷◌, Option, none, Except, ok, err, ◌==◌, string_eq,
  if◌then◌else◌, ◌≡◌, refl, ◌∙◌, inl, inr, subst, ℕ, zero, suc,
}
use nmos_client.Base.Exec.{Exec, pure, ◌>>=◌, ◌>>◌}
use nmos_client.Reconcile.Kind.{StreamOf}
use nmos_client.Node.Library.{Library}
use nmos_client.Node.State.{Model, Media, sender_of}
use nmos_client.Node.Resources.{SenderResources}
use nmos_client.Node.Steps.{
  node_store, connection_store, insert_resource_after, erase_resource_if_present, throw, set_device,
}
use nmos_client.Node.Streams.{
  AddErrors, add_sender_errors, erasures, make_sender_resources, require_else, erase_source,
  erase_flow, erase_sender, erase_leftovers, insert_sender_resources, push_sender_ids,
  register_sender,
}
use nmos_client.Node.Atomic.{
  Only, Clean, node_insert-cases, erase_source-Clean, erase_flow-Clean, insert_connection-Clean,
  erased,
}

module _ {D : Type 0} (L : Library D) (j j' : String) where
  guarded :
      (ids : List String) (x : L.Resource) (undo : Exec (Model L) (Unit {0})) (e : String)
      (rest : Exec (Model L) (Unit {0})) (m : Model L)
      → Only L j j' ids m
      → ((m' : Model L) → Only L j j' ids m' → Clean L j j' ((undo >> throw L e) m'))
      → ((m' : Model L) → Only L j j' (L.resource_id x ∷ ids) m' → Clean L j j' (rest m'))
      → Clean L j j'
          ((insert_resource_after L node_store x >>= λ b. require_else L b undo e >> rest) m)
  unfolding insert_resource_after
  guarded ids x undo e rest m o failed done =
      let (b, m', runs, then_only) = node_insert-cases L j j' x m in
      rw runs (go b m' (then_only ids o))
    where
      after_throw :
          (m : Model L) (r : Except (Unit {0}) × Model L)
          → Clean L j j' ((◌>>◌ {A = Unit {0}} {B = Unit {0}} (λ (s : Model L). r) (throw L e)) m)
          → Clean L j j'
              (((◌>>◌ {A = Unit {0}} {B = Unit {0}} (λ (s : Model L). r) (throw L e)) >> rest) m)
      after_throw m (ok u, t) c = c
      after_throw m (err x, t) c = c

      go :
          (b : Bool) (m' : Model L)
          → Only L j j' (if b then L.resource_id x ∷ ids else ids) m'
          → Clean L j j' ((require_else L b undo e >> rest) m')
      go true m' o = done m' o
      go false m' o = after_throw m' (undo m') (failed m' o)

  module _ (errors : AddErrors) (r : SenderResources L) where
    abbrev insert_connection : Exec (Model L) (Unit {0})
    unfolding insert_resource_after erase_resource_if_present
    insert_connection = insert_resource_after L connection_store r.connection_sender >>= λ b.
        require_else L b (erase_sender L r) errors.connection_failed

    abbrev insert_sender : Exec (Model L) (Unit {0})
    unfolding insert_resource_after erase_resource_if_present
    insert_sender = insert_resource_after L node_store r.sender >>= λ b.
        require_else L b (erase_flow L r) errors.sender_failed >> insert_connection

    abbrev insert_flow : Exec (Model L) (Unit {0})
    unfolding insert_resource_after erase_resource_if_present
    insert_flow = insert_resource_after L node_store r.flow >>= λ b.
        require_else L b (erase_source L r) errors.flow_failed >> insert_sender

    pub insert_sender_resources-Clean :
        (m : Model L) → Only L j j' [] m → Clean L j j' (insert_sender_resources L errors r m)
    unfolding insert_sender_resources insert_resource_after erase_resource_if_present
    insert_sender_resources-Clean m o =
        guarded [] r.source (pure tt) errors.source_failed (insert_flow) m o (λ m' o'. o')
          (λ m₁ o₁.
            guarded (L.resource_id r.source ∷ []) r.flow (erase_source L r) errors.flow_failed
              insert_sender m₁ o₁ (erase_source-Clean L j j' r errors.flow_failed)
              (λ m₂ o₂.
                guarded (L.resource_id r.flow ∷ L.resource_id r.source ∷ []) r.sender
                  (erase_flow L r) errors.sender_failed insert_connection m₂ o₂
                  (erase_flow-Clean L j j' r errors.sender_failed)
                  (insert_connection-Clean L j j' errors r)))

  node_erase-Only :
      (i : String) (m : Model L)
      → Only L j j' [] m
      → Only L j j' [] (erase_resource_if_present L node_store i m).1
  unfolding erase_resource_if_present
  node_erase-Only i m (inl p, c) = erased L j j' [] i m (inl p, c)
  node_erase-Only i m (inr p, c) = absurd (cc p)

  connection_erase-Only :
      (i : String) (m : Model L)
      → Only L j j' [] m
      → Only L j j' [] (erase_resource_if_present L connection_store i m).1
  unfolding erase_resource_if_present
  connection_erase-Only i m (o, c) =
      (o, L.find-erase m.connection_resources i j' ∙ none_either (i == j') c)
    where
      none_either : (b : Bool) {o : Option L.Resource} → o ≡ none → (if b then none else o) ≡ none
      none_either true c = refl
      none_either false c = c

  -- The erasures of one round.
  erased_once : SenderResources L → Model L → Model L
  unfolding erase_resource_if_present
  erased_once r m =
      let m₁ = (erase_resource_if_present L connection_store (L.resource_id r.sender) m).1 in
      let m₂ = (erase_resource_if_present L node_store (L.resource_id r.sender) m₁).1 in
      let m₃ = (erase_resource_if_present L node_store (L.resource_id r.flow) m₂).1 in
      (erase_resource_if_present L node_store (L.resource_id r.source) m₃).1

  erased_once-Only :
      (r : SenderResources L) (m : Model L) → Only L j j' [] m → Only L j j' [] (erased_once r m)
  unfolding erased_once
  erased_once-Only r m o =
      let m₁ = (erase_resource_if_present L connection_store (L.resource_id r.sender) m).1 in
      let m₂ = (erase_resource_if_present L node_store (L.resource_id r.sender) m₁).1 in
      let m₃ = (erase_resource_if_present L node_store (L.resource_id r.flow) m₂).1 in
      node_erase-Only (L.resource_id r.source) m₃ (
        node_erase-Only (L.resource_id r.flow) m₂ (
          node_erase-Only (L.resource_id r.sender) m₁
            (connection_erase-Only (L.resource_id r.sender) m o)))

  -- The rounds of erasures return, and add nothing.
  leftovers-Only :
      (n : ℕ) (r : SenderResources L) (m : Model L)
      → Only L j j' [] m
      → (m' : Model L) × (erase_leftovers L n r m ≡ (ok tt, m')) × Only L j j' [] m'
  unfolding erase_leftovers erase_resource_if_present erased_once
  leftovers-Only zero r m o = (m, refl, o)
  leftovers-Only (suc n) r m o = leftovers-Only n r (erased_once r m) (erased_once-Only r m o)

  register_sender-Clean :
      (k : Media) (seed_id : String) (x : StreamOf D (sender_of k)) (m : Model L)
      → Only L j j' [] m
      → Clean L j j' (register_sender L k seed_id x m)
  unfolding register_sender insert_sender_resources erase_leftovers set_device
  register_sender-Clean k seed_id x m o = go (make_sender_resources L k seed_id x m)
    where
      pushed :
          (r : SenderResources L) (q : Except (Unit {0}) × Model L)
          → Clean L j j' q
          → Clean L j j'
              (◌>>◌ {A = Unit {0}} {B = Unit {0}} (λ (s : Model L). q) (push_sender_ids L r) m)
      pushed r (ok u, t) c = tt
      pushed r (err e, t) c = c

      go :
          (made_resources : Except (SenderResources L))
          → Clean L j j' (
              ((λ (s : Model L). (made_resources, s)) >>= λ resources.
              erase_leftovers L (erasures k) resources
              >> (insert_sender_resources L (add_sender_errors k) resources
                  >> push_sender_ids L resources))
                m)
      go (err e) = o
      go (ok r) =
          let (m', runs, o') = leftovers-Only (erasures k) r m o in
          rw runs (
            pushed r (insert_sender_resources L (add_sender_errors k) r m')
              (insert_sender_resources-Clean (add_sender_errors k) r m' o'))

  -- Where adding a new sender throws, no resource and no connection is there afterwards that was not
  -- there before.
  pub register_sender-atomic :
      (k : Media) (seed_id : String) (x : StreamOf D (sender_of k)) (m m' : Model L) (e : String)
      → register_sender L k seed_id x m ≡ (err e, m')
      → L.find_resource m.node_resources j ≡ none
      → L.find_resource m.connection_resources j' ≡ none
      → (L.find_resource m'.node_resources j ≡ none)
        × (L.find_resource m'.connection_resources j' ≡ none)
  unfolding register_sender
  register_sender-atomic k seed_id x m m' e thrown p q =
      let (o, c) = subst (Clean L j j') thrown (register_sender-Clean k seed_id x m (inl p, q)) in
      elim o [ inl a ↦ (a, c) | inr b ↦ absurd (cc b) ]
