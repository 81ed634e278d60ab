-- ===== src/Node/KeepsMethods.antt =====
-- The methods of src/node.cpp on the resources of other streams: they keep them, whether or not they
-- throw, since they erase no ids but those of their own stream.
use nmos_client.Base.{
  String, Bool, true, false, Except, ok, err, ◌≡◌, refl, sym, zero, suc, ℕ, subst,
}
use nmos_client.Base.Exec.{Exec, pure, ◌>>=◌, ◌>>◌}
use nmos_client.Reconcile.Kind.{Kind, StreamOf, id_of}
use nmos_client.Node.Library.{Library}
use nmos_client.Node.State.{Model, Media, sender_of, receiver_of}
use nmos_client.Node.Resources.{SenderResources, ReceiverResources, make_id}
use nmos_client.Node.Steps.{
  Store, node_store, connection_store, insert_resource_after, erase_resource_if_present, set_device,
  throw,
}
use nmos_client.Node.Streams.{
  AddErrors, add_sender_errors, add_receiver_errors, erasures, make_sender_resources,
  make_receiver_resources, made, require_else, erase_source, erase_flow, erase_sender,
  erase_leftovers, insert_sender_resources, push_sender_ids, register_sender, push_receiver_id,
  register_receiver,
}
use nmos_client.Node.Keeps.{
  Has, Keeps, pure-Keeps, >>=-Keeps, >>-Keeps, insert-Keeps, erase-Keeps, Spares, same-Has,
  change-Has,
}
use nmos_client.Node.Registered.{
  make_sender_resources-SenderIds, make_receiver_resources-ReceiverIds,
}

module _ {D : Type 0} (L : Library D) (st : Store) (j : String) where
  require_else-Keeps :
      (b : Bool) (undo : Exec (Model L) (Unit {0})) (e : String)
      → Keeps L st j undo
      → Keeps L st j (require_else L b undo e)
  require_else-Keeps true undo e k = pure-Keeps L st j tt
  require_else-Keeps false undo e k =
      >>-Keeps L st j undo (throw L e) k (record { kept = λ m h. h })

  guarded-Keeps :
      (at : Store) (x : L.Resource) (undo : Exec (Model L) (Unit {0})) (e : String)
      (rest : Exec (Model L) (Unit {0}))
      → Keeps L st j undo
      → Keeps L st j rest
      → Keeps L st j (insert_resource_after L at x >>= λ b. require_else L b undo e >> rest)
  guarded-Keeps at x undo e rest k k' =
      >>=-Keeps L st j (insert_resource_after L at x) (λ b. require_else L b undo e >> rest)
        (insert-Keeps L st j at x)
        (λ b. >>-Keeps L st j (require_else L b undo e) rest (require_else-Keeps b undo e k) k')

  pub made-Keeps :
      {A : Type 0} (f : Model L → Except A) (g : A → Exec (Model L) (Unit {0}))
      → ((m : Model L) (a : A) → f m ≡ ok a → Keeps L st j (g a))
      → Keeps L st j (made L f >>= g)
  made-Keeps {A} f g k = record { kept = λ m h. go m h (f m) refl }
    where
      go :
          (m : Model L)
          → Has L st j m
          → (r : Except A) → f m ≡ r
          → Has L st j (◌>>=◌ {A = A} {B = Unit {0}} (λ (s : Model L). (r, s)) g m).1
      go m h (ok a) q = (k m a q).kept m h
      go m h (err e) q = h

  -- The ids of a sender's resources are not `j`.
  abbrev pub SparesSender : Kind → String → String → Type 0
  SparesSender k seed i =
      Spares L st j node_store (make_id L seed "source" k i)
      × Spares L st j node_store (make_id L seed "flow" k i)
      × Spares L st j node_store (make_id L seed "sender" k i)
      × Spares L st j connection_store (make_id L seed "sender" k i)

  abbrev pub SparesReceiver : Kind → String → String → Type 0
  SparesReceiver k seed i =
      Spares L st j node_store (make_id L seed "receiver" k i)
      × Spares L st j connection_store (make_id L seed "receiver" k i)

  module _ (r : SenderResources L) (a : Spares L st j node_store (L.resource_id r.source))
      (b : Spares L st j node_store (L.resource_id r.flow))
      (c : Spares L st j node_store (L.resource_id r.sender))
      (d : Spares L st j connection_store (L.resource_id r.sender)) where
    erase_source-Keeps : Keeps L st j (erase_source L r)
    unfolding erase_resource_if_present
    erase_source-Keeps = erase-Keeps L st j node_store (L.resource_id r.source) a

    erase_flow-Keeps : Keeps L st j (erase_flow L r)
    unfolding erase_resource_if_present
    erase_flow-Keeps =
        >>-Keeps L st j (erase_resource_if_present L node_store (L.resource_id r.flow))
          (erase_source L r) (erase-Keeps L st j node_store (L.resource_id r.flow) b)
          erase_source-Keeps

    erase_sender-Keeps : Keeps L st j (erase_sender L r)
    unfolding erase_resource_if_present
    erase_sender-Keeps =
        >>-Keeps L st j (erase_resource_if_present L node_store (L.resource_id r.sender))
          (erase_flow L r) (erase-Keeps L st j node_store (L.resource_id r.sender) c)
          erase_flow-Keeps

    erase_leftovers-Keeps : (n : ℕ) → Keeps L st j (erase_leftovers L n r)
    unfolding erase_leftovers
    erase_leftovers-Keeps zero = pure-Keeps L st j tt
    erase_leftovers-Keeps (suc n) =
        >>-Keeps L st j
          (erase_resource_if_present L connection_store (L.resource_id r.sender)
            >> erase_sender L r)
          (erase_leftovers L n r)
          (>>-Keeps L st j (erase_resource_if_present L connection_store (L.resource_id r.sender))
            (erase_sender L r) (erase-Keeps L st j connection_store (L.resource_id r.sender) d)
            erase_sender-Keeps)
          (erase_leftovers-Keeps n)

    insert_sender_resources-Keeps :
        (errors : AddErrors) → Keeps L st j (insert_sender_resources L errors r)
    unfolding insert_sender_resources
    insert_sender_resources-Keeps errors =
        guarded-Keeps node_store r.source (pure tt) errors.source_failed _ (pure-Keeps L st j tt) (
          guarded-Keeps node_store r.flow (erase_source L r) errors.flow_failed _ erase_source-Keeps
            (guarded-Keeps node_store r.sender (erase_flow L r) errors.sender_failed _
              erase_flow-Keeps
              (>>=-Keeps L st j (insert_resource_after L connection_store r.connection_sender)
                (λ b. require_else L b (erase_sender L r) errors.connection_failed)
                (insert-Keeps L st j connection_store r.connection_sender)
                (λ b.
                  require_else-Keeps b (erase_sender L r) errors.connection_failed
                    erase_sender-Keeps))))

  push_sender_ids-Keeps : (r : SenderResources L) → Keeps L st j (push_sender_ids L r)
  unfolding set_device
  push_sender_ids-Keeps r = record {
    kept = λ m h. change-Has L st j m.device_id _ _ (same-Has L st j m _ refl refl h);
  }

  push_receiver_id-Keeps : (r : ReceiverResources L) → Keeps L st j (push_receiver_id L r)
  unfolding set_device
  push_receiver_id-Keeps r = record {
    kept = λ m h. change-Has L st j m.device_id _ _ (same-Has L st j m _ refl refl h);
  }

  pub register_sender-Keeps :
      (k : Media) (seed_id : String) (x : StreamOf D (sender_of k))
      → SparesSender (sender_of k) seed_id (id_of D (sender_of k) x)
      → Keeps L st j (register_sender L k seed_id x)
  unfolding register_sender
  register_sender-Keeps k seed_id x (sa, sb, sc, sd) =
      made-Keeps (make_sender_resources L k seed_id x)
        (λ r.
          erase_leftovers L (erasures k) r
          >> (insert_sender_resources L (add_sender_errors k) r >> push_sender_ids L r))
        (λ m r e.
          let (i, i', i'', i''') = make_sender_resources-SenderIds L k seed_id x m r e in
          let a = subst (Spares L st j node_store) (sym i) sa in
          let b = subst (Spares L st j node_store) (sym i') sb in
          let c = subst (Spares L st j node_store) (sym i'') sc in
          let d = subst (Spares L st j connection_store) (sym i'') sd in
          >>-Keeps L st j (erase_leftovers L (erasures k) r)
            (insert_sender_resources L (add_sender_errors k) r >> push_sender_ids L r)
            (erase_leftovers-Keeps r a b c d (erasures k))
            (>>-Keeps L st j (insert_sender_resources L (add_sender_errors k) r)
              (push_sender_ids L r) (insert_sender_resources-Keeps r a b c d (add_sender_errors k))
              (push_sender_ids-Keeps r)))

  pub register_receiver-Keeps :
      (k : Media) (seed_id : String) (x : StreamOf D (receiver_of k))
      → SparesReceiver (receiver_of k) seed_id (id_of D (receiver_of k) x)
      → Keeps L st j (register_receiver L k seed_id x)
  unfolding register_receiver
  register_receiver-Keeps k seed_id x (sa, sb) =
      made-Keeps (make_receiver_resources L k seed_id x) _ (λ m r e.
        let (i, i') = make_receiver_resources-ReceiverIds L k seed_id x m r e in
        let a = subst (Spares L st j node_store) (sym i) sa in
        let b = subst (Spares L st j connection_store) (sym i) sb in
        let erased = erase-Keeps L st j node_store (L.resource_id r.receiver) a in
        >>-Keeps L st j _ _ (erase-Keeps L st j connection_store (L.resource_id r.receiver) b) (
          >>-Keeps L st j _ _ erased (
            guarded-Keeps node_store r.receiver (pure tt) (add_receiver_errors k).0 _
              (pure-Keeps L st j tt)
              (guarded-Keeps connection_store r.connection_receiver
                (erase_resource_if_present L node_store (L.resource_id r.receiver))
                (add_receiver_errors k).1 (push_receiver_id L r) erased
                (push_receiver_id-Keeps r)))))
