-- ===== src/Node/RegisteredLaws.antt =====
-- What `add_*` of src/node.cpp leaves in the model, where it returns.
use nmos_client.Base.{◌∙◌, refl, sym, String, true, ok, ◌≡◌}
use nmos_client.Base.Exec.{pure, Exec, ◌>>=◌, ◌>>◌}
use nmos_client.Reconcile.Kind.{Kind, StreamOf, id_of}
use nmos_client.Node.Library.{Library}
use nmos_client.Node.State.{receiver_of, Model, Media, sender_of}
use nmos_client.Node.Resources.{ReceiverResources, SenderResources, make_id}
use nmos_client.Node.Steps.{
  Store, node_store, connection_store, insert_resource_after, erase_resource_if_present,
}
use nmos_client.Node.Streams.{
  make_receiver_resources, make_receiver_resources, push_receiver_id, add_receiver_errors,
  register_receiver, AddErrors, add_sender_errors, erasures, make_sender_resources, require_else,
  erase_source, erase_flow, erase_sender, erase_leftovers, insert_sender_resources, push_sender_ids,
  register_sender,
}
use nmos_client.Node.Keeps.{insert-Keeps, Has}
use nmos_client.Node.Yields.{
  Keeps-Preserves, >>=-Preserves, Preserves, Yields, later-Yields, first-Yields, insert-Yields,
}
use nmos_client.Node.Registered.{
  make_receiver_resources-ReceiverIds, push_receiver_id-Preserves, make_sender_resources-SenderIds,
  require_else-Preserves, guarded-Preserves, guarded-Yields, guarded-later, made-Yields,
  false-Throws, push_sender_ids-Preserves,
}

module _ {D : Type 0} (L : Library D) where
  -- The model has the four resources of a sender: its source, its flow, itself and its connection.
  abbrev pub HasSender : Kind → String → String → Model L → Type 0
  HasSender k seed i m =
      Has L node_store (make_id L seed "source" k i) m
      × Has L node_store (make_id L seed "flow" k i) m
      × Has L node_store (make_id L seed "sender" k i) m
      × Has L connection_store (make_id L seed "sender" k i) m

  -- The model has the two resources of a receiver.
  abbrev pub HasReceiver : Kind → String → String → Model L → Type 0
  HasReceiver k seed i m =
      Has L node_store (make_id L seed "receiver" k i) m
      × Has L connection_store (make_id L seed "receiver" k i) m

  module _ (errors : AddErrors) (r : SenderResources L) where
    insert_connection : Exec (Model L) (Unit {0})
    unfolding insert_resource_after erase_resource_if_present
    insert_connection = insert_resource_after L connection_store r.connection_sender >>= λ b.
        require_else L b (erase_sender L r) errors.connection_failed

    insert_sender : Exec (Model L) (Unit {0})
    unfolding insert_resource_after erase_resource_if_present insert_connection
    insert_sender = insert_resource_after L node_store r.sender >>= λ b.
        require_else L b (erase_flow L r) errors.sender_failed >> insert_connection

    insert_flow : Exec (Model L) (Unit {0})
    unfolding insert_resource_after erase_resource_if_present insert_sender
    insert_flow = insert_resource_after L node_store r.flow >>= λ b.
        require_else L b (erase_source L r) errors.flow_failed >> insert_sender

    module _ (st : Store) (j : String) where
      insert_connection-Preserves : Preserves L st j insert_connection
      unfolding insert_connection
      insert_connection-Preserves =
          >>=-Preserves L st j (insert_resource_after L connection_store r.connection_sender)
            (λ b. require_else L b (erase_sender L r) errors.connection_failed)
            (Keeps-Preserves L st j (insert_resource_after L connection_store r.connection_sender)
              (insert-Keeps L st j connection_store r.connection_sender))
            (λ b. require_else-Preserves L st j b (erase_sender L r) errors.connection_failed)

      insert_sender-Preserves : Preserves L st j insert_sender
      unfolding insert_sender
      insert_sender-Preserves =
          guarded-Preserves L st j node_store r.sender (erase_flow L r) errors.sender_failed
            insert_connection insert_connection-Preserves

      insert_flow-Preserves : Preserves L st j insert_flow
      unfolding insert_flow
      insert_flow-Preserves =
          guarded-Preserves L st j node_store r.flow (erase_source L r) errors.flow_failed
            insert_sender insert_sender-Preserves

    source-Yields :
        (j : String)
        → L.resource_id r.source ≡ j
        → Yields L node_store j (insert_sender_resources L errors r)
    unfolding insert_sender_resources insert_flow insert_sender insert_connection
    source-Yields j e =
        guarded-Yields L node_store j r.source (pure tt) errors.source_failed insert_flow e
          (insert_flow-Preserves node_store j)

    flow-Yields :
        (j : String)
        → L.resource_id r.flow ≡ j
        → Yields L node_store j (insert_sender_resources L errors r)
    unfolding insert_sender_resources insert_flow insert_sender insert_connection
    flow-Yields j e =
        guarded-later L node_store j node_store r.source (pure tt) errors.source_failed insert_flow
          (guarded-Yields L node_store j r.flow (erase_source L r) errors.flow_failed insert_sender
            e (insert_sender-Preserves node_store j))

    sender-Yields :
        (j : String)
        → L.resource_id r.sender ≡ j
        → Yields L node_store j (insert_sender_resources L errors r)
    unfolding insert_sender_resources insert_flow insert_sender insert_connection
    sender-Yields j e =
        guarded-later L node_store j node_store r.source (pure tt) errors.source_failed insert_flow
          (guarded-later L node_store j node_store r.flow (erase_source L r) errors.flow_failed
            insert_sender
            (guarded-Yields L node_store j r.sender (erase_flow L r) errors.sender_failed
              insert_connection e (insert_connection-Preserves node_store j)))

    connection-Yields :
        (j : String)
        → L.resource_id r.connection_sender ≡ j
        → Yields L connection_store j (insert_sender_resources L errors r)
    unfolding insert_sender_resources insert_flow insert_sender insert_connection
    connection-Yields j e =
        guarded-later L connection_store j node_store r.source (pure tt) errors.source_failed
          insert_flow
          (guarded-later L connection_store j node_store r.flow (erase_source L r)
            errors.flow_failed insert_sender
            (guarded-later L connection_store j node_store r.sender (erase_flow L r)
              errors.sender_failed insert_connection
              (insert-Yields L connection_store j r.connection_sender
                (λ b. require_else L b (erase_sender L r) errors.connection_failed) e
                (require_else-Preserves L connection_store j true (erase_sender L r)
                  errors.connection_failed)
                (false-Throws L (erase_sender L r) errors.connection_failed))))

  register_sender-Yields :
      (k : Media) (seed_id : String) (x : StreamOf D (sender_of k)) (st : Store) (j : String)
      → ((m : Model L) (r : SenderResources L)
          → make_sender_resources L k seed_id x m ≡ ok r
          → Yields L st j (insert_sender_resources L (add_sender_errors k) r))
      → Yields L st j (register_sender L k seed_id x)
  unfolding register_sender
  register_sender-Yields k seed_id x st j inserts =
      made-Yields L st j (make_sender_resources L k seed_id x)
        (λ r.
          erase_leftovers L (erasures k) r
          >> (insert_sender_resources L (add_sender_errors k) r >> push_sender_ids L r))
        (λ m r e.
          later-Yields L st j (erase_leftovers L (erasures k) r)
            (λ _. insert_sender_resources L (add_sender_errors k) r >> push_sender_ids L r)
            (λ _.
              first-Yields L st j (insert_sender_resources L (add_sender_errors k) r)
                (λ _. push_sender_ids L r) (inserts m r e)
                (λ _. push_sender_ids-Preserves L st j r)))

  -- Where the registration of a sender returns, whatever was in the model and whatever its waits saw,
  -- the source, the flow, the sender and its connection are in the model under the ids made for them.
  pub register_sender-HasSender :
      (k : Media) (seed_id : String) (x : StreamOf D (sender_of k)) (m m' : Model L)
      → register_sender L k seed_id x m ≡ (ok tt, m')
      → HasSender (sender_of k) seed_id (id_of D (sender_of k) x) m'
  register_sender-HasSender k seed_id x m m' h =
      let ids = make_sender_resources-SenderIds L k seed_id x in
      let errors = add_sender_errors k in
      (
        (register_sender-Yields k seed_id x node_store _
              (λ n r e. source-Yields errors r _ (ids n r e).0)).yields
            m m' tt h,
        (register_sender-Yields k seed_id x node_store _
              (λ n r e. flow-Yields errors r _ (ids n r e).1)).yields
            m m' tt h,
        (register_sender-Yields k seed_id x node_store _
              (λ n r e. sender-Yields errors r _ (ids n r e).2)).yields
            m m' tt h,
        (register_sender-Yields k seed_id x connection_store _
              (λ n r e. connection-Yields errors r _ (ids n r e).3)).yields
            m m' tt h,
      )

  register_receiver-Yields :
      (k : Media) (seed_id : String) (x : StreamOf D (receiver_of k)) (st : Store) (j : String)
      → j ≡ make_id L seed_id "receiver" (receiver_of k) (id_of D (receiver_of k) x)
      → Yields L st j (register_receiver L k seed_id x)
  unfolding register_receiver
  register_receiver-Yields k seed_id x st j q =
      made-Yields L st j (make_receiver_resources L k seed_id x) (after_made k) (λ m r e.
        let ids = make_receiver_resources-ReceiverIds L k seed_id x m r e in
        later-Yields L st j
          (erase_resource_if_present L connection_store (L.resource_id r.receiver)) _
          (λ _.
            later-Yields L st j (erase_resource_if_present L node_store (L.resource_id r.receiver))
              _ (λ _. inserts st r (ids.0 ∙ sym q) (ids.1 ∙ sym q))))
    where
      last : ReceiverResources L → Exec (Model L) (Unit {0})
      last r = insert_resource_after L connection_store r.connection_receiver >>= λ b.
          require_else L b (erase_resource_if_present L node_store (L.resource_id r.receiver))
            (add_receiver_errors k).1
          >> push_receiver_id L r

      both : ReceiverResources L → Exec (Model L) (Unit {0})
      both r = insert_resource_after L node_store r.receiver >>= λ b.
          require_else L b (pure tt) (add_receiver_errors k).0 >> last r

      after_made : Media → ReceiverResources L → Exec (Model L) (Unit {0})
      after_made k r =
          erase_resource_if_present L connection_store (L.resource_id r.receiver)
          >> (erase_resource_if_present L node_store (L.resource_id r.receiver) >> both r)

      inserts :
          (st : Store) (r : ReceiverResources L)
          → L.resource_id r.receiver ≡ j
          → L.resource_id r.connection_receiver ≡ j
          → Yields L st j (both r)
      inserts node_store r e e' =
          guarded-Yields L node_store j r.receiver (pure tt) (add_receiver_errors k).0 (last r) e (
            guarded-Preserves L node_store j connection_store r.connection_receiver
              (erase_resource_if_present L node_store (L.resource_id r.receiver))
              (add_receiver_errors k).1 (push_receiver_id L r)
              (push_receiver_id-Preserves L node_store j r))
      inserts connection_store r e e' =
          guarded-later L connection_store j node_store r.receiver (pure tt)
            (add_receiver_errors k).0 (last r)
            (guarded-Yields L connection_store j r.connection_receiver
              (erase_resource_if_present L node_store (L.resource_id r.receiver))
              (add_receiver_errors k).1 (push_receiver_id L r) e'
              (push_receiver_id-Preserves L connection_store j r))

  -- The same for a receiver: itself and its connection are in the model.
  pub register_receiver-HasReceiver :
      (k : Media) (seed_id : String) (x : StreamOf D (receiver_of k)) (m m' : Model L)
      → register_receiver L k seed_id x m ≡ (ok tt, m')
      → HasReceiver (receiver_of k) seed_id (id_of D (receiver_of k) x) m'
  register_receiver-HasReceiver k seed_id x m m' h = (
    (register_receiver-Yields k seed_id x node_store _ refl).yields m m' tt h,
    (register_receiver-Yields k seed_id x connection_store _ refl).yields m m' tt h,
  )
