-- ===== src/Node/Steps.antt =====
-- The steps on the model that the methods of src/node.cpp are made of: the insertion, the removal and
-- the replacement of resources. Each method holds the lock of the model, so a method is one step, but
-- that a shutdown may come at each of its waits.
use nmos_client.Base.{
  ℕ, String, Bool, false, ◌&&◌, List, [], ◌∷◌, Option, none, some, Except, ok, err, if◌then◌else◌,
  concat, eqb,
}
use nmos_client.Base.Exec.{Exec, pure, ◌>>=◌, ◌>>◌}
use nmos_client.Node.Library.{Library}
use nmos_client.Node.State.{Model}
use nmos_client.Node.Resources.{SenderResources, ReceiverResources}

-- `node_model_.node_resources` and `node_model_.connection_resources`
pub data Store : Type 0 where
  node_store connection_store : Store

module _ {D : Type 0} (L : Library D) where
  abbrev pub stored : Store → Model L → L.Resources
  stored node_store m = m.node_resources
  stored connection_store m = m.connection_resources

  abbrev pub store_in : Store → L.Resources → Model L → Model L
  store_in node_store rs m = record m { node_resources = rs }
  store_in connection_store rs m = record m { connection_resources = rs }

  -- The code throws.
  abbrev pub throw : {A : Type 0} → String → Exec (Model L) A
  throw e m = (err e, m)

  -- Whether the next wait sees a shutdown.
  abbrev pub shutdown_seen : List Bool → Bool
  shutdown_seen [] = false
  shutdown_seen (w ∷ ws) = w

  abbrev pub later_waits : List Bool → List Bool
  later_waits [] = []
  later_waits (w ∷ ws) = ws

  abbrev pub after_wait : Model L → Model L
  after_wait m = record m { waits = later_waits m.waits }

  unfoldable pub insert_resource_after : Store → L.Resource → Exec (Model L) Bool
  insert_resource_after st r m =
      let inserted = L.insert_resource (stored st m) r in
      if shutdown_seen m.waits
      then (ok false, after_wait m)
      else (ok inserted.0, store_in st inserted.1 (after_wait m))

  unfoldable pub remove_resource_after : Store → String → Exec (Model L) Bool
  remove_resource_after st id m =
      let erased = L.erase_resource (stored st m) id in
      if shutdown_seen m.waits
      then (ok false, after_wait m)
      else (ok erased.0, store_in st erased.1 (after_wait m))

  unfoldable pub erase_resource_if_present : Store → String → Exec (Model L) (Unit {0})
  erase_resource_if_present st id m = (ok tt, store_in st (L.erase_resource (stored st m) id).1 m)

  abbrev pub replace_resource : Store → L.Resource → Exec (Model L) Bool
  replace_resource st replacement m =
      let changed =
        L.change_resource (stored st m) (L.resource_id replacement) (λ resource. replacement) in
      (ok changed.0, store_in st changed.1 m)

  abbrev pub replace_node_resource : L.Resource → Exec (Model L) Bool
  replace_node_resource = replace_resource node_store

  -- From the number of transport parameters, where they are there.
  abbrev pub active_leg_count_matches : Option ℕ → Bool → Bool
  active_leg_count_matches none st2022_7 = false
  active_leg_count_matches (some n) st2022_7 = eqb n (if st2022_7 then 2 else 1)

  -- What a connection becomes: the new one, with what is active kept where the legs still match.
  abbrev pub renewed_connection : Bool → L.Resource → L.Resource → L.Resource
  renewed_connection st2022_7 replacement old =
      if active_leg_count_matches (L.active_legs old) st2022_7
      then L.with_active_of old replacement
      else replacement

  abbrev pub with_transportfile : String → Option L.Resource → L.Resource → Except L.Resource
  with_transportfile description none connection_sender =
      err (concat (description ∷ " sender transportfile update failed!" ∷ []))
  with_transportfile description (some sender) connection_sender =
      L.set_transportfile sender connection_sender

  -- `if (!...) throw node_implementation_init_exception(...)`
  abbrev pub require : Bool → String → Exec (Model L) (Unit {0})
  require b e m = if b then (ok tt, m) else (err e, m)

  abbrev pub modify_connection :
      String → (Model L → L.Resource → Except L.Resource) → Exec (Model L) Bool
  modify_connection id f m =
      let modified = L.modify_resource m.connection_resources id (f m) in
      (modified.0, record m { connection_resources = modified.1 })

  unfoldable pub replace_sender_resources :
      String → SenderResources L → Bool → Exec (Model L) (Unit {0})
  replace_sender_resources description resources st2022_7 = do
    source_updated ← replace_node_resource resources.source
    flow_updated ← replace_node_resource resources.flow
    sender_updated ← replace_node_resource resources.sender
    require (source_updated && (flow_updated && sender_updated))
        (concat (description ∷ " resource update failed!" ∷ []))
    connection_updated ← modify_connection (L.resource_id resources.sender) (λ m old.
        with_transportfile description
          (L.find_resource m.node_resources (L.resource_id resources.sender))
          (renewed_connection st2022_7 resources.connection_sender old))
    require connection_updated (concat (description ∷ " connection update failed!" ∷ []))

  unfoldable pub replace_receiver_resources :
      String → ReceiverResources L → Bool → Exec (Model L) (Unit {0})
  replace_receiver_resources description resources st2022_7 = do
    receiver_updated ← replace_node_resource resources.receiver
    require receiver_updated (concat (description ∷ " resource update failed!" ∷ []))
    connection_updated ←
        modify_connection (L.resource_id resources.receiver)
          (λ m old. ok (renewed_connection st2022_7 resources.connection_receiver old))
    require connection_updated (concat (description ∷ " connection update failed!" ∷ []))

  -- The entry of the device in `node_resources`, from the ids of the senders or of the receivers.
  unfoldable pub set_device : (L.Resource → L.Resource) → Exec (Model L) (Unit {0})
  set_device f m =
      (ok tt, record m { node_resources = (L.change_resource m.node_resources m.device_id f).1 })

  -- The loop over `sender_ids_` that renews the transport file of each sender that is there.
  abbrev pub renew_transportfile : String → Option L.Resource → Exec (Model L) (Unit {0})
  renew_transportfile sender_id none = pure tt
  renew_transportfile sender_id (some sender) =
      modify_connection sender_id (λ m. L.set_transportfile sender) >> pure tt
