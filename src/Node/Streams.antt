-- ===== src/Node/Streams.antt =====
-- The methods of src/node.cpp that add, update and remove a stream. In `add_*` and `update_*` the
-- guard is repeated by the method that it goes to, under the same cache, so each of the two ends in
-- one of the bodies below.
use nmos_client.Base.{String, Bool, true, false, [], ◌∷◌, ◌++◌, Except, ℕ, zero, suc}
use nmos_client.Base.Exec.{Exec, pure, ◌>>=◌, ◌>>◌}
use nmos_client.Reconcile.Kind.{StreamOf}
use nmos_client.Node.Library.{Library}
use nmos_client.Node.State.{Model, Media, video, audio, ancillary, sender_of, receiver_of}
use nmos_client.Node.Resources.{
  SenderResources, ReceiverResources, make_video_sender_resources, make_audio_sender_resources,
  make_ancillary_sender_resources, make_video_receiver_resources, make_audio_receiver_resources,
  make_ancillary_receiver_resources,
}
use nmos_client.Node.Steps.{
  node_store, connection_store, insert_resource_after, erase_resource_if_present, set_device, throw,
}

-- The texts of the exceptions of `add_*_sender`.
pub record AddErrors : Type 0 where
  pub source_failed : String
  pub flow_failed : String
  pub sender_failed : String
  pub connection_failed : String

abbrev pub add_sender_errors : Media → AddErrors
add_sender_errors video = record {
  source_failed = "add video sender source failed!";
  flow_failed = "add video sender flow failed!";
  sender_failed = "add video sender failed!";
  connection_failed = "add video sender connection failed!";
}
add_sender_errors audio = record {
  source_failed = "add audio sender source failed!";
  flow_failed = "add audio sender flow failed!";
  sender_failed = "insert audio sender failed!";
  connection_failed = "insert audio connection sender failed!";
}
add_sender_errors ancillary = record {
  source_failed = " add ancillary sender source failed!";
  flow_failed = "add ancillary sender flow failed!";
  sender_failed = "add ancillary sender failed!";
  connection_failed = "add ancillary sender connection failed!";
}

-- Those of `add_*_receiver`, for the receiver and for its connection.
abbrev pub add_receiver_errors : Media → String × String
add_receiver_errors video =
    ("insert video receiver failed!", "insert video connection receiver failed!")
add_receiver_errors audio = ("add audio receiver failed!", "add audio receiver connection failed!")
add_receiver_errors ancillary =
    ("add ancillary receiver failed!", "add ancillary receiver connection failed!")

abbrev pub media_name : Media → String
media_name video = "video"
media_name audio = "audio"
media_name ancillary = "ancillary"

-- How often `add_*_sender` erases what has the ids of the new resources before it inserts them.
abbrev pub erasures : Media → ℕ
erasures video = 1
erasures audio = 2
erasures ancillary = 0

module _ {D : Type 0} (L : Library D) where
  abbrev pub make_sender_resources :
      (k : Media) → String → StreamOf D (sender_of k) → Model L → Except (SenderResources L)
  unfolding make_video_sender_resources make_audio_sender_resources make_ancillary_sender_resources
  make_sender_resources video = make_video_sender_resources L
  make_sender_resources audio = make_audio_sender_resources L
  make_sender_resources ancillary = make_ancillary_sender_resources L

  abbrev pub make_receiver_resources :
      (k : Media) → String → StreamOf D (receiver_of k) → Model L → Except (ReceiverResources L)
  unfolding make_video_receiver_resources make_audio_receiver_resources
      make_ancillary_receiver_resources
  make_receiver_resources video = make_video_receiver_resources L
  make_receiver_resources audio = make_audio_receiver_resources L
  make_receiver_resources ancillary = make_ancillary_receiver_resources L

  abbrev pub made : {A : Type 0} → (Model L → Except A) → Exec (Model L) A
  made f m = (f m, m)

  -- `if (!...) { ...; throw node_implementation_init_exception(...); }`
  abbrev pub require_else : Bool → Exec (Model L) (Unit {0}) → String → Exec (Model L) (Unit {0})
  require_else true undo e = pure tt
  require_else false undo e = undo >> throw L e

  abbrev pub erase_source : SenderResources L → Exec (Model L) (Unit {0})
  unfolding erase_resource_if_present
  erase_source r = erase_resource_if_present L node_store (L.resource_id r.source)

  abbrev pub erase_flow : SenderResources L → Exec (Model L) (Unit {0})
  unfolding erase_resource_if_present
  erase_flow r = erase_resource_if_present L node_store (L.resource_id r.flow) >> erase_source r

  abbrev pub erase_sender : SenderResources L → Exec (Model L) (Unit {0})
  unfolding erase_resource_if_present
  erase_sender r = erase_resource_if_present L node_store (L.resource_id r.sender) >> erase_flow r

  unfoldable pub erase_leftovers : ℕ → SenderResources L → Exec (Model L) (Unit {0})
  unfolding erase_resource_if_present
  erase_leftovers zero r = pure tt
  erase_leftovers (suc n) r =
      erase_resource_if_present L connection_store (L.resource_id r.sender)
      >> erase_sender r
      >> erase_leftovers n r

  -- The four insertions.
  unfoldable pub insert_sender_resources : AddErrors → SenderResources L → Exec (Model L) (Unit {0})
  unfolding insert_resource_after
  insert_sender_resources errors r = do
    source_inserted ← insert_resource_after L node_store r.source
    require_else source_inserted (pure tt) errors.source_failed
    flow_inserted ← insert_resource_after L node_store r.flow
    require_else flow_inserted (erase_source r) errors.flow_failed
    sender_inserted ← insert_resource_after L node_store r.sender
    require_else sender_inserted (erase_flow r) errors.sender_failed
    connection_inserted ← insert_resource_after L connection_store r.connection_sender
    require_else connection_inserted (erase_sender r) errors.connection_failed

  -- `sender_ids_.push_back` and the like, and the device with the new ids.
  abbrev pub push_sender_ids : SenderResources L → Exec (Model L) (Unit {0})
  unfolding set_device
  push_sender_ids r m =
      let sender_ids = m.sender_ids ++ (L.resource_id r.sender ∷ []) in
      set_device L (L.set_device_senders sender_ids) (record m {
        sender_ids = sender_ids;
        source_ids = m.source_ids ++ (L.resource_id r.source ∷ []);
        flow_ids = m.flow_ids ++ (L.resource_id r.flow ∷ []);
      })

  unfoldable pub register_sender :
      (k : Media) → String → StreamOf D (sender_of k) → Exec (Model L) (Unit {0})
  unfolding insert_sender_resources erase_leftovers
  register_sender k seed_id x = do
    resources ← made (make_sender_resources k seed_id x)
    erase_leftovers (erasures k) resources
    insert_sender_resources (add_sender_errors k) resources
    push_sender_ids resources

  abbrev pub push_receiver_id : ReceiverResources L → Exec (Model L) (Unit {0})
  unfolding set_device
  push_receiver_id r m =
      let receiver_ids = m.receiver_ids ++ (L.resource_id r.receiver ∷ []) in
      set_device L (L.set_device_receivers receiver_ids) (record m { receiver_ids = receiver_ids })

  unfoldable pub register_receiver :
      (k : Media) → String → StreamOf D (receiver_of k) → Exec (Model L) (Unit {0})
  unfolding insert_resource_after erase_resource_if_present
  register_receiver k seed_id x = do
    r ← made (make_receiver_resources k seed_id x)
    erase_resource_if_present L connection_store (L.resource_id r.receiver)
    erase_resource_if_present L node_store (L.resource_id r.receiver)
    receiver_inserted ← insert_resource_after L node_store r.receiver
    require_else receiver_inserted (pure tt) (add_receiver_errors k).0
    connection_inserted ← insert_resource_after L connection_store r.connection_receiver
    require_else connection_inserted
        (erase_resource_if_present L node_store (L.resource_id r.receiver))
        (add_receiver_errors k).1
    push_receiver_id r
