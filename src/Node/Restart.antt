-- ===== src/Node/Restart.antt =====
-- The restart of the node, src/node.cpp: the model is reset, and the cached streams are taken out of
-- their lists and added again.
use nmos_client.Base.{Bool, not, ◌&&◌, List, [], ◌∷◌, ok, string_eq, if◌then◌else◌, is_empty, ◌||◌}
use nmos_client.Base.Exec.{Exec, for_each}
use nmos_client.Reconcile.Kind.{
  Kind, video_receiver, audio_receiver, ancillary_receiver, video_sender, audio_sender,
  ancillary_sender,
}
use nmos_client.Node.Library.{Library}
use nmos_client.Node.State.{Cache, Model, Node, cached}
use nmos_client.Node.Runtime.{add}

-- The order of the six loops.
abbrev pub reinsertion_order : List Kind
reinsertion_order =
    video_sender ∷ audio_sender ∷ ancillary_sender ∷ video_receiver ∷ audio_receiver
    ∷ ancillary_receiver ∷ []

module _ {D : Type 0} where
  abbrev pub cleared : Cache D → Cache D
  cleared c = record {
    seed_id = c.seed_id;
    video_senders = [];
    audio_senders = [];
    ancillary_senders = [];
    video_receivers = [];
    audio_receivers = [];
    ancillary_receivers = [];
  }

  abbrev pub has_senders : Cache D → Bool
  has_senders c =
      not (is_empty c.video_senders)
      || (not (is_empty c.audio_senders) || not (is_empty c.ancillary_senders))

  abbrev pub has_receivers : Cache D → Bool
  has_receivers c =
      not (is_empty c.video_receivers)
      || (not (is_empty c.audio_receivers) || not (is_empty c.ancillary_receivers))

module _ {D : Type 0} (L : Library D) where
  -- The other containers of the model and its settings are not modelled.
  unfoldable pub reset_model_state : Exec (Model L) (Unit {0})
  reset_model_state m = (
    ok tt,
    record m {
      node_resources = L.no_resources;
      connection_resources = L.no_resources;
      sender_ids = [];
      receiver_ids = [];
      source_ids = [];
      flow_ids = [];
    },
  )

  abbrev pub add_kind : Cache D → Kind → Exec (Node L) (Unit {0})
  unfolding add
  add_kind c k = for_each (add L k) (cached k c)

  unfoldable pub reinsert_cached_resources : Exec (Node L) (Unit {0})
  unfolding add
  reinsert_cached_resources n =
      if not (has_senders n.cache) && not (has_receivers n.cache)
      then (ok tt, n)
      else for_each (add_kind n.cache) reinsertion_order (record n { cache = cleared n.cache })
