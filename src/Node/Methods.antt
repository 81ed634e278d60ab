-- ===== src/Node/Methods.antt =====
-- The methods of `nmos_node::Node` of src/node.cpp, on the streams and the model.
use nmos_client.Base.{
  ℕ, String, Bool, List, [], ◌∷◌, ◌++◌, Except, ok, err, if◌then◌else◌, concat, ℤ, pos, leb_ℤ, ◌&&◌,
  not,
}
use nmos_client.Base.Exec.{Exec, pure, ◌>>=◌, ◌>>◌, for_each}
use nmos_client.Reconcile.Kind.{Kind, StreamOf, id_of}
use nmos_client.Reconcile.Runtime.{HostInterface}
use nmos_client.Node.Gmid.{normalize_ptp_gmid, is_valid_ptp_gmid}
use nmos_client.Node.Library.{Library}
use nmos_client.Node.State.{
  Cache, Model, Node, Media, video, audio, ancillary, sender_of, receiver_of, sender_id_of,
  with_sender_id, redudancy_of, find_by_id, replace_cached_by_id, remove_by, erase_first, cached,
  set_cached, exists,
}
use nmos_client.Node.Resources.{make_id}
use nmos_client.Node.Steps.{
  node_store, connection_store, remove_resource_after, replace_sender_resources,
  replace_receiver_resources, set_device, renew_transportfile,
}
use nmos_client.Node.Streams.{
  media_name, made, make_sender_resources, make_receiver_resources, register_sender,
  register_receiver,
}

module _ {D : Type 0} (L : Library D) where
  unfoldable pub renew_sender :
      (k : Media) → String → String → StreamOf D (sender_of k) → Exec (Model L) (Unit {0})
  unfolding replace_sender_resources
  renew_sender k description seed_id x = made L (make_sender_resources L k seed_id x) >>= λ r.
      replace_sender_resources L description r (redudancy_of D (sender_of k) x).present

  unfoldable pub renew_receiver :
      (k : Media) → String → String → StreamOf D (receiver_of k) → Exec (Model L) (Unit {0})
  unfolding replace_receiver_resources
  renew_receiver k description seed_id x = made L (make_receiver_resources L k seed_id x) >>= λ r.
      replace_receiver_resources L description r (redudancy_of D (receiver_of k) x).present

  -- The results of the four removals are not read.
  unfoldable pub unregister_sender : Media → String → String → Exec (Model L) (Unit {0})
  unfolding remove_resource_after erase_first set_device
  unregister_sender k seed_id id =
      let source_id = make_id L seed_id "source" (sender_of k) id in
      let flow_id = make_id L seed_id "flow" (sender_of k) id in
      let sender_id = make_id L seed_id "sender" (sender_of k) id in
      remove_resource_after L node_store sender_id
      >> remove_resource_after L connection_store sender_id
      >> remove_resource_after L node_store source_id
      >> remove_resource_after L node_store flow_id
      >> λ m.
          let sender_ids = erase_first sender_id m.sender_ids in
          set_device L (L.set_device_senders sender_ids) (record m {
            sender_ids = sender_ids;
            source_ids = erase_first source_id m.source_ids;
            flow_ids = erase_first flow_id m.flow_ids;
          })

  unfoldable pub unregister_receiver : Media → String → String → Exec (Model L) (Unit {0})
  unfolding remove_resource_after erase_first set_device
  unregister_receiver k seed_id id =
      let receiver_id = make_id L seed_id "receiver" (receiver_of k) id in
      (λ m.
        let receiver_ids = erase_first receiver_id m.receiver_ids in
        set_device L (L.set_device_receivers receiver_ids)
          (record m { receiver_ids = receiver_ids }))
      >> remove_resource_after L connection_store receiver_id
      >> remove_resource_after L node_store receiver_id
      >> pure tt

  -- A method that changes the model and, where nothing is thrown, the streams.
  abbrev pub committed :
      (Cache D → Cache D) → Cache D → Except (Unit {0}) × Model L → Except (Unit {0}) × Node L
  committed f c (ok u, m) = (ok u, record { cache = f c; model = m })
  committed f c (err e, m) = (err e, record { cache = c; model = m })

  abbrev pub push : (k : Kind) → StreamOf D k → Cache D → Cache D
  push k x c = set_cached k (cached k c ++ (x ∷ [])) c

  abbrev pub put_back : (k : Kind) → StreamOf D k → Cache D → Cache D
  unfolding replace_cached_by_id
  put_back k x c = set_cached k (replace_cached_by_id (id_of D k) x (cached k c)) c

  -- A sender as it is kept: with the id of its resource.
  abbrev pub named : (k : Media) → String → StreamOf D (sender_of k) → StreamOf D (sender_of k)
  named k seed_id x =
      with_sender_id D k (make_id L seed_id "sender" (sender_of k) (id_of D (sender_of k) x)) x

  abbrev pub insert_sender : (k : Media) → StreamOf D (sender_of k) → Exec (Node L) (Unit {0})
  unfolding register_sender
  insert_sender k x n =
      committed (push (sender_of k) (named k n.cache.seed_id x)) n.cache
        (register_sender L k n.cache.seed_id x n.model)

  abbrev pub renew_cached_sender : (k : Media) → StreamOf D (sender_of k) → Exec (Node L) (Unit {0})
  unfolding renew_sender
  renew_cached_sender k x n =
      committed (put_back (sender_of k) (named k n.cache.seed_id x)) n.cache (
        renew_sender k (concat ("update " ∷ media_name k ∷ " sender" ∷ [])) n.cache.seed_id x
          n.model)

  abbrev pub insert_receiver : (k : Media) → StreamOf D (receiver_of k) → Exec (Node L) (Unit {0})
  unfolding register_receiver
  insert_receiver k x n =
      committed (push (receiver_of k) x) n.cache (register_receiver L k n.cache.seed_id x n.model)

  abbrev pub renew_cached_receiver :
      (k : Media) → StreamOf D (receiver_of k) → Exec (Node L) (Unit {0})
  unfolding renew_receiver
  renew_cached_receiver k x n = committed (put_back (receiver_of k) x) n.cache (
      renew_receiver k (concat ("update " ∷ media_name k ∷ " receiver" ∷ [])) n.cache.seed_id x
        n.model)

  unfoldable pub add_sender : (k : Media) → StreamOf D (sender_of k) → Exec (Node L) (Unit {0})
  unfolding find_by_id register_sender renew_sender replace_cached_by_id
  add_sender k x n =
      if exists (sender_of k) (id_of D (sender_of k) x) n.cache
      then renew_cached_sender k x n
      else insert_sender k x n

  unfoldable pub add_receiver : (k : Media) → StreamOf D (receiver_of k) → Exec (Node L) (Unit {0})
  unfolding find_by_id register_receiver renew_receiver replace_cached_by_id
  add_receiver k x n =
      if exists (receiver_of k) (id_of D (receiver_of k) x) n.cache
      then renew_cached_receiver k x n
      else insert_receiver k x n

  unfoldable pub update_sender : (k : Media) → StreamOf D (sender_of k) → Exec (Node L) (Unit {0})
  unfolding find_by_id register_sender renew_sender replace_cached_by_id
  update_sender k x n =
      if not (exists (sender_of k) (id_of D (sender_of k) x) n.cache)
      then insert_sender k x n
      else renew_cached_sender k x n

  unfoldable pub update_receiver :
      (k : Media) → StreamOf D (receiver_of k) → Exec (Node L) (Unit {0})
  unfolding find_by_id register_receiver renew_receiver replace_cached_by_id
  update_receiver k x n =
      if not (exists (receiver_of k) (id_of D (receiver_of k) x) n.cache)
      then insert_receiver k x n
      else renew_cached_receiver k x n

  -- remove_*_sender_by_sender_id
  abbrev pub drop_sender : (k : Media) → String → Cache D → Cache D
  unfolding remove_by
  drop_sender k sender_id c =
      set_cached (sender_of k) (remove_by (sender_id_of D k) sender_id (cached (sender_of k) c)) c

  abbrev pub drop_receiver : (k : Media) → String → Cache D → Cache D
  unfolding remove_by
  drop_receiver k id c =
      set_cached (receiver_of k) (remove_by (id_of D (receiver_of k)) id (cached (receiver_of k) c))
        c

  unfoldable pub remove_sender : Media → String → Exec (Node L) (Unit {0})
  unfolding find_by_id unregister_sender remove_by
  remove_sender k id n =
      if not (exists (sender_of k) id n.cache)
      then (ok tt, n)
      else committed (drop_sender k (make_id L n.cache.seed_id "sender" (sender_of k) id)) n.cache
          (unregister_sender k n.cache.seed_id id n.model)

  unfoldable pub remove_receiver : Media → String → Exec (Node L) (Unit {0})
  unfolding find_by_id unregister_receiver remove_by
  remove_receiver k id n =
      if not (exists (receiver_of k) id n.cache)
      then (ok tt, n)
      else committed (drop_receiver k id) n.cache (unregister_receiver k n.cache.seed_id id n.model)

  -- The loop over `sender_ids_` at the end of the two setters.
  unfoldable pub renew_transportfiles : Exec (Model L) (Unit {0})
  renew_transportfiles m =
      for_each
        (λ sender_id.
          (λ m. renew_transportfile L sender_id (L.find_resource m.node_resources sender_id) m))
        m.sender_ids m

  abbrev pub valid_domain : ℤ → ℤ
  valid_domain d = if leb_ℤ (pos 0) d && leb_ℤ d (pos 127) then d else pos 127

  abbrev pub put_clock : List ℕ → Bool → Model L → Model L
  put_clock gmid locked m = record m {
    node_resources = (L.change_resource m.node_resources m.node_id (L.set_clock gmid locked)).1;
  }

  -- On the bytes of the identity.
  unfoldable pub set_ptp_clock : List ℕ → Bool → ℤ → Exec (Model L) (Unit {0})
  unfolding renew_transportfiles normalize_ptp_gmid is_valid_ptp_gmid
  set_ptp_clock gmid locked ptp_domain m =
      let normalized_gmid = normalize_ptp_gmid gmid in
      let with_domain = record m { ptp_domain_number = valid_domain ptp_domain } in
      renew_transportfiles (
        if is_valid_ptp_gmid normalized_gmid
        then put_clock normalized_gmid locked with_domain
        else with_domain)

  unfoldable pub set_runtime_interfaces : List HostInterface → Cache D → Exec (Model L) (Unit {0})
  unfolding renew_transportfiles renew_sender renew_receiver
  set_runtime_interfaces interfaces c m =
      (for_each (renew_sender video "runtime interfaces update video sender" c.seed_id)
            c.video_senders
          >> for_each (renew_sender audio "runtime interfaces update audio sender" c.seed_id)
              c.audio_senders
          >> for_each
              (renew_sender ancillary "runtime interfaces update ancillary sender" c.seed_id)
              c.ancillary_senders
          >> for_each (renew_receiver video "runtime interfaces update video receiver" c.seed_id)
              c.video_receivers
          >> for_each (renew_receiver audio "runtime interfaces update audio receiver" c.seed_id)
              c.audio_receivers
          >> for_each
              (renew_receiver ancillary "runtime interfaces update ancillary receiver" c.seed_id)
              c.ancillary_receivers
          >> renew_transportfiles)
        (record m { runtime_interfaces = interfaces })
