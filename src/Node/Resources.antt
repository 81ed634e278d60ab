-- ===== src/Node/Resources.antt =====
-- The resources that src/node.cpp makes for a stream: their ids and the functions `make_*_resources`.
use nmos_client.Base.{
  suc, String, ◌&&◌, ◌||◌, List, [], ◌∷◌, Option, none, some, Except, ok, err, ◌>>=◌, ◌==◌,
  string_eq, ℤ, pos, negsuc, ltb_ℤ, leb_ℤ, if◌then◌else◌, concat, to_string,
}
use nmos_client.Dto.Types.{
  VideoSender, AudioSender, AncillarySender, VideoReceiver, AudioReceiver, AncillaryReceiver,
}
use nmos_client.Format.Desc.{VideoFormatDesc, is_invalid}
use nmos_client.Format.Lookup.{get_by_name}
use nmos_client.Reconcile.Kind.{
  Kind, StreamOf, id_of, video_receiver, audio_receiver, ancillary_receiver, video_sender,
  audio_sender, ancillary_sender,
}
use nmos_client.Node.Interfaces.{
  RuntimeInterfaceSelection, select_runtime_interfaces, selected_interface_names,
  receiver_multicast_ip_or_default, receiver_port_or_default,
}
use nmos_client.Node.Library.{Library, TransportLeg}
use nmos_client.Node.State.{Model, redudancy_of, source_ip_of, ip_of, port_of, enable_of}

-- impl::ports
abbrev pub port_name : Kind → String
port_name video_receiver = "VIDEO"
port_name video_sender = "VIDEO"
port_name audio_receiver = "AUDIO"
port_name audio_sender = "AUDIO"
port_name ancillary_receiver = "DATA"
port_name ancillary_sender = "DATA"

-- std::to_string(int)
abbrev pub int_to_string : ℤ → String
int_to_string (pos n) = to_string n
int_to_string (negsuc n) = concat ("-" ∷ to_string (suc n) ∷ [])

abbrev pub transport_leg : String → String → ℤ → TransportLeg
transport_leg multicast_ip interface_ip port = record {
  multicast_ip = multicast_ip;
  interface_ip = interface_ip;
  port = port;
}

module _ {D : Type 0} (L : Library D) where
  pub record SenderResources : Type 0 where
    pub source : L.Resource
    pub flow : L.Resource
    pub sender : L.Resource
    pub connection_sender : L.Resource

  pub record ReceiverResources : Type 0 where
    pub receiver : L.Resource
    pub connection_receiver : L.Resource

  abbrev pub make_id : String → String → Kind → String → String
  make_id seed_id type k id =
      L.make_repeatable_id seed_id (concat ("/x-nmos/node/" ∷ type ∷ "/" ∷ port_name k ∷ id ∷ []))

  abbrev pub selection_of : (k : Kind) → StreamOf D k → Model L → RuntimeInterfaceSelection
  selection_of k x m =
      let redudancy = redudancy_of D k x in
      select_runtime_interfaces m.runtime_interfaces (source_ip_of D k x) redudancy.source_ip
        redudancy.present

  -- What the three functions for a sender share, from the format that was found.
  abbrev pub sender_resources :
      (k : Kind) → String → Option VideoFormatDesc → StreamOf D k → Model L → SenderResources
  sender_resources k seed_id format_desc x m =
      let redudancy = redudancy_of D k x in
      let st_2022_7 = redudancy.present in
      let interface_selection = selection_of k x m in
      let source_id = make_id seed_id "source" k (id_of D k x) in
      let flow_id = make_id seed_id "flow" k (id_of D k x) in
      let sender_id = make_id seed_id "sender" k (id_of D k x) in
      record {
        source = L.build_source k source_id m.device_id format_desc x;
        flow = L.build_flow k flow_id source_id m.device_id format_desc x;
        sender =
            L.build_sender k sender_id flow_id m.device_id
              (selected_interface_names interface_selection st_2022_7) x;
        connection_sender =
            L.build_connection_sender k sender_id st_2022_7 interface_selection (enable_of D k x)
              (enable_of D k x && redudancy.enable);
      }

  unfoldable pub make_video_sender_resources :
      String → VideoSender → Model L → Except SenderResources
  unfolding get_by_name is_invalid to_string
  make_video_sender_resources seed_id video m = do
    format_desc ← get_by_name video.video_format
    (if is_invalid format_desc
        then err (concat ("invalid video sender video_format: " ∷ video.video_format ∷ []))
        else if ltb_ℤ video.pg_format (pos 0) || leb_ℤ L.st20_fmt_max video.pg_format
        then err (concat ("invalid video sender pg_format: " ∷ int_to_string video.pg_format ∷ []))
        else ok (sender_resources video_sender seed_id (some format_desc) video m))

  unfoldable pub make_audio_sender_resources :
      String → AudioSender → Model L → Except SenderResources
  make_audio_sender_resources seed_id audio m =
      ok (sender_resources audio_sender seed_id none audio m)

  -- `try { ... } catch (const std::exception &) {}` around the look-up of the grain rate.
  abbrev pub caught : Except VideoFormatDesc → Option VideoFormatDesc
  caught (ok format_desc) = some format_desc
  caught (err e) = none

  unfoldable pub make_ancillary_sender_resources :
      String → AncillarySender → Model L → Except SenderResources
  unfolding get_by_name
  make_ancillary_sender_resources seed_id ancillary m =
      let format_desc =
        (if ancillary.format == "" then none else caught (get_by_name ancillary.format)) in
      ok (sender_resources ancillary_sender seed_id format_desc ancillary m)

  -- The transport parameters of one leg or of two.
  unfoldable pub receiver_legs :
      (k : Kind) → StreamOf D k → RuntimeInterfaceSelection → List TransportLeg
  receiver_legs k x s =
      let redudancy = redudancy_of D k x in
      let primary = transport_leg (ip_of D k x) s.primary.ip (port_of D k x) in
      let secondary =
        transport_leg (receiver_multicast_ip_or_default redudancy.ip (ip_of D k x)) s.redundancy.ip
          (receiver_port_or_default redudancy.port (port_of D k x)) in
      if redudancy.present then primary ∷ secondary ∷ [] else primary ∷ []

  unfoldable pub receiver_resources :
      (k : Kind) → String → List VideoFormatDesc → StreamOf D k → Model L → ReceiverResources
  unfolding receiver_legs
  receiver_resources k seed_id format_descs x m =
      let redudancy = redudancy_of D k x in
      let st_2022_7 = redudancy.present in
      let interface_selection = selection_of k x m in
      let receiver_id = make_id seed_id "receiver" k (id_of D k x) in
      record {
        receiver =
            L.build_receiver k receiver_id m.device_id
              (selected_interface_names interface_selection st_2022_7) format_descs x;
        connection_receiver =
            L.build_connection_receiver k receiver_id st_2022_7 interface_selection
              (receiver_legs k x interface_selection);
      }

  -- The loop over `caps.formats`.
  unfoldable pub cap_formats : List String → Except (List VideoFormatDesc)
  unfolding get_by_name
  cap_formats [] = ok []
  cap_formats (f ∷ fs) = do d ← get_by_name f; ds ← cap_formats fs; ok (d ∷ ds)

  unfoldable pub make_video_receiver_resources :
      String → VideoReceiver → Model L → Except ReceiverResources
  unfolding cap_formats
  make_video_receiver_resources seed_id video m = do
    format_descs ← cap_formats video.caps.formats
    ok (receiver_resources video_receiver seed_id format_descs video m)

  unfoldable pub make_audio_receiver_resources :
      String → AudioReceiver D → Model L → Except ReceiverResources
  make_audio_receiver_resources seed_id audio m =
      ok (receiver_resources audio_receiver seed_id [] audio m)

  unfoldable pub make_ancillary_receiver_resources :
      String → AncillaryReceiver → Model L → Except ReceiverResources
  make_ancillary_receiver_resources seed_id ancillary m =
      ok (receiver_resources ancillary_receiver seed_id [] ancillary m)
