-- ===== src/Node/State.antt =====
-- The members of `Node::Impl` of src/node.cpp, in two groups: the streams that are cached with the
-- seed of their ids, and the model with what belongs to it. `waits` is what the coming waits of
-- `insert_resource_after` and `remove_resource_after` see: whether a shutdown came.
use nmos_client.Base.{
  String, Bool, List, [], ◌∷◌, Option, none, some, ℤ, ◌==◌, string_eq, if◌then◌else◌, is_some,
}
use nmos_client.Dto.Types.{
  VideoSender, AudioSender, AncillarySender, VideoReceiver, AudioReceiver, AncillaryReceiver,
  Redudancy,
}
use nmos_client.Reconcile.Kind.{
  Kind, StreamOf, id_of, video_receiver, audio_receiver, ancillary_receiver, video_sender,
  audio_sender, ancillary_sender,
}
use nmos_client.Reconcile.Runtime.{HostInterface}
use nmos_client.Node.Library.{Library}

pub record Cache (D : Type 0) : Type 0 where
  pub seed_id : String
  pub video_senders : List VideoSender
  pub audio_senders : List AudioSender
  pub ancillary_senders : List AncillarySender
  pub video_receivers : List VideoReceiver
  pub audio_receivers : List (AudioReceiver D)
  pub ancillary_receivers : List AncillaryReceiver

pub record Model {D : Type 0} (L : Library D) : Type 0 where
  pub node_id : String
  pub device_id : String
  pub node_resources : L.Resources
  pub connection_resources : L.Resources
  pub sender_ids : List String
  pub receiver_ids : List String
  pub source_ids : List String
  pub flow_ids : List String
  pub runtime_interfaces : List HostInterface
  pub ptp_domain_number : ℤ
  pub waits : List Bool

pub record Node {D : Type 0} (L : Library D) : Type 0 where
  pub cache : Cache D
  pub model : Model L

-- `find_*_by_id`, `replace_cached_by_id` and the erasures, for a list of any streams.
module _ {T : Type 0} (id : T → String) where
  unfoldable pub find_by_id : String → List T → Option T
  find_by_id i [] = none
  find_by_id i (x ∷ xs) = if id x == i then some x else find_by_id i xs

  unfoldable pub replace_cached_by_id : T → List T → List T
  replace_cached_by_id y [] = []
  replace_cached_by_id y (x ∷ xs) = if id x == id y then y ∷ xs else x ∷ replace_cached_by_id y xs

  -- `erase(remove_if(...))`
  unfoldable pub remove_by : String → List T → List T
  remove_by i [] = []
  remove_by i (x ∷ xs) = if id x == i then remove_by i xs else x ∷ remove_by i xs

-- `boost::range::find` and `erase` of what it found.
unfoldable pub erase_first : String → List String → List String
erase_first i [] = []
erase_first i (j ∷ js) = if j == i then js else j ∷ erase_first i js

module _ {D : Type 0} where
  abbrev pub cached : (k : Kind) → Cache D → List (StreamOf D k)
  cached video_receiver c = c.video_receivers
  cached audio_receiver c = c.audio_receivers
  cached ancillary_receiver c = c.ancillary_receivers
  cached video_sender c = c.video_senders
  cached audio_sender c = c.audio_senders
  cached ancillary_sender c = c.ancillary_senders

  abbrev pub set_cached : (k : Kind) → List (StreamOf D k) → Cache D → Cache D
  set_cached video_receiver xs c = record c { video_receivers = xs }
  set_cached audio_receiver xs c = record c { audio_receivers = xs }
  set_cached ancillary_receiver xs c = record c { ancillary_receivers = xs }
  set_cached video_sender xs c = record c { video_senders = xs }
  set_cached audio_sender xs c = record c { audio_senders = xs }
  set_cached ancillary_sender xs c = record c { ancillary_senders = xs }

  abbrev pub exists : (k : Kind) → String → Cache D → Bool
  exists k i c = is_some (find_by_id (id_of D k) i (cached k c))

-- What a stream carries: the source has a function for each, for senders and for receivers.
pub data Media : Type 0 where
  video audio ancillary : Media

abbrev pub sender_of : Media → Kind
sender_of video = video_sender
sender_of audio = audio_sender
sender_of ancillary = ancillary_sender

abbrev pub receiver_of : Media → Kind
receiver_of video = video_receiver
receiver_of audio = audio_receiver
receiver_of ancillary = ancillary_receiver

module _ (D : Type 0) where
  abbrev pub sender_id_of : (k : Media) → StreamOf D (sender_of k) → String
  sender_id_of video x = x.sender_id
  sender_id_of audio x = x.sender_id
  sender_id_of ancillary x = x.sender_id

  abbrev pub with_sender_id :
      (k : Media) → String → StreamOf D (sender_of k) → StreamOf D (sender_of k)
  with_sender_id video i x = record x { sender_id = i }
  with_sender_id audio i x = record x { sender_id = i }
  with_sender_id ancillary i x = record x { sender_id = i }

  abbrev pub redudancy_of : (k : Kind) → StreamOf D k → Redudancy
  redudancy_of video_receiver x = x.redudancy
  redudancy_of audio_receiver x = x.redudancy
  redudancy_of ancillary_receiver x = x.redudancy
  redudancy_of video_sender x = x.redudancy
  redudancy_of audio_sender x = x.redudancy
  redudancy_of ancillary_sender x = x.redudancy

  abbrev pub source_ip_of : (k : Kind) → StreamOf D k → String
  source_ip_of video_receiver x = x.source_ip
  source_ip_of audio_receiver x = x.source_ip
  source_ip_of ancillary_receiver x = x.source_ip
  source_ip_of video_sender x = x.source_ip
  source_ip_of audio_sender x = x.source_ip
  source_ip_of ancillary_sender x = x.source_ip

  abbrev pub ip_of : (k : Kind) → StreamOf D k → String
  ip_of video_receiver x = x.ip
  ip_of audio_receiver x = x.ip
  ip_of ancillary_receiver x = x.ip
  ip_of video_sender x = x.ip
  ip_of audio_sender x = x.ip
  ip_of ancillary_sender x = x.ip

  abbrev pub port_of : (k : Kind) → StreamOf D k → ℤ
  port_of video_receiver x = x.port
  port_of audio_receiver x = x.port
  port_of ancillary_receiver x = x.port
  port_of video_sender x = x.port
  port_of audio_sender x = x.port
  port_of ancillary_sender x = x.port

  abbrev pub enable_of : (k : Kind) → StreamOf D k → Bool
  enable_of video_receiver x = x.enable
  enable_of audio_receiver x = x.enable
  enable_of ancillary_receiver x = x.enable
  enable_of video_sender x = x.enable
  enable_of audio_sender x = x.enable
  enable_of ancillary_sender x = x.enable
