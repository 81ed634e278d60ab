-- ===== src/Reconcile/Kind.antt =====
-- The six kinds of stream. The source has a function for each kind; here a function has the kind as
-- an argument, and the type of the stream follows it.
use nmos_client.Base.{String, Bool, List, ◌∷◌, [], ℕ, eqb, true, false, ◌||◌, ◌≡◌, ◌↔◌, arith}
use nmos_client.Dto.Types.{
  VideoSender, AudioSender, AncillarySender, VideoReceiver, AudioReceiver, AncillaryReceiver,
  SnapshotDto,
}
use nmos_client.Dto.Equivalent.{
  equivalent_video_sender, equivalent_audio_sender, equivalent_ancillary_sender,
  equivalent_video_receiver, equivalent_ancillary_receiver, equivalent_audio_receiver,
}

pub data Kind : Type 0 where
  video_receiver audio_receiver ancillary_receiver : Kind
  video_sender audio_sender ancillary_sender : Kind

abbrev pub kind_index : Kind → ℕ
kind_index video_receiver = 0
kind_index audio_receiver = 1
kind_index ancillary_receiver = 2
kind_index video_sender = 3
kind_index audio_sender = 4
kind_index ancillary_sender = 5

abbrev pub same_kind : Kind → Kind → Bool
same_kind k l = eqb (kind_index k) (kind_index l)

pub same_kind_iff : (k l : Kind) → (same_kind k l ≡ true) ↔ (k ≡ l)
same_kind_iff k l = (λ h. ground arith, λ h. ground arith)

-- Whether `k` is in the list.
abbrev pub listed : Kind → List Kind → Bool
listed k [] = false
listed k (l ∷ ls) = same_kind l k || listed k ls

-- The `resource_type` of the source's calls of `reconcile_list`.
abbrev pub resource_type : Kind → String
resource_type video_receiver = "video_receiver"
resource_type audio_receiver = "audio_receiver"
resource_type ancillary_receiver = "ancillary_receiver"
resource_type video_sender = "video_sender"
resource_type audio_sender = "audio_sender"
resource_type ancillary_sender = "ancillary_sender"

abbrev pub DistinctKinds : List Kind → Type 0
DistinctKinds [] = Unit
DistinctKinds (k ∷ ks) = (listed k ks ≡ false) × DistinctKinds ks

module _ (D : Type 0) where
  abbrev pub StreamOf : Kind → Type 0
  StreamOf video_receiver = VideoReceiver
  StreamOf audio_receiver = AudioReceiver D
  StreamOf ancillary_receiver = AncillaryReceiver
  StreamOf video_sender = VideoSender
  StreamOf audio_sender = AudioSender
  StreamOf ancillary_sender = AncillarySender

  abbrev pub id_of : (k : Kind) → StreamOf k → String
  id_of video_receiver x = x.id
  id_of audio_receiver x = x.id
  id_of ancillary_receiver x = x.id
  id_of video_sender x = x.id
  id_of audio_sender x = x.id
  id_of ancillary_sender x = x.id

  -- A stream as it comes from a snapshot: a node sets the sender id of the senders that it holds.
  abbrev pub plain : (k : Kind) → StreamOf k → StreamOf k
  plain video_sender x = record x { sender_id = "" }
  plain audio_sender x = record x { sender_id = "" }
  plain ancillary_sender x = record x { sender_id = "" }
  plain video_receiver x = x
  plain audio_receiver x = x
  plain ancillary_receiver x = x

  abbrev pub streams : (k : Kind) → SnapshotDto D → List (StreamOf k)
  streams video_receiver s = s.video_receivers
  streams audio_receiver s = s.audio_receivers
  streams ancillary_receiver s = s.ancillary_receivers
  streams video_sender s = s.video_senders
  streams audio_sender s = s.audio_senders
  streams ancillary_sender s = s.ancillary_senders

  -- `double_eq` is `==` on doubles.
  abbrev pub equivalent : (D → D → Bool) → (k : Kind) → StreamOf k → StreamOf k → Bool
  equivalent double_eq video_receiver = equivalent_video_receiver
  equivalent double_eq audio_receiver = equivalent_audio_receiver double_eq
  equivalent double_eq ancillary_receiver = equivalent_ancillary_receiver
  equivalent double_eq video_sender = equivalent_video_sender
  equivalent double_eq audio_sender = equivalent_audio_sender
  equivalent double_eq ancillary_sender = equivalent_ancillary_sender
