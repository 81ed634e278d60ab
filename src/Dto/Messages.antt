-- ===== src/Dto/Messages.antt =====
-- The messages that the daemon sends, src/daemon/dto.cpp.
use nmos_client.Base.{String, [], ◌∷◌}
use nmos_client.Json.{Json}
use nmos_client.Dto.Types.{
  VideoSender, AudioSender, AncillarySender, VideoReceiver, AudioReceiver, AncillaryReceiver,
  SyncFailedMessage,
}
use nmos_client.Dto.Print.{
  make_object, video_sender_to_json, audio_sender_to_json, ancillary_sender_to_json,
  video_receiver_to_json, audio_receiver_to_json, ancillary_receiver_to_json,
}

module _ (J : Json) where
  open J use {Double, Value, string, number}

  -- make_sender_message and make_receiver_message, which differ in names only.
  abbrev pub make_stream_message : {A : Type 0} → String → A → (A → Value) → Value
  make_stream_message type_name stream serializer =
      make_object J (("type", string type_name) ∷ ("payload", serializer stream) ∷ [])

  unfoldable pub make_node_lifecycle_message : String → String → Value
  make_node_lifecycle_message old_state new_state = make_object J (
      ("type", string "node.lifecycle_changed")
      ∷ (
        "payload",
        make_object J (("old_state", string old_state) ∷ ("new_state", string new_state) ∷ []),
      )
      ∷ [])

  unfoldable pub make_sync_failed_message : SyncFailedMessage → Value
  make_sync_failed_message m = make_object J (
      ("type", string "sync.failed")
      ∷ ("revision", number m.revision)
      ∷ ("message", string m.message)
      ∷ [])

  unfoldable pub make_streams_drained_message : Value
  make_streams_drained_message = make_object J (
      ("type", string "streams.drained_due_to_ws_disconnect")
      ∷ ("message", string "WebSocket disconnected, all registered senders/receivers removed")
      ∷ [])

  unfoldable pub make_sender_video_observed_changed_message : VideoSender → Value
  make_sender_video_observed_changed_message s =
      make_stream_message "sender.video.observed_changed" s (video_sender_to_json J)

  unfoldable pub make_sender_audio_observed_changed_message : AudioSender → Value
  make_sender_audio_observed_changed_message s =
      make_stream_message "sender.audio.observed_changed" s (audio_sender_to_json J)

  unfoldable pub make_sender_ancillary_observed_changed_message : AncillarySender → Value
  make_sender_ancillary_observed_changed_message s =
      make_stream_message "sender.ancillary.observed_changed" s (ancillary_sender_to_json J)

  unfoldable pub make_receiver_video_observed_changed_message : VideoReceiver → Value
  make_receiver_video_observed_changed_message r =
      make_stream_message "receiver.video.observed_changed" r (video_receiver_to_json J)

  unfoldable pub make_receiver_audio_observed_changed_message : AudioReceiver Double → Value
  make_receiver_audio_observed_changed_message r =
      make_stream_message "receiver.audio.observed_changed" r (audio_receiver_to_json J)

  unfoldable pub make_receiver_ancillary_observed_changed_message : AncillaryReceiver → Value
  make_receiver_ancillary_observed_changed_message r =
      make_stream_message "receiver.ancillary.observed_changed" r (ancillary_receiver_to_json J)
