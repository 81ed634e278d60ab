-- ===== src/Reconcile/KindLaws.antt =====
-- What the streams of every kind have in common: `equivalent`, and the functions that print and read a
-- stream, src/daemon/dto.cpp.
use nmos_client.Base.{String, Bool, true, Except, ok, ℤ, ◌≡◌, ◌↔◌, ap}
use nmos_client.Json.{Json}
use nmos_client.Dto.Types.{VideoSender, AudioSender, AncillarySender}
use nmos_client.Dto.Nested.{read_back}
use nmos_client.Dto.Parse.{
  video_sender_from_json, audio_sender_from_json, ancillary_sender_from_json,
  video_receiver_from_json, audio_receiver_from_json, ancillary_receiver_from_json,
}
use nmos_client.Dto.Print.{
  video_sender_to_json, audio_sender_to_json, ancillary_sender_to_json, video_receiver_to_json,
  audio_receiver_to_json, ancillary_receiver_to_json,
}
use nmos_client.Dto.RoundTrip.Senders.{
  video_sender-roundtrip, audio_sender-roundtrip, ancillary_sender-roundtrip,
}
use nmos_client.Dto.RoundTrip.Receivers.{
  video_receiver-roundtrip, audio_receiver-roundtrip, ancillary_receiver-roundtrip,
}
use nmos_client.Dto.Equivalent.Laws.{
  equivalent_video_sender_iff, equivalent_audio_sender_iff, equivalent_ancillary_sender_iff,
  equivalent_video_receiver_iff, equivalent_ancillary_receiver_iff,
}
use nmos_client.Reconcile.Kind.{
  Kind, StreamOf, plain, equivalent, video_receiver, audio_receiver, ancillary_receiver,
  video_sender, audio_sender, ancillary_sender,
}
use nmos_client.Reconcile.Matches.{IsEquality, equivalent_audio_receiver_iff}

module _ {D : Type 0} (double_eq : D → D → Bool) (equality : IsEquality double_eq) where
  -- Where `==` on the doubles that occur is equality, two streams of a kind are equivalent exactly when
  -- they are equal, sender ids aside.
  pub equivalent_iff :
      (k : Kind) (l r : StreamOf D k)
      → (equivalent D double_eq k l r ≡ true) ↔ (plain D k l ≡ plain D k r)
  equivalent_iff video_receiver l r = equivalent_video_receiver_iff l r
  equivalent_iff audio_receiver l r = equivalent_audio_receiver_iff double_eq equality l r
  equivalent_iff ancillary_receiver l r = equivalent_ancillary_receiver_iff l r
  equivalent_iff video_sender l r = (
    λ h. ap (plain D video_sender) ((equivalent_video_sender_iff l r).0 h),
    λ h.
        (equivalent_video_sender_iff l r).1
          (ap (λ (x : VideoSender). record x { sender_id = l.sender_id }) h),
  )
  equivalent_iff audio_sender l r = (
    λ h. ap (plain D audio_sender) ((equivalent_audio_sender_iff l r).0 h),
    λ h.
        (equivalent_audio_sender_iff l r).1
          (ap (λ (x : AudioSender). record x { sender_id = l.sender_id }) h),
  )
  equivalent_iff ancillary_sender l r = (
    λ h. ap (plain D ancillary_sender) ((equivalent_ancillary_sender_iff l r).0 h),
    λ h.
        (equivalent_ancillary_sender_iff l r).1
          (ap (λ (x : AncillarySender). record x { sender_id = l.sender_id }) h),
  )

module _ (J : Json) where
  open J use {Double, Value}

  -- The function that reads a stream, and the one that prints it, by kind.
  unfoldable pub from_json : (k : Kind) → ℤ → Value → String → Except (StreamOf Double k)
  unfolding video_sender_from_json audio_sender_from_json ancillary_sender_from_json
      video_receiver_from_json audio_receiver_from_json ancillary_receiver_from_json
  from_json video_receiver = video_receiver_from_json J
  from_json audio_receiver = audio_receiver_from_json J
  from_json ancillary_receiver = ancillary_receiver_from_json J
  from_json video_sender = video_sender_from_json J
  from_json audio_sender = audio_sender_from_json J
  from_json ancillary_sender = ancillary_sender_from_json J

  unfoldable pub to_json : (k : Kind) → StreamOf Double k → Value
  unfolding video_sender_to_json audio_sender_to_json ancillary_sender_to_json
      video_receiver_to_json audio_receiver_to_json ancillary_receiver_to_json
  to_json video_receiver = video_receiver_to_json J
  to_json audio_receiver = audio_receiver_to_json J
  to_json ancillary_receiver = ancillary_receiver_to_json J
  to_json video_sender = video_sender_to_json J
  to_json audio_sender = audio_sender_to_json J
  to_json ancillary_sender = ancillary_sender_to_json J

  -- A stream with its redundancy as it is read back.
  abbrev pub with_read_back : (k : Kind) → ℤ → StreamOf Double k → StreamOf Double k
  with_read_back video_receiver junk x = record x { redudancy = read_back junk x.redudancy }
  with_read_back audio_receiver junk x = record x { redudancy = read_back junk x.redudancy }
  with_read_back ancillary_receiver junk x = record x { redudancy = read_back junk x.redudancy }
  with_read_back video_sender junk x = record x { redudancy = read_back junk x.redudancy }
  with_read_back audio_sender junk x = record x { redudancy = read_back junk x.redudancy }
  with_read_back ancillary_sender junk x = record x { redudancy = read_back junk x.redudancy }

  -- Reading a printed stream of any kind, wherever it stands, gives it back but for two fields: a sender
  -- id is not read, and a redundancy that is not present comes back as the default one, whose port is
  -- whatever the memory held.
  pub stream-roundtrip :
      (k : Kind) (junk : ℤ) (x : StreamOf Double k) (path : String)
      → from_json k junk (to_json k x) path ≡ ok (plain Double k (with_read_back k junk x))
  unfolding from_json to_json
  stream-roundtrip video_receiver = video_receiver-roundtrip J
  stream-roundtrip audio_receiver = audio_receiver-roundtrip J
  stream-roundtrip ancillary_receiver = ancillary_receiver-roundtrip J
  stream-roundtrip video_sender = video_sender-roundtrip J
  stream-roundtrip audio_sender = audio_sender-roundtrip J
  stream-roundtrip ancillary_sender = ancillary_sender-roundtrip J
