-- ===== src/Dto/RoundTrip/Senders.antt =====
-- Printing and reading a sender, src/daemon/dto.cpp.
use nmos_client.Base.{String, false, [], ok, ℤ, pos, ◌≡◌, refl, string_eq}
use nmos_client.Json.{Json}
use nmos_client.Dto.Types.{VideoSender, AudioSender, AncillarySender}
use nmos_client.Dto.Parse.{
  video_sender_from_json, audio_sender_from_json, ancillary_sender_from_json,
}
use nmos_client.Dto.Print.{
  redudancy_fields, video_sender_to_json, audio_sender_to_json, ancillary_sender_to_json,
  video_sender_first, video_sender_last, audio_sender_first, ancillary_sender_first,
}
use nmos_client.Dto.Objects.{redudancy_fields-Skips, string_field, int_field, bool_field}
use nmos_client.Dto.Nested.{read_back, redudancy_field-fields}

module _ (J : Json) where
  open J use {Double, double_zero, Value}

  -- Reading a printed video sender, wherever it stands, gives it back but for two fields: the sender id
  -- is not read, and a redundancy that is not present comes back as the default one, whose port is
  -- whatever the memory held.
  pub video_sender-roundtrip :
      (junk : ℤ) (s : VideoSender) (path : String)
      → video_sender_from_json J junk (video_sender_to_json J s) path
        ≡ ok (record s { sender_id = ""; redudancy = read_back junk s.redudancy })
  unfolding video_sender_from_json video_sender_to_json
  video_sender-roundtrip junk s path = rw (
    string_field J (video_sender_first J s) (redudancy_fields J s.redudancy) (video_sender_last J s)
        "id" s.id "" path (redudancy_fields-Skips J s.redudancy "id" refl) (refl, refl),
    string_field J (video_sender_first J s) (redudancy_fields J s.redudancy) (video_sender_last J s)
        "name" s.name "" path (redudancy_fields-Skips J s.redudancy "name" refl) (refl, refl),
    bool_field J (video_sender_first J s) (redudancy_fields J s.redudancy) (video_sender_last J s)
        "enable" s.enable false path (redudancy_fields-Skips J s.redudancy "enable" refl)
        (refl, refl),
    string_field J (video_sender_first J s) (redudancy_fields J s.redudancy) (video_sender_last J s)
        "video_format" s.video_format "" path
        (redudancy_fields-Skips J s.redudancy "video_format" refl) (refl, refl),
    string_field J (video_sender_first J s) (redudancy_fields J s.redudancy) (video_sender_last J s)
        "colorspace" s.colorspace "BT709" path
        (redudancy_fields-Skips J s.redudancy "colorspace" refl) (refl, refl),
    string_field J (video_sender_first J s) (redudancy_fields J s.redudancy) (video_sender_last J s)
        "transfer_characteristics" s.transfer_characteristics "SDR" path
        (redudancy_fields-Skips J s.redudancy "transfer_characteristics" refl) (refl, refl),
    string_field J (video_sender_first J s) (redudancy_fields J s.redudancy) (video_sender_last J s)
        "source_ip" s.source_ip "" path (redudancy_fields-Skips J s.redudancy "source_ip" refl)
        (refl, refl),
    string_field J (video_sender_first J s) (redudancy_fields J s.redudancy) (video_sender_last J s)
        "ip" s.ip "" path (redudancy_fields-Skips J s.redudancy "ip" refl) (refl, refl),
    int_field J (video_sender_first J s) (redudancy_fields J s.redudancy) (video_sender_last J s)
        "port" s.port (pos 0) path (redudancy_fields-Skips J s.redudancy "port" refl) (refl, refl),
    int_field J (video_sender_first J s) (redudancy_fields J s.redudancy) (video_sender_last J s)
        "pg_format" s.pg_format (pos 0) path (redudancy_fields-Skips J s.redudancy "pg_format" refl)
        (refl, refl),
    redudancy_field-fields J (video_sender_first J s) (video_sender_last J s) (λ d. refl, λ b. refl)
        (λ d. refl, λ b. refl) junk s.redudancy path,
  )

  -- Reading a printed audio sender gives it back, but for the sender id, which is not read, and a
  -- redundancy that is not present, which comes back as the default one with the port `junk`.
  pub audio_sender-roundtrip :
      (junk : ℤ) (s : AudioSender) (path : String)
      → audio_sender_from_json J junk (audio_sender_to_json J s) path
        ≡ ok (record s { sender_id = ""; redudancy = read_back junk s.redudancy })
  unfolding audio_sender_from_json audio_sender_to_json
  audio_sender-roundtrip junk s path = rw (
    string_field J (audio_sender_first J s) (redudancy_fields J s.redudancy) [] "id" s.id "" path
        (redudancy_fields-Skips J s.redudancy "id" refl) (refl, refl),
    string_field J (audio_sender_first J s) (redudancy_fields J s.redudancy) [] "name" s.name ""
        path (redudancy_fields-Skips J s.redudancy "name" refl) (refl, refl),
    bool_field J (audio_sender_first J s) (redudancy_fields J s.redudancy) [] "enable" s.enable
        false path (redudancy_fields-Skips J s.redudancy "enable" refl) (refl, refl),
    int_field J (audio_sender_first J s) (redudancy_fields J s.redudancy) [] "channel_count"
        s.channel_count (pos 0) path (redudancy_fields-Skips J s.redudancy "channel_count" refl)
        (refl, refl),
    int_field J (audio_sender_first J s) (redudancy_fields J s.redudancy) [] "bit_depth" s.bit_depth
        (pos 0) path (redudancy_fields-Skips J s.redudancy "bit_depth" refl) (refl, refl),
    int_field J (audio_sender_first J s) (redudancy_fields J s.redudancy) [] "sample_rate"
        s.sample_rate (pos 0) path (redudancy_fields-Skips J s.redudancy "sample_rate" refl)
        (refl, refl),
    string_field J (audio_sender_first J s) (redudancy_fields J s.redudancy) [] "source_ip"
        s.source_ip "" path (redudancy_fields-Skips J s.redudancy "source_ip" refl) (refl, refl),
    string_field J (audio_sender_first J s) (redudancy_fields J s.redudancy) [] "ip" s.ip "" path
        (redudancy_fields-Skips J s.redudancy "ip" refl) (refl, refl),
    int_field J (audio_sender_first J s) (redudancy_fields J s.redudancy) [] "port" s.port (pos 0)
        path (redudancy_fields-Skips J s.redudancy "port" refl) (refl, refl),
    redudancy_field-fields J (audio_sender_first J s) [] (λ d. refl, λ b. refl)
        (λ d. refl, λ b. refl) junk s.redudancy path,
  )

  -- Reading a printed ancillary sender gives it back, but for the sender id, which is not read, and a
  -- redundancy that is not present, which comes back as the default one with the port `junk`.
  pub ancillary_sender-roundtrip :
      (junk : ℤ) (s : AncillarySender) (path : String)
      → ancillary_sender_from_json J junk (ancillary_sender_to_json J s) path
        ≡ ok (record s { sender_id = ""; redudancy = read_back junk s.redudancy })
  unfolding ancillary_sender_from_json ancillary_sender_to_json
  ancillary_sender-roundtrip junk s path = rw (
    string_field J (ancillary_sender_first J s) (redudancy_fields J s.redudancy) [] "id" s.id ""
        path (redudancy_fields-Skips J s.redudancy "id" refl) (refl, refl),
    string_field J (ancillary_sender_first J s) (redudancy_fields J s.redudancy) [] "name" s.name ""
        path (redudancy_fields-Skips J s.redudancy "name" refl) (refl, refl),
    string_field J (ancillary_sender_first J s) (redudancy_fields J s.redudancy) [] "format"
        s.format "" path (redudancy_fields-Skips J s.redudancy "format" refl) (refl, refl),
    bool_field J (ancillary_sender_first J s) (redudancy_fields J s.redudancy) [] "enable" s.enable
        false path (redudancy_fields-Skips J s.redudancy "enable" refl) (refl, refl),
    string_field J (ancillary_sender_first J s) (redudancy_fields J s.redudancy) [] "source_ip"
        s.source_ip "" path (redudancy_fields-Skips J s.redudancy "source_ip" refl) (refl, refl),
    string_field J (ancillary_sender_first J s) (redudancy_fields J s.redudancy) [] "ip" s.ip ""
        path (redudancy_fields-Skips J s.redudancy "ip" refl) (refl, refl),
    int_field J (ancillary_sender_first J s) (redudancy_fields J s.redudancy) [] "port" s.port
        (pos 0) path (redudancy_fields-Skips J s.redudancy "port" refl) (refl, refl),
    redudancy_field-fields J (ancillary_sender_first J s) [] (λ d. refl, λ b. refl)
        (λ d. refl, λ b. refl) junk s.redudancy path,
  )
