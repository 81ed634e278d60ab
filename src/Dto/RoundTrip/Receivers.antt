-- ===== src/Dto/RoundTrip/Receivers.antt =====
-- Printing and reading a receiver, src/daemon/dto.cpp.
use nmos_client.Base.{
  String, false, List, [], ◌++◌, append_assoc, ok, ℤ, pos, ◌≡◌, refl, ◌∙◌, ap, ◌==◌, string_eq, sym,
}
use nmos_client.Json.{Json}
use nmos_client.Dto.Types.{VideoReceiver, AudioReceiver, AncillaryReceiver}
use nmos_client.Dto.Parse.{
  video_receiver_from_json, audio_receiver_from_json, ancillary_receiver_from_json,
  receiver_redudancy_field, caps_field,
}
use nmos_client.Dto.Print.{
  make_object, redudancy_fields, caps_fields, video_receiver_to_json, audio_receiver_to_json,
  ancillary_receiver_to_json, video_receiver_first, video_receiver_last, audio_receiver_first,
  ancillary_receiver_first,
}
use nmos_client.Dto.Objects.{
  Skips, redudancy_fields-Skips, append-Skips, string_field, int_field, bool_field, double_field,
}
use nmos_client.Dto.Nested.{read_back, redudancy_field-fields}
use nmos_client.Dto.Caps.{receiver_redudancy_field-fields, caps_fields-Skips, caps_field-fields}

module _ (J : Json) where
  open J use {Double, double_zero, Value}

  -- The two nested objects of a video receiver, each printed only where it says something.
  abbrev optional_fields : VideoReceiver → List (String × Value)
  optional_fields s = redudancy_fields J s.redudancy ++ caps_fields J s.caps

  optional_fields-Skips :
      (s : VideoReceiver) (j : String)
      → ("redudancy" == j) ≡ false
      → ("caps" == j) ≡ false
      → Skips J j (optional_fields s)
  optional_fields-Skips s j p q =
      append-Skips J j (redudancy_fields J s.redudancy) (caps_fields J s.caps)
        (redudancy_fields-Skips J s.redudancy j p) (caps_fields-Skips J s.caps j q)

  video_receiver-redudancy :
      (junk : ℤ) (s : VideoReceiver) (path : String)
      → receiver_redudancy_field J junk
          (make_object J
            (video_receiver_first J s ++ (optional_fields s ++ video_receiver_last J s)))
          path
        ≡ ok (read_back junk s.redudancy)
  video_receiver-redudancy junk s path =
      ap
        (λ fs.
          receiver_redudancy_field J junk (make_object J (video_receiver_first J s ++ fs)) path)
        (append_assoc (redudancy_fields J s.redudancy) (caps_fields J s.caps)
          (video_receiver_last J s))
      ∙ receiver_redudancy_field-fields J (video_receiver_first J s)
          (caps_fields J s.caps ++ video_receiver_last J s) (λ d. refl, λ b. refl)
          (after_caps "redudancy" refl (λ d. refl, λ b. refl)) (λ d. refl, λ b. refl)
          (after_caps "redudancy_enable" refl (λ d. refl, λ b. refl)) junk s.redudancy path
    where
      after_caps :
          (j : String)
          → ("caps" == j) ≡ false
          → Skips J j (video_receiver_last J s)
          → Skips J j (caps_fields J s.caps ++ video_receiver_last J s)
      after_caps j p q =
          append-Skips J j (caps_fields J s.caps) (video_receiver_last J s)
            (caps_fields-Skips J s.caps j p) q

  video_receiver-caps :
      (s : VideoReceiver) (path : String)
      → caps_field J
          (make_object J
            (video_receiver_first J s ++ (optional_fields s ++ video_receiver_last J s)))
          path
        ≡ ok s.caps
  video_receiver-caps s path =
      ap (λ fs. caps_field J (make_object J (video_receiver_first J s ++ fs)) path)
        (append_assoc (redudancy_fields J s.redudancy) (caps_fields J s.caps)
          (video_receiver_last J s))
      ∙ ap (λ fs. caps_field J (make_object J fs) path)
          (sym (
            append_assoc (video_receiver_first J s) (redudancy_fields J s.redudancy)
              (caps_fields J s.caps ++ video_receiver_last J s)))
      ∙ caps_field-fields J (video_receiver_first J s ++ redudancy_fields J s.redudancy)
          (video_receiver_last J s)
          (append-Skips J "caps" (video_receiver_first J s) (redudancy_fields J s.redudancy)
            (λ d. refl, λ b. refl) (redudancy_fields-Skips J s.redudancy "caps" refl))
          (λ d. refl, λ b. refl) s.caps path

  -- Reading a printed video receiver gives it back, capabilities included, but for a redundancy that is
  -- not present, which comes back as the default one with the port `junk`.
  pub video_receiver-roundtrip :
      (junk : ℤ) (s : VideoReceiver) (path : String)
      → video_receiver_from_json J junk (video_receiver_to_json J s) path
        ≡ ok (record s { redudancy = read_back junk s.redudancy })
  unfolding video_receiver_from_json video_receiver_to_json
  video_receiver-roundtrip junk s path = rw (
    string_field J (video_receiver_first J s) (optional_fields s) (video_receiver_last J s) "id"
        s.id "" path (optional_fields-Skips s "id" refl refl) (refl, refl),
    string_field J (video_receiver_first J s) (optional_fields s) (video_receiver_last J s) "name"
        s.name "" path (optional_fields-Skips s "name" refl refl) (refl, refl),
    bool_field J (video_receiver_first J s) (optional_fields s) (video_receiver_last J s) "enable"
        s.enable false path (optional_fields-Skips s "enable" refl refl) (refl, refl),
    string_field J (video_receiver_first J s) (optional_fields s) (video_receiver_last J s)
        "source_ip" s.source_ip "" path (optional_fields-Skips s "source_ip" refl refl)
        (refl, refl),
    string_field J (video_receiver_first J s) (optional_fields s) (video_receiver_last J s) "ip"
        s.ip "" path (optional_fields-Skips s "ip" refl refl) (refl, refl),
    int_field J (video_receiver_first J s) (optional_fields s) (video_receiver_last J s) "port"
        s.port (pos 0) path (optional_fields-Skips s "port" refl refl) (refl, refl),
    video_receiver-redudancy junk s path,
    video_receiver-caps s path,
    string_field J (video_receiver_first J s) (optional_fields s) (video_receiver_last J s) "format"
        s.format "" path (optional_fields-Skips s "format" refl refl) (refl, refl),
    string_field J (video_receiver_first J s) (optional_fields s) (video_receiver_last J s)
        "colorspace" s.colorspace "" path (optional_fields-Skips s "colorspace" refl refl)
        (refl, refl),
    string_field J (video_receiver_first J s) (optional_fields s) (video_receiver_last J s)
        "transfer_characteristics" s.transfer_characteristics "" path
        (optional_fields-Skips s "transfer_characteristics" refl refl) (refl, refl),
  )

  -- Reading a printed audio receiver gives it back, but for a redundancy that is not present, which
  -- comes back as the default one with the port `junk`.
  pub audio_receiver-roundtrip :
      (junk : ℤ) (s : (AudioReceiver Double)) (path : String)
      → audio_receiver_from_json J junk (audio_receiver_to_json J s) path
        ≡ ok (record s { redudancy = read_back junk s.redudancy })
  unfolding audio_receiver_from_json audio_receiver_to_json
  audio_receiver-roundtrip junk s path = rw (
    string_field J (audio_receiver_first J s) (redudancy_fields J s.redudancy) [] "id" s.id "" path
        (redudancy_fields-Skips J s.redudancy "id" refl) (refl, refl),
    string_field J (audio_receiver_first J s) (redudancy_fields J s.redudancy) [] "name" s.name ""
        path (redudancy_fields-Skips J s.redudancy "name" refl) (refl, refl),
    bool_field J (audio_receiver_first J s) (redudancy_fields J s.redudancy) [] "enable" s.enable
        false path (redudancy_fields-Skips J s.redudancy "enable" refl) (refl, refl),
    int_field J (audio_receiver_first J s) (redudancy_fields J s.redudancy) [] "channel_count"
        s.channel_count (pos 0) path (redudancy_fields-Skips J s.redudancy "channel_count" refl)
        (refl, refl),
    int_field J (audio_receiver_first J s) (redudancy_fields J s.redudancy) [] "bit_depth"
        s.bit_depth (pos 0) path (redudancy_fields-Skips J s.redudancy "bit_depth" refl)
        (refl, refl),
    int_field J (audio_receiver_first J s) (redudancy_fields J s.redudancy) [] "sample_rate"
        s.sample_rate (pos 0) path (redudancy_fields-Skips J s.redudancy "sample_rate" refl)
        (refl, refl),
    double_field J (audio_receiver_first J s) (redudancy_fields J s.redudancy) [] "packet_time"
        s.packet_time double_zero path (redudancy_fields-Skips J s.redudancy "packet_time" refl)
        (refl, refl),
    string_field J (audio_receiver_first J s) (redudancy_fields J s.redudancy) [] "source_ip"
        s.source_ip "" path (redudancy_fields-Skips J s.redudancy "source_ip" refl) (refl, refl),
    string_field J (audio_receiver_first J s) (redudancy_fields J s.redudancy) [] "ip" s.ip "" path
        (redudancy_fields-Skips J s.redudancy "ip" refl) (refl, refl),
    int_field J (audio_receiver_first J s) (redudancy_fields J s.redudancy) [] "port" s.port (pos 0)
        path (redudancy_fields-Skips J s.redudancy "port" refl) (refl, refl),
    redudancy_field-fields J (audio_receiver_first J s) [] (λ d. refl, λ b. refl)
        (λ d. refl, λ b. refl) junk s.redudancy path,
  )

  -- Reading a printed ancillary receiver gives it back, but for a redundancy that is not present, which
  -- comes back as the default one with the port `junk`.
  pub ancillary_receiver-roundtrip :
      (junk : ℤ) (s : AncillaryReceiver) (path : String)
      → ancillary_receiver_from_json J junk (ancillary_receiver_to_json J s) path
        ≡ ok (record s { redudancy = read_back junk s.redudancy })
  unfolding ancillary_receiver_from_json ancillary_receiver_to_json
  ancillary_receiver-roundtrip junk s path = rw (
    string_field J (ancillary_receiver_first J s) (redudancy_fields J s.redudancy) [] "id" s.id ""
        path (redudancy_fields-Skips J s.redudancy "id" refl) (refl, refl),
    string_field J (ancillary_receiver_first J s) (redudancy_fields J s.redudancy) [] "name" s.name
        "" path (redudancy_fields-Skips J s.redudancy "name" refl) (refl, refl),
    string_field J (ancillary_receiver_first J s) (redudancy_fields J s.redudancy) [] "format"
        s.format "" path (redudancy_fields-Skips J s.redudancy "format" refl) (refl, refl),
    bool_field J (ancillary_receiver_first J s) (redudancy_fields J s.redudancy) [] "enable"
        s.enable false path (redudancy_fields-Skips J s.redudancy "enable" refl) (refl, refl),
    string_field J (ancillary_receiver_first J s) (redudancy_fields J s.redudancy) [] "source_ip"
        s.source_ip "" path (redudancy_fields-Skips J s.redudancy "source_ip" refl) (refl, refl),
    string_field J (ancillary_receiver_first J s) (redudancy_fields J s.redudancy) [] "ip" s.ip ""
        path (redudancy_fields-Skips J s.redudancy "ip" refl) (refl, refl),
    int_field J (ancillary_receiver_first J s) (redudancy_fields J s.redudancy) [] "port" s.port
        (pos 0) path (redudancy_fields-Skips J s.redudancy "port" refl) (refl, refl),
    redudancy_field-fields J (ancillary_receiver_first J s) [] (λ d. refl, λ b. refl)
        (λ d. refl, λ b. refl) junk s.redudancy path,
  )
