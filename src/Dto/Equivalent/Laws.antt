-- ===== src/Dto/Equivalent/Laws.antt =====
-- What the `equivalent` overloads of src/daemon/dto.cpp decide.
use nmos_client.Base.{
  true, ◌≡◌, ◌↔◌, refl, string_iff, same_bool_iff, eqb_ℤ_iff, arith, same_list_iff, list_eq,
  string_eq, bool_eq, int_eq, ==-refl, String,
}
use nmos_client.Dto.Types.{
  Redudancy, VideoSender, AudioSender, AncillarySender, VideoReceiver, AncillaryReceiver,
}
use nmos_client.Dto.Equivalent.{
  equivalent_redudancy, equivalent_video_sender, equivalent_audio_sender,
  equivalent_ancillary_sender, equivalent_video_receiver, equivalent_ancillary_receiver,
}

-- `equivalent` on redundancies decides equality of all five fields, the port of an absent one included.
pub equivalent_redudancy_iff : (l r : Redudancy) → (equivalent_redudancy l r ≡ true) ↔ (l ≡ r)
unfolding equivalent_redudancy
equivalent_redudancy_iff l r = (
  λ h. ground (
    arith,
    same_bool_iff l.present r.present,
    same_bool_iff l.enable r.enable,
    string_iff l.source_ip r.source_ip,
    string_iff l.ip r.ip,
    eqb_ℤ_iff l.port r.port,
  ),
  λ h. rw h (self r),
)
  where
    self : (r : Redudancy) → equivalent_redudancy r r ≡ true
    self r =
        rw (==-refl r.present, ==-refl r.enable, ==-refl r.source_ip, ==-refl r.ip, ==-refl r.port)

-- Two video senders are equivalent exactly when they are equal but for their sender ids.
pub equivalent_video_sender_iff :
    (l r : VideoSender)
    → (equivalent_video_sender l r ≡ true) ↔ (l ≡ record r { sender_id = l.sender_id })
unfolding equivalent_video_sender
equivalent_video_sender_iff l r = (
  λ h. ground (
    arith,
    string_iff l.id r.id,
    string_iff l.name r.name,
    same_bool_iff l.enable r.enable,
    string_iff l.video_format r.video_format,
    string_iff l.colorspace r.colorspace,
    string_iff l.transfer_characteristics r.transfer_characteristics,
    string_iff l.source_ip r.source_ip,
    string_iff l.ip r.ip,
    eqb_ℤ_iff l.port r.port,
    equivalent_redudancy_iff l.redudancy r.redudancy,
    eqb_ℤ_iff l.pg_format r.pg_format,
  ),
  λ h. rw h (self r l.sender_id),
)
  where
    self :
        (r : VideoSender) (i : String)
        → equivalent_video_sender (record r { sender_id = i }) r ≡ true
    self r i = rw (
      ==-refl r.id,
      ==-refl r.name,
      ==-refl r.enable,
      ==-refl r.video_format,
      ==-refl r.colorspace,
      ==-refl r.transfer_characteristics,
      ==-refl r.source_ip,
      ==-refl r.ip,
      ==-refl r.port,
      (equivalent_redudancy_iff r.redudancy r.redudancy).1 refl,
      ==-refl r.pg_format,
    )

-- Two audio senders are equivalent exactly when they are equal but for their sender ids.
pub equivalent_audio_sender_iff :
    (l r : AudioSender)
    → (equivalent_audio_sender l r ≡ true) ↔ (l ≡ record r { sender_id = l.sender_id })
unfolding equivalent_audio_sender
equivalent_audio_sender_iff l r = (
  λ h. ground (
    arith,
    string_iff l.id r.id,
    string_iff l.name r.name,
    string_iff l.source_ip r.source_ip,
    same_bool_iff l.enable r.enable,
    eqb_ℤ_iff l.channel_count r.channel_count,
    eqb_ℤ_iff l.bit_depth r.bit_depth,
    eqb_ℤ_iff l.sample_rate r.sample_rate,
    string_iff l.ip r.ip,
    eqb_ℤ_iff l.port r.port,
    equivalent_redudancy_iff l.redudancy r.redudancy,
  ),
  λ h. rw h (self r l.sender_id),
)
  where
    self :
        (r : AudioSender) (i : String)
        → equivalent_audio_sender (record r { sender_id = i }) r ≡ true
    self r i = rw (
      ==-refl r.id,
      ==-refl r.name,
      ==-refl r.source_ip,
      ==-refl r.enable,
      ==-refl r.channel_count,
      ==-refl r.bit_depth,
      ==-refl r.sample_rate,
      ==-refl r.ip,
      ==-refl r.port,
      (equivalent_redudancy_iff r.redudancy r.redudancy).1 refl,
    )

-- Two ancillary senders are equivalent exactly when they are equal but for their sender ids.
pub equivalent_ancillary_sender_iff :
    (l r : AncillarySender)
    → (equivalent_ancillary_sender l r ≡ true) ↔ (l ≡ record r { sender_id = l.sender_id })
unfolding equivalent_ancillary_sender
equivalent_ancillary_sender_iff l r = (
  λ h. ground (
    arith,
    string_iff l.id r.id,
    string_iff l.name r.name,
    string_iff l.source_ip r.source_ip,
    string_iff l.format r.format,
    same_bool_iff l.enable r.enable,
    string_iff l.ip r.ip,
    eqb_ℤ_iff l.port r.port,
    equivalent_redudancy_iff l.redudancy r.redudancy,
  ),
  λ h. rw h (self r l.sender_id),
)
  where
    self :
        (r : AncillarySender) (i : String)
        → equivalent_ancillary_sender (record r { sender_id = i }) r ≡ true
    self r i = rw (
      ==-refl r.id,
      ==-refl r.name,
      ==-refl r.source_ip,
      ==-refl r.format,
      ==-refl r.enable,
      ==-refl r.ip,
      ==-refl r.port,
      (equivalent_redudancy_iff r.redudancy r.redudancy).1 refl,
    )

-- Two video receivers are equivalent exactly when they are equal, capabilities included.
pub equivalent_video_receiver_iff :
    (l r : VideoReceiver) → (equivalent_video_receiver l r ≡ true) ↔ (l ≡ r)
unfolding equivalent_video_receiver
equivalent_video_receiver_iff l r = (
  λ h. ground (
    arith,
    string_iff l.id r.id,
    string_iff l.name r.name,
    same_bool_iff l.enable r.enable,
    string_iff l.source_ip r.source_ip,
    string_iff l.ip r.ip,
    eqb_ℤ_iff l.port r.port,
    equivalent_redudancy_iff l.redudancy r.redudancy,
    string_iff l.format r.format,
    string_iff l.colorspace r.colorspace,
    string_iff l.transfer_characteristics r.transfer_characteristics,
    same_list_iff l.caps.formats r.caps.formats,
    same_list_iff l.caps.colorspaces r.caps.colorspaces,
    same_list_iff l.caps.transfer_characteristics r.caps.transfer_characteristics,
  ),
  λ h. rw h (self r),
)
  where
    self : (r : VideoReceiver) → equivalent_video_receiver r r ≡ true
    self r = rw (
      ==-refl r.id,
      ==-refl r.name,
      ==-refl r.enable,
      ==-refl r.source_ip,
      ==-refl r.ip,
      ==-refl r.port,
      (equivalent_redudancy_iff r.redudancy r.redudancy).1 refl,
      ==-refl r.format,
      ==-refl r.colorspace,
      ==-refl r.transfer_characteristics,
      ==-refl r.caps.formats,
      ==-refl r.caps.colorspaces,
      ==-refl r.caps.transfer_characteristics,
    )

-- Two ancillary receivers are equivalent exactly when they are equal.
pub equivalent_ancillary_receiver_iff :
    (l r : AncillaryReceiver) → (equivalent_ancillary_receiver l r ≡ true) ↔ (l ≡ r)
unfolding equivalent_ancillary_receiver
equivalent_ancillary_receiver_iff l r = (
  λ h. ground (
    arith,
    string_iff l.id r.id,
    string_iff l.name r.name,
    string_iff l.format r.format,
    same_bool_iff l.enable r.enable,
    string_iff l.ip r.ip,
    string_iff l.source_ip r.source_ip,
    eqb_ℤ_iff l.port r.port,
    equivalent_redudancy_iff l.redudancy r.redudancy,
  ),
  λ h. rw h (self r),
)
  where
    self : (r : AncillaryReceiver) → equivalent_ancillary_receiver r r ≡ true
    self r = rw (
      ==-refl r.id,
      ==-refl r.name,
      ==-refl r.format,
      ==-refl r.enable,
      ==-refl r.ip,
      ==-refl r.source_ip,
      ==-refl r.port,
      (equivalent_redudancy_iff r.redudancy r.redudancy).1 refl,
    )
