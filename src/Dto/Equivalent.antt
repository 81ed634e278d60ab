-- ===== src/Dto/Equivalent.antt =====
-- The `equivalent` overloads of src/daemon/dto.cpp and the `operator==` of src/daemon/dto.h.
pub mod Laws
use nmos_client.Base.{
  Bool, true, false, ◌&&◌, List, [], ◌∷◌, ◌==◌, string_eq, bool_eq, int_eq, list_eq,
}
use nmos_client.Dto.Types.{
  Redudancy, VideoSender, AudioSender, AncillarySender, VideoReceiver, AudioReceiver,
  AncillaryReceiver, Entry, PtpClockDto, DeviceDto,
}

unfoldable pub equivalent_redudancy : Redudancy → Redudancy → Bool
equivalent_redudancy lhs rhs =
    lhs.present == rhs.present
    && (lhs.enable == rhs.enable
        && (lhs.source_ip == rhs.source_ip && (lhs.ip == rhs.ip && (lhs.port == rhs.port))))

unfoldable pub equivalent_video_sender : VideoSender → VideoSender → Bool
unfolding equivalent_redudancy
equivalent_video_sender lhs rhs =
    lhs.id == rhs.id
    && (lhs.name == rhs.name
        && (lhs.enable == rhs.enable
            && (lhs.video_format == rhs.video_format
                && (lhs.colorspace == rhs.colorspace
                    && (lhs.transfer_characteristics == rhs.transfer_characteristics
                        && (lhs.source_ip == rhs.source_ip
                            && (lhs.ip == rhs.ip
                                && (lhs.port == rhs.port
                                    && (equivalent_redudancy lhs.redudancy rhs.redudancy
                                        && (lhs.pg_format == rhs.pg_format))))))))))

unfoldable pub equivalent_audio_sender : AudioSender → AudioSender → Bool
unfolding equivalent_redudancy
equivalent_audio_sender lhs rhs =
    lhs.id == rhs.id
    && (lhs.name == rhs.name
        && (lhs.source_ip == rhs.source_ip
            && (lhs.enable == rhs.enable
                && (lhs.channel_count == rhs.channel_count
                    && (lhs.bit_depth == rhs.bit_depth
                        && (lhs.sample_rate == rhs.sample_rate
                            && (lhs.ip == rhs.ip
                                && (lhs.port == rhs.port
                                    && (equivalent_redudancy lhs.redudancy rhs.redudancy)))))))))

unfoldable pub equivalent_ancillary_sender : AncillarySender → AncillarySender → Bool
unfolding equivalent_redudancy
equivalent_ancillary_sender lhs rhs =
    lhs.id == rhs.id
    && (lhs.name == rhs.name
        && (lhs.source_ip == rhs.source_ip
            && (lhs.format == rhs.format
                && (lhs.enable == rhs.enable
                    && (lhs.ip == rhs.ip
                        && (lhs.port == rhs.port
                            && (equivalent_redudancy lhs.redudancy rhs.redudancy)))))))

unfoldable pub equivalent_video_receiver : VideoReceiver → VideoReceiver → Bool
unfolding equivalent_redudancy
equivalent_video_receiver lhs rhs =
    lhs.id == rhs.id
    && (lhs.name == rhs.name
        && (lhs.enable == rhs.enable
            && (lhs.source_ip == rhs.source_ip
                && (lhs.ip == rhs.ip
                    && (lhs.port == rhs.port
                        && (equivalent_redudancy lhs.redudancy rhs.redudancy
                            && (lhs.format == rhs.format
                                && (lhs.colorspace == rhs.colorspace
                                    && (lhs.transfer_characteristics == rhs.transfer_characteristics
                                        && (lhs.caps.formats == rhs.caps.formats
                                            && (lhs.caps.colorspaces == rhs.caps.colorspaces
                                                && (lhs.caps.transfer_characteristics
                                                    == rhs.caps.transfer_characteristics))))))))))))

unfoldable pub equivalent_ancillary_receiver : AncillaryReceiver → AncillaryReceiver → Bool
unfolding equivalent_redudancy
equivalent_ancillary_receiver lhs rhs =
    lhs.id == rhs.id
    && (lhs.name == rhs.name
        && (lhs.format == rhs.format
            && (lhs.enable == rhs.enable
                && (lhs.ip == rhs.ip
                    && (lhs.source_ip == rhs.source_ip
                        && (lhs.port == rhs.port
                            && (equivalent_redudancy lhs.redudancy rhs.redudancy)))))))

unfoldable pub equivalent_device : DeviceDto → DeviceDto → Bool
equivalent_device lhs rhs =
    lhs.device == rhs.device
    && (lhs.display_name == rhs.display_name
        && (lhs.enable == rhs.enable && (lhs.id == rhs.id && (lhs.sip == rhs.sip))))

-- operator!= of std::vector<DeviceDto>, negated
unfoldable pub same_devices : List DeviceDto → List DeviceDto → Bool
unfolding equivalent_device
same_devices [] [] = true
same_devices (d ∷ ds) (e ∷ es) = equivalent_device d e && same_devices ds es
same_devices _ _ = false

-- `double_eq` is `==` on doubles.
module _ {D : Type 0} (double_eq : D → D → Bool) where
  unfoldable pub equivalent_audio_receiver : AudioReceiver D → AudioReceiver D → Bool
  unfolding equivalent_redudancy
  equivalent_audio_receiver lhs rhs =
      lhs.id == rhs.id
      && (lhs.name == rhs.name
          && (lhs.enable == rhs.enable
              && (lhs.channel_count == rhs.channel_count
                  && (lhs.bit_depth == rhs.bit_depth
                      && (lhs.sample_rate == rhs.sample_rate
                          && (double_eq lhs.packet_time rhs.packet_time
                              && (lhs.ip == rhs.ip
                                  && (lhs.source_ip == rhs.source_ip
                                      && (lhs.port == rhs.port
                                          && (equivalent_redudancy lhs.redudancy
                                              rhs.redudancy))))))))))

  unfoldable pub same_entry : Entry D → Entry D → Bool
  same_entry lhs rhs =
      lhs.clock_accuracy == rhs.clock_accuracy
      && (lhs.clock_class == rhs.clock_class
          && (lhs.grandmaster_identity == rhs.grandmaster_identity
              && (lhs.grandmaster_priority1 == rhs.grandmaster_priority1
                  && (lhs.grandmaster_priority2 == rhs.grandmaster_priority2
                      && (lhs.is_active == rhs.is_active
                          && (lhs.is_connected == rhs.is_connected
                              && (lhs.is_locked == rhs.is_locked
                                  && (lhs.master_initialized == rhs.master_initialized
                                      && (lhs.master_port_id == rhs.master_port_id
                                          && (lhs.master_utc_offset == rhs.master_utc_offset
                                              && (double_eq lhs.offset rhs.offset
                                                  && (lhs.offset_scaled_log_variance
                                                        == rhs.offset_scaled_log_variance
                                                      && (lhs.t1_domain_number
                                                          == rhs.t1_domain_number)))))))))))))

  unfoldable pub same_entries : List (Entry D) → List (Entry D) → Bool
  unfolding same_entry
  same_entries [] [] = true
  same_entries (e ∷ es) (f ∷ fs) = same_entry e f && same_entries es fs
  same_entries _ _ = false

  unfoldable pub equivalent_ptp_clock : PtpClockDto D → PtpClockDto D → Bool
  unfolding same_entries
  equivalent_ptp_clock lhs rhs = same_entries lhs.entries rhs.entries
