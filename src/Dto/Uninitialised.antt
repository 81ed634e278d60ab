-- ===== src/Dto/Uninitialised.antt =====
-- The port of a redundancy that a snapshot leaves out: src/node.h gives it no initialiser, the
-- readers of src/daemon/dto.cpp do not set it, and `equivalent` compares it.
use nmos_client.Base.{String, false, ok, ℤ, ◌≡◌, ◌≢◌, arith, inl, inr, Bool-cases, ap}
use nmos_client.Json.{Json}
use nmos_client.Dto.Types.{VideoSender}
use nmos_client.Dto.Parse.{video_sender_from_json, redudancy_field, default_redudancy}
use nmos_client.Dto.Equivalent.{equivalent_video_sender}
use nmos_client.Dto.Equivalent.Laws.{equivalent_video_sender_iff}

module _ (J : Json) where
  open J use {Value, has_field}

  redudancy_of-video_sender :
      (junk : ℤ) (o : Value) (path : String) (s : VideoSender)
      → video_sender_from_json J junk o path ≡ ok s
      → redudancy_field J junk o path ≡ ok s.redudancy
  unfolding video_sender_from_json
  redudancy_of-video_sender junk o path s h = ground arith

  redudancy_field-left_out :
      (junk : ℤ) (o : Value) (path : String)
      → has_field o "redudancy" ≡ false
      → redudancy_field J junk o path ≡ ok (default_redudancy junk)
  unfolding redudancy_field
  redudancy_field-left_out junk o path h = rw h

  -- Two readings of the same video sender object, which has no `redudancy` field, are not equivalent
  -- where the uninitialised memory holds different ports.
  pub equivalent-left_out :
      (o : Value) (path : String) (a b : ℤ) (s t : VideoSender)
      → has_field o "redudancy" ≡ false
      → a ≢ b
      → video_sender_from_json J a o path ≡ ok s
      → video_sender_from_json J b o path ≡ ok t
      → equivalent_video_sender s t ≡ false
  equivalent-left_out o path a b s t h d p q = elim (Bool-cases (equivalent_video_sender s t)) [
    | inl e ↦ absurd (d (ports ((equivalent_video_sender_iff s t).0 e)))
    | inr e ↦ e
  ]
    where
      ports : s ≡ record t { sender_id = s.sender_id } → a ≡ b
      ports e = ground (
        arith,
        ap (λ (v : VideoSender). v.redudancy.port) e,
        redudancy_of-video_sender a o path s p,
        redudancy_of-video_sender b o path t q,
        redudancy_field-left_out a o path h,
        redudancy_field-left_out b o path h,
      )
