-- ===== src/Dto/Caps.antt =====
-- A video receiver's own nested fields in src/daemon/dto.cpp, `caps` and `redudancy_enable`, read
-- back from what the writers build.
use nmos_client.Base.{
  String, Bool, true, false, List, [], ◌∷◌, ◌++◌, ok, ℤ, ◌≡◌, refl, ◌==◌, string_eq, if◌then◌else◌,
}
use nmos_client.Json.{Json}
use nmos_client.Dto.Types.{Redudancy, VideoReceiverCaps}
use nmos_client.Dto.Fields.{absent, get_bool_or, field_path}
use nmos_client.Dto.Parse.{default_redudancy, receiver_redudancy_field, caps_field, no_caps}
use nmos_client.Dto.Print.{
  make_object, redudancy_fields, redudancy_to_json, caps_fields, caps_to_json,
  string_vector_to_json, has_caps,
}
use nmos_client.Dto.Objects.{is_object-make_object, Skips, strings_field}
use nmos_client.Dto.Nested.{read_back, no_skip, has_field-middle, at-middle, redudancy-roundtrip}

module _ (J : Json) where
  open J use {Value, is_object, has_field, at, object}

  module _ (pre rest : List (String × Value)) (p : Skips J "redudancy" pre)
      (q : Skips J "redudancy" rest) where
    receiver-present :
        (junk : ℤ) (r : Redudancy) (path : String)
        → receiver_redudancy_field J junk
            (make_object J (pre ++ ((("redudancy", redudancy_to_json J r) ∷ []) ++ rest)))
            path
          ≡ ok (record r { present = true })
    unfolding receiver_redudancy_field
    receiver-present junk r path =
        let one : List (String × Value) = ("redudancy", redudancy_to_json J r) ∷ [] in
        rw
          (
            has_field-middle J pre rest "redudancy" p q one,
            at-middle J pre rest "redudancy" p q one,
          )
          (redudancy-roundtrip J r (field_path path "redudancy"))

    module _ (p' : Skips J "redudancy_enable" pre) (q' : Skips J "redudancy_enable" rest) where
      receiver-absent :
          (junk : ℤ) (path : String)
          → receiver_redudancy_field J junk (make_object J (pre ++ ([] ++ rest))) path
            ≡ ok (default_redudancy junk)
      unfolding receiver_redudancy_field get_bool_or absent
      receiver-absent junk path = rw (
        has_field-middle J pre rest "redudancy" p q [],
        is_object-make_object J (pre ++ rest),
        has_field-middle J pre rest "redudancy_enable" p' q' [],
      )

      pub receiver_redudancy_field-fields :
          (junk : ℤ) (r : Redudancy) (path : String)
          → receiver_redudancy_field J junk
              (make_object J (pre ++ (redudancy_fields J r ++ rest)))
              path
            ≡ ok (read_back junk r)
      receiver_redudancy_field-fields junk r path = go r.present r.enable r.source_ip r.ip r.port
        where
          go :
              (present enable : Bool) (source_ip ip : String) (port : ℤ)
              → let r' : Redudancy = record {
                present = present;
                enable = enable;
                source_ip = source_ip;
                ip = ip;
                port = port;
              } in
                receiver_redudancy_field J junk
                  (make_object J (pre ++ (redudancy_fields J r' ++ rest)))
                  path
                ≡ ok (read_back junk r')
          go true enable source_ip ip port =
              receiver-present junk
                (record {
                  present = true;
                  enable = enable;
                  source_ip = source_ip;
                  ip = ip;
                  port = port;
                })
                path
          go false enable source_ip ip port = receiver-absent junk path

  abbrev caps_lists : VideoReceiverCaps → List (String × Value)
  caps_lists c =
      ("formats", string_vector_to_json J c.formats)
      ∷ ("colorspaces", string_vector_to_json J c.colorspaces)
      ∷ ("transfer_characteristics", string_vector_to_json J c.transfer_characteristics)
      ∷ []

  pub caps_fields-Skips :
      (c : VideoReceiverCaps) (j : String) → ("caps" == j) ≡ false → Skips J j (caps_fields J c)
  caps_fields-Skips c j h = go (has_caps J c)
    where
      go : (b : Bool) → Skips J j (if b then ("caps", caps_to_json J c) ∷ [] else [])
      go true = (λ d. rw h, λ b. rw h)
      go false = (λ d. refl, λ b. refl)

  module _ (pre rest : List (String × Value)) (p : Skips J "caps" pre)
      (q : Skips J "caps" rest) where
    caps_field-present :
        (c : VideoReceiverCaps) (path : String)
        → caps_field J (make_object J (pre ++ ((("caps", caps_to_json J c) ∷ []) ++ rest))) path
          ≡ ok c
    unfolding caps_field caps_to_json
    caps_field-present c path =
        let one : List (String × Value) = ("caps", caps_to_json J c) ∷ [] in
        rw (
          has_field-middle J pre rest "caps" p q one,
          at-middle J pre rest "caps" p q one,
          is_object-make_object J (caps_lists c),
          strings_field J (caps_lists c) [] [] "formats" c.formats (field_path path "caps")
              (no_skip J "formats") (refl, refl),
          strings_field J (caps_lists c) [] [] "colorspaces" c.colorspaces (field_path path "caps")
              (no_skip J "colorspaces") (refl, refl),
          strings_field J (caps_lists c) [] [] "transfer_characteristics" c.transfer_characteristics
              (field_path path "caps") (no_skip J "transfer_characteristics") (refl, refl),
        )

    caps_field-absent :
        (path : String) → caps_field J (make_object J (pre ++ ([] ++ rest))) path ≡ ok (no_caps J)
    unfolding caps_field
    caps_field-absent path = rw (has_field-middle J pre rest "caps" p q [])

    pub caps_field-fields :
        (c : VideoReceiverCaps) (path : String)
        → caps_field J (make_object J (pre ++ (caps_fields J c ++ rest))) path ≡ ok c
    caps_field-fields c path = go c.formats c.colorspaces c.transfer_characteristics
      where
        go :
            (fs cs ts : List String)
            → let c' : VideoReceiverCaps = record {
              formats = fs;
              colorspaces = cs;
              transfer_characteristics = ts;
            } in
              caps_field J (make_object J (pre ++ (caps_fields J c' ++ rest))) path ≡ ok c'
        go [] [] [] = caps_field-absent path
        go [] [] (t ∷ ts) =
            caps_field-present
              (record { formats = []; colorspaces = []; transfer_characteristics = t ∷ ts }) path
        go [] (s ∷ cs) ts =
            caps_field-present
              (record { formats = []; colorspaces = s ∷ cs; transfer_characteristics = ts }) path
        go (f ∷ fs) cs ts =
            caps_field-present
              (record { formats = f ∷ fs; colorspaces = cs; transfer_characteristics = ts }) path
