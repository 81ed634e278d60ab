-- ===== src/Dto/Nested.antt =====
-- The nested objects that the writers of src/daemon/dto.cpp build, `redudancy` and `caps`, read back.
use nmos_client.Base.{
  String, Bool, true, false, List, [], ◌∷◌, ◌++◌, ok, ℤ, pos, ◌≡◌, refl, ◌∙◌, ap, string_eq,
  if◌then◌else◌,
}
use nmos_client.Json.{Json}
use nmos_client.Dto.Types.{Redudancy}
use nmos_client.Dto.Fields.{field_path}
use nmos_client.Dto.Parse.{default_redudancy, redudancy_from_json, redudancy_field}
use nmos_client.Dto.Print.{make_object, redudancy_fields, redudancy_to_json}
use nmos_client.Dto.Objects.{
  assigned, mentions, assigned-append, mentions-append, is_object-make_object, at-make_object,
  has_field-make_object, Skips, string_field, int_field, bool_field,
}

-- What reading a printed `Redudancy` gives: one that is not present is not printed.
abbrev pub read_back : ℤ → Redudancy → Redudancy
read_back junk r = if r.present then r else default_redudancy junk

module _ (J : Json) where
  open J use {Value, is_object, has_field, at, object}

  pub no_skip : (j : String) → Skips J j []
  no_skip j = (λ d. refl, λ b. refl)

  -- Reading at the one field of `one` in the middle of others.
  module _ (pre rest : List (String × Value)) (j : String) (p : Skips J j pre)
      (q : Skips J j rest) where
    pub has_field-middle :
        (one : List (String × Value))
        → has_field (make_object J (pre ++ (one ++ rest))) j ≡ mentions J j false one
    has_field-middle one =
        has_field-make_object J j (pre ++ (one ++ rest))
        ∙ mentions-append J j false pre (one ++ rest)
        ∙ ap (λ b. mentions J j b (one ++ rest)) (p.1 false)
        ∙ mentions-append J j false one rest
        ∙ q.1 (mentions J j false one)

    pub at-middle :
        (one : List (String × Value))
        → at (make_object J (pre ++ (one ++ rest))) j ≡ assigned J j (at object j) one
    at-middle one =
        at-make_object J j (pre ++ (one ++ rest))
        ∙ assigned-append J j (at object j) pre (one ++ rest)
        ∙ ap (λ d. assigned J j d (one ++ rest)) (p.0 (at object j))
        ∙ assigned-append J j (at object j) one rest
        ∙ q.0 (assigned J j (at object j) one)

  abbrev nested_fields : Redudancy → List (String × Value)
  nested_fields r =
      ("enable", J.boolean r.enable)
      ∷ ("source_ip", J.string r.source_ip)
      ∷ ("ip", J.string r.ip)
      ∷ ("port", J.number r.port)
      ∷ []

  -- Reading a printed `Redudancy` gives it back, marked as present.
  pub redudancy-roundtrip :
      (r : Redudancy) (path : String)
      → redudancy_from_json J (redudancy_to_json J r) path ≡ ok (record r { present = true })
  unfolding redudancy_from_json redudancy_to_json
  redudancy-roundtrip r path = rw (
    is_object-make_object J (nested_fields r),
    bool_field J (nested_fields r) [] [] "enable" r.enable false path (no_skip "enable")
        (refl, refl),
    string_field J (nested_fields r) [] [] "source_ip" r.source_ip "" path (no_skip "source_ip")
        (refl, refl),
    string_field J (nested_fields r) [] [] "ip" r.ip "" path (no_skip "ip") (refl, refl),
    int_field J (nested_fields r) [] [] "port" r.port (pos 0) path (no_skip "port") (refl, refl),
  )

  -- The `redudancy` field of a printed stream reads back.
  module _ (pre rest : List (String × Value)) (p : Skips J "redudancy" pre)
      (q : Skips J "redudancy" rest) where
    redudancy_field-present :
        (junk : ℤ) (r : Redudancy) (path : String)
        → redudancy_field J junk
            (make_object J (pre ++ ((("redudancy", redudancy_to_json J r) ∷ []) ++ rest)))
            path
          ≡ ok (record r { present = true })
    unfolding redudancy_field
    redudancy_field-present junk r path =
        let one : List (String × Value) = ("redudancy", redudancy_to_json J r) ∷ [] in
        rw (has_field-middle pre rest "redudancy" p q one, at-middle pre rest "redudancy" p q one)
          (redudancy-roundtrip r (field_path path "redudancy"))

    redudancy_field-absent :
        (junk : ℤ) (path : String)
        → redudancy_field J junk (make_object J (pre ++ ([] ++ rest))) path
          ≡ ok (default_redudancy junk)
    unfolding redudancy_field
    redudancy_field-absent junk path = rw (has_field-middle pre rest "redudancy" p q [])

    pub redudancy_field-fields :
        (junk : ℤ) (r : Redudancy) (path : String)
        → redudancy_field J junk (make_object J (pre ++ (redudancy_fields J r ++ rest))) path
          ≡ ok (read_back junk r)
    redudancy_field-fields junk r path = go r.present r.enable r.source_ip r.ip r.port
      where
        go :
            (present enable : Bool) (source_ip ip : String) (port : ℤ)
            → let r' : Redudancy = record {
              present = present;
              enable = enable;
              source_ip = source_ip;
              ip = ip;
              port = port;
            } in
              redudancy_field J junk (make_object J (pre ++ (redudancy_fields J r' ++ rest))) path
              ≡ ok (read_back junk r')
        go true enable source_ip ip port =
            redudancy_field-present junk
              (record {
                present = true;
                enable = enable;
                source_ip = source_ip;
                ip = ip;
                port = port;
              })
              path
        go false enable source_ip ip port = redudancy_field-absent junk path
