-- ===== src/App/Settings.antt =====
-- `persisted_settings` and `write_persisted_settings` of src/node.cpp, with the two helpers on the file
-- that they call. The file system is a parameter: what reading the file gives, as a JSON tree, and
-- what writing a tree over it does.
use nmos_client.Base.{
  if◌then◌else◌, String, Bool, not, Except, ok, err, ◌≡◌, refl, ◌==◌, string_eq, Bool-cases, inl,
  inr,
}
use nmos_client.Base.Exec.{Exec}
use nmos_client.Json.Tree.{Tree, obj, stop}
use nmos_client.App.Update.{is_object}
use nmos_client.App.UpdateLaws.{KeepsSettings}

pub record JsonFile (F : Type 0) : Type 0 where
  -- `std::ifstream` and `web::json::value::parse`
  pub parse : F → Except Tree
  -- `std::ofstream` with `trunc`, and `<<`
  pub overwrite : Tree → Exec F (Unit {0})
  -- What was written without a failure is read back.
  pub parse-overwrite :
      (v : Tree) (f : F) → (overwrite v f).0 ≡ ok tt → parse (overwrite v f).1 ≡ ok v

module _ {F : Type 0} (file : JsonFile F) where
  -- `parsed.as_object()` throws on what is no object.
  abbrev pub checked_object : Except Tree → Except Tree
  checked_object (err e) = err e
  checked_object (ok v) = if is_object v then ok v else err "not an object"

  unfoldable pub parse_json_file : F → Except Tree
  parse_json_file f = checked_object (file.parse f)

  unfoldable pub write_json_file : Tree → Exec F (Unit {0})
  write_json_file value f =
      if not (is_object value)
      then (err "node settings payload must be a JSON object", f)
      else file.overwrite value f

  unfoldable pub persisted_settings : String → F → Except Tree
  unfolding parse_json_file
  persisted_settings config_file f = if config_file == "" then ok (obj stop) else parse_json_file f

  unfoldable pub write_persisted_settings : String → Tree → Exec F (Unit {0})
  unfolding write_json_file
  write_persisted_settings config_file settings f =
      if config_file == ""
      then (err "node config file path is empty", f)
      else write_json_file settings f

  write-persists :
      (config_file : String) (v : Tree) (f : F)
      → (write_persisted_settings config_file v f).0 ≡ ok tt
      → persisted_settings config_file (write_persisted_settings config_file v f).1 ≡ ok v
  unfolding persisted_settings write_persisted_settings parse_json_file write_json_file
  write-persists config_file v f h = elim (Bool-cases (config_file == "")) [
    | inl e ↦ absurd (cc (rw e at h))
    | inr e ↦ elim (Bool-cases (is_object v)) [
      | inl o ↦ rw (e, o, file.parse-overwrite v f (rw (e, o) at h), o) refl
      | inr o ↦ absurd (cc (rw (e, o) at h))
    ]
  ]

  -- The settings of a runtime: its file, and a rest that a stop and a start may change.
  module _ {R : Type 0} (config_file : String) where
    abbrev pub persisted : F × R → Except Tree
    unfolding persisted_settings
    persisted s = persisted_settings config_file s.0

    abbrev pub write : Tree → Exec (F × R) (Unit {0})
    unfolding write_persisted_settings
    write v s = let r = write_persisted_settings config_file v s.0 in (r.0, (r.1, s.1))

    -- The node's methods are settings that are kept, where a stop and a start leave the file alone.
    pub write-KeepsSettings :
        (effective : F × R → Tree) (stop_rest : R → R) (start_rest : R → Bool × R)
        → KeepsSettings persisted effective write
            (λ s. (s.0, stop_rest s.1))
            (λ s. ((start_rest s.1).0, (s.0, (start_rest s.1).1)))
    unfolding persisted_settings write_persisted_settings
    write-KeepsSettings effective stop_rest start_rest = record {
      write_persists = λ v s h. write-persists config_file v s.0 h;
      stop_keeps = λ s. refl;
      start_keeps = λ s. refl;
    }
