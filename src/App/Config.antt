-- ===== src/App/Config.antt =====
-- The configuration of the node in src/daemon/app.cpp: the selected registry, and the change of the
-- settings with its way back. The settings are a JSON tree; `web::uri` is a parameter.
use Prim.Native.Char.{code}
use Prim.Native.String.{[], ◌∷◌}
use nmos_client.Base.{
  String, Bool, true, false, Option, none, some, Except, ok, err, ◌>>=◌, ℤ, pos, ◌==◌, string_eq,
  if◌then◌else◌, eqb, or_else,
}
use nmos_client.Json.Tree.{Tree, Fields, nil, str, int, bool, obj, stop, field, get, put, tree_json}
use nmos_client.App.Merge.{erase}

pub record UriParser : Type 1 where
  pub Uri : Type 0
  pub parse : String → Except Uri
  pub is_empty : Uri → Bool
  pub host : Uri → String
  pub port : Uri → ℤ
  pub path : Uri → String

-- What follows the last '/', if there is one.
unfoldable pub after_last_slash : String → Option String
after_last_slash [] = none
after_last_slash (c ∷ s) = or_else (after_last_slash s) (if eqb (code c) 47 then some s else none)

-- The field, if it is there and not null.
abbrev pub present : Tree → String → Option Tree
present (obj fs) name = elim (get name fs) [ none ↦ none | some nil ↦ none | some v ↦ some v ]
present _ name = none

abbrev pub or_default : {A : Type 0} → (Tree → Except A) → A → Option Tree → Except A
or_default as_value fallback none = ok fallback
or_default as_value fallback (some v) = as_value v

abbrev pub get_string_or_empty : Tree → String → Except String
get_string_or_empty object name = or_default tree_json.as_string "" (present object name)

abbrev pub get_int_or_default : Tree → String → ℤ → Except ℤ
get_int_or_default object name fallback =
    or_default tree_json.as_integer fallback (present object name)

abbrev pub get_bool_or_default : Tree → String → Bool → Except Bool
get_bool_or_default object name fallback =
    or_default tree_json.as_bool fallback (present object name)

unfoldable pub selected_registry_summary : Tree → Except Tree
selected_registry_summary settings = do
  selected ← get_string_or_empty settings "selected_registry_uri"
  discovery ← get_bool_or_default settings "discovery_enabled" true
  address ← get_string_or_empty settings "registry_address"
  port ← get_int_or_default settings "registration_port" (pos 3210)
  version ← get_string_or_empty settings "registry_version"
  highest ← get_int_or_default settings "highest_pri" (pos 0)
  lowest ← get_int_or_default settings "lowest_pri" (pos 2147483647)
  ok (
      obj (
        field "selected_registry_uri" (str selected) (
          field "discovery_enabled" (bool discovery) (
            field "registry_address" (str address) (
              field "registration_port" (int port) (
                field "registry_version" (str version)
                  (field "highest_pri" (int highest) (field "lowest_pri" (int lowest) stop))))))))

module _ (P : UriParser) where
  abbrev pub registry_fields : P.Uri → String → Bool → Fields → Fields
  registry_fields uri version discovery_enabled settings = put "lowest_pri" (int (pos 2147483647)) (
      put "highest_pri" (int (if discovery_enabled then pos 0 else pos 2147483647)) (
        put "registry_version" (str version) (
          put "registration_port" (int (P.port uri))
            (put "registry_address" (str (P.host uri)) settings))))

  abbrev pub with_version : P.Uri → Fields → Option String → Except Tree
  with_version uri settings none =
      err "selected_registry_uri must include /x-nmos/registration/{version}"
  with_version uri settings (some version) =
      if version == ""
      then err "selected_registry_uri must include /x-nmos/registration/{version}"
      else (get_bool_or_default (obj settings) "discovery_enabled" false >>= λ discovery_enabled.
          ok (obj (registry_fields uri version discovery_enabled settings)))

  abbrev pub with_registry : Fields → Option Tree → Except Tree
  unfolding erase after_last_slash
  with_registry settings none = ok (obj settings)
  with_registry settings (some nil) = ok (obj (erase "selected_registry_uri" settings))
  with_registry settings (some (str selected)) = P.parse selected >>= λ uri.
      if P.is_empty uri
      then err "selected_registry_uri must not be empty"
      else with_version uri settings (after_last_slash (P.path uri))
  with_registry settings (some v) = err "selected_registry_uri must be a string"

  unfoldable pub apply_selected_registry_settings : Tree → Except Tree
  unfolding erase after_last_slash
  apply_selected_registry_settings (obj settings) =
      with_registry settings (get "selected_registry_uri" settings)
  apply_selected_registry_settings _ = err "node config payload must be a JSON object"
