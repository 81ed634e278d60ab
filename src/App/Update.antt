-- ===== src/App/Update.antt =====
-- `App::update_node_config` of src/daemon/app.cpp: the settings are written, the node is restarted, and
-- where that throws the previous settings are written back and the node is restarted again.
-- `persisted` and `effective` are what the runtime reads, `write` writes the settings: see Settings.
use nmos_client.Base.{ℕ, Bool, true, false, not, Except, ok, err, ◌>>=◌, if◌then◌else◌}
use nmos_client.Base.Exec.{Exec, ◌>>◌}
use nmos_client.Json.Tree.{Tree, obj, stop, field, tree_json}
use nmos_client.App.State.{App}
use nmos_client.App.Handlers.{restart_node_runtime, on_runtime}
use nmos_client.App.Merge.{merge_objects}
use nmos_client.App.Config.{UriParser, apply_selected_registry_settings, selected_registry_summary}

abbrev pub is_object : Tree → Bool
is_object (obj fs) = true
is_object _ = false

unfoldable pub next_settings : UriParser → Tree → Tree → Bool → Except Tree
unfolding merge_objects apply_selected_registry_settings
next_settings P previous patch replace_entire_document =
    (if replace_entire_document then ok patch else merge_objects previous patch)
    >>= apply_selected_registry_settings P

module _ {S : Type 0} (persisted : S → Except Tree) (effective : S → Tree)
    (write : Tree → Exec S (Unit {0})) (stop_node : S → S) (start_node : S → Bool × S) where
  abbrev pub restart : ℕ → Exec (App tree_json S) (Unit {0})
  unfolding restart_node_runtime
  restart now = restart_node_runtime stop_node start_node now

  abbrev pub summarised : Tree → Except Tree → App tree_json S → Except Tree × App tree_json S
  summarised next (err e) a = (err e, a)
  summarised next (ok summary) a = (
    ok (
        obj (
          field "persisted" next (
            field "effective" (effective a.node_runtime)
              (field "selected_registry" summary stop)))),
    a,
  )

  -- After the restart: the exception leaves the method also where the way back throws.
  abbrev pub restarted :
      ℕ → Tree → Tree → Except (Unit {0}) × App tree_json S → Except Tree × App tree_json S
  unfolding restart_node_runtime selected_registry_summary
  restarted back previous next (ok u, a) = summarised next (selected_registry_summary next) a
  restarted back previous next (err e, a) =
      (err e, ((on_runtime (write previous) >> restart back) a).1)

  abbrev pub written :
      ℕ → ℕ → Tree → Tree → Except (Unit {0}) × App tree_json S → Except Tree × App tree_json S
  unfolding restart_node_runtime selected_registry_summary
  written now back previous next (ok u, a) = restarted back previous next (restart now a)
  written now back previous next (err e, a) = (err e, a)

  abbrev pub prepared : ℕ → ℕ → Tree → Except Tree → App tree_json S → Except Tree × App tree_json S
  unfolding restart_node_runtime selected_registry_summary
  prepared now back previous (err e) a = (err e, a)
  prepared now back previous (ok next) a =
      written now back previous next (on_runtime (write next) a)

  -- After the reading of the persisted settings, which may throw.
  abbrev pub patched :
      UriParser
      → ℕ
      → ℕ
      → Tree
      → Bool
      → Except Tree
      → App tree_json S
      → Except Tree × App tree_json S
  unfolding next_settings restart_node_runtime selected_registry_summary
  patched P now back patch replace_entire_document (err e) a = (err e, a)
  patched P now back patch replace_entire_document (ok previous) a =
      prepared now back previous (next_settings P previous patch replace_entire_document) a

  -- `now` and `back` are the times of the two restarts.
  unfoldable pub update_node_config :
      UriParser → ℕ → ℕ → Tree → Bool → App tree_json S → Except Tree × App tree_json S
  unfolding next_settings restart_node_runtime selected_registry_summary
  update_node_config P now back patch replace_entire_document a =
      if not (is_object patch)
      then (err "node config payload must be a JSON object", a)
      else patched P now back patch replace_entire_document (persisted a.node_runtime) a
