-- ===== src/App/Examples.antt =====
-- Instances of the theorems on src/daemon/app.cpp: the test node, the JSON tree, a snapshot of two
-- ancillary senders, and a change to another snapshot.
use nmos_client.Base.Exec.{Exec}
use nmos_client.App.Config.{UriParser, apply_selected_registry_settings}
use nmos_client.App.Update.{update_node_config}
use nmos_client.App.UpdateLaws.{Outcome, update_node_config-Outcome}
use nmos_client.App.Settings.{
  JsonFile, persisted, write, write-KeepsSettings, persisted_settings, write_persisted_settings,
  parse_json_file, write_json_file,
}
use nmos_client.App.Merge.{merge_objects, merged_field, merge_objects-fields}
use nmos_client.Base.{
  err, Option, Except, ◌∷◌, ◌&&◌, ◌++◌, Bool, true, false, [], none, some, ok, pos, ◌≡◌, refl, ◌⊎◌,
  if◌then◌else◌, ◌≤ℤ◌, String, ◌==◌, string_eq,
}
use nmos_client.Json.Tree.{tree_json, Fields, field, int, obj, stop, nil, str, get, Tree}
use nmos_client.Dto.Types.{SnapshotChangedMessage}
use nmos_client.Dto.Messages.{make_streams_drained_message}
use nmos_client.Dto.Snapshot.{has_any_streams}
use nmos_client.Reconcile.Kind.{ancillary_sender}
use nmos_client.Reconcile.Engine.{drain_all}
use nmos_client.Reconcile.TestNode.{
  Held, held, held_by, test_node, test_node-IsRuntime, in_order, first_snapshot, second_snapshot,
  started,
}
use nmos_client.App.Store.{initial_store, mark_apply_success}
use nmos_client.App.State.{App, DaemonConfig, is_connected}
use nmos_client.App.Loop.{top, debounce, sync_loop_step}
use nmos_client.App.Handlers.{
  schedule_sync, on_snapshot_changed, handle_ws_connected, handle_ws_disconnected, perform_sync,
  reconnect_revision, restart_node_runtime,
}
use nmos_client.App.Schedule.{Scheduled, schedule_sync_lem, on_snapshot_changed-Scheduled}
use nmos_client.App.Sync.{Applied, Retrying, perform_sync-settles}
use nmos_client.App.Connection.{
  handle_ws_connected-reports, handle_ws_disconnected-drains, queued, handle_ws_disconnected-view,
}
use nmos_client.App.Protection.{Synchronised, reconnect-Scheduled}
use nmos_client.App.Reachable.{
  Reachable, here, further, signal, disconnected, IsConsistent, Reachable-IsConsistent,
}

abbrev config : DaemonConfig
config = record { snapshot_debounce_ms = pos 300; reconnect_interval_ms = pos 3000 }

-- Revision 7 is applied, the backend is connected and nothing is pending.
abbrev idle : App tree_json Held
idle = record {
  stop_requested = false;
  state_store = mark_apply_success (pos 7) first_snapshot true initial_store;
  node_runtime = started;
  ws_client = some (record { connected = true; send_queue = [] });
  sync_pending = false;
  force_sync_pending = false;
  pending_revision = pos 0;
  last_signal_time = 0;
  next_sync_not_before = 0;
  last_node_state = "running";
}

abbrev change : SnapshotChangedMessage
change = record { revision = pos 8; reason = "edit" }

-- A signal for revision 8 came at time 1000.
abbrev waiting : App tree_json Held
waiting = on_snapshot_changed 1000 change idle

abbrev gone : App tree_json Held
gone = (handle_ws_disconnected test_node idle).1

schedule_sync_lem_example :
    ((schedule_sync 500 (pos 7) idle ≡ idle)
      × (idle.force_sync_pending ≡ false)
      × (pos 7 ≤ℤ idle.state_store.status.last_applied_revision)
      × (idle.state_store.status.protection_mode ≡ false)
      × (idle.state_store.status.streams_registered ≡ true))
    ⊎ (Scheduled (pos 7) (schedule_sync 500 (pos 7) idle)
        × (idle.pending_revision ≤ℤ (schedule_sync 500 (pos 7) idle).pending_revision))
schedule_sync_lem_example = schedule_sync_lem 500 (pos 7) idle

on_snapshot_changed-Scheduled_example : Scheduled (pos 8) waiting
on_snapshot_changed-Scheduled_example = on_snapshot_changed-Scheduled 1000 change idle

perform_sync-settles_example :
    Applied test_node in_order config
      (ok second_snapshot)
      (pos 8)
      waiting
      (perform_sync test_node in_order config 1400 (ok second_snapshot) (pos 8) waiting)
    ⊎ Retrying test_node in_order config 1400
        (pos 8)
        waiting
        (perform_sync test_node in_order config 1400 (ok second_snapshot) (pos 8) waiting)
unfolding on_snapshot_changed schedule_sync
perform_sync-settles_example =
    perform_sync-settles test_node in_order config 1400 (ok second_snapshot) (pos 8) waiting refl

handle_ws_disconnected-drains_example :
    (drain_all test_node (some first_snapshot) started ≡ (ok tt, gone.node_runtime))
    × (gone.state_store.status.protection_mode ≡ true)
    × (gone.state_store.status.streams_registered ≡ false)
    × (gone.state_store.last_snapshot ≡ none)
    × (gone.state_store.pending_drain_notification ≡ true)
unfolding handle_ws_disconnected drain_all
handle_ws_disconnected-drains_example = handle_ws_disconnected-drains test_node idle gone refl

abbrev stop_node : Held → Held
stop_node s = s

abbrev start_node : Held → Bool × Held
start_node s = (true, s)

-- After the disconnection a change is signalled.
abbrev signalled : App tree_json Held
signalled = on_snapshot_changed 1000 change gone

reconnect-Scheduled_example :
    Scheduled (reconnect_revision signalled) (handle_ws_connected 9000 signalled)
    ⊎ Synchronised test_node in_order config stop_node start_node (top, gone) (top, signalled)
unfolding handle_ws_disconnected drain_all
reconnect-Scheduled_example =
    reconnect-Scheduled test_node in_order config stop_node start_node 9000 top idle gone
      (top, signalled) refl
      (further (top, gone) (top, signalled) here (signal 1000 change top gone))

handle_ws_disconnected-view_example : held ancillary_sender gone.node_runtime "b" ≡ none
unfolding handle_ws_disconnected drain_all
handle_ws_disconnected-view_example =
    handle_ws_disconnected-view test_node held_by test_node-IsRuntime idle gone first_snapshot refl
      refl ancillary_sender "b"

handle_ws_connected-reports_example :
    (queued (handle_ws_connected 9000 gone).ws_client ≡ (
      queued gone.ws_client
      ++ (if gone.state_store.pending_drain_notification && is_connected gone.ws_client
          then make_streams_drained_message tree_json ∷ []
          else [])))
    × (is_connected (handle_ws_connected 9000 gone).ws_client ≡ is_connected gone.ws_client)
    × ((handle_ws_connected 9000 gone).state_store.pending_drain_notification ≡ false)
handle_ws_connected-reports_example = handle_ws_connected-reports 9000 gone

-- What the loop leaves where it takes the revision at time 1400.
abbrev taken : App tree_json Held
taken = (sync_loop_step config 1400 (debounce 1300) waiting).1

Reachable-IsConsistent_example : IsConsistent (handle_ws_disconnected test_node waiting).1
unfolding has_any_streams
Reachable-IsConsistent_example =
    Reachable-IsConsistent test_node in_order config stop_node start_node (top, idle)
      (top, (handle_ws_disconnected test_node waiting).1) (refl, refl)
      (further (top, waiting) (top, (handle_ws_disconnected test_node waiting).1)
        (further (top, idle) (top, waiting) here (signal 1000 change top idle))
        (disconnected top waiting))

-- A patch that removes one field, changes a nested one and adds another.
abbrev old_settings : Fields
old_settings = field "a" (int (pos 1)) (field "n" (obj (field "x" (int (pos 2)) stop)) stop)

abbrev settings_patch : Fields
settings_patch =
    field "a" nil (field "n" (obj (field "y" (int (pos 3)) stop)) (field "b" (str "new") stop))

merge_test :
    merge_objects (obj old_settings) (obj settings_patch)
    ≡ ok (
        obj (
          field "n"
            (obj (field "x" (int (pos 2)) (field "y" (int (pos 3)) stop)))
            (field "b" (str "new") stop)))
unfolding merge_objects
merge_test = refl

merge_objects-fields_example :
    (result : Fields) × (merge_objects (obj old_settings) (obj settings_patch) ≡ ok (obj result))
    × ((j : String) → get j result ≡ merged_field (get j old_settings) (get j settings_patch))
merge_objects-fields_example =
    merge_objects-fields old_settings settings_patch (refl, (refl, (refl, tt)))

abbrev no_uris : UriParser
no_uris = record {
  Uri = String;
  parse = λ text. ok text;
  is_empty = λ uri. uri == "";
  host = λ uri. "";
  port = λ uri. pos 0;
  path = λ uri. uri;
}

-- A file that holds a tree, or nothing.
abbrev read_file : Option Tree → Except Tree
read_file none = err "no file"
read_file (some v) = ok v

abbrev test_file : JsonFile (Option Tree)
test_file = record {
  parse = read_file;
  overwrite = λ v f. (ok tt, some v);
  parse-overwrite = λ v f h. refl;
}

abbrev Settings : Type 0
Settings = Option Tree × Unit {0}

abbrev read_settings : Settings → Except Tree
read_settings = persisted test_file "node.json"

abbrev effective_settings : Settings → Tree
effective_settings s = obj stop

abbrev write_settings : Tree → Exec Settings (Unit {0})
write_settings = write test_file "node.json"

abbrev stop_settings : Settings → Settings
stop_settings s = (s.0, s.1)

abbrev never_starts : Settings → Bool × Settings
never_starts s = (false, (s.0, s.1))

-- A daemon whose runtime is its file of settings, with a node that does not start again.
abbrev with_settings : App tree_json Settings
with_settings = record {
  stop_requested = false;
  state_store = initial_store;
  node_runtime = (some (obj old_settings), tt);
  ws_client = none;
  sync_pending = false;
  force_sync_pending = false;
  pending_revision = pos 0;
  last_signal_time = 0;
  next_sync_not_before = 0;
  last_node_state = "running";
}

update_test :
    read_settings
      (update_node_config read_settings effective_settings write_settings stop_settings never_starts
        no_uris 10 20
        (obj settings_patch)
        false
        with_settings).1.node_runtime
    ≡ ok (obj old_settings)
unfolding update_node_config merge_objects apply_selected_registry_settings restart_node_runtime
    persisted_settings write_persisted_settings parse_json_file write_json_file
update_test = refl

update_node_config-Outcome_example :
    Outcome read_settings effective_settings write_settings stop_settings never_starts
      (write-KeepsSettings test_file "node.json" effective_settings (λ r. r) (λ r. (false, r)))
      no_uris
      (obj settings_patch)
      false
      with_settings
      (update_node_config read_settings effective_settings write_settings stop_settings never_starts
        no_uris 10 20
        (obj settings_patch)
        false
        with_settings)
update_node_config-Outcome_example =
    update_node_config-Outcome read_settings effective_settings write_settings stop_settings
      never_starts
      (write-KeepsSettings test_file "node.json" effective_settings (λ r. r) (λ r. (false, r)))
      no_uris (obj settings_patch) false with_settings 10 20
