-- ===== src/Lib.antt =====
-- The synchronisation daemon of an NMOS client. A backend announces changes over a WebSocket; the
-- daemon fetches a snapshot of senders and receivers, brings the streams that the local NMOS node
-- holds in line with it, and reports back. The library is nmos_client, with these parts:
--
-- * Format models daemon/video_format.h and daemon/video_format.cpp: Desc has the enumerators and
--   the constructor, Table the list `format_descs`, Lookup the maps and `get`, `get_by_name` (the
--   overload of `get` for a name), `get_by_monitor_mode_name` and `get_max_audio_sample_num`.
-- * Json is the part of cpprest's `web::json::value` that the daemon uses: a record of operations
--   and their documented laws, a parameter of all that reads or prints JSON. Json/Tree is an
--   instance.
-- * Dto models the stream types of node.h and daemon/dto.h, daemon/dto.cpp: Fields has the helpers
--   that read one field, Parse and Ptp the `*_from_json` functions, Print the `*_to_json`
--   functions, Snapshot the whole snapshot and the message of a change, Messages the messages that
--   are sent, Equivalent the overloads of `equivalent`. An exception is an `err` with the text of
--   `what()`.
-- * Reconcile models daemon/reconcile_engine.cpp and the part of daemon/node_runtime.cpp that it
--   calls: Kind has the six kinds of stream, Runtime the calls of the node and their contract,
--   Engine `make_map`, `reconcile_list`, `apply_snapshot` and `drain_all`. A call may throw, and
--   what was changed before stays changed. KindLaws states for all six kinds at once what
--   printing, reading and `equivalent` do.
-- * Node models the streams of node.cpp and the ids of node_implementation.cpp, and the methods of
--   daemon/node_runtime.cpp that hand a stream on. Library is what the node uses of nmos-cpp, a
--   parameter: containers of resources and the calls that only assemble a resource from the values
--   given. Interfaces chooses the network interfaces of a stream, Gmid is the identity of a clock,
--   State the members of `Node::Impl`, Resources the functions `make_*_resources`, Steps the
--   insertion, removal and replacement of resources, Streams what `add_*` does to the model,
--   Methods the methods `add_*`, `update_*`, `remove_*`, `set_ptp_clock` and
--   `set_runtime_interfaces`. The source has each of them six times, or three times; here the kind
--   of stream is an argument, and tables by kind hold what differs, such as the texts of
--   exceptions and how often leftovers are erased before a sender is added (never for an ancillary
--   one, twice for an audio one). Runtime puts the methods together by kind as the runtime that
--   Reconcile asks for, Restart resets the model and adds the cached streams again, and Applied
--   runs the engine on it. Ids tells the ids of resources apart, Keeps and Yields are about the
--   single steps on the resources, and Registered to Reinserted about the resources of the streams.
--   Lifecycle models `start`, `stop` and the thread of the node.
-- * App models daemon/state_store.cpp (Store), the members of `App` in daemon/app.h (State), its
--   handlers, `schedule_sync`, `perform_sync` and `restart_node_runtime` in daemon/app.cpp
--   (Handlers), `sync_loop` (Loop), and all of them as one machine (Reachable). Merge, Config and
--   Update are `merge_objects`, the selected registry and `update_node_config`, and Settings is
--   `persisted_settings` and `write_persisted_settings` of node.cpp; they work on the JSON tree,
--   with `web::uri` and the file system as parameters. Both the reading and the writing may throw.
-- * Base has what the parts share: tests, integers, errors, lists, texts, an insertion-ordered
--   map, and methods that change a state and may throw.
--
-- The paths are those under src/. `D` stands for `double`; `double_eq` is its `==`. `junk` is what
-- uninitialised memory holds. The order in which an unordered map is walked is a parameter, of
-- which IsOrder says that it visits each entry once. The node is a parameter, of which IsRuntime
-- says that a call that returns has put its stream in place or taken it away and changed no other,
-- and that a call that throws has changed no stream. Times are milliseconds, and an interval that
-- is negative leads back to time 0 at most; what the clock says and what `fetch_snapshot` gives are
-- arguments.
--
-- Integers are copied and compared only, so nothing wraps but the cast of a device id to 32 bits,
-- which is written out; that no `int` overflows in the table of formats is proved. Loops are
-- structural; the only fuel is that of the decimal text of an index, which is the number itself
-- and so bounds its digits.
--
-- A method of the node holds the lock of the model, so it is one step; but `insert_resource_after`
-- and `remove_resource_after` give up at a shutdown, and `waits` lists for the coming waits
-- whether they see one. `add_*` and `update_*` call each other after their guards, which give the
-- same answer again as nothing else runs between, so the callee's body stands in the caller's
-- place. A node is a runtime on the states whose cached senders have the ids of their resources,
-- which all methods keep.
--
-- Not modelled: of node.cpp the set-up of the server, of which only the outcome is an argument,
-- calls that begin while a `stop` is under way, and the callbacks from the NMOS APIs; nmos-cpp
-- itself, the HTTP and WebSocket connections, the debug server, the reading of the daemon's own
-- configuration, threads below the level of one handler or one step of the loop
-- (`perform_sync` is one step), notifications of waiting threads, and logging.
pub mod Base
pub mod Format
pub mod Json
pub mod Dto
pub mod Reconcile
pub mod Node
pub mod App
