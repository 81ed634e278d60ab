-- ===== src/Node/Lifecycle.antt =====
-- The start and the stop of a node, src/node.cpp: the state of its life, the thread that serves it,
-- and the sections of `start`, `stop` and the thread under the mutexes, each as one step.
use nmos_client.Base.{Bool, true, false, ◌||◌, Option, none, some, if◌then◌else◌}

pub data LifecycleState : Type 0 where
  stopped : LifecycleState
  starting : LifecycleState
  running : LifecycleState
  stopping : LifecycleState

-- Where the thread stands: there is none to join, it sets the server up, it waits for the signal to
-- stop, it is past the server, past `nmos_node_start`, or at its end.
pub data Worker : Type 0 where
  absent : Worker
  launching : Worker
  serving : Worker
  leaving : Worker
  ending : Worker
  ended : Worker

-- `shutdown` is the field of the node's model.
pub record Lifecycle : Type 0 where
  pub lifecycle_state : LifecycleState
  pub stop_requested : Bool
  pub needs_model_reset : Bool
  pub shutdown : Bool

abbrev pub new_lifecycle : Lifecycle
new_lifecycle = record {
  lifecycle_state = stopped;
  stop_requested = false;
  needs_model_reset = false;
  shutdown = false;
}

abbrev pub is_stopped : LifecycleState → Bool
is_stopped stopped = true
is_stopped _ = false

abbrev pub is_starting : LifecycleState → Bool
is_starting starting = true
is_starting _ = false

abbrev pub is_running : LifecycleState → Bool
is_running running = true
is_running _ = false

abbrev pub is_stopping : LifecycleState → Bool
is_stopping stopping = true
is_stopping _ = false

abbrev pub joinable : Worker → Bool
joinable absent = false
joinable _ = true

-- `stop_requested_ = false` and the reset of the model, of which `shutdown` is kept here.
unfoldable pub prepare_start : Lifecycle → Lifecycle
prepare_start s =
    if s.needs_model_reset
    then record s { stop_requested = false; needs_model_reset = false; shutdown = false }
    else record s { stop_requested = false }

-- The first section of `start`: what it returns at once, if it does not wait for the thread.
-- `can_launch` says whether std::thread can be made.
unfoldable pub start : Bool → Worker → Lifecycle → Option Bool × (Worker × Lifecycle)
unfolding prepare_start
start can_launch w s =
    if is_running s.lifecycle_state
    then (some true, (w, s))
    else (if is_starting s.lifecycle_state || is_stopping s.lifecycle_state || joinable w
        then (some false, (w, s))
        else (if can_launch
            then (none, (launching, record (prepare_start s) { lifecycle_state = starting }))
            else (
              some false,
              (w, record (prepare_start s) { lifecycle_state = stopped; stop_requested = false }),
            )))

-- The first section of `stop`, called by a thread that is not the node's.
unfoldable pub begin_stop : Lifecycle → Lifecycle
begin_stop s =
    if is_stopped s.lifecycle_state
    then s
    else record s { lifecycle_state = stopping; stop_requested = true }

-- The section of `stop` under the lock of the model.
unfoldable pub shut_down : Lifecycle → Lifecycle
shut_down s = record s { shutdown = true }

-- Whether `join` returns, or is not called.
abbrev pub is_joined : Worker → Bool
is_joined absent = true
is_joined ended = true
is_joined _ = false

-- `stop` after the join.
unfoldable pub end_stop : Lifecycle → Lifecycle
end_stop s = record s {
  lifecycle_state = stopped;
  stop_requested = false;
  needs_model_reset = true;
}

-- What the thread does next. `opens` says whether the server could be set up: an exception leads
-- past it. Without the signal, the wait goes on.
unfoldable pub worker_step : Bool → Worker → Lifecycle → Worker × Lifecycle
worker_step opens absent s = (absent, s)
worker_step opens launching s =
    if opens
    then (
      serving,
      if is_starting s.lifecycle_state then record s { lifecycle_state = running } else s,
    )
    else (leaving, s)
worker_step opens serving s = if s.stop_requested then (leaving, s) else (serving, s)
worker_step opens leaving s =
    (ending, if is_starting s.lifecycle_state then record s { lifecycle_state = stopped } else s)
worker_step opens ending s = (ended, record s { lifecycle_state = stopped; stop_requested = false })
worker_step opens ended s = (ended, s)
