-- ===== src/Node/LifecycleExamples.antt =====
-- Instances of the theorems on the start and the stop of a node, src/node.cpp.
use nmos_client.Base.{[], ◌∷◌, true, ◌≡◌, inl, refl}
use nmos_client.Node.Lifecycle.{
  Worker, absent, serving, Lifecycle, new_lifecycle, running, start, prepare_start, end_stop,
  is_joined, worker_step,
}
use nmos_client.Node.LifecycleLaws.{
  idle, stopped_at, Machine, call_start, work, Reachable, here, further, IsSound, steps,
  IsRestartable, Reachable-IsSound, stop-returns,
}

-- A node that is started, serves and is stopped.
abbrev launched : Worker × Lifecycle
launched = (start true absent new_lifecycle).1

abbrev served : Worker × Lifecycle
served = worker_step true launched.0 launched.1

abbrev at_work : Machine
at_work = (idle, served)

serves : served.0 ≡ serving
unfolding start prepare_start worker_step
serves = refl

runs : served.1.lifecycle_state ≡ running
unfolding start prepare_start worker_step
runs = refl

new_lifecycle-IsSound : IsSound (idle, (absent, new_lifecycle))
new_lifecycle-IsSound = (refl, refl, inl refl)

at_work-Reachable : Reachable (idle, (absent, new_lifecycle)) at_work
at_work-Reachable =
    further (idle, launched) at_work
      (further (idle, (absent, new_lifecycle)) (idle, launched) here
        (call_start true absent new_lifecycle))
      (work true idle launched.0 launched.1)

stop-returns_example :
    (is_joined (steps true true true true (stopped_at (true ∷ []) served.0 served.1)).0 ≡ true)
    × IsRestartable
        (end_stop (steps true true true true (stopped_at (true ∷ []) served.0 served.1)).1)
stop-returns_example = stop-returns (true ∷ []) true true true true served.0 served.1 (
    Reachable-IsSound (idle, (absent, new_lifecycle)) at_work new_lifecycle-IsSound
      at_work-Reachable)
