-- ===== src/Node/LifecycleLaws.antt =====
-- The start and the stop of a node, src/node.cpp, in any order.
use nmos_client.Base.{
  [], ◌∷◌, List, ◌∷◌, List, Bool, true, false, none, ◌≡◌, ◌⊎◌, inl, inr, refl, Bool-cases,
}
use nmos_client.Node.Lifecycle.{
  shut_down, stopped, starting, running, stopping, Worker, absent, launching, serving, leaving,
  ending, ended, Lifecycle, prepare_start, start, begin_stop, is_joined, end_stop, worker_step,
}

-- Where a call of `stop` stands: there is none, it is past its first section, or past the one under
-- the lock of the model.
pub data Stop : Type 0 where
  idle : Stop
  requested : Stop
  joining : Stop

-- A node, and the `stop` that is under way.
abbrev pub Machine : Type 0
Machine = Stop × (Worker × Lifecycle)

-- What can happen: calls begin while no `stop` is under way, also while a `start` waits, and the
-- thread goes on at any time.
pub data Step : Machine → Machine → Type 0 where
  call_start :
      (can_launch : Bool) (w : Worker) (s : Lifecycle)
      → Step (idle, (w, s)) (idle, (start can_launch w s).1)
  call_stop : (w : Worker) (s : Lifecycle) → Step (idle, (w, s)) (requested, (w, begin_stop s))
  model_down : (w : Worker) (s : Lifecycle) → Step (requested, (w, s)) (joining, (w, shut_down s))
  return_stop :
      (w : Worker) (s : Lifecycle)
      → is_joined w ≡ true
      → Step (joining, (w, s)) (idle, (absent, end_stop s))
  work :
      (opens : Bool) (b : Stop) (w : Worker) (s : Lifecycle)
      → Step (b, (w, s)) (b, worker_step opens w s)

pub data Reachable (origin : Machine) : Machine → Type 0 where
  here : Reachable origin origin
  further : (x y : Machine) → Reachable origin x → Step x y → Reachable origin y

-- The state is the one that the thread's place calls for, and the model is shut down only while a
-- `stop` is under way, or before a reset of the model.
abbrev pub IsSound : Machine → Type 0
IsSound (idle, (absent, s)) =
    (s.lifecycle_state ≡ stopped)
    × (s.stop_requested ≡ false)
    × ((s.shutdown ≡ false) ⊎ (s.needs_model_reset ≡ true))
IsSound (idle, (launching, s)) =
    (s.lifecycle_state ≡ starting) × (s.stop_requested ≡ false) × (s.shutdown ≡ false)
IsSound (idle, (serving, s)) =
    (s.lifecycle_state ≡ running) × (s.stop_requested ≡ false) × (s.shutdown ≡ false)
IsSound (idle, (leaving, s)) =
    (s.lifecycle_state ≡ starting) × (s.stop_requested ≡ false) × (s.shutdown ≡ false)
IsSound (idle, (ending, s)) =
    (s.lifecycle_state ≡ stopped) × (s.stop_requested ≡ false) × (s.shutdown ≡ false)
IsSound (idle, (ended, s)) =
    (s.lifecycle_state ≡ stopped) × (s.stop_requested ≡ false) × (s.shutdown ≡ false)
IsSound (requested, (absent, s)) = s.lifecycle_state ≡ stopped
IsSound (requested, (ending, s)) = (s.lifecycle_state ≡ stopped) ⊎ (s.lifecycle_state ≡ stopping)
IsSound (requested, (ended, s)) = s.lifecycle_state ≡ stopped
IsSound (requested, (w, s)) = (s.lifecycle_state ≡ stopping) × (s.stop_requested ≡ true)
IsSound (joining, (absent, s)) = (s.lifecycle_state ≡ stopped) × (s.shutdown ≡ true)
IsSound (joining, (ending, s)) =
    ((s.lifecycle_state ≡ stopped) ⊎ (s.lifecycle_state ≡ stopping)) × (s.shutdown ≡ true)
IsSound (joining, (ended, s)) = (s.lifecycle_state ≡ stopped) × (s.shutdown ≡ true)
IsSound (joining, (w, s)) =
    (s.lifecycle_state ≡ stopping) × (s.stop_requested ≡ true) × (s.shutdown ≡ true)

start-IsSound :
    (can_launch : Bool) (w : Worker) (s : Lifecycle)
    → IsSound (idle, (w, s))
    → IsSound (idle, (start can_launch w s).1)
unfolding start prepare_start
start-IsSound true absent s (p, q, inl r) = elim (Bool-cases s.needs_model_reset) [
  | inl e ↦ rw (p, e) (refl, refl, refl)
  | inr e ↦ rw (p, e) (refl, refl, r)
]
start-IsSound true absent s (p, q, inr r) = rw (p, r) (refl, refl, refl)
start-IsSound false absent s (p, q, inl r) = elim (Bool-cases s.needs_model_reset) [
  | inl e ↦ rw (p, e) (refl, refl, inl refl)
  | inr e ↦ rw (p, e) (refl, refl, inl r)
]
start-IsSound false absent s (p, q, inr r) = rw (p, r) (refl, refl, inl refl)
start-IsSound b launching s (p, q, r) = rw p (refl, q, r)
start-IsSound b serving s (p, q, r) = rw p (refl, q, r)
start-IsSound b leaving s (p, q, r) = rw p (refl, q, r)
start-IsSound b ending s (p, q, r) = rw p (refl, q, r)
start-IsSound b ended s (p, q, r) = rw p (refl, q, r)

begin_stop-IsSound :
    (w : Worker) (s : Lifecycle) → IsSound (idle, (w, s)) → IsSound (requested, (w, begin_stop s))
unfolding begin_stop
begin_stop-IsSound absent s (p, q, r) = rw p refl
begin_stop-IsSound launching s (p, q, r) = rw p (refl, refl)
begin_stop-IsSound serving s (p, q, r) = rw p (refl, refl)
begin_stop-IsSound leaving s (p, q, r) = rw p (refl, refl)
begin_stop-IsSound ending s (p, q, r) = rw p (inl refl)
begin_stop-IsSound ended s (p, q, r) = rw p refl

shut_down-IsSound :
    (w : Worker) (s : Lifecycle) → IsSound (requested, (w, s)) → IsSound (joining, (w, shut_down s))
unfolding shut_down
shut_down-IsSound absent s p = (p, refl)
shut_down-IsSound launching s (p, q) = (p, q, refl)
shut_down-IsSound serving s (p, q) = (p, q, refl)
shut_down-IsSound leaving s (p, q) = (p, q, refl)
shut_down-IsSound ending s p = (p, refl)
shut_down-IsSound ended s p = (p, refl)

worker_step-IsSound :
    (opens : Bool) (b : Stop) (w : Worker) (s : Lifecycle)
    → IsSound (b, (w, s))
    → IsSound (b, worker_step opens w s)
unfolding worker_step
worker_step-IsSound opens idle absent s h = h
worker_step-IsSound true idle launching s (p, q, r) = rw p (refl, q, r)
worker_step-IsSound false idle launching s (p, q, r) = (p, q, r)
worker_step-IsSound opens idle serving s (p, q, r) = rw q (p, refl, r)
worker_step-IsSound opens idle leaving s (p, q, r) = rw p (refl, q, r)
worker_step-IsSound opens idle ending s (p, q, r) = (refl, refl, r)
worker_step-IsSound opens idle ended s h = h
worker_step-IsSound opens joining absent s h = h
worker_step-IsSound true joining launching s (p, q, r) = rw p (refl, q, r)
worker_step-IsSound false joining launching s (p, q, r) = (p, q, r)
worker_step-IsSound opens joining serving s (p, q, r) = rw q (p, refl, r)
worker_step-IsSound opens joining leaving s (p, q, r) = rw p (inr refl, r)
worker_step-IsSound opens joining ending s (p, r) = (refl, r)
worker_step-IsSound opens joining ended s h = h
worker_step-IsSound opens requested absent s h = h
worker_step-IsSound true requested launching s (p, q) = rw p (refl, q)
worker_step-IsSound false requested launching s (p, q) = (p, q)
worker_step-IsSound opens requested serving s (p, q) = rw q (p, refl)
worker_step-IsSound opens requested leaving s (p, q) = rw p (inr refl)
worker_step-IsSound opens requested ending s p = refl
worker_step-IsSound opens requested ended s h = h

Step-IsSound : (x y : Machine) → Step x y → IsSound x → IsSound y
unfolding end_stop
Step-IsSound x y (call_start b w s) h = start-IsSound b w s h
Step-IsSound x y (call_stop w s) h = begin_stop-IsSound w s h
Step-IsSound x y (model_down w s) h = shut_down-IsSound w s h
Step-IsSound x y (return_stop w s e) h = (refl, refl, inr refl)
Step-IsSound x y (work opens b w s) h = worker_step-IsSound opens b w s h

pub Reachable-IsSound : (x y : Machine) → IsSound x → Reachable x y → IsSound y
Reachable-IsSound x y h here = h
Reachable-IsSound x y h (further z w r s) = Step-IsSound z w s (Reachable-IsSound x z h r)

-- The thread's next steps, one for each outcome.
abbrev pub steps : Bool → Bool → Bool → Bool → Worker × Lifecycle → Worker × Lifecycle
steps a b c d m =
    let m1 = worker_step a m.0 m.1 in
    let m2 = worker_step b m1.0 m1.1 in let m3 = worker_step c m2.0 m2.1 in worker_step d m3.0 m3.1

steps-joined :
    (a b c d : Bool) (w : Worker) (s : Lifecycle)
    → IsSound (joining, (w, s))
    → is_joined (steps a b c d (w, s)).0 ≡ true
unfolding worker_step
steps-joined a b c d absent s h = refl
steps-joined true b c d launching s (p, q, r) = rw (p, q) refl
steps-joined false b c d launching s (p, q, r) = refl
steps-joined a b c d serving s (p, q, r) = rw q refl
steps-joined a b c d leaving s h = refl
steps-joined a b c d ending s h = refl
steps-joined a b c d ended s h = refl

-- What the thread does between the two sections of a stop.
abbrev pub run : List Bool → Worker × Lifecycle → Worker × Lifecycle
unfolding worker_step
run [] m = m
run (opens ∷ rest) m = run rest (worker_step opens m.0 m.1)

run-IsSound :
    (outcomes : List Bool) (m : Worker × Lifecycle)
    → IsSound (requested, m)
    → IsSound (requested, run outcomes m)
unfolding run
run-IsSound [] m h = h
run-IsSound (opens ∷ rest) (w, s) h =
    run-IsSound rest (worker_step opens w s) (worker_step-IsSound opens requested w s h)

-- A stopped node, which a start launches on a model that is not shut down.
abbrev pub IsRestartable : Lifecycle → Type 0
IsRestartable s =
    (s.lifecycle_state ≡ stopped)
    × ((start true absent s).0 ≡ none)
    × ((start true absent s).1.0 ≡ launching)
    × ((start true absent s).1.1.shutdown ≡ false)

-- A node at which the two sections of a stop before its join are done, with the thread's steps between
-- them.
abbrev pub stopped_at : List Bool → Worker → Lifecycle → Worker × Lifecycle
unfolding begin_stop shut_down
stopped_at between w s = let m = run between (w, begin_stop s) in (m.0, shut_down m.1)

-- A stop of a node whose state is sound returns: whatever the thread does between its sections, four
-- steps of the thread after them, whatever their outcomes, bring it to where the join returns, and
-- what the stop leaves is a stopped node that a start launches on a model that is not shut down.
pub stop-returns :
    (between : List Bool) (a b c d : Bool) (w : Worker) (s : Lifecycle)
    → IsSound (idle, (w, s))
    → (is_joined (steps a b c d (stopped_at between w s)).0 ≡ true)
      × IsRestartable (end_stop (steps a b c d (stopped_at between w s)).1)
unfolding start prepare_start end_stop stopped_at
stop-returns between a b c d w s h =
    let m = run between (w, begin_stop s) in
    (
      steps-joined a b c d m.0 (shut_down m.1) (
          shut_down-IsSound m.0 m.1
            (run-IsSound between (w, begin_stop s) (begin_stop-IsSound w s h))),
      (refl, refl, refl, refl),
    )
