-- ===== src/Tests/Threads.antt =====
-- Threads that take turns, at a concrete run: one handles a RELEASE and one a RESERVE of the same resource.
use mathlib.Core.WellFounded.{Acc}
use tp_sist_op.Prelude.{◌≤◌, List, [], ◌∷◌, ◌≡◌, refl, ◌⊎◌, arith, map}
use tp_sist_op.Prelude.Int.{pos}
use tp_sist_op.ResourceTypes.{cpu}
use tp_sist_op.Manager.{ResourceManager, manager_init}
use tp_sist_op.Manager.Invariant.{IsValid, manager_init-IsValid}
use tp_sist_op.Manager.Events.{Command, Event, step}
use tp_sist_op.Threads.{
  Lock, alone, Thread, held_by, locks, accesses, Step, here, there, started, Reach, start, later,
  AllDone, is_free, holds, lock_eq,
}
use tp_sist_op.Threads.Calls.{release_resource_prog, lock_tabla_if, reserve_resource_prog}
use tp_sist_op.Threads.Handlers.{event_prog, execute_prog, on_release_prog, on_reserve_prog}
use tp_sist_op.Threads.Alone.Events.{alone-event_prog}
use tp_sist_op.Threads.Finished.{Goes, Reach-finishes}
use tp_sist_op.Threads.Exclusion.{owners, Unchanged, mover, Reach-Unchanged}
use tp_sist_op.Threads.Kept.System.{Reach-IsValid}

abbrev agent : ResourceManager
agent = manager_init (pos 6) (pos 8) (pos 1)

agent-IsValid : IsValid agent
agent-IsValid =
    manager_init-IsValid _ _ _ (omega arith, refl) (omega arith, refl) (omega arith, refl)

abbrev reserve_event : Event
reserve_event = Event.message 2 (Command.reserve (pos 6) cpu (pos 2)) []

abbrev two_events : List Event
two_events = Event.message 1 (Command.release (pos 5) cpu (pos 3)) [] ∷ reserve_event ∷ []

alone-event_prog_example : alone (event_prog reserve_event) agent ≡ step agent reserve_event
alone-event_prog_example = alone-event_prog reserve_event agent

-- A run and where it leads.
record Run : Type 0 where
  last : ResourceManager
  threads : List Thread
  reach : Reach agent (started (map event_prog two_events)) last threads

-- The RESERVE has the mutex of the resource, for which the RELEASE waits with the lock of the table.
abbrev waiting : Run
unfolding event_prog execute_prog on_release_prog on_reserve_prog release_resource_prog
    lock_tabla_if reserve_resource_prog started is_free holds lock_eq held_by
waiting = record {
  last = agent;
  threads = _;
  reach = later (later start (there (here (locks refl)))) (here (locks refl));
}

Reach-finishes_example :
    (AllDone waiting.threads
      ⊎ ((m : ResourceManager) × (ths : List Thread) × Step waiting.last waiting.threads
            waiting.threads m ths))
    × Acc Goes waiting.threads
Reach-finishes_example = Reach-finishes two_events waiting.reach

-- The RESERVE takes its turn: it changes the resource that it has locked.
record Next (r : Run) : Type 0 where
  state : ResourceManager
  threads : List Thread
  turn : Step r.last r.threads r.threads state threads

abbrev reserving : Next waiting
unfolding waiting
reserving = record { state = _; threads = _; turn = there (here accesses) }

Reach-Unchanged_example :
    ((l : Lock) → owners l waiting.threads ≤ 1)
    × Unchanged (held_by (mover reserving.turn)) waiting.last reserving.state
Reach-Unchanged_example = Reach-Unchanged two_events waiting.reach reserving.turn

Reach-IsValid_example : IsValid reserving.state
Reach-IsValid_example =
    Reach-IsValid two_events (omega arith, (refl, tt)) agent-IsValid
      (later waiting.reach reserving.turn)
