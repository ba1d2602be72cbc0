-- ===== src/Tests/Agent.antt =====
-- The manager at concrete states: the theorems applied, and small runs.
use tp_sist_op.Prelude.{◌^◌, ◌-◌, true, false, List, [], ◌∷◌, ◌++◌, ◌≡◌, refl, arith, All}
use tp_sist_op.Prelude.Int.{pos, negsuc, ◌+ℤ◌, ◌-ℤ◌, ◌≤ℤ◌, ◌<ℤ◌, IsQuantity}
use tp_sist_op.ResourceTypes.{Resource, cpu, resource_eq}
use tp_sist_op.Queue.{Origin}
use tp_sist_op.Jobs.{Result}
use tp_sist_op.Jobs.Sweep.{IsFree}
use tp_sist_op.Manager.{
  Recurso, ResourceManager, recurso, manager_init, nuevo_recurso, reserve, accepts, give_back,
  release_resource,
}
use tp_sist_op.Manager.Resources.{
  IsSound, nuevo_recurso-IsSound, reserve_correct, reserve_negative, release_overflow,
}
use tp_sist_op.Manager.Draining.{Drains, release_resource_correct}
use tp_sist_op.Manager.Invariant.{IsValid, manager_init-IsValid}
use tp_sist_op.Manager.Dangling.{NotOwned, process_disconnect-NoTrace}
use tp_sist_op.Manager.Reachable.{run-manager_init-IsValid}
use tp_sist_op.Manager.Events.{process_disconnect, Command, Event, run}
use tp_sist_op.Tests.Requests.{first_request, two_waiting, two_waiting-IsCounted}

-- A history: 4 CPUs, of which a remote job takes 3, a second one waits for 2, and the first one's
-- connection is lost after its release.
abbrev history : List Event
history =
    Event.message 1 (Command.reserve (pos 5) cpu (pos 3)) []
    ∷ Event.message 2 (Command.reserve (pos 6) cpu (pos 2)) []
    ∷ Event.message 1 (Command.release (pos 5) cpu (pos 3)) []
    ∷ Event.disconnect 1
    ∷ []

abbrev agent : ResourceManager
agent = manager_init (pos 4) (pos 8) (pos 1)

four-IsQuantity : IsQuantity (pos 4)
four-IsQuantity = (omega arith, refl)

agent-IsValid : IsValid agent
agent-IsValid =
    manager_init-IsValid _ _ _ (omega arith, refl) (omega arith, refl) (omega arith, refl)

run-manager_init-IsValid_example : IsValid (run agent history)
run-manager_init-IsValid_example =
    run-manager_init-IsValid (pos 4) (pos 8) (pos 1) history (omega arith, refl) (omega arith, refl)
      (omega arith, refl) (refl, (refl, (omega arith, (tt, tt))))

-- A node with 4 CPUs.

abbrev idle : Recurso
idle = nuevo_recurso (pos 4)

idle-IsSound : IsSound idle
idle-IsSound = nuevo_recurso-IsSound (pos 4) (omega arith, refl)

-- One of 6 CPUs is free, and two requests wait.
abbrev busy : Recurso
busy = record { available_amount = pos 1; total_amount = pos 6; cola = two_waiting }

abbrev busy_agent : ResourceManager
busy_agent = record agent { recurso_cpu = busy }

busy-IsSound : IsSound (recurso cpu busy_agent)
unfolding recurso
busy-IsSound = record {
  total = (omega arith, refl);
  available = (omega arith, refl);
  within = omega arith;
  waits = (((omega arith, refl), omega arith), (((omega arith, refl), omega arith), tt));
  counted = two_waiting-IsCounted;
}

release_resource_correct_example :
    (accepts (recurso cpu busy_agent) (pos 3) ≡ true
      → Drains
          (give_back (recurso cpu busy_agent) (pos 3))
          (recurso cpu (release_resource cpu (pos 3) busy_agent))
        × ((give_back (recurso cpu busy_agent) (pos 3)).available_amount
            ≡ (recurso cpu busy_agent).available_amount +ℤ pos 3))
    × (accepts (recurso cpu busy_agent) (pos 3) ≡ false
        → release_resource cpu (pos 3) busy_agent ≡ busy_agent)
    × ((t : Resource)
        → resource_eq t cpu ≡ false
        → recurso t (release_resource cpu (pos 3) busy_agent) ≡ recurso t busy_agent)
release_resource_correct_example =
    release_resource_correct cpu (pos 3) busy_agent busy-IsSound (omega arith)

abbrev reserved : Recurso × Result
reserved = reserve idle (pos 3) (pos 5) 1 Origin.remote

reserve_correct_example :
    (pos 3 ≤ℤ idle.available_amount
      → (reserved.1 ≡ Result.granted)
        × (reserved.0.available_amount ≡ idle.available_amount -ℤ pos 3)
        × (reserved.0.cola ≡ idle.cola))
    × (idle.available_amount <ℤ pos 3
        → pos 3 ≤ℤ idle.total_amount
        → (reserved.1 ≡ Result.queued)
          × (reserved.0.available_amount ≡ idle.available_amount)
          × (reserved.0.cola.nodes ≡ idle.cola.nodes ++ first_request ∷ []))
    × (idle.total_amount <ℤ pos 3 → (reserved.1 ≡ Result.denied) × (reserved.0 ≡ idle))
    × (reserved.0.total_amount ≡ idle.total_amount)
reserve_correct_example = reserve_correct idle (pos 3) (pos 5) 1 Origin.remote idle-IsSound refl

abbrev inflated : Recurso × Result
inflated = reserve idle (negsuc 2) (pos 5) 1 Origin.remote

reserve_negative_example :
    (inflated.1 ≡ Result.granted)
    × (idle.available_amount <ℤ inflated.0.available_amount)
    × (idle.available_amount ≡ idle.total_amount
        → inflated.0.total_amount <ℤ inflated.0.available_amount)
unfolding nuevo_recurso ◌-ℤ◌
reserve_negative_example =
    reserve_negative idle (negsuc 2) (pos 5) 1 Origin.remote idle-IsSound (omega arith)
      (omega arith, omega arith)

release_overflow_example :
    (accepts idle (pos (2 ^ 31 - 1)) ≡ true)
    × ((give_back idle (pos (2 ^ 31 - 1))).available_amount <ℤ pos 0)
unfolding nuevo_recurso
release_overflow_example =
    release_overflow idle (pos (2 ^ 31 - 1)) idle-IsSound refl (omega arith, omega arith)
      (omega arith)

process_disconnect-NoTrace_example :
    ((t : Resource)
      → All (NotOwned 1) (recurso t (process_disconnect 1 (run agent history))).cola.nodes)
    × All (All (IsFree 1)) (process_disconnect 1 (run agent history)).tabla
process_disconnect-NoTrace_example =
    process_disconnect-NoTrace 1 (run agent history) run-manager_init-IsValid_example
