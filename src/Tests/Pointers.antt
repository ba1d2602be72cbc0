-- ===== src/Tests/Pointers.antt =====
-- The linked queue at a concrete memory.
use tp_sist_op.Prelude.{List, [], ◌∷◌, none, some, ◌==◌, if◌then◌else◌}
use tp_sist_op.Prelude.Int.{pos}
use tp_sist_op.Queue.Linked.{Memory, Heap}
use tp_sist_op.Queue.Linked.Segments.{Cell}
use tp_sist_op.Tests.Requests.{first_request, second_request}

-- Two nodes, at 10 and 20.
abbrev two_nodes : Heap
two_nodes k =
    if k == 10
    then some (record { request = first_request; sig = some 20 })
    else if k == 20
    then some (record { request = second_request; sig = none })
    else none

abbrev memory : Memory
memory = record {
  heap = two_nodes;
  cola = record { top = some 10; bottom = some 20; amount = pos 5 };
}

abbrev cells : List Cell
cells =
    record { at = 10; request = first_request } ∷ record { at = 20; request = second_request } ∷ []
