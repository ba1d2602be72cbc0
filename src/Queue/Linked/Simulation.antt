-- ===== src/Queue/Linked/Simulation.antt =====
-- Every operation of agente_c/src/pending_request.c on the pointers and on the list.
use tp_sist_op.Prelude.{ℕ, ◌<◌, Option, none, some, ◌≡◌, ◌==◌, length, ◌>>=◌}
use tp_sist_op.Prelude.Int.{ℤ, eqb_ℤ}
use tp_sist_op.Queue.{
  PendingRequest, ColaPendingRequest, queue_enqueue, queue_dequeue, queue_delete_by_conn,
  queue_delete_by_job_id,
}
use tp_sist_op.Queue.Linked.{Memory, enqueue, dequeue, delete_loop}

-- A call, with the address that `malloc` returns or the fuel of the loop.
pub data Call : Type 0 where
  queue_in : ℕ → PendingRequest → ℤ → Call
  queue_out : Call
  by_conn : ℕ → ℕ → Call
  by_job_id : ℕ → ℤ → Call

abbrev pub on_pointers : Call → Memory → Option Memory
on_pointers (queue_in new p max_amount) s = enqueue new p s
on_pointers queue_out s = dequeue s >>= λ (a, s'). some s'
on_pointers (by_conn fuel conn) s = delete_loop fuel (λ p. p.owner_conn == conn) none s.cola.top s
on_pointers (by_job_id fuel id) s = delete_loop fuel (λ p. eqb_ℤ p.job_id id) none s.cola.top s

abbrev pub on_list : Call → ColaPendingRequest → ColaPendingRequest
on_list (queue_in new p max_amount) q =
    (queue_enqueue q p.job_id p.amount p.owner_conn max_amount p.origen).0
on_list queue_out q = (queue_dequeue q).0
on_list (by_conn fuel conn) q = queue_delete_by_conn q conn
on_list (by_job_id fuel id) q = queue_delete_by_job_id q id

-- `malloc` returns an address that is not in use, and the loop has a round for each node and one more.
abbrev pub IsPossible : Call → Memory → ColaPendingRequest → Type 0
IsPossible (queue_in new p max_amount) s q = s.heap new ≡ none
IsPossible queue_out s q = Unit
IsPossible (by_conn fuel conn) s q = length q.nodes < fuel
IsPossible (by_job_id fuel id) s q = length q.nodes < fuel
