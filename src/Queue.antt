-- ===== src/Queue.antt =====
-- agente_c/src/pending_request.c and its header: the queue of requests that wait for one resource.
-- The chain from `top` is a list, and `bottom` is its last node; a `connection_t *` is a number.
pub mod Fifo
pub mod Linked
use tp_sist_op.Prelude.{
  ℕ, Bool, true, false, List, [], ◌∷◌, ◌++◌, Option, none, some, ◌==◌, if◌then◌else◌,
}
use tp_sist_op.Prelude.Int.{ℤ, pos, eqb_ℤ, add_int, sub_int}

-- `ORIGIN_LOCAL`, `ORIGIN_REMOTE`.
pub data Origin : Type 0 where
  local remote : Origin

pub record PendingRequest : Type 0 where
  pub job_id : ℤ
  pub amount : ℤ
  pub owner_conn : ℕ
  pub origen : Origin

pub record ColaPendingRequest : Type 0 where
  pub nodes : List PendingRequest
  pub amount : ℤ

unfoldable pub queue_init : ColaPendingRequest
queue_init = record { nodes = []; amount = pos 0 }

-- `queue_destroy` frees the chain and leaves the counter.
unfoldable pub queue_destroy : ColaPendingRequest → ColaPendingRequest
queue_destroy c = record c { nodes = [] }

is_nil : List PendingRequest → Bool
is_nil [] = true
is_nil (p ∷ ps) = false

unfoldable pub queue_is_empty : ColaPendingRequest → Bool
unfolding is_nil
queue_is_empty c = is_nil c.nodes

-- The loop that both deletions run: it unlinks the nodes that pass the test and takes their amounts
-- off the counter.
unfoldable pub unlink : (PendingRequest → Bool) → List PendingRequest → ℤ → ColaPendingRequest
unlink p [] total = record { nodes = []; amount = total }
unlink p (curr ∷ next) total =
    let gone = unlink p next (sub_int total curr.amount) in
    let rest = unlink p next total in
    if p curr then gone else record { nodes = curr ∷ rest.nodes; amount = rest.amount }

unfoldable pub queue_delete_by_conn : ColaPendingRequest → ℕ → ColaPendingRequest
unfolding unlink
queue_delete_by_conn c conn = unlink (λ curr. curr.owner_conn == conn) c.nodes c.amount

unfoldable pub queue_delete_by_job_id : ColaPendingRequest → ℤ → ColaPendingRequest
unfolding unlink
queue_delete_by_job_id c job_id = unlink (λ curr. eqb_ℤ curr.job_id job_id) c.nodes c.amount

-- `max_amount` is a parameter of the C function that its body never reads; the result is `true`.
unfoldable pub queue_enqueue :
    ColaPendingRequest → ℤ → ℤ → ℕ → ℤ → Origin → ColaPendingRequest × Bool
unfolding add_int
queue_enqueue c job_id amount conn max_amount origen =
    let pending : PendingRequest = record {
      job_id = job_id;
      amount = amount;
      owner_conn = conn;
      origen = origen;
    } in
    (record { nodes = c.nodes ++ pending ∷ []; amount = add_int c.amount amount }, true)

unfoldable pub take_top : List PendingRequest → ℤ → ColaPendingRequest × Option PendingRequest
take_top [] total = (record { nodes = []; amount = total }, none)
take_top (tope ∷ rest) total =
    (record { nodes = rest; amount = sub_int total tope.amount }, some tope)

unfoldable pub queue_dequeue : ColaPendingRequest → ColaPendingRequest × Option PendingRequest
unfolding take_top
queue_dequeue c = take_top c.nodes c.amount
