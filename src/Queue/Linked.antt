-- ===== src/Queue/Linked.antt =====
-- agente_c/src/pending_request.c with its pointers: the nodes in memory, chained by `sig` from `top` to
-- `bottom`. `none` as a result is a fault: a read or a write through NULL or through a freed pointer.
pub mod Segments
pub mod Correct
pub mod Deleting
pub mod Simulation
use tp_sist_op.Prelude.{
  ℕ, zero, suc, Bool, true, false, List, [], ◌∷◌, Option, none, some, ◌==◌, ◌&&◌, if◌then◌else◌,
  ◌>>=◌,
}
use tp_sist_op.Prelude.Int.{ℤ, add_int, sub_int}
use tp_sist_op.Queue.{PendingRequest}

-- A `PendingRequest` in memory; `none` is NULL.
pub record Node : Type 0 where
  pub request : PendingRequest
  pub sig : Option ℕ

-- What is allocated at each address.
abbrev pub Heap : Type 0
Heap = ℕ → Option Node

unfoldable pub write : ℕ → Option Node → Heap → Heap
write a o h k = if k == a then o else h k

-- `ColaPendingRequest`.
pub record Cola : Type 0 where
  pub top : Option ℕ
  pub bottom : Option ℕ
  pub amount : ℤ

pub record Memory : Type 0 where
  pub heap : Heap
  pub cola : Cola

unfoldable pub is_null : Option ℕ → Bool
is_null none = true
is_null (some a) = false

unfoldable pub is_empty : Cola → Bool
unfolding is_null
is_empty c = is_null c.top && is_null c.bottom

-- `p->sig = next`.
unfoldable pub set_sig : Option ℕ → Option ℕ → Heap → Option Heap
unfolding write
set_sig none next h = none
set_sig (some a) next h = do n ← h a; some (write a (some (record n { sig = next })) h)

-- `queue_enqueue`, with the address that `malloc` returns.
unfoldable pub enqueue : ℕ → PendingRequest → Memory → Option Memory
unfolding is_empty set_sig write add_int
enqueue pending p s =
    let h = write pending (some (record { request = p; sig = none })) s.heap in
    let amount = add_int s.cola.amount p.amount in
    if is_empty s.cola
    then some (record {
      heap = h;
      cola = record { top = some pending; bottom = some pending; amount = amount };
    })
    else (do
      h' ← set_sig s.cola.bottom (some pending) h
      some (record { heap = h'; cola = record s.cola { bottom = some pending; amount = amount } }))

-- `queue_dequeue`, which gives the node or NULL.
unfoldable pub dequeue : Memory → Option (Option ℕ × Memory)
unfolding is_empty is_null write sub_int
dequeue s = if is_empty s.cola then some (none, s) else (do
  tope ← s.cola.top
  n ← s.heap tope
  some (
    some tope,
    record {
      heap = write tope (some (record n { sig = none })) s.heap;
      cola = record {
        top = n.sig;
        bottom = if is_null n.sig then none else s.cola.bottom;
        amount = sub_int s.cola.amount n.request.amount;
      };
    },
  ))

unfoldable pub same : Option ℕ → ℕ → Bool
same none a = false
same (some b) a = b == a

-- The unlinking of `curr` after `prev`, then its `free`.
unfoldable pub unlink_node : Option ℕ → ℕ → Node → Memory → Option Memory
unfolding set_sig write same sub_int
unlink_node prev curr n s = do
  linked ← elim prev [
    | none ↦ some (record s { cola = record s.cola { top = n.sig } })
    | some a ↦ (do h ← set_sig (some a) n.sig s.heap; some (record s { heap = h }))
  ]
  some (record {
    heap = write curr none linked.heap;
    cola = record linked.cola {
      bottom = if same linked.cola.bottom curr then prev else linked.cola.bottom;
      amount = sub_int linked.cola.amount n.request.amount;
    };
  })

-- The loop of both deletions, on fuel; out of fuel is `none` too.
unfoldable pub delete_loop :
    ℕ → (PendingRequest → Bool) → Option ℕ → Option ℕ → Memory → Option Memory
unfolding unlink_node
delete_loop zero p prev curr s = none
delete_loop (suc fuel) p prev none s = some s
delete_loop (suc fuel) p prev (some a) s = do
  n ← s.heap a
  elim (p n.request) [
    | true ↦ (do s' ← unlink_node prev a n s; delete_loop fuel p prev n.sig s')
    | false ↦ delete_loop fuel p (some a) n.sig s
  ]
