-- ===== src/Manager.antt =====
-- agente_c/src/resource_manager.c: the state of the manager and the operations on one resource.
-- A handler takes the state to the next one, as it does when no other runs; Threads has the locks.
pub mod Handlers
pub mod Requests
pub mod NodeList
pub mod Events
pub mod Dispatch
pub mod Wire
pub mod Lines
pub mod Answer
pub mod Stranded
pub mod Orphaned
pub mod Unknown
pub mod Resources
pub mod Draining
pub mod Closed
pub mod Dropped
pub mod Dangling
pub mod Freed
pub mod Widths
pub mod Invariant
pub mod Preserves
pub mod Building
pub mod Reachable
use tp_sist_op.Prelude.{
  ℕ, zero, suc, Bool, true, false, List, [], ◌∷◌, Option, none, some, ◌&&◌, ◌||◌, if◌then◌else◌,
  length, take,
}
use tp_sist_op.Prelude.Int.{ℤ, pos, leb_ℤ, ltb_ℤ, add_int, sub_int}
use tp_sist_op.ResourceTypes.{Resource, cpu, mem, gpu}
use tp_sist_op.Queue.{
  ColaPendingRequest, PendingRequest, Origin, queue_init, queue_destroy, queue_is_empty,
  queue_enqueue, queue_dequeue, queue_delete_by_conn, queue_delete_by_job_id,
}
use tp_sist_op.Jobs.{
  TablaJobs, Result, Message, tabla_jobs_init, tabla_jobs_cambio_alloc, tabla_jobs_verificar,
}
use tp_sist_op.Conns.{TablaConns, tabla_conns_init}
use tp_sist_op.Nodes.{TablaNodos, tabla_nodos_init}

pub record Recurso : Type 0 where
  pub available_amount : ℤ
  pub total_amount : ℤ
  pub cola : ColaPendingRequest

-- `DEST_ERLANG_LOCAL`, `DEST_AGENTE_REMOTO`.
pub data Dest : Type 0 where
  erlang_local agente_remoto : Dest

-- One call of `enqueue_write` by `send_message`.
pub record Sent : Type 0 where
  pub conn : ℕ
  pub dest : Dest
  pub msg : Message

-- `manager`, `conns`, `tabla_nodos` and `g_ip`, with what was sent, newest first.
pub record ResourceManager : Type 0 where
  pub recurso_cpu : Recurso
  pub recurso_mem : Recurso
  pub recurso_gpu : Recurso
  pub tabla : TablaJobs
  pub conns : TablaConns
  pub nodos : TablaNodos
  pub ip : List ℕ
  pub out : List Sent

-- `manager.recursos[tipo]`, read and written.
unfoldable pub recurso : Resource → ResourceManager → Recurso
recurso cpu m = m.recurso_cpu
recurso mem m = m.recurso_mem
recurso gpu m = m.recurso_gpu

unfoldable pub set_recurso : Resource → Recurso → ResourceManager → ResourceManager
set_recurso cpu r m = record m { recurso_cpu = r }
set_recurso mem r m = record m { recurso_mem = r }
set_recurso gpu r m = record m { recurso_gpu = r }

unfoldable pub send_message : ℕ → Dest → Message → ResourceManager → ResourceManager
send_message conn dest msg m = record m {
  out = record { conn = conn; dest = dest; msg = msg } ∷ m.out;
}

unfoldable pub nuevo_recurso : ℤ → Recurso
unfolding queue_init
nuevo_recurso n = record { available_amount = n; total_amount = n; cola = queue_init }

-- The static `g_ip` starts as the empty string.
unfoldable pub manager_init : ℤ → ℤ → ℤ → ResourceManager
unfolding nuevo_recurso tabla_jobs_init tabla_conns_init tabla_nodos_init
manager_init c m g = record {
  recurso_cpu = nuevo_recurso c;
  recurso_mem = nuevo_recurso m;
  recurso_gpu = nuevo_recurso g;
  tabla = tabla_jobs_init;
  conns = tabla_conns_init;
  nodos = tabla_nodos_init;
  ip = [];
  out = [];
}

-- `strncpy` into `char g_ip[16]` keeps 15 bytes.
unfoldable pub manager_set_ip : List ℕ → ResourceManager → ResourceManager
manager_set_ip ip m = record m { ip = take 15 ip }

-- `reserve_resource` on the resource itself.
unfoldable pub reserve : Recurso → ℤ → ℤ → ℕ → Origin → Recurso × Result
unfolding queue_enqueue sub_int
reserve r amount job_id conn origen =
    let (cola', stored) = queue_enqueue r.cola job_id amount conn r.total_amount origen in
    if leb_ℤ amount r.available_amount
    then (record r { available_amount = sub_int r.available_amount amount }, Result.granted)
    else if ltb_ℤ r.total_amount amount
    then (r, Result.denied)
    else if stored
    then (record r { cola = cola' }, Result.queued)
    else (r, Result.denied)

unfoldable pub reserve_resource :
    Resource → ℤ → ℤ → ℕ → Origin → ResourceManager → ResourceManager × Result
unfolding reserve recurso set_recurso
reserve_resource tipo amount job_id conn origen m =
    let (r, result) = reserve (recurso tipo m) amount job_id conn origen in
    (set_recurso tipo r m, result)

-- `!queue_is_empty(cola) && available_amount >= cola->top->amount`.
unfoldable pub fits_top : List PendingRequest → ℤ → Bool
fits_top [] available = false
fits_top (p ∷ ps) available = leb_ℤ p.amount available

unfoldable pub can_serve : Recurso → Bool
unfolding fits_top
can_serve r = fits_top r.cola.nodes r.available_amount

-- What the loop of `release_resource` does for a request that has left the queue.
unfoldable pub notify : Resource → PendingRequest → ResourceManager → ResourceManager
unfolding tabla_jobs_cambio_alloc tabla_jobs_verificar send_message
notify tipo pending m =
    let m' = record m {
      tabla = tabla_jobs_cambio_alloc m.tabla pending.job_id pending.owner_conn tipo;
    } in
    let id = pending.job_id in
    let c = pending.owner_conn in
    elim pending.origen [
      | Origin.remote ↦ send_message c agente_remoto (Message.grant id) m'
      | Origin.local ↦
          if tabla_jobs_verificar m'.tabla id
          then send_message c erlang_local (Message.job_granted id) m'
          else m'
    ]

-- `available_amount -= pending->amount`, and the queue without its top.
unfoldable pub take_off : Recurso → Recurso × Option PendingRequest
unfolding queue_dequeue sub_int
take_off r =
    let (cola', top) = queue_dequeue r.cola in
    elim top [
      | none ↦ (record r { cola = cola' }, none)
      | some p ↦ (
        record r { cola = cola'; available_amount = sub_int r.available_amount p.amount },
        some p,
      )
    ]

-- One round of the loop.
unfoldable pub serve_top : Resource → ResourceManager → ResourceManager
unfolding take_off recurso set_recurso notify
serve_top tipo m =
    let (r, top) = take_off (recurso tipo m) in
    elim top [
      | none ↦ set_recurso tipo r m
      | some pending ↦ notify tipo pending (set_recurso tipo r m)
    ]

-- The loop, on fuel; each round takes a node off the queue, so its length is enough.
unfoldable pub serve : ℕ → Resource → ResourceManager → ResourceManager
unfolding can_serve serve_top
serve zero tipo m = m
serve (suc fuel) tipo m = elim (can_serve (recurso tipo m)) [
  | true ↦ serve fuel tipo (serve_top tipo m)
  | false ↦ m
]

-- `amount >= 0 && available_amount + amount <= total_amount`; the sum is an `int`.
unfoldable pub accepts : Recurso → ℤ → Bool
unfolding add_int
accepts r amount = leb_ℤ (pos 0) amount && leb_ℤ (add_int r.available_amount amount) r.total_amount

unfoldable pub give_back : Recurso → ℤ → Recurso
unfolding add_int
give_back r amount = record r { available_amount = add_int r.available_amount amount }

unfoldable pub release_resource : Resource → ℤ → ResourceManager → ResourceManager
unfolding accepts give_back serve
release_resource tipo amount m =
    let r = recurso tipo m in
    let m' = set_recurso tipo (give_back r amount) m in
    if accepts r amount then serve (length r.cola.nodes) tipo m' else m

unfoldable pub with_cola : (ColaPendingRequest → ColaPendingRequest) → Recurso → Recurso
with_cola f r = record r { cola = f r.cola }

unfoldable pub each_cola :
    (ColaPendingRequest → ColaPendingRequest) → ResourceManager → ResourceManager
unfolding with_cola
each_cola f m = record m {
  recurso_cpu = with_cola f m.recurso_cpu;
  recurso_mem = with_cola f m.recurso_mem;
  recurso_gpu = with_cola f m.recurso_gpu;
}

unfoldable pub limpiar_colas_por_id : ℤ → ResourceManager → ResourceManager
unfolding each_cola queue_delete_by_job_id
limpiar_colas_por_id job_id = each_cola (λ c. queue_delete_by_job_id c job_id)

unfoldable pub limpiar_colas_por_conn : ℕ → ResourceManager → ResourceManager
unfolding each_cola queue_delete_by_conn
limpiar_colas_por_conn conn = each_cola (λ c. queue_delete_by_conn c conn)
