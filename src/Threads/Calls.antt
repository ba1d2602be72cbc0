-- ===== src/Threads/Calls.antt =====
-- The operations of agente_c/src/resource_manager.c and agente_c/src/tabla_jobs.c as programs, each
-- followed by the program `k`.
use tp_sist_op.Prelude.{
  ℕ, zero, suc, Bool, List, [], ◌∷◌, Option, none, some, if◌then◌else◌, length,
}
use tp_sist_op.Prelude.Int.{ℤ}
use tp_sist_op.ResourceTypes.{Resource, cpu, mem, gpu}
use tp_sist_op.Queue.{
  ColaPendingRequest, PendingRequest, Origin, queue_delete_by_conn, queue_delete_by_job_id,
}
use tp_sist_op.Jobs.{
  Allocation, Job, Result, Message, is_local_granted, is_remote, tabla_jobs_cambio_alloc,
  tabla_jobs_verificar, tabla_jobs_extract_by_id,
}
use tp_sist_op.Conns.{tabla_conns_lookup}
use tp_sist_op.Manager.{
  ResourceManager, Dest, erlang_local, agente_remoto, recurso, set_recurso, send_message,
  reserve_resource, can_serve, take_off, accepts, give_back, with_cola,
}
use tp_sist_op.Threads.{Lock, Prog, lock, unlock, access}

-- A read of the state.
abbrev pub look : (ResourceManager → Prog) → Prog
look = access (λ m. m)

-- `if (take_lock) pthread_mutex_lock(&manager.tabla.lock)`, and the unlock.
unfoldable pub lock_tabla_if : Bool → Prog → Prog
lock_tabla_if take_lock k = if take_lock then lock Lock.tabla k else k

unfoldable pub unlock_tabla_if : Bool → Prog → Prog
unlock_tabla_if take_lock k = if take_lock then unlock Lock.tabla k else k

-- `send_message`: `enqueue_write` takes the `write_mutex` of the connection.
unfoldable pub send_message_prog : ℕ → Dest → Message → Prog → Prog
send_message_prog conn dest msg k =
    lock (Lock.write conn) (access (send_message conn dest msg) (λ _. unlock (Lock.write conn) k))

unfoldable pub reserve_resource_prog : Resource → ℤ → ℤ → ℕ → Origin → (Result → Prog) → Prog
reserve_resource_prog tipo amount job_id conn origen k = lock (Lock.recurso tipo) (
    access (λ m. (reserve_resource tipo amount job_id conn origen m).0)
      (λ m. unlock (Lock.recurso tipo) (k (reserve_resource tipo amount job_id conn origen m).1)))

-- The body of the loop of `release_resource` behind `available_amount -= pending->amount`.
unfoldable pub notify_prog : Resource → PendingRequest → Prog → Prog
notify_prog tipo pending k =
    let id = pending.job_id in
    let c = pending.owner_conn in
    access (λ m. record m { tabla = tabla_jobs_cambio_alloc m.tabla id c tipo })
      (λ _. elim pending.origen [
        | Origin.remote ↦ send_message_prog c agente_remoto (Message.grant id) k
        | Origin.local ↦ look (λ m.
            if tabla_jobs_verificar m.tabla id
            then send_message_prog c erlang_local (Message.job_granted id) k
            else k)
      ])

unfoldable pub serve_top_prog : Resource → Prog → Prog
serve_top_prog tipo k =
    access (λ m. set_recurso tipo (take_off (recurso tipo m)).0 m)
      (λ m. elim (take_off (recurso tipo m)).1 [
        | none ↦ k
        | some pending ↦ notify_prog tipo pending k
      ])

unfoldable pub serve_prog : ℕ → Resource → Prog → Prog
serve_prog zero tipo k = k
serve_prog (suc fuel) tipo k =
    look
      (λ m. if can_serve (recurso tipo m) then serve_top_prog tipo (serve_prog fuel tipo k) else k)

unfoldable pub release_resource_prog : Resource → ℤ → Bool → Prog → Prog
release_resource_prog tipo amount take_lock k =
    let leave = unlock (Lock.recurso tipo) (unlock_tabla_if take_lock k) in
    lock_tabla_if take_lock (
      lock (Lock.recurso tipo) (
        look (λ m.
          if accepts (recurso tipo m) amount
          then access (λ s. set_recurso tipo (give_back (recurso tipo s) amount) s)
              (λ s. serve_prog (length (recurso tipo s).cola.nodes) tipo leave)
          else leave)))

-- Each queue in turn, under its own mutex.
unfoldable pub clean_prog : (ColaPendingRequest → ColaPendingRequest) → Resource → Prog → Prog
clean_prog f tipo k = lock (Lock.recurso tipo) (
    access (λ m. set_recurso tipo (with_cola f (recurso tipo m)) m)
      (λ _. unlock (Lock.recurso tipo) k))

unfoldable pub limpiar_colas_prog : (ColaPendingRequest → ColaPendingRequest) → Prog → Prog
limpiar_colas_prog f k = clean_prog f cpu (clean_prog f mem (clean_prog f gpu k))

unfoldable pub limpiar_colas_por_id_prog : ℤ → Prog → Prog
limpiar_colas_por_id_prog job_id = limpiar_colas_prog (λ c. queue_delete_by_job_id c job_id)

unfoldable pub limpiar_colas_por_conn_prog : ℕ → Prog → Prog
limpiar_colas_por_conn_prog conn = limpiar_colas_prog (λ c. queue_delete_by_conn c conn)

-- `tabla_conns_lookup`, under the mutex of the table.
unfoldable pub lookup_prog : List ℕ → (Option ℕ → Prog) → Prog
lookup_prog ip k =
    lock Lock.conns (look (λ m. unlock Lock.conns (k (tabla_conns_lookup m.conns ip))))

unfoldable pub release_remote_prog : ℤ → Allocation → Prog → Prog
release_remote_prog job_id all k = lookup_prog all.ip (elim [
  | none ↦ k
  | some remote ↦
      send_message_prog remote agente_remoto (Message.release job_id all.name all.amount) k
])

unfoldable pub drop_alloc_prog : ℤ → Bool → Allocation → Prog → Prog
drop_alloc_prog job_id take_lock all k =
    if is_local_granted all
    then release_resource_prog all.name all.amount take_lock k
    else if is_remote all
    then release_remote_prog job_id all k
    else k

unfoldable pub drop_allocs_prog : ℤ → Bool → List Allocation → Prog → Prog
drop_allocs_prog job_id take_lock [] k = k
drop_allocs_prog job_id take_lock (all ∷ sig) k =
    drop_alloc_prog job_id take_lock all (drop_allocs_prog job_id take_lock sig k)

-- The allocations of the job that the walk unlinked.
unfoldable pub allocations_of : Option Job → List Allocation
allocations_of none = []
allocations_of (some job) = job.confirmadas

-- Unlinks the job of this id.
unfoldable pub unlink_by_id : ℤ → ResourceManager → ResourceManager
unlink_by_id job_id m = record m { tabla = (tabla_jobs_extract_by_id m.tabla job_id).0 }

-- The callers pass the same value for `take_lock` and `take_lock_reserve`.
unfoldable pub tabla_jobs_remove_prog : ℤ → Bool → Prog → Prog
tabla_jobs_remove_prog job_id take_lock k = lock_tabla_if take_lock (
    access (unlink_by_id job_id) (λ m. unlock_tabla_if take_lock (
      drop_allocs_prog job_id take_lock (allocations_of (tabla_jobs_extract_by_id m.tabla job_id).1)
        k)))
