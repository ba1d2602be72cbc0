-- ===== src/Threads/Building.antt =====
-- The branch JOB_REQUEST of `process_message` in agente_c/src/resource_manager.c as a program.
use tp_sist_op.Parsing.JobRequest.{ResourceRequest}
use tp_sist_op.Prelude.{ℕ, true, false, List, [], ◌∷◌, Option, none, some, if◌then◌else◌, bytes_eq}
use tp_sist_op.Prelude.Int.{ℤ}
use tp_sist_op.Queue.{Origin}
use tp_sist_op.Jobs.{
  AllocType, Job, Result, Message, crear_allocation, crear_outrequest, tabla_jobs_buscar_por_id,
  tabla_jobs_insertar_job, tabla_jobs_verificar,
}
use tp_sist_op.Nodes.{tabla_nodos_get_puerto}
use tp_sist_op.Manager.{ResourceManager, erlang_local, agente_remoto}
use tp_sist_op.Manager.Requests.{nuevo_job, add_alloc, add_outrequest, attempt}
use tp_sist_op.Threads.{Lock, Prog, done, lock, unlock, access}
use tp_sist_op.Threads.Calls.{
  look, send_message_prog, reserve_resource_prog, limpiar_colas_por_id_prog, lookup_prog,
  drop_allocs_prog,
}

-- The planner is told after the table is unlocked.
unfoldable pub give_up_prog : ℕ → ℤ → Job → Prog
give_up_prog conn job_id job = limpiar_colas_por_id_prog job_id (
    drop_allocs_prog job_id false job.confirmadas
      (unlock Lock.tabla (send_message_prog conn erlang_local (Message.job_denied job_id) done)))

-- `tabla_nodos_get_puerto`, under the mutex of the table.
unfoldable pub get_puerto_prog : List ℕ → (ℤ → Prog) → Prog
get_puerto_prog ip k =
    lock Lock.nodos (look (λ m. unlock Lock.nodos (k (tabla_nodos_get_puerto m.nodos ip))))

unfoldable pub insert_job : Job → ResourceManager → ResourceManager
insert_job job m = record m { tabla = tabla_jobs_insertar_job m.tabla job }

-- What follows the loop.
unfoldable pub finish_prog : ℕ → ℤ → Job → Prog
finish_prog conn job_id job = access (insert_job job) (λ _. look (λ m.
    if tabla_jobs_verificar m.tabla job_id
    then send_message_prog conn erlang_local (Message.job_granted job_id) (unlock Lock.tabla done)
    else unlock Lock.tabla done))

-- The local allocation of a request.
unfoldable pub with_alloc : ℕ → ℤ → ResourceRequest → List ℕ → Result → Job → Job
with_alloc conn job_id head ip r =
    add_alloc (crear_allocation head.type head.amount AllocType.local ip job_id r conn)

-- The pending request of a request.
unfoldable pub with_outrequest : ResourceRequest → ℕ → Option Message → Job → Job
with_outrequest head conn msg =
    add_outrequest (crear_outrequest head.ip conn head.type head.amount msg)

-- The loop over the list of requests. `g_ip` is read without a lock: it is set once, at the start.
unfoldable pub requests_prog : ℕ → ℤ → List ResourceRequest → List (Option ℕ) → Job → Prog
requests_prog conn job_id [] tries job = finish_prog conn job_id job
requests_prog conn job_id (head ∷ next) tries job =
    let msg = Message.reserve job_id head.type head.amount in
    look (λ m. elim (bytes_eq head.ip m.ip) [
      | true ↦ reserve_resource_prog head.type head.amount job_id conn Origin.local (elim [
        | Result.granted ↦
            requests_prog conn job_id next tries
              (with_alloc conn job_id head m.ip Result.granted job)
        | Result.queued ↦
            requests_prog conn job_id next tries
              (with_alloc conn job_id head m.ip Result.queued job)
        | Result.denied ↦ give_up_prog conn job_id job
      ])
      | false ↦ lookup_prog head.ip (elim [
        | some remote ↦
            send_message_prog remote agente_remoto msg
              (requests_prog conn job_id next tries (with_outrequest head remote none job))
        | none ↦ get_puerto_prog head.ip (λ puerto. elim (attempt puerto tries).0 [
          | none ↦ give_up_prog conn job_id job
          | some c ↦
              requests_prog conn job_id next (attempt puerto tries).1
                (with_outrequest head c (some msg) job)
        ])
      ])
    ])

unfoldable pub on_job_request_prog : ℕ → ℤ → List ResourceRequest → List (Option ℕ) → Prog
on_job_request_prog conn job_id reqs tries = lock Lock.tabla (
    look (λ m. elim (tabla_jobs_buscar_por_id m.tabla job_id) [
      | some j ↦ unlock Lock.tabla done
      | none ↦ requests_prog conn job_id reqs tries (nuevo_job conn job_id)
    ]))
