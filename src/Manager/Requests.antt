-- ===== src/Manager/Requests.antt =====
-- agente_c/src/resource_manager.c: the branch JOB_REQUEST of `process_message`. What
-- `connect_remote_node` returns is given by the system: a list of its results, one for each call.
use tp_sist_op.Parsing.JobRequest.{ResourceRequest}
use tp_sist_op.Prelude.{ℕ, true, false, List, [], ◌∷◌, Option, none, some, if◌then◌else◌, bytes_eq}
use tp_sist_op.Prelude.Int.{ℤ, negsuc, eqb_ℤ}
use tp_sist_op.Queue.{Origin}
use tp_sist_op.Jobs.{
  Allocation, OutRequest, Job, AllocType, Result, Message, crear_allocation, crear_outrequest,
  tabla_jobs_buscar_por_id, tabla_jobs_insertar_job, tabla_jobs_verificar,
}
use tp_sist_op.Conns.{tabla_conns_lookup}
use tp_sist_op.Nodes.{tabla_nodos_get_puerto}
use tp_sist_op.Manager.{
  ResourceManager, erlang_local, agente_remoto, send_message, reserve_resource,
  limpiar_colas_por_id,
}
use tp_sist_op.Manager.Handlers.{drop_allocs}

-- A job that was built to its end, or one that was given up.
pub data Outcome : Type 0 where
  built : Job → ResourceManager → Outcome
  given_up : ResourceManager → Outcome

unfoldable pub nuevo_job : ℕ → ℤ → Job
nuevo_job conn job_id = record { job_id = job_id; conn = conn; confirmadas = []; pendientes = [] }

unfoldable pub add_alloc : Allocation → Job → Job
add_alloc a j = record j { confirmadas = a ∷ j.confirmadas }

unfoldable pub add_outrequest : OutRequest → Job → Job
add_outrequest r j = record j { pendientes = r ∷ j.pendientes }

-- Both ways to give a job up: its queued requests go, its allocations are dropped, and the planner
-- is told.
unfoldable pub give_up : ℕ → ℤ → Job → ResourceManager → ResourceManager
unfolding limpiar_colas_por_id drop_allocs send_message
give_up conn job_id job m =
    send_message conn erlang_local (Message.job_denied job_id)
      (drop_allocs job_id job.confirmadas (limpiar_colas_por_id job_id m))

-- `connect_remote_node` is called for a known port only.
unfoldable pub attempt : ℤ → List (Option ℕ) → Option ℕ × List (Option ℕ)
attempt puerto [] = (none, [])
attempt puerto (c ∷ tries) = if eqb_ℤ puerto (negsuc 0) then (none, c ∷ tries) else (c, tries)

-- The loop over the list of requests.
unfoldable pub process_requests :
    ℕ → ℤ → List ResourceRequest → List (Option ℕ) → Job → ResourceManager → Outcome
unfolding bytes_eq reserve_resource crear_allocation crear_outrequest add_alloc add_outrequest
    give_up tabla_conns_lookup tabla_nodos_get_puerto attempt send_message
process_requests conn job_id [] tries job m = built job m
process_requests conn job_id (head ∷ next) tries job m = elim (bytes_eq head.ip m.ip) [
  | true ↦
      let (m', r) = reserve_resource head.type head.amount job_id conn Origin.local m in
      let with = λ (res : Result).
        add_alloc (crear_allocation head.type head.amount AllocType.local m.ip job_id res conn)
          job in
      elim r [
        | Result.granted ↦ process_requests conn job_id next tries (with Result.granted) m'
        | Result.queued ↦ process_requests conn job_id next tries (with Result.queued) m'
        | Result.denied ↦ given_up (give_up conn job_id job m')
      ]
  | false ↦ elim (tabla_conns_lookup m.conns head.ip) [
    | some remote ↦
        process_requests conn job_id next tries
          (add_outrequest (crear_outrequest head.ip remote head.type head.amount none) job)
          (send_message remote agente_remoto (Message.reserve job_id head.type head.amount) m)
    | none ↦
        let (intento, tries') = attempt (tabla_nodos_get_puerto m.nodos head.ip) tries in
        elim intento [
          | none ↦ given_up (give_up conn job_id job m)
          | some c ↦
              process_requests conn job_id next tries'
                (add_outrequest
                  (crear_outrequest head.ip c head.type head.amount
                    (some (Message.reserve job_id head.type head.amount)))
                  job)
                m
        ]
  ]
]

-- What follows the loop.
unfoldable pub finish_request : ℕ → ℤ → Outcome → ResourceManager
unfolding tabla_jobs_insertar_job tabla_jobs_verificar send_message
finish_request conn job_id (given_up m) = m
finish_request conn job_id (built job m) =
    let m' = record m { tabla = tabla_jobs_insertar_job m.tabla job } in
    if tabla_jobs_verificar m'.tabla job_id
    then send_message conn erlang_local (Message.job_granted job_id) m'
    else m'

-- JOB_REQUEST; a job whose id is in the table is ignored.
unfoldable pub on_job_request :
    ℕ → ℤ → List ResourceRequest → List (Option ℕ) → ResourceManager → ResourceManager
unfolding tabla_jobs_buscar_por_id process_requests finish_request nuevo_job
on_job_request conn job_id reqs tries m = elim (tabla_jobs_buscar_por_id m.tabla job_id) [
  | some j ↦ m
  | none ↦
      finish_request conn job_id (process_requests conn job_id reqs tries (nuevo_job conn job_id) m)
]
