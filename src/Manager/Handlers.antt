-- ===== src/Manager/Handlers.antt =====
-- agente_c/src/resource_manager.c: the branches of `process_message`, on a message that is parsed, and
-- `tabla_jobs_remove` of tabla_jobs.c.
use tp_sist_op.Prelude.{ℕ, List, [], ◌∷◌, none, some, ◌&&◌, if◌then◌else◌}
use tp_sist_op.Prelude.Int.{ℤ, pos, eqb_ℤ}
use tp_sist_op.ResourceTypes.{Resource, cpu, mem, gpu}
use tp_sist_op.Queue.{Origin}
use tp_sist_op.Jobs.{
  Allocation, Job, Result, Message, is_local_granted, is_remote, job_confirmar, update_job,
  tabla_jobs_buscar_por_id, tabla_jobs_get_conn, tabla_jobs_verificar, tabla_jobs_extract_by_id,
}
use tp_sist_op.Conns.{tabla_conns_lookup, tabla_conns_get_ip_by_conn}
use tp_sist_op.Manager.{
  ResourceManager, erlang_local, agente_remoto, send_message, reserve_resource, release_resource,
  limpiar_colas_por_id,
}

-- RESERVE.
unfoldable pub on_reserve : ℕ → ℤ → Resource → ℤ → ResourceManager → ResourceManager
unfolding reserve_resource send_message
on_reserve conn job_id tipo amount m =
    let (m', r) = reserve_resource tipo amount job_id conn Origin.remote m in
    elim r [
      | Result.granted ↦ send_message conn agente_remoto (Message.grant job_id) m'
      | Result.queued ↦ m'
      | Result.denied ↦ send_message conn agente_remoto (Message.deny job_id) m'
    ]

-- Sends RELEASE to the connection that is known for an IP, if one is.
unfoldable pub release_remote : ℤ → Allocation → ResourceManager → ResourceManager
unfolding tabla_conns_lookup send_message
release_remote job_id all m = elim (tabla_conns_lookup m.conns all.ip) [
  | none ↦ m
  | some remote ↦ send_message remote agente_remoto (Message.release job_id all.name all.amount) m
]

-- What happens to an allocation of a job that goes: a local one that was granted is given back, and
-- the node of a remote one is told.
unfoldable pub drop_alloc : ℤ → Allocation → ResourceManager → ResourceManager
unfolding is_local_granted is_remote release_resource release_remote
drop_alloc job_id all m =
    if is_local_granted all
    then release_resource all.name all.amount m
    else if is_remote all
    then release_remote job_id all m
    else m

unfoldable pub drop_allocs : ℤ → List Allocation → ResourceManager → ResourceManager
unfolding drop_alloc
drop_allocs job_id [] m = m
drop_allocs job_id (all ∷ sig) m = drop_allocs job_id sig (drop_alloc job_id all m)

unfoldable pub tabla_jobs_remove : ℤ → ResourceManager → ResourceManager
unfolding tabla_jobs_extract_by_id drop_allocs
tabla_jobs_remove job_id m =
    let (t, start) = tabla_jobs_extract_by_id m.tabla job_id in
    elim start [
      | none ↦ record m { tabla = t }
      | some job ↦ drop_allocs job_id job.confirmadas (record m { tabla = t })
    ]

-- RELEASE.
unfoldable pub on_release : ℤ → Resource → ℤ → ResourceManager → ResourceManager
unfolding release_resource tabla_jobs_remove limpiar_colas_por_id
on_release job_id tipo amount m =
    let m' = if eqb_ℤ amount (pos 0) then m else release_resource tipo amount m in
    limpiar_colas_por_id job_id (tabla_jobs_remove job_id m')

-- The three empty RELEASE that answer a GRANTED for a job that is gone.
unfoldable pub release_ghost : ℕ → ℤ → ResourceManager → ResourceManager
unfolding send_message
release_ghost conn job_id m = send_message conn agente_remoto (Message.release job_id gpu (pos 0)) (
    send_message conn agente_remoto (Message.release job_id mem (pos 0))
      (send_message conn agente_remoto (Message.release job_id cpu (pos 0)) m))

-- `job_confirmar` changes the job in the table; a job that is complete by it is announced.
unfoldable pub confirm : Job → List ℕ → ℤ → ResourceManager → ResourceManager
unfolding job_confirmar update_job tabla_jobs_verificar send_message
confirm check ip job_id m =
    let m' = record m { tabla = update_job m.tabla job_id (λ j. (job_confirmar j ip job_id).0) } in
    if (job_confirmar check ip job_id).1 && tabla_jobs_verificar m'.tabla job_id
    then send_message check.conn erlang_local (Message.job_granted job_id) m'
    else m'

-- GRANTED.
unfoldable pub on_granted : ℕ → ℤ → ResourceManager → ResourceManager
unfolding tabla_conns_get_ip_by_conn tabla_jobs_buscar_por_id release_ghost confirm
on_granted conn job_id m = elim (tabla_conns_get_ip_by_conn m.conns conn) [
  | none ↦ m
  | some ip_remoto ↦ elim (tabla_jobs_buscar_por_id m.tabla job_id) [
    | none ↦ release_ghost conn job_id m
    | some check ↦ confirm check ip_remoto job_id m
  ]
]

-- DENIED.
unfoldable pub on_denied : ℤ → ResourceManager → ResourceManager
unfolding tabla_jobs_get_conn tabla_jobs_remove send_message limpiar_colas_por_id
on_denied job_id m = elim (tabla_jobs_get_conn m.tabla job_id) [
  | none ↦ limpiar_colas_por_id job_id m
  | some owner ↦
      limpiar_colas_por_id job_id
        (send_message owner erlang_local (Message.job_denied job_id) (tabla_jobs_remove job_id m))
]

-- The round of JOB_RELEASE for one allocation.
unfoldable pub release_alloc : Allocation → ResourceManager → ResourceManager
unfolding is_local_granted is_remote release_resource limpiar_colas_por_id send_message
release_alloc alloc m =
    let m' =
      if is_local_granted alloc
      then release_resource alloc.name alloc.amount m
      else limpiar_colas_por_id alloc.job_id m in
    if is_remote alloc
    then send_message alloc.conn agente_remoto
        (Message.release alloc.job_id alloc.name alloc.amount) m'
    else m'

unfoldable pub release_allocs : List Allocation → ResourceManager → ResourceManager
unfolding release_alloc
release_allocs [] m = m
release_allocs (alloc ∷ sig) m = release_allocs sig (release_alloc alloc m)

-- JOB_RELEASE.
unfoldable pub on_job_release : ℤ → ResourceManager → ResourceManager
unfolding tabla_jobs_extract_by_id release_allocs limpiar_colas_por_id
on_job_release job_id m =
    let (t, eliminar_job) = tabla_jobs_extract_by_id m.tabla job_id in
    elim eliminar_job [
      | none ↦ record m { tabla = t }
      | some job ↦
          limpiar_colas_por_id job_id (release_allocs job.confirmadas (record m { tabla = t }))
    ]

-- JOB_STATUS.
unfoldable pub on_job_status : ℕ → ℤ → ResourceManager → ResourceManager
unfolding tabla_jobs_get_conn send_message
on_job_status conn job_id m = elim (tabla_jobs_get_conn m.tabla job_id) [
  | none ↦ send_message conn erlang_local (Message.job_unknown job_id) m
  | some c ↦ send_message conn erlang_local (Message.job_active job_id) m
]

-- JOB_TIMEOUT.
unfoldable pub on_job_timeout : ℤ → ResourceManager → ResourceManager
unfolding tabla_jobs_remove limpiar_colas_por_id
on_job_timeout job_id m = limpiar_colas_por_id job_id (tabla_jobs_remove job_id m)
