-- ===== src/Manager/Events.antt =====
-- agente_c/src/resource_manager.c: the calls that the server makes beside `process_message`, and the
-- agent as a machine that takes one event after another.
use tp_sist_op.Parsing.JobRequest.{ResourceRequest}
use tp_sist_op.Prelude.{ℕ, List, [], ◌∷◌, Option}
use tp_sist_op.Prelude.Int.{ℤ}
use tp_sist_op.ResourceTypes.{Resource}
use tp_sist_op.Queue.{queue_destroy}
use tp_sist_op.Jobs.{OutRequest, Job, TablaJobs}
use tp_sist_op.Jobs.Sweep.{tabla_jobs_extract_by_remote_conn, tabla_jobs_get_pendientes_by_conn}
use tp_sist_op.Conns.{tabla_conns_insert, tabla_conns_delete_by_conn, tabla_conns_destroy}
use tp_sist_op.Nodes.{tabla_nodos_insert_or_update, tabla_nodos_purge, tabla_nodos_destroy}
use tp_sist_op.Manager.{
  ResourceManager, agente_remoto, send_message, limpiar_colas_por_id, limpiar_colas_por_conn,
  each_cola,
}
use tp_sist_op.Manager.Handlers.{
  drop_allocs, on_reserve, on_release, on_granted, on_denied, on_job_release, on_job_status,
  on_job_timeout,
}
use tp_sist_op.Manager.Requests.{on_job_request}
use tp_sist_op.Manager.NodeList.{on_get_nodes}

-- The loop over the jobs that a lost connection took with it.
unfoldable pub drop_jobs : List Job → ResourceManager → ResourceManager
unfolding limpiar_colas_por_id drop_allocs
drop_jobs [] m = m
drop_jobs (lista ∷ sig) m =
    drop_jobs sig (drop_allocs lista.job_id lista.confirmadas (limpiar_colas_por_id lista.job_id m))

unfoldable pub process_connection_failed : ℕ → ResourceManager → ResourceManager
unfolding tabla_jobs_extract_by_remote_conn drop_jobs
process_connection_failed conn m =
    let (t, lista) = tabla_jobs_extract_by_remote_conn m.tabla conn in
    drop_jobs lista (record m { tabla = t })

unfoldable pub process_disconnect : ℕ → ResourceManager → ResourceManager
unfolding limpiar_colas_por_conn process_connection_failed tabla_conns_delete_by_conn
process_disconnect conn m =
    let m' = process_connection_failed conn (limpiar_colas_por_conn conn m) in
    record m' { conns = tabla_conns_delete_by_conn m'.conns conn }

unfoldable pub send_requests : ℕ → List OutRequest → ResourceManager → ResourceManager
unfolding tabla_conns_insert send_message
send_requests conn [] m = m
send_requests conn (lista ∷ next) m = send_requests conn next (
    send_message conn agente_remoto lista.msg
      (record m { conns = tabla_conns_insert m.conns lista.ip conn }))

unfoldable pub process_connection_ready : ℕ → ResourceManager → ResourceManager
unfolding tabla_jobs_get_pendientes_by_conn send_requests
process_connection_ready conn m =
    send_requests conn (tabla_jobs_get_pendientes_by_conn m.tabla conn) m

-- An announcement that was parsed, at the time `now`.
unfoldable pub process_announce : List ℕ → ℤ → ℤ → ℤ → ℤ → ℤ → ResourceManager → ResourceManager
unfolding tabla_nodos_insert_or_update
process_announce ip_sender puerto c m g now s = record s {
  nodos = tabla_nodos_insert_or_update s.nodos ip_sender puerto c m g now;
}

unfoldable pub destroy_jobs : TablaJobs → TablaJobs
destroy_jobs [] = []
destroy_jobs (b ∷ bs) = [] ∷ destroy_jobs bs

unfoldable pub manager_destroy : ResourceManager → ResourceManager
unfolding each_cola queue_destroy destroy_jobs tabla_conns_destroy tabla_nodos_destroy
manager_destroy m =
    let m' = each_cola queue_destroy m in
    record m' {
      tabla = destroy_jobs m.tabla;
      conns = tabla_conns_destroy m.conns;
      nodos = tabla_nodos_destroy m.nodos;
    }

-- A message that was parsed, without the connection that it came over. Others change nothing.
pub data Command : Type 0 where
  reserve : ℤ → Resource → ℤ → Command
  release : ℤ → Resource → ℤ → Command
  granted : ℤ → Command
  denied : ℤ → Command
  job_request : ℤ → List ResourceRequest → Command
  get_nodes : Command
  job_release : ℤ → Command
  job_status : ℤ → Command
  job_timeout : ℤ → Command
  ignored : Command

-- `process_message` behind the parsers; `tries` are the results of `connect_remote_node`.
unfoldable pub execute : ℕ → Command → List (Option ℕ) → ResourceManager → ResourceManager
unfolding on_reserve on_release on_granted on_denied on_job_request on_get_nodes on_job_release
    on_job_status on_job_timeout
execute conn (reserve id tipo amount) tries m = on_reserve conn id tipo amount m
execute conn (release id tipo amount) tries m = on_release id tipo amount m
execute conn (granted id) tries m = on_granted conn id m
execute conn (denied id) tries m = on_denied id m
execute conn (job_request id reqs) tries m = on_job_request conn id reqs tries m
execute conn get_nodes tries m = on_get_nodes conn m
execute conn (job_release id) tries m = on_job_release id m
execute conn (job_status id) tries m = on_job_status conn id m
execute conn (job_timeout id) tries m = on_job_timeout id m
execute conn ignored tries m = m

pub data Event : Type 0 where
  message : ℕ → Command → List (Option ℕ) → Event
  announce : List ℕ → ℤ → ℤ → ℤ → ℤ → ℤ → Event
  purge : ℤ → ℤ → Event
  disconnect : ℕ → Event
  connection_ready : ℕ → Event
  connection_failed : ℕ → Event

unfoldable pub step : ResourceManager → Event → ResourceManager
unfolding execute process_announce tabla_nodos_purge process_disconnect process_connection_ready
    process_connection_failed
step m (message conn c tries) = execute conn c tries m
step m (announce ip puerto c mm g now) = process_announce ip puerto c mm g now m
step m (purge timeout now) = record m { nodos = tabla_nodos_purge m.nodos timeout now }
step m (disconnect conn) = process_disconnect conn m
step m (connection_ready conn) = process_connection_ready conn m
step m (connection_failed conn) = process_connection_failed conn m

unfoldable pub run : ResourceManager → List Event → ResourceManager
unfolding step
run m [] = m
run m (e ∷ es) = run (step m e) es
