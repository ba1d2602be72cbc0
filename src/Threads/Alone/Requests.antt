-- ===== src/Threads/Alone/Requests.antt =====
-- JOB_REQUEST alone: its program does what the branch of `process_message` does
-- (agente_c/src/resource_manager.c).
use tp_sist_op.Parsing.JobRequest.{ResourceRequest}
use tp_sist_op.Prelude.{
  ℕ, List, [], ◌∷◌, Option, ◌≡◌, refl, inl, inr, bytes_eq, Bool-cases, Option-cases,
}
use tp_sist_op.Prelude.Int.{ℤ}
use tp_sist_op.Queue.{Origin}
use tp_sist_op.Jobs.{
  Job, Result, tabla_jobs_buscar_por_id, tabla_jobs_insertar_job, tabla_jobs_verificar,
}
use tp_sist_op.Conns.{tabla_conns_lookup}
use tp_sist_op.Nodes.{tabla_nodos_get_puerto}
use tp_sist_op.Manager.{ResourceManager, reserve_resource}
use tp_sist_op.Manager.Requests.{
  built, given_up, nuevo_job, give_up, attempt, process_requests, finish_request, on_job_request,
}
use tp_sist_op.Threads.{alone}
use tp_sist_op.Manager.Building.{Result-cases}
use tp_sist_op.Threads.Alone.{alone_rules}
use tp_sist_op.Threads.Calls.{lookup_prog, send_message_prog, reserve_resource_prog}
use tp_sist_op.Threads.Building.{
  give_up_prog, get_puerto_prog, finish_prog, insert_job, with_alloc, with_outrequest,
  requests_prog, on_job_request_prog,
}

alone-give_up :
    (conn : ℕ) (id : ℤ) (j : Job) (m : ResourceManager)
    → alone (give_up_prog conn id j) m ≡ finish_request conn id (given_up (give_up conn id j m))
unfolding alone give_up_prog finish_request give_up
alone-give_up conn id j m = simp alone_rules

alone-finish :
    (conn : ℕ) (id : ℤ) (j : Job) (m : ResourceManager)
    → alone (finish_prog conn id j) m ≡ finish_request conn id (built j m)
unfolding alone finish_prog finish_request insert_job
alone-finish conn id j m =
    elim (Bool-cases (tabla_jobs_verificar (tabla_jobs_insertar_job m.tabla j) id)) [
      | inl e ↦ rw (e, alone, finish_request) (simp alone_rules)
      | inr e ↦ rw (e, alone, finish_request) refl
    ]

alone-requests :
    (conn : ℕ) (id : ℤ) (reqs : List ResourceRequest) (tries : List (Option ℕ)) (j : Job)
    (m : ResourceManager)
    → alone (requests_prog conn id reqs tries j) m
      ≡ finish_request conn id (process_requests conn id reqs tries j m)
unfolding alone requests_prog reserve_resource_prog lookup_prog get_puerto_prog send_message_prog
    process_requests with_alloc with_outrequest
alone-requests conn id [] tries j m = alone-finish conn id j m
alone-requests conn id (r ∷ reqs) tries j m = elim (Bool-cases (bytes_eq r.ip m.ip)) [
  | inl here ↦
      let (m', res) = reserve_resource r.type r.amount id conn Origin.local m in
      rw (here, alone, process_requests)
        (elim (Result-cases res) [
          | inl e ↦
              rw (e, alone, process_requests)
                (alone-requests conn id reqs tries (with_alloc conn id r m.ip Result.granted j) m')
          | inr (inl e) ↦
              rw (e, alone, process_requests)
                (alone-requests conn id reqs tries (with_alloc conn id r m.ip Result.queued j) m')
          | inr (inr e) ↦ rw (e, alone, process_requests) (alone-give_up conn id j m')
        ])
  | inr far ↦
      rw (far, alone, process_requests)
        (elim (Option-cases (tabla_conns_lookup m.conns r.ip)) [
          | inl e ↦
              rw (e, alone, process_requests)
                (elim (Option-cases (attempt (tabla_nodos_get_puerto m.nodos r.ip) tries).0) [
                  | inl failed ↦ rw (failed, alone, process_requests) (alone-give_up conn id j m)
                  | inr (c, started) ↦
                      rw (started, alone, process_requests) (alone-requests conn id reqs _ _ m)
                ])
          | inr (c, e) ↦ rw (e, alone, process_requests) (alone-requests conn id reqs tries _ _)
        ])
]

pub alone-on_job_request :
    (conn : ℕ) (id : ℤ) (reqs : List ResourceRequest) (tries : List (Option ℕ))
    (m : ResourceManager)
    → alone (on_job_request_prog conn id reqs tries) m ≡ on_job_request conn id reqs tries m
unfolding alone on_job_request_prog on_job_request
alone-on_job_request conn id reqs tries m =
    elim (Option-cases (tabla_jobs_buscar_por_id m.tabla id)) [
      | inl e ↦
          rw (e, alone, on_job_request) (alone-requests conn id reqs tries (nuevo_job conn id) m)
      | inr (j, e) ↦ rw (e, alone, on_job_request) refl
    ]
