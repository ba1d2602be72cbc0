-- ===== src/Tests/Tables.antt =====
-- The queue and the tables at concrete states: the theorems applied, and small runs.
use tp_sist_op.Prelude.{
  ℕ, suc, ◌+◌, ◌-◌, true, false, List, [], ◌∷◌, none, some, ◌≡◌, refl, ◌↔◌, arith, ◌==◌,
  if◌then◌else◌, length, get_or, set, replicate, All, bytes_eq,
}
use tp_sist_op.Prelude.Int.{ℤ, pos, eqb_ℤ}
use tp_sist_op.ResourceTypes.{Resource, cpu, mem}
use tp_sist_op.Jobs.{
  AllocType, Result, Message, Allocation, OutRequest, Job, TablaJobs, tam_tabla_jobs, job_index,
  bucket, tabla_jobs_init, find_job, tabla_jobs_buscar_por_id, tabla_jobs_insertar_job,
  tabla_jobs_extract_by_id, tabla_jobs_verificar, is_local_of, is_local_queued, any_local_queued,
  job_confirmar,
}
use tp_sist_op.Jobs.Lookup.{extract_by_id-buscar}
use tp_sist_op.Jobs.Grants.{
  asked, has_pending, job_confirmar_correct, tabla_jobs_verificar_iff, queued_of, grant_times,
  grant_times-queued,
}
use tp_sist_op.Conns.{
  ConnEntry, tabla_conns_init, tabla_conns_insert, tabla_conns_lookup, tabla_conns_delete_by_conn,
}
use tp_sist_op.Conns.Lookup.{entries_of, lookup-insert, delete_by_conn-entries_of}
use tp_sist_op.Nodes.{
  NodeEntry, TablaNodos, tabla_nodos_init, tabla_nodos_insert_or_update, is_expired,
  tabla_nodos_purge,
}
use tp_sist_op.Nodes.Purge.{node_of, announced, node_of-insert_or_update, tabla_nodos_purge_correct}

-- The table of jobs.

abbrev owner_alloc : Resource → ℤ → Result → Allocation
owner_alloc name amount result = record {
  name = name;
  amount = amount;
  type = AllocType.local;
  ip = [];
  job_id = pos 6;
  result = result;
  conn = 2;
}

abbrev remote_ip : List ℕ
remote_ip = 49 ∷ 48 ∷ 46 ∷ 49 ∷ []

abbrev asked_remotely : OutRequest
asked_remotely = record {
  ip = remote_ip;
  conn = 9;
  tipo = mem;
  amount = pos 2;
  msg = Message.reserve (pos 6) mem (pos 2);
}

abbrev open_job : Job
open_job = record {
  job_id = pos 6;
  conn = 2;
  confirmadas = owner_alloc cpu (pos 2) Result.queued ∷ [];
  pendientes = asked_remotely ∷ [];
}

abbrev one_job : TablaJobs
one_job = tabla_jobs_insertar_job tabla_jobs_init open_job

one_job-width : length one_job ≡ tam_tabla_jobs
unfolding tabla_jobs_insertar_job tabla_jobs_init set replicate
one_job-width = refl

job_confirmar_correct_example :
    let (j', done) = job_confirmar open_job remote_ip (pos 6) in
    (done ≡ has_pending remote_ip open_job.pendientes)
    × (done ≡ false → j' ≡ open_job)
    × (length j'.confirmadas + length j'.pendientes
        ≡ length open_job.confirmadas + length open_job.pendientes)
    × (done ≡ true
        → (length open_job.pendientes ≡ suc (length j'.pendientes))
          × (any_local_queued j'.confirmadas ≡ any_local_queued open_job.confirmadas))
    × ((tipo : Resource) → asked tipo j' ≡ asked tipo open_job)
job_confirmar_correct_example = job_confirmar_correct open_job remote_ip (pos 6)

tabla_jobs_verificar_iff_example : (tabla_jobs_verificar one_job (pos 6) ≡ true) ↔ (
    (j : Job) × (tabla_jobs_buscar_por_id one_job (pos 6) ≡ some j)
    × All (λ a. is_local_queued a ≡ false) j.confirmadas
    × (j.pendientes ≡ []))
tabla_jobs_verificar_iff_example = tabla_jobs_verificar_iff one_job (pos 6)

abbrev two_queued : List Allocation
two_queued = owner_alloc cpu (pos 2) Result.queued ∷ owner_alloc cpu (pos 1) Result.queued ∷ []

grant_times-queued_example : any_local_queued (grant_times 2 2 cpu two_queued) ≡ true
unfolding queued_of is_local_of is_local_queued
grant_times-queued_example = grant_times-queued 2 2 cpu two_queued (omega arith)

extract_by_id-buscar_example :
    ((tabla_jobs_extract_by_id one_job (pos 6)).1 ≡ tabla_jobs_buscar_por_id one_job (pos 6))
    × (tabla_jobs_buscar_por_id (tabla_jobs_extract_by_id one_job (pos 6)).0 (pos 77)
        ≡ (if eqb_ℤ (pos 6) (pos 77) then none else tabla_jobs_buscar_por_id one_job (pos 77)))
unfolding job_index tabla_jobs_init tabla_jobs_insertar_job bucket get_or set replicate find_job
extract_by_id-buscar_example =
    extract_by_id-buscar one_job (pos 6) (pos 77) one_job-width (omega arith) (refl, tt)

abbrev without_pending : Job → Job
without_pending j = record j { pendientes = [] }

-- The tables by IP.

lookup-insert_example :
    tabla_conns_lookup (tabla_conns_insert tabla_conns_init remote_ip 9) remote_ip ≡ (
      if bytes_eq remote_ip remote_ip
      then some 9
      else tabla_conns_lookup tabla_conns_init remote_ip)
unfolding tabla_conns_init replicate
lookup-insert_example = lookup-insert tabla_conns_init remote_ip remote_ip 9 refl (omega arith)

abbrev twice : List (List ConnEntry)
twice = (record { ip = remote_ip; conn = 9 } ∷ record { ip = []; conn = 9 } ∷ []) ∷ []

delete_by_conn-entries_of_example :
    entries_of 9 (get_or (tabla_conns_delete_by_conn twice 9) 0 [])
    ≡ (if 9 == 9 then entries_of 9 (get_or twice 0 []) - 1 else entries_of 9 (get_or twice 0 []))
delete_by_conn-entries_of_example = delete_by_conn-entries_of twice 9 9 0

node_of-insert_or_update_example :
    node_of
      (tabla_nodos_insert_or_update tabla_nodos_init remote_ip
        (pos 80)
        (pos 4)
        (pos 8)
        (pos 1)
        (pos 3))
      remote_ip
    ≡ (if bytes_eq remote_ip remote_ip
        then some (announced remote_ip (pos 80) (pos 4) (pos 8) (pos 1) (pos 3))
        else node_of tabla_nodos_init remote_ip)
unfolding tabla_nodos_init replicate
node_of-insert_or_update_example =
    node_of-insert_or_update remote_ip (pos 80) (pos 4) (pos 8) (pos 1) (pos 3) tabla_nodos_init
      remote_ip refl (omega arith)

abbrev one_node : TablaNodos
one_node = (announced remote_ip (pos 80) (pos 4) (pos 8) (pos 1) (pos 3) ∷ []) ∷ []

tabla_nodos_purge_correct_example :
    ((i : ℕ)
      → All
          (λ n. is_expired (pos 20) (pos 15) n ≡ false)
          (get_or (tabla_nodos_purge one_node (pos 15) (pos 20)) i []))
    × ((ip : List ℕ) (n : NodeEntry)
        → node_of one_node ip ≡ some n
        → is_expired (pos 20) (pos 15) n ≡ false
        → node_of (tabla_nodos_purge one_node (pos 15) (pos 20)) ip ≡ some n)
tabla_nodos_purge_correct_example = tabla_nodos_purge_correct one_node (pos 15) (pos 20)
