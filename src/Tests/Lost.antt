-- ===== src/Tests/Lost.antt =====
-- A job that asks for more of a resource than is free, and times out.
use tp_sist_op.Parsing.JobRequest.{ResourceRequest}
use tp_sist_op.Prelude.{List, [], ◌∷◌, none, ◌≡◌, refl, arith, get_or, replicate, set}
use tp_sist_op.Prelude.Int.{pos, ◌+ℤ◌, ◌-ℤ◌}
use tp_sist_op.ResourceTypes.{cpu}
use tp_sist_op.Queue.{PendingRequest, Origin}
use tp_sist_op.Jobs.{
  Allocation, Job, Result, AllocType, bucket, job_index, tabla_jobs_buscar_por_id,
}
use tp_sist_op.Manager.{ResourceManager, recurso, manager_init}
use tp_sist_op.Manager.Invariant.{IsValid, manager_init-IsValid}
use tp_sist_op.Manager.Requests.{on_job_request}
use tp_sist_op.Manager.Building.{on_job_request-IsValid}
use tp_sist_op.Manager.Handlers.{on_job_timeout}
use tp_sist_op.Manager.Orphaned.{on_job_timeout_loses}

abbrev asked : List ResourceRequest
asked =
    record { ip = []; type = cpu; amount = pos 5 }
    ∷ record { ip = []; type = cpu; amount = pos 2 }
    ∷ []

-- 6 CPUs; job 7 gets 5 of them and waits for 2 more.
abbrev overbooked : ResourceManager
overbooked = on_job_request 1 (pos 7) asked [] (manager_init (pos 6) (pos 8) (pos 1))

overbooked-IsValid : IsValid overbooked
overbooked-IsValid =
    on_job_request-IsValid 1 (pos 7) asked [] _ (refl, (refl, tt))
      (manager_init-IsValid _ _ _ (omega arith, refl) (omega arith, refl) (omega arith, refl))

abbrev waits : Allocation
waits = record {
  name = cpu;
  amount = pos 2;
  type = AllocType.local;
  ip = [];
  job_id = pos 7;
  result = Result.queued;
  conn = 1;
}

abbrev has : Allocation
has = record {
  name = cpu;
  amount = pos 5;
  type = AllocType.local;
  ip = [];
  job_id = pos 7;
  result = Result.granted;
  conn = 1;
}

abbrev job : Job
job = record { job_id = pos 7; conn = 1; confirmadas = waits ∷ has ∷ []; pendientes = [] }

abbrev request : PendingRequest
request = record { job_id = pos 7; amount = pos 2; owner_conn = 1; origen = Origin.local }

on_job_timeout_loses_example :
    (tabla_jobs_buscar_por_id (on_job_timeout (pos 7) overbooked).tabla (pos 7) ≡ none)
    × ((recurso cpu (on_job_timeout (pos 7) overbooked)).cola.nodes ≡ [])
    × ((recurso cpu (on_job_timeout (pos 7) overbooked)).available_amount
        ≡ (recurso cpu overbooked).available_amount +ℤ pos 5 -ℤ pos 2)
unfolding on_job_request recurso tabla_jobs_buscar_por_id bucket manager_init get_or replicate set
    job_index
on_job_timeout_loses_example =
    on_job_timeout_loses overbooked cpu (pos 7) job waits has request (overbooked-IsValid.sound cpu)
      overbooked-IsValid.jobs_width (omega arith) (refl, tt) refl refl refl refl refl refl
      (omega arith) refl refl refl (omega arith) (omega arith)
