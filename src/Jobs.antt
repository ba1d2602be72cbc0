-- ===== src/Jobs.antt =====
-- agente_c/src/tabla_jobs.c and its header: the table of jobs, a hash table whose buckets are lists.
-- `tabla_jobs_remove` stands with `release_resource`, which it calls; `Sweep` has the operations that
-- go through the whole table by connection.
pub mod Sweep
pub mod Lookup
pub mod Grants
pub mod Every
pub mod Payable
use tp_sist_op.Prelude.{
  ℕ, zero, suc, ◌+◌, ◌-◌, ◌%◌, ◌^◌, Bool, true, false, List, [], ◌∷◌, ◌++◌, Option, none, some,
  ◌==◌, ◌&&◌, ◌||◌, if◌then◌else◌, get_or, set, replicate, take, bytes_eq, discard,
}
use tp_sist_op.Prelude.Int.{ℤ, pos, negsuc, eqb_ℤ}
use tp_sist_op.ResourceTypes.{Resource, resource_eq}

-- `alloc_type_t`: `REMOTE`, `LOCAL`.
pub data AllocType : Type 0 where
  remote local : AllocType

-- `result_t`: `RM_GRANTED`, `RM_QUEUED`, `RM_DENIED`.
pub data Result : Type 0 where
  granted queued denied : Result

-- The messages that an agent writes, one for each format string that `send_message` is called with.
pub data Message : Type 0 where
  reserve : ℤ → Resource → ℤ → Message
  release : ℤ → Resource → ℤ → Message
  grant : ℤ → Message
  deny : ℤ → Message
  job_granted : ℤ → Message
  job_denied : ℤ → Message
  job_active : ℤ → Message
  job_unknown : ℤ → Message
  nodes : List ℕ → Message
  -- the contents of a buffer that was never written
  indeterminate : Message

pub record Allocation : Type 0 where
  pub name : Resource
  pub amount : ℤ
  pub type : AllocType
  pub ip : List ℕ
  pub job_id : ℤ
  pub result : Result
  pub conn : ℕ

pub record OutRequest : Type 0 where
  pub ip : List ℕ
  pub conn : ℕ
  pub tipo : Resource
  pub amount : ℤ
  pub msg : Message

pub record Job : Type 0 where
  pub job_id : ℤ
  pub conn : ℕ
  pub confirmadas : List Allocation
  pub pendientes : List OutRequest

abbrev pub tam_tabla_jobs : ℕ
tam_tabla_jobs = 71

abbrev pub TablaJobs : Type 0
TablaJobs = List (List Job)

msg_or_garbage : Option Message → Message
msg_or_garbage none = indeterminate
msg_or_garbage (some m) = m

-- `strncpy` into `char ip[15]` keeps 14 bytes; a NULL `msg` leaves the buffer unwritten.
unfoldable pub crear_outrequest : List ℕ → ℕ → Resource → ℤ → Option Message → OutRequest
unfolding msg_or_garbage
crear_outrequest ip conn tipo amount msg = record {
  ip = take 14 ip;
  conn = conn;
  tipo = tipo;
  amount = amount;
  msg = msg_or_garbage msg;
}

-- `strncpy` into `char ip[16]` keeps 15 bytes.
unfoldable pub crear_allocation : Resource → ℤ → AllocType → List ℕ → ℤ → Result → ℕ → Allocation
crear_allocation name amount alloc_type ip job_id result conn = record {
  name = name;
  amount = amount;
  type = alloc_type;
  ip = take 15 ip;
  job_id = job_id;
  result = result;
  conn = conn;
}

-- `unsigned idx = job_id % TAM_TABLA_JOBS`: the remainder has the sign of `job_id`, so a negative
-- one becomes a huge index.
unfoldable pub job_index : ℤ → ℕ
job_index (pos n) = n % tam_tabla_jobs
job_index (negsuc n) = let r = (n + 1) % tam_tabla_jobs in if r == 0 then 0 else 2 ^ 32 - r

-- Reading past the array is undefined in C; here such a bucket is empty and is not written.
unfoldable pub bucket : TablaJobs → ℤ → List Job
unfolding job_index
bucket t job_id = get_or t (job_index job_id) []

unfoldable pub tabla_jobs_init : TablaJobs
tabla_jobs_init = replicate tam_tabla_jobs []

-- The walk along one bucket that every search by id makes.
unfoldable pub find_job : ℤ → List Job → Option Job
find_job job_id [] = none
find_job job_id (curr ∷ sig) = if eqb_ℤ curr.job_id job_id then some curr else find_job job_id sig

unfoldable pub buscar_job_tabla : List Job → ℤ → Bool
buscar_job_tabla [] job_id = false
buscar_job_tabla (curr ∷ sig) job_id =
    if eqb_ℤ curr.job_id job_id then true else buscar_job_tabla sig job_id

unfoldable pub tabla_jobs_get_id : TablaJobs → ℤ → Bool
unfolding bucket buscar_job_tabla
tabla_jobs_get_id t job_id = buscar_job_tabla (bucket t job_id) job_id

unfoldable pub tabla_jobs_buscar_por_id : TablaJobs → ℤ → Option Job
unfolding bucket find_job
tabla_jobs_buscar_por_id t job_id = find_job job_id (bucket t job_id)

unfoldable pub tabla_jobs_get_conn : TablaJobs → ℤ → Option ℕ
unfolding bucket find_job
tabla_jobs_get_conn t job_id = elim (find_job job_id (bucket t job_id)) [
  | none ↦ none
  | some curr ↦ some curr.conn
]

unfoldable pub tabla_jobs_insertar_job : TablaJobs → Job → TablaJobs
unfolding bucket
tabla_jobs_insertar_job t j = set t (job_index j.job_id) (j ∷ bucket t j.job_id)

-- The bucket without the first job of this id, as the unlinking walk leaves it.
unfoldable pub unlink_job : ℤ → List Job → List Job
unlink_job job_id [] = []
unlink_job job_id (curr ∷ sig) =
    if eqb_ℤ curr.job_id job_id then sig else curr ∷ unlink_job job_id sig

unfoldable pub tabla_jobs_extract_by_id : TablaJobs → ℤ → TablaJobs × Option Job
unfolding bucket find_job unlink_job
tabla_jobs_extract_by_id t job_id =
    let js = bucket t job_id in
    (set t (job_index job_id) (unlink_job job_id js), find_job job_id js)

-- `s->type == LOCAL && s->result == RM_QUEUED`, and the same with `RM_GRANTED`.
unfoldable pub is_local_queued : Allocation → Bool
is_local_queued s = elim s.type [
  | remote ↦ false
  | local ↦ elim s.result [ granted ↦ false | queued ↦ true | denied ↦ false ]
]

unfoldable pub is_local_granted : Allocation → Bool
is_local_granted s = elim s.type [
  | remote ↦ false
  | local ↦ elim s.result [ granted ↦ true | queued ↦ false | denied ↦ false ]
]

unfoldable pub is_remote : Allocation → Bool
is_remote s = elim s.type [ remote ↦ true | local ↦ false ]

unfoldable pub any_local_queued : List Allocation → Bool
unfolding is_local_queued
any_local_queued [] = false
any_local_queued (s ∷ sig) = if is_local_queued s then true else any_local_queued sig

unfoldable pub no_pending : List OutRequest → Bool
no_pending [] = true
no_pending (r ∷ rs) = false

-- The test of `tabla_jobs_verificar` on what the search for the job gives.
unfoldable pub is_complete : Option Job → Bool
unfolding any_local_queued no_pending
is_complete none = false
is_complete (some curr) =
    if any_local_queued curr.confirmadas then false else no_pending curr.pendientes

unfoldable pub tabla_jobs_verificar : TablaJobs → ℤ → Bool
unfolding bucket find_job is_complete
tabla_jobs_verificar t job_id = is_complete (find_job job_id (bucket t job_id))

-- The first pending request of this IP, and the others.
unfoldable pub take_pending : List ℕ → List OutRequest → Option (OutRequest × List OutRequest)
take_pending ip [] = none
take_pending ip (sal ∷ next) =
    let rest = take_pending ip next in
    if bytes_eq sal.ip ip
    then some (sal, next)
    else elim rest [ none ↦ none | some (s, rs) ↦ some (s, sal ∷ rs) ]

-- The job as the call leaves it, and its result.
unfoldable pub job_confirmar : Job → List ℕ → ℤ → Job × Bool
unfolding take_pending crear_allocation
job_confirmar job ip job_id = elim (take_pending ip job.pendientes) [
  | none ↦ (job, false)
  | some (sal, rest) ↦ (
    record job {
      confirmadas =
          crear_allocation sal.tipo sal.amount remote sal.ip job_id granted sal.conn
          ∷ job.confirmadas;
      pendientes = rest;
    },
    true,
  )
]

-- A write through the pointer that the search returned: the first job of this id changes.
unfoldable pub modify_job : ℤ → (Job → Job) → List Job → List Job
modify_job job_id f [] = []
modify_job job_id f (curr ∷ sig) =
    if eqb_ℤ curr.job_id job_id then f curr ∷ sig else curr ∷ modify_job job_id f sig

unfoldable pub update_job : TablaJobs → ℤ → (Job → Job) → TablaJobs
unfolding bucket modify_job
update_job t job_id f = set t (job_index job_id) (modify_job job_id f (bucket t job_id))

unfoldable pub tabla_jobs_confirmar : TablaJobs → List ℕ → ℤ → TablaJobs × Bool
unfolding update_job find_job job_confirmar
tabla_jobs_confirmar t ip job_id = elim (find_job job_id (bucket t job_id)) [
  | none ↦ (t, false)
  | some curr ↦
      (update_job t job_id (λ j. (job_confirmar j ip job_id).0), (job_confirmar curr ip job_id).1)
]

-- `alloc->type == LOCAL && alloc->conn == conn && alloc->name == tipo`.
unfoldable pub is_local_of : ℕ → Resource → Allocation → Bool
unfolding resource_eq
is_local_of conn tipo alloc = elim alloc.type [
  | remote ↦ false
  | local ↦ alloc.conn == conn && resource_eq alloc.name tipo
]

unfoldable pub grant_first : ℕ → Resource → List Allocation → List Allocation
unfolding is_local_of
grant_first conn tipo [] = []
grant_first conn tipo (alloc ∷ sig) =
    if is_local_of conn tipo alloc
    then record alloc { result = granted } ∷ sig
    else alloc ∷ grant_first conn tipo sig

unfoldable pub tabla_jobs_cambio_alloc : TablaJobs → ℤ → ℕ → Resource → TablaJobs
unfolding update_job grant_first
tabla_jobs_cambio_alloc t job_id conn tipo =
    update_job t job_id (λ job. record job { confirmadas = grant_first conn tipo job.confirmadas })
