-- ===== src/Jobs/Sweep.antt =====
-- agente_c/src/tabla_jobs.c: the operations that go through every bucket by connection, and what
-- they leave of a connection that is about to be freed.
use tp_sist_op.Prelude.{
  ℕ, Bool, true, false, List, [], ◌∷◌, ◌++◌, some, ◌≡◌, inl, inr, ◌==◌, ◌&&◌, ◌||◌, if◌then◌else◌,
  discard, discard-All, All, Bool-cases, arith,
}
use tp_sist_op.Jobs.{
  Allocation, OutRequest, Job, TablaJobs, is_remote, no_pending, crear_outrequest,
}

-- `acurr->type == REMOTE && acurr->conn == conn`.
unfoldable pub remote_on : ℕ → Allocation → Bool
unfolding is_remote
remote_on conn a = is_remote a && a.conn == conn

unfoldable pub any_pending_on : ℕ → List OutRequest → Bool
any_pending_on conn [] = false
any_pending_on conn (out ∷ next) = if out.conn == conn then true else any_pending_on conn next

unfoldable pub no_allocations : List Allocation → Bool
no_allocations [] = true
no_allocations (a ∷ rest) = false

-- Step 1: the job without its remote allocations over this connection.
unfoldable pub drop_remote : ℕ → Job → Job
unfolding remote_on
drop_remote conn curr = record curr { confirmadas = discard (remote_on conn) curr.confirmadas }

-- Step 2: whether the job goes as a whole.
unfoldable pub is_extracted : ℕ → Job → Bool
unfolding any_pending_on no_allocations no_pending
is_extracted conn curr =
    (curr.conn == conn || any_pending_on conn curr.pendientes)
    || (no_allocations curr.confirmadas && no_pending curr.pendientes)

-- One bucket: the jobs that stay, and those taken out, put before the ones taken out earlier.
unfoldable pub sweep_bucket : ℕ → List Job → List Job → List Job × List Job
unfolding drop_remote is_extracted
sweep_bucket conn [] extraidos = ([], extraidos)
sweep_bucket conn (j ∷ next) extraidos =
    let curr = drop_remote conn j in
    let gone = sweep_bucket conn next (curr ∷ extraidos) in
    let rest = sweep_bucket conn next extraidos in
    if is_extracted conn curr then gone else (curr ∷ rest.0, rest.1)

unfoldable pub sweep_buckets : ℕ → TablaJobs → List Job → TablaJobs × List Job
unfolding sweep_bucket
sweep_buckets conn [] extraidos = ([], extraidos)
sweep_buckets conn (b ∷ bs) extraidos =
    let (b', ex) = sweep_bucket conn b extraidos in
    let (bs', ex') = sweep_buckets conn bs ex in (b' ∷ bs', ex')

unfoldable pub tabla_jobs_extract_by_remote_conn : TablaJobs → ℕ → TablaJobs × List Job
unfolding sweep_buckets
tabla_jobs_extract_by_remote_conn t conn = sweep_buckets conn t []

-- The jobs of a connection go, and their allocations are handed back in one list.
unfoldable pub delete_bucket : ℕ → List Job → List Allocation → List Job × List Allocation
delete_bucket conn [] head = ([], head)
delete_bucket conn (curr ∷ next) head =
    let gone = delete_bucket conn next (curr.confirmadas ++ head) in
    let rest = delete_bucket conn next head in
    if curr.conn == conn then gone else (curr ∷ rest.0, rest.1)

unfoldable pub delete_buckets : ℕ → TablaJobs → List Allocation → TablaJobs × List Allocation
unfolding delete_bucket
delete_buckets conn [] head = ([], head)
delete_buckets conn (b ∷ bs) head =
    let (b', h) = delete_bucket conn b head in
    let (bs', h') = delete_buckets conn bs h in (b' ∷ bs', h')

unfoldable pub tabla_jobs_delete_by_conn : TablaJobs → ℕ → TablaJobs × List Allocation
unfolding delete_buckets
tabla_jobs_delete_by_conn t conn = delete_buckets conn t []

-- Copies of the pending requests over a connection, the last one found first.
unfoldable pub collect_requests : ℕ → List OutRequest → List OutRequest → List OutRequest
unfolding crear_outrequest
collect_requests conn [] lista = lista
collect_requests conn (req ∷ next) lista = collect_requests conn next (
    if req.conn == conn
    then crear_outrequest req.ip req.conn req.tipo req.amount (some req.msg) ∷ lista
    else lista)

unfoldable pub collect_jobs : ℕ → List Job → List OutRequest → List OutRequest
unfolding collect_requests
collect_jobs conn [] lista = lista
collect_jobs conn (job ∷ sig) lista =
    collect_jobs conn sig (collect_requests conn job.pendientes lista)

unfoldable pub collect_buckets : ℕ → TablaJobs → List OutRequest → List OutRequest
unfolding collect_jobs
collect_buckets conn [] lista = lista
collect_buckets conn (b ∷ bs) lista = collect_buckets conn bs (collect_jobs conn b lista)

unfoldable pub tabla_jobs_get_pendientes_by_conn : TablaJobs → ℕ → List OutRequest
unfolding collect_buckets
tabla_jobs_get_pendientes_by_conn t conn = collect_buckets conn t []

-- Nothing in the job points to the connection, but for local allocations, which have their job's.
pub record IsFree (conn : ℕ) (j : Job) : Type 0 where
  pub owner : (j.conn == conn) ≡ false
  pub pending : All (λ r. (r.conn == conn) ≡ false) j.pendientes
  pub confirmed : All (λ a. remote_on conn a ≡ false) j.confirmadas

any_pending_on-All :
    (conn : ℕ) (rs : List OutRequest)
    → any_pending_on conn rs ≡ false
    → All (λ r. (r.conn == conn) ≡ false) rs
unfolding any_pending_on
any_pending_on-All conn [] h = tt
any_pending_on-All conn (r ∷ rs) h = ground (arith, any_pending_on-All conn rs)

kept-IsFree :
    (conn : ℕ) (j : Job)
    → is_extracted conn (drop_remote conn j) ≡ false
    → IsFree conn (drop_remote conn j)
unfolding is_extracted drop_remote
kept-IsFree conn j h = record {
  owner = ground arith;
  pending = any_pending_on-All conn j.pendientes (ground arith);
  confirmed = discard-All (remote_on conn) j.confirmadas;
}

sweep_bucket-IsFree : (conn : ℕ) (js ex : List Job) → All (IsFree conn) (sweep_bucket conn js ex).0
unfolding sweep_bucket
sweep_bucket-IsFree conn [] ex = tt
sweep_bucket-IsFree conn (j ∷ js) ex = elim (Bool-cases (is_extracted conn (drop_remote conn j))) [
  | inl gone ↦ rw gone (sweep_bucket-IsFree conn js (drop_remote conn j ∷ ex))
  | inr stays ↦ rw stays (kept-IsFree conn j stays, sweep_bucket-IsFree conn js ex)
]

sweep_buckets-IsFree :
    (conn : ℕ) (t : TablaJobs) (ex : List Job) → All (All (IsFree conn)) (sweep_buckets conn t ex).0
unfolding sweep_buckets
sweep_buckets-IsFree conn [] ex = tt
sweep_buckets-IsFree conn (b ∷ bs) ex =
    (sweep_bucket-IsFree conn b ex, sweep_buckets-IsFree conn bs (sweep_bucket conn b ex).1)

-- After the extraction by connection no job in the table has the connection as its owner, waits for
-- an answer over it or holds a remote allocation over it.
pub tabla_jobs_extract_by_remote_conn-IsFree :
    (t : TablaJobs) (conn : ℕ)
    → All (All (IsFree conn)) (tabla_jobs_extract_by_remote_conn t conn).0
unfolding tabla_jobs_extract_by_remote_conn
tabla_jobs_extract_by_remote_conn-IsFree t conn = sweep_buckets-IsFree conn t []
