-- ===== src/Jobs/Payable.antt =====
-- Local allocations that are for a quantity that can be given back, under the operations of tabla_jobs.c.
use tp_sist_op.Prelude.{
  ℕ, false, List, [], ◌∷◌, ◌≡◌, sym, inl, inr, replicate, All, All-discard, Bool-cases,
  Option-cases, zero, suc,
}
use mathlib.Core.Bool.{false≢true}
use tp_sist_op.Prelude.Int.{ℤ, IsQuantity}
use tp_sist_op.ResourceTypes.{Resource}
use tp_sist_op.Jobs.{
  Allocation, Job, TablaJobs, is_remote, is_local_of, grant_first, update_job, tabla_jobs_init,
  tabla_jobs_insertar_job, tabla_jobs_extract_by_id, tabla_jobs_cambio_alloc, job_confirmar,
  take_pending, crear_allocation,
}
use tp_sist_op.Jobs.Every.{WhenFound, insertar-All, extract_by_id-All, update_job-All}
use tp_sist_op.Jobs.Sweep.{
  drop_remote, remote_on, is_extracted, sweep_bucket, sweep_buckets,
  tabla_jobs_extract_by_remote_conn,
}

abbrev pub IsPayable : Allocation → Type 0
IsPayable a = is_remote a ≡ false → IsQuantity a.amount

abbrev pub Payable : Job → Type 0
Payable j = All IsPayable j.confirmadas

abbrev pub AllPayable : TablaJobs → Type 0
AllPayable t = All (All Payable) t

pub init-AllPayable : AllPayable tabla_jobs_init
unfolding tabla_jobs_init replicate
init-AllPayable = go 71
  where
    go : (n : ℕ) → AllPayable (replicate n [])
    go zero = tt
    go (suc n) = (tt, go n)

pub insertar-AllPayable :
    (t : TablaJobs) (j : Job) → Payable j → AllPayable t → AllPayable (tabla_jobs_insertar_job t j)
insertar-AllPayable = insertar-All Payable

pub extract_by_id-AllPayable :
    (t : TablaJobs) (id : ℤ)
    → AllPayable t
    → AllPayable (tabla_jobs_extract_by_id t id).0
      × WhenFound Payable (tabla_jobs_extract_by_id t id).1
extract_by_id-AllPayable = extract_by_id-All Payable

pub update_job-AllPayable :
    (t : TablaJobs) (id : ℤ) (f : Job → Job)
    → ((j : Job) → Payable j → Payable (f j))
    → AllPayable t
    → AllPayable (update_job t id f)
update_job-AllPayable = update_job-All Payable

grant_first-Payable :
    (conn : ℕ) (tipo : Resource) (l : List Allocation)
    → All IsPayable l
    → All IsPayable (grant_first conn tipo l)
unfolding grant_first is_remote
grant_first-Payable conn tipo [] h = tt
grant_first-Payable conn tipo (a ∷ l) h = elim (Bool-cases (is_local_of conn tipo a)) [
  | inl hit ↦ rw hit (h.0, h.1)
  | inr miss ↦ rw miss (h.0, grant_first-Payable conn tipo l h.1)
]

pub cambio_alloc-AllPayable :
    (t : TablaJobs) (id : ℤ) (conn : ℕ) (tipo : Resource)
    → AllPayable t
    → AllPayable (tabla_jobs_cambio_alloc t id conn tipo)
unfolding tabla_jobs_cambio_alloc
cambio_alloc-AllPayable t id conn tipo h =
    update_job-AllPayable t id _ (λ j p. grant_first-Payable conn tipo j.confirmadas p) h

pub job_confirmar-Payable :
    (j : Job) (ip : List ℕ) (id : ℤ) → Payable j → Payable (job_confirmar j ip id).0
unfolding job_confirmar crear_allocation is_remote
job_confirmar-Payable j ip id h = elim (Option-cases (take_pending ip j.pendientes)) [
  | inl e ↦ rw (e, job_confirmar) h
  | inr (s, e) ↦ rw (e, job_confirmar) (λ r. absurd (false≢true (sym r)), h)
]

sweep_bucket-Payable :
    (conn : ℕ) (js ex : List Job)
    → All Payable js
    → All Payable ex
    → All Payable (sweep_bucket conn js ex).0 × All Payable (sweep_bucket conn js ex).1
unfolding sweep_bucket drop_remote
sweep_bucket-Payable conn [] ex h k = (tt, k)
sweep_bucket-Payable conn (j ∷ js) ex h k =
    let p = All-discard IsPayable (remote_on conn) j.confirmadas h.0 in
    elim (Bool-cases (is_extracted conn (drop_remote conn j))) [
      | inl gone ↦ rw gone (sweep_bucket-Payable conn js (drop_remote conn j ∷ ex) h.1 (p, k))
      | inr stays ↦ let r = sweep_bucket-Payable conn js ex h.1 k in rw stays ((p, r.0), r.1)
    ]

sweep_buckets-Payable :
    (conn : ℕ) (t : TablaJobs) (ex : List Job)
    → AllPayable t
    → All Payable ex
    → AllPayable (sweep_buckets conn t ex).0 × All Payable (sweep_buckets conn t ex).1
unfolding sweep_buckets
sweep_buckets-Payable conn [] ex h k = (tt, k)
sweep_buckets-Payable conn (b ∷ bs) ex h k =
    let (kept, gone) = sweep_bucket-Payable conn b ex h.0 k in
    let (rest, all_gone) = sweep_buckets-Payable conn bs (sweep_bucket conn b ex).1 h.1 gone in
    ((kept, rest), all_gone)

pub extract_by_remote_conn-AllPayable :
    (t : TablaJobs) (conn : ℕ)
    → AllPayable t
    → AllPayable (tabla_jobs_extract_by_remote_conn t conn).0
      × All Payable (tabla_jobs_extract_by_remote_conn t conn).1
unfolding tabla_jobs_extract_by_remote_conn
extract_by_remote_conn-AllPayable t conn h = sweep_buckets-Payable conn t [] h tt
