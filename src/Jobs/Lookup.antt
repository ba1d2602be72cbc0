-- ===== src/Jobs/Lookup.antt =====
-- The table of jobs as a finite map: what a search by id finds after each write, and the index of a
-- bucket inside the array.
use tp_sist_op.Prelude.{
  ◌%◌, ◌<◌, false, List, [], ◌∷◌, Option, none, some, ◌≡◌, refl, subst, ◌∙◌, ◌↔◌, inl, inr, arith,
  ◌==◌, if◌then◌else◌, length, set, ==_iff, get_or-set, length-replicate, Bool-cases,
}
use tp_sist_op.Prelude.Int.{ℤ, pos, negsuc, eqb_ℤ, eqb_ℤ_iff, neg_part}
use tp_sist_op.Jobs.{
  Job, TablaJobs, tam_tabla_jobs, job_index, bucket, find_job, unlink_job, modify_job, update_job,
  tabla_jobs_init, tabla_jobs_extract_by_id, tabla_jobs_buscar_por_id,
}

-- The index lies in the array exactly for the ids that are not negative and for the negative
-- multiples of the size.
pub job_index_in_range :
    (job_id : ℤ) → (job_index job_id < tam_tabla_jobs) ↔ (neg_part job_id % tam_tabla_jobs ≡ 0)
unfolding job_index
job_index_in_range (pos n) = (λ h. omega arith, λ h. omega arith)
job_index_in_range (negsuc n) = ground arith

-- The table has its 71 buckets.
abbrev pub IsTable : TablaJobs → Type 0
IsTable t = length t ≡ tam_tabla_jobs

-- The ids that the array has a bucket for.
abbrev pub IsIndexed : ℤ → Type 0
IsIndexed id = job_index id < tam_tabla_jobs

pub tabla_jobs_init-IsTable : IsTable tabla_jobs_init
unfolding tabla_jobs_init
tabla_jobs_init-IsTable = length-replicate tam_tabla_jobs []

pub bucket-set :
    (t : TablaJobs) (id k : ℤ) (b : List Job)
    → IsTable t
    → IsIndexed id
    → bucket (set t (job_index id) b) k ≡ (if job_index id == job_index k then b else bucket t k)
unfolding bucket
bucket-set t id k b w h = get_or-set t (job_index id) (job_index k) b [] (omega arith)

-- A write to the home bucket of `id` that answers `v` for `id` itself, and as before for the others,
-- does the same to the table.
module _ (t : TablaJobs) (w : IsTable t) (id : ℤ) (h : IsIndexed id) where
  write_home :
      (b : List Job) (v : Option Job) (k : ℤ)
      → ((k : ℤ) → find_job k b ≡ (if eqb_ℤ id k then v else find_job k (bucket t id)))
      → tabla_jobs_buscar_por_id (set t (job_index id) b) k
        ≡ (if eqb_ℤ id k then v else tabla_jobs_buscar_por_id t k)
  unfolding tabla_jobs_buscar_por_id bucket
  write_home b v k reads = elim (Bool-cases (job_index id == job_index k)) [
    | inl same ↦ rw (bucket-set t id k b w h, same) (ground (arith, reads k, (==_iff _ _).0 same))
    | inr apart ↦ rw (bucket-set t id k b w h, apart) (ground (arith, eqb_ℤ_iff id k))
  ]

find-unlink :
    (id k : ℤ) (js : List Job) → eqb_ℤ id k ≡ false → find_job k (unlink_job id js) ≡ find_job k js
unfolding find_job unlink_job
find-unlink id k [] h = refl
find-unlink id k (j ∷ js) h =
    ground (arith, find-unlink id k js h, eqb_ℤ_iff j.job_id id, eqb_ℤ_iff j.job_id k)

-- No two jobs of a bucket have one id.
abbrev pub IsUnique : List Job → Type 0
IsUnique [] = Unit
IsUnique (j ∷ js) = (find_job j.job_id js ≡ none) × IsUnique js

find-unlink_self : (id : ℤ) (js : List Job) → IsUnique js → find_job id (unlink_job id js) ≡ none
unfolding find_job unlink_job
find-unlink_self id [] u = refl
find-unlink_self id (j ∷ js) u = ground (arith, find-unlink_self id js u.1, eqb_ℤ_iff j.job_id id)

-- In a table of 71 buckets, for an id whose index lies in the array and whose bucket holds no id
-- twice: extraction by id hands out the job that the search finds; afterwards its id is unknown,
-- and every other id finds what it found before.
pub extract_by_id-buscar :
    (t : TablaJobs) (id k : ℤ)
    → IsTable t
    → IsIndexed id
    → IsUnique (bucket t id)
    → ((tabla_jobs_extract_by_id t id).1 ≡ tabla_jobs_buscar_por_id t id)
      × (tabla_jobs_buscar_por_id (tabla_jobs_extract_by_id t id).0 k
          ≡ (if eqb_ℤ id k then none else tabla_jobs_buscar_por_id t k))
unfolding tabla_jobs_extract_by_id
extract_by_id-buscar t id k w h u = (
  unfold tabla_jobs_buscar_por_id in refl,
  write_home t w id h (unlink_job id (bucket t id)) none k reads,
)
  where
    reads :
        (k : ℤ)
        → find_job k (unlink_job id (bucket t id))
          ≡ (if eqb_ℤ id k then none else find_job k (bucket t id))
    reads k = elim (Bool-cases (eqb_ℤ id k)) [
      | inl same ↦ rw same (
          subst (λ z. find_job z (unlink_job id (bucket t id)) ≡ none) ((eqb_ℤ_iff id k).0 same)
            (find-unlink_self id (bucket t id) u))
      | inr other ↦ rw other (find-unlink id k (bucket t id) other)
    ]

abbrev pub map_job : (Job → Job) → Option Job → Option Job
map_job f none = none
map_job f (some j) = some (f j)

find-modify :
    (id k : ℤ) (f : Job → Job) (js : List Job)
    → ((j : Job) → (f j).job_id ≡ j.job_id)
    → find_job k (modify_job id f js)
      ≡ (if eqb_ℤ id k then map_job f (find_job id js) else find_job k js)
unfolding find_job modify_job
find-modify id k f [] keeps = ground arith
find-modify id k f (j ∷ js) keeps = ground (
  arith,
  find-modify id k f js keeps,
  keeps j,
  eqb_ℤ_iff j.job_id id,
  eqb_ℤ_iff j.job_id k,
  eqb_ℤ_iff id k,
  eqb_ℤ_iff (f j).job_id k,
)

-- In a table of 71 buckets, for an id whose index lies in the array, a write through the pointer
-- of a search, which keeps the ids of the jobs, changes the job of that id alone.
pub buscar-update_job :
    (t : TablaJobs) (id k : ℤ) (f : Job → Job)
    → IsTable t
    → IsIndexed id
    → ((j : Job) → (f j).job_id ≡ j.job_id)
    → tabla_jobs_buscar_por_id (update_job t id f) k ≡ (
        if eqb_ℤ id k
        then map_job f (tabla_jobs_buscar_por_id t id)
        else tabla_jobs_buscar_por_id t k)
unfolding update_job
buscar-update_job t id k f w h keeps =
    write_home t w id h (modify_job id f (bucket t id)) (map_job f (find_job id (bucket t id))) k
      (λ k. find-modify id k f (bucket t id) keeps)
    ∙ unfold tabla_jobs_buscar_por_id in refl

IsUnique-unlink : (id : ℤ) (js : List Job) → IsUnique js → IsUnique (unlink_job id js)
unfolding unlink_job
IsUnique-unlink id [] u = u
IsUnique-unlink id (j ∷ js) u = elim (Bool-cases (eqb_ℤ j.job_id id)) [
  | inl same ↦ rw same u.1
  | inr other ↦ rw other (
    find-unlink id j.job_id js (ground (arith, eqb_ℤ_iff j.job_id id, eqb_ℤ_iff id j.job_id)) ∙ u.0,
    IsUnique-unlink id js u.1,
  )
]
