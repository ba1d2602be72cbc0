-- ===== src/Jobs/Every.antt =====
-- A property of jobs that holds of every job in the table, under the operations of tabla_jobs.c.
use tp_sist_op.Prelude.{
  List, [], ◌∷◌, Option, none, some, inl, inr, All, All-set, All-get_or, Bool-cases,
}
use tp_sist_op.Prelude.Int.{ℤ, eqb_ℤ}
use tp_sist_op.Jobs.{
  Job, TablaJobs, job_index, bucket, find_job, unlink_job, modify_job, update_job,
  tabla_jobs_insertar_job, tabla_jobs_extract_by_id,
}

-- What a search hands out, if anything.
abbrev pub WhenFound : (Job → Type 0) → Option Job → Type 0
WhenFound P none = Unit
WhenFound P (some j) = P j

module _ (P : Job → Type 0) where
  pub bucket-All : (t : TablaJobs) (id : ℤ) → All (All P) t → All P (bucket t id)
  unfolding bucket
  bucket-All t id h = All-get_or (All P) t (job_index id) [] tt h

  pub insertar-All :
      (t : TablaJobs) (j : Job) → P j → All (All P) t → All (All P) (tabla_jobs_insertar_job t j)
  unfolding tabla_jobs_insertar_job
  insertar-All t j p h = All-set (All P) t _ _ (p, bucket-All t j.job_id h) h

  pub unlink-All : (id : ℤ) (js : List Job) → All P js → All P (unlink_job id js)
  unfolding unlink_job
  unlink-All id [] h = tt
  unlink-All id (j ∷ js) h = elim (Bool-cases (eqb_ℤ j.job_id id)) [
    | inl hit ↦ rw hit h.1
    | inr miss ↦ rw miss (h.0, unlink-All id js h.1)
  ]

  pub find-All : (id : ℤ) (js : List Job) → All P js → WhenFound P (find_job id js)
  unfolding find_job
  find-All id [] h = tt
  find-All id (j ∷ js) h = elim (Bool-cases (eqb_ℤ j.job_id id)) [
    | inl hit ↦ rw hit h.0
    | inr miss ↦ rw miss (find-All id js h.1)
  ]

  pub extract_by_id-All :
      (t : TablaJobs) (id : ℤ)
      → All (All P) t
      → All (All P) (tabla_jobs_extract_by_id t id).0
        × WhenFound P (tabla_jobs_extract_by_id t id).1
  unfolding tabla_jobs_extract_by_id
  extract_by_id-All t id h =
      let b = bucket-All t id h in
      (All-set (All P) t _ _ (unlink-All id (bucket t id) b) h, find-All id (bucket t id) b)

  pub modify-All :
      (id : ℤ) (f : Job → Job) (js : List Job)
      → ((j : Job) → P j → P (f j))
      → All P js
      → All P (modify_job id f js)
  unfolding modify_job
  modify-All id f [] keeps h = tt
  modify-All id f (j ∷ js) keeps h = elim (Bool-cases (eqb_ℤ j.job_id id)) [
    | inl hit ↦ rw hit (keeps j h.0, h.1)
    | inr miss ↦ rw miss (h.0, modify-All id f js keeps h.1)
  ]

  pub update_job-All :
      (t : TablaJobs) (id : ℤ) (f : Job → Job)
      → ((j : Job) → P j → P (f j))
      → All (All P) t
      → All (All P) (update_job t id f)
  unfolding update_job
  update_job-All t id f keeps h =
      All-set (All P) t _ _ (modify-All id f (bucket t id) keeps (bucket-All t id h)) h
