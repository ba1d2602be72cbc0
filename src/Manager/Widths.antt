-- ===== src/Manager/Widths.antt =====
-- The number of buckets of the three tables under their operations.
use tp_sist_op.Prelude.{
  ℕ, List, [], ◌∷◌, ◌≡◌, refl, ap, inl, inr, length, length-set, get_or, suc, Option-cases,
}
use tp_sist_op.Prelude.Int.{ℤ}
use tp_sist_op.ResourceTypes.{Resource}
use tp_sist_op.Hash.{hash_ip}
use tp_sist_op.Jobs.{
  Job, TablaJobs, update_job, tabla_jobs_insertar_job, tabla_jobs_extract_by_id,
  tabla_jobs_cambio_alloc,
}
use tp_sist_op.Jobs.Sweep.{tabla_jobs_extract_by_remote_conn, sweep_buckets, sweep_bucket}
use tp_sist_op.Conns.{TablaConns, tabla_conns_insert, tabla_conns_delete_by_conn}
use tp_sist_op.Nodes.{TablaNodos, tabla_nodos_insert_or_update, tabla_nodos_purge, update_entry}

pub length-update_job :
    (t : TablaJobs) (id : ℤ) (f : Job → Job) → length (update_job t id f) ≡ length t
unfolding update_job
length-update_job t id f = length-set t _ _

pub length-cambio_alloc :
    (t : TablaJobs) (id : ℤ) (conn : ℕ) (tipo : Resource)
    → length (tabla_jobs_cambio_alloc t id conn tipo) ≡ length t
unfolding tabla_jobs_cambio_alloc
length-cambio_alloc t id conn tipo = length-update_job t id _

pub length-insertar_job :
    (t : TablaJobs) (j : Job) → length (tabla_jobs_insertar_job t j) ≡ length t
unfolding tabla_jobs_insertar_job
length-insertar_job t j = length-set t _ _

pub length-extract_by_id :
    (t : TablaJobs) (id : ℤ) → length (tabla_jobs_extract_by_id t id).0 ≡ length t
unfolding tabla_jobs_extract_by_id
length-extract_by_id t id = length-set t _ _

length-sweep_buckets :
    (conn : ℕ) (t : TablaJobs) (ex : List Job) → length (sweep_buckets conn t ex).0 ≡ length t
unfolding sweep_buckets
length-sweep_buckets conn [] ex = refl
length-sweep_buckets conn (b ∷ bs) ex =
    ap suc (length-sweep_buckets conn bs (sweep_bucket conn b ex).1)

pub length-extract_by_remote_conn :
    (t : TablaJobs) (conn : ℕ) → length (tabla_jobs_extract_by_remote_conn t conn).0 ≡ length t
unfolding tabla_jobs_extract_by_remote_conn
length-extract_by_remote_conn t conn = length-sweep_buckets conn t []

pub length-conns_insert :
    (t : TablaConns) (ip : List ℕ) (conn : ℕ) → length (tabla_conns_insert t ip conn) ≡ length t
unfolding tabla_conns_insert
length-conns_insert t ip conn = length-set t _ _

pub length-delete_by_conn :
    (t : TablaConns) (conn : ℕ) → length (tabla_conns_delete_by_conn t conn) ≡ length t
unfolding tabla_conns_delete_by_conn
length-delete_by_conn [] conn = refl
length-delete_by_conn (b ∷ bs) conn = ap suc (length-delete_by_conn bs conn)

pub length-purge :
    (t : TablaNodos) (timeout now : ℤ) → length (tabla_nodos_purge t timeout now) ≡ length t
unfolding tabla_nodos_purge
length-purge [] timeout now = refl
length-purge (b ∷ bs) timeout now = ap suc (length-purge bs timeout now)

pub length-insert_or_update :
    (t : TablaNodos) (ip : List ℕ) (puerto c m g now : ℤ)
    → length (tabla_nodos_insert_or_update t ip puerto c m g now) ≡ length t
length-insert_or_update t ip puerto c m g now =
    elim (Option-cases (update_entry ip puerto c m g now (get_or t (hash_ip ip) []))) [
      | inl e ↦
          unfold tabla_nodos_insert_or_update in
          rw (e, tabla_nodos_insert_or_update) (length-set t _ _)
      | inr (b, e) ↦
          unfold tabla_nodos_insert_or_update in
          rw (e, tabla_nodos_insert_or_update) (length-set t _ _)
    ]
