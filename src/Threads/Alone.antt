-- ===== src/Threads/Alone.antt =====
-- The operations alone: without other threads, the program of an operation does what the operation does,
-- and then what follows it (agente_c/src/resource_manager.c, agente_c/src/tabla_jobs.c).
pub mod Requests
pub mod Events
use tp_sist_op.Prelude.{
  ℕ, zero, suc, Bool, true, false, List, [], ◌∷◌, Option, none, some, ◌≡◌, refl, ◌∙◌, ap, inl, inr,
  if◌then◌else◌, length, Bool-cases, Option-cases,
}
use tp_sist_op.Prelude.Int.{ℤ}
use tp_sist_op.ResourceTypes.{Resource, cpu, mem, gpu}
use tp_sist_op.Queue.{
  ColaPendingRequest, PendingRequest, Origin, queue_delete_by_job_id, queue_delete_by_conn,
}
use tp_sist_op.Jobs.{
  Allocation, Job, Result, Message, is_local_granted, is_remote, tabla_jobs_verificar,
  tabla_jobs_cambio_alloc, tabla_jobs_extract_by_id,
}
use tp_sist_op.Conns.{tabla_conns_lookup}
use tp_sist_op.Manager.{
  ResourceManager, Dest, recurso, set_recurso, send_message, reserve_resource, can_serve, take_off,
  notify, serve_top, serve, accepts, give_back, release_resource, each_cola, with_cola,
  limpiar_colas_por_id, limpiar_colas_por_conn,
}
use tp_sist_op.Manager.Handlers.{release_remote, drop_alloc, drop_allocs, tabla_jobs_remove}
use tp_sist_op.Threads.{Prog, alone}
use tp_sist_op.Threads.Calls.{
  lock_tabla_if, unlock_tabla_if, send_message_prog, reserve_resource_prog, notify_prog,
  serve_top_prog, serve_prog, release_resource_prog, clean_prog, limpiar_colas_prog,
  limpiar_colas_por_id_prog, limpiar_colas_por_conn_prog, lookup_prog, release_remote_prog,
  drop_alloc_prog, drop_allocs_prog, allocations_of, unlink_by_id, tabla_jobs_remove_prog,
}

pub alone-lock_tabla_if :
    (b : Bool) (k : Prog) (m : ResourceManager) → alone (lock_tabla_if b k) m ≡ alone k m
unfolding alone lock_tabla_if
alone-lock_tabla_if true k m = refl
alone-lock_tabla_if false k m = refl

pub alone-unlock_tabla_if :
    (b : Bool) (k : Prog) (m : ResourceManager) → alone (unlock_tabla_if b k) m ≡ alone k m
unfolding alone unlock_tabla_if
alone-unlock_tabla_if true k m = refl
alone-unlock_tabla_if false k m = refl

pub alone-send_message :
    (c : ℕ) (d : Dest) (msg : Message) (k : Prog) (m : ResourceManager)
    → alone (send_message_prog c d msg k) m ≡ alone k (send_message c d msg m)
unfolding alone send_message_prog
alone-send_message c d msg k m = refl

pub alone-reserve_resource :
    (t : Resource) (n id : ℤ) (c : ℕ) (o : Origin) (k : Result → Prog) (m : ResourceManager)
    → alone (reserve_resource_prog t n id c o k) m
      ≡ alone (k (reserve_resource t n id c o m).1) (reserve_resource t n id c o m).0
unfolding alone reserve_resource_prog
alone-reserve_resource t n id c o k m = refl

alone-notify :
    (t : Resource) (p : PendingRequest) (k : Prog) (m : ResourceManager)
    → alone (notify_prog t p k) m ≡ alone k (notify t p m)
unfolding alone notify_prog notify send_message_prog
alone-notify t p k m = go p.origen
  where
    go :
        (o : Origin)
        → alone (notify_prog t (record p { origen = o }) k) m
          ≡ alone k (notify t (record p { origen = o }) m)
    go Origin.remote = refl
    go Origin.local =
        elim (Bool-cases (
          tabla_jobs_verificar (tabla_jobs_cambio_alloc m.tabla p.job_id p.owner_conn t)
            p.job_id)) [ inl e ↦ rw (e, alone) refl | inr e ↦ rw (e, alone) refl ]

alone-serve_top :
    (t : Resource) (k : Prog) (m : ResourceManager)
    → alone (serve_top_prog t k) m ≡ alone k (serve_top t m)
unfolding alone serve_top_prog serve_top
alone-serve_top t k m = elim (Option-cases (take_off (recurso t m)).1) [
  | inl e ↦ rw (e, alone, serve_top) refl
  | inr (p, e) ↦
      rw (e, alone, serve_top) (alone-notify t p k (set_recurso t (take_off (recurso t m)).0 m))
]

alone-serve :
    (fuel : ℕ) (t : Resource) (k : Prog) (m : ResourceManager)
    → alone (serve_prog fuel t k) m ≡ alone k (serve fuel t m)
unfolding alone serve_prog serve
alone-serve zero t k m = refl
alone-serve (suc fuel) t k m = elim (Bool-cases (can_serve (recurso t m))) [
  | inl e ↦
      rw (e, alone, serve)
        (alone-serve_top t (serve_prog fuel t k) m ∙ alone-serve fuel t k (serve_top t m))
  | inr e ↦ rw (e, alone, serve) refl
]

pub alone-release_resource :
    (t : Resource) (n : ℤ) (b : Bool) (k : Prog) (m : ResourceManager)
    → alone (release_resource_prog t n b k) m ≡ alone k (release_resource t n m)
unfolding alone release_resource_prog release_resource
alone-release_resource t n b k m =
    alone-lock_tabla_if b _ m ∙ elim (Bool-cases (accepts (recurso t m) n)) [
      | inl e ↦
          rw (e, alone)
            (alone-serve (length (recurso t m).cola.nodes) t _
                (set_recurso t (give_back (recurso t m) n) m)
              ∙ alone-unlock_tabla_if b k _)
      | inr e ↦ rw (e, alone) (alone-unlock_tabla_if b k m)
    ]

alone-limpiar_colas :
    (f : ColaPendingRequest → ColaPendingRequest) (k : Prog) (m : ResourceManager)
    → alone (limpiar_colas_prog f k) m ≡ alone k (each_cola f m)
unfolding alone limpiar_colas_prog clean_prog each_cola set_recurso recurso
alone-limpiar_colas f k m = refl

pub alone-limpiar_colas_por_id :
    (id : ℤ) (k : Prog) (m : ResourceManager)
    → alone (limpiar_colas_por_id_prog id k) m ≡ alone k (limpiar_colas_por_id id m)
unfolding limpiar_colas_por_id_prog limpiar_colas_por_id
alone-limpiar_colas_por_id id k m = alone-limpiar_colas (λ c. queue_delete_by_job_id c id) k m

pub alone-limpiar_colas_por_conn :
    (c : ℕ) (k : Prog) (m : ResourceManager)
    → alone (limpiar_colas_por_conn_prog c k) m ≡ alone k (limpiar_colas_por_conn c m)
unfolding limpiar_colas_por_conn_prog limpiar_colas_por_conn
alone-limpiar_colas_por_conn c k m = alone-limpiar_colas (λ q. queue_delete_by_conn q c) k m

pub alone-lookup :
    (ip : List ℕ) (k : Option ℕ → Prog) (m : ResourceManager)
    → alone (lookup_prog ip k) m ≡ alone (k (tabla_conns_lookup m.conns ip)) m
unfolding alone lookup_prog
alone-lookup ip k m = refl

alone-release_remote :
    (id : ℤ) (a : Allocation) (k : Prog) (m : ResourceManager)
    → alone (release_remote_prog id a k) m ≡ alone k (release_remote id a m)
unfolding alone release_remote_prog release_remote lookup_prog send_message_prog
alone-release_remote id a k m = elim (Option-cases (tabla_conns_lookup m.conns a.ip)) [
  | inl e ↦ rw (e, alone, release_remote) refl
  | inr (c, e) ↦ rw (e, alone, release_remote) refl
]

alone-drop_alloc :
    (id : ℤ) (b : Bool) (a : Allocation) (k : Prog) (m : ResourceManager)
    → alone (drop_alloc_prog id b a k) m ≡ alone k (drop_alloc id a m)
unfolding drop_alloc_prog drop_alloc
alone-drop_alloc id b a k m = elim (Bool-cases (is_local_granted a)) [
  | inl here ↦ rw here (alone-release_resource a.name a.amount b k m)
  | inr other ↦ rw other (elim (Bool-cases (is_remote a)) [
    | inl far ↦ rw far (alone-release_remote id a k m)
    | inr waits ↦ rw waits refl
  ])
]

pub alone-drop_allocs :
    (id : ℤ) (b : Bool) (l : List Allocation) (k : Prog) (m : ResourceManager)
    → alone (drop_allocs_prog id b l k) m ≡ alone k (drop_allocs id l m)
unfolding drop_allocs_prog drop_allocs
alone-drop_allocs id b [] k m = refl
alone-drop_allocs id b (a ∷ l) k m =
    alone-drop_alloc id b a (drop_allocs_prog id b l k) m
    ∙ alone-drop_allocs id b l k (drop_alloc id a m)

pub alone-tabla_jobs_remove :
    (id : ℤ) (b : Bool) (k : Prog) (m : ResourceManager)
    → alone (tabla_jobs_remove_prog id b k) m ≡ alone k (tabla_jobs_remove id m)
unfolding alone tabla_jobs_remove_prog tabla_jobs_remove unlink_by_id allocations_of
alone-tabla_jobs_remove id b k m =
    alone-lock_tabla_if b _ m
    ∙ alone-unlock_tabla_if b _ (unlink_by_id id m)
    ∙ alone-drop_allocs id b (allocations_of found) k (unlink_by_id id m)
    ∙ go found
  where
    found : Option Job
    found = (tabla_jobs_extract_by_id m.tabla id).1

    go :
        (o : Option Job)
        → alone k (drop_allocs id (allocations_of o) (unlink_by_id id m))
          ≡ alone k (elim o [
            | none ↦ unlink_by_id id m
            | some job ↦ drop_allocs id job.confirmadas (unlink_by_id id m)
          ])
    go none = unfold drop_allocs in refl
    go (some job) = refl

-- What the program of each operation does alone.
pub ruleset alone_rules = (
  alone-lock_tabla_if, alone-unlock_tabla_if, alone-send_message, alone-reserve_resource,
  alone-release_resource, alone-limpiar_colas_por_id, alone-limpiar_colas_por_conn, alone-lookup,
  alone-drop_allocs, alone-tabla_jobs_remove,
)
