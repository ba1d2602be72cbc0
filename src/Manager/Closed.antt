-- ===== src/Manager/Closed.antt =====
-- Properties of the manager that its elementary writes keep, under the releases and the clean-up of the
-- queues, which are made of them.
use tp_sist_op.Prelude.{
  ℕ, zero, suc, ◌^◌, ◌<◌, true, List, [], ◌∷◌, ◌≡◌, inl, inr, All, All-discard, Bool-cases,
  Option-cases,
}
use tp_sist_op.Prelude.Int.{ℤ, pos_part}
use tp_sist_op.ResourceTypes.{Resource, cpu, mem, gpu}
use tp_sist_op.Queue.{
  PendingRequest, Origin, ColaPendingRequest, queue_delete_by_conn, queue_delete_by_job_id,
  queue_dequeue,
}
use tp_sist_op.Queue.Fifo.{queue_delete_by_conn_correct, queue_delete_by_job_id_correct}
use tp_sist_op.Jobs.{Message, tabla_jobs_cambio_alloc, tabla_jobs_verificar}
use tp_sist_op.Manager.Resources.{IsSound, give_back-IsSound}
use tp_sist_op.Manager.Draining.{take_off-IsSound'}
use tp_sist_op.Manager.{
  Recurso, ResourceManager, Dest, recurso, set_recurso, can_serve, take_off, serve_top, serve,
  notify, send_message, accepts, give_back, release_resource, each_cola, with_cola,
  limpiar_colas_por_id, limpiar_colas_por_conn,
}

pub delete_by_id-IsSound :
    (id : ℤ) (r : Recurso) → IsSound r → IsSound (with_cola (λ c. queue_delete_by_job_id c id) r)
unfolding with_cola
delete_by_id-IsSound id r s =
    let (nodes, _, counted) = queue_delete_by_job_id_correct r.cola id s.counted in
    record {
      total = s.total;
      available = s.available;
      within = s.within;
      waits = rw nodes (All-discard _ _ r.cola.nodes s.waits);
      counted = counted;
    }

pub delete_by_conn-IsSound :
    (conn : ℕ) (r : Recurso) → IsSound r → IsSound (with_cola (λ c. queue_delete_by_conn c conn) r)
unfolding with_cola
delete_by_conn-IsSound conn r s =
    let (nodes, _, counted) = queue_delete_by_conn_correct r.cola conn s.counted in
    record {
      total = s.total;
      available = s.available;
      within = s.within;
      waits = rw nodes (All-discard _ _ r.cola.nodes s.waits);
      counted = counted;
    }

-- `K` holds of every request that waits.
pub record IsClosed (K : PendingRequest → Type 0) (P : ResourceManager → Type 0) : Type 0 where
  pub sound : (m : ResourceManager) → P m → (t : Resource) → IsSound (recurso t m)
  pub waiting : (m : ResourceManager) → P m → (t : Resource) → All K (recurso t m).cola.nodes
  pub stored :
      (m : ResourceManager)
      → P m
      → (t : Resource) (r : Recurso) → IsSound r
      → All K r.cola.nodes
      → P (set_recurso t r m)
  pub sent :
      (m : ResourceManager)
      → P m
      → (conn : ℕ) (d : Dest) (msg : Message) → P (send_message conn d msg m)
  pub granted :
      (m : ResourceManager)
      → P m
      → (id : ℤ) (conn : ℕ) (t : Resource)
      → P (record m { tabla = tabla_jobs_cambio_alloc m.tabla id conn t })

pub take_off-All :
    (K : PendingRequest → Type 0) (r : Recurso)
    → All K r.cola.nodes
    → All K (take_off r).0.cola.nodes
unfolding take_off queue_dequeue
take_off-All K r h = go r.cola.nodes h
  where
    go :
        (ns : List PendingRequest)
        → All K ns
        → All K
            (take_off
              (record r { cola = record { nodes = ns; amount = r.cola.amount } })).0.cola.nodes
    go [] h = tt
    go (p ∷ ns) h = h.1

module _ (K : PendingRequest → Type 0) (P : ResourceManager → Type 0) (c : IsClosed K P) where
  open c use {sound, waiting, stored, sent, granted}

  notify_closed : (t : Resource) (p : PendingRequest) (m : ResourceManager) → P m → P (notify t p m)
  unfolding notify
  notify_closed t p m h = go p.origen
    where
      m' : ResourceManager
      m' = record m { tabla = tabla_jobs_cambio_alloc m.tabla p.job_id p.owner_conn t }

      h' : P m'
      h' = granted m h p.job_id p.owner_conn t

      go : (o : Origin) → P (notify t (record p { origen = o }) m)
      go Origin.remote = sent m' h' p.owner_conn _ _
      go Origin.local = elim (Bool-cases (tabla_jobs_verificar m'.tabla p.job_id)) [
        | inl done ↦ rw done (sent m' h' p.owner_conn _ _)
        | inr more ↦ rw more h'
      ]

  serve_top_closed :
      (t : Resource) (m : ResourceManager)
      → P m
      → can_serve (recurso t m) ≡ true
      → P (serve_top t m)
  unfolding serve_top
  serve_top_closed t m h e =
      let stored' =
        stored m h t _ (take_off-IsSound' (recurso t m) (sound m h t) e)
          (take_off-All K (recurso t m) (waiting m h t)) in
      elim (Option-cases (take_off (recurso t m)).1) [
        | inl none_left ↦ rw (none_left, serve_top) stored'
        | inr (p, top) ↦
            rw (top, serve_top)
              (notify_closed t p (set_recurso t (take_off (recurso t m)).0 m) stored')
      ]

  serve_closed : (fuel : ℕ) (t : Resource) (m : ResourceManager) → P m → P (serve fuel t m)
  unfolding serve
  serve_closed zero t m h = h
  serve_closed (suc fuel) t m h = elim (Bool-cases (can_serve (recurso t m))) [
    | inl fits ↦
        rw (fits, serve) (serve_closed fuel t (serve_top t m) (serve_top_closed t m h fits))
    | inr stays ↦ rw (stays, serve) h
  ]

  pub release_resource_closed :
      (t : Resource) (amount : ℤ) (m : ResourceManager)
      → pos_part amount < 2 ^ 30
      → P m
      → P (release_resource t amount m)
  unfolding release_resource
  release_resource_closed t amount m small h = elim (Bool-cases (accepts (recurso t m) amount)) [
    | inl good ↦
        rw (good, release_resource)
          (serve_closed _ t (set_recurso t (give_back (recurso t m) amount) m) (
            stored m h t _ (give_back-IsSound (recurso t m) amount (sound m h t) small good).0
              (unfold give_back in waiting m h t)))
    | inr bad ↦ rw (bad, release_resource) h
  ]

  each_cola_closed :
      (f : ColaPendingRequest → ColaPendingRequest) (m : ResourceManager)
      → ((r : Recurso)
          → IsSound r
          → All K r.cola.nodes
          → IsSound (with_cola f r) × All K (with_cola f r).cola.nodes)
      → P m
      → P (each_cola f m)
  unfolding each_cola set_recurso recurso
  each_cola_closed f m keeps h =
      let a = keeps m.recurso_cpu (sound m h cpu) (waiting m h cpu) in
      let b = keeps m.recurso_mem (sound m h mem) (waiting m h mem) in
      let d = keeps m.recurso_gpu (sound m h gpu) (waiting m h gpu) in
      stored _ (stored _ (stored m h cpu _ a.0 a.1) mem _ b.0 b.1) gpu _ d.0 d.1

  pub limpiar_colas_por_id_closed :
      (id : ℤ) (m : ResourceManager) → P m → P (limpiar_colas_por_id id m)
  unfolding limpiar_colas_por_id
  limpiar_colas_por_id_closed id m h =
      each_cola_closed _ m
        (λ r s k. (
          delete_by_id-IsSound id r s,
          unfold with_cola in
              rw (queue_delete_by_job_id_correct r.cola id s.counted).0
                (All-discard K _ r.cola.nodes k),
        ))
        h

  pub limpiar_colas_por_conn_closed :
      (conn : ℕ) (m : ResourceManager) → P m → P (limpiar_colas_por_conn conn m)
  unfolding limpiar_colas_por_conn
  limpiar_colas_por_conn_closed conn m h =
      each_cola_closed _ m
        (λ r s k. (
          delete_by_conn-IsSound conn r s,
          unfold with_cola in
              rw (queue_delete_by_conn_correct r.cola conn s.counted).0
                (All-discard K _ r.cola.nodes k),
        ))
        h
