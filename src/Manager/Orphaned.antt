-- ===== src/Manager/Orphaned.antt =====
-- The order in which agente_c/src/resource_manager.c and agente_c/src/tabla_jobs.c take a job apart: what it holds is given
-- back while its own request still waits.
use tp_sist_op.Prelude.{
  ◌^◌, ◌<◌, true, false, List, [], ◌∷◌, ◌++◌, none, some, ◌≡◌, refl, sym, ap, subst, ◌∙◌, discard,
  All,
}
use tp_sist_op.Prelude.Int.{
  ℤ, pos_part, neg_part, ◌+ℤ◌, ◌-ℤ◌, ◌≤ℤ◌, int_laws, eqb_ℤ, eqb_ℤ_refl, leb_ℤ→lt,
}
use tp_sist_op.ResourceTypes.{Resource, cpu, mem, gpu}
use tp_sist_op.Queue.{PendingRequest}
use tp_sist_op.Queue.Fifo.{waiting, queue_delete_by_job_id_correct}
use tp_sist_op.Jobs.{
  Allocation, Job, TablaJobs, bucket, tabla_jobs_buscar_por_id, is_local_granted, is_remote,
  tabla_jobs_extract_by_id,
}
use tp_sist_op.Hash.{IsTable}
use tp_sist_op.Jobs.Lookup.{IsIndexed, IsUnique, extract_by_id-buscar}
use tp_sist_op.Manager.Widths.{length-extract_by_id}
use tp_sist_op.Manager.Unknown.{release_resource-IsUnknown}
use tp_sist_op.Manager.Resources.{IsSound, accepts_iff}
use tp_sist_op.Manager.Draining.{Drains, release_resource_correct}
use tp_sist_op.Manager.Stranded.{recurso-limpiar_colas_por_id}
use tp_sist_op.Manager.{
  Recurso, ResourceManager, recurso, give_back, can_serve, fits_top, release_resource, with_cola,
  limpiar_colas_por_id,
}
use tp_sist_op.Manager.Handlers.{drop_alloc, drop_allocs, tabla_jobs_remove, on_job_timeout}

-- One request that fits leaves the queue, and is paid for.
only_request :
    (r d : Recurso) (p : PendingRequest)
    → r.cola.nodes ≡ p ∷ []
    → p.amount ≤ℤ r.available_amount
    → Drains r d
    → (d.cola.nodes ≡ []) × (d.available_amount ≡ r.available_amount -ℤ p.amount)
unfolding fits_top waiting
only_request r d p one fits w = go w.served (sym one ∙ w.order) w.paid
  where
    go :
        (served : List PendingRequest)
        → p ∷ [] ≡ served ++ d.cola.nodes
        → r.available_amount ≡ waiting served +ℤ d.available_amount
        → (d.cola.nodes ≡ []) × (d.available_amount ≡ r.available_amount -ℤ p.amount)
    go [] e paid = absurd (
        omega (
          int_laws,
          leb_ℤ→lt p.amount d.available_amount
              (ap (λ ns. fits_top ns d.available_amount) e ∙ unfold can_serve in w.stopped),
          ap pos_part paid,
          ap neg_part paid,
        ))
    go (q ∷ []) e paid =
        let same : q.amount ≡ p.amount = cc in
        (
          cc,
          omega (int_laws, ap pos_part paid, ap neg_part paid, ap pos_part same, ap neg_part same),
        )
    go (q ∷ q' ∷ rest) e paid = cc

recurso-same_tabla :
    (t : Resource) (m : ResourceManager) (j : TablaJobs)
    → recurso t (record m { tabla = j }) ≡ recurso t m
unfolding recurso
recurso-same_tabla cpu m j = refl
recurso-same_tabla mem m j = refl
recurso-same_tabla gpu m j = refl

-- A queued allocation is skipped, and a granted one is given back.
drop_pair :
    (id : ℤ) (q g : Allocation) (m : ResourceManager)
    → is_local_granted q ≡ false
    → is_remote q ≡ false
    → is_local_granted g ≡ true
    → drop_allocs id (q ∷ g ∷ []) m ≡ release_resource g.name g.amount m
unfolding drop_allocs drop_alloc
drop_pair id q g m waits near here = rw waits (rw near (rw here refl))

-- The state behind the release.
module _ (m : ResourceManager) (t : Resource) (n : ℤ) (p : PendingRequest)
    (s : IsSound (recurso t m)) (small : pos_part n < 2 ^ 30) (nonneg : neg_part n ≡ 0)
    (one : (recurso t m).cola.nodes ≡ p ∷ [])
    (room : (recurso t m).available_amount +ℤ n ≤ℤ (recurso t m).total_amount)
    (fits : p.amount ≤ℤ (recurso t m).available_amount +ℤ n) where
  released :
      IsSound (recurso t (release_resource t n m))
      × ((recurso t (release_resource t n m)).cola.nodes ≡ [])
      × ((recurso t (release_resource t n m)).available_amount
          ≡ (recurso t m).available_amount +ℤ n -ℤ p.amount)
  released =
      let good = (accepts_iff (recurso t m) n s small).1 (nonneg, room) in
      let (drains, exact) = (release_resource_correct t n m s small).0 good in
      let (empty, left) =
        only_request (give_back (recurso t m) n) _ p (unfold give_back in one)
          (subst (λ a. p.amount ≤ℤ a) (sym exact) fits) drains in
      (drains.sound, empty, left ∙ ap (λ a. a -ℤ p.amount) exact)

limpiar-empty :
    (m : ResourceManager) (t : Resource) (id : ℤ)
    → IsSound (recurso t m)
    → (recurso t m).cola.nodes ≡ []
    → let r = recurso t (limpiar_colas_por_id id m) in
      (r.cola.nodes ≡ []) × (r.available_amount ≡ (recurso t m).available_amount)
limpiar-empty m t id s e =
    let cleaned = queue_delete_by_job_id_correct (recurso t m).cola id s.counted in
    let reads = recurso-limpiar_colas_por_id t id m in
    (
      ap (λ r. r.cola.nodes) reads
          ∙ unfold with_cola in
            (cleaned.0 ∙ ap (discard (λ q. eqb_ℤ q.job_id id)) e ∙ unfold discard in refl),
      ap (λ r. r.available_amount) reads ∙ unfold with_cola in refl,
    )

-- In a table of 71 buckets and a resource in order: a job, which the table holds once, has a granted
-- local allocation of the resource and waits in its queue, alone, for more of it, an amount that fits
-- once the allocation is given back. When the job times out, its request is served although the job is
-- gone: the job is unknown and nothing waits any more, and still what is available lacks the amount of
-- the request.
pub on_job_timeout_loses :
    (m : ResourceManager) (t : Resource) (id : ℤ) (j : Job) (q g : Allocation) (p : PendingRequest)
    → IsSound (recurso t m)
    → IsTable m.tabla
    → IsIndexed id
    → IsUnique (bucket m.tabla id)
    → tabla_jobs_buscar_por_id m.tabla id ≡ some j
    → j.confirmadas ≡ q ∷ g ∷ []
    → is_local_granted q ≡ false
    → is_remote q ≡ false
    → is_local_granted g ≡ true
    → g.name ≡ t
    → pos_part g.amount < 2 ^ 30
    → neg_part g.amount ≡ 0
    → (recurso t m).cola.nodes ≡ p ∷ []
    → p.job_id ≡ id
    → (recurso t m).available_amount +ℤ g.amount ≤ℤ (recurso t m).total_amount
    → p.amount ≤ℤ (recurso t m).available_amount +ℤ g.amount
    → let r = recurso t (on_job_timeout id m) in
      (tabla_jobs_buscar_por_id (on_job_timeout id m).tabla id ≡ none)
      × (r.cola.nodes ≡ [])
      × (r.available_amount ≡ (recurso t m).available_amount +ℤ g.amount -ℤ p.amount)
unfolding on_job_timeout
on_job_timeout_loses m t id j q g p s wide indexed once known allocs waits near here name small
      nonneg one mine room fits =
    let m' : ResourceManager = record m { tabla = (tabla_jobs_extract_by_id m.tabla id).0 } in
    let taken = extract_by_id-buscar m.tabla id id wide indexed once in
    let found : (tabla_jobs_extract_by_id m.tabla id).1 ≡ some j = taken.0 ∙ known in
    let same : recurso t m' ≡ recurso t m = recurso-same_tabla t m _ in
    let removed : tabla_jobs_remove id m ≡ release_resource t g.amount m' =
      unfold tabla_jobs_remove in
      rw (found, tabla_jobs_remove)
        (ap (λ l. drop_allocs id l m') allocs
          ∙ drop_pair id q g m' waits near here
          ∙ ap (λ u. release_resource u g.amount m') name) in
    let (sound', empty, left) =
      released m' t g.amount p (subst IsSound (sym same) s) small nonneg
        (ap (λ r. r.cola.nodes) same ∙ one)
        (subst (λ r. r.available_amount +ℤ g.amount ≤ℤ r.total_amount) (sym same) room)
        (subst (λ r. p.amount ≤ℤ r.available_amount +ℤ g.amount) (sym same) fits) in
    let unknown =
      release_resource-IsUnknown id indexed t g.amount m'
        (subst (All (λ x. x.job_id ≡ id)) (sym (ap (λ r. r.cola.nodes) same ∙ one)) (mine, tt))
        (record {
          width = length-extract_by_id m.tabla id ∙ wide;
          unknown = taken.1 ∙ rw (eqb_ℤ_refl id) refl;
        }) in
    let (gone, kept) = limpiar-empty (release_resource t g.amount m') t id sound' empty in
    rw removed (
      unfold limpiar_colas_por_id in unknown.unknown,
      gone,
      kept ∙ left ∙ ap (λ r. r.available_amount +ℤ g.amount -ℤ p.amount) same,
    )
