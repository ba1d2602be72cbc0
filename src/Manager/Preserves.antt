-- ===== src/Manager/Preserves.antt =====
-- The handlers of `process_message` in agente_c/src/resource_manager.c and the invariant of the manager.
use tp_sist_op.Prelude.{
  ℕ, ◌^◌, ◌<◌, List, [], ◌∷◌, Option, some, ◌≡◌, refl, subst, ◌∙◌, inl, inr, ◌&&◌, if◌then◌else◌,
  All, Bool-cases, Option-cases,
}
use tp_sist_op.Prelude.Int.{ℤ, pos, pos_part, neg_part, eqb_ℤ}
use tp_sist_op.ResourceTypes.{Resource}
use tp_sist_op.Queue.{Origin}
use tp_sist_op.Jobs.{
  Allocation, Result, Job, TablaJobs, is_remote, is_local_granted, tabla_jobs_extract_by_id,
  tabla_jobs_buscar_por_id, tabla_jobs_get_conn, tabla_jobs_verificar, update_job, job_confirmar,
}
use tp_sist_op.Jobs.Payable.{
  IsPayable, Payable, extract_by_id-AllPayable, update_job-AllPayable, job_confirmar-Payable,
}
use tp_sist_op.Jobs.Every.{WhenFound}
use tp_sist_op.Conns.{tabla_conns_get_ip_by_conn}
use tp_sist_op.Manager.Resources.{reserve-IsSound}
use tp_sist_op.Manager.Closed.{release_resource_closed, limpiar_colas_por_id_closed}
use tp_sist_op.Manager.Dropped.{payable_of_granted, drop_allocs_closed}
use tp_sist_op.Manager.Widths.{length-update_job, length-extract_by_id}
use tp_sist_op.Manager.Invariant.{
  IsValid, set_recurso-IsValid, send_message-IsValid, set_tabla-IsValid, IsValid-closed, AnyRequest,
}
use tp_sist_op.Manager.{
  ResourceManager, recurso, reserve_resource, release_resource, limpiar_colas_por_id,
}
use tp_sist_op.Manager.Handlers.{
  on_reserve, drop_allocs, tabla_jobs_remove, on_release, release_ghost, confirm, on_granted,
  on_denied, release_alloc, release_allocs, on_job_release, on_job_status, on_job_timeout,
}

release-IsValid :
    (t : Resource) (amount : ℤ) (m : ResourceManager)
    → pos_part amount < 2 ^ 30
    → IsValid m
    → IsValid (release_resource t amount m)
release-IsValid = release_resource_closed AnyRequest IsValid IsValid-closed

pub limpiar-IsValid :
    (id : ℤ) (m : ResourceManager) → IsValid m → IsValid (limpiar_colas_por_id id m)
limpiar-IsValid = limpiar_colas_por_id_closed AnyRequest IsValid IsValid-closed

pub reserve_resource-IsValid :
    (t : Resource) (amount id : ℤ) (conn : ℕ) (o : Origin) (m : ResourceManager)
    → neg_part amount ≡ 0
    → IsValid m
    → IsValid (reserve_resource t amount id conn o m).0
unfolding reserve_resource
reserve_resource-IsValid t amount id conn o m h v =
    set_recurso-IsValid m v t _ (reserve-IsSound (recurso t m) amount id conn o (v.sound t) h)

pub on_reserve-IsValid :
    (conn : ℕ) (id : ℤ) (t : Resource) (amount : ℤ) (m : ResourceManager)
    → neg_part amount ≡ 0
    → IsValid m
    → IsValid (on_reserve conn id t amount m)
on_reserve-IsValid conn id t amount m h v =
    go (reserve_resource t amount id conn Origin.remote m).1 refl
  where
    v' : IsValid (reserve_resource t amount id conn Origin.remote m).0
    v' = reserve_resource-IsValid t amount id conn Origin.remote m h v

    go :
        (r : Result)
        → (reserve_resource t amount id conn Origin.remote m).1 ≡ r
        → IsValid (on_reserve conn id t amount m)
    go Result.granted e =
        unfold on_reserve in rw (e, on_reserve) (send_message-IsValid _ v' conn _ _)
    go Result.queued e = unfold on_reserve in rw (e, on_reserve) v'
    go Result.denied e =
        unfold on_reserve in rw (e, on_reserve) (send_message-IsValid _ v' conn _ _)

pub drop_allocs-IsValid :
    (id : ℤ) (l : List Allocation) (m : ResourceManager)
    → All IsPayable l
    → IsValid m
    → IsValid (drop_allocs id l m)
drop_allocs-IsValid = drop_allocs_closed AnyRequest IsValid IsValid-closed

-- Taking a job out by id: the table stays in order, and so are the allocations handed out.
pub extract-IsValid :
    (id : ℤ) (m : ResourceManager)
    → IsValid m
    → IsValid (record m { tabla = (tabla_jobs_extract_by_id m.tabla id).0 })
      × WhenFound Payable (tabla_jobs_extract_by_id m.tabla id).1
extract-IsValid id m v =
    let (kept, found) = extract_by_id-AllPayable m.tabla id v.payable in
    (set_tabla-IsValid m _ v kept (length-extract_by_id m.tabla id ∙ v.jobs_width), found)

pub when_found : (o : Option Job) (j : Job) → o ≡ some j → WhenFound Payable o → Payable j
when_found o j e h = subst (WhenFound Payable) e h

pub tabla_jobs_remove-IsValid :
    (id : ℤ) (m : ResourceManager) → IsValid m → IsValid (tabla_jobs_remove id m)
unfolding tabla_jobs_remove
tabla_jobs_remove-IsValid id m v =
    let (v', found) = extract-IsValid id m v in
    elim (Option-cases (tabla_jobs_extract_by_id m.tabla id).1) [
      | inl e ↦ unfold tabla_jobs_remove in rw (e, tabla_jobs_remove) v'
      | inr (j, e) ↦
          rw (e, tabla_jobs_remove)
            (drop_allocs-IsValid id j.confirmadas _ (when_found _ j e found) v')
    ]

pub on_release-IsValid :
    (id : ℤ) (t : Resource) (amount : ℤ) (m : ResourceManager)
    → pos_part amount < 2 ^ 30
    → IsValid m
    → IsValid (on_release id t amount m)
unfolding on_release
on_release-IsValid id t amount m h v = limpiar-IsValid id _ (tabla_jobs_remove-IsValid id _ after)
  where
    after : IsValid (if eqb_ℤ amount (pos 0) then m else release_resource t amount m)
    after = elim (Bool-cases (eqb_ℤ amount (pos 0))) [
      | inl nothing ↦ rw nothing v
      | inr some_amount ↦ rw some_amount (release-IsValid t amount m h v)
    ]

confirm-IsValid :
    (j : Job) (ip : List ℕ) (id : ℤ) (m : ResourceManager) → IsValid m → IsValid (confirm j ip id m)
unfolding confirm
confirm-IsValid j ip id m v =
    elim (Bool-cases ((job_confirmar j ip id).1 && tabla_jobs_verificar t id)) [
      | inl done ↦ rw done (send_message-IsValid _ v' j.conn _ _)
      | inr more ↦ rw more v'
    ]
  where
    t : TablaJobs
    t = update_job m.tabla id (λ k. (job_confirmar k ip id).0)

    v' : IsValid (record m { tabla = t })
    v' =
        set_tabla-IsValid m t v
          (update_job-AllPayable m.tabla id _ (λ k p. job_confirmar-Payable k ip id p) v.payable)
          (length-update_job m.tabla id _ ∙ v.jobs_width)

pub on_granted-IsValid :
    (conn : ℕ) (id : ℤ) (m : ResourceManager) → IsValid m → IsValid (on_granted conn id m)
unfolding on_granted
on_granted-IsValid conn id m v = elim (Option-cases (tabla_conns_get_ip_by_conn m.conns conn)) [
  | inl e ↦ rw (e, on_granted) v
  | inr (ip, e) ↦
      rw (e, on_granted)
        (elim (Option-cases (tabla_jobs_buscar_por_id m.tabla id)) [
          | inl gone ↦ rw gone ghost
          | inr (j, found) ↦ rw found (confirm-IsValid j ip id m v)
        ])
]
  where
    ghost : IsValid (release_ghost conn id m)
    ghost =
        unfold release_ghost in
        send_message-IsValid _ (send_message-IsValid _ (send_message-IsValid m v conn _ _) conn _ _)
          conn _ _

pub on_denied-IsValid : (id : ℤ) (m : ResourceManager) → IsValid m → IsValid (on_denied id m)
unfolding on_denied
on_denied-IsValid id m v = elim (Option-cases (tabla_jobs_get_conn m.tabla id)) [
  | inl e ↦ rw (e, on_denied) (limpiar-IsValid id m v)
  | inr (c, e) ↦
      rw (e, on_denied)
        (limpiar-IsValid id _ (send_message-IsValid _ (tabla_jobs_remove-IsValid id m v) c _ _))
]

release_alloc-IsValid :
    (a : Allocation) (m : ResourceManager) → IsPayable a → IsValid m → IsValid (release_alloc a m)
unfolding release_alloc
release_alloc-IsValid a m p v = elim (Bool-cases (is_remote a)) [
  | inl far ↦ rw far (send_message-IsValid _ after a.conn _ _)
  | inr here ↦ rw here after
]
  where
    after : IsValid (
        if is_local_granted a
        then release_resource a.name a.amount m
        else limpiar_colas_por_id a.job_id m)
    after = elim (Bool-cases (is_local_granted a)) [
      | inl here ↦ rw here (release-IsValid a.name a.amount m (payable_of_granted a p here) v)
      | inr other ↦ rw other (limpiar-IsValid a.job_id m v)
    ]

release_allocs-IsValid :
    (l : List Allocation) (m : ResourceManager)
    → All IsPayable l
    → IsValid m
    → IsValid (release_allocs l m)
unfolding release_allocs
release_allocs-IsValid [] m p v = v
release_allocs-IsValid (a ∷ l) m p v =
    release_allocs-IsValid l (release_alloc a m) p.1 (release_alloc-IsValid a m p.0 v)

pub on_job_release-IsValid :
    (id : ℤ) (m : ResourceManager) → IsValid m → IsValid (on_job_release id m)
unfolding on_job_release
on_job_release-IsValid id m v =
    let (v', found) = extract-IsValid id m v in
    elim (Option-cases (tabla_jobs_extract_by_id m.tabla id).1) [
      | inl e ↦ rw (e, on_job_release) v'
      | inr (j, e) ↦
          rw (e, on_job_release)
            (limpiar-IsValid id _
              (release_allocs-IsValid j.confirmadas _ (when_found _ j e found) v'))
    ]

pub on_job_status-IsValid :
    (conn : ℕ) (id : ℤ) (m : ResourceManager) → IsValid m → IsValid (on_job_status conn id m)
unfolding on_job_status
on_job_status-IsValid conn id m v = elim (Option-cases (tabla_jobs_get_conn m.tabla id)) [
  | inl e ↦ rw (e, on_job_status) (send_message-IsValid m v conn _ _)
  | inr (c, e) ↦ rw (e, on_job_status) (send_message-IsValid m v conn _ _)
]

pub on_job_timeout-IsValid :
    (id : ℤ) (m : ResourceManager) → IsValid m → IsValid (on_job_timeout id m)
unfolding on_job_timeout
on_job_timeout-IsValid id m v = limpiar-IsValid id _ (tabla_jobs_remove-IsValid id m v)
