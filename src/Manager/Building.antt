-- ===== src/Manager/Building.antt =====
-- JOB_REQUEST and the invariant of the manager, whichever way the job goes.
use tp_sist_op.Parsing.JobRequest.{ResourceRequest}
use tp_sist_op.Prelude.{
  ℕ, ◌⊎◌, ◌≢◌, sym, List, [], ◌∷◌, Option, ◌≡◌, refl, ◌∙◌, inl, inr, arith, All, Bool-cases,
  Option-cases, bytes_eq,
}
use tp_sist_op.Prelude.Int.{ℤ, neg_part, IsQuantity}
use tp_sist_op.ResourceTypes.{Resource}
use tp_sist_op.Queue.{Origin}
use tp_sist_op.Jobs.{
  AllocType, Result, Job, tabla_jobs_buscar_por_id, tabla_jobs_verificar, crear_allocation,
  tabla_jobs_insertar_job,
}
use tp_sist_op.Jobs.Payable.{Payable, insertar-AllPayable}
use tp_sist_op.Conns.{tabla_conns_lookup}
use tp_sist_op.Nodes.{tabla_nodos_get_puerto}
use tp_sist_op.Manager.Resources.{reserve_cases}
use tp_sist_op.Manager.Widths.{length-insertar_job}
use tp_sist_op.Manager.Invariant.{IsValid, send_message-IsValid, set_tabla-IsValid}
use tp_sist_op.Manager.Preserves.{limpiar-IsValid, reserve_resource-IsValid, drop_allocs-IsValid}
use tp_sist_op.Manager.{ResourceManager, recurso, reserve_resource}
use tp_sist_op.Manager.Requests.{
  Outcome, built, given_up, nuevo_job, add_alloc, give_up, attempt, process_requests,
  finish_request, on_job_request,
}

-- The amounts are not negative, as the parser of JOB_REQUEST sees to.
abbrev pub AllAsked : List ResourceRequest → Type 0
AllAsked = All (λ r. neg_part r.amount ≡ 0)

abbrev OutcomeValid : Outcome → Type 0
OutcomeValid (built j m) = Payable j × IsValid m
OutcomeValid (given_up m) = IsValid m

-- What is not denied is a quantity.
pub reserve-IsQuantity :
    (t : Resource) (amount id : ℤ) (conn : ℕ) (o : Origin) (m : ResourceManager)
    → neg_part amount ≡ 0
    → IsValid m
    → ((reserve_resource t amount id conn o m).1 ≡ Result.denied) ⊎ IsQuantity amount
unfolding reserve_resource
reserve-IsQuantity t amount id conn o m h v =
    let s = v.sound t in
    reserve_cases (λ q. (q.1 ≡ Result.denied) ⊎ IsQuantity amount) (recurso t m) amount id conn o
      (λ le. inr (omega (arith, s.available), h)) (λ lt le. inr (omega (arith, s.total), h))
      (λ lt never. inl refl)

give_up-IsValid :
    (conn : ℕ) (id : ℤ) (j : Job) (m : ResourceManager)
    → Payable j
    → IsValid m
    → IsValid (give_up conn id j m)
unfolding give_up
give_up-IsValid conn id j m p v =
    send_message-IsValid _ (drop_allocs-IsValid id j.confirmadas _ p (limpiar-IsValid id m v)) conn
      _ _

pub Result-cases : (r : Result) → (r ≡ Result.granted) ⊎ (r ≡ Result.queued) ⊎ (r ≡ Result.denied)
Result-cases Result.granted = inl refl
Result-cases Result.queued = inr (inl refl)
Result-cases Result.denied = inr (inr refl)

-- The allocation that a reservation of this node makes.
module _ (conn : ℕ) (id : ℤ) (r : ResourceRequest) (j : Job) (m : ResourceManager)
    (h : neg_part r.amount ≡ 0) (p : Payable j) (v : IsValid m) where
  abbrev outcome : ResourceManager × Result
  outcome = reserve_resource r.type r.amount id conn Origin.local m

  abbrev with_alloc : Result → Job
  with_alloc res = add_alloc (crear_allocation r.type r.amount AllocType.local m.ip id res conn) j

  reserved-IsValid : IsValid outcome.0
  reserved-IsValid = reserve_resource-IsValid r.type r.amount id conn Origin.local m h v

  with_alloc-Payable : (res : Result) → outcome.1 ≢ Result.denied → Payable (with_alloc res)
  unfolding add_alloc crear_allocation
  with_alloc-Payable res kept =
      elim (reserve-IsQuantity r.type r.amount id conn Origin.local m h v) [
        | inl bad ↦ absurd (kept bad)
        | inr q ↦ ((λ _. q), p)
      ]

process_requests-Valid :
    (conn : ℕ) (id : ℤ) (reqs : List ResourceRequest) (tries : List (Option ℕ)) (j : Job)
    (m : ResourceManager)
    → AllAsked reqs
    → Payable j
    → IsValid m
    → OutcomeValid (process_requests conn id reqs tries j m)
unfolding process_requests
process_requests-Valid conn id [] tries j m h p v = (p, v)
process_requests-Valid conn id (r ∷ reqs) tries j m h p v =
    let v' = reserved-IsValid conn id r j m h.0 p v in
    let kept = with_alloc-Payable conn id r j m h.0 p v in
    elim (Bool-cases (bytes_eq r.ip m.ip)) [
      | inl here ↦
          rw (here, process_requests)
            (elim (Result-cases (outcome conn id r j m h.0 p v).1) [
              | inl e ↦ rw e (
                  process_requests-Valid conn id reqs tries
                    (with_alloc conn id r j m h.0 p v Result.granted) _ h.1
                    (kept Result.granted (λ d. granted≢denied (sym e ∙ d))) v')
              | inr (inl e) ↦ rw e (
                  process_requests-Valid conn id reqs tries
                    (with_alloc conn id r j m h.0 p v Result.queued) _ h.1
                    (kept Result.queued (λ d. queued≢denied (sym e ∙ d))) v')
              | inr (inr e) ↦ rw e (give_up-IsValid conn id j _ p v')
            ])
      | inr far ↦
          rw (far, process_requests)
            (elim (Option-cases (tabla_conns_lookup m.conns r.ip)) [
              | inl e ↦
                  rw e
                    (elim (Option-cases (attempt (tabla_nodos_get_puerto m.nodos r.ip) tries).0) [
                      | inl failed ↦ rw failed (give_up-IsValid conn id j m p v)
                      | inr (c, started) ↦
                          rw started (process_requests-Valid conn id reqs _ _ m h.1 p v)
                    ])
              | inr (c, e) ↦ rw e (
                  process_requests-Valid conn id reqs tries _ _ h.1 p
                    (send_message-IsValid m v c _ _))
            ])
    ]
  where
    granted≢denied : Result.granted ≢ Result.denied
    granted≢denied e = cc

    queued≢denied : Result.queued ≢ Result.denied
    queued≢denied e = cc

pub on_job_request-IsValid :
    (conn : ℕ) (id : ℤ) (reqs : List ResourceRequest) (tries : List (Option ℕ))
    (m : ResourceManager)
    → AllAsked reqs
    → IsValid m
    → IsValid (on_job_request conn id reqs tries m)
unfolding on_job_request
on_job_request-IsValid conn id reqs tries m h v =
    elim (Option-cases (tabla_jobs_buscar_por_id m.tabla id)) [
      | inl e ↦
          rw (e, on_job_request)
            (finish (process_requests conn id reqs tries (nuevo_job conn id) m) (
              process_requests-Valid conn id reqs tries (nuevo_job conn id) m h
                (unfold nuevo_job in tt) v))
      | inr (j, e) ↦ rw (e, on_job_request) v
    ]
  where
    finish : (o : Outcome) → OutcomeValid o → IsValid (finish_request conn id o)
    finish (given_up m') v' = unfold finish_request in v'
    finish (built j m') (p, v') =
        let stored : IsValid (record m' { tabla = tabla_jobs_insertar_job m'.tabla j }) =
          set_tabla-IsValid m' _ v' (insertar-AllPayable m'.tabla j p v'.payable)
            (length-insertar_job m'.tabla j ∙ v'.jobs_width) in
        elim (Bool-cases (tabla_jobs_verificar (tabla_jobs_insertar_job m'.tabla j) id)) [
          | inl done ↦
              unfold finish_request in
              rw (done, finish_request) (send_message-IsValid _ stored conn _ _)
          | inr more ↦ unfold finish_request in rw (more, finish_request) stored
        ]
