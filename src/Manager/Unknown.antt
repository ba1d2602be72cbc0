-- ===== src/Manager/Unknown.antt =====
-- A job that is not in the table of agente_c/src/tabla_jobs.c stays out of it while its requests leave a
-- queue.
use tp_sist_op.Prelude.{
  ℕ, zero, suc, List, [], ◌∷◌, none, some, ◌≡◌, refl, sym, subst, ◌∙◌, inl, inr, arith, All,
  Bool-cases, Option-cases,
}
use tp_sist_op.Prelude.Int.{ℤ, eqb_ℤ_refl}
use tp_sist_op.ResourceTypes.{Resource, cpu, mem, gpu, resource_eq_refl}
use tp_sist_op.Queue.{PendingRequest, queue_dequeue}
use tp_sist_op.Hash.{IsTable}
use tp_sist_op.Jobs.{TablaJobs, tabla_jobs_buscar_por_id, tabla_jobs_cambio_alloc}
use tp_sist_op.Jobs.Lookup.{IsIndexed, buscar-update_job}
use tp_sist_op.Manager.Closed.{take_off-All}
use tp_sist_op.Manager.Widths.{length-cambio_alloc}
use tp_sist_op.Manager.Draining.{recurso-serve_top, recurso-set_recurso}
use tp_sist_op.Manager.{
  Recurso, ResourceManager, recurso, set_recurso, can_serve, take_off, notify, serve_top, serve,
  accepts, give_back, release_resource, send_message,
}

tabla-set_recurso :
    (t : Resource) (r : Recurso) (m : ResourceManager) → (set_recurso t r m).tabla ≡ m.tabla
unfolding set_recurso
tabla-set_recurso cpu r m = refl
tabla-set_recurso mem r m = refl
tabla-set_recurso gpu r m = refl

tabla-notify :
    (t : Resource) (p : PendingRequest) (m : ResourceManager)
    → (notify t p m).tabla ≡ tabla_jobs_cambio_alloc m.tabla p.job_id p.owner_conn t
unfolding notify send_message
tabla-notify t p m = ground arith

top-All :
    (K : PendingRequest → Type 0) (r : Recurso) (p : PendingRequest)
    → All K r.cola.nodes
    → (take_off r).1 ≡ some p
    → K p
unfolding take_off queue_dequeue
top-All K r p h e = go r.cola.nodes h e
  where
    go :
        (ns : List PendingRequest)
        → All K ns
        → (take_off (record r { cola = record { nodes = ns; amount = r.cola.amount } })).1 ≡ some p
        → K p
    go [] h e = cc
    go (q ∷ ns) h e = subst K (cc) h.0

-- The id is unknown in a table of 71 buckets.
pub record IsUnknown (id : ℤ) (t : TablaJobs) : Type 0 where
  pub width : IsTable t
  pub unknown : tabla_jobs_buscar_por_id t id ≡ none

cambio_alloc-IsUnknown :
    (id : ℤ) (t : TablaJobs) (conn : ℕ) (tipo : Resource)
    → IsIndexed id
    → IsUnknown id t
    → IsUnknown id (tabla_jobs_cambio_alloc t id conn tipo)
unfolding tabla_jobs_cambio_alloc
cambio_alloc-IsUnknown id t conn tipo i u = record {
  width = length-cambio_alloc t id conn tipo ∙ u.width;
  unknown =
      buscar-update_job t id id _ u.width i (λ j. refl) ∙ rw (eqb_ℤ_refl id) (rw u.unknown refl);
}

module _ (id : ℤ) (indexed : IsIndexed id) (t : Resource) where
  abbrev pub OwnQueue : ResourceManager → Type 0
  OwnQueue m = All (λ p. p.job_id ≡ id) (recurso t m).cola.nodes

  own_of :
      (r r' : Recurso)
      → r ≡ r'
      → All (λ p. p.job_id ≡ id) r'.cola.nodes
      → All (λ p. p.job_id ≡ id) r.cola.nodes
  own_of r r' e h = subst (λ x. All (λ p. p.job_id ≡ id) x.cola.nodes) (sym e) h

  serve_top-IsUnknown :
      (m : ResourceManager) → OwnQueue m → IsUnknown id m.tabla → IsUnknown id (serve_top t m).tabla
  unfolding serve_top
  serve_top-IsUnknown m own u =
      let stored : IsUnknown id (set_recurso t (take_off (recurso t m)).0 m).tabla =
        subst (IsUnknown id) (sym (tabla-set_recurso t _ m)) u in
      elim (Option-cases (take_off (recurso t m)).1) [
        | inl e ↦ rw (e, serve_top) stored
        | inr (p, e) ↦
            rw (e, serve_top, tabla-notify)
              (subst
                (λ x. IsUnknown id (
                  tabla_jobs_cambio_alloc (set_recurso t (take_off (recurso t m)).0 m).tabla x
                    p.owner_conn t))
                (sym (top-All (λ q. q.job_id ≡ id) (recurso t m) p own e))
                (cambio_alloc-IsUnknown id _ p.owner_conn t indexed stored))
      ]

  serve-IsUnknown :
      (fuel : ℕ) (m : ResourceManager)
      → OwnQueue m
      → IsUnknown id m.tabla
      → IsUnknown id (serve fuel t m).tabla
  unfolding serve
  serve-IsUnknown zero m own u = u
  serve-IsUnknown (suc fuel) m own u = elim (Bool-cases (can_serve (recurso t m))) [
    | inl fits ↦
        let same : recurso t (serve_top t m) ≡ (take_off (recurso t m)).0 =
          recurso-serve_top t t m ∙ rw (resource_eq_refl t) refl in
        rw (fits, serve)
          (serve-IsUnknown fuel (serve_top t m) (own_of _ _ same (take_off-All _ (recurso t m) own))
            (serve_top-IsUnknown m own u))
    | inr stays ↦ rw (stays, serve) u
  ]

  pub release_resource-IsUnknown :
      (n : ℤ) (m : ResourceManager)
      → OwnQueue m
      → IsUnknown id m.tabla
      → IsUnknown id (release_resource t n m).tabla
  unfolding release_resource give_back
  release_resource-IsUnknown n m own u = elim (Bool-cases (accepts (recurso t m) n)) [
    | inl good ↦
        let r : Recurso = give_back (recurso t m) n in
        let same : recurso t (set_recurso t r m) ≡ r =
          recurso-set_recurso t t r m ∙ rw (resource_eq_refl t) refl in
        rw (good, release_resource)
          (serve-IsUnknown _ _ (own_of _ r same own)
            (subst (IsUnknown id) (sym (tabla-set_recurso t _ m)) u))
    | inr bad ↦ rw (bad, release_resource) u
  ]
