-- ===== src/Jobs/Grants.antt =====
-- agente_c/src/tabla_jobs.c: how a job's requests are granted one by one, and when the job is
-- complete.
use tp_sist_op.Prelude.{
  ℕ, zero, suc, ◌+◌, ◌≤◌, ◌<◌, Bool, true, false, List, [], ◌∷◌, Option, none, some, ◌≡◌, refl, sym,
  ap, ◌∙◌, ◌↔◌, ◌⊎◌, inl, inr, arith, ◌&&◌, if◌then◌else◌, Bool-cases, All, bytes_eq, length,
}
use mathlib.Core.Bool.{false≢true}
use mathlib.Core.Option.{some-injective}
use tp_sist_op.Prelude.Int.{ℤ, pos, ◌+ℤ◌, +ℤ_left_comm, +ℤ_assoc}
use tp_sist_op.ResourceTypes.{Resource, resource_eq}
use tp_sist_op.Jobs.{
  Allocation, OutRequest, Job, TablaJobs, is_local_queued, is_local_of, any_local_queued,
  no_pending, take_pending, job_confirmar, grant_first, tabla_jobs_verificar,
  tabla_jobs_buscar_por_id, bucket, find_job, is_complete, crear_allocation,
}

-- What the allocations and the pending requests of one resource ask for together.
granted_sum : Resource → List Allocation → ℤ
granted_sum tipo [] = pos 0
granted_sum tipo (a ∷ sig) =
    (if resource_eq a.name tipo then a.amount else pos 0) +ℤ granted_sum tipo sig

pending_sum : Resource → List OutRequest → ℤ
pending_sum tipo [] = pos 0
pending_sum tipo (r ∷ next) =
    (if resource_eq r.tipo tipo then r.amount else pos 0) +ℤ pending_sum tipo next

pub asked : Resource → Job → ℤ
unfolding granted_sum pending_sum
asked tipo j = granted_sum tipo j.confirmadas +ℤ pending_sum tipo j.pendientes

pub has_pending : List ℕ → List OutRequest → Bool
has_pending ip [] = false
has_pending ip (r ∷ next) = if bytes_eq r.ip ip then true else has_pending ip next

-- The first request of the IP is taken out, or there is none.
abbrev Takes : List ℕ → List OutRequest → Type 0
Takes ip rs =
    ((take_pending ip rs ≡ none) × (has_pending ip rs ≡ false))
    ⊎ ((r : OutRequest) × (rest : List OutRequest) × (take_pending ip rs ≡ some (r, rest))
        × (has_pending ip rs ≡ true)
        × (bytes_eq r.ip ip ≡ true)
        × (length rs ≡ suc (length rest))
        × ((tipo : Resource)
            → pending_sum tipo rs
              ≡ (if resource_eq r.tipo tipo then r.amount else pos 0) +ℤ pending_sum tipo rest))

take_pending-Takes : (ip : List ℕ) (rs : List OutRequest) → Takes ip rs
unfolding take_pending has_pending pending_sum
take_pending-Takes ip [] = inl (refl, refl)
take_pending-Takes ip (x ∷ rs) = elim (Bool-cases (bytes_eq x.ip ip)) [
  | inl hit ↦ inr (x, rs, rw hit, rw hit, hit, refl, λ tipo. refl)
  | inr miss ↦ elim (take_pending-Takes ip rs) [
    | inl (e, none_here) ↦ inl (rw (miss, e), rw (miss, none_here))
    | inr (r, rest, e, found, same, size, sum) ↦ inr (
      r,
      x ∷ rest,
      rw (miss, e),
      rw (miss, found),
      same,
      ap suc size,
      λ tipo. rw (sum tipo) (+ℤ_left_comm _ _ (pending_sum tipo rest)),
    )
  ]
]

-- A GRANTED from an IP settles exactly one request, if one to that IP is pending: the job then has
-- one pending request less and one confirmed allocation more, and it has a queued local allocation
-- exactly if it had one. Otherwise the job is unchanged. Either way it asks for the same amount of
-- every resource.
pub job_confirmar_correct :
    (j : Job) (ip : List ℕ) (id : ℤ)
    → let (j', done) = job_confirmar j ip id in
      (done ≡ has_pending ip j.pendientes)
      × (done ≡ false → j' ≡ j)
      × (length j'.confirmadas + length j'.pendientes ≡ length j.confirmadas + length j.pendientes)
      × (done ≡ true
          → (length j.pendientes ≡ suc (length j'.pendientes))
            × (any_local_queued j'.confirmadas ≡ any_local_queued j.confirmadas))
      × ((tipo : Resource) → asked tipo j' ≡ asked tipo j)
unfolding job_confirmar asked granted_sum any_local_queued crear_allocation is_local_queued
job_confirmar_correct j ip id = elim (take_pending-Takes ip j.pendientes) [
  | inl (e, absent) ↦
      rw (e, job_confirmar) (sym absent, λ _. refl, refl, λ h. absurd (false≢true h), λ tipo. refl)
  | inr (r, rest, e, found, same, size, sum) ↦
      rw (e, job_confirmar)
        (
          sym found,
          λ h. absurd (false≢true (sym h)),
          omega arith,
          λ _. (size, refl),
          λ tipo. rw (sum tipo) (
              +ℤ_assoc _ (granted_sum tipo j.confirmadas) (pending_sum tipo rest)
              ∙ +ℤ_left_comm _ _ _),
        )
]

none_queued_iff :
    (l : List Allocation) → (any_local_queued l ≡ false) ↔ All (λ a. is_local_queued a ≡ false) l
unfolding any_local_queued
none_queued_iff [] = (λ _. tt, λ _. refl)
none_queued_iff (a ∷ sig) = ground (arith, none_queued_iff sig)

no_pending_iff : (rs : List OutRequest) → (no_pending rs ≡ true) ↔ (rs ≡ [])
unfolding no_pending
no_pending_iff [] = (λ _. refl, λ _. refl)
no_pending_iff (r ∷ rs) = (λ e. cc, λ e. cc)

is_complete_iff :
    (o : Option Job)
    → (is_complete o ≡ true) ↔ (
        (j : Job) × (o ≡ some j)
        × All (λ a. is_local_queued a ≡ false) j.confirmadas
        × (j.pendientes ≡ []))
unfolding is_complete
is_complete_iff none = (λ e. cc, λ (j, e, _, _). cc)
is_complete_iff (some j) = (
  λ h. (
    j,
    refl,
    (none_queued_iff j.confirmadas).0 (ground arith),
    (no_pending_iff j.pendientes).0 (ground arith),
  ),
  λ (k, e, settled, done).
      let e' : j ≡ k = some-injective j k e in
      ground
        (arith, (none_queued_iff k.confirmadas).1 settled, (no_pending_iff k.pendientes).1 done),
)

-- A job is complete exactly when it is in the table, no local allocation of it is queued and no
-- request of it is pending.
pub tabla_jobs_verificar_iff :
    (t : TablaJobs) (id : ℤ)
    → (tabla_jobs_verificar t id ≡ true) ↔ (
        (j : Job) × (tabla_jobs_buscar_por_id t id ≡ some j)
        × All (λ a. is_local_queued a ≡ false) j.confirmadas
        × (j.pendientes ≡ []))
unfolding tabla_jobs_verificar tabla_jobs_buscar_por_id
tabla_jobs_verificar_iff t id = is_complete_iff (find_job id (bucket t id))

grant_first_twice :
    (conn : ℕ) (tipo : Resource) (l : List Allocation)
    → grant_first conn tipo (grant_first conn tipo l) ≡ grant_first conn tipo l
unfolding grant_first is_local_of
grant_first_twice conn tipo [] = refl
grant_first_twice conn tipo (a ∷ sig) = ground (arith, grant_first_twice conn tipo sig)

-- The local allocations of one connection and resource that are still queued.
unfoldable pub queued_of : ℕ → Resource → List Allocation → ℕ
queued_of conn tipo [] = 0
queued_of conn tipo (a ∷ sig) =
    let rest = queued_of conn tipo sig in
    if is_local_of conn tipo a && is_local_queued a then suc rest else rest

queued_of-grant_first :
    (conn : ℕ) (tipo : Resource) (l : List Allocation)
    → queued_of conn tipo l ≤ suc (queued_of conn tipo (grant_first conn tipo l))
unfolding queued_of grant_first
queued_of-grant_first conn tipo [] = omega arith
queued_of-grant_first conn tipo (a ∷ sig) = ground (arith, queued_of-grant_first conn tipo sig)

any_local_queued_of :
    (conn : ℕ) (tipo : Resource) (l : List Allocation)
    → 0 < queued_of conn tipo l
    → any_local_queued l ≡ true
unfolding queued_of any_local_queued
any_local_queued_of conn tipo [] h = absurd (omega arith)
any_local_queued_of conn tipo (a ∷ sig) h = ground (arith, any_local_queued_of conn tipo sig)

pub grant_times : ℕ → ℕ → Resource → List Allocation → List Allocation
grant_times zero conn tipo l = l
grant_times (suc n) conn tipo l = grant_times n conn tipo (grant_first conn tipo l)

grant_times_once :
    (n : ℕ) (conn : ℕ) (tipo : Resource) (l : List Allocation)
    → grant_times n conn tipo (grant_first conn tipo l) ≡ grant_first conn tipo l
unfolding grant_times
grant_times_once zero conn tipo l = refl
grant_times_once (suc n) conn tipo l =
    ap (grant_times n conn tipo) (grant_first_twice conn tipo l) ∙ grant_times_once n conn tipo l

-- A job with two queued local allocations of one connection and resource never becomes complete
-- by grants of that resource, however many of its requests leave the queue: each grant marks the
-- same allocation.
pub grant_times-queued :
    (n : ℕ) (conn : ℕ) (tipo : Resource) (l : List Allocation)
    → 1 < queued_of conn tipo l
    → any_local_queued (grant_times n conn tipo l) ≡ true
unfolding grant_times
grant_times-queued zero conn tipo l h = any_local_queued_of conn tipo l (omega arith)
grant_times-queued (suc n) conn tipo l h =
    ap any_local_queued (grant_times_once n conn tipo l)
    ∙ any_local_queued_of conn tipo (grant_first conn tipo l)
        (omega (arith, queued_of-grant_first conn tipo l))
