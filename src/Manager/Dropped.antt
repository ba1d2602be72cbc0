-- ===== src/Manager/Dropped.antt =====
-- Dropping the allocations of jobs that go, in terms of the elementary writes of the manager.
use tp_sist_op.Prelude.{
  ◌^◌, ◌<◌, true, List, [], ◌∷◌, ◌≡◌, inl, inr, arith, All, Bool-cases, Option-cases,
}
use tp_sist_op.Prelude.Int.{ℤ, pos_part}
use tp_sist_op.Queue.{PendingRequest}
use tp_sist_op.Jobs.{Allocation, Job, is_remote, is_local_granted}
use tp_sist_op.Jobs.Payable.{IsPayable, Payable}
use tp_sist_op.Conns.{tabla_conns_lookup}
use tp_sist_op.Manager.Closed.{IsClosed, release_resource_closed, limpiar_colas_por_id_closed}
use tp_sist_op.Manager.{ResourceManager}
use tp_sist_op.Manager.Handlers.{release_remote, drop_alloc, drop_allocs}
use tp_sist_op.Manager.Events.{drop_jobs}

-- A local allocation that was granted is payable.
pub payable_of_granted :
    (a : Allocation) → IsPayable a → is_local_granted a ≡ true → pos_part a.amount < 2 ^ 30
unfolding is_local_granted is_remote
payable_of_granted a p e = ground arith

module _ (K : PendingRequest → Type 0) (P : ResourceManager → Type 0) (c : IsClosed K P) where
  release_remote_closed :
      (id : ℤ) (a : Allocation) (m : ResourceManager) → P m → P (release_remote id a m)
  unfolding release_remote
  release_remote_closed id a m v = elim (Option-cases (tabla_conns_lookup m.conns a.ip)) [
    | inl e ↦ rw (e, release_remote) v
    | inr (conn, e) ↦ rw (e, release_remote) (c.sent m v conn _ _)
  ]

  drop_alloc_closed :
      (id : ℤ) (a : Allocation) (m : ResourceManager) → IsPayable a → P m → P (drop_alloc id a m)
  unfolding drop_alloc
  drop_alloc_closed id a m p v = elim (Bool-cases (is_local_granted a)) [
    | inl here ↦
        rw (here, drop_alloc)
          (release_resource_closed K P c a.name a.amount m (payable_of_granted a p here) v)
    | inr other ↦
        rw (other, drop_alloc)
          (elim (Bool-cases (is_remote a)) [
            | inl far ↦ rw far (release_remote_closed id a m v)
            | inr waits ↦ rw waits v
          ])
  ]

  pub drop_allocs_closed :
      (id : ℤ) (l : List Allocation) (m : ResourceManager)
      → All IsPayable l
      → P m
      → P (drop_allocs id l m)
  unfolding drop_allocs
  drop_allocs_closed id [] m p v = v
  drop_allocs_closed id (a ∷ l) m p v =
      drop_allocs_closed id l (drop_alloc id a m) p.1 (drop_alloc_closed id a m p.0 v)

  pub drop_jobs_closed :
      (js : List Job) (m : ResourceManager) → All Payable js → P m → P (drop_jobs js m)
  unfolding drop_jobs
  drop_jobs_closed [] m p v = v
  drop_jobs_closed (j ∷ js) m p v = drop_jobs_closed js _ p.1 (
      drop_allocs_closed j.job_id j.confirmadas _ p.0
        (limpiar_colas_por_id_closed K P c j.job_id m v))
