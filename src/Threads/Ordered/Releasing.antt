-- ===== src/Threads/Ordered/Releasing.antt =====
-- The discipline of the locks in `release_resource` of agente_c/src/resource_manager.c, and in what gives the
-- allocations of a job back with it.
use tp_sist_op.Prelude.{ℕ, zero, suc, Bool, true, false, List, [], ◌∷◌, refl, arith, if◌then◌else◌}
use tp_sist_op.Prelude.Int.{ℤ}
use tp_sist_op.ResourceTypes.{Resource}
use tp_sist_op.Queue.{PendingRequest, Origin}
use tp_sist_op.Jobs.{Allocation, Message, is_local_granted, is_remote, tabla_jobs_verificar}
use tp_sist_op.Manager.{erlang_local, agente_remoto, recurso, can_serve, take_off, accepts}
use tp_sist_op.Threads.{Lock, Prog, unlock, holds, lock_eq}
use tp_sist_op.Threads.Guarded.{look-IsGuarded, set_recurso-IsGuarded, set_tabla-IsGuarded}
use tp_sist_op.Threads.Calls.{
  look, unlock_tabla_if, send_message_prog, notify_prog, serve_top_prog, serve_prog,
  release_resource_prog, release_remote_prog, drop_alloc_prog, drop_allocs_prog, unlink_by_id,
  tabla_jobs_remove_prog,
}
use tp_sist_op.Threads.Ordered.{
  AllBelow, IsOrdered, outside, lock_tabla_if-IsOrdered, unlock_tabla_if-IsOrdered, if-IsOrdered,
  elim-IsOrdered, send_message-IsOrdered, lookup-IsOrdered,
}

-- The loop of `release_resource`, under both its locks.
module _ (t : Resource) (k : Prog) (next : IsOrdered (Lock.recurso t ∷ Lock.tabla ∷ []) k) where
  abbrev both : List Lock
  both = Lock.recurso t ∷ Lock.tabla ∷ []

  both_below : AllBelow 2 both
  both_below = omega arith

  notify-IsOrdered : (p : PendingRequest) → IsOrdered both (notify_prog t p k)
  unfolding notify_prog
  notify-IsOrdered p = (set_tabla-IsGuarded _ both (unfold holds lock_eq in refl), λ m. go p.origen)
    where
      go :
          (o : Origin)
          → IsOrdered both (elim o [
            | Origin.remote ↦
                send_message_prog p.owner_conn agente_remoto (Message.grant p.job_id) k
            | Origin.local ↦ look (λ m.
                if tabla_jobs_verificar m.tabla p.job_id
                then send_message_prog p.owner_conn erlang_local (Message.job_granted p.job_id) k
                else k)
          ])
      go Origin.remote = send_message-IsOrdered both k next _ _ _ both_below
      go Origin.local = (
        look-IsGuarded both,
        λ m.
            if-IsOrdered both _ _ (tabla_jobs_verificar m.tabla p.job_id)
              (send_message-IsOrdered both k next _ _ _ both_below) next,
      )

  serve_top-IsOrdered : IsOrdered both (serve_top_prog t k)
  unfolding serve_top_prog
  serve_top-IsOrdered = (
    set_recurso-IsGuarded t _ (Lock.tabla ∷ []),
    λ m. elim-IsOrdered both _ _ (take_off (recurso t m)).1 next notify-IsOrdered,
  )

serve-IsOrdered :
    (fuel : ℕ) (t : Resource) (k : Prog)
    → IsOrdered (Lock.recurso t ∷ Lock.tabla ∷ []) k
    → IsOrdered (Lock.recurso t ∷ Lock.tabla ∷ []) (serve_prog fuel t k)
unfolding serve_prog
serve-IsOrdered zero t k h = h
serve-IsOrdered (suc fuel) t k h = (
  look-IsGuarded _,
  λ m.
      if-IsOrdered _ _ _ (can_serve (recurso t m))
        (serve_top-IsOrdered t _ (serve-IsOrdered fuel t k h)) h,
)

pub release_resource-IsOrdered :
    (t : Resource) (n : ℤ) (b : Bool) (k : Prog)
    → IsOrdered (outside b) k
    → IsOrdered (outside b) (release_resource_prog t n b k)
unfolding release_resource_prog
release_resource-IsOrdered t n b k h = lock_tabla_if-IsOrdered b _ (
  (omega arith),
  (
    look-IsGuarded both,
    λ m.
        if-IsOrdered both _ _ (accepts (recurso t m) n)
          (set_recurso-IsGuarded t _ (Lock.tabla ∷ []), λ s. serve-IsOrdered _ t _ leave) leave,
  ),
)
  where
    both : List Lock
    both = Lock.recurso t ∷ Lock.tabla ∷ []

    leave :
        IsOrdered (Lock.recurso t ∷ Lock.tabla ∷ []) (unlock (Lock.recurso t) (unlock_tabla_if b k))
    leave = (refl, unlock_tabla_if-IsOrdered b k h)

pub outside_below : (b : Bool) → AllBelow 2 (outside b)
outside_below true = tt
outside_below false = omega arith

drop_alloc-IsOrdered :
    (id : ℤ) (b : Bool) (a : Allocation) (k : Prog)
    → IsOrdered (outside b) k
    → IsOrdered (outside b) (drop_alloc_prog id b a k)
unfolding drop_alloc_prog
drop_alloc-IsOrdered id b a k h =
    if-IsOrdered (outside b) _ _ (is_local_granted a)
      (release_resource-IsOrdered a.name a.amount b k h)
      (if-IsOrdered (outside b) _ _ (is_remote a) told h)
  where
    told : IsOrdered (outside b) (release_remote_prog id a k)
    told =
        unfold release_remote_prog in
        lookup-IsOrdered (outside b) a.ip _ (outside_below b) (λ o.
          elim-IsOrdered (outside b) _ _ o h
            (λ c. send_message-IsOrdered (outside b) k h c _ _ (outside_below b)))

pub drop_allocs-IsOrdered :
    (id : ℤ) (b : Bool) (l : List Allocation) (k : Prog)
    → IsOrdered (outside b) k
    → IsOrdered (outside b) (drop_allocs_prog id b l k)
unfolding drop_allocs_prog
drop_allocs-IsOrdered id b [] k h = h
drop_allocs-IsOrdered id b (a ∷ l) k h =
    drop_alloc-IsOrdered id b a _ (drop_allocs-IsOrdered id b l k h)

pub tabla_jobs_remove-IsOrdered :
    (id : ℤ) (b : Bool) (k : Prog)
    → IsOrdered (outside b) k
    → IsOrdered (outside b) (tabla_jobs_remove_prog id b k)
unfolding tabla_jobs_remove_prog unlink_by_id
tabla_jobs_remove-IsOrdered id b k h = lock_tabla_if-IsOrdered b _ (
  set_tabla-IsGuarded _ (Lock.tabla ∷ []) (unfold holds lock_eq in refl),
  λ m. unlock_tabla_if-IsOrdered b _ (drop_allocs-IsOrdered id b _ k h),
)
