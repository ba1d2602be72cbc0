-- ===== src/Threads/Kept/Releasing.antt =====
-- The invariant at every access of `release_resource` of agente_c/src/resource_manager.c, and of what gives
-- the allocations of a job back with it.
use tp_sist_op.Prelude.{
  ℕ, zero, suc, ◌^◌, ◌<◌, Bool, true, List, [], ◌∷◌, Option, none, some, ◌≡◌, ◌∙◌, ap, inl, inr,
  All, if◌then◌else◌, length, Bool-cases,
}
use tp_sist_op.Prelude.Int.{ℤ, pos_part}
use tp_sist_op.ResourceTypes.{Resource}
use tp_sist_op.Queue.{PendingRequest, Origin}
use tp_sist_op.Jobs.{Allocation, Job, Message, is_local_granted, is_remote, tabla_jobs_verificar}
use tp_sist_op.Jobs.Payable.{IsPayable, Payable}
use tp_sist_op.Jobs.Every.{WhenFound}
use tp_sist_op.Manager.{
  ResourceManager, erlang_local, agente_remoto, recurso, set_recurso, can_serve, take_off, accepts,
  give_back,
}
use tp_sist_op.Manager.Resources.{give_back-IsSound}
use tp_sist_op.Manager.Draining.{take_off-IsSound'}
use tp_sist_op.Manager.Dropped.{payable_of_granted}
use tp_sist_op.Manager.Invariant.{IsValid-closed, set_recurso-IsValid}
use tp_sist_op.Manager.Preserves.{extract-IsValid}
use tp_sist_op.Threads.{Lock, Prog, lock, unlock, access}
use tp_sist_op.Threads.Ordered.{outside}
use tp_sist_op.Threads.Calls.{
  look, unlock_tabla_if, send_message_prog, notify_prog, serve_top_prog, serve_prog,
  release_resource_prog, release_remote_prog, drop_alloc_prog, drop_allocs_prog, allocations_of,
  unlink_by_id, tabla_jobs_remove_prog,
}
use tp_sist_op.Threads.Kept.{
  Keeps, Always, holds_first, if-Keeps, elim-Keeps, lock_tabla_if-Keeps, unlock_tabla_if-Keeps,
  send_message-Keeps, lookup-Keeps,
}

-- The loop of `release_resource`: between the test and the write nobody changes the resource.
module _ (t : Resource) (k : Prog) (next : Always (Lock.recurso t ∷ Lock.tabla ∷ []) k) where
  abbrev both : List Lock
  both = Lock.recurso t ∷ Lock.tabla ∷ []

  notify-Keeps : (p : PendingRequest) → Always both (notify_prog t p k)
  unfolding notify_prog
  notify-Keeps p s = λ m v a. (IsValid-closed.granted m v p.job_id p.owner_conn t, go p.origen _)
    where
      go :
          (o : Origin)
          → Always both (elim o [
            | Origin.remote ↦
                send_message_prog p.owner_conn agente_remoto (Message.grant p.job_id) k
            | Origin.local ↦ look (λ m.
                if tabla_jobs_verificar m.tabla p.job_id
                then send_message_prog p.owner_conn erlang_local (Message.job_granted p.job_id) k
                else k)
          ])
      go Origin.remote s = send_message-Keeps both k next _ _ _ s
      go Origin.local s = λ m v a. (
        v,
        if-Keeps both _ _ (tabla_jobs_verificar m.tabla p.job_id)
            (send_message-Keeps both k next _ _ _) next m,
      )

  serve_top-Keeps :
      (s : ResourceManager) → can_serve (recurso t s) ≡ true → Keeps both s (serve_top_prog t k)
  unfolding serve_top_prog
  serve_top-Keeps s e = λ m v a. (
    set_recurso-IsValid m v t _ (
        take_off-IsSound' (recurso t m) (v.sound t)
          (ap can_serve (a t (holds_first t (Lock.tabla ∷ []))) ∙ e)),
    elim-Keeps both _ _ (take_off (recurso t m)).1 next (λ p top. notify-Keeps p) _,
  )

serve-Keeps :
    (fuel : ℕ) (t : Resource) (k : Prog)
    → Always (Lock.recurso t ∷ Lock.tabla ∷ []) k
    → Always (Lock.recurso t ∷ Lock.tabla ∷ []) (serve_prog fuel t k)
unfolding serve_prog
serve-Keeps zero t k h s = h s
serve-Keeps (suc fuel) t k h s = λ m v a. (
  v,
  elim (Bool-cases (can_serve (recurso t m))) [
    | inl fits ↦ rw (fits, Keeps) (serve_top-Keeps t _ (serve-Keeps fuel t k h) m fits)
    | inr stays ↦ rw (stays, Keeps) (h m)
  ],
)

pub release_resource-Keeps :
    (t : Resource) (n : ℤ) (b : Bool) (k : Prog)
    → pos_part n < 2 ^ 30
    → Always (outside b) k
    → Always (outside b) (release_resource_prog t n b k)
unfolding release_resource_prog
release_resource-Keeps t n b k small h = lock_tabla_if-Keeps b _ body
  where
    both : List Lock
    both = Lock.recurso t ∷ Lock.tabla ∷ []

    leave :
        Always (Lock.recurso t ∷ Lock.tabla ∷ []) (unlock (Lock.recurso t) (unlock_tabla_if b k))
    leave s = λ m v a. unlock_tabla_if-Keeps b k h m

    served :
        (m : ResourceManager)
        → accepts (recurso t m) n ≡ true
        → Keeps (Lock.recurso t ∷ Lock.tabla ∷ []) m (
            access
              (λ s. set_recurso t (give_back (recurso t s) n) s)
              (λ s.
                serve_prog
                  (length (recurso t s).cola.nodes)
                  t
                  (unlock (Lock.recurso t) (unlock_tabla_if b k))))
    served m good = λ m' v' a'. (
      set_recurso-IsValid m' v' t _
          (give_back-IsSound (recurso t m') n (v'.sound t) small
            (ap (λ r. accepts r n) (a' t (holds_first t (Lock.tabla ∷ []))) ∙ good)).0,
      serve-Keeps _ t _ leave _,
    )

    body : Always (Lock.tabla ∷ []) (
        lock (Lock.recurso t) (
          look (λ m.
            if accepts (recurso t m) n
            then access
                (λ s. set_recurso t (give_back (recurso t s) n) s)
                (λ s.
                  serve_prog
                    (length (recurso t s).cola.nodes)
                    t
                    (unlock (Lock.recurso t) (unlock_tabla_if b k)))
            else unlock (Lock.recurso t) (unlock_tabla_if b k))))
    body s = λ m0 v0 a0 m v a. (
      v,
      elim (Bool-cases (accepts (recurso t m) n)) [
        | inl good ↦ rw (good, Keeps) (served m good)
        | inr bad ↦ rw (bad, Keeps) (leave m)
      ],
    )

drop_alloc-Keeps :
    (id : ℤ) (b : Bool) (a : Allocation) (k : Prog)
    → IsPayable a
    → Always (outside b) k
    → Always (outside b) (drop_alloc_prog id b a k)
unfolding drop_alloc_prog
drop_alloc-Keeps id b a k p h = elim (Bool-cases (is_local_granted a)) [
  | inl here ↦ rw here (release_resource-Keeps a.name a.amount b k (payable_of_granted a p here) h)
  | inr other ↦ rw other (if-Keeps (outside b) _ _ (is_remote a) told h)
]
  where
    told : Always (outside b) (release_remote_prog id a k)
    told =
        unfold release_remote_prog in
        lookup-Keeps (outside b) a.ip _
          (λ o. elim-Keeps (outside b) _ _ o h (λ c e. send_message-Keeps (outside b) k h c _ _))

pub drop_allocs-Keeps :
    (id : ℤ) (b : Bool) (l : List Allocation) (k : Prog)
    → All IsPayable l
    → Always (outside b) k
    → Always (outside b) (drop_allocs_prog id b l k)
unfolding drop_allocs_prog
drop_allocs-Keeps id b [] k p h = h
drop_allocs-Keeps id b (a ∷ l) k p h =
    drop_alloc-Keeps id b a _ p.0 (drop_allocs-Keeps id b l k p.1 h)

allocations_of-Payable : (o : Option Job) → WhenFound Payable o → All IsPayable (allocations_of o)
unfolding allocations_of
allocations_of-Payable none h = tt
allocations_of-Payable (some j) h = h

pub tabla_jobs_remove-Keeps :
    (id : ℤ) (b : Bool) (k : Prog)
    → Always (outside b) k
    → Always (outside b) (tabla_jobs_remove_prog id b k)
unfolding tabla_jobs_remove_prog unlink_by_id
tabla_jobs_remove-Keeps id b k h = lock_tabla_if-Keeps b _ (λ s m v a.
    let (v', found) = extract-IsValid id m v in
    (
      v',
      unlock_tabla_if-Keeps b _ (drop_allocs-Keeps id b _ k (allocations_of-Payable _ found) h) _,
    ))
