-- ===== src/Threads/Ordered/Building.antt =====
-- The discipline of the locks in the branch JOB_REQUEST of agente_c/src/resource_manager.c.
use tp_sist_op.Parsing.JobRequest.{ResourceRequest}
use tp_sist_op.Prelude.{ℕ, Bool, true, false, List, [], ◌∷◌, Option, refl, arith, bytes_eq}
use tp_sist_op.Prelude.Int.{ℤ}
use tp_sist_op.Queue.{Origin}
use tp_sist_op.Jobs.{Job, Result, tabla_jobs_buscar_por_id, tabla_jobs_verificar}
use tp_sist_op.Nodes.{tabla_nodos_get_puerto}
use tp_sist_op.Manager.Requests.{nuevo_job, attempt}
use tp_sist_op.Threads.{Lock, Prog, done, unlock, holds, lock_eq}
use tp_sist_op.Threads.Guarded.{look-IsGuarded, set_tabla-IsGuarded}
use tp_sist_op.Threads.Building.{
  give_up_prog, get_puerto_prog, finish_prog, insert_job, with_alloc, requests_prog,
  on_job_request_prog,
}
use tp_sist_op.Threads.Ordered.{
  IsOrdered, if-IsOrdered, elim-IsOrdered, send_message-IsOrdered, limpiar_colas_por_id-IsOrdered,
  reserve_resource-IsOrdered, lookup-IsOrdered,
}
use tp_sist_op.Threads.Ordered.Releasing.{drop_allocs-IsOrdered}

-- The branch holds the lock of the table.
abbrev pub inside : List Lock
inside = Lock.tabla ∷ []

pub leave-IsOrdered : IsOrdered inside (unlock Lock.tabla done)
leave-IsOrdered = (refl, refl)

give_up-IsOrdered : (conn : ℕ) (id : ℤ) (j : Job) → IsOrdered inside (give_up_prog conn id j)
unfolding give_up_prog
give_up-IsOrdered conn id j = limpiar_colas_por_id-IsOrdered inside id _ (omega arith) (
    drop_allocs-IsOrdered id false j.confirmadas _
      (refl, send_message-IsOrdered [] done refl conn _ _ tt))

get_puerto-IsOrdered :
    (ip : List ℕ) (k : ℤ → Prog)
    → ((p : ℤ) → IsOrdered inside (k p))
    → IsOrdered inside (get_puerto_prog ip k)
unfolding get_puerto_prog
get_puerto-IsOrdered ip k h =
    ((omega arith), (look-IsGuarded _, λ m. (refl, h (tabla_nodos_get_puerto m.nodos ip))))

finish-IsOrdered : (conn : ℕ) (id : ℤ) (j : Job) → IsOrdered inside (finish_prog conn id j)
unfolding finish_prog insert_job
finish-IsOrdered conn id j = (
  set_tabla-IsGuarded _ inside (unfold holds lock_eq in refl),
  λ s. (
    look-IsGuarded inside,
    λ m.
        if-IsOrdered inside _ _ (tabla_jobs_verificar m.tabla id)
          (send_message-IsOrdered inside _ leave-IsOrdered conn _ _ (omega arith)) leave-IsOrdered,
  ),
)

-- The cases of a Boolean and of a result.
local_or_not :
    (p q : Prog) (b : Bool)
    → IsOrdered inside p
    → IsOrdered inside q
    → IsOrdered inside (elim b [ true ↦ p | false ↦ q ])
local_or_not p q true h k = h
local_or_not p q false h k = k

each_result :
    (p q n : Prog)
    → IsOrdered inside p
    → IsOrdered inside q
    → IsOrdered inside n
    → (r : Result)
    → IsOrdered inside (elim r [ Result.granted ↦ p | Result.queued ↦ q | Result.denied ↦ n ])
each_result p q n h k l Result.granted = h
each_result p q n h k l Result.queued = k
each_result p q n h k l Result.denied = l

requests-IsOrdered :
    (conn : ℕ) (id : ℤ) (reqs : List ResourceRequest) (tries : List (Option ℕ)) (j : Job)
    → IsOrdered inside (requests_prog conn id reqs tries j)
unfolding requests_prog
requests-IsOrdered conn id [] tries j = finish-IsOrdered conn id j
requests-IsOrdered conn id (r ∷ reqs) tries j =
    let rest = requests-IsOrdered conn id reqs in
    let refused = give_up-IsOrdered conn id j in
    (
      look-IsGuarded inside,
      λ m.
          local_or_not _ _ (bytes_eq r.ip m.ip)
            (reserve_resource-IsOrdered inside r.type r.amount id conn Origin.local _ (omega arith)
              (each_result _ _ _ (rest tries (with_alloc conn id r m.ip Result.granted j))
                (rest tries (with_alloc conn id r m.ip Result.queued j)) refused))
            (lookup-IsOrdered inside r.ip _ (omega arith) (λ o.
              elim-IsOrdered inside _ _ o
                (get_puerto-IsOrdered r.ip _ (λ puerto.
                  elim-IsOrdered inside _ _ (attempt puerto tries).0 refused
                    (λ c. rest (attempt puerto tries).1 _)))
                (λ c. send_message-IsOrdered inside _ (rest tries _) c _ _ (omega arith)))),
    )

pub on_job_request-IsOrdered :
    (conn : ℕ) (id : ℤ) (reqs : List ResourceRequest) (tries : List (Option ℕ))
    → IsOrdered [] (on_job_request_prog conn id reqs tries)
unfolding on_job_request_prog
on_job_request-IsOrdered conn id reqs tries = (
  tt,
  (
    look-IsGuarded inside,
    λ m.
        elim-IsOrdered inside _ _ (tabla_jobs_buscar_por_id m.tabla id)
          (requests-IsOrdered conn id reqs tries (nuevo_job conn id)) (λ j. leave-IsOrdered),
  ),
)
