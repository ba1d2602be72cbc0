-- ===== src/Threads/Kept/Building.antt =====
-- The invariant at every access of the branch JOB_REQUEST of agente_c/src/resource_manager.c, among other
-- threads.
use tp_sist_op.Parsing.JobRequest.{ResourceRequest}
use tp_sist_op.Prelude.{
  ℕ, Bool, true, false, List, [], ◌∷◌, Option, none, ◌≡◌, ◌≢◌, ◌∙◌, inl, inr, bytes_eq,
}
use tp_sist_op.Prelude.Int.{ℤ, IsQuantity, neg_part}
use tp_sist_op.Queue.{Origin}
use tp_sist_op.Jobs.{
  Job, Result, Message, crear_allocation, tabla_jobs_buscar_por_id, tabla_jobs_verificar,
}
use tp_sist_op.Jobs.Payable.{Payable, insertar-AllPayable}
use tp_sist_op.Nodes.{tabla_nodos_get_puerto}
use tp_sist_op.Manager.{ResourceManager, reserve_resource}
use tp_sist_op.Manager.Requests.{nuevo_job, add_alloc, add_outrequest, attempt}
use tp_sist_op.Manager.Building.{AllAsked, reserve-IsQuantity}
use tp_sist_op.Manager.Invariant.{IsValid, set_tabla-IsValid}
use tp_sist_op.Manager.Widths.{length-insertar_job}
use tp_sist_op.Threads.{Lock, Prog, done, unlock}
use tp_sist_op.Threads.Building.{
  give_up_prog, get_puerto_prog, finish_prog, insert_job, with_alloc, with_outrequest,
  requests_prog, on_job_request_prog,
}
use tp_sist_op.Threads.Ordered.Building.{inside}
use tp_sist_op.Threads.Kept.{
  Always, if-Keeps, elim-Keeps, send_message-Keeps, limpiar_colas_por_id-Keeps,
  reserve_resource-Keeps, lookup-Keeps,
}
use tp_sist_op.Threads.Kept.Releasing.{drop_allocs-Keeps}

pub leave-Keeps : Always inside (unlock Lock.tabla done)
leave-Keeps s = λ m v a. tt

give_up-Keeps : (conn : ℕ) (id : ℤ) (j : Job) → Payable j → Always inside (give_up_prog conn id j)
unfolding give_up_prog
give_up-Keeps conn id j p = limpiar_colas_por_id-Keeps inside id _ (
    drop_allocs-Keeps id false j.confirmadas _ p
      (λ s m v a. send_message-Keeps [] done (λ n. tt) conn _ _ m))

get_puerto-Keeps :
    (ip : List ℕ) (k : ℤ → Prog)
    → ((p : ℤ) → Always inside (k p))
    → Always inside (get_puerto_prog ip k)
unfolding get_puerto_prog
get_puerto-Keeps ip k h s =
    λ m v a m' v' a'. (v', λ n w b. h (tabla_nodos_get_puerto m'.nodos ip) n)

finish-Keeps : (conn : ℕ) (id : ℤ) (j : Job) → Payable j → Always inside (finish_prog conn id j)
unfolding finish_prog insert_job
finish-Keeps conn id j p s = λ m v a. (
  set_tabla-IsValid m _ v (insertar-AllPayable m.tabla j p v.payable)
      (length-insertar_job m.tabla j ∙ v.jobs_width),
  λ m' v' a'. (
    v',
    if-Keeps inside _ _ (tabla_jobs_verificar m'.tabla id)
        (send_message-Keeps inside _ leave-Keeps conn _ _) leave-Keeps m',
  ),
)

local_or_not :
    (p q : Prog) (b : Bool)
    → Always inside p
    → Always inside q
    → Always inside (elim b [ true ↦ p | false ↦ q ])
local_or_not p q true h k = h
local_or_not p q false h k = k

each_result :
    (p q n : Prog) (r : Result)
    → (r ≢ Result.denied → Always inside p)
    → (r ≢ Result.denied → Always inside q)
    → Always inside n
    → Always inside (elim r [ Result.granted ↦ p | Result.queued ↦ q | Result.denied ↦ n ])
each_result p q n Result.granted h k l = h (λ e. cc)
each_result p q n Result.queued h k l = k (λ e. cc)
each_result p q n Result.denied h k l = l

with_alloc-Payable :
    (conn : ℕ) (id : ℤ) (r : ResourceRequest) (ip : List ℕ) (res : Result) (j : Job)
    → IsQuantity r.amount
    → Payable j
    → Payable (with_alloc conn id r ip res j)
unfolding with_alloc add_alloc crear_allocation
with_alloc-Payable conn id r ip res j q p = ((λ _. q), p)

with_outrequest-Payable :
    (r : ResourceRequest) (c : ℕ) (msg : Option Message) (j : Job)
    → Payable j
    → Payable (with_outrequest r c msg j)
unfolding with_outrequest add_outrequest
with_outrequest-Payable r c msg j p = p

-- What was not denied is a quantity.
asked :
    (conn : ℕ) (id : ℤ) (r : ResourceRequest) (m : ResourceManager)
    → neg_part r.amount ≡ 0
    → IsValid m
    → (reserve_resource r.type r.amount id conn Origin.local m).1 ≢ Result.denied
    → IsQuantity r.amount
asked conn id r m h v kept = elim (reserve-IsQuantity r.type r.amount id conn Origin.local m h v) [
  | inl bad ↦ absurd (kept bad)
  | inr q ↦ q
]

requests-Keeps :
    (conn : ℕ) (id : ℤ) (reqs : List ResourceRequest) (tries : List (Option ℕ)) (j : Job)
    → AllAsked reqs
    → Payable j
    → Always inside (requests_prog conn id reqs tries j)
unfolding requests_prog
requests-Keeps conn id [] tries j h p s = finish-Keeps conn id j p s
requests-Keeps conn id (r ∷ reqs) tries j h p s =
    let rest = λ (tries : List (Option ℕ)) (k : Job) (pk : Payable k).
      requests-Keeps conn id reqs tries k h.1 pk in
    let refused = give_up-Keeps conn id j p in
    let out = λ (c : ℕ) (msg : Option Message).
      rest tries (with_outrequest r c msg j) (with_outrequest-Payable r c msg j p) in
    λ m v a. (
      v,
      local_or_not _ _ (bytes_eq r.ip m.ip)
          (reserve_resource-Keeps inside r.type r.amount id conn Origin.local _ h.0 (λ n w.
            let alloc =
              λ (res : Result)
                  (kept : (reserve_resource r.type r.amount id conn Origin.local n).1
                    ≢ Result.denied).
                rest tries (with_alloc conn id r m.ip res j)
                  (with_alloc-Payable conn id r m.ip res j (asked conn id r n h.0 w kept) p) in
            each_result _ _ _ _ (alloc Result.granted) (alloc Result.queued) refused))
          (lookup-Keeps inside r.ip _ (λ o.
            elim-Keeps inside _ _ o
              (get_puerto-Keeps r.ip _ (λ puerto.
                elim-Keeps inside _ _ (attempt puerto tries).0 refused
                  (λ c e. rest (attempt puerto tries).1 _ (with_outrequest-Payable r c _ j p))))
              (λ c e. send_message-Keeps inside _ (out c none) c _ _)))
          m,
    )

pub on_job_request-Keeps :
    (conn : ℕ) (id : ℤ) (reqs : List ResourceRequest) (tries : List (Option ℕ))
    → AllAsked reqs
    → Always [] (on_job_request_prog conn id reqs tries)
unfolding on_job_request_prog
on_job_request-Keeps conn id reqs tries h s = λ m v a m' v' a'. (
  v',
  elim-Keeps inside _ _ (tabla_jobs_buscar_por_id m'.tabla id)
      (requests-Keeps conn id reqs tries (nuevo_job conn id) h (unfold nuevo_job in tt))
      (λ j e. leave-Keeps) m',
)
