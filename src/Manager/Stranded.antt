-- ===== src/Manager/Stranded.antt =====
-- The queues after a clean-up, reservations of other agents behind an empty RELEASE, and the IP under
-- which a new connection is stored.
use tp_sist_op.Prelude.{
  ℕ, ◌≤◌, true, false, List, [], ◌∷◌, map, All, sym, Option, none, ◌≡◌, refl, ap, ◌∙◌, inl, inr,
  arith, Bool-cases, subst, discard, length, bytes_eq, bytes_eq_iff,
}
use tp_sist_op.Prelude.Int.{ℤ, pos, neg_part, ◌-ℤ◌, ◌≤ℤ◌, ◌<ℤ◌, eqb_ℤ, eqb_ℤ_refl, leb_ℤ}
use tp_sist_op.ResourceTypes.{Resource, cpu, mem, gpu}
use tp_sist_op.Queue.{PendingRequest, Origin, queue_delete_by_job_id}
use tp_sist_op.Queue.Fifo.{queue_delete_by_job_id_correct}
use tp_sist_op.Jobs.{
  OutRequest, Result, Message, crear_outrequest, tabla_jobs_buscar_por_id, tabla_jobs_extract_by_id,
}
use tp_sist_op.Hash.{IsTable}
use tp_sist_op.Conns.{TablaConns, tabla_conns_insert, tabla_conns_lookup}
use tp_sist_op.Conns.Lookup.{lookup-insert}
use tp_sist_op.Parsing.Pairs.{length-take}
use tp_sist_op.Manager.Resources.{IsSound, reserve_correct}
use tp_sist_op.Manager.{
  Recurso, ResourceManager, recurso, set_recurso, send_message, reserve, reserve_resource,
  with_cola, can_serve, fits_top, limpiar_colas_por_id,
}
use tp_sist_op.Jobs.Sweep.{tabla_jobs_get_pendientes_by_conn}
use tp_sist_op.Manager.Widths.{length-conns_insert}
use tp_sist_op.Manager.Events.{send_requests, process_connection_ready}
use tp_sist_op.Manager.Handlers.{on_reserve, on_release, tabla_jobs_remove}

pub recurso-limpiar_colas_por_id :
    (t : Resource) (id : ℤ) (m : ResourceManager)
    → recurso t (limpiar_colas_por_id id m)
      ≡ with_cola (λ c. queue_delete_by_job_id c id) (recurso t m)
unfolding recurso limpiar_colas_por_id with_cola
recurso-limpiar_colas_por_id cpu id m = refl
recurso-limpiar_colas_por_id mem id m = refl
recurso-limpiar_colas_por_id gpu id m = refl

can_serve_top :
    (r : Recurso) (p : PendingRequest) (ps : List PendingRequest)
    → r.cola.nodes ≡ p ∷ ps
    → can_serve r ≡ leb_ℤ p.amount r.available_amount
unfolding can_serve fits_top
can_serve_top r p ps e = ap (λ ns. fits_top ns r.available_amount) e

discard-second :
    (id : ℤ) (a b : PendingRequest) (rest : List PendingRequest)
    → a.job_id ≡ id
    → eqb_ℤ b.job_id id ≡ false
    → discard (λ q. eqb_ℤ q.job_id id) (a ∷ b ∷ rest) ≡ b ∷ discard (λ q. eqb_ℤ q.job_id id) rest
unfolding discard
discard-second id a b rest mine other =
    rw (subst (λ z. eqb_ℤ a.job_id z ≡ true) mine (eqb_ℤ_refl a.job_id)) (rw other refl)

-- In a resource in order: when the job of the first request in the queue, which does not fit, is
-- cleaned away, and the next request, of another job, fits what is available, then the queue could
-- not be served before, can be served afterwards, and nothing is sent.
pub limpiar_colas_por_id_strands :
    (m : ResourceManager) (t : Resource) (id : ℤ) (a b : PendingRequest)
    (rest : List PendingRequest)
    → IsSound (recurso t m)
    → (recurso t m).cola.nodes ≡ a ∷ b ∷ rest
    → a.job_id ≡ id
    → eqb_ℤ b.job_id id ≡ false
    → (recurso t m).available_amount <ℤ a.amount
    → b.amount ≤ℤ (recurso t m).available_amount
    → (can_serve (recurso t m) ≡ false)
      × (can_serve (recurso t (limpiar_colas_por_id id m)) ≡ true)
      × ((limpiar_colas_por_id id m).out ≡ m.out)
limpiar_colas_por_id_strands m t id a b rest s nodes mine other short fits =
    let cleaned = queue_delete_by_job_id_correct (recurso t m).cola id s.counted in
    let left =
      cleaned.0
      ∙ ap (discard (λ q. eqb_ℤ q.job_id id)) nodes
      ∙ discard-second id a b rest mine other in
    (
      can_serve_top (recurso t m) a (b ∷ rest) nodes ∙ ground arith,
      ap can_serve (recurso-limpiar_colas_por_id t id m)
          ∙ unfold with_cola in
            can_serve_top (with_cola (λ c. queue_delete_by_job_id c id) (recurso t m)) b _ left
            ∙ ground arith,
      unfold limpiar_colas_por_id in refl,
    )

remove_unknown :
    (id : ℤ) (t : Resource) (m : ResourceManager)
    → tabla_jobs_buscar_por_id m.tabla id ≡ none
    → recurso t (tabla_jobs_remove id m) ≡ recurso t m
unfolding tabla_jobs_remove tabla_jobs_extract_by_id tabla_jobs_buscar_por_id recurso
remove_unknown id cpu m unknown = rw (unknown, recurso) refl
remove_unknown id mem m unknown = rw (unknown, recurso) refl
remove_unknown id gpu m unknown = rw (unknown, recurso) refl

empty_release_available :
    (id : ℤ) (t u : Resource) (m : ResourceManager)
    → tabla_jobs_buscar_por_id m.tabla id ≡ none
    → (recurso t (on_release id u (pos 0) m)).available_amount ≡ (recurso t m).available_amount
unfolding on_release with_cola
empty_release_available id t u m unknown =
    ap (λ r. r.available_amount)
      (recurso-limpiar_colas_por_id t id (tabla_jobs_remove id m)
        ∙ ap (with_cola (λ c. queue_delete_by_job_id c id)) (remove_unknown id t m unknown))

granted_reserve :
    (conn : ℕ) (id n : ℤ) (t : Resource) (m : ResourceManager)
    → (reserve (recurso t m) n id conn Origin.remote).1 ≡ Result.granted
    → (recurso t (on_reserve conn id t n m) ≡ (reserve (recurso t m) n id conn Origin.remote).0)
      × ((on_reserve conn id t n m).tabla ≡ m.tabla)
unfolding on_reserve reserve_resource recurso set_recurso send_message
granted_reserve conn id n cpu m e = (rw (e, recurso) refl, rw (e, on_reserve) refl)
granted_reserve conn id n mem m e = (rw (e, recurso) refl, rw (e, on_reserve) refl)
granted_reserve conn id n gpu m e = (rw (e, recurso) refl, rw (e, on_reserve) refl)

-- A reservation for another agent, of an amount that is not negative and fits a resource in order,
-- is not given back by a RELEASE of amount 0, which is what a GRANTED for a job that is gone is
-- answered with, when this agent has no job of that id.
pub on_release_leaks :
    (m : ResourceManager) (t u : Resource) (conn : ℕ) (id n : ℤ)
    → IsSound (recurso t m)
    → neg_part n ≡ 0
    → n ≤ℤ (recurso t m).available_amount
    → tabla_jobs_buscar_por_id m.tabla id ≡ none
    → (recurso t (on_release id u (pos 0) (on_reserve conn id t n m))).available_amount
      ≡ (recurso t m).available_amount -ℤ n
on_release_leaks m t u conn id n s h le unknown =
    let (granted, paid, _) = (reserve_correct (recurso t m) n id conn Origin.remote s h).0 le in
    let (after, same) = granted_reserve conn id n t m granted in
    empty_release_available id t u (on_reserve conn id t n m)
      (ap (λ jobs. tabla_jobs_buscar_por_id jobs id) same ∙ unknown)
    ∙ ap (λ r. r.available_amount) after
    ∙ paid

shorter-other : (short ip : List ℕ) → length short ≤ 14 → length ip ≡ 15 → bytes_eq short ip ≡ false
shorter-other short ip le h = elim (Bool-cases (bytes_eq short ip)) [
  | inl same ↦ absurd (omega (arith, le, ap length ((bytes_eq_iff short ip).0 same)))
  | inr other ↦ other
]

-- One request of the loop, of an IP of at most 14 bytes.
one_ready :
    (t : TablaConns) (short ip : List ℕ) (conn : ℕ)
    → IsTable t
    → length short ≤ 14
    → length ip ≡ 15
    → tabla_conns_lookup (tabla_conns_insert t short conn) ip ≡ tabla_conns_lookup t ip
one_ready t short ip conn w le h =
    lookup-insert t short ip conn w (omega (arith, le)) ∙ rw (shorter-other short ip le h) refl

send_requests_loses :
    (conn : ℕ) (list : List OutRequest) (m : ResourceManager) (ip : List ℕ)
    → IsTable m.conns
    → length ip ≡ 15
    → All (λ r. length r.ip ≤ 14) list
    → tabla_conns_lookup (send_requests conn list m).conns ip ≡ tabla_conns_lookup m.conns ip
unfolding send_requests send_message
send_requests_loses conn [] m ip w h short = refl
send_requests_loses conn (r ∷ list) m ip w h short =
    send_requests_loses conn list _ ip (length-conns_insert m.conns r.ip conn ∙ w) h short.1
    ∙ one_ready m.conns r.ip ip conn w short.0 h

-- What `crear_outrequest` makes of the requests to a connection.
abbrev pub made_for : ℕ → List (List ℕ × Resource × ℤ × Option Message) → List OutRequest
made_for conn = map (λ (ip, tipo, amount, msg). crear_outrequest ip conn tipo amount msg)

made_for-short :
    (conn : ℕ) (asked : List (List ℕ × Resource × ℤ × Option Message))
    → All (λ r. length r.ip ≤ 14) (made_for conn asked)
unfolding crear_outrequest
made_for-short conn [] = tt
made_for-short conn ((ip, tipo, amount, msg) ∷ asked) =
    (omega (arith, length-take 14 ip), made_for-short conn asked)

-- When a connection becomes ready, to which the pending requests were made by `crear_outrequest`, in a
-- manager whose table of connections has 71 buckets, then no IP of 15 bytes is found that was not found
-- before, not even that of one of the requests, and one that was found has the connection that it had:
-- `process_connection_ready` stores the connection under the IP of the request, which has lost its last
-- byte.
pub process_connection_ready_loses :
    (m : ResourceManager) (conn : ℕ) (asked : List (List ℕ × Resource × ℤ × Option Message))
    (ip : List ℕ)
    → IsTable m.conns
    → tabla_jobs_get_pendientes_by_conn m.tabla conn ≡ made_for conn asked
    → length ip ≡ 15
    → tabla_conns_lookup (process_connection_ready conn m).conns ip ≡ tabla_conns_lookup m.conns ip
unfolding process_connection_ready
process_connection_ready_loses m conn asked ip w e h =
    send_requests_loses conn (tabla_jobs_get_pendientes_by_conn m.tabla conn) m ip w h
      (subst (All (λ r. length r.ip ≤ 14)) (sym e) (made_for-short conn asked))
