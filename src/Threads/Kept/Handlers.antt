-- ===== src/Threads/Kept/Handlers.antt =====
-- The invariant at every access of every call of agente_c/src/resource_manager.c, among other threads.
use tp_sist_op.Prelude.{
  ℕ, ◌^◌, ◌<◌, true, false, List, [], ◌∷◌, Option, ◌≡◌, ◌∙◌, ◌&&◌, inl, inr, All, Bool-cases,
}
use tp_sist_op.Prelude.Int.{ℤ, pos, pos_part, neg_part, eqb_ℤ}
use tp_sist_op.ResourceTypes.{Resource}
use tp_sist_op.Queue.{Origin}
use tp_sist_op.Jobs.{
  Allocation, OutRequest, Job, Result, Message, is_local_granted, is_remote, job_confirmar,
  tabla_jobs_verificar, tabla_jobs_extract_by_id, tabla_jobs_buscar_por_id, tabla_jobs_get_conn,
}
use tp_sist_op.Jobs.Payable.{
  IsPayable, Payable, update_job-AllPayable, job_confirmar-Payable,
  extract_by_remote_conn-AllPayable,
}
use tp_sist_op.Conns.{tabla_conns_get_ip_by_conn}
use tp_sist_op.Manager.{Dest, agente_remoto, reserve_resource}
use tp_sist_op.Manager.Events.{Command, Event}
use tp_sist_op.Manager.Closed.{delete_by_conn-IsSound}
use tp_sist_op.Manager.Dropped.{payable_of_granted}
use tp_sist_op.Manager.Invariant.{set_tabla-IsValid}
use tp_sist_op.Manager.Preserves.{extract-IsValid, when_found}
use tp_sist_op.Manager.Reachable.{IsLegalCommand, IsLegal, set_conns-IsValid, set_nodos-IsValid}
use tp_sist_op.Manager.Widths.{
  length-update_job, length-extract_by_remote_conn, length-conns_insert, length-delete_by_conn,
  length-purge, length-insert_or_update,
}
use tp_sist_op.Threads.{Prog, done}
use tp_sist_op.Threads.Calls.{
  unlink_by_id, send_message_prog, limpiar_colas_por_id_prog, limpiar_colas_por_conn_prog,
}
use tp_sist_op.Threads.Handlers.{
  on_reserve_prog, on_release_prog, release_ghost_prog, settle, confirm_prog, on_granted_prog,
  on_denied_prog, release_alloc_prog, release_allocs_prog, on_job_release_prog, on_job_status_prog,
  on_job_timeout_prog, on_get_nodes_prog, drop_jobs_prog, unlink_lost,
  process_connection_failed_prog, forget_conn, process_disconnect_prog, learn_conn,
  send_requests_prog, process_connection_ready_prog, execute_prog, in_nodos, event_prog,
}
use tp_sist_op.Threads.Ordered.Building.{inside}
use tp_sist_op.Threads.Kept.{
  Always, if-Keeps, elim-Keeps, send_message-Keeps, limpiar_colas-Keeps, limpiar_colas_por_id-Keeps,
  reserve_resource-Keeps,
}
use tp_sist_op.Threads.Kept.Releasing.{
  release_resource-Keeps, drop_allocs-Keeps, tabla_jobs_remove-Keeps,
}
use tp_sist_op.Threads.Kept.Building.{on_job_request-Keeps, leave-Keeps}

-- What follows the last call of a handler.
ended : Always [] done
ended s = tt

cleaned : (id : ℤ) → Always [] (limpiar_colas_por_id_prog id done)
cleaned id = limpiar_colas_por_id-Keeps [] id done ended

sent_last : (c : ℕ) (d : Dest) (msg : Message) → Always [] (send_message_prog c d msg done)
sent_last c d msg = send_message-Keeps [] done ended c d msg

on_reserve-Keeps :
    (c : ℕ) (id : ℤ) (t : Resource) (n : ℤ) → neg_part n ≡ 0 → Always [] (on_reserve_prog c id t n)
unfolding on_reserve_prog
on_reserve-Keeps c id t n h =
    reserve_resource-Keeps [] t n id c Origin.remote _ h
      (λ m v. answer (reserve_resource t n id c Origin.remote m).1)
  where
    answer :
        (r : Result)
        → Always [] (elim r [
          | Result.granted ↦ send_message_prog c agente_remoto (Message.grant id) done
          | Result.queued ↦ done
          | Result.denied ↦ send_message_prog c agente_remoto (Message.deny id) done
        ])
    answer Result.granted = sent_last c _ _
    answer Result.queued = ended
    answer Result.denied = sent_last c _ _

on_job_timeout-Keeps : (id : ℤ) → Always [] (on_job_timeout_prog id)
unfolding on_job_timeout_prog
on_job_timeout-Keeps id = tabla_jobs_remove-Keeps id true _ (cleaned id)

on_release-Keeps :
    (id : ℤ) (t : Resource) (n : ℤ) → pos_part n < 2 ^ 30 → Always [] (on_release_prog id t n)
unfolding on_release_prog
on_release-Keeps id t n small =
    let rest = tabla_jobs_remove-Keeps id true _ (cleaned id) in
    if-Keeps [] _ _ (eqb_ℤ n (pos 0)) rest (release_resource-Keeps t n true _ small rest)

release_ghost-Keeps :
    (c : ℕ) (id : ℤ) (k : Prog) → Always inside k → Always inside (release_ghost_prog c id k)
unfolding release_ghost_prog
release_ghost-Keeps c id k h =
    let send = λ (p : Prog) (hp : Always inside p) (msg : Message).
      send_message-Keeps inside p hp c agente_remoto msg in
    send _ (send _ (send _ h _) _) _

confirm-Keeps :
    (j : Job) (ip : List ℕ) (id : ℤ) (k : Prog)
    → Always inside k
    → Always inside (confirm_prog j ip id k)
unfolding confirm_prog settle
confirm-Keeps j ip id k h s = λ m v a. (
  set_tabla-IsValid m _ v
      (update_job-AllPayable m.tabla id _ (λ x p. job_confirmar-Payable x ip id p) v.payable)
      (length-update_job m.tabla id _ ∙ v.jobs_width),
  λ m' v' a'. (
    v',
    if-Keeps inside _ _ ((job_confirmar j ip id).1 && tabla_jobs_verificar m'.tabla id)
        (send_message-Keeps inside k h j.conn _ _) h m',
  ),
)

on_granted-Keeps : (c : ℕ) (id : ℤ) → Always [] (on_granted_prog c id)
unfolding on_granted_prog
on_granted-Keeps c id s = λ m0 v0 a0 m v a. (
  v,
  λ n w b.
      elim-Keeps [] _ _ (tabla_conns_get_ip_by_conn m.conns c) ended
        (λ ip e x. λ m1 v1 a1 m2 v2 a2. (
          v2,
          elim-Keeps inside _ _ (tabla_jobs_buscar_por_id m2.tabla id)
              (release_ghost-Keeps c id _ leave-Keeps)
              (λ j found. confirm-Keeps j ip id _ leave-Keeps) m2,
        ))
        n,
)

on_denied-Keeps : (id : ℤ) → Always [] (on_denied_prog id)
unfolding on_denied_prog
on_denied-Keeps id s =
    let leave = limpiar_colas_por_id-Keeps inside id _ leave-Keeps in
    λ m0 v0 a0 m v a. (
      v,
      elim-Keeps inside _ _ (tabla_jobs_get_conn m.tabla id) leave
          (λ c e. tabla_jobs_remove-Keeps id false _ (send_message-Keeps inside _ leave c _ _)) m,
    )

release_allocs-Keeps :
    (l : List Allocation) (k : Prog)
    → All IsPayable l
    → Always [] k
    → Always [] (release_allocs_prog l k)
unfolding release_allocs_prog release_alloc_prog
release_allocs-Keeps [] k p h = h
release_allocs-Keeps (a ∷ l) k p h =
    let next = release_allocs-Keeps l k p.1 h in
    let rest = if-Keeps [] _ _ (is_remote a) (send_message-Keeps [] _ next a.conn _ _) next in
    elim (Bool-cases (is_local_granted a)) [
      | inl here ↦
          rw here
            (release_resource-Keeps a.name a.amount true _ (payable_of_granted a p.0 here) rest)
      | inr other ↦ rw other (limpiar_colas_por_id-Keeps [] a.job_id _ rest)
    ]

on_job_release-Keeps : (id : ℤ) → Always [] (on_job_release_prog id)
unfolding on_job_release_prog unlink_by_id
on_job_release-Keeps id s = λ m0 v0 a0 m v a.
    let (v', found) = extract-IsValid id m v in
    (
      v',
      λ n w b.
          elim-Keeps [] _ _ (tabla_jobs_extract_by_id m.tabla id).1 ended
            (λ j e. release_allocs-Keeps j.confirmadas _ (when_found _ j e found) (cleaned id)) n,
    )

on_job_status-Keeps : (c : ℕ) (id : ℤ) → Always [] (on_job_status_prog c id)
unfolding on_job_status_prog
on_job_status-Keeps c id s = λ m0 v0 a0 m v a. (
  v,
  λ n w b.
      elim-Keeps [] _ _ (tabla_jobs_get_conn m.tabla id) (sent_last c _ _) (λ d e. sent_last c _ _)
        n,
)

on_get_nodes-Keeps : (c : ℕ) → Always [] (on_get_nodes_prog c)
unfolding on_get_nodes_prog
on_get_nodes-Keeps c s = λ m0 v0 a0 m v a. (v, λ n w b. sent_last c _ _ n)

drop_jobs-Keeps :
    (js : List Job) (k : Prog) → All Payable js → Always [] k → Always [] (drop_jobs_prog js k)
unfolding drop_jobs_prog
drop_jobs-Keeps [] k p h = h
drop_jobs-Keeps (j ∷ js) k p h =
    limpiar_colas_por_id-Keeps [] j.job_id _
      (drop_allocs-Keeps j.job_id true j.confirmadas _ p.0 (drop_jobs-Keeps js k p.1 h))

failed-Keeps : (c : ℕ) (k : Prog) → Always [] k → Always [] (process_connection_failed_prog c k)
unfolding process_connection_failed_prog unlink_lost
failed-Keeps c k h s = λ m0 v0 a0 m v a.
    let (kept, gone) = extract_by_remote_conn-AllPayable m.tabla c v.payable in
    (
      set_tabla-IsValid m _ v kept (length-extract_by_remote_conn m.tabla c ∙ v.jobs_width),
      λ n w b. drop_jobs-Keeps _ k gone h n,
    )

disconnect-Keeps : (c : ℕ) → Always [] (process_disconnect_prog c)
unfolding process_disconnect_prog limpiar_colas_por_conn_prog forget_conn
disconnect-Keeps c = limpiar_colas-Keeps [] _ _ (delete_by_conn-IsSound c) (
    failed-Keeps c _ (λ s m0 v0 a0 m v a.
      (set_conns-IsValid m _ v (length-delete_by_conn m.conns c ∙ v.conns_width), λ n w b. tt)))

send_requests-Keeps :
    (c : ℕ) (l : List OutRequest) (k : Prog)
    → Always inside k
    → Always inside (send_requests_prog c l k)
unfolding send_requests_prog learn_conn
send_requests-Keeps c [] k h s = h s
send_requests-Keeps c (r ∷ l) k h s = λ m0 v0 a0 m v a. (
  set_conns-IsValid m _ v (length-conns_insert m.conns r.ip c ∙ v.conns_width),
  λ n w b. send_message-Keeps inside _ (send_requests-Keeps c l k h) c _ _ n,
)

ready-Keeps : (c : ℕ) → Always [] (process_connection_ready_prog c)
unfolding process_connection_ready_prog
ready-Keeps c s = λ m0 v0 a0 m v a. (v, send_requests-Keeps c _ _ leave-Keeps m)

execute-Keeps :
    (c : ℕ) (d : Command) (tries : List (Option ℕ))
    → IsLegalCommand d
    → Always [] (execute_prog c d tries)
unfolding execute_prog
execute-Keeps c (Command.reserve id t n) tries h = on_reserve-Keeps c id t n h
execute-Keeps c (Command.release id t n) tries h = on_release-Keeps id t n h
execute-Keeps c (Command.granted id) tries h = on_granted-Keeps c id
execute-Keeps c (Command.denied id) tries h = on_denied-Keeps id
execute-Keeps c (Command.job_request id reqs) tries h = on_job_request-Keeps c id reqs tries h
execute-Keeps c Command.get_nodes tries h = on_get_nodes-Keeps c
execute-Keeps c (Command.job_release id) tries h = on_job_release-Keeps id
execute-Keeps c (Command.job_status id) tries h = on_job_status-Keeps c id
execute-Keeps c (Command.job_timeout id) tries h = on_job_timeout-Keeps id
execute-Keeps c Command.ignored tries h = ended

-- Every access of a legal event leaves the manager in order.
pub event_prog-Keeps : (e : Event) → IsLegal e → Always [] (event_prog e)
unfolding event_prog in_nodos
event_prog-Keeps (Event.message c d tries) h = execute-Keeps c d tries h
event_prog-Keeps (Event.announce ip puerto c g n now) h = λ s m0 v0 a0 m v a. (
  set_nodos-IsValid m _ v (length-insert_or_update m.nodos ip puerto c g n now ∙ v.nodos_width),
  λ x w b. tt,
)
event_prog-Keeps (Event.purge timeout now) h = λ s m0 v0 a0 m v a.
    (set_nodos-IsValid m _ v (length-purge m.nodos timeout now ∙ v.nodos_width), λ x w b. tt)
event_prog-Keeps (Event.disconnect c) h = disconnect-Keeps c
event_prog-Keeps (Event.connection_ready c) h = ready-Keeps c
event_prog-Keeps (Event.connection_failed c) h = failed-Keeps c _ ended
