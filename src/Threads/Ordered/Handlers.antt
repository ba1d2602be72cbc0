-- ===== src/Threads/Ordered/Handlers.antt =====
-- The discipline of the locks in every call of agente_c/src/resource_manager.c.
use tp_sist_op.Prelude.{ℕ, true, false, List, [], ◌∷◌, Option, refl, arith, ◌&&◌}
use tp_sist_op.Prelude.Int.{ℤ, pos, eqb_ℤ}
use tp_sist_op.ResourceTypes.{Resource}
use tp_sist_op.Queue.{Origin}
use tp_sist_op.Jobs.{
  Allocation, OutRequest, Job, Result, Message, is_local_granted, is_remote, job_confirmar,
  tabla_jobs_verificar, tabla_jobs_extract_by_id, tabla_jobs_buscar_por_id, tabla_jobs_get_conn,
}
use tp_sist_op.Conns.{tabla_conns_get_ip_by_conn}
use tp_sist_op.Manager.{Dest, agente_remoto}
use tp_sist_op.Manager.Events.{Command, Event}
use tp_sist_op.Threads.{Prog, done, holds, lock_eq}
use tp_sist_op.Threads.Guarded.{
  look-IsGuarded, set_tabla-IsGuarded, set_conns-IsGuarded, set_nodos-IsGuarded,
}
use tp_sist_op.Threads.Calls.{
  unlink_by_id, send_message_prog, limpiar_colas_por_id_prog, limpiar_colas_por_conn_prog,
}
use tp_sist_op.Threads.Handlers.{
  on_reserve_prog, on_release_prog, release_ghost_prog, settle, confirm_prog, on_granted_prog,
  on_denied_prog, release_alloc_prog, release_allocs_prog, on_job_release_prog, on_job_status_prog,
  on_job_timeout_prog, on_get_nodes_prog, drop_jobs_prog, unlink_lost,
  process_connection_failed_prog, forget_conn, process_disconnect_prog, learn_conn,
  send_requests_prog, process_connection_ready_prog, execute_prog, in_nodos, event_prog,
}
use tp_sist_op.Threads.Ordered.{
  IsOrdered, if-IsOrdered, elim-IsOrdered, send_message-IsOrdered, limpiar_colas-IsOrdered,
  limpiar_colas_por_id-IsOrdered, reserve_resource-IsOrdered,
}
use tp_sist_op.Threads.Ordered.Releasing.{
  release_resource-IsOrdered, drop_allocs-IsOrdered, tabla_jobs_remove-IsOrdered,
}
use tp_sist_op.Threads.Ordered.Building.{on_job_request-IsOrdered, leave-IsOrdered, inside}

-- What follows the last call of a handler.
cleaned : (id : ℤ) → IsOrdered [] (limpiar_colas_por_id_prog id done)
cleaned id = limpiar_colas_por_id-IsOrdered [] id done tt refl

sent_last : (c : ℕ) (d : Dest) (msg : Message) → IsOrdered [] (send_message_prog c d msg done)
sent_last c d msg = send_message-IsOrdered [] done refl c d msg tt

on_reserve-IsOrdered :
    (c : ℕ) (id : ℤ) (t : Resource) (n : ℤ) → IsOrdered [] (on_reserve_prog c id t n)
unfolding on_reserve_prog
on_reserve-IsOrdered c id t n = reserve_resource-IsOrdered [] t n id c Origin.remote _ tt (elim [
  | Result.granted ↦ sent_last c _ _
  | Result.queued ↦ refl
  | Result.denied ↦ sent_last c _ _
])

on_job_timeout-IsOrdered : (id : ℤ) → IsOrdered [] (on_job_timeout_prog id)
unfolding on_job_timeout_prog
on_job_timeout-IsOrdered id = tabla_jobs_remove-IsOrdered id true _ (cleaned id)

on_release-IsOrdered : (id : ℤ) (t : Resource) (n : ℤ) → IsOrdered [] (on_release_prog id t n)
unfolding on_release_prog
on_release-IsOrdered id t n =
    let rest = tabla_jobs_remove-IsOrdered id true _ (cleaned id) in
    if-IsOrdered [] _ _ (eqb_ℤ n (pos 0)) rest (release_resource-IsOrdered t n true _ rest)

release_ghost-IsOrdered :
    (c : ℕ) (id : ℤ) (k : Prog) → IsOrdered inside k → IsOrdered inside (release_ghost_prog c id k)
unfolding release_ghost_prog
release_ghost-IsOrdered c id k h =
    let send = λ (p : Prog) (hp : IsOrdered inside p) (msg : Message).
      send_message-IsOrdered inside p hp c agente_remoto msg (omega arith) in
    send _ (send _ (send _ h _) _) _

confirm-IsOrdered :
    (j : Job) (ip : List ℕ) (id : ℤ) (k : Prog)
    → IsOrdered inside k
    → IsOrdered inside (confirm_prog j ip id k)
unfolding confirm_prog settle
confirm-IsOrdered j ip id k h = (
  set_tabla-IsGuarded _ inside (unfold holds lock_eq in refl),
  λ s. (
    look-IsGuarded inside,
    λ m.
        if-IsOrdered inside _ _ ((job_confirmar j ip id).1 && tabla_jobs_verificar m.tabla id)
          (send_message-IsOrdered inside k h j.conn _ _ (omega arith)) h,
  ),
)

on_granted-IsOrdered : (c : ℕ) (id : ℤ) → IsOrdered [] (on_granted_prog c id)
unfolding on_granted_prog
on_granted-IsOrdered c id = (
  tt,
  (
    look-IsGuarded _,
    λ m. (
      refl,
      elim-IsOrdered [] _ _ (tabla_conns_get_ip_by_conn m.conns c) refl (λ ip. (
        tt,
        (
          look-IsGuarded inside,
          λ s.
              elim-IsOrdered inside _ _ (tabla_jobs_buscar_por_id s.tabla id)
                (release_ghost-IsOrdered c id _ leave-IsOrdered)
                (λ j. confirm-IsOrdered j ip id _ leave-IsOrdered),
        ),
      )),
    ),
  ),
)

on_denied-IsOrdered : (id : ℤ) → IsOrdered [] (on_denied_prog id)
unfolding on_denied_prog
on_denied-IsOrdered id =
    let leave = limpiar_colas_por_id-IsOrdered inside id _ (omega arith) leave-IsOrdered in
    (
      tt,
      (
        look-IsGuarded inside,
        λ m. elim-IsOrdered inside _ _ (tabla_jobs_get_conn m.tabla id) leave (λ c.
            tabla_jobs_remove-IsOrdered id false _
              (send_message-IsOrdered inside _ leave c _ _ (omega arith))),
      ),
    )

release_allocs-IsOrdered :
    (l : List Allocation) (k : Prog) → IsOrdered [] k → IsOrdered [] (release_allocs_prog l k)
unfolding release_allocs_prog release_alloc_prog
release_allocs-IsOrdered [] k h = h
release_allocs-IsOrdered (a ∷ l) k h =
    let next = release_allocs-IsOrdered l k h in
    let rest =
      if-IsOrdered [] _ _ (is_remote a) (send_message-IsOrdered [] _ next a.conn _ _ tt) next in
    if-IsOrdered [] _ _ (is_local_granted a)
      (release_resource-IsOrdered a.name a.amount true _ rest)
      (limpiar_colas_por_id-IsOrdered [] a.job_id _ tt rest)

on_job_release-IsOrdered : (id : ℤ) → IsOrdered [] (on_job_release_prog id)
unfolding on_job_release_prog unlink_by_id
on_job_release-IsOrdered id = (
  tt,
  (
    set_tabla-IsGuarded _ inside (unfold holds lock_eq in refl),
    λ m. (
      refl,
      elim-IsOrdered [] _ _ (tabla_jobs_extract_by_id m.tabla id).1 refl
          (λ j. release_allocs-IsOrdered j.confirmadas _ (cleaned id)),
    ),
  ),
)

on_job_status-IsOrdered : (c : ℕ) (id : ℤ) → IsOrdered [] (on_job_status_prog c id)
unfolding on_job_status_prog
on_job_status-IsOrdered c id = (
  tt,
  (
    look-IsGuarded inside,
    λ m. (
      refl,
      elim-IsOrdered [] _ _ (tabla_jobs_get_conn m.tabla id) (sent_last c _ _)
          (λ d. sent_last c _ _),
    ),
  ),
)

on_get_nodes-IsOrdered : (c : ℕ) → IsOrdered [] (on_get_nodes_prog c)
unfolding on_get_nodes_prog
on_get_nodes-IsOrdered c = (tt, (look-IsGuarded _, λ m. (refl, sent_last c _ _)))

drop_jobs-IsOrdered :
    (js : List Job) (k : Prog) → IsOrdered [] k → IsOrdered [] (drop_jobs_prog js k)
unfolding drop_jobs_prog
drop_jobs-IsOrdered [] k h = h
drop_jobs-IsOrdered (j ∷ js) k h =
    limpiar_colas_por_id-IsOrdered [] j.job_id _ tt
      (drop_allocs-IsOrdered j.job_id true j.confirmadas _ (drop_jobs-IsOrdered js k h))

failed-IsOrdered :
    (c : ℕ) (k : Prog) → IsOrdered [] k → IsOrdered [] (process_connection_failed_prog c k)
unfolding process_connection_failed_prog unlink_lost
failed-IsOrdered c k h = (
  tt,
  (
    set_tabla-IsGuarded _ inside (unfold holds lock_eq in refl),
    λ m. (refl, drop_jobs-IsOrdered _ k h),
  ),
)

disconnect-IsOrdered : (c : ℕ) → IsOrdered [] (process_disconnect_prog c)
unfolding process_disconnect_prog limpiar_colas_por_conn_prog forget_conn
disconnect-IsOrdered c =
    limpiar_colas-IsOrdered [] _ _ tt
      (failed-IsOrdered c _ (tt, (set_conns-IsGuarded _ [], λ m. (refl, refl))))

send_requests-IsOrdered :
    (c : ℕ) (l : List OutRequest) (k : Prog)
    → IsOrdered inside k
    → IsOrdered inside (send_requests_prog c l k)
unfolding send_requests_prog learn_conn
send_requests-IsOrdered c [] k h = h
send_requests-IsOrdered c (r ∷ l) k h = (
  (omega arith),
  (
    set_conns-IsGuarded _ inside,
    λ m. (
      refl,
      send_message-IsOrdered inside _ (send_requests-IsOrdered c l k h) c _ _ (omega arith),
    ),
  ),
)

ready-IsOrdered : (c : ℕ) → IsOrdered [] (process_connection_ready_prog c)
unfolding process_connection_ready_prog
ready-IsOrdered c =
    (tt, (look-IsGuarded inside, λ m. send_requests-IsOrdered c _ _ leave-IsOrdered))

execute-IsOrdered :
    (c : ℕ) (d : Command) (tries : List (Option ℕ)) → IsOrdered [] (execute_prog c d tries)
unfolding execute_prog
execute-IsOrdered c (Command.reserve id t n) tries = on_reserve-IsOrdered c id t n
execute-IsOrdered c (Command.release id t n) tries = on_release-IsOrdered id t n
execute-IsOrdered c (Command.granted id) tries = on_granted-IsOrdered c id
execute-IsOrdered c (Command.denied id) tries = on_denied-IsOrdered id
execute-IsOrdered c (Command.job_request id reqs) tries = on_job_request-IsOrdered c id reqs tries
execute-IsOrdered c Command.get_nodes tries = on_get_nodes-IsOrdered c
execute-IsOrdered c (Command.job_release id) tries = on_job_release-IsOrdered id
execute-IsOrdered c (Command.job_status id) tries = on_job_status-IsOrdered c id
execute-IsOrdered c (Command.job_timeout id) tries = on_job_timeout-IsOrdered id
execute-IsOrdered c Command.ignored tries = refl

-- The program of every event, started with no lock, keeps the discipline.
pub event_prog-IsOrdered : (e : Event) → IsOrdered [] (event_prog e)
unfolding event_prog in_nodos
event_prog-IsOrdered (Event.message c d tries) = execute-IsOrdered c d tries
event_prog-IsOrdered (Event.announce ip puerto c g n now) =
    (tt, (set_nodos-IsGuarded _ [], λ m. (refl, refl)))
event_prog-IsOrdered (Event.purge timeout now) = (tt, (set_nodos-IsGuarded _ [], λ m. (refl, refl)))
event_prog-IsOrdered (Event.disconnect c) = disconnect-IsOrdered c
event_prog-IsOrdered (Event.connection_ready c) = ready-IsOrdered c
event_prog-IsOrdered (Event.connection_failed c) = failed-IsOrdered c _ refl
