-- ===== src/Threads/Handlers.antt =====
-- The branches of `process_message` in agente_c/src/resource_manager.c as programs, on a message that is
-- parsed, and the other calls of the server.
use tp_sist_op.Prelude.{ℕ, true, false, List, [], ◌∷◌, Option, none, some, ◌&&◌, if◌then◌else◌}
use tp_sist_op.Prelude.Int.{ℤ, pos, eqb_ℤ}
use tp_sist_op.ResourceTypes.{Resource, cpu, mem, gpu}
use tp_sist_op.Queue.{Origin}
use tp_sist_op.Jobs.{
  Allocation, OutRequest, Job, Result, Message, is_local_granted, is_remote, job_confirmar,
  update_job, tabla_jobs_buscar_por_id, tabla_jobs_get_conn, tabla_jobs_verificar,
  tabla_jobs_extract_by_id,
}
use tp_sist_op.Jobs.Sweep.{tabla_jobs_extract_by_remote_conn, tabla_jobs_get_pendientes_by_conn}
use tp_sist_op.Conns.{tabla_conns_get_ip_by_conn, tabla_conns_insert, tabla_conns_delete_by_conn}
use tp_sist_op.Nodes.{tabla_nodos_insert_or_update, tabla_nodos_purge}
use tp_sist_op.Manager.{ResourceManager, erlang_local, agente_remoto}
use tp_sist_op.Manager.NodeList.{node_list}
use tp_sist_op.Manager.Events.{Command, Event}
use tp_sist_op.Threads.{Lock, Prog, done, lock, unlock, access}
use tp_sist_op.Threads.Calls.{
  look, send_message_prog, reserve_resource_prog, release_resource_prog, limpiar_colas_por_id_prog,
  limpiar_colas_por_conn_prog, drop_allocs_prog, unlink_by_id, tabla_jobs_remove_prog,
}
use tp_sist_op.Threads.Building.{on_job_request_prog}

unfoldable pub on_reserve_prog : ℕ → ℤ → Resource → ℤ → Prog
on_reserve_prog conn job_id tipo amount =
    reserve_resource_prog tipo amount job_id conn Origin.remote (elim [
      | Result.granted ↦ send_message_prog conn agente_remoto (Message.grant job_id) done
      | Result.queued ↦ done
      | Result.denied ↦ send_message_prog conn agente_remoto (Message.deny job_id) done
    ])

unfoldable pub on_release_prog : ℤ → Resource → ℤ → Prog
on_release_prog job_id tipo amount =
    let rest = tabla_jobs_remove_prog job_id true (limpiar_colas_por_id_prog job_id done) in
    if eqb_ℤ amount (pos 0) then rest else release_resource_prog tipo amount true rest

unfoldable pub release_ghost_prog : ℕ → ℤ → Prog → Prog
release_ghost_prog conn job_id k =
    send_message_prog conn agente_remoto (Message.release job_id cpu (pos 0)) (
      send_message_prog conn agente_remoto (Message.release job_id mem (pos 0))
        (send_message_prog conn agente_remoto (Message.release job_id gpu (pos 0)) k))

-- `job_confirmar` writes the job in the table.
unfoldable pub settle : List ℕ → ℤ → ResourceManager → ResourceManager
settle ip job_id m = record m {
  tabla = update_job m.tabla job_id (λ j. (job_confirmar j ip job_id).0);
}

unfoldable pub confirm_prog : Job → List ℕ → ℤ → Prog → Prog
confirm_prog check ip job_id k = access (settle ip job_id) (λ _. look (λ m.
    if (job_confirmar check ip job_id).1 && tabla_jobs_verificar m.tabla job_id
    then send_message_prog check.conn erlang_local (Message.job_granted job_id) k
    else k))

unfoldable pub on_granted_prog : ℕ → ℤ → Prog
on_granted_prog conn job_id = lock Lock.conns (
    look (λ m. unlock Lock.conns (elim (tabla_conns_get_ip_by_conn m.conns conn) [
      | none ↦ done
      | some ip_remoto ↦ lock Lock.tabla (
          look (λ s. elim (tabla_jobs_buscar_por_id s.tabla job_id) [
            | none ↦ release_ghost_prog conn job_id (unlock Lock.tabla done)
            | some check ↦ confirm_prog check ip_remoto job_id (unlock Lock.tabla done)
          ]))
    ])))

unfoldable pub on_denied_prog : ℤ → Prog
on_denied_prog job_id =
    let leave = limpiar_colas_por_id_prog job_id (unlock Lock.tabla done) in
    lock Lock.tabla (
      look (λ m. elim (tabla_jobs_get_conn m.tabla job_id) [
        | none ↦ leave
        | some owner ↦
            tabla_jobs_remove_prog job_id false
              (send_message_prog owner erlang_local (Message.job_denied job_id) leave)
      ]))

unfoldable pub release_alloc_prog : Allocation → Prog → Prog
release_alloc_prog alloc k =
    let rest =
      if is_remote alloc
      then send_message_prog alloc.conn agente_remoto
          (Message.release alloc.job_id alloc.name alloc.amount) k
      else k in
    if is_local_granted alloc
    then release_resource_prog alloc.name alloc.amount true rest
    else limpiar_colas_por_id_prog alloc.job_id rest

unfoldable pub release_allocs_prog : List Allocation → Prog → Prog
release_allocs_prog [] k = k
release_allocs_prog (alloc ∷ sig) k = release_alloc_prog alloc (release_allocs_prog sig k)

unfoldable pub on_job_release_prog : ℤ → Prog
on_job_release_prog job_id = lock Lock.tabla (
    access (unlink_by_id job_id) (λ m.
      unlock Lock.tabla (elim (tabla_jobs_extract_by_id m.tabla job_id).1 [
        | none ↦ done
        | some job ↦ release_allocs_prog job.confirmadas (limpiar_colas_por_id_prog job_id done)
      ])))

unfoldable pub on_job_status_prog : ℕ → ℤ → Prog
on_job_status_prog conn job_id = lock Lock.tabla (
    look (λ m. unlock Lock.tabla (elim (tabla_jobs_get_conn m.tabla job_id) [
      | none ↦ send_message_prog conn erlang_local (Message.job_unknown job_id) done
      | some c ↦ send_message_prog conn erlang_local (Message.job_active job_id) done
    ])))

unfoldable pub on_job_timeout_prog : ℤ → Prog
on_job_timeout_prog job_id =
    tabla_jobs_remove_prog job_id true (limpiar_colas_por_id_prog job_id done)

unfoldable pub on_get_nodes_prog : ℕ → Prog
on_get_nodes_prog conn = lock Lock.nodos (
    look (λ m.
      unlock Lock.nodos
        (send_message_prog conn erlang_local (Message.nodes (node_list m.nodos)) done)))

unfoldable pub drop_jobs_prog : List Job → Prog → Prog
drop_jobs_prog [] k = k
drop_jobs_prog (lista ∷ sig) k =
    limpiar_colas_por_id_prog lista.job_id
      (drop_allocs_prog lista.job_id true lista.confirmadas (drop_jobs_prog sig k))

-- Unlinks the jobs that a lost connection takes with it.
unfoldable pub unlink_lost : ℕ → ResourceManager → ResourceManager
unlink_lost conn m = record m { tabla = (tabla_jobs_extract_by_remote_conn m.tabla conn).0 }

unfoldable pub process_connection_failed_prog : ℕ → Prog → Prog
process_connection_failed_prog conn k = lock Lock.tabla (
    access (unlink_lost conn) (λ m.
      unlock Lock.tabla (drop_jobs_prog (tabla_jobs_extract_by_remote_conn m.tabla conn).1 k)))

unfoldable pub forget_conn : ℕ → ResourceManager → ResourceManager
forget_conn conn m = record m { conns = tabla_conns_delete_by_conn m.conns conn }

unfoldable pub process_disconnect_prog : ℕ → Prog
process_disconnect_prog conn = limpiar_colas_por_conn_prog conn (
    process_connection_failed_prog conn
      (lock Lock.conns (access (forget_conn conn) (λ _. unlock Lock.conns done))))

unfoldable pub learn_conn : List ℕ → ℕ → ResourceManager → ResourceManager
learn_conn ip conn m = record m { conns = tabla_conns_insert m.conns ip conn }

unfoldable pub send_requests_prog : ℕ → List OutRequest → Prog → Prog
send_requests_prog conn [] k = k
send_requests_prog conn (lista ∷ next) k = lock Lock.conns (
    access (learn_conn lista.ip conn) (λ _.
      unlock Lock.conns
        (send_message_prog conn agente_remoto lista.msg (send_requests_prog conn next k))))

unfoldable pub process_connection_ready_prog : ℕ → Prog
process_connection_ready_prog conn = lock Lock.tabla (
    look (λ m.
      send_requests_prog conn (tabla_jobs_get_pendientes_by_conn m.tabla conn)
        (unlock Lock.tabla done)))

unfoldable pub execute_prog : ℕ → Command → List (Option ℕ) → Prog
execute_prog conn (Command.reserve id tipo amount) tries = on_reserve_prog conn id tipo amount
execute_prog conn (Command.release id tipo amount) tries = on_release_prog id tipo amount
execute_prog conn (Command.granted id) tries = on_granted_prog conn id
execute_prog conn (Command.denied id) tries = on_denied_prog id
execute_prog conn (Command.job_request id reqs) tries = on_job_request_prog conn id reqs tries
execute_prog conn Command.get_nodes tries = on_get_nodes_prog conn
execute_prog conn (Command.job_release id) tries = on_job_release_prog id
execute_prog conn (Command.job_status id) tries = on_job_status_prog conn id
execute_prog conn (Command.job_timeout id) tries = on_job_timeout_prog id
execute_prog conn Command.ignored tries = done

-- An announcement and the purge work under the mutex of the table of nodes.
unfoldable pub in_nodos : (ResourceManager → ResourceManager) → Prog
in_nodos f = lock Lock.nodos (access f (λ _. unlock Lock.nodos done))

unfoldable pub event_prog : Event → Prog
event_prog (Event.message conn c tries) = execute_prog conn c tries
event_prog (Event.announce ip puerto c g n now) =
    in_nodos (λ m. record m { nodos = tabla_nodos_insert_or_update m.nodos ip puerto c g n now })
event_prog (Event.purge timeout now) =
    in_nodos (λ m. record m { nodos = tabla_nodos_purge m.nodos timeout now })
event_prog (Event.disconnect conn) = process_disconnect_prog conn
event_prog (Event.connection_ready conn) = process_connection_ready_prog conn
event_prog (Event.connection_failed conn) = process_connection_failed_prog conn done
