-- ===== src/Manager/Reachable.antt =====
-- The states that the agent reaches from its start by legal events.
use tp_sist_op.Prelude.{ℕ, ◌^◌, ◌<◌, List, [], ◌∷◌, Option, ◌≡◌, ◌∙◌, length, All}
use tp_sist_op.Prelude.Int.{ℤ, pos_part, neg_part, IsQuantity}
use tp_sist_op.ResourceTypes.{cpu, mem, gpu}
use tp_sist_op.Jobs.{OutRequest}
use tp_sist_op.Jobs.Sweep.{tabla_jobs_get_pendientes_by_conn}
use tp_sist_op.Jobs.Payable.{extract_by_remote_conn-AllPayable}
use tp_sist_op.Conns.{TablaConns}
use tp_sist_op.Nodes.{TablaNodos}
use tp_sist_op.Hash.{tam_tabla_conn}
use tp_sist_op.Manager.Closed.{limpiar_colas_por_conn_closed}
use tp_sist_op.Manager.Dropped.{drop_jobs_closed}
use tp_sist_op.Manager.Widths.{
  length-extract_by_remote_conn, length-conns_insert, length-delete_by_conn, length-purge,
  length-insert_or_update,
}
use tp_sist_op.Manager.Invariant.{
  IsValid, manager_init-IsValid, send_message-IsValid, set_tabla-IsValid, IsValid-closed,
  AnyRequest,
}
use tp_sist_op.Manager.Preserves.{
  on_reserve-IsValid, on_release-IsValid, on_granted-IsValid, on_denied-IsValid,
  on_job_release-IsValid, on_job_status-IsValid, on_job_timeout-IsValid,
}
use tp_sist_op.Manager.{ResourceManager, recurso, manager_init}
use tp_sist_op.Manager.Building.{AllAsked, on_job_request-IsValid}
use tp_sist_op.Manager.NodeList.{on_get_nodes}
use tp_sist_op.Manager.Events.{
  process_connection_failed, process_disconnect, send_requests, process_connection_ready,
  process_announce, Command, execute, Event, step, run,
}

-- The events that the invariant stands: a RESERVE asks for no negative amount, a JOB_REQUEST neither,
-- and a RELEASE for less than 2 ^ 30.
abbrev pub IsLegalCommand : Command → Type 0
IsLegalCommand (Command.reserve id t amount) = neg_part amount ≡ 0
IsLegalCommand (Command.release id t amount) = pos_part amount < 2 ^ 30
IsLegalCommand (Command.job_request id reqs) = AllAsked reqs
IsLegalCommand _ = Unit {0}

abbrev pub IsLegal : Event → Type 0
IsLegal (Event.message conn c tries) = IsLegalCommand c
IsLegal _ = Unit {0}

execute-IsValid :
    (conn : ℕ) (c : Command) (tries : List (Option ℕ)) (m : ResourceManager)
    → IsLegalCommand c
    → IsValid m
    → IsValid (execute conn c tries m)
unfolding execute
execute-IsValid conn (Command.reserve id t a) tries m h v = on_reserve-IsValid conn id t a m h v
execute-IsValid conn (Command.release id t a) tries m h v = on_release-IsValid id t a m h v
execute-IsValid conn (Command.granted id) tries m h v = on_granted-IsValid conn id m v
execute-IsValid conn (Command.denied id) tries m h v = on_denied-IsValid id m v
execute-IsValid conn (Command.job_request id reqs) tries m h v =
    on_job_request-IsValid conn id reqs tries m h v
execute-IsValid conn Command.get_nodes tries m h v =
    unfold on_get_nodes in send_message-IsValid m v conn _ _
execute-IsValid conn (Command.job_release id) tries m h v = on_job_release-IsValid id m v
execute-IsValid conn (Command.job_status id) tries m h v = on_job_status-IsValid conn id m v
execute-IsValid conn (Command.job_timeout id) tries m h v = on_job_timeout-IsValid id m v
execute-IsValid conn Command.ignored tries m h v = v

pub set_conns-IsValid :
    (m : ResourceManager) (t : TablaConns)
    → IsValid m
    → length t ≡ tam_tabla_conn
    → IsValid (record m { conns = t })
unfolding recurso
set_conns-IsValid m t v w = record {
  sound = elim [ cpu ↦ v.sound cpu | mem ↦ v.sound mem | gpu ↦ v.sound gpu ];
  payable = v.payable;
  jobs_width = v.jobs_width;
  conns_width = w;
  nodos_width = v.nodos_width;
}

pub set_nodos-IsValid :
    (m : ResourceManager) (t : TablaNodos)
    → IsValid m
    → length t ≡ tam_tabla_conn
    → IsValid (record m { nodos = t })
unfolding recurso
set_nodos-IsValid m t v w = record {
  sound = elim [ cpu ↦ v.sound cpu | mem ↦ v.sound mem | gpu ↦ v.sound gpu ];
  payable = v.payable;
  jobs_width = v.jobs_width;
  conns_width = v.conns_width;
  nodos_width = w;
}

failed-IsValid :
    (conn : ℕ) (m : ResourceManager) → IsValid m → IsValid (process_connection_failed conn m)
unfolding process_connection_failed
failed-IsValid conn m v =
    let (kept, gone) = extract_by_remote_conn-AllPayable m.tabla conn v.payable in
    drop_jobs_closed AnyRequest IsValid IsValid-closed _ _ gone
      (set_tabla-IsValid m _ v kept (length-extract_by_remote_conn m.tabla conn ∙ v.jobs_width))

disconnect-IsValid :
    (conn : ℕ) (m : ResourceManager) → IsValid m → IsValid (process_disconnect conn m)
unfolding process_disconnect
disconnect-IsValid conn m v =
    let v' =
      failed-IsValid conn _
        (limpiar_colas_por_conn_closed AnyRequest IsValid IsValid-closed conn m v) in
    set_conns-IsValid _ _ v' (length-delete_by_conn _ conn ∙ v'.conns_width)

send_requests-IsValid :
    (conn : ℕ) (rs : List OutRequest) (m : ResourceManager)
    → IsValid m
    → IsValid (send_requests conn rs m)
unfolding send_requests
send_requests-IsValid conn [] m v = v
send_requests-IsValid conn (r ∷ rs) m v = send_requests-IsValid conn rs _ (
    send_message-IsValid _
      (set_conns-IsValid m _ v (length-conns_insert m.conns r.ip conn ∙ v.conns_width)) conn _ _)

-- Every legal event keeps the invariant.
pub step-IsValid : (m : ResourceManager) (e : Event) → IsLegal e → IsValid m → IsValid (step m e)
unfolding step
step-IsValid m (Event.message conn c tries) h v = execute-IsValid conn c tries m h v
step-IsValid m (Event.announce ip puerto c mm g now) h v =
    unfold process_announce in
    set_nodos-IsValid m _ v (length-insert_or_update m.nodos ip puerto c mm g now ∙ v.nodos_width)
step-IsValid m (Event.purge timeout now) h v =
    set_nodos-IsValid m _ v (length-purge m.nodos timeout now ∙ v.nodos_width)
step-IsValid m (Event.disconnect conn) h v = disconnect-IsValid conn m v
step-IsValid m (Event.connection_ready conn) h v =
    unfold process_connection_ready in
    send_requests-IsValid conn (tabla_jobs_get_pendientes_by_conn m.tabla conn) m v
step-IsValid m (Event.connection_failed conn) h v = failed-IsValid conn m v

run-IsValid :
    (m : ResourceManager) (es : List Event) → All IsLegal es → IsValid m → IsValid (run m es)
unfolding run
run-IsValid m [] h v = v
run-IsValid m (e ∷ es) h v = run-IsValid (step m e) es h.1 (step-IsValid m e h.0 v)

-- From its start, with totals below 2 ^ 30, the agent is in order after any history of legal
-- events: for every resource what is available lies between nothing and the total, each request
-- that waits is for a quantity that the node has, and the counter of the queue is the sum of what
-- waits; every local allocation is for a quantity; and the tables have their buckets.
pub run-manager_init-IsValid :
    (c m g : ℤ) (es : List Event)
    → IsQuantity c
    → IsQuantity m
    → IsQuantity g
    → All IsLegal es
    → IsValid (run (manager_init c m g) es)
run-manager_init-IsValid c m g es hc hm hg legal =
    run-IsValid (manager_init c m g) es legal (manager_init-IsValid c m g hc hm hg)
