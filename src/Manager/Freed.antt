-- ===== src/Manager/Freed.antt =====
-- The table of jobs once a connection is to be freed: `process_connection_failed` and `process_disconnect`
-- of agente_c/src/resource_manager.c, one of which the server calls before each `free`.
use tp_sist_op.Prelude.{ℕ, ◌∙◌, All, All-intro}
use tp_sist_op.ResourceTypes.{Resource, cpu, mem, gpu}
use tp_sist_op.Jobs.Sweep.{
  IsFree, tabla_jobs_extract_by_remote_conn, tabla_jobs_extract_by_remote_conn-IsFree,
}
use tp_sist_op.Jobs.Payable.{extract_by_remote_conn-AllPayable}
use tp_sist_op.Manager.{Recurso, ResourceManager, recurso, set_recurso, send_message}
use tp_sist_op.Manager.Closed.{IsClosed}
use tp_sist_op.Manager.Dangling.{cambio_alloc-IsFree, limpiar_colas_por_conn-IsValid}
use tp_sist_op.Manager.Dropped.{drop_jobs_closed}
use tp_sist_op.Manager.Invariant.{
  IsValid, IsValid-closed, AnyRequest, set_recurso-IsValid, send_message-IsValid, set_tabla-IsValid,
}
use tp_sist_op.Manager.Widths.{length-extract_by_remote_conn}
use tp_sist_op.Manager.Events.{process_connection_failed, process_disconnect}

module _ (conn : ℕ) where
  -- The state is in order, and no job points to the connection.
  pub record JobsFree (m : ResourceManager) : Type 0 where
    pub valid : IsValid m
    pub jobs : All (All (IsFree conn)) m.tabla

  set_recurso-jobs :
      (m : ResourceManager) (t : Resource) (r : Recurso)
      → All (All (IsFree conn)) m.tabla
      → All (All (IsFree conn)) (set_recurso t r m).tabla
  unfolding set_recurso
  set_recurso-jobs m cpu r h = h
  set_recurso-jobs m mem r h = h
  set_recurso-jobs m gpu r h = h

  JobsFree-closed : IsClosed AnyRequest JobsFree
  JobsFree-closed = record {
    sound = λ m n t. n.valid.sound t;
    waiting = λ m n t. All-intro AnyRequest (recurso t m).cola.nodes (λ p. tt);
    stored = λ m n t r s k. record {
      valid = set_recurso-IsValid m n.valid t r s;
      jobs = set_recurso-jobs m t r n.jobs;
    };
    sent = λ m n c d msg. record {
      valid = send_message-IsValid m n.valid c d msg;
      jobs = unfold send_message in n.jobs;
    };
    granted = λ m n id c t. record {
      valid = IsValid-closed.granted m n.valid id c t;
      jobs = cambio_alloc-IsFree conn m.tabla id c t n.jobs;
    };
  }

  pub process_connection_failed-JobsFree :
      (m : ResourceManager) → IsValid m → JobsFree (process_connection_failed conn m)
  unfolding process_connection_failed
  process_connection_failed-JobsFree m v =
      let (left, gone) = extract_by_remote_conn-AllPayable m.tabla conn v.payable in
      drop_jobs_closed AnyRequest JobsFree JobsFree-closed
        (tabla_jobs_extract_by_remote_conn m.tabla conn).1 _ gone
        (record {
          valid =
              set_tabla-IsValid m _ v left
                (length-extract_by_remote_conn m.tabla conn ∙ v.jobs_width);
          jobs = tabla_jobs_extract_by_remote_conn-IsFree m.tabla conn;
        })

  pub process_disconnect-jobs :
      (m : ResourceManager) → IsValid m → All (All (IsFree conn)) (process_disconnect conn m).tabla
  unfolding process_disconnect
  process_disconnect-jobs m v =
      (process_connection_failed-JobsFree _ (limpiar_colas_por_conn-IsValid conn m v)).jobs
