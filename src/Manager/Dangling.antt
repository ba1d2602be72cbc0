-- ===== src/Manager/Dangling.antt =====
-- What a lost connection leaves behind: `process_disconnect` of agente_c/src/resource_manager.c is called
-- just before the connection is freed.
use tp_sist_op.Prelude.{ℕ, false, List, [], ◌∷◌, ◌≡◌, ◌∙◌, inl, inr, ◌==◌, All, Bool-cases}
use tp_sist_op.Prelude.Int.{ℤ}
use tp_sist_op.ResourceTypes.{Resource, cpu, mem, gpu}
use tp_sist_op.Queue.{PendingRequest}
use tp_sist_op.Queue.Fifo.{queue_delete_by_conn_correct}
use tp_sist_op.Jobs.{Allocation, TablaJobs, is_local_of, grant_first, tabla_jobs_cambio_alloc}
use tp_sist_op.Jobs.Every.{update_job-All}
use tp_sist_op.Jobs.Sweep.{
  IsFree, remote_on, tabla_jobs_extract_by_remote_conn, tabla_jobs_extract_by_remote_conn-IsFree,
}
use tp_sist_op.Jobs.Payable.{extract_by_remote_conn-AllPayable}
use tp_sist_op.Manager.Closed.{IsClosed, limpiar_colas_por_conn_closed}
use tp_sist_op.Manager.Dropped.{drop_jobs_closed}
use tp_sist_op.Manager.Invariant.{
  IsValid, IsValid-closed, AnyRequest, set_recurso-IsValid, send_message-IsValid, set_tabla-IsValid,
}
use tp_sist_op.Manager.Widths.{length-extract_by_remote_conn}
use tp_sist_op.Manager.{
  Recurso, ResourceManager, recurso, set_recurso, send_message, with_cola, limpiar_colas_por_conn,
}
use tp_sist_op.Manager.Events.{process_connection_failed, process_disconnect}

module _ (conn : ℕ) where
  abbrev pub NotOwned : PendingRequest → Type 0
  NotOwned p = (p.owner_conn == conn) ≡ false

  -- No request that waits is the connection's, and no job points to it, but for local allocations,
  -- which have the owner of their job.
  pub record NoTrace (m : ResourceManager) : Type 0 where
    pub valid : IsValid m
    pub queues : (t : Resource) → All NotOwned (recurso t m).cola.nodes
    pub jobs : All (All (IsFree conn)) m.tabla

  grant_first-remote_on :
      (c : ℕ) (tipo : Resource) (l : List Allocation)
      → All (λ a. remote_on conn a ≡ false) l
      → All (λ a. remote_on conn a ≡ false) (grant_first c tipo l)
  unfolding grant_first remote_on
  grant_first-remote_on c tipo [] h = tt
  grant_first-remote_on c tipo (a ∷ l) h = elim (Bool-cases (is_local_of c tipo a)) [
    | inl hit ↦ rw hit (h.0, h.1)
    | inr miss ↦ rw miss (h.0, grant_first-remote_on c tipo l h.1)
  ]

  pub cambio_alloc-IsFree :
      (t : TablaJobs) (id : ℤ) (c : ℕ) (tipo : Resource)
      → All (All (IsFree conn)) t
      → All (All (IsFree conn)) (tabla_jobs_cambio_alloc t id c tipo)
  unfolding tabla_jobs_cambio_alloc
  cambio_alloc-IsFree t id c tipo h =
      update_job-All (IsFree conn) t id _
        (λ j f. record {
          owner = f.owner;
          pending = f.pending;
          confirmed = grant_first-remote_on c tipo j.confirmadas f.confirmed;
        })
        h

  set_recurso-NoTrace :
      (m : ResourceManager)
      → NoTrace m
      → (t : Resource) (r : Recurso) → ((u : Resource) → IsValid (set_recurso t r m))
      → All NotOwned r.cola.nodes
      → NoTrace (set_recurso t r m)
  unfolding set_recurso recurso
  set_recurso-NoTrace m n cpu r v k = record {
    valid = v cpu;
    queues = elim [ cpu ↦ k | mem ↦ n.queues mem | gpu ↦ n.queues gpu ];
    jobs = n.jobs;
  }
  set_recurso-NoTrace m n mem r v k = record {
    valid = v mem;
    queues = elim [ cpu ↦ n.queues cpu | mem ↦ k | gpu ↦ n.queues gpu ];
    jobs = n.jobs;
  }
  set_recurso-NoTrace m n gpu r v k = record {
    valid = v gpu;
    queues = elim [ cpu ↦ n.queues cpu | mem ↦ n.queues mem | gpu ↦ k ];
    jobs = n.jobs;
  }

  NoTrace-closed : IsClosed NotOwned NoTrace
  NoTrace-closed = record {
    sound = λ m n t. n.valid.sound t;
    waiting = λ m n t. n.queues t;
    stored =
        λ m n t r s k. set_recurso-NoTrace m n t r (λ u. set_recurso-IsValid m n.valid t r s) k;
    sent = λ m n c d msg. record {
      valid = send_message-IsValid m n.valid c d msg;
      queues =
          unfold send_message recurso in
          elim [ cpu ↦ n.queues cpu | mem ↦ n.queues mem | gpu ↦ n.queues gpu ];
      jobs = unfold send_message in n.jobs;
    };
    granted = λ m n id c t. record {
      valid = IsValid-closed.granted m n.valid id c t;
      queues =
          unfold recurso in elim [ cpu ↦ n.queues cpu | mem ↦ n.queues mem | gpu ↦ n.queues gpu ];
      jobs = cambio_alloc-IsFree m.tabla id c t n.jobs;
    };
  }

  limpiar-queues :
      (m : ResourceManager)
      → IsValid m
      → (t : Resource) → All NotOwned (recurso t (limpiar_colas_por_conn conn m)).cola.nodes
  unfolding limpiar_colas_por_conn with_cola recurso
  limpiar-queues m v cpu =
      (queue_delete_by_conn_correct m.recurso_cpu.cola conn (v.sound cpu).counted).1
  limpiar-queues m v mem =
      (queue_delete_by_conn_correct m.recurso_mem.cola conn (v.sound mem).counted).1
  limpiar-queues m v gpu =
      (queue_delete_by_conn_correct m.recurso_gpu.cola conn (v.sound gpu).counted).1

  pub limpiar_colas_por_conn-IsValid :
      (m : ResourceManager) → IsValid m → IsValid (limpiar_colas_por_conn conn m)
  limpiar_colas_por_conn-IsValid m v =
      limpiar_colas_por_conn_closed AnyRequest IsValid IsValid-closed conn m v

  extracted-NoTrace :
      (m : ResourceManager)
      → IsValid m
      → let m1 = limpiar_colas_por_conn conn m in
        NoTrace (record m1 { tabla = (tabla_jobs_extract_by_remote_conn m1.tabla conn).0 })
  unfolding recurso
  extracted-NoTrace m v =
      let m1 = limpiar_colas_por_conn conn m in
      let v1 = limpiar_colas_por_conn-IsValid m v in
      let q = limpiar-queues m v in
      record {
        valid =
            set_tabla-IsValid m1 _ v1 (extract_by_remote_conn-AllPayable m1.tabla conn v1.payable).0
              (length-extract_by_remote_conn m1.tabla conn ∙ v1.jobs_width);
        queues = elim [ cpu ↦ q cpu | mem ↦ q mem | gpu ↦ q gpu ];
        jobs = tabla_jobs_extract_by_remote_conn-IsFree m1.tabla conn;
      }

  -- From a state in order, after `process_disconnect` no queue holds a request of the connection,
  -- and no job in the table has it as its owner, waits for an answer over it or holds a remote
  -- allocation over it.
  pub process_disconnect-NoTrace :
      (m : ResourceManager)
      → IsValid m
      → let m' = process_disconnect conn m in
        ((t : Resource) → All NotOwned (recurso t m').cola.nodes) × All (All (IsFree conn)) m'.tabla
  unfolding process_disconnect process_connection_failed
  process_disconnect-NoTrace m v =
      let n =
        drop_jobs_closed NotOwned NoTrace NoTrace-closed
          (tabla_jobs_extract_by_remote_conn (limpiar_colas_por_conn conn m).tabla conn).1 _
          (extract_by_remote_conn-AllPayable _ conn (limpiar_colas_por_conn-IsValid m v).payable).1
          (extracted-NoTrace m v) in
      (
        unfold recurso in elim [ cpu ↦ n.queues cpu | mem ↦ n.queues mem | gpu ↦ n.queues gpu ],
        n.jobs,
      )
