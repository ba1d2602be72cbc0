-- ===== src/Manager/Invariant.antt =====
-- The invariant of the manager (agente_c/src/resource_manager.c): counters, queues and tables in order.
use tp_sist_op.Prelude.{ℕ, [], ◌≡◌, ◌∙◌, length, length-replicate, All-intro}
use tp_sist_op.Prelude.Int.{ℤ, IsQuantity}
use tp_sist_op.ResourceTypes.{Resource, cpu, mem, gpu}
use tp_sist_op.Queue.{PendingRequest}
use tp_sist_op.Jobs.{Message, TablaJobs, tam_tabla_jobs, tabla_jobs_init}
use tp_sist_op.Jobs.Payable.{AllPayable, init-AllPayable, cambio_alloc-AllPayable}
use tp_sist_op.Hash.{tam_tabla_conn}
use tp_sist_op.Conns.{tabla_conns_init}
use tp_sist_op.Nodes.{tabla_nodos_init}
use tp_sist_op.Manager.Resources.{IsSound, nuevo_recurso-IsSound}
use tp_sist_op.Manager.Closed.{IsClosed}
use tp_sist_op.Manager.Widths.{length-cambio_alloc}
use tp_sist_op.Manager.{
  Recurso, ResourceManager, Dest, recurso, set_recurso, send_message, manager_init,
}

pub record IsValid (m : ResourceManager) : Type 0 where
  pub sound : (t : Resource) → IsSound (recurso t m)
  pub payable : AllPayable m.tabla
  pub jobs_width : length m.tabla ≡ tam_tabla_jobs
  pub conns_width : length m.conns ≡ tam_tabla_conn
  pub nodos_width : length m.nodos ≡ tam_tabla_conn

pub manager_init-IsValid :
    (c m g : ℤ) → IsQuantity c → IsQuantity m → IsQuantity g → IsValid (manager_init c m g)
unfolding manager_init
manager_init-IsValid c m g hc hm hg = record {
  sound = sounds;
  payable = init-AllPayable;
  jobs_width = unfold tabla_jobs_init in length-replicate tam_tabla_jobs [];
  conns_width = unfold tabla_conns_init in length-replicate tam_tabla_conn [];
  nodos_width = unfold tabla_nodos_init in length-replicate tam_tabla_conn [];
}
  where
    sounds : (t : Resource) → IsSound (recurso t (manager_init c m g))
    sounds cpu = unfold recurso in nuevo_recurso-IsSound c hc
    sounds mem = unfold recurso in nuevo_recurso-IsSound m hm
    sounds gpu = unfold recurso in nuevo_recurso-IsSound g hg

pub set_recurso-IsValid :
    (m : ResourceManager)
    → IsValid m
    → (t : Resource) (r : Recurso) → IsSound r
    → IsValid (set_recurso t r m)
unfolding set_recurso recurso
set_recurso-IsValid m v cpu r s = record {
  sound = elim [ cpu ↦ s | mem ↦ v.sound mem | gpu ↦ v.sound gpu ];
  payable = v.payable;
  jobs_width = v.jobs_width;
  conns_width = v.conns_width;
  nodos_width = v.nodos_width;
}
set_recurso-IsValid m v mem r s = record {
  sound = elim [ cpu ↦ v.sound cpu | mem ↦ s | gpu ↦ v.sound gpu ];
  payable = v.payable;
  jobs_width = v.jobs_width;
  conns_width = v.conns_width;
  nodos_width = v.nodos_width;
}
set_recurso-IsValid m v gpu r s = record {
  sound = elim [ cpu ↦ v.sound cpu | mem ↦ v.sound mem | gpu ↦ s ];
  payable = v.payable;
  jobs_width = v.jobs_width;
  conns_width = v.conns_width;
  nodos_width = v.nodos_width;
}

pub send_message-IsValid :
    (m : ResourceManager)
    → IsValid m
    → (conn : ℕ) (d : Dest) (msg : Message) → IsValid (send_message conn d msg m)
unfolding send_message recurso
send_message-IsValid m v conn d msg = record {
  sound = elim [ cpu ↦ v.sound cpu | mem ↦ v.sound mem | gpu ↦ v.sound gpu ];
  payable = v.payable;
  jobs_width = v.jobs_width;
  conns_width = v.conns_width;
  nodos_width = v.nodos_width;
}

-- A write of the table of jobs.
pub set_tabla-IsValid :
    (m : ResourceManager) (t : TablaJobs)
    → IsValid m
    → AllPayable t
    → length t ≡ tam_tabla_jobs
    → IsValid (record m { tabla = t })
unfolding recurso
set_tabla-IsValid m t v p w = record {
  sound = elim [ cpu ↦ v.sound cpu | mem ↦ v.sound mem | gpu ↦ v.sound gpu ];
  payable = p;
  jobs_width = w;
  conns_width = v.conns_width;
  nodos_width = v.nodos_width;
}

abbrev pub AnyRequest : PendingRequest → Type 0
AnyRequest p = Unit {0}

pub IsValid-closed : IsClosed AnyRequest IsValid
IsValid-closed = record {
  sound = λ m v t. v.sound t;
  waiting = λ m v t. All-intro AnyRequest (recurso t m).cola.nodes (λ p. tt);
  stored = λ m v t r s k. set_recurso-IsValid m v t r s;
  sent = send_message-IsValid;
  granted = λ m v id conn t.
      set_tabla-IsValid m _ v (cambio_alloc-AllPayable m.tabla id conn t v.payable)
        (length-cambio_alloc m.tabla id conn t ∙ v.jobs_width);
}
