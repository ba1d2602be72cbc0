-- ===== src/Threads/Guarded.antt =====
-- Which lock guards which part of the state (agente_c/src/resource_manager.c): the table of jobs, each
-- resource, the two other tables, and what is sent over a connection.
use tp_sist_op.Prelude.{
  ℕ, true, false, List, [], ◌∷◌, ◌≡◌, refl, ap, arith, ◌==◌, ==_iff, if◌then◌else◌,
}
use tp_sist_op.ResourceTypes.{Resource, cpu, mem, gpu, resource_eq}
use tp_sist_op.Jobs.{TablaJobs, Message}
use tp_sist_op.Conns.{TablaConns}
use tp_sist_op.Nodes.{TablaNodos}
use tp_sist_op.Manager.{Recurso, ResourceManager, Dest, Sent, recurso, set_recurso, send_message}
use tp_sist_op.Threads.{Lock, holds, lock_eq}

-- What was sent over one connection, newest first.
unfoldable pub sent_to : ℕ → List Sent → List Sent
sent_to c [] = []
sent_to c (s ∷ out) = if s.conn == c then s ∷ sent_to c out else sent_to c out

-- `f` changes only what one of these locks guards.
pub record IsGuarded (held : List Lock) (f : ResourceManager → ResourceManager) : Type 0 where
  pub recursos :
      (t : Resource) (m : ResourceManager)
      → holds (Lock.recurso t) held ≡ false
      → recurso t (f m) ≡ recurso t m
  pub jobs : (m : ResourceManager) → holds Lock.tabla held ≡ false → (f m).tabla ≡ m.tabla
  pub known : (m : ResourceManager) → holds Lock.conns held ≡ false → (f m).conns ≡ m.conns
  pub nodes : (m : ResourceManager) → holds Lock.nodos held ≡ false → (f m).nodos ≡ m.nodos
  pub sent :
      (c : ℕ) (m : ResourceManager)
      → holds (Lock.write c) held ≡ false
      → sent_to c (f m).out ≡ sent_to c m.out
  pub own_ip : (m : ResourceManager) → (f m).ip ≡ m.ip

pub look-IsGuarded : (held : List Lock) → IsGuarded held (λ m. m)
look-IsGuarded held = record {
  recursos = λ t m h. refl;
  jobs = λ m h. refl;
  known = λ m h. refl;
  nodes = λ m h. refl;
  sent = λ c m h. refl;
  own_ip = λ m. refl;
}

other_recurso :
    (t u : Resource) (r : Recurso) (m : ResourceManager)
    → resource_eq u t ≡ false
    → recurso u (set_recurso t r m) ≡ recurso u m
unfolding recurso set_recurso resource_eq
other_recurso cpu cpu r m h = cc
other_recurso cpu mem r m h = refl
other_recurso cpu gpu r m h = refl
other_recurso mem cpu r m h = refl
other_recurso mem mem r m h = cc
other_recurso mem gpu r m h = refl
other_recurso gpu cpu r m h = refl
other_recurso gpu mem r m h = refl
other_recurso gpu gpu r m h = cc

-- What a write of a resource leaves alone.
module _ (r : Recurso) (m : ResourceManager) where
  set_recurso-rest :
      (t : Resource)
      → ((set_recurso t r m).tabla ≡ m.tabla)
        × ((set_recurso t r m).conns ≡ m.conns)
        × ((set_recurso t r m).nodos ≡ m.nodos)
        × ((set_recurso t r m).out ≡ m.out)
        × ((set_recurso t r m).ip ≡ m.ip)
  unfolding set_recurso
  set_recurso-rest cpu = (refl, refl, refl, refl, refl)
  set_recurso-rest mem = (refl, refl, refl, refl, refl)
  set_recurso-rest gpu = (refl, refl, refl, refl, refl)

pub set_recurso-IsGuarded :
    (t : Resource) (g : ResourceManager → Recurso) (held : List Lock)
    → IsGuarded (Lock.recurso t ∷ held) (λ m. set_recurso t (g m) m)
unfolding holds lock_eq
set_recurso-IsGuarded t g held = record {
  recursos = λ u m h. other_recurso t u (g m) m (ground arith);
  jobs = λ m h. (set_recurso-rest (g m) m t).0;
  known = λ m h. (set_recurso-rest (g m) m t).1;
  nodes = λ m h. (set_recurso-rest (g m) m t).2;
  sent = λ c m h. ap (sent_to c) (set_recurso-rest (g m) m t).3;
  own_ip = λ m. (set_recurso-rest (g m) m t).4;
}

same_recursos :
    (t : Resource) (m n : ResourceManager)
    → m.recurso_cpu ≡ n.recurso_cpu
    → m.recurso_mem ≡ n.recurso_mem
    → m.recurso_gpu ≡ n.recurso_gpu
    → recurso t m ≡ recurso t n
unfolding recurso
same_recursos cpu m n a b c = a
same_recursos mem m n a b c = b
same_recursos gpu m n a b c = c

pub set_tabla-IsGuarded :
    (g : ResourceManager → TablaJobs) (held : List Lock)
    → holds Lock.tabla held ≡ true
    → IsGuarded held (λ m. record m { tabla = g m })
set_tabla-IsGuarded g held owned = record {
  recursos = λ t m h. same_recursos t _ m refl refl refl;
  jobs = λ m h. cc;
  known = λ m h. refl;
  nodes = λ m h. refl;
  sent = λ c m h. refl;
  own_ip = λ m. refl;
}

pub set_conns-IsGuarded :
    (g : ResourceManager → TablaConns) (held : List Lock)
    → IsGuarded (Lock.conns ∷ held) (λ m. record m { conns = g m })
unfolding holds lock_eq
set_conns-IsGuarded g held = record {
  recursos = λ t m h. same_recursos t _ m refl refl refl;
  jobs = λ m h. refl;
  known = λ m h. cc;
  nodes = λ m h. refl;
  sent = λ c m h. refl;
  own_ip = λ m. refl;
}

pub set_nodos-IsGuarded :
    (g : ResourceManager → TablaNodos) (held : List Lock)
    → IsGuarded (Lock.nodos ∷ held) (λ m. record m { nodos = g m })
unfolding holds lock_eq
set_nodos-IsGuarded g held = record {
  recursos = λ t m h. same_recursos t _ m refl refl refl;
  jobs = λ m h. refl;
  known = λ m h. refl;
  nodes = λ m h. cc;
  sent = λ c m h. refl;
  own_ip = λ m. refl;
}

pub send_message-IsGuarded :
    (c : ℕ) (d : Dest) (msg : Message) (held : List Lock)
    → IsGuarded (Lock.write c ∷ held) (send_message c d msg)
unfolding holds lock_eq send_message sent_to
send_message-IsGuarded c d msg held = record {
  recursos = λ t m h. same_recursos t _ m refl refl refl;
  jobs = λ m h. refl;
  known = λ m h. refl;
  nodes = λ m h. refl;
  sent = λ x m h. ground (arith, ==_iff x c, ==_iff c x);
  own_ip = λ m. refl;
}
