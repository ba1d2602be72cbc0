-- ===== src/Threads/Exclusion.antt =====
-- Along every run of the threads: the discipline holds, no lock is held twice, and a thread changes only
-- what its locks guard (agente_c/src/resource_manager.c).
use tp_sist_op.Prelude.{
  ℕ, suc, ◌+◌, ◌≤◌, true, false, List, [], ◌∷◌, ◌≡◌, refl, sym, subst, arith, ◌⊎◌, inl, inr,
  Bool-cases, ==_iff, map, if◌then◌else◌,
}
use tp_sist_op.ResourceTypes.{Resource, resource_eq_refl}
use tp_sist_op.Manager.{ResourceManager, recurso}
use tp_sist_op.Manager.Events.{Event}
use tp_sist_op.Threads.{
  Lock, Prog, unlock, lock_eq, holds, give_up_lock, Thread, held_by, rest_of, is_free, Turn, locks,
  unlocks, accesses, Step, here, there, started, Reach, start, later,
}
use tp_sist_op.Threads.Guarded.{IsGuarded, look-IsGuarded, sent_to}
use tp_sist_op.Threads.Ordered.{IsOrdered}
use tp_sist_op.Threads.Ordered.Handlers.{event_prog-IsOrdered}
use tp_sist_op.Threads.Handlers.{event_prog}
use tp_sist_op.Threads.Deadlock.{AllOrdered, eq_of_lock_eq}

pub lock_eq_refl : (l : Lock) → lock_eq l l ≡ true
unfolding lock_eq
lock_eq_refl Lock.tabla = refl
lock_eq_refl (Lock.recurso t) = resource_eq_refl t
lock_eq_refl Lock.conns = refl
lock_eq_refl Lock.nodos = refl
lock_eq_refl (Lock.write c) = (==_iff c c).1 refl

unlocks-IsOrdered :
    (l : Lock) (p : Prog) (held : List Lock)
    → IsOrdered held (unlock l p)
    → IsOrdered (give_up_lock l held) p
unfolding give_up_lock
unlocks-IsOrdered l p [] d = absurd d
unlocks-IsOrdered l p (h ∷ held) d = rw (subst (λ x. lock_eq x h ≡ true) d.0 (lock_eq_refl h)) d.1

Turn-IsOrdered :
    {m m' : ResourceManager} {all : List Thread} {th th' : Thread}
    → Turn m all th m' th'
    → IsOrdered (held_by th) (rest_of th)
    → IsOrdered (held_by th') (rest_of th')
unfolding held_by rest_of
Turn-IsOrdered (locks free) d = d.1
Turn-IsOrdered (unlocks {l} {p} {held}) d = unlocks-IsOrdered l p held d
Turn-IsOrdered {m} (accesses) d = d.1 m

Step-AllOrdered :
    {m : ResourceManager} {all : List Thread} {m' : ResourceManager} {ths ths' : List Thread}
    → Step m all ths m' ths'
    → AllOrdered ths
    → AllOrdered ths'
Step-AllOrdered (here t) o = (Turn-IsOrdered t o.0, o.1)
Step-AllOrdered (there s) o = (o.0, Step-AllOrdered s o.1)

started-AllOrdered : (es : List Event) → AllOrdered (started (map event_prog es))
unfolding started held_by rest_of
started-AllOrdered [] = tt
started-AllOrdered (e ∷ es) = (event_prog-IsOrdered e, started-AllOrdered es)

pub Reach-AllOrdered :
    (es : List Event) {m m' : ResourceManager} {ths : List Thread}
    → Reach m (started (map event_prog es)) m' ths
    → AllOrdered ths
Reach-AllOrdered es r = along r
  where
    along :
        {m m' : ResourceManager} {ths : List Thread}
        → Reach m (started (map event_prog es)) m' ths
        → AllOrdered ths
    along start = started-AllOrdered es
    along (later r s) = Step-AllOrdered s (along r)

-- How often a lock is held, by one thread and by all.
unfoldable pub times_held : Lock → List Lock → ℕ
times_held l [] = 0
times_held l (h ∷ held) = (if lock_eq l h then 1 else 0) + times_held l held

unfoldable pub owners : Lock → List Thread → ℕ
owners l [] = 0
owners l (th ∷ ths) = times_held l (held_by th) + owners l ths

not_held : (l : Lock) (held : List Lock) → holds l held ≡ false → times_held l held ≡ 0
unfolding holds times_held
not_held l [] h = refl
not_held l (k ∷ held) h = elim (Bool-cases (lock_eq l k)) [
  | inl e ↦ absurd (true≢false (rw e at h))
  | inr e ↦ rw e (omega (arith, not_held l held (rw e at h)))
]
  where
    true≢false : true ≡ false → ⊥
    true≢false e = cc

no_owner : (l : Lock) (ths : List Thread) → is_free l ths ≡ true → owners l ths ≡ 0
unfolding is_free owners
no_owner l [] h = refl
no_owner l (th ∷ ths) h = elim (Bool-cases (holds l (held_by th))) [
  | inl e ↦ absurd (false≢true (rw e at h))
  | inr e ↦ omega (arith, not_held l (held_by th) e, no_owner l ths (rw e at h))
]
  where
    false≢true : false ≡ true → ⊥
    false≢true e = cc

give_up_lock-le :
    (l x : Lock) (held : List Lock) → times_held l (give_up_lock x held) ≤ times_held l held
unfolding give_up_lock times_held
give_up_lock-le l x [] = omega arith
give_up_lock-le l x (h ∷ held) = elim (Bool-cases (lock_eq x h)) [
  | inl e ↦ rw e (omega arith)
  | inr e ↦ rw e (omega (arith, give_up_lock-le l x held))
]

-- From `n` holders of a lock to `n'`: there are no more than before, or it was free and there is one more.
abbrev OneMore : Lock → List Thread → ℕ → ℕ → Type 0
OneMore l all n n' = (n' ≤ n) ⊎ ((is_free l all ≡ true) × (n' ≤ suc n))

Turn-OneMore :
    {m m' : ResourceManager} {all : List Thread} {th th' : Thread} (l : Lock)
    → Turn m all th m' th'
    → OneMore l all (times_held l (held_by th)) (times_held l (held_by th'))
unfolding held_by times_held
Turn-OneMore {m} {m'} {all} l (locks {l = x} free) = elim (Bool-cases (lock_eq l x)) [
  | inl e ↦
      inr (subst (λ y. is_free y all ≡ true) (sym (eq_of_lock_eq l x e)) free, rw e (omega arith))
  | inr e ↦ inl (rw e (omega arith))
]
Turn-OneMore l (unlocks {l = x} {held = held}) = inl (give_up_lock-le l x held)
Turn-OneMore l (accesses) = inl (omega arith)

Step-OneMore :
    {m : ResourceManager} {all : List Thread} {m' : ResourceManager} {ths ths' : List Thread}
    (l : Lock)
    → Step m all ths m' ths'
    → OneMore l all (owners l ths) (owners l ths')
unfolding owners
Step-OneMore l (here t) = elim (Turn-OneMore l t) [
  | inl le ↦ inl (omega arith)
  | inr (free, le) ↦ inr (free, omega arith)
]
Step-OneMore l (there s) = elim (Step-OneMore l s) [
  | inl le ↦ inl (omega arith)
  | inr (free, le) ↦ inr (free, omega arith)
]

started-owners : (l : Lock) (ps : List Prog) → owners l (started ps) ≡ 0
unfolding started owners held_by times_held
started-owners l [] = refl
started-owners l (p ∷ ps) = omega (arith, started-owners l ps)

pub Reach-owners :
    (ps : List Prog) (l : Lock) {m m' : ResourceManager} {ths : List Thread}
    → Reach m (started ps) m' ths
    → owners l ths ≤ 1
Reach-owners ps l start = omega (arith, started-owners l ps)
Reach-owners ps l (later r s) = elim (Step-OneMore l s) [
  | inl le ↦ omega (arith, Reach-owners ps l r)
  | inr (free, le) ↦ omega (arith, no_owner l _ free)
]

-- What a thread that holds these locks may change.
pub record Unchanged (held : List Lock) (m m' : ResourceManager) : Type 0 where
  pub recursos : (t : Resource) → holds (Lock.recurso t) held ≡ false → recurso t m' ≡ recurso t m
  pub jobs : holds Lock.tabla held ≡ false → m'.tabla ≡ m.tabla
  pub known : holds Lock.conns held ≡ false → m'.conns ≡ m.conns
  pub nodes : holds Lock.nodos held ≡ false → m'.nodos ≡ m.nodos
  pub sent : (c : ℕ) → holds (Lock.write c) held ≡ false → sent_to c m'.out ≡ sent_to c m.out
  pub own_ip : m'.ip ≡ m.ip

of_guarded :
    (held : List Lock) (f : ResourceManager → ResourceManager) (m : ResourceManager)
    → IsGuarded held f
    → Unchanged held m (f m)
of_guarded held f m g = record {
  recursos = λ t. g.recursos t m;
  jobs = g.jobs m;
  known = g.known m;
  nodes = g.nodes m;
  sent = λ c. g.sent c m;
  own_ip = g.own_ip m;
}

-- The thread whose turn it is in a step.
unfoldable pub mover :
    {m : ResourceManager} {all : List Thread} {m' : ResourceManager} {ths ths' : List Thread}
    → Step m all ths m' ths'
    → Thread
mover (here {th} t) = th
mover (there s) = mover s

pub Turn-Unchanged :
    {m m' : ResourceManager} {all : List Thread} {th th' : Thread}
    → Turn m all th m' th'
    → IsOrdered (held_by th) (rest_of th)
    → Unchanged (held_by th) m m'
unfolding held_by rest_of
Turn-Unchanged {m} (locks {held = held} free) d = of_guarded held _ m (look-IsGuarded held)
Turn-Unchanged {m} (unlocks {held = held}) d = of_guarded held _ m (look-IsGuarded held)
Turn-Unchanged {m} (accesses {f = f} {held = held}) d = of_guarded held f m d.0

pub Step-Unchanged :
    {m : ResourceManager} {all : List Thread} {m' : ResourceManager} {ths ths' : List Thread}
    (s : Step m all ths m' ths')
    → AllOrdered ths
    → Unchanged (held_by (mover s)) m m'
unfolding mover
Step-Unchanged (here t) o = Turn-Unchanged t o.0
Step-Unchanged (there s) o = Step-Unchanged s o.1

-- However the threads take turns at the events: no lock is held twice, and in every step the thread
-- whose turn it is changes the table of jobs, a resource, the table of connections, that of nodes and
-- what was sent over a connection only if it holds the lock of each.
pub Reach-Unchanged :
    (es : List Event) {m m' m'' : ResourceManager} {ths ths' : List Thread}
    → Reach m (started (map event_prog es)) m' ths
    → (s : Step m' ths ths m'' ths')
    → ((l : Lock) → owners l ths ≤ 1) × Unchanged (held_by (mover s)) m' m''
Reach-Unchanged es r s =
    ((λ l. Reach-owners (map event_prog es) l r), Step-Unchanged s (Reach-AllOrdered es r))
