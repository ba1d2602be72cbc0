-- ===== src/Threads/Kept/System.antt =====
-- The invariant of the manager along every run of the threads (agente_c/src/resource_manager.c).
use tp_sist_op.Prelude.{
  ◌+◌, ◌≤◌, true, List, [], ◌∷◌, ◌≡◌, refl, subst, ◌∙◌, arith, inl, inr, All, Bool-cases, map,
}
use tp_sist_op.Manager.{ResourceManager}
use tp_sist_op.Manager.Events.{Event}
use tp_sist_op.Manager.Invariant.{IsValid}
use tp_sist_op.Manager.Reachable.{IsLegal}
use tp_sist_op.Threads.{
  Lock, Prog, done, lock, unlock, access, lock_eq, holds, give_up_lock, Thread, held_by, rest_of,
  Turn, locks, unlocks, accesses, Step, here, there, started, Reach, start, later,
}
use tp_sist_op.Threads.Handlers.{event_prog}
use tp_sist_op.Threads.Ordered.{IsOrdered}
use tp_sist_op.Threads.Deadlock.{AllOrdered}
use tp_sist_op.Threads.Exclusion.{
  lock_eq_refl, times_held, owners, Unchanged, mover, Turn-Unchanged, Step-Unchanged, Reach-owners,
  Reach-AllOrdered,
}
use tp_sist_op.Threads.Kept.{Agrees, Keeps}
use tp_sist_op.Threads.Kept.Handlers.{event_prog-Keeps}

-- Every thread can go on from the state as it is.
abbrev AllKeep : ResourceManager → List Thread → Type 0
AllKeep m = All (λ th. Keeps (held_by th) m (rest_of th))

Agrees-trans :
    (held : List Lock) (r s m : ResourceManager)
    → Agrees held r s
    → Agrees held s m
    → Agrees held r m
Agrees-trans held r s m a b t h = b t h ∙ a t h

-- Others may take turns, as long as they leave alone what the locks guard.
Keeps-Agrees :
    (held : List Lock) (r s : ResourceManager) (p : Prog)
    → Agrees held r s
    → Keeps held r p
    → Keeps held s p
Keeps-Agrees held r s done a k = tt
Keeps-Agrees held r s (lock l p) a k = λ m v b. k m v (Agrees-trans held r s m a b)
Keeps-Agrees [] r s (unlock l p) a k = tt
Keeps-Agrees (h ∷ held) r s (unlock l p) a k = λ m v b. k m v (Agrees-trans (h ∷ held) r s m a b)
Keeps-Agrees held r s (access f g) a k = λ m v b. k m v (Agrees-trans held r s m a b)

holds-times_held : (l : Lock) (held : List Lock) → holds l held ≡ true → 1 ≤ times_held l held
unfolding holds times_held
holds-times_held l [] h = cc
holds-times_held l (k ∷ held) h = elim (Bool-cases (lock_eq l k)) [
  | inl e ↦ rw e (omega arith)
  | inr e ↦ rw e (omega (arith, holds-times_held l held (rw e at h)))
]

-- What one thread holds, another that holds it once with it does not.
other-Agrees :
    (mine theirs : List Lock) (m m' : ResourceManager)
    → Unchanged theirs m m'
    → ((l : Lock) → times_held l mine + times_held l theirs ≤ 1)
    → Agrees mine m m'
other-Agrees mine theirs m m' u once t h = elim (Bool-cases (holds (Lock.recurso t) theirs)) [
  | inl both ↦ absurd (
      omega (
        arith,
        once (Lock.recurso t),
        holds-times_held (Lock.recurso t) mine h,
        holds-times_held (Lock.recurso t) theirs both,
      ))
  | inr free ↦ u.recursos t free
]

others-AllKeep :
    (theirs : List Lock) (m m' : ResourceManager) (ths : List Thread)
    → Unchanged theirs m m'
    → ((l : Lock) → times_held l theirs + owners l ths ≤ 1)
    → AllKeep m ths
    → AllKeep m' ths
unfolding owners
others-AllKeep theirs m m' [] u once k = tt
others-AllKeep theirs m m' (th ∷ ths) u once k = (
  Keeps-Agrees (held_by th) m m' (rest_of th)
      (other-Agrees (held_by th) theirs m m' u (λ l. omega (arith, once l))) k.0,
  others-AllKeep theirs m m' ths u (λ l. omega (arith, once l)) k.1,
)

unlocks-Keeps :
    (l : Lock) (p : Prog) (held : List Lock) (m : ResourceManager)
    → IsOrdered held (unlock l p)
    → IsValid m
    → Keeps held m (unlock l p)
    → Keeps (give_up_lock l held) m p
unfolding give_up_lock
unlocks-Keeps l p [] m d v k = absurd d
unlocks-Keeps l p (h ∷ held) m d v k =
    rw (subst (λ x. lock_eq x h ≡ true) d.0 (lock_eq_refl h)) (k m v (λ t e. refl))

Turn-Keeps :
    {m m' : ResourceManager} {all : List Thread} {th th' : Thread}
    → Turn m all th m' th'
    → IsOrdered (held_by th) (rest_of th)
    → IsValid m
    → Keeps (held_by th) m (rest_of th)
    → IsValid m' × Keeps (held_by th') m' (rest_of th')
unfolding held_by rest_of
Turn-Keeps {m} (locks free) d v k = (v, k m v (λ t e. refl))
Turn-Keeps {m} (unlocks {l = l} {p = p} {held = held}) d v k = (v, unlocks-Keeps l p held m d v k)
Turn-Keeps {m} (accesses) d v k = k m v (λ t e. refl)

mover-owners :
    {m : ResourceManager} {all : List Thread} {m' : ResourceManager} {ths ths' : List Thread}
    (l : Lock) (s : Step m all ths m' ths')
    → times_held l (held_by (mover s)) ≤ owners l ths
unfolding mover owners
mover-owners l (here t) = omega arith
mover-owners l (there s) = omega (arith, mover-owners l s)

Step-AllKeep :
    {m : ResourceManager} {all : List Thread} {m' : ResourceManager} {ths ths' : List Thread}
    (s : Step m all ths m' ths')
    → AllOrdered ths
    → ((l : Lock) → owners l ths ≤ 1)
    → IsValid m
    → AllKeep m ths
    → IsValid m' × AllKeep m' ths'
unfolding owners
Step-AllKeep {m} {m' = m'} (here {th = th} {ths = ths} t) o once v k =
    let (v', kept) = Turn-Keeps t o.0 v k.0 in
    (v', (kept, others-AllKeep (held_by th) m m' ths (Turn-Unchanged t o.0) once k.1))
Step-AllKeep {m} {m' = m'} (there {th = th} s) o once v k =
    let (v', kept) = Step-AllKeep s o.1 (λ l. omega (arith, once l)) v k.1 in
    (
      v',
      (
        Keeps-Agrees (held_by th) m m' (rest_of th)
            (other-Agrees (held_by th) (held_by (mover s)) m m' (Step-Unchanged s o.1)
              (λ l. omega (arith, once l, mover-owners l s)))
            k.0,
        kept,
      ),
    )

started-AllKeep :
    (es : List Event) (m : ResourceManager)
    → All IsLegal es
    → AllKeep m (started (map event_prog es))
unfolding started held_by rest_of
started-AllKeep [] m h = tt
started-AllKeep (e ∷ es) m h = (event_prog-Keeps e h.0 m, started-AllKeep es m h.1)

-- However the threads take turns at legal events, from a state in order, the manager is in order after
-- every single access, also in the middle of a call.
pub Reach-IsValid :
    (es : List Event) {m m' : ResourceManager} {ths : List Thread}
    → All IsLegal es
    → IsValid m
    → Reach m (started (map event_prog es)) m' ths
    → IsValid m'
Reach-IsValid es legal v r = (along legal v r).0
  where
    along :
        {m m' : ResourceManager} {ths : List Thread}
        → All IsLegal es
        → IsValid m
        → Reach m (started (map event_prog es)) m' ths
        → IsValid m' × AllKeep m' ths
    along {m} legal v start = (v, started-AllKeep es m legal)
    along legal v (later r s) =
        let (v', k) = along legal v r in
        Step-AllKeep s (Reach-AllOrdered es r) (λ l. Reach-owners (map event_prog es) l r) v' k
