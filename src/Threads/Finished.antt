-- ===== src/Threads/Finished.antt =====
-- The calls of agente_c/src/resource_manager.c, taken together, come to an end.
use mathlib.Core.WellFounded.{Acc}
use tp_sist_op.Prelude.{List, [], ◌∷◌, ◌≡◌, refl, sym, subst, ◌⊎◌, inl, inr, map}
use tp_sist_op.Manager.{ResourceManager}
use tp_sist_op.Manager.Events.{Event}
use tp_sist_op.Threads.{
  Lock, Prog, done, lock, unlock, access, give_up_lock, Thread, at, Turn, locks, unlocks, accesses,
  Step, here, there, started, Reach, AllDone,
}
use tp_sist_op.Threads.Handlers.{event_prog}
use tp_sist_op.Threads.Deadlock.{moves_or_done}
use tp_sist_op.Threads.Exclusion.{Reach-AllOrdered}

-- What a thread is after one turn.
abbrev After : Thread → Thread → Type 0
After (at held done) th' = ⊥
After (at held (lock l p)) th' = th' ≡ at (l ∷ held) p
After (at held (unlock l p)) th' = th' ≡ at (give_up_lock l held) p
After (at held (access f k)) th' = (m : ResourceManager) × (th' ≡ at held (k m))

Turn-After :
    {m m' : ResourceManager} {all : List Thread} {th th' : Thread}
    → Turn m all th m' th'
    → After th th'
Turn-After (locks free) = refl
Turn-After unlocks = refl
Turn-After {m} accesses = (m, refl)

abbrev Comes : Thread → Thread → Type 0
Comes th' th = After th th'

-- A program has finitely many turns, whatever it reads.
Comes-Acc : (p : Prog) (held : List Lock) → Acc Comes (at held p)
Comes-Acc done held = Acc.intro _ (λ th' a. absurd a)
Comes-Acc (lock l p) held =
    Acc.intro _ (λ th' a. subst (Acc Comes) (sym a) (Comes-Acc p (l ∷ held)))
Comes-Acc (unlock l p) held =
    Acc.intro _ (λ th' a. subst (Acc Comes) (sym a) (Comes-Acc p (give_up_lock l held)))
Comes-Acc (access f k) held =
    Acc.intro _ (λ th' a. subst (Acc Comes) (sym a.1) (Comes-Acc (k a.0) held))

-- What all the threads are after a turn of one of them.
abbrev AfterAll : List Thread → List Thread → Type 0
AfterAll [] ths' = ⊥
AfterAll (th ∷ ths) ths' =
    ((th' : Thread) × After th th' × (ths' ≡ th' ∷ ths))
    ⊎ ((rest : List Thread) × AfterAll ths rest × (ths' ≡ th ∷ rest))

abbrev pub ComeAll : List Thread → List Thread → Type 0
ComeAll ths' ths = AfterAll ths ths'

pub Step-AfterAll :
    {m : ResourceManager} {all : List Thread} {m' : ResourceManager} {ths ths' : List Thread}
    → Step m all ths m' ths'
    → AfterAll ths ths'
Step-AfterAll (here t) = inl (_, Turn-After t, refl)
Step-AfterAll (there s) = inr (_, Step-AfterAll s, refl)

cons-Acc :
    (th : Thread) → Acc Comes th → (ths : List Thread) → Acc ComeAll ths → Acc ComeAll (th ∷ ths)
cons-Acc th (Acc.intro _ one) ths (Acc.intro _ rest) = Acc.intro _ (λ ths' a. elim a [
  | inl (th', t, e) ↦ subst (Acc ComeAll) (sym e) (cons-Acc th' (one th' t) ths (Acc.intro _ rest))
  | inr (ths'', t, e) ↦
      subst (Acc ComeAll) (sym e) (cons-Acc th (Acc.intro _ one) ths'' (rest ths'' t))
])

ComeAll-Acc : (ths : List Thread) → Acc ComeAll ths
ComeAll-Acc [] = Acc.intro _ (λ ths' a. absurd a)
ComeAll-Acc (at held p ∷ ths) = cons-Acc (at held p) (Comes-Acc p held) ths (ComeAll-Acc ths)

-- Some turn of one thread, in some state of the manager, leads from the threads `ths` to `ths'`.
pub data Goes (ths' ths : List Thread) : Type 0 where
  goes : (m m' : ResourceManager) → Step m ths ths m' ths' → Goes ths' ths

Goes-Acc : (ths : List Thread) → Acc ComeAll ths → Acc Goes ths
Goes-Acc ths (Acc.intro _ below) = Acc.intro ths (λ ths' g. Goes-Acc ths' (below ths' (comes g)))
  where
    comes : {ths ths' : List Thread} → Goes ths' ths → ComeAll ths' ths
    comes (goes m m' s) = Step-AfterAll s

-- However the threads take turns at any events, from any state of the manager: as long as one of them
-- is not done, one of them has a turn, so no deadlock is reached; and there is no endless sequence of
-- turns, so all of them get done.
pub Reach-finishes :
    (es : List Event) {m m' : ResourceManager} {ths : List Thread}
    → Reach m (started (map event_prog es)) m' ths
    → (AllDone ths ⊎ ((m'' : ResourceManager) × (ths' : List Thread) × Step m' ths ths m'' ths'))
      × Acc Goes ths
Reach-finishes es {m' = m'} {ths = ths} r =
    (moves_or_done m' ths (Reach-AllOrdered es r), Goes-Acc ths (ComeAll-Acc ths))
