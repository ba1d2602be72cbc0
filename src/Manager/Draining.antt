-- ===== src/Manager/Draining.antt =====
-- The loop of `release_resource`: which requests leave the queue, and what is left.
use tp_sist_op.Prelude.{
  ℕ, zero, suc, ◌^◌, ◌≤◌, ◌<◌, true, false, List, [], ◌∷◌, ◌++◌, ◌≡◌, refl, sym, ap, ◌∙◌, inl, inr,
  arith, if◌then◌else◌, length, Bool-cases, Option-cases,
}
use mathlib.Core.Bool.{false≢true}
use tp_sist_op.Prelude.Int.{ℤ, pos_part, ◌+ℤ◌, ◌-ℤ◌, ◌≤ℤ◌, int_laws, leb_ℤ→le, pay_twice}
use tp_sist_op.ResourceTypes.{
  Resource, cpu, mem, gpu, resource_eq, resource_eq_iff, resource_eq_refl,
}
use tp_sist_op.Queue.{PendingRequest, queue_dequeue}
use tp_sist_op.Queue.Fifo.{waiting, queue_dequeue-IsCounted}
use tp_sist_op.Manager.Resources.{IsSound, sub-IsQuantity, taken-exact, give_back-IsSound}
use tp_sist_op.Manager.{
  Recurso, ResourceManager, recurso, set_recurso, can_serve, take_off, serve_top, serve, notify,
  send_message, accepts, give_back, release_resource,
}

-- The loop on the resource alone.
pub drain : ℕ → Recurso → Recurso
drain zero r = r
drain (suc fuel) r = elim (can_serve r) [ true ↦ drain fuel (take_off r).0 | false ↦ r ]

-- From `r` to `d` the loop took `served` off the front of the queue, paid for them out of what was
-- available, and stopped at a request that does not fit, or at the end.
pub record Drains (r d : Recurso) : Type 0 where
  pub served : List PendingRequest
  pub order : r.cola.nodes ≡ served ++ d.cola.nodes
  pub paid : r.available_amount ≡ waiting served +ℤ d.available_amount
  pub stopped : can_serve d ≡ false
  pub sound : IsSound d
  pub total : d.total_amount ≡ r.total_amount

abbrev resource_of : ℤ → ℤ → List PendingRequest → ℤ → Recurso
resource_of available total nodes amount = record {
  available_amount = available;
  total_amount = total;
  cola = record { nodes = nodes; amount = amount };
}

stops-Drains : (r : Recurso) → IsSound r → can_serve r ≡ false → Drains r r
unfolding waiting
stops-Drains r s e = record {
  served = [];
  order = refl;
  paid = omega int_laws;
  stopped = e;
  sound = s;
  total = refl;
}

module _ (t : ℤ) (p : PendingRequest) (ns : List PendingRequest) (a c : ℤ) where
  take_off-IsSound :
      IsSound (resource_of a t (p ∷ ns) c)
      → p.amount ≤ℤ a
      → IsSound (take_off (resource_of a t (p ∷ ns) c)).0
        × ((take_off (resource_of a t (p ∷ ns) c)).0.available_amount ≡ a -ℤ p.amount)
  unfolding take_off queue_dequeue
  take_off-IsSound s le =
      let exact = taken-exact a p.amount s.available s.waits.0.0.1 le in
      (
        record {
          total = s.total;
          available = rw exact (sub-IsQuantity a p.amount s.available s.waits.0.0.1 le);
          within = rw exact (omega (int_laws, s.within));
          waits = s.waits.1;
          counted = queue_dequeue-IsCounted (record { nodes = p ∷ ns; amount = c }) s.counted;
        },
        exact,
      )

drain-resource_of :
    (ns : List PendingRequest) (fuel : ℕ) (a t c : ℤ)
    → length ns ≤ fuel
    → IsSound (resource_of a t ns c)
    → Drains (resource_of a t ns c) (drain fuel (resource_of a t ns c))
unfolding drain take_off waiting
drain-resource_of [] zero a t c h s = stops-Drains _ s (unfold can_serve in refl)
drain-resource_of [] (suc fuel) a t c h s = unfold can_serve in stops-Drains _ s refl
drain-resource_of (p ∷ ns) zero a t c h s = absurd (omega arith)
drain-resource_of (p ∷ ns) (suc fuel) a t c h s =
    elim (Bool-cases (can_serve (resource_of a t (p ∷ ns) c))) [
      | inl fits ↦
          let (sound', exact) = take_off-IsSound t p ns a c s (le_of_fits fits) in
          let d = drain-resource_of ns fuel _ t _ (omega arith) sound' in
          rw (fits, drain)
            (record {
              served = p ∷ d.served;
              order = ap (◌∷◌ p) d.order;
              paid = pay_twice a p.amount (waiting d.served) _ _ exact d.paid;
              stopped = d.stopped;
              sound = d.sound;
              total = d.total;
            })
      | inr stays ↦ rw (stays, drain) (stops-Drains _ s stays)
    ]
  where
    le_of_fits : can_serve (resource_of a t (p ∷ ns) c) ≡ true → p.amount ≤ℤ a
    le_of_fits e = leb_ℤ→le p.amount a (unfold can_serve in e)

pub drain-Drains :
    (fuel : ℕ) (r : Recurso) → length r.cola.nodes ≤ fuel → IsSound r → Drains r (drain fuel r)
drain-Drains fuel r h s =
    drain-resource_of r.cola.nodes fuel r.available_amount r.total_amount r.cola.amount h s

-- Reads of a resource behind a write, and behind what the loop does to jobs and messages.
pub recurso-set_recurso :
    (t u : Resource) (r : Recurso) (m : ResourceManager)
    → recurso t (set_recurso u r m) ≡ (if resource_eq t u then r else recurso t m)
unfolding recurso set_recurso resource_eq
recurso-set_recurso cpu u r m = ground arith
recurso-set_recurso mem u r m = ground arith
recurso-set_recurso gpu u r m = ground arith

pub recurso-notify :
    (t u : Resource) (p : PendingRequest) (m : ResourceManager)
    → recurso t (notify u p m) ≡ recurso t m
unfolding recurso notify send_message
recurso-notify cpu u p m = ground arith
recurso-notify mem u p m = ground arith
recurso-notify gpu u p m = ground arith

pub recurso-serve_top :
    (t u : Resource) (m : ResourceManager)
    → recurso t (serve_top u m)
      ≡ (if resource_eq t u then (take_off (recurso u m)).0 else recurso t m)
unfolding serve_top
recurso-serve_top t u m = elim (Option-cases (take_off (recurso u m)).1) [
  | inl e ↦ rw (e, serve_top) (recurso-set_recurso t u _ m)
  | inr (p, e) ↦ rw (e, serve_top) (recurso-notify t u p _ ∙ recurso-set_recurso t u _ m)
]

serve_top-join :
    (t u : Resource) (m : ResourceManager) (f : Recurso → Recurso)
    → (if resource_eq t u then f (recurso u (serve_top u m)) else recurso t (serve_top u m))
      ≡ (if resource_eq t u then f (take_off (recurso u m)).0 else recurso t m)
serve_top-join t u m f = elim (Bool-cases (resource_eq t u)) [
  | inl same ↦ rw same (ap f (recurso-serve_top u u m ∙ rw (resource_eq_refl u)))
  | inr other ↦ rw other (recurso-serve_top t u m ∙ rw other)
]

-- The loop on the manager does to its resource what the loop on a resource does, and nothing to the
-- others.
pub recurso-serve :
    (fuel : ℕ) (t u : Resource) (m : ResourceManager)
    → recurso t (serve fuel u m)
      ≡ (if resource_eq t u then drain fuel (recurso u m) else recurso t m)
unfolding serve drain
recurso-serve zero t u m = ground (arith, resource_eq_iff t u)
recurso-serve (suc fuel) t u m = elim (Bool-cases (can_serve (recurso u m))) [
  | inl fits ↦
      rw (fits, serve, drain)
        (recurso-serve fuel t u (serve_top u m) ∙ serve_top-join t u m (drain fuel))
  | inr stays ↦ rw (stays, serve, drain) (ground (arith, resource_eq_iff t u))
]

abbrev served_by : Resource → ℤ → ResourceManager → ResourceManager
served_by tipo amount m =
    serve (length (recurso tipo m).cola.nodes) tipo
      (set_recurso tipo (give_back (recurso tipo m) amount) m)

recurso-served_by :
    (t tipo : Resource) (amount : ℤ) (m : ResourceManager)
    → recurso t (served_by tipo amount m) ≡ (
        if resource_eq t tipo
        then drain (length (recurso tipo m).cola.nodes) (give_back (recurso tipo m) amount)
        else recurso t m)
recurso-served_by t tipo amount m =
    let r = give_back (recurso tipo m) amount in
    let n = length (recurso tipo m).cola.nodes in
    let self : recurso tipo (set_recurso tipo r m) ≡ r =
      recurso-set_recurso tipo tipo r m ∙ rw (resource_eq_refl tipo) in
    recurso-serve n t tipo (set_recurso tipo r m) ∙ elim (Bool-cases (resource_eq t tipo)) [
      | inl same ↦ rw same (ap (drain n) self)
      | inr other ↦ rw other (recurso-set_recurso t tipo r m ∙ rw other)
    ]

-- For a resource in order and an amount below 2 ^ 30: a release that passes its test gives the
-- amount back and then serves the queue in order, so that what was available and the amount pay
-- for the requests that leave, exactly, and the loop stops only at a request that does not fit or
-- at the end. A release that fails the test changes nothing at all, and no release changes another
-- resource.
pub release_resource_correct :
    (tipo : Resource) (amount : ℤ) (m : ResourceManager)
    → IsSound (recurso tipo m)
    → pos_part amount < 2 ^ 30
    → let m' = release_resource tipo amount m in
      (accepts (recurso tipo m) amount ≡ true
        → Drains (give_back (recurso tipo m) amount) (recurso tipo m')
          × ((give_back (recurso tipo m) amount).available_amount
              ≡ (recurso tipo m).available_amount +ℤ amount))
      × (accepts (recurso tipo m) amount ≡ false → m' ≡ m)
      × ((t : Resource) → resource_eq t tipo ≡ false → recurso t m' ≡ recurso t m)
unfolding release_resource
release_resource_correct tipo amount m s h = elim (Bool-cases (accepts (recurso tipo m) amount)) [
  | inl good ↦
      let (sound', exact) = give_back-IsSound (recurso tipo m) amount s h good in
      let reads = λ (t : Resource). recurso-served_by t tipo amount m in
      rw (good, release_resource)
        (
          λ _. (
            rw (reads tipo, resource_eq_refl tipo)
                (drain-Drains _ (give_back (recurso tipo m) amount)
                  (unfold give_back in omega arith) sound'),
            exact,
          ),
          λ bad. absurd (false≢true (sym bad)),
          λ t other. reads t ∙ rw other,
        )
  | inr bad ↦ rw (bad, release_resource) (λ good. absurd (false≢true good), λ _. refl, λ t _. refl)
]

pub take_off-IsSound' : (r : Recurso) → IsSound r → can_serve r ≡ true → IsSound (take_off r).0
unfolding can_serve
take_off-IsSound' r s e = go r.cola.nodes s e
  where
    go :
        (ns : List PendingRequest)
        → let q = resource_of r.available_amount r.total_amount ns r.cola.amount in
          IsSound q → can_serve q ≡ true → IsSound (take_off q).0
    go [] s e = absurd (false≢true e)
    go (p ∷ ns) s e =
        (take_off-IsSound r.total_amount p ns r.available_amount r.cola.amount s
          (leb_ℤ→le p.amount r.available_amount e)).0
