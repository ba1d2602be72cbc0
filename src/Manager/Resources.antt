-- ===== src/Manager/Resources.antt =====
-- One resource: what `reserve_resource` and the test of `release_resource` do to its counters.
use tp_sist_op.Prelude.{
  ℕ, ◌+◌, ◌^◌, ◌≤◌, ◌<◌, true, [], ◌∷◌, ◌++◌, ◌≡◌, refl, ap, ◌↔◌, arith, All, All-append,
}
use tp_sist_op.Prelude.Int.{
  ℤ, pos, pos_part, neg_part, ◌+ℤ◌, ◌-ℤ◌, ◌≤ℤ◌, ◌<ℤ◌, sub_int, IsInt, wrap, add_int_exact,
  add_int_wraps, sub_int_exact, int_laws, IsQuantity,
}
use tp_sist_op.Queue.{Origin, queue_enqueue, queue_init}
use tp_sist_op.Queue.Fifo.{waiting, IsCounted, queue_enqueue-IsCounted}
use tp_sist_op.Jobs.{Result}
use tp_sist_op.Manager.{Recurso, reserve, accepts, give_back, nuevo_recurso}

-- The counters are in order, and whoever waits waits for a quantity that the node has.
pub record IsSound (r : Recurso) : Type 0 where
  pub total : IsQuantity r.total_amount
  pub available : IsQuantity r.available_amount
  pub within : r.available_amount ≤ℤ r.total_amount
  pub waits : All (λ p. IsQuantity p.amount × (p.amount ≤ℤ r.total_amount)) r.cola.nodes
  pub counted : IsCounted r.cola

pub sub-IsQuantity : (a b : ℤ) → IsQuantity a → neg_part b ≡ 0 → b ≤ℤ a → IsQuantity (a -ℤ b)
unfolding ◌-ℤ◌
sub-IsQuantity a b h k le = ground arith

pub add-IsInt : (a b : ℤ) → IsQuantity a → IsQuantity b → IsInt (a +ℤ b)
unfolding ◌+ℤ◌
add-IsInt a b h k = ground arith

pub add-IsQuantity :
    (a b t : ℤ) → IsQuantity a → IsQuantity b → IsQuantity t → a +ℤ b ≤ℤ t → IsQuantity (a +ℤ b)
unfolding ◌+ℤ◌
add-IsQuantity a b t h k q le = ground arith

-- What is taken off is exact.
pub taken-exact : (a b : ℤ) → IsQuantity a → neg_part b ≡ 0 → b ≤ℤ a → sub_int a b ≡ a -ℤ b
taken-exact a b h k le = sub_int_exact a b (omega (arith, sub-IsQuantity a b h k le))

pub nuevo_recurso-IsSound : (n : ℤ) → IsQuantity n → IsSound (nuevo_recurso n)
unfolding nuevo_recurso queue_init
nuevo_recurso-IsSound n h = record {
  total = h;
  available = h;
  within = omega arith;
  waits = tt;
  counted = unfold wrap waiting in refl;
}

-- The three ways that a reservation goes.
pub reserve_cases :
    (P : Recurso × Result → Type 0) (r : Recurso) (amount job_id : ℤ) (conn : ℕ) (o : Origin)
    → (amount ≤ℤ r.available_amount
        → P (record r { available_amount = sub_int r.available_amount amount }, Result.granted))
    → (r.available_amount <ℤ amount
        → amount ≤ℤ r.total_amount
        → P (
          record r { cola = (queue_enqueue r.cola job_id amount conn r.total_amount o).0 },
          Result.queued,
        ))
    → (r.available_amount <ℤ amount → r.total_amount <ℤ amount → P (r, Result.denied))
    → P (reserve r amount job_id conn o)
unfolding reserve queue_enqueue
reserve_cases P r amount job_id conn o fits waits never = ground arith

module _ (r : Recurso) (amount job_id : ℤ) (conn : ℕ) (origen : Origin) (s : IsSound r)
    (h : neg_part amount ≡ 0) where
  abbrev after : Recurso
  after = (reserve r amount job_id conn origen).0

  abbrev answer : Result
  answer = (reserve r amount job_id conn origen).1

  -- For a resource in order and an amount that is not negative: a request that fits is granted and
  -- comes off what is available; one that does not fit now but fits the node waits at the end of
  -- the queue, with nothing taken; one that the node can never fit is denied, and changes nothing.
  -- The total stays.
  pub reserve_correct :
      (amount ≤ℤ r.available_amount
        → (answer ≡ Result.granted)
          × (after.available_amount ≡ r.available_amount -ℤ amount)
          × (after.cola ≡ r.cola))
      × (r.available_amount <ℤ amount
          → amount ≤ℤ r.total_amount
          → (answer ≡ Result.queued)
            × (after.available_amount ≡ r.available_amount)
            × (after.cola.nodes
                ≡ r.cola.nodes
                  ++ record { job_id = job_id; amount = amount; owner_conn = conn; origen = origen }
                    ∷ []))
      × (r.total_amount <ℤ amount → (answer ≡ Result.denied) × (after ≡ r))
      × (after.total_amount ≡ r.total_amount)
  unfolding reserve queue_enqueue
  reserve_correct = (
    λ fits. ground (arith, taken-exact r.available_amount amount s.available h fits),
    λ lt le. ground arith,
    λ lt. ground arith,
    ground arith,
  )

  -- A reservation of an amount that is not negative keeps a resource in order, whichever way it
  -- goes.
  pub reserve-IsSound : IsSound after
  reserve-IsSound =
      reserve_cases (λ q. IsSound q.0) r amount job_id conn origen
        (λ le.
          let exact = taken-exact r.available_amount amount s.available h le in
          record {
            total = s.total;
            available = rw exact (sub-IsQuantity r.available_amount amount s.available h le);
            within = rw exact (omega (int_laws, s.within));
            waits = s.waits;
            counted = s.counted;
          })
        (λ lt le. record {
          total = s.total;
          available = s.available;
          within = s.within;
          waits =
              unfold queue_enqueue in
              All-append _ r.cola.nodes _ s.waits (((omega arith, h), le), tt);
          counted =
              queue_enqueue-IsCounted r.cola job_id amount conn r.total_amount origen s.counted;
        })
        (λ lt never. s)

-- For a resource in order and an amount below 2 ^ 30 the test of `release_resource` is what it
-- says: the amount is not negative, and with it no more is available than the node has.
pub accepts_iff :
    (r : Recurso) (amount : ℤ)
    → IsSound r
    → pos_part amount < 2 ^ 30
    → (accepts r amount ≡ true)
      ↔ ((neg_part amount ≡ 0) × (r.available_amount +ℤ amount ≤ℤ r.total_amount))
unfolding accepts
accepts_iff r amount s h = (
  λ e.
      let k : neg_part amount ≡ 0 = ground arith in
      (
        k,
        ground (arith, add_int_exact r.available_amount amount (add-IsInt _ _ s.available (h, k))),
      ),
  λ (k, le).
      ground (arith, add_int_exact r.available_amount amount (add-IsInt _ _ s.available (h, k))),
)

pub give_back-IsSound :
    (r : Recurso) (amount : ℤ)
    → IsSound r
    → pos_part amount < 2 ^ 30
    → accepts r amount ≡ true
    → IsSound (give_back r amount)
      × ((give_back r amount).available_amount ≡ r.available_amount +ℤ amount)
unfolding give_back
give_back-IsSound r amount s h e =
    let (k, le) = (accepts_iff r amount s h).0 e in
    let exact = add_int_exact r.available_amount amount (add-IsInt _ _ s.available (h, k)) in
    (
      record {
        total = s.total;
        available =
            rw exact (
              add-IsQuantity r.available_amount amount r.total_amount s.available (h, k) s.total
                le);
        within = rw exact le;
        waits = s.waits;
        counted = s.counted;
      },
      exact,
    )

-- In a resource in order, a release of an amount that is not negative, whose sum with what is
-- available leaves the range of `int`, passes the test, since the sum has become negative, and
-- leaves a negative amount available.
pub release_overflow :
    (r : Recurso) (amount : ℤ)
    → IsSound r
    → neg_part amount ≡ 0
    → IsInt amount
    → 2 ^ 31 ≤ pos_part r.available_amount + pos_part amount
    → (accepts r amount ≡ true) × ((give_back r amount).available_amount <ℤ pos 0)
unfolding accepts give_back
release_overflow r amount s h i over =
    let low = add_int_wraps r.available_amount amount s.available.1 h (omega arith) i.0 over in
    ground (arith, low, s.total)

-- In a resource in order, a reservation of a negative amount is granted whenever the difference is
-- an `int`, and makes more available than before; on an idle resource that is more than the node
-- has.
pub reserve_negative :
    (r : Recurso) (amount job_id : ℤ) (conn : ℕ) (o : Origin)
    → IsSound r
    → amount <ℤ pos 0
    → IsInt (r.available_amount -ℤ amount)
    → let (r', answer) = reserve r amount job_id conn o in
      (answer ≡ Result.granted)
      × (r.available_amount <ℤ r'.available_amount)
      × (r.available_amount ≡ r.total_amount → r'.total_amount <ℤ r'.available_amount)
reserve_negative r amount job_id conn o s neg i =
    let exact = sub_int_exact r.available_amount amount i in
    reserve_cases
      (λ q.
        (q.1 ≡ Result.granted)
        × (r.available_amount <ℤ q.0.available_amount)
        × (r.available_amount ≡ r.total_amount → q.0.total_amount <ℤ q.0.available_amount))
      r amount job_id conn o
      (λ le.
        rw exact
          (refl, omega (int_laws, s.available), λ e. omega (int_laws, s.available, ap pos_part e)))
      (λ lt le. absurd (omega (arith, s.available, neg)))
      (λ lt le. absurd (omega (arith, s.available, neg)))
