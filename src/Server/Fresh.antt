-- ===== src/Server/Fresh.antt =====
-- What an event of agente_c/src/server.c does to the map of connections: the one of the event is written
-- and the new ones are added, and the others stay ready.
use tp_sist_op.Prelude.{
  ℕ, Bool, true, false, not, List, [], ◌∷◌, Option, none, some, ◌||◌, ◌≡◌, ◌≢◌, ◌⊎◌, subst, refl,
  ap, ◌∙◌, inl, inr, arith, if◌then◌else◌, ◌==◌, ==_iff, Bool-cases, Option-cases, map, All,
}
use tp_sist_op.Server.Epoll.{
  ConnType, tcp_public_listen, tcp_local_listen, udp_discovery, tcp_client_remote, tcp_client_local,
  tcp_outgoing, Socket, Live, ConnectCalls, AcceptCalls, new_socket, put, connect_remote_node,
  add_opened, accept_one, handle_accept, accepted_type, is_refused,
}
use tp_sist_op.Server.Worker.{add_all}
use tp_sist_op.Server.Armed.{is_outgoing, covers, IsReady, IsBusy, Holds, AllHold, put-AllHold}

-- Nobody has a connection, or a worker has this one.
abbrev pub nobody : ℕ → Option ConnType
nobody k = none

abbrev pub taken_by : Option ConnType → ℕ → ℕ → Option ConnType
taken_by t conn k = if k == conn then t else none

pub put_same : (conn : ℕ) (o : Option Socket) (live : Live) → put conn o live conn ≡ o
unfolding put
put_same conn o live = let e : (conn == conn) ≡ true = ground arith in rw e refl

-- The connection of the event is left to nobody.
pub put_end-AllHold :
    (late : ℕ → Bool) (t : Option ConnType) (conn : ℕ) (o : Option Socket) (live : Live)
    → Holds (late conn) none o
    → AllHold late (taken_by t conn) live
    → AllHold late nobody (put conn o live)
unfolding put
put_end-AllHold late t conn o live e h k = elim (Bool-cases (k == conn)) [
  | inl same ↦ rw same (rw ((==_iff k conn).0 same) e)
  | inr other ↦ rw other (subst (λ b. Holds (late k) (if b then t else none) (live k)) other (h k))
]

pub put_own-AllHold :
    (late : ℕ → Bool) (t : Option ConnType) (conn : ℕ) (o : Option Socket) (live : Live)
    → Holds (late conn) t o
    → AllHold late (taken_by t conn) live
    → AllHold late (taken_by t conn) (put conn o live)
put_own-AllHold late t conn o live h all =
    put-AllHold late (taken_by t conn) conn o live
      (let e : (conn == conn) ≡ true = ground arith in rw e h) all

-- The connection of the event gets another type.
pub retype-AllHold :
    (late : ℕ → Bool) (t t' : ConnType) (conn : ℕ) (s : Socket) (live : Live)
    → IsBusy t' s
    → AllHold late (taken_by (some t) conn) live
    → AllHold late (taken_by (some t') conn) (put conn (some s) live)
unfolding put
retype-AllHold late t t' conn s live b h k = elim (Bool-cases (k == conn)) [
  | inl same ↦ rw same b
  | inr other ↦
      rw other (subst (λ c. Holds (late k) (if c then some t else none) (live k)) other (h k))
]

new_outgoing-IsReady :
    (late : Bool)
    → IsReady late (new_socket tcp_outgoing (record { read = false; write = true; oneshot = true }))
unfolding new_socket covers is_outgoing
new_outgoing-IsReady late = record {
  buffered = ((omega arith, omega arith), omega arith);
  idle = λ o. refl;
  covered = λ o. refl;
}

abbrev outgoing_socket : Socket
outgoing_socket = new_socket tcp_outgoing (record { read = false; write = true; oneshot = true })

connect_cases :
    (c : ConnectCalls)
    → (connect_remote_node c ≡ none)
      ⊎ ((k : ℕ) × (c.malloc ≡ some k) × (connect_remote_node c ≡ some (k, outgoing_socket)))
unfolding connect_remote_node
connect_cases c = elim (Bool-cases (not c.socket || is_refused c.connect)) [
  | inl bad ↦ inl (rw bad refl)
  | inr good ↦ elim (Option-cases c.malloc) [
    | inl e ↦ inl (rw good (rw e refl))
    | inr (k, e) ↦ elim (Bool-cases c.epoll_add) [
      | inl added ↦ inr (k, e, rw good (rw e (rw added refl)))
      | inr failed ↦ inl (rw good (rw e (rw failed refl)))
    ]
  ]
]

new_client-IsReady :
    (late : Bool) (type : ConnType)
    → is_outgoing type ≡ false
    → IsReady late (new_socket type (record { read = true; write = false; oneshot = true }))
unfolding new_socket covers
new_client-IsReady true type f = record {
  buffered = ((omega arith, omega arith), omega arith);
  idle = λ o. refl;
  covered = λ o. rw f refl;
}
new_client-IsReady false type f = record {
  buffered = ((omega arith, omega arith), omega arith);
  idle = λ o. refl;
  covered = λ o. rw f refl;
}

accepted_cases :
    (type : ConnType)
    → (accepted_type type ≡ none)
      ⊎ ((u : ConnType) × (accepted_type type ≡ some u) × (is_outgoing u ≡ false))
unfolding accepted_type is_outgoing
accepted_cases tcp_public_listen = inr (tcp_client_remote, refl, refl)
accepted_cases tcp_local_listen = inr (tcp_client_local, refl, refl)
accepted_cases udp_discovery = inl refl
accepted_cases tcp_client_remote = inl refl
accepted_cases tcp_client_local = inl refl
accepted_cases tcp_outgoing = inl refl

-- Nothing is accepted, or a new connection that is ready.
accept_cases :
    (late : ℕ → Bool) (type : ConnType) (c : AcceptCalls) (live : Live)
    → (accept_one type c live ≡ live)
      ⊎ ((k : ℕ) × (s : Socket) × (c.malloc ≡ some k)
          × IsReady (late k) s
          × (accept_one type c live ≡ put k (some s) live))
unfolding accept_one
accept_cases late type c live = elim (accepted_cases type) [
  | inl e ↦ inl (rw (e, accept_one) refl)
  | inr (u, e, f) ↦ elim (Option-cases c.malloc) [
    | inl m ↦ inl (rw (e, accept_one) (rw m refl))
    | inr (k, m) ↦ elim (Bool-cases c.epoll_add) [
      | inl added ↦
          inr (k, _, m, new_client-IsReady (late k) u f, rw (e, accept_one) (rw m (rw added refl)))
      | inr failed ↦ inl (rw (e, accept_one) (rw m (rw failed refl)))
    ]
  ]
]

module _ (late : ℕ → Bool) (t : Option ConnType) (conn : ℕ) where
  abbrev pub Held : Live → Type 0
  Held = AllHold late (taken_by t conn)

  not_own : (o : Option ℕ) (k : ℕ) → o ≢ some conn → o ≡ some k → (k == conn) ≡ false
  not_own o k fresh e = elim (Bool-cases (k == conn)) [
    | inl same ↦ absurd (fresh (e ∙ ap some ((==_iff k conn).0 same)))
    | inr other ↦ other
  ]

  put_fresh-Held :
      (k : ℕ) (s : Socket) (live : Live)
      → (k == conn) ≡ false
      → IsReady (late k) s
      → Held live
      → Held (put k (some s) live)
  put_fresh-Held k s live other r h =
      put-AllHold late (taken_by t conn) k (some s) live (rw other r) h

  add_opened-Held :
      (c : ConnectCalls) (live : Live)
      → c.malloc ≢ some conn
      → Held live
      → Held (add_opened (connect_remote_node c) live)
  unfolding add_opened
  add_opened-Held c live fresh h = elim (connect_cases c) [
    | inl e ↦ rw e h
    | inr (k, e, opened) ↦ rw opened (
        put_fresh-Held k outgoing_socket live (not_own c.malloc k fresh e)
          (new_outgoing-IsReady (late k)) h)
  ]

  accept_one-Held :
      (type : ConnType) (c : AcceptCalls) (live : Live)
      → c.malloc ≢ some conn
      → Held live
      → Held (accept_one type c live)
  unfolding accept_one
  accept_one-Held type c live fresh h = elim (accept_cases late type c live) [
    | inl e ↦ rw e h
    | inr (k, s, e, ready, accepted) ↦
        rw accepted (put_fresh-Held k s live (not_own c.malloc k fresh e) ready h)
  ]

  pub handle_accept-Held :
      (type : ConnType) (calls : List AcceptCalls) (live : Live)
      → All (λ c. c.malloc ≢ some conn) calls
      → Held live
      → Held (handle_accept type calls live)
  unfolding handle_accept
  handle_accept-Held type [] live fresh h = h
  handle_accept-Held type (c ∷ calls) live fresh h =
      handle_accept-Held type calls _ fresh.1 (accept_one-Held type c live fresh.0 h)

  pub add_all-Held :
      (calls : List ConnectCalls) (live : Live)
      → All (λ c. c.malloc ≢ some conn) calls
      → Held live
      → Held (add_all (map connect_remote_node calls) live)
  unfolding add_all
  add_all-Held [] live fresh h = h
  add_all-Held (c ∷ calls) live fresh h =
      add_all-Held calls _ fresh.1 (add_opened-Held c live fresh.0 h)
