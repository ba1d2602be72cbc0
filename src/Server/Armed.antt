-- ===== src/Server/Armed.antt =====
-- No connection is left behind by the workers of agente_c/src/server.c: each is registered for what it
-- waits for, between events and after each of them.
use tp_sist_op.Prelude.{
  ℕ, ◌+◌, ◌<◌, Bool, true, false, not, List, [], ◌∷◌, Option, none, some, ◌&&◌, ◌||◌, ◌≡◌, refl,
  inl, inr, arith, if◌then◌else◌, ◌==◌, ==_iff, subst, leb, ltb, length, Bool-cases, Option-cases,
}
use tp_sist_op.Manager.{ResourceManager, Sent}
use tp_sist_op.Manager.NodeList.{buff_size}
use tp_sist_op.Server.{Connection, enqueue_write}
use tp_sist_op.Server.Stream.{IsBuffered, enqueue_write-pending}
use tp_sist_op.Server.Epoll.{
  ConnType, tcp_public_listen, tcp_local_listen, udp_discovery, tcp_client_remote, tcp_client_local,
  tcp_outgoing, Mask, Socket, Live, conn_uses_oneshot, post, put, on_some, change, deliver,
  formatted,
}
use tp_sist_op.Server.Worker.{Agent, call_manager, free_conn}

unfoldable pub is_outgoing : ConnType → Bool
is_outgoing tcp_outgoing = true
is_outgoing tcp_public_listen = false
is_outgoing tcp_local_listen = false
is_outgoing udp_discovery = false
is_outgoing tcp_client_remote = false
is_outgoing tcp_client_local = false

-- What a one-shot connection must be registered for: reading, unless its handshake goes on, and writing,
-- if its handshake goes on or its buffer is not empty.
unfoldable pub covers : ConnType → ℕ → Option Mask → Bool
unfolding is_outgoing
covers type write_len none = false
covers type write_len (some k) =
    k.oneshot
    && (k.read || is_outgoing type)
    && (k.write || not (is_outgoing type || ltb 0 write_len))

-- Both buffers are within their arrays.
abbrev pub IsWithin : Connection → Type 0
IsWithin c = IsBuffered c × (length c.read_buf < buff_size)

-- The bytes that wait, as far as a registration must tell of them: none if a registration was missed.
abbrev pub waiting : Bool → ℕ → ℕ
waiting late write_len = if late then 0 else write_len

-- A connection between two events; `late` if an `EPOLL_CTL_MOD` of `enqueue_write` failed on it.
pub record IsReady (late : Bool) (s : Socket) : Type 0 where
  pub buffered : IsWithin s.buffers
  pub idle : conn_uses_oneshot s.type ≡ true → s.in_handler ≡ false
  pub covered :
      conn_uses_oneshot s.type ≡ true
      → covers s.type (waiting late (length s.buffers.write_buf)) s.armed ≡ true

-- The connection of the event that is handled, with its type.
pub record IsBusy (type : ConnType) (s : Socket) : Type 0 where
  pub buffered : IsWithin s.buffers
  pub typed : s.type ≡ type

abbrev pub Holds : Bool → Option ConnType → Option Socket → Type 0
Holds late busy none = Unit
Holds late (some type) (some s) = IsBusy type s
Holds late none (some s) = IsReady late s

pub choose :
    {A : Type 0} (P : A → Type 0) (b : Bool) (x y : A)
    → (b ≡ true → P x)
    → (b ≡ false → P y)
    → P (if b then x else y)
choose P true x y h k = h refl
choose P false x y h k = k refl

-- The three ways that `enqueue_write` goes.
pub post_cases :
    (P : Socket → Type 0) (ctl : Bool) (msg : List ℕ) (s : Socket)
    → P s
    → ((s.in_handler || not ctl) ≡ true → P (record s { buffers = enqueue_write msg s.buffers }))
    → ((s.in_handler || not ctl) ≡ false
        → P (record s {
          buffers = enqueue_write msg s.buffers;
          armed = some (record { read = true; write = true; oneshot = true });
        }))
    → P (post ctl msg s)
unfolding post
post_cases P ctl msg s full kept armed =
    choose P (leb buff_size (length s.buffers.write_buf + length msg)) _ _ (λ e. full)
      (λ e. choose P (s.in_handler || not ctl) _ _ kept armed)

pub covers_all :
    (type : ConnType) (n : ℕ)
    → covers type n (some (record { read = true; write = true; oneshot = true })) ≡ true
unfolding covers
covers_all type n = refl

enqueue_write-IsWithin :
    (msg : List ℕ) (c : Connection) → IsWithin c → IsWithin (enqueue_write msg c)
enqueue_write-IsWithin msg c h =
    ((enqueue_write-pending msg c h.0).0, unfold enqueue_write in ground arith)

post-IsReady :
    (late ctl : Bool) (msg : List ℕ) (s : Socket)
    → (ctl ≡ false → late ≡ true)
    → IsReady late s
    → IsReady late (post ctl msg s)
post-IsReady late ctl msg s shown r =
    let b = enqueue_write-IsWithin msg s.buffers r.buffered in
    post_cases (IsReady late) ctl msg s r
      (λ kept. record {
        buffered = b;
        idle = r.idle;
        covered = λ o.
            let failed : ctl ≡ false = ground (arith, r.idle o) in
            let before = r.covered o in
            rw (shown failed) (
              subst (λ l. covers s.type (waiting l (length s.buffers.write_buf)) s.armed ≡ true)
                (shown failed) before);
      })
      (λ armed. record { buffered = b; idle = r.idle; covered = λ o. covers_all s.type _ })

covers-none :
    (type : ConnType) (n : ℕ) (o : Option Mask) → covers type n o ≡ true → covers type 0 o ≡ true
unfolding covers
covers-none type n none h = h
covers-none type n (some k) h = ground arith

pub covers-less :
    (type : ConnType) (late : Bool) (n : ℕ) (o : Option Mask)
    → covers type (waiting late n) o ≡ true
    → covers type 0 o ≡ true
covers-less type late n o h = covers-none type (waiting late n) o h

pub post-in_handler :
    (ctl : Bool) (msg : List ℕ) (s : Socket) → (post ctl msg s).in_handler ≡ s.in_handler
post-in_handler ctl msg s =
    post_cases (λ u. u.in_handler ≡ s.in_handler) ctl msg s refl (λ kept. refl) (λ armed. refl)

-- To miss more asks for less.
pub later-IsReady :
    (late late' : Bool) (s : Socket)
    → (late ≡ true → late' ≡ true)
    → IsReady late s
    → IsReady late' s
later-IsReady late true s h r = record {
  buffered = r.buffered;
  idle = r.idle;
  covered = λ o. covers-none s.type _ s.armed (r.covered o);
}
later-IsReady false false s h r = r
later-IsReady true false s h r = absurd (let e = h refl in cc)

post-IsBusy :
    (type : ConnType) (ctl : Bool) (msg : List ℕ) (s : Socket)
    → IsBusy type s
    → IsBusy type (post ctl msg s)
post-IsBusy type ctl msg s r =
    let b = enqueue_write-IsWithin msg s.buffers r.buffered in
    post_cases (IsBusy type) ctl msg s r (λ kept. record { buffered = b; typed = r.typed })
      (λ armed. record { buffered = b; typed = r.typed })

abbrev pub AllHold : (ℕ → Bool) → (ℕ → Option ConnType) → Live → Type 0
AllHold late busy live = (k : ℕ) → Holds (late k) (busy k) (live k)

-- Every failure of `EPOLL_CTL_MOD` in `enqueue_write` is counted.
abbrev pub Records : (ℕ → Bool) → (ℕ → Bool) → Type 0
Records late ctl = (k : ℕ) → ctl k ≡ false → late k ≡ true

pub put-AllHold :
    (late : ℕ → Bool) (busy : ℕ → Option ConnType) (conn : ℕ) (o : Option Socket) (live : Live)
    → Holds (late conn) (busy conn) o
    → AllHold late busy live
    → AllHold late busy (put conn o live)
unfolding put
put-AllHold late busy conn o live h all k = elim (Bool-cases (k == conn)) [
  | inl same ↦ rw same (rw ((==_iff k conn).0 same) h)
  | inr other ↦ rw other (all k)
]

module _ (late : ℕ → Bool) (busy : ℕ → Option ConnType) (ctl : ℕ → Bool)
    (shown : Records late ctl) where
  post-Holds :
      (conn : ℕ) (msg : List ℕ) (o : Option Socket)
      → Holds (late conn) (busy conn) o
      → Holds (late conn) (busy conn) (on_some (post (ctl conn) msg) o)
  unfolding on_some
  post-Holds conn msg none h = h
  post-Holds conn msg (some s) h = elim (Option-cases (busy conn)) [
    | inl e ↦ rw e (
        post-IsReady (late conn) (ctl conn) msg s (shown conn)
          (subst (λ b. Holds (late conn) b (some s)) e h))
    | inr (type, e) ↦
        rw e (post-IsBusy type (ctl conn) msg s (subst (λ b. Holds (late conn) b (some s)) e h))
  ]

  deliver-AllHold :
      (out : List Sent) (live : Live)
      → AllHold late busy live
      → AllHold late busy (deliver ctl out live)
  unfolding deliver change
  deliver-AllHold [] live h = h
  deliver-AllHold (s ∷ older) live h =
      let h' = deliver-AllHold older live h in
      put-AllHold late busy s.conn _ (deliver ctl older live)
        (post-Holds s.conn (formatted s.msg) (deliver ctl older live s.conn) (h' s.conn)) h'

  pub call_manager-AllHold :
      (f : ResourceManager → ResourceManager) (a : Agent)
      → AllHold late busy a.live
      → AllHold late busy (call_manager ctl f a).live
  unfolding call_manager
  call_manager-AllHold f a h = deliver-AllHold (f a.manager).out a.live h

  pub free_conn-AllHold :
      (f : ℕ → ResourceManager → ResourceManager) (conn : ℕ) (a : Agent)
      → AllHold late busy a.live
      → AllHold late busy (free_conn ctl f conn a).live
  unfolding free_conn
  free_conn-AllHold f conn a h =
      put-AllHold late busy conn none _ tt (call_manager-AllHold (f conn) a h)
