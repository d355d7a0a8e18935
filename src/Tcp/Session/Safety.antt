-- ===== src/Tcp/Session/Safety.antt =====
-- http_server/tcp_server.c: which histories of a connection use memory only while it is the program's.
use pico_common.Common.{
  ℕ, ◌≤◌, ◌∙◌, ◌+◌, ◌-◌, ◌%◌, ◌^◌, ◌≡◌, refl, List, [], ◌∷◌, ◌++◌, Bool, true, false, Option, none,
  some, arith, ◌⊎◌, inl, inr, if◌then◌else◌, ◌>>=◌, leb, length, take, copy_partial, Bool-cases,
}
use pico_common.Tcp.Session.{
  Err, ok, abrt, is_ok, is_abrt, Con, Session, Tcp, Step, Handler, Event, acked, arrived,
  peer_closed, timed_out, broken, tcp_close_client_connection, tcp_server_send_data,
  tcp_server_sent, after_data, receive, tcp_server_recv, tcp_server_poll_event, on_event, run,
}

-- The connection is open, and all of its memory is the program's.
pub record IsOpen (s : Session) : Type 0 where
  pub state : Con
  pub held : s.con ≡ some state
  pub pcb_held : s.pcb ≡ true
  pub listens : s.callbacks ≡ true

-- The connection is open and every packet was freed, or nothing will be reported of it any more and all packets
-- were freed but at most one.
abbrev pub IsSafe : Session → Type 0
IsSafe s = (IsOpen s × (s.packets ≡ 0)) ⊎ ((s.callbacks ≡ false) × (s.packets ≤ 1))

-- A step that faults nowhere, and leaves a session with the property.
abbrev pub Yields : (Session → Type 0) → Step → Type 0
Yields P r = (s : Session) × (e : Err) × (r ≡ some (s, e)) × P s

-- An open connection, with as many packets that were not freed as before.
abbrev pub Follows : Session → Session → Type 0
Follows s s' = IsOpen s' × (s'.packets ≡ s.packets)

-- A handler that only writes: given any packet in the buffer, it leaves an open connection open.
abbrev pub KeepsOpen : List ℕ → Handler → Type 0
KeepsOpen buffer h =
    (p : List ℕ) (n : ℕ) (s : Session)
    → IsOpen s
    → Yields (Follows s) (h (copy_partial p (length buffer - 1) buffer) n s)

packets-IsOpen : (s : Session) (n : ℕ) → IsOpen s → IsOpen (record s { packets = n })
packets-IsOpen s n o = record {
  state = o.state;
  held = o.held;
  pcb_held = o.pcb_held;
  listens = o.listens;
}

close-IsSafe :
    (env : Tcp) (s : Session) (e : Err)
    → IsOpen s
    → s.packets ≤ 1
    → Yields IsSafe (tcp_close_client_connection env s e)
unfolding tcp_close_client_connection
close-IsSafe env s e o few = (
  record s { con = none; pcb = false; callbacks = false },
  if is_ok env.close_err then e else abrt,
  rw (o.held, o.pcb_held),
  inr (refl, few),
)

-- Writing leaves the connection open, whether lwIP takes the bytes or not.
pub tcp_server_send_data-IsOpen :
    (env : Tcp) (s : Session) (bytes : List ℕ)
    → IsOpen s
    → Yields (Follows s) (tcp_server_send_data env s bytes)
unfolding tcp_server_send_data
tcp_server_send_data-IsOpen env s bytes o =
    let con : Con = record o.state {
      written_len = (o.state.written_len + length bytes) % 2 ^ 32;
    } in
    let taken = take (length bytes % 2 ^ 16) bytes in
    let err = env.write_err (length bytes % 2 ^ 16) in
    (
      record s {
        con = some con;
        written = if is_ok err then s.written ++ taken ∷ [] else s.written;
      },
      err,
      rw (o.held, o.pcb_held),
      (record { state = con; held = refl; pcb_held = o.pcb_held; listens = o.listens }, refl),
    )

sent-IsSafe :
    (env : Tcp) (s : Session) (n : ℕ)
    → IsOpen s
    → s.packets ≡ 0
    → Yields IsSafe (tcp_server_sent env s n)
unfolding tcp_server_sent
sent-IsSafe env s n o settled =
    rw (o.held, ◌>>=◌) (cases (leb con.written_len con.sent_len) con.dont_close_on_send_finish)
  where
    con : Con
    con = record o.state { sent_len = (o.state.sent_len + n) % 2 ^ 32 }

    s' : Session
    s' = record s { con = some con }

    open' : IsOpen s'
    open' = record { state = con; held = refl; pcb_held = o.pcb_held; listens = o.listens }

    cases :
        (b c : Bool)
        → Yields IsSafe (
            if b
            then if c then tcp_close_client_connection env s' ok else some (s', ok)
            else some (s', ok))
    cases true true = close-IsSafe env s' ok open' (omega (arith, settled))
    cases true false = (s', ok, refl, inl (open', settled))
    cases false c = (s', ok, refl, inl (open', settled))

after_data-IsSafe :
    (env : Tcp) (n : ℕ) (s : Session) (e : Err)
    → IsOpen s
    → s.packets ≡ 1
    → Yields IsSafe (after_data env n (s, e))
unfolding after_data
after_data-IsSafe env n s e o one = elim (Bool-cases (is_ok e)) [
  | inl fine ↦ (
    record s { received = s.received + n; packets = s.packets - 1 },
    ok,
    rw (fine, o.pcb_held),
    inl (
      record { state = o.state; held = o.held; pcb_held = o.pcb_held; listens = o.listens },
      omega (arith, one),
    ),
  )
  | inr bad ↦ rw bad (close-IsSafe env s e o (omega (arith, one)))
]

receive-IsSafe :
    (env : Tcp) (h : Handler) (buffer : List ℕ) (s : Session) (p : List ℕ)
    → KeepsOpen buffer h
    → IsOpen s
    → s.packets ≡ 1
    → Yields IsSafe (receive env (some h) buffer s p)
unfolding receive
receive-IsSafe env h buffer s p keeps o one =
    let (s', e, went, (o', same)) = keeps p (length (take (length buffer - 1) p)) s o in
    rw (went, ◌>>=◌) (after_data-IsSafe env (length p) s' e o' (same ∙ one))

-- A report that is made, the callbacks being registered.
Yields-if :
    {P : Session → Type 0} (b : Bool) (x y : Step)
    → b ≡ true
    → Yields P x
    → Yields P (if b then x else y)
Yields-if true x y e h = h
Yields-if false x y e h = cc

-- A report that lwIP itself frees the control block with is not safe: such are left out.
abbrev pub IsOrdinary : Event → Type 0
IsOrdinary (acked n) = Unit {0}
IsOrdinary (arrived p) = Unit {0}
IsOrdinary peer_closed = Unit {0}
IsOrdinary timed_out = Unit {0}
IsOrdinary (broken e) = is_abrt e ≡ true

on_event-IsSafe :
    (env : Tcp) (h : Handler) (buffer : List ℕ) (s : Session) (ev : Event)
    → KeepsOpen buffer h
    → IsOrdinary ev
    → IsSafe s
    → Yields IsSafe (on_event env (some h) buffer s ev)
unfolding on_event
on_event-IsSafe env h buffer s (acked n) keeps ord (inl (o, settled)) =
    Yields-if s.callbacks (tcp_server_sent env s n) (some (s, ok)) o.listens
      (sent-IsSafe env s n o settled)
on_event-IsSafe env h buffer s (arrived []) keeps ord (inl (o, settled)) = (
  record s { packets = s.packets + 1 - 1 },
  ok,
  rw o.listens refl,
  inl (packets-IsOpen s (s.packets + 1 - 1) o, omega (arith, settled)),
)
on_event-IsSafe env h buffer s (arrived (b ∷ bs)) keeps ord (inl (o, settled)) =
    Yields-if s.callbacks (tcp_server_recv env (some h) buffer s (some (b ∷ bs))) (some (s, ok))
      o.listens
      (receive-IsSafe env h buffer (record s { packets = s.packets + 1 }) (b ∷ bs) keeps
        (packets-IsOpen s (s.packets + 1) o) (omega (arith, settled)))
on_event-IsSafe env h buffer s peer_closed keeps ord (inl (o, settled)) =
    Yields-if s.callbacks (tcp_server_recv env (some h) buffer s none) (some (s, ok)) o.listens
      (close-IsSafe env s ok o (omega (arith, settled)))
on_event-IsSafe env h buffer s timed_out keeps ord (inl (o, settled)) =
    Yields-if s.callbacks (tcp_server_poll_event env s) (some (s, ok)) o.listens
      (close-IsSafe env s ok o (omega (arith, settled)))
on_event-IsSafe env h buffer s (broken e) keeps ord (inl (o, settled)) = (
  record s { pcb = false; callbacks = false },
  e,
  rw (o.listens, ord),
  inr (refl, omega (arith, settled)),
)
on_event-IsSafe env h buffer s (acked n) keeps ord (inr (off, few)) =
    (s, ok, rw off, inr (off, few))
on_event-IsSafe env h buffer s (arrived p) keeps ord (inr (off, few)) =
    (s, ok, rw off, inr (off, few))
on_event-IsSafe env h buffer s peer_closed keeps ord (inr (off, few)) =
    (s, ok, rw off, inr (off, few))
on_event-IsSafe env h buffer s timed_out keeps ord (inr (off, few)) =
    (s, ok, rw off, inr (off, few))
on_event-IsSafe env h buffer s (broken e) keeps ord (inr (off, few)) =
    (s, ok, rw off, inr (off, few))

abbrev pub AllOrdinary : List Event → Type 0
AllOrdinary [] = Unit {0}
AllOrdinary (e ∷ es) = IsOrdinary e × AllOrdinary es

-- From an open connection without packets that were not freed, or one that is over with at most one, no sequence
-- of acknowledgements, packets, time-outs, closes by the peer and aborts makes the callbacks use memory that is
-- not the program's, whatever lwIP answers, provided that the handler of the data leaves an open connection open
-- and frees no packet; and then every packet was freed where the connection is open, and else all but at most one.
pub run-IsSafe :
    (env : Tcp) (h : Handler) (buffer : List ℕ) (events : List Event) (s : Session)
    → KeepsOpen buffer h
    → AllOrdinary events
    → IsSafe s
    → (s' : Session) × (run env (some h) buffer s events ≡ some s') × IsSafe s'
unfolding run
run-IsSafe env h buffer [] s keeps ord safe = (s, refl, safe)
run-IsSafe env h buffer (e ∷ es) s keeps ord safe =
    let (s₁, err, went, safe₁) = on_event-IsSafe env h buffer s e keeps ord.0 safe in
    rw (went, ◌>>=◌) (run-IsSafe env h buffer es s₁ keeps ord.1 safe₁)

-- An error that lwIP reports of an open connection, other than an abort, makes the program close a
-- control block that lwIP has freed.
pub broken_faults :
    (env : Tcp) (h : Option Handler) (buffer : List ℕ) (s : Session) (e : Err) (after : List Event)
    → IsOpen s
    → is_abrt e ≡ false
    → run env h buffer s (broken e ∷ after) ≡ none
unfolding run tcp_close_client_connection
broken_faults env h buffer s e after o not_abort = rw (o.listens, not_abort, o.held)

-- An acknowledgement leaves an open connection open, however much has been sent, where its flag is
-- false, as `tcp_server_accept` makes it.
pub acked_stays_open :
    (env : Tcp) (h : Option Handler) (buffer : List ℕ) (s : Session) (n : ℕ)
    → (o : IsOpen s) → o.state.dont_close_on_send_finish ≡ false
    → Yields IsOpen (on_event env h buffer s (acked n))
unfolding on_event tcp_server_sent
acked_stays_open env h buffer s n o unset =
    let con : Con = record o.state { sent_len = (o.state.sent_len + n) % 2 ^ 32 } in
    let o' : IsOpen (record s { con = some con }) = record {
      state = con;
      held = refl;
      pcb_held = o.pcb_held;
      listens = o.listens;
    } in
    (record s { con = some con }, ok, ground arith, o')
