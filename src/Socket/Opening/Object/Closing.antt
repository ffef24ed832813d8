-- ===== src/Socket/Opening/Object/Closing.antt =====
-- The descriptors of a round of `main` in src/aprs_wx.cpp: which it gets, and which it closes.
use aprs_wx.Prelude.{
  Bool-cases, Bytes, Ensures, Ensures->>=, Ensures-map, Ensures-next, List, Option, [], ap, arith,
  if◌then◌else◌, inl, inr, length, map, none, ok, refl, some, sym, take, take-append, true, ℕ, ℤ,
  ◌++◌, ◌+◌, ◌∙◌, ◌∷◌, ◌≡◌,
}
use aprs_wx.Socket.Object.{Socket, close, connect}
use aprs_wx.Socket.Object.World.Owned.{connect-fd}
use aprs_wx.Socket.Opening.{Login, Opened, is_rejected, log_in, open_connection}
use aprs_wx.Socket.Opening.Object.{
  Connecting, Holding, close_object, end_of_round, new_object, on_line, on_search, open_object,
  try_object,
}
use aprs_wx.Socket.Peers.{Search, is_held}
use aprs_wx.Socket.Opening.Object.Forgetting.{
  attempt_of, closed-close_object, forget, length-close_object, try_object-try_servers,
}
use mathlib.Core.List.{append-nil, append_assoc}
use aprs_wx.Socket.Receive.{Received, get_packet}

-- The descriptors that calls of `connect` return.
abbrev returned : Option Search → List ℤ
returned none = []
returned (some r) = if is_held r.sock_fd then r.sock_fd ∷ [] else []

abbrev pub fds_of : List Connecting → List ℤ
fds_of [] = []
fds_of (c ∷ cs) = returned c.search ++ fds_of cs

abbrev held_of : Socket → List ℤ
held_of s = if is_held s.sock_fd then s.sock_fd ∷ [] else []

-- The calls of `connect` that are made, with the descriptors: those that they return are closed, or held.
record Accounts (cs : List Connecting) (h : Holding) (x : Opened × Holding) : Type 0 where
  used : List Connecting
  rest : List Connecting
  parts : cs ≡ used ++ rest
  counted : x.1.closed ++ held_of x.1.object ≡ h.closed ++ fds_of used
  open_held : x.0.is_open ≡ is_held x.1.object.sock_fd
  calls : x.0.closed + 1 ≡ length h.closed + length used

abbrev LoggedIn : ℕ → Opened → Type 0
LoggedIn n o = (o.is_open ≡ true) × (o.closed ≡ n)

log_in-LoggedIn : (login : Login) (n : ℕ) (g : Received) → Ensures (LoggedIn n) (log_in login n g)
unfolding log_in
log_in-LoggedIn login n g =
    Ensures-next (LoggedIn n) (get_packet g.later g.wait_time) _ (λ answer. (refl, refl))

module _ (c : Connecting) (r : Search) (s : Socket) (found : c.search ≡ some r)
    (same : s.sock_fd ≡ r.sock_fd) where
  returned-held : returned c.search ≡ held_of s
  returned-held = rw found (rw same)

  -- The last call of `connect`.
  Accounts-last :
      (cs : List Connecting) (h : Holding) (o : Opened)
      → o.is_open ≡ is_held r.sock_fd
      → o.closed ≡ length h.closed
      → Accounts (c ∷ cs) h (o, record h { object = s })
  Accounts-last cs h o e n = record {
    used = c ∷ [];
    rest = cs;
    parts = refl;
    counted = ap (◌++◌ h.closed) (sym (append-nil (returned c.search) ∙ returned-held));
    open_held = e ∙ ap is_held (sym same);
    calls = omega (arith, n);
  }

  -- A call whose server is rejected.
  Accounts-again :
      (cs : List Connecting) (h : Holding) (x : Opened × Holding)
      → is_held r.sock_fd ≡ true
      → Accounts cs (close_object (record h { object = s })) x
      → Accounts (c ∷ cs) h x
  Accounts-again cs h x holds a =
      let held : is_held s.sock_fd ≡ true = rw same holds in
      let closed = closed-close_object (record h { object = s }) held in
      let here : returned c.search ≡ s.sock_fd ∷ [] = returned-held ∙ rw held in
      record {
        used = c ∷ a.used;
        rest = a.rest;
        parts = ap (◌∷◌ c) a.parts;
        counted =
            a.counted
            ∙ ap (λ (l : List ℤ). l ++ fds_of a.used) closed
            ∙ append_assoc h.closed (s.sock_fd ∷ []) (fds_of a.used)
            ∙ ap (λ (l : List ℤ). h.closed ++ (l ++ fds_of a.used)) (sym here);
        open_held = a.open_held;
        calls = omega (arith, a.calls, length-close_object (record h { object = s }) held);
      }

module _ (login : Login) (c : Connecting) (cs : List Connecting) where
  -- The account of all later rounds.
  abbrev Accounted : Type 0
  Accounted =
      (packet : Bytes) (h : Holding) (w : ℕ)
      → Ensures (Accounts cs h) (try_object login cs packet h w)

  on_line-Accounts :
      (r : Search) (s : Socket) (h : Holding) (g : Received)
      → Accounted
      → c.search ≡ some r
      → s.sock_fd ≡ r.sock_fd
      → is_held r.sock_fd ≡ true
      → Ensures
          (Accounts (c ∷ cs) h)
          (on_line (try_object login cs) login (record h { object = s }) g)
  unfolding on_line
  on_line-Accounts r s h g later found same holds = elim (Bool-cases (is_rejected g.packet)) [
    | inl bad ↦ rw bad (
        Ensures-map
          (try_object login cs g.packet (close_object (record h { object = s })) g.wait_time)
          (later g.packet (close_object (record h { object = s })) g.wait_time)
          (λ x a. Accounts-again c r s found same cs h x holds a))
    | inr good ↦ rw good (
        Ensures->>= (LoggedIn (length h.closed)) (Accounts (c ∷ cs) h)
          (log_in login (length h.closed) g) (λ (o : Opened). ok (o, record h { object = s }))
          (log_in-LoggedIn login (length h.closed) g)
          (λ o e. Accounts-last c r s found same cs h o (e.0 ∙ sym holds) e.1))
  ]

  on_search-Accounts :
      (packet : Bytes) (h : Holding) (w : ℕ) (o : Option Search)
      → Accounted
      → c.search ≡ o
      → Ensures (Accounts (c ∷ cs) h) (on_search (try_object login cs) login c packet h w o)
  unfolding on_search connect
  on_search-Accounts packet h w none later found = tt
  on_search-Accounts packet h w (some r) later found =
      let s = connect (some c.no_delay) r h.object in
      let same : s.sock_fd ≡ r.sock_fd = connect-fd (some c.no_delay) r h.object in
      elim (Bool-cases (is_held r.sock_fd)) [
        | inl holds ↦
            rw (same, holds)
              (Ensures-next (Accounts (c ∷ cs) h) (get_packet c.events w)
                (on_line (try_object login cs) login (record h { object = s }))
                (λ g. on_line-Accounts r s h g later found same holds))
        | inr shut ↦ rw (same, shut) (Accounts-last c r s found same cs h _ (sym shut) refl)
      ]

try_object-Accounts :
    (login : Login) (cs : List Connecting) (packet : Bytes) (h : Holding) (w : ℕ)
    → Ensures (Accounts cs h) (try_object login cs packet h w)
unfolding try_object
try_object-Accounts login [] packet h w = tt
try_object-Accounts login (c ∷ cs) packet h w =
    on_search-Accounts login c cs packet h w c.search (try_object-Accounts login cs) refl

-- The end of the round closes what the object holds, once.
closed-end_of_round : (h : Holding) → (end_of_round h).closed ≡ h.closed ++ held_of h.object
unfolding end_of_round close_object close
closed-end_of_round h = elim (Bool-cases (is_held h.object.sock_fd)) [
  | inl holds ↦ rw holds (append-nil _)
  | inr shut ↦ rw (shut, shut) (append-nil _)
]

-- On a new object: each call of `connect` but the last has its server rejected.
abbrev pub Closes : List Connecting → Opened × Holding → Type 0
Closes cs (o, h) =
    ((end_of_round h).closed ≡ fds_of (take (o.closed + 1) cs))
    × (o.is_open ≡ is_held h.object.sock_fd)

Accounts-Closes :
    (cs : List Connecting) (x : Opened × Holding) → Accounts cs new_object x → Closes cs x
Accounts-Closes cs x a =
    let count : x.0.closed + 1 ≡ length a.used = omega (arith, a.calls) in
    let made : take (x.0.closed + 1) cs ≡ a.used =
      ap (λ (k : ℕ). take k cs) count
      ∙ ap (take (length a.used)) a.parts
      ∙ take-append a.used a.rest in
    (closed-end_of_round x.1 ∙ a.counted ∙ ap fds_of (sym made), a.open_held)

-- `openConnection` on a new object comes to what it comes to without the object. If it returns, the object
-- holds a descriptor exactly if the result is true; and behind the `close` at the end of the round and
-- the destructor, the descriptors that the calls of `connect` have returned are closed, each once and in
-- their order, and no other.
pub open_object-Closes :
    (login : Login) (cs : List Connecting)
    → (forget (open_object login cs) ≡ open_connection login (map attempt_of cs))
      × Ensures (Closes cs) (open_object login cs)
unfolding open_object open_connection
open_object-Closes login cs = (
  try_object-try_servers login cs [] new_object 0,
  Ensures-map (try_object login cs [] new_object 0) (try_object-Accounts login cs [] new_object 0)
      (Accounts-Closes cs),
)
