-- ===== src/Socket/Opening/Object/Forgetting.antt =====
-- `openConnection` on the object comes to what it comes to without the object.
use aprs_wx.Prelude.{
  Bool-cases, Bytes, List, Option, Outcome, [], arith, if◌then◌else◌, inl, inr, length,
  length-append, map, none, ok, refl, some, throws, true, undefined, exits, unfinished, ℕ, ◌++◌,
  ◌+◌, ◌>>=◌, ◌∙◌, ◌∷◌, ◌≡◌,
}
use aprs_wx.Socket.Object.{close, connect}
use aprs_wx.Socket.Opening.{
  Attempt, Login, Opened, connects, is_rejected, log_in, on_greeting, refused, try_servers,
  unresolved,
}
use aprs_wx.Socket.Opening.Object.{
  Connecting, Holding, close_object, on_line, on_search, try_object,
}
use aprs_wx.Socket.Peers.{Search, is_held}
use aprs_wx.Socket.Receive.{Event, Received, get_packet}

-- What the loop over servers sees of a call of `connect`.
abbrev of_search : Option Search → List Event → Attempt
of_search none es = unresolved
of_search (some r) es = if is_held r.sock_fd then connects es else refused

abbrev pub attempt_of : Connecting → Attempt
attempt_of c = of_search c.search c.events

-- The result without the object.
abbrev pub forget : Outcome (Opened × Holding) → Outcome Opened
forget m = m >>= λ x. ok x.0

forget_bind :
    {A : Type 0} (m : Outcome A) (f : A → Outcome (Opened × Holding)) (g : A → Outcome Opened)
    → ((a : A) → forget (f a) ≡ g a)
    → forget (m >>= f) ≡ (m >>= g)
forget_bind (ok a) f g h = h a
forget_bind (throws e) f g h = refl
forget_bind undefined f g h = refl
forget_bind exits f g h = refl
forget_bind unfinished f g h = refl

forget_pair : (m : Outcome Opened) (h : Holding) → forget (m >>= λ (o : Opened). ok (o, h)) ≡ m
forget_pair (ok o) h = refl
forget_pair (throws e) h = refl
forget_pair undefined h = refl
forget_pair exits h = refl
forget_pair unfinished h = refl

pub closed-close_object :
    (h : Holding)
    → is_held h.object.sock_fd ≡ true
    → (close_object h).closed ≡ h.closed ++ h.object.sock_fd ∷ []
unfolding close_object close
closed-close_object h holds = rw holds

pub length-close_object :
    (h : Holding)
    → is_held h.object.sock_fd ≡ true
    → length (close_object h).closed ≡ length h.closed + 1
length-close_object h holds =
    rw (closed-close_object h holds) (length-append h.closed (h.object.sock_fd ∷ []) ∙ omega arith)

module _ (login : Login) (cs : List Connecting) where
  -- The object does what the loop does, for all later rounds.
  abbrev Agrees : Type 0
  Agrees =
      (packet : Bytes) (h : Holding) (w : ℕ)
      → forget (try_object login cs packet h w)
        ≡ try_servers login (map attempt_of cs) packet (length h.closed) w

  on_line-on_greeting :
      (h : Holding) (g : Received)
      → Agrees
      → is_held h.object.sock_fd ≡ true
      → forget (on_line (try_object login cs) login h g)
        ≡ on_greeting
            (λ n v. try_servers login (map attempt_of cs) g.packet n v)
            login
            (length h.closed)
            g
  unfolding on_line on_greeting
  on_line-on_greeting h g agrees holds = elim (Bool-cases (is_rejected g.packet)) [
    | inl bad ↦
        rw bad
          (rw (agrees g.packet (close_object h) g.wait_time) (rw (length-close_object h holds)))
    | inr good ↦ rw good (forget_pair (log_in login (length h.closed) g) h)
  ]

  on_search-try_servers :
      (c : Connecting) (packet : Bytes) (h : Holding) (w : ℕ) (o : Option Search)
      → Agrees
      → forget (on_search (try_object login cs) login c packet h w o)
        ≡ try_servers login (of_search o c.events ∷ map attempt_of cs) packet (length h.closed) w
  unfolding on_search try_servers connect
  on_search-try_servers c packet h w none agrees = refl
  on_search-try_servers c packet h w (some r) agrees = elim (Bool-cases (is_held r.sock_fd)) [
    | inl holds ↦
        rw holds
          (forget_bind (get_packet c.events w) _ _ (λ g. on_line-on_greeting _ g agrees holds))
    | inr shut ↦ rw shut
  ]

pub try_object-try_servers :
    (login : Login) (cs : List Connecting) (packet : Bytes) (h : Holding) (w : ℕ)
    → forget (try_object login cs packet h w)
      ≡ try_servers login (map attempt_of cs) packet (length h.closed) w
unfolding try_object
try_object-try_servers login [] packet h w = unfold try_servers in refl
try_object-try_servers login (c ∷ cs) packet h w =
    on_search-try_servers login cs c packet h w c.search (try_object-try_servers login cs)
