-- ===== src/Socket/Object/World/Owned.antt =====
-- Who owns the descriptors of the objects of `basic_socket` in src/basic_socket.h.
use aprs_wx.Prelude.{
  Bool, Bool-cases, Option, ap, arith, false, inl, inr, negsuc, none, ok, pos, refl, some, true, ℕ,
  ℤ, ◌==◌, ◌∙◌, ◌≡◌, ◌⊎◌,
}
use aprs_wx.Socket.Object.{
  Socket, SocketType, accept, close, connect, move_assign, sock_accept, sock_connect, sock_listen,
  sock_unknown,
}
use aprs_wx.Socket.Object.Flags.{Fcntl, listen}
use aprs_wx.Socket.Object.Queries.{set_status}
use aprs_wx.Socket.Object.World.{
  Gives, Reach, Step, World, accepts_from, assigns, close_fd, closes, connects_to, constructs,
  destroys, fd_of, gives_fresh, gives_none, followed_by, listens_at, no_objects, sets_status,
  shuts_down, unchanged, update,
}
use aprs_wx.Socket.Peers.{Peer, Search, is_held}

-- Every descriptor that an object holds is open, and no other object holds it.
pub record IsOwned (objects : ℕ → Option Socket) (opened : ℕ → Bool) : Type 0 where
  pub held_open : (i n : ℕ) → fd_of (objects i) ≡ pos n → opened n ≡ true
  pub held_once : (i j n : ℕ) → fd_of (objects i) ≡ pos n → fd_of (objects j) ≡ pos n → i ≡ j

-- What a place holds behind an update.
update_cases :
    {A : Type 0} (f : ℕ → A) (i : ℕ) (x : A) (j : ℕ)
    → ((j ≡ i) × (update f i x j ≡ x)) ⊎ (((j == i) ≡ false) × (update f i x j ≡ f j))
update_cases f i x j = elim (Bool-cases (j == i)) [
  | inl same ↦ inl (ground arith, rw same)
  | inr other ↦ inr (other, rw other)
]

-- A place that gets a descriptor of the system, or none.
IsOwned-put :
    {objects : ℕ → Option Socket} {opened opened' : ℕ → Bool} {fd : ℤ} (i : ℕ) (o : Option Socket)
    → IsOwned objects opened
    → Gives opened fd opened'
    → fd_of o ≡ fd
    → IsOwned (update objects i o) opened'
IsOwned-put i o w gives_none e = record {
  held_open = λ j n h. ground (arith, w.held_open j n);
  held_once = λ j k n h h'. ground (arith, w.held_once j k n);
}
IsOwned-put i o w (gives_fresh free) e = record {
  held_open = λ j n h. ground (arith, w.held_open j n);
  held_once = λ j k n h h'. ground (arith, w.held_once j k n, w.held_open j n, w.held_open k n);
}

-- A place that loses its descriptor, which stays open or is closed.
IsOwned-drop :
    {objects : ℕ → Option Socket} {opened : ℕ → Bool} (i : ℕ) (o : Option Socket)
    → IsOwned objects opened
    → is_held (fd_of o) ≡ false
    → IsOwned (update objects i o) opened
IsOwned-drop i o w e = record {
  held_open = λ j n h. ground (arith, w.held_open j n);
  held_once = λ j k n h h'. ground (arith, w.held_once j k n);
}

-- A place that keeps its descriptor.
IsOwned-keep :
    {objects : ℕ → Option Socket} {opened : ℕ → Bool} (i : ℕ) (s s' : Socket)
    → IsOwned objects opened
    → objects i ≡ some s
    → s'.sock_fd ≡ s.sock_fd
    → IsOwned (update objects i (some s')) opened
IsOwned-keep i s s' w here e = record {
  held_open = λ j n h. ground (arith, w.held_open j n, w.held_open i n);
  held_once = λ j k n h h'. ground (arith, w.held_once j k n, w.held_once i k n, w.held_once j i n);
}

IsOwned-shut :
    {objects : ℕ → Option Socket} {opened : ℕ → Bool} (i n : ℕ) (o : Option Socket)
    → IsOwned objects opened
    → fd_of (objects i) ≡ pos n
    → is_held (fd_of o) ≡ false
    → IsOwned (update objects i o) (update opened n false)
IsOwned-shut i n o w here e = record {
  held_open = λ j m h. ground (arith, w.held_open j m, w.held_once i j n);
  held_once = λ j k m h h'. ground (arith, w.held_once j k m);
}

pub fd_cases : (z : ℤ) → ((n : ℕ) × (z ≡ pos n)) ⊎ (is_held z ≡ false)
fd_cases (pos n) = inl (n, refl)
fd_cases (negsuc n) = inr refl

pub close-is_held : (s : Socket) → is_held (close s).0.sock_fd ≡ false
unfolding close
close-is_held s = elim (Bool-cases (is_held s.sock_fd)) [
  | inl open_ ↦ rw open_
  | inr shut ↦ rw shut shut
]

-- A place that loses its descriptor to `close`.
IsOwned-close :
    {objects : ℕ → Option Socket} {opened : ℕ → Bool} (i : ℕ) (s : Socket) (o : Option Socket)
    → IsOwned objects opened
    → objects i ≡ some s
    → is_held (fd_of o) ≡ false
    → IsOwned (update objects i o) (close_fd (close s).1 opened)
unfolding close
IsOwned-close i s o w here e = elim (fd_cases s.sock_fd) [
  | inl (n, open_) ↦ rw open_ (IsOwned-shut i n o w (ap fd_of here ∙ open_) e)
  | inr shut ↦ rw shut (IsOwned-drop i o w e)
]

-- The descriptor of place `j` goes to place `i`.
IsOwned-move :
    {objects : ℕ → Option Socket} {opened : ℕ → Bool} (i j : ℕ) (s s' t t' : Socket)
    → IsOwned objects opened
    → (j == i) ≡ false
    → objects j ≡ some t
    → s'.sock_fd ≡ t.sock_fd
    → t'.sock_fd ≡ negsuc 0
    → IsOwned (update (update objects i (some s')) j (some t')) opened
IsOwned-move i j s s' t t' w apart there e e' = record {
  held_open = λ a n h. ground (arith, w.held_open a n, w.held_open j n);
  held_once = λ a b n h h'. ground (arith, w.held_once a b n, w.held_once a j n, w.held_once j b n);
}

pub accept-fd :
    (k : SocketType) (fd : ℤ) (peer : Peer) (t : Socket) → accept k fd peer ≡ ok t → t.sock_fd ≡ fd
unfolding accept
accept-fd sock_listen fd peer t e = cc
accept-fd sock_unknown fd peer t e = cc
accept-fd sock_connect fd peer t e = cc
accept-fd sock_accept fd peer t e = cc

pub connect-fd : (d : Option ℤ) (r : Search) (s : Socket) → (connect d r s).sock_fd ≡ r.sock_fd
unfolding connect
connect-fd none r s = refl
connect-fd (some d) r s = refl

pub listen-fd :
    (status_flags fd_flags : Fcntl) (sys_listen : ℤ → ℤ → ℤ) (reuse backlog : ℤ) (r : Search)
    (s : Socket)
    → (listen status_flags fd_flags sys_listen reuse backlog r s).object.sock_fd ≡ r.sock_fd
unfolding listen
listen-fd status_flags fd_flags sys_listen reuse backlog r s =
    elim (Bool-cases (is_held r.sock_fd)) [ inl holds ↦ rw holds | inr shut ↦ rw shut ]

-- Every operation keeps it that a held descriptor is open, and held by one object.
pub Step-IsOwned :
    {w v : World} → Step w v → IsOwned w.objects w.opened → IsOwned v.objects v.opened
unfolding move_assign set_status
Step-IsOwned (constructs i host port free) own = IsOwned-drop i _ own refl
Step-IsOwned (accepts_from l i s t fd peer listens free gives e) own =
    IsOwned-put i (some t) own gives (accept-fd s.socket_type fd peer t e)
Step-IsOwned (assigns i j s t apart here there) own =
    IsOwned-move i j s (move_assign s t).0 t (move_assign s t).1 own apart there refl refl
Step-IsOwned (connects_to i s no_delay sys prefs peers r here search gives) own =
    IsOwned-put i _ own gives (connect-fd no_delay r s)
Step-IsOwned
      (listens_at i s status_flags fd_flags sys_listen reuse backlog sys prefs peers r here search
        gives)
      own =
    IsOwned-put i _ own gives (listen-fd status_flags fd_flags sys_listen reuse backlog r s)
Step-IsOwned (closes i s here) own = IsOwned-close i s _ own here (close-is_held s)
Step-IsOwned (sets_status i s r here) own = IsOwned-keep i s (set_status r s) own here refl
Step-IsOwned (shuts_down i s sys how r here result) own = own
Step-IsOwned (destroys i s here) own = IsOwned-close i s none own here refl

-- In every state that operations on objects reach, each descriptor that an object holds is open, and
-- no other object holds it: `close` and the destructor never close a descriptor twice.
pub Reach-IsOwned :
    {opened : ℕ → Bool} {w : World} → Reach (no_objects opened) w → IsOwned w.objects w.opened
Reach-IsOwned unchanged = record { held_open = λ i n h. cc; held_once = λ i j n h h'. cc }
Reach-IsOwned (followed_by r st) = Step-IsOwned st (Reach-IsOwned r)
