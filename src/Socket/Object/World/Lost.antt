-- ===== src/Socket/Object/World/Lost.antt =====
-- What an assignment loses, in src/basic_socket.h.
use aprs_wx.Prelude.{
  Bool, Option, ap, arith, false, inl, inr, negsuc, none, pos, refl, some, true, ℕ, ℤ, ◌==◌, ◌∙◌,
  ◌≡◌,
}
use aprs_wx.Socket.Object.{Socket, close, move_assign}
use aprs_wx.Socket.Object.Queries.{set_status}
use aprs_wx.Socket.Object.World.{
  Gives, Reach, Step, World, accepts_from, assigns, close_fd, closes, connects_to, constructs,
  destroys, fd_of, gives_fresh, gives_none, followed_by, listens_at, no_objects, sets_status,
  shuts_down, unchanged, update,
}
use aprs_wx.Socket.Object.World.Owned.{
  Reach-IsOwned, accept-fd, close-is_held, connect-fd, fd_cases, listen-fd,
}
use aprs_wx.Socket.Peers.{is_held}

-- The descriptor `n` is open, and no object holds it.
pub record IsLost (n : ℕ) (objects : ℕ → Option Socket) (opened : ℕ → Bool) : Type 0 where
  pub still_open : opened n ≡ true
  pub unheld : (i : ℕ) → fd_of (objects i) ≡ pos n → ⊥

-- A place that gets another descriptor keeps it lost.
IsLost-put :
    {n : ℕ} {objects : ℕ → Option Socket} {opened opened' : ℕ → Bool} {fd : ℤ} (i : ℕ)
    (o : Option Socket)
    → IsLost n objects opened
    → Gives opened fd opened'
    → fd_of o ≡ fd
    → IsLost n (update objects i o) opened'
IsLost-put i o w gives_none e = record {
  still_open = w.still_open;
  unheld = λ j h. ground (arith, w.unheld j);
}
IsLost-put i o w (gives_fresh free) e = record {
  still_open = ground (arith, w.still_open);
  unheld = λ j h. ground (arith, w.unheld j, w.still_open);
}

IsLost-drop :
    {n : ℕ} {objects : ℕ → Option Socket} {opened : ℕ → Bool} (i : ℕ) (o : Option Socket)
    → IsLost n objects opened
    → is_held (fd_of o) ≡ false
    → IsLost n (update objects i o) opened
IsLost-drop i o w e = record {
  still_open = w.still_open;
  unheld = λ j h. ground (arith, w.unheld j);
}

IsLost-keep :
    {n : ℕ} {objects : ℕ → Option Socket} {opened : ℕ → Bool} (i : ℕ) (s s' : Socket)
    → IsLost n objects opened
    → objects i ≡ some s
    → s'.sock_fd ≡ s.sock_fd
    → IsLost n (update objects i (some s')) opened
IsLost-keep i s s' w here e = record {
  still_open = w.still_open;
  unheld = λ j h. ground (arith, w.unheld j, w.unheld i);
}

IsLost-move :
    {n : ℕ} {objects : ℕ → Option Socket} {opened : ℕ → Bool} (i j : ℕ) (s s' t t' : Socket)
    → IsLost n objects opened
    → (j == i) ≡ false
    → objects j ≡ some t
    → s'.sock_fd ≡ t.sock_fd
    → t'.sock_fd ≡ negsuc 0
    → IsLost n (update (update objects i (some s')) j (some t')) opened
IsLost-move i j s s' t t' w apart there e e' = record {
  still_open = w.still_open;
  unheld = λ a h. ground (arith, w.unheld a, w.unheld j);
}

IsLost-close :
    {n : ℕ} {objects : ℕ → Option Socket} {opened : ℕ → Bool} (i : ℕ) (s : Socket)
    (o : Option Socket)
    → IsLost n objects opened
    → objects i ≡ some s
    → is_held (fd_of o) ≡ false
    → IsLost n (update objects i o) (close_fd (close s).1 opened)
unfolding close
IsLost-close {n} i s o w here e = elim (fd_cases s.sock_fd) [
  | inl (m, open_) ↦
      let other = IsLost-drop i o w e in
      rw open_ (record {
        still_open = ground (arith, w.still_open, w.unheld i, here, open_);
        unheld = other.unheld;
      })
  | inr shut ↦ rw shut (IsLost-drop i o w e)
]

Step-IsLost :
    {n : ℕ} {w v : World} → Step w v → IsLost n w.objects w.opened → IsLost n v.objects v.opened
unfolding move_assign set_status
Step-IsLost (constructs i host port free) lost = IsLost-drop i _ lost refl
Step-IsLost (accepts_from l i s t fd peer listens free gives e) lost =
    IsLost-put i (some t) lost gives (accept-fd s.socket_type fd peer t e)
Step-IsLost (assigns i j s t apart here there) lost =
    IsLost-move i j s (move_assign s t).0 t (move_assign s t).1 lost apart there refl refl
Step-IsLost (connects_to i s no_delay sys prefs peers r here search gives) lost =
    IsLost-put i _ lost gives (connect-fd no_delay r s)
Step-IsLost
      (listens_at i s status_flags fd_flags sys_listen reuse backlog sys prefs peers r here search
        gives)
      lost =
    IsLost-put i _ lost gives (listen-fd status_flags fd_flags sys_listen reuse backlog r s)
Step-IsLost (closes i s here) lost = IsLost-close i s _ lost here (close-is_held s)
Step-IsLost (sets_status i s r here) lost = IsLost-keep i s (set_status r s) lost here refl
Step-IsLost (shuts_down i s sys how r here result) lost = lost
Step-IsLost (destroys i s here) lost = IsLost-close i s none lost here refl

Reach-IsLost :
    {n : ℕ} {w v : World} → Reach w v → IsLost n w.objects w.opened → IsLost n v.objects v.opened
Reach-IsLost unchanged lost = lost
Reach-IsLost (followed_by r st) lost = Step-IsLost st (Reach-IsLost r lost)

-- The state behind `objects[i] = std::move(objects[j])`.
abbrev pub assigned : World → ℕ → ℕ → Socket → Socket → World
assigned w i j s t = record w {
  objects = update (update w.objects i (some (move_assign s t).0)) j (some (move_assign s t).1);
}

-- An object is assigned to while it holds a descriptor: from any state that operations reach, the
-- descriptor is open and without a holder behind the assignment, and it stays so behind any further
-- operations, the destructors included.
pub move_assign-IsLost :
    {opened : ℕ → Bool} {w v : World} (i j n : ℕ) (s t : Socket)
    → Reach (no_objects opened) w
    → (j == i) ≡ false
    → w.objects i ≡ some s
    → w.objects j ≡ some t
    → s.sock_fd ≡ pos n
    → Reach (assigned w i j s t) v
    → IsLost n v.objects v.opened
unfolding move_assign
move_assign-IsLost {w = w} i j n s t reached apart here there holds r =
    let own = Reach-IsOwned reached in
    Reach-IsLost r (record {
      still_open = own.held_open i n (ap fd_of here ∙ holds);
      unheld = λ a h. ground (arith, own.held_once i j n, own.held_once i a n);
    })
