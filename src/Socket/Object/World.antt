-- ===== src/Socket/Object/World.antt =====
-- Several objects of `basic_socket` of src/basic_socket.h, and the descriptors of the process.
pub mod Owned
pub mod Lost
use aprs_wx.Prelude.{
  Bool, Bytes, List, Option, false, if◌then◌else◌, negsuc, none, ok, pos, some, true, ℕ, ℤ, ◌==◌,
  ◌≡◌,
}
use aprs_wx.Socket.Object.{Socket, accept, close, connect, host_socket, move_assign}
use aprs_wx.Socket.Object.Flags.{Fcntl, listen}
use aprs_wx.Socket.Object.Queries.{SocketHow, set_status, shutdown}
use aprs_wx.Socket.Peers.{Peer, Search, System, find_peer_info}

-- A function with one value changed.
abbrev pub update {ℓ} : {A : Type ℓ} → (ℕ → A) → ℕ → A → ℕ → A
update f i x j = if j == i then x else f j

-- The objects by their places, and the descriptors that are open.
pub record World : Type 0 where
  pub objects : ℕ → Option Socket
  pub opened : ℕ → Bool

-- The descriptor of a place.
abbrev pub fd_of : Option Socket → ℤ
fd_of none = negsuc 0
fd_of (some s) = s.sock_fd

-- `::close`.
abbrev pub close_fd : Option ℤ → (ℕ → Bool) → ℕ → Bool
close_fd (some (pos n)) opened = update opened n false
close_fd _ opened = opened

-- A call of the system that makes a descriptor returns -1, or one that is not open.
pub data Gives (opened : ℕ → Bool) : ℤ → (ℕ → Bool) → Type 0 where
  gives_none : Gives opened (negsuc 0) opened
  gives_fresh : {n : ℕ} → opened n ≡ false → Gives opened (pos n) (update opened n true)

-- One operation on the objects. The copies are deleted, so these are all ways to hand on a descriptor;
-- an object that is assigned to itself, which copies memory onto itself, is left out.
pub data Step (w : World) : World → Type 0 where
  constructs :
      (i : ℕ) (host port : Bytes)
      → w.objects i ≡ none
      → Step w (record w { objects = update w.objects i (some (host_socket host port)) })
  accepts_from :
      {opened : ℕ → Bool} (l i : ℕ) (s t : Socket) (fd : ℤ) (peer : Peer)
      → w.objects l ≡ some s
      → w.objects i ≡ none
      → Gives w.opened fd opened
      → accept s.socket_type fd peer ≡ ok t
      → Step w (record { objects = update w.objects i (some t); opened = opened })
  assigns :
      (i j : ℕ) (s t : Socket)
      → (j == i) ≡ false
      → w.objects i ≡ some s
      → w.objects j ≡ some t
      → Step w (record w {
        objects =
            update (update w.objects i (some (move_assign s t).0)) j (some (move_assign s t).1);
      })
  connects_to :
      {opened : ℕ → Bool} (i : ℕ) (s : Socket) (no_delay : Option ℤ) (sys : System) (prefs : List ℕ)
      (peers : List Peer) (r : Search)
      → w.objects i ≡ some s
      → find_peer_info sys prefs (some peers) ≡ ok r
      → Gives w.opened r.sock_fd opened
      → Step w
          (record { objects = update w.objects i (some (connect no_delay r s)); opened = opened })
  listens_at :
      {opened : ℕ → Bool} (i : ℕ) (s : Socket) (status_flags fd_flags : Fcntl)
      (sys_listen : ℤ → ℤ → ℤ) (reuse backlog : ℤ) (sys : System) (prefs : List ℕ)
      (peers : List Peer) (r : Search)
      → w.objects i ≡ some s
      → find_peer_info sys prefs (some peers) ≡ ok r
      → Gives w.opened r.sock_fd opened
      → Step w (record {
        objects =
            update w.objects i
              (some (listen status_flags fd_flags sys_listen reuse backlog r s).object);
        opened = opened;
      })
  closes :
      (i : ℕ) (s : Socket)
      → w.objects i ≡ some s
      → Step w (record {
        objects = update w.objects i (some (close s).0);
        opened = close_fd (close s).1 w.opened;
      })
  sets_status :
      (i : ℕ) (s : Socket) (r : ℤ)
      → w.objects i ≡ some s
      → Step w (record w { objects = update w.objects i (some (set_status r s)) })
  -- `::shutdown` leaves the descriptor open.
  shuts_down :
      (i : ℕ) (s : Socket) (sys : ℤ → ℕ → ℤ) (how : SocketHow) (r : ℤ)
      → w.objects i ≡ some s
      → shutdown sys how s ≡ r
      → Step w w
  -- The destructor.
  destroys :
      (i : ℕ) (s : Socket)
      → w.objects i ≡ some s
      → Step w
          (record { objects = update w.objects i none; opened = close_fd (close s).1 w.opened })

-- In front of `main` there are no objects.
abbrev pub no_objects : (ℕ → Bool) → World
no_objects opened = record { objects = λ i. none; opened = opened }

pub data Reach (w : World) : World → Type 0 where
  unchanged : Reach w w
  followed_by : {v u : World} → Reach w v → Step v u → Reach w u
