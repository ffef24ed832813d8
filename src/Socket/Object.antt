-- ===== src/Socket/Object.antt =====
-- `class basic_socket` of src/basic_socket.h: the members, and what the operations do to them.
pub mod Flags
pub mod Queries
pub mod Refused
pub mod Timeout
pub mod World
use aprs_wx.Prelude.{
  Bool, Bytes, Exception, Option, Outcome, [], false, if◌then◌else◌, is_zero, ltb, negsuc, none,
  not, ok, pos, some, suc, throws, true, undefined, zero, ℕ, ℤ, ◌%◌, ◌&&◌, ◌+◌, ◌^◌, ◌∷◌,
}
use aprs_wx.Socket.Peers.{Peer, Search, af_unspec, is_held}
use aprs_wx.Socket.Receive.{max_wait}

-- `enum class SocketType`.
pub data SocketType : Type 0 where
  sock_unknown : SocketType
  sock_listen : SocketType
  sock_connect : SocketType
  sock_accept : SocketType

-- The members; `peer_addr` are the `peer_len` bytes of the address.
pub record Socket : Type 0 where
  pub peer_host : Bytes
  pub peer_port : Bytes
  pub af_type : ℕ
  pub socket_type : SocketType
  pub sock_fd : ℤ
  pub status : ℤ
  pub peer_addr : Bytes

abbrev zeros : ℕ → Bytes
zeros zero = []
zeros (suc n) = 0 ∷ zeros n

-- The constructor of a host and a port; an address takes up to 128 bytes.
abbrev pub host_socket : Bytes → Bytes → Socket
host_socket host port = record {
  peer_host = host;
  peer_port = port;
  af_type = af_unspec;
  socket_type = sock_unknown;
  sock_fd = negsuc 0;
  status = pos 0;
  peer_addr = zeros 128;
}

-- The constructor of an accepted connection.
abbrev pub accepted_socket : ℤ → Peer → Socket
accepted_socket fd peer = record {
  peer_host = [];
  peer_port = [];
  af_type = peer.family;
  socket_type = sock_accept;
  sock_fd = fd;
  status = pos 0;
  peer_addr = peer.address;
}

-- `operator=(basic_socket &&)`, on two objects: the one that is assigned to, and the other, whose
-- strings are left empty by the moves.
unfoldable pub move_assign : Socket → Socket → Socket × Socket
move_assign s other = (
  record s {
    peer_host = other.peer_host;
    peer_port = other.peer_port;
    sock_fd = other.sock_fd;
    af_type = other.af_type;
    peer_addr = other.peer_addr;
  },
  record other { peer_host = []; peer_port = []; sock_fd = negsuc 0; af_type = af_unspec },
)

-- `close`: the object, and the descriptor that is handed to `::close`.
unfoldable pub close : Socket → Socket × Option ℤ
close s = if is_held s.sock_fd then (record s { sock_fd = negsuc 0 }, some s.sock_fd) else (s, none)

-- What `findPeerInfo` writes to the members.
abbrev pub found_address : Option Peer → Socket → Socket
found_address none s = s
found_address (some p) s = record s { af_type = p.family; peer_addr = p.address }

abbrev pub found : Search → Socket → Socket
found r s = record (found_address r.peer s) {
  sock_fd = r.sock_fd;
  socket_type = sock_unknown;
  status = pos 0;
}

-- `connect`, behind `findPeerInfo`: with `mNoDelay` the status is that of `setsockopt`.
unfoldable pub connect : Option ℤ → Search → Socket → Socket
connect (some set_no_delay) r s = record (found r s) {
  socket_type = sock_connect;
  status = set_no_delay;
}
connect none r s = record (found r s) { socket_type = sock_connect }

-- `accept`, with the result of `accept4`.
unfoldable pub accept : SocketType → ℤ → Peer → Outcome Socket
accept sock_listen fd peer = ok (accepted_socket fd peer)
accept _ fd peer = throws Exception.logic_error

-- The descriptors that an `fd_set` has room for.
abbrev pub fits_set : ℤ → Bool
fits_set (pos n) = ltb n 1024
fits_set (negsuc n) = false

abbrev pub is_selectable : SocketType → Bool
is_selectable sock_listen = true
is_selectable sock_connect = true
is_selectable _ = false

-- `select`, with the result of `::select`; `w` is `mWaitTime`. A descriptor outside of the set is
-- written to memory outside of it.
unfoldable pub select : Socket → ℤ → ℕ → ℕ → Outcome (ℤ × ℕ)
select s r max_wait w =
    let w' = (w + 1) % 2 ^ 32 in
    if not (is_selectable s.socket_type)
    then throws Exception.logic_error
    else if not (fits_set s.sock_fd)
    then undefined
    else if is_zero r && ltb 0 max_wait
    then (if ltb max_wait w' then ok (negsuc 1, w') else ok (r, w'))
    else ok (r, w)
