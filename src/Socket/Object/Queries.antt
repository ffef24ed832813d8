-- ===== src/Socket/Object/Queries.antt =====
-- What src/basic_socket.h tells of a socket, and the operations that leave its descriptor alone.
use aprs_wx.Prelude.{Bool, Bytes, Option, [], none, some, ℕ, ℤ, ◌++◌, ◌∷◌}
use aprs_wx.Socket.Object.{Socket, SocketType}
use aprs_wx.Socket.Peers.{is_held}

-- `enum SocketHow`.
pub data SocketHow : Type 0 where
  shut_rd : SocketHow
  shut_wr : SocketHow
  shut_rdwr : SocketHow

abbrev pub how_number : SocketHow → ℕ
how_number shut_rd = 0
how_number shut_wr = 1
how_number shut_rdwr = 2

-- `NI_NOFQDN | NI_NUMERICSERV`.
abbrev pub default_flags : ℕ
default_flags = 6

-- Behind `getnameinfo`: the host and the service, if it returns 0.
abbrev pub peer_name_of : Option (Bytes × Bytes) → Bytes
peer_name_of none = []
peer_name_of (some (host, service)) = host ++ b':' ∷ service

-- `getPeerName`; `name_info` is `getnameinfo` on an address.
unfoldable pub get_peer_name : (Bytes → ℕ → Option (Bytes × Bytes)) → ℕ → Socket → Bytes
get_peer_name name_info flags s = peer_name_of (name_info s.peer_addr flags)

-- `shutdown`; `sys` is `::shutdown`.
unfoldable pub shutdown : (ℤ → ℕ → ℤ) → SocketHow → Socket → ℤ
shutdown sys how s = sys s.sock_fd (how_number how)

-- `fd`, `socketType`, `getStatus`, and `operator bool`.
abbrev pub fd : Socket → ℤ
fd s = s.sock_fd

abbrev pub socket_type : Socket → SocketType
socket_type s = s.socket_type

abbrev pub get_status : Socket → ℤ
get_status s = s.status

abbrev pub is_open : Socket → Bool
is_open s = is_held s.sock_fd

unfoldable pub set_status : ℤ → Socket → Socket
set_status r s = record s { status = r }
