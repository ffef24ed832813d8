-- ===== src/Socket/Peers.antt =====
-- `findPeerInfo` and `connect` of src/basic_socket.h: the search for an address.
pub mod First
use aprs_wx.Prelude.{
  Bool, Bytes, Exception, List, Option, Outcome, [], false, if◌then◌else◌, negsuc, none, ok, pos,
  some, throws, true, ℕ, ℤ, ◌++◌, ◌+◌, ◌==◌, ◌||◌, ◌∷◌,
}

-- One entry of the list that `getaddrinfo` returns.
pub record Peer : Type 0 where
  pub family : ℕ
  pub address : Bytes

-- What the system does in the attempt of a number: the descriptor that `socket` returns, and whether
-- `bind_connect` returns 0 on it.
pub record System : Type 0 where
  pub socket : ℕ → ℤ
  pub accepts : ℕ → Bool

-- `sock_fd`, `peer_addr` with the family, the count of attempts, and the descriptors that have been
-- handed to `::close`.
pub record Search : Type 0 where
  pub sock_fd : ℤ
  pub peer : Option Peer
  pub attempts : ℕ
  pub closed : List ℤ

-- `AF_UNSPEC`.
abbrev pub af_unspec : ℕ
af_unspec = 0

-- `sock_fd >= 0`.
abbrev pub is_held : ℤ → Bool
is_held (pos n) = true
is_held (negsuc n) = false

-- `pref == AF_UNSPEC || pref == peer->ai_family`.
abbrev pub suits : ℕ → Peer → Bool
suits pref p = pref == af_unspec || pref == p.family

-- The two branches behind `bind_connect`.
abbrev pub fail : System → Search → Search
fail sys s = record s {
  sock_fd = negsuc 0;
  attempts = s.attempts + 1;
  closed = s.closed ++ sys.socket s.attempts ∷ [];
}

abbrev pub succeed : System → Peer → Search → Search
succeed sys p s = record s {
  sock_fd = sys.socket s.attempts;
  peer = some p;
  attempts = s.attempts + 1;
}

-- The loop over the addresses, for one preference.
unfoldable pub try_peers : System → ℕ → List Peer → Search → Search
try_peers sys pref [] s = s
try_peers sys pref (p ∷ ps) s =
    let skipped = try_peers sys pref ps s in
    let failed = try_peers sys pref ps (fail sys s) in
    if suits pref p then (if sys.accepts s.attempts then succeed sys p s else failed) else skipped

-- The loop over the preferences.
unfoldable pub try_preferences : System → List ℕ → List Peer → Search → Search
unfolding try_peers
try_preferences sys [] peers s = s
try_preferences sys (pref ∷ prefs) peers s =
    let s' = try_peers sys pref peers s in
    let more = try_preferences sys prefs peers s' in if is_held s'.sock_fd then s' else more

abbrev pub new_search : Search
new_search = record { sock_fd = negsuc 0; peer = none; attempts = 0; closed = [] }

-- `findPeerInfo`, on what `getaddrinfo` returns.
unfoldable pub find_peer_info : System → List ℕ → Option (List Peer) → Outcome Search
unfolding try_preferences
find_peer_info sys prefs none = throws Exception.logic_error
find_peer_info sys prefs (some peers) = ok (try_preferences sys prefs peers new_search)
