-- ===== src/Socket/Object/Refused.antt =====
-- `select` of src/basic_socket.h on an object that `connect` has left without a descriptor.
use aprs_wx.Prelude.{
  Bytes, Exception, List, Option, [], false, negsuc, none, ok, pos, refl, some, throws, true,
  undefined, ℕ, ℤ, ◌∷◌, ◌≡◌,
}
use aprs_wx.Socket.Object.{Socket, connect, host_socket, is_selectable, select, sock_connect}
use aprs_wx.Socket.Object.World.Owned.{connect-fd}
use aprs_wx.Socket.Peers.{Peer, Search, System, fail, find_peer_info, is_held, new_search}
use aprs_wx.Socket.Peers.First.{candidates, find_peer_info-first_of, first_of}
use aprs_wx.Socket.Receive.{max_wait}

first_of_refused :
    (sys : System) (ps : List Peer) (s : Search)
    → ((n : ℕ) → sys.accepts n ≡ false)
    → is_held s.sock_fd ≡ false
    → is_held (first_of sys ps s).sock_fd ≡ false
first_of_refused sys [] s h e = e
first_of_refused sys (p ∷ ps) s h e =
    rw (h s.attempts) (first_of_refused sys ps (fail sys s) h refl)

select_unheld :
    (s : Socket) (fd r : ℤ) (max_wait w : ℕ)
    → s.sock_fd ≡ fd
    → is_held fd ≡ false
    → is_selectable s.socket_type ≡ true
    → select s r max_wait w ≡ undefined
unfolding select
select_unheld s (pos n) r max_wait w e h k = cc
select_unheld s (negsuc n) r max_wait w e h k = rw (k, e)

connect_type :
    (no_delay : Option ℤ) (r : Search) (s : Socket)
    → (connect no_delay r s).socket_type ≡ sock_connect
unfolding connect
connect_type none r s = refl
connect_type (some d) r s = refl

-- If no address accepts the connection, `connect` still makes the object one on which `select` may be
-- called, and `select` then writes outside of its set, while it throws `logic_error` in front of
-- `connect`.
pub select_refused :
    (sys : System) (prefs : List ℕ) (peers : List Peer) (no_delay : Option ℤ) (host port : Bytes)
    (n : ℤ) (max_wait w : ℕ)
    → ((k : ℕ) → sys.accepts k ≡ false)
    → (r : Search) × (find_peer_info sys prefs (some peers) ≡ ok r)
      × (select (connect no_delay r (host_socket host port)) n max_wait w ≡ undefined)
      × (select (host_socket host port) n max_wait w ≡ throws Exception.logic_error)
unfolding select
select_refused sys prefs peers no_delay host port n max_wait w refuses =
    let r = first_of sys (candidates prefs peers) new_search in
    (
      r,
      (find_peer_info-first_of sys prefs peers λ k h. cc (refuses k)).0,
      select_unheld (connect no_delay r (host_socket host port)) r.sock_fd n max_wait w
          (connect-fd no_delay r _) (first_of_refused sys _ new_search refuses refl)
          (rw (connect_type no_delay r (host_socket host port))),
      refl,
    )
