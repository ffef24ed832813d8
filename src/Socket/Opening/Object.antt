-- ===== src/Socket/Opening/Object.antt =====
-- `openConnection` of src/APRS_IS.cpp on the object and its descriptor, and the end of the round of `main`
-- in src/aprs_wx.cpp that made the object.
pub mod Closing
pub mod Forgetting
use aprs_wx.Prelude.{
  Bool, Bool-cases, Bytes, Ensures, Exception, List, Option, Outcome, [], ap, arith, codes, false,
  if◌then◌else◌, inl, inr, length, length-append, map, negsuc, none, ok, pos, refl, some, suc, sym,
  throws, true, unfinished, ℕ, ℤ, ◌++◌, ◌+◌, ◌>>=◌, ◌∙◌, ◌∷◌, ◌≡◌,
}
use aprs_wx.Socket.Object.{Socket, close, connect, host_socket}
use aprs_wx.Socket.Object.World.Owned.{connect-fd}
use aprs_wx.Socket.Opening.{
  Attempt, Login, Opened, connects, is_rejected, log_in, on_greeting, open_connection, refused,
  try_servers, unresolved,
}
use aprs_wx.Socket.Peers.{Search, is_held}
use aprs_wx.Socket.Receive.{Event, Received, get_packet}

-- What one call of `connect` meets: the search of `findPeerInfo`, if the name can be resolved, the result
-- of `setsockopt`, and the events on the connection.
pub record Connecting : Type 0 where
  pub search : Option Search
  pub no_delay : ℤ
  pub events : List Event

-- The object, and the descriptors that its `close` has handed to `::close`.
pub record Holding : Type 0 where
  pub object : Socket
  pub closed : List ℤ

abbrev pub listed : Option ℤ → List ℤ
listed none = []
listed (some fd) = fd ∷ []

-- `close()`.
unfoldable pub close_object : Holding → Holding
close_object h =
    let (s, fd) = close h.object in record { object = s; closed = h.closed ++ listed fd }

-- Behind the first line of a server; `again` is the loop.
unfoldable pub on_line :
    (Bytes → Holding → ℕ → Outcome (Opened × Holding))
    → Login
    → Holding
    → Received
    → Outcome (Opened × Holding)
unfolding close_object
on_line again login h g =
    let next_server = again g.packet (close_object h) g.wait_time in
    let logged_in = log_in login (length h.closed) g >>= λ (o : Opened). ok (o, h) in
    if is_rejected g.packet then next_server else logged_in

-- Behind `findPeerInfo`.
unfoldable pub on_search :
    (Bytes → Holding → ℕ → Outcome (Opened × Holding))
    → Login
    → Connecting
    → Bytes
    → Holding
    → ℕ
    → Option Search
    → Outcome (Opened × Holding)
unfolding on_line
on_search again login c packet h w none = throws Exception.logic_error
on_search again login c packet h w (some r) =
    let h' = record h { object = connect (some c.no_delay) r h.object } in
    let failed : Opened = record {
      is_open = false;
      packet = packet;
      wait_time = w;
      sent = [];
      later = [];
      closed = length h.closed;
    } in
    let greeted = get_packet c.events w >>= on_line again login h' in
    if is_held h'.object.sock_fd then greeted else ok (failed, h')

-- The loop of `openConnection`.
unfoldable pub try_object :
    Login → List Connecting → Bytes → Holding → ℕ → Outcome (Opened × Holding)
unfolding on_search
try_object login [] packet h w = unfinished
try_object login (c ∷ cs) packet h w = on_search (try_object login cs) login c packet h w c.search

-- The new object of a round.
abbrev pub new_object : Holding
new_object = record { object = host_socket (codes "cwop.aprs2.net") (codes "14580"); closed = [] }

unfoldable pub open_object : Login → List Connecting → Outcome (Opened × Holding)
unfolding try_object
open_object login cs = try_object login cs [] new_object 0

-- `sock.close()` behind the inner loop, and the destructor.
unfoldable pub end_of_round : Holding → Holding
unfolding close_object
end_of_round h = close_object (close_object h)
