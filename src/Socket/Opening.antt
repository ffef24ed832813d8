-- ===== src/Socket/Opening.antt =====
-- `openConnection` and `putLine` of src/APRS_IS.cpp and src/APRS_IS.h, behind the system calls.
pub mod Object
pub mod Servers
use aprs_wx.Prelude.{
  Bool, Bytes, Exception, List, Outcome, [], codes, equal, false, if◌then◌else◌, not, ok, throws,
  true, unfinished, ℕ, ◌++◌, ◌+◌, ◌>>=◌, ◌||◌, ◌∷◌,
}
use aprs_wx.Socket.Receive.{Event, Received, get_packet}
use aprs_wx.Std.Text.{starts_with}

-- What one call of `connect` gives: a connection with the events on it, a failure, or the exception that
-- `findPeerInfo` throws for a name that it cannot resolve.
pub data Attempt : Type 0 where
  connects : List Event → Attempt
  refused : Attempt
  unresolved : Attempt

-- The members that the constructor sets.
pub record Login : Type 0 where
  pub call_sign : Bytes
  pub pass_code : Bytes
  pub filter : Bytes

-- What `openConnection` leaves: its result, `mPacket`, `mWaitTime`, the bytes that `putLine` hands to
-- `write`, the events to come, and how many connections it has closed. How many of the bytes are
-- written, `putLine` tells on the console and by its result, which is not read.
pub record Opened : Type 0 where
  pub is_open : Bool
  pub packet : Bytes
  pub wait_time : ℕ
  pub sent : Bytes
  pub later : List Event
  pub closed : ℕ

-- `!mGoodServer`, on the first line of a server.
unfoldable pub is_rejected : Bytes → Bool
unfolding starts_with
is_rejected line =
    starts_with (codes "# javAPRSSrvr 4.3.0b22") line
    || starts_with (codes "# javAPRSSrvr 4.3.0b17") line
    || starts_with (codes "# javAPRSSrvr 4.2.0b09") line

abbrev pub filter_clause : Bytes → Bytes
filter_clause filter = if not (equal filter []) then codes " filter " ++ filter else []

-- `validate`.
abbrev pub login_line : Login → Bytes
login_line login =
    codes "user "
    ++ (login.call_sign
        ++ (codes " pass " ++ (login.pass_code ++ (filter_clause login.filter ++ codes "\r\n"))))

-- Behind the loop: the login, and the server's answer.
unfoldable pub log_in : Login → ℕ → Received → Outcome Opened
log_in login closed g = do
  answer ← get_packet g.later g.wait_time
  ok (record {
    is_open = true;
    packet = answer.packet;
    wait_time = answer.wait_time;
    sent = login_line login;
    later = answer.later;
    closed = closed;
  })

-- The end of one round; `again` is the loop with the count of closed connections.
unfoldable pub on_greeting : (ℕ → ℕ → Outcome Opened) → Login → ℕ → Received → Outcome Opened
unfolding is_rejected log_in
on_greeting again login closed g =
    let next_server = again (closed + 1) g.wait_time in
    if is_rejected g.packet then next_server else log_in login closed g

-- The loop: `packet` is `mPacket`, `closed` the count of closed connections.
unfoldable pub try_servers : Login → List Attempt → Bytes → ℕ → ℕ → Outcome Opened
unfolding on_greeting
try_servers login [] packet closed w = unfinished
try_servers login (connects es ∷ attempts) packet closed w = do
  g ← get_packet es w
  on_greeting (λ n v. try_servers login attempts g.packet n v) login closed g
try_servers login (refused ∷ attempts) packet closed w = ok (record {
  is_open = false;
  packet = packet;
  wait_time = w;
  sent = [];
  later = [];
  closed = closed;
})
try_servers login (unresolved ∷ attempts) packet closed w = throws Exception.logic_error

-- On a new object.
unfoldable pub open_connection : Login → List Attempt → Outcome Opened
unfolding try_servers
open_connection login attempts = try_servers login attempts [] 0 0
