-- ===== src/Socket/Opening/Servers.antt =====
-- `openConnection` of src/APRS_IS.cpp on a row of servers.
use aprs_wx.Prelude.{
  Bytes, List, Outcome, [], ap, arith, false, ok, suc, true, ℕ, ◌++◌, ◌+◌, ◌∙◌, ◌∷◌, ◌≡◌,
}
use aprs_wx.Socket.Opening.{
  open_connection, Attempt, Login, Opened, connects, is_rejected, log_in, login_line, on_greeting,
  try_servers,
}
use aprs_wx.Socket.Receive.{Event}
use aprs_wx.Socket.Receive.Lines.{Delivers, get_packet-Delivers, without_returns}

-- `Finds greeting answer n w attempts more`: `n` servers greet with a rejected line, and the next greets
-- with `greeting`, which is not rejected, and sends `answer`. Behind it the events `more` are left.
pub data Finds (greeting answer : Bytes) : ℕ → ℕ → List Attempt → List Event → Type 0 where
  accepts :
      {w : ℕ} {events more : List Event} {attempts : List Attempt} (es es' : List Event)
      → events ≡ es ++ (es' ++ more)
      → Delivers greeting w es
      → is_rejected (without_returns greeting) ≡ false
      → Delivers answer 0 es'
      → Finds greeting answer 0 w (connects events ∷ attempts) more
  rejects :
      {n w : ℕ} {events more : List Event} {attempts : List Attempt} (line : Bytes)
      (es rest : List Event)
      → events ≡ es ++ rest
      → Delivers line w es
      → is_rejected (without_returns line) ≡ true
      → Finds greeting answer n 0 attempts more
      → Finds greeting answer (suc n) w (connects events ∷ attempts) more

-- What a successful call leaves: the answer as the packet, the login line handed to `write`, `n` connections closed.
abbrev pub connected : Login → Bytes → List Event → ℕ → Outcome Opened
connected login answer more n = ok (record {
  is_open = true;
  packet = without_returns answer;
  wait_time = 0;
  sent = login_line login;
  later = more;
  closed = n;
})

try_servers-Finds :
    {greeting answer : Bytes} {n w : ℕ} {attempts : List Attempt} {more : List Event}
    (login : Login) (packet : Bytes) (closed : ℕ)
    → Finds greeting answer n w attempts more
    → try_servers login attempts packet closed w ≡ connected login answer more (closed + n)
unfolding try_servers on_greeting log_in
try_servers-Finds {answer = answer} {more = more} login packet closed
      (accepts es es' e greets fine answers) =
    rw e (
      rw (get_packet-Delivers (es' ++ more) greets) (
        rw fine (
          rw (get_packet-Delivers more answers) (ap (connected login answer more) (ground arith)))))
try_servers-Finds {answer = answer} {n = suc n} {more = more} login packet closed
      (rejects line es rest e greets bad finds) =
    rw e (
      rw (get_packet-Delivers rest greets) (
        rw bad (
          try_servers-Finds login (without_returns line) (closed + 1) finds
          ∙ ap (connected login answer more) (ground arith))))

-- If some servers greet with a rejected version, and the next with another line and then with an answer,
-- all without too long a pause, `openConnection` returns true: it has closed the connections to those
-- servers, has handed the login line to `write` for the next, and has its answer as the packet.
pub open_connection-Finds :
    {greeting answer : Bytes} {n : ℕ} {attempts : List Attempt} {more : List Event} (login : Login)
    → Finds greeting answer n 0 attempts more
    → open_connection login attempts ≡ connected login answer more n
unfolding open_connection
open_connection-Finds {answer = answer} {more = more} login finds =
    try_servers-Finds login [] 0 finds ∙ ap (connected login answer more) (ground arith)
