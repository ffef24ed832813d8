-- ===== src/Socket/Receive.antt =====
-- `getPacket` of src/APRS_IS.cpp, with `select` of src/basic_socket.h. What the system answers is a
-- list of events. The socket is connected, so `select` does not throw.
pub mod Lines
use aprs_wx.Daemon.Handling.{goes_on}
use aprs_wx.Prelude.{
  Bytes, List, Option, Outcome, [], exits, if◌then◌else◌, ltb, none, not, ok, some, undefined,
  unfinished, ℕ, ◌%◌, ◌++◌, ◌+◌, ◌==◌, ◌^◌, ◌∷◌,
}

-- The answers of the system in one round of the loop: `select` with no byte within a second, `select`
-- with an error, or a ready socket, from which `read` gets a byte, nothing, or an error.
pub data Event : Type 0 where
  silence : Event
  select_error : Event
  arrives : ℕ → Event
  end_of_file : Event
  read_error : Event

-- What `getPacket` leaves: `mPacket`, `mWaitTime`, and the events that are still to come.
pub record Received : Type 0 where
  pub packet : Bytes
  pub wait_time : ℕ
  pub later : List Event

-- The argument `maxWait` of the call.
abbrev pub max_wait : ℕ
max_wait = 60

-- `++mWaitTime`, on a `uint32_t`.
abbrev pub next_wait : ℕ → ℕ
next_wait w = (w + 1) % 2 ^ 32

-- `stringBuf << buf[0]`, unless it is a carriage return.
abbrev pub put : ℕ → Bytes → Bytes
put b line = if not (b == b'\r') then line ++ b ∷ [] else line

-- The bytes behind `read`, with `buf[0]` as it is; `again` is the loop.
unfoldable pub on_byte : (Bytes → Outcome Received) → ℕ → List Event → Bytes → Outcome Received
on_byte again b es line =
    let goes_on = again (put b line) in
    if b == b'\n' then ok (record { packet = put b line; wait_time = 0; later = es }) else goes_on

-- `select` with no byte: -2 when the limit is passed, else another round.
unfoldable pub on_idle : (ℕ → Outcome Received) → ℕ → List Event → Outcome Received
on_idle again w es =
    let goes_on = again (next_wait w) in
    if ltb max_wait (next_wait w)
    then ok (record { packet = []; wait_time = next_wait w; later = es })
    else goes_on

-- The loop: `buf` is `buf[0]` if it has been written, `line` is `stringBuf`. At the end of the file
-- `read` writes nothing, and the loop takes `buf[0]` again.
unfoldable pub receive : List Event → Option ℕ → Bytes → ℕ → Outcome Received
unfolding on_byte on_idle
receive [] buf line w = unfinished
receive (silence ∷ es) buf line w = on_idle (receive es buf line) w es
receive (select_error ∷ es) buf line w = ok (record { packet = []; wait_time = w; later = es })
receive (arrives b ∷ es) buf line w = on_byte (λ s. receive es (some b) s 0) b es line
receive (end_of_file ∷ es) none line w = undefined
receive (end_of_file ∷ es) (some b) line w = on_byte (λ s. receive es (some b) s 0) b es line
receive (read_error ∷ es) buf line w = exits

unfoldable pub get_packet : List Event → ℕ → Outcome Received
unfolding receive
get_packet es w = receive es none [] w
