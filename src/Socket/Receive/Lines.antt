-- ===== src/Socket/Receive/Lines.antt =====
-- `getPacket` of src/APRS_IS.cpp on the events that bring a line, that break off, or that end.
use aprs_wx.Prelude.{
  Bool-cases, Bytes, List, Option, [], arith, if◌then◌else◌, inl, inr, le→ltb, ne→==, none, not, ok,
  refl, some, suc, unfinished, zero, ℕ, ◌++◌, ◌+◌, ◌<◌, ◌==◌, ◌∙◌, ◌∷◌, ◌≡◌, ◌≢◌, ◌⊎◌,
}
use aprs_wx.Socket.Receive.{
  Event, arrives, end_of_file, get_packet, max_wait, next_wait, put, receive, silence,
}
use mathlib.Core.List.{append_assoc}

-- `Delivers s w es`: the events bring the line `s` with its end, with no more than 60 seconds without
-- a byte in a row, when `w` such seconds have passed.
pub data Delivers : Bytes → ℕ → List Event → Type 0 where
  last : {w : ℕ} → Delivers (b'\n' ∷ []) w (arrives b'\n' ∷ [])
  byte :
      {b w : ℕ} {s : Bytes} {es : List Event}
      → b ≢ b'\n'
      → Delivers s 0 es
      → Delivers (b ∷ s) w (arrives b ∷ es)
  pause :
      {w : ℕ} {s : Bytes} {es : List Event}
      → w < max_wait
      → Delivers s (w + 1) es
      → Delivers s w (silence ∷ es)

-- The line less its carriage returns.
abbrev pub without_returns : Bytes → Bytes
without_returns [] = []
without_returns (b ∷ s) = if not (b == b'\r') then b ∷ without_returns s else without_returns s

put-without_returns :
    (b : ℕ) (line s : Bytes) → put b line ++ without_returns s ≡ line ++ without_returns (b ∷ s)
put-without_returns b line s = elim (Bool-cases (b == b'\r')) [
  | inl e ↦ rw e
  | inr e ↦ rw e (append_assoc line (b ∷ []) (without_returns s))
]

receive-Delivers :
    {s : Bytes} {w : ℕ} {es : List Event} (buf : Option ℕ) (line : Bytes) (more : List Event)
    → Delivers s w es
    → receive (es ++ more) buf line w
      ≡ ok (record { packet = line ++ without_returns s; wait_time = 0; later = more })
unfolding receive
receive-Delivers buf line more last = refl
receive-Delivers {s = b ∷ s} buf line more (byte e h) =
    rw (ne→== b b'\n' e)
      (rw (receive-Delivers (some b) (put b line) more h) (rw (put-without_returns b line s)))
receive-Delivers {w = w} buf line more (pause k h) =
    let next : next_wait w ≡ w + 1 = omega arith in
    rw next (rw (le→ltb max_wait (w + 1) (omega arith)) (receive-Delivers buf line more h))

-- If the events bring a line with no more than 60 silent seconds in a row, `getPacket` returns that
-- line with its end and less its carriage returns, clears the wait, and leaves the events behind
-- the line alone.
pub get_packet-Delivers :
    {s : Bytes} {w : ℕ} {es : List Event} (more : List Event)
    → Delivers s w es
    → get_packet (es ++ more) w
      ≡ ok (record { packet = without_returns s; wait_time = 0; later = more })
unfolding get_packet
get_packet-Delivers more h = receive-Delivers none [] more h

-- `n` rounds with the same answer.
abbrev pub rounds : ℕ → Event → List Event
rounds zero e = []
rounds (suc n) e = e ∷ rounds n e

receive_nothing :
    (n : ℕ) (w : ℕ) (buf : Option ℕ) (line : Bytes) (more : List Event)
    → w + suc n ≡ max_wait + 1
    → receive (rounds (suc n) silence ++ more) buf line w
      ≡ ok (record { packet = []; wait_time = max_wait + 1; later = more })
unfolding receive
receive_nothing zero w buf line more h = let here : w ≡ max_wait = omega arith in rw here
receive_nothing (suc n) w buf line more h =
    let next : next_wait w ≡ w + 1 = omega arith in
    rw next (
      rw (le→ltb max_wait (w + 1) (omega arith))
        (receive_nothing n (w + 1) buf line more (omega arith)))

-- `Starts s es`: the events bring the bytes `s`, of which none ends a line.
pub data Starts : Bytes → List Event → Type 0 where
  start : Starts [] []
  next :
      {b : ℕ} {s : Bytes} {es : List Event}
      → b ≢ b'\n'
      → Starts s es
      → Starts (b ∷ s) (arrives b ∷ es)

receive_start :
    {s : Bytes} {es : List Event} (buf : Option ℕ) (line : Bytes) (w : ℕ) (more : List Event)
    → Starts s es
    → (buf' : Option ℕ) × (line' : Bytes) × (w' : ℕ) × ((w' ≡ w) ⊎ (w' ≡ 0))
      × (receive (es ++ more) buf line w ≡ receive more buf' line' w')
unfolding receive
receive_start buf line w more start = (buf, line, w, inl refl, refl)
receive_start {s = b ∷ s} buf line w more (next e h) =
    let (buf', line', w', cleared, run) = receive_start (some b) (put b line) 0 more h in
    let zero_left : w' ≡ 0 = elim cleared [ inl z ↦ z | inr z ↦ z ] in
    (buf', line', w', inr zero_left, rw (ne→== b b'\n' e) run)

-- If no silence has been counted, and bytes of a line come without a pause and then 61 silent
-- seconds, `getPacket` gives the line up: it returns the empty text, and leaves later events alone.
pub get_packet_silence :
    {s : Bytes} {es : List Event} (more : List Event)
    → Starts s es
    → get_packet (es ++ (rounds (max_wait + 1) silence ++ more)) 0
      ≡ ok (record { packet = []; wait_time = max_wait + 1; later = more })
unfolding get_packet
get_packet_silence more h =
    let (buf, line, w, cleared, run) =
      receive_start none [] 0 (rounds (max_wait + 1) silence ++ more) h in
    let fresh : w ≡ 0 = elim cleared [ inl z ↦ z | inr z ↦ z ] in
    run ∙ rw fresh (receive_nothing max_wait 0 buf line more refl)

receive_end_of_file :
    (n b : ℕ) (line : Bytes) (w : ℕ)
    → b ≢ b'\n'
    → receive (rounds n end_of_file) (some b) line w ≡ unfinished
unfolding receive
receive_end_of_file zero b line w e = refl
receive_end_of_file (suc n) b line w e =
    rw (ne→== b b'\n' e) (receive_end_of_file n b (put b line) 0 e)

-- If the server closes the connection behind the first byte of a line, and that does not end the
-- line, `getPacket` has not returned after any number of further rounds.
pub get_packet_end_of_file :
    (n b w : ℕ) → b ≢ b'\n' → get_packet (arrives b ∷ rounds n end_of_file) w ≡ unfinished
unfolding get_packet receive
get_packet_end_of_file n b w e = rw (ne→== b b'\n' e) (receive_end_of_file n b (put b []) 0 e)
