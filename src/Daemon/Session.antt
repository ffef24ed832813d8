-- ===== src/Daemon/Session.antt =====
-- The inner loop of `main` in src/aprs_wx.cpp, on the packets of one connection.
use aprs_wx.AprsIs.Cursor.{Cursor, at_start}
use aprs_wx.AprsIs.Decode.{Station, decode}
use aprs_wx.Daemon.Ending.{Continues, IsBroken, on_packet-Continues}
use aprs_wx.Daemon.Handling.{
  Control, Daemon, Handled, Settings, goes_on, on_packet, returns_1, station_of,
}
use aprs_wx.Daemon.Safety.{FailsLike, IsConfigured, IsReady, Serves, on_packet-Serves}
use aprs_wx.Double.{Double}
use aprs_wx.Packet.Report.{Packet}
use aprs_wx.Prelude.{
  Bool, Bool-cases, List, Outcome, [], ap, arith, equal, false, if◌then◌else◌, inl, inr, le→ltb,
  ltb, ltb-false, ok, refl, some, suc, true, unfinished, value, zero, ℕ, ◌++◌, ◌+◌, ◌-◌, ◌>>=◌, ◌≡◌,
  ◌≤◌, ◌⊎◌,
}
use aprs_wx.Socket.Receive.{Event, Received, get_packet}
use aprs_wx.Utilities.{Post}
use mathlib.Core.Path.{subst}

-- The readings of the steady clock: the time at which `decode` makes the packet of a count, and that
-- at which `aggregateData` runs behind it.
pub record Clock : Type 0 where
  pub decoded_at : ℕ → ℕ
  pub aggregated_at : ℕ → ℕ

-- How the loop ends.
pub record Ended (F : Type 0) : Type 0 where
  pub control : Control
  pub daemon : Daemon F
  pub posts : List Post
  pub later : List Event

-- One packet leaves less to do.
count_left :
    (rate k n n' : ℕ) (b : Bool)
    → rate - n ≤ suc k
    → n' ≡ (if b then rate else n + 1)
    → rate - n' ≤ k
count_left rate k n n' true h e = rw e (omega arith)
count_left rate k n n' false h e = rw e (omega arith)

module _ {F : Type 0} ⦃d : Double F⦄ where
  -- The end of one round; `again` is the loop on the state that is left.
  unfoldable pub on_control :
      (Daemon F → Outcome (Ended F)) → List Event → Control → Handled F → Outcome (Ended F)
  on_control again es returns_1 h =
      ok (record { control = returns_1; daemon = h.daemon; posts = h.posts; later = es })
  on_control again es goes_on h = do
    e ← again h.daemon
    ok (record e { posts = h.posts ++ e.posts })

  -- One round of the loop, with `serverCycleRate.value()`; `again` is the loop.
  unfoldable pub inner_round :
      (Daemon F → ℕ → List Event → Outcome (Ended F))
      → Settings F
      → Clock
      → Daemon F
      → ℕ
      → List Event
      → ℕ
      → Outcome (Ended F)
  unfolding on_control
  inner_round again s t m w es rate =
      let body = (do
        g ← get_packet es w
        h ←
            on_packet s (t.decoded_at m.packet_count) (t.aggregated_at m.packet_count) m
              (at_start g.packet)
        on_control (λ m'. again m' g.wait_time g.later) g.later h.control h) in
      if ltb m.packet_count rate
      then body
      else ok (record { control = goes_on; daemon = m; posts = []; later = es })

  -- `while (packetCount < serverCycleRate.value())`, with fuel for its rounds.
  unfoldable pub inner_loop : ℕ → Settings F → Clock → Daemon F → ℕ → List Event → Outcome (Ended F)
  unfolding inner_round
  inner_loop zero s t m w es = unfinished
  inner_loop (suc fuel) s t m w es =
      value s.server_cycle_rate >>= inner_round (inner_loop fuel s t) s t m w es

  -- `Feeds st k w es`: the next `k` calls of `getPacket` return texts on which `decode` returns.
  pub data Feeds (st : Station F) : ℕ → ℕ → List Event → Type 0 where
    enough : {w : ℕ} {es : List Event} → Feeds st 0 w es
    feed :
        {k w : ℕ} {es : List Event} (g : Received)
        → get_packet es w ≡ ok g
        → ((now : ℕ) → (a : Packet F × Cursor) × (decode st now (at_start g.packet) ≡ ok a))
        → Feeds st k g.wait_time g.later
        → Feeds st (suc k) w es

  -- `Breaks s w es`: of the texts that `getPacket` returns in a row, one is broken.
  pub data Breaks (s : Settings F) : ℕ → List Event → Type 0 where
    broken_here :
        {w : ℕ} {es : List Event} (g : Received) (now : ℕ)
        → get_packet es w ≡ ok g
        → IsBroken s now g.packet
        → Breaks s w es
    broken_later :
        {w : ℕ} {es : List Event} (g : Received)
        → get_packet es w ≡ ok g
        → Breaks s g.wait_time g.later
        → Breaks s w es

  -- The loop has ended with a ready aggregator, by `return 1` on a broken text or by its count.
  abbrev pub Finishes : Settings F → ℕ → ℕ → List Event → Outcome (Ended F) → Type 0
  Finishes s rate w es m =
      (e : Ended F) × (m ≡ ok e)
      × IsReady e.daemon.aggregator
      × (((e.control ≡ returns_1) × Breaks s w es)
          ⊎ ((e.control ≡ goes_on) × (rate ≤ e.daemon.packet_count)))

  served :
      {A : Type 0} {n : ℕ} (m : Outcome A) (h : Outcome (Handled F)) (a : A)
      → m ≡ ok a
      → Serves n h ⊎ FailsLike m h
      → Serves n h
  served m h a e (inl serves) = serves
  served m h a e (inr fails) = absurd (subst (λ x. FailsLike x h) e fails)

  on_control-Finishes :
      (s : Settings F) (rate now : ℕ) (again : Daemon F → Outcome (Ended F)) {w : ℕ}
      {es : List Event} (g : Received) (c : Control) (h : Handled F)
      → get_packet es w ≡ ok g
      → (c ≡ goes_on) ⊎ ((c ≡ returns_1) × IsBroken s now g.packet)
      → IsReady h.daemon.aggregator
      → Finishes s rate g.wait_time g.later (again h.daemon)
      → Finishes s rate w es (on_control again g.later c h)
  unfolding on_control
  on_control-Finishes s rate now again g returns_1 h got (inl e) ready done = cc
  on_control-Finishes s rate now again g returns_1 h got (inr (e, broken)) ready done =
      (_, refl, ready, inl (refl, broken_here g now got broken))
  on_control-Finishes s rate now again g goes_on h got how ready
        (e, run, ready', inl (one, breaks)) =
      (
        record e { posts = h.posts ++ e.posts },
        rw run,
        ready',
        inl (one, broken_later g got breaks),
      )
  on_control-Finishes s rate now again g goes_on h got how ready (e, run, ready', inr full) =
      (record e { posts = h.posts ++ e.posts }, rw run, ready', inr full)

  pub inner_loop_round :
      (k : ℕ) (s : Settings F) (rate : ℕ) (t : Clock) (m : Daemon F) (w : ℕ) (es : List Event)
      → s.server_cycle_rate ≡ some rate
      → inner_loop (suc k) s t m w es ≡ inner_round (inner_loop k s t) s t m w es rate
  unfolding inner_loop
  inner_loop_round k s rate t m w es e =
      ap (λ o. value o >>= inner_round (inner_loop k s t) s t m w es) e

  -- With values in the variables that it reads, from a ready aggregator, and with texts on which
  -- `decode` returns for each packet that the server cycle rate allows, the loop ends within as many
  -- rounds: by `return 1`, and then a text among those that `getPacket` returns has the status
  -- `DecodingError`, or with the full count and without `return`. The aggregator is ready in both cases.
  pub inner_loop-Finishes :
      (k : ℕ) (s : Settings F) (rate : ℕ) (t : Clock) (m : Daemon F) (w : ℕ) (es : List Event)
      → IsConfigured s rate
      → IsReady m.aggregator
      → rate - m.packet_count ≤ k
      → Feeds (station_of s) k w es
      → Finishes s rate w es (inner_loop (suc k) s t m w es)
  unfolding inner_round
  inner_loop-Finishes zero s rate t m w es cfg ready bound feeds =
      rw (inner_loop_round zero s rate t m w es cfg.2)
        (rw (le→ltb m.packet_count rate (omega arith)) (_, refl, ready, inr (refl, omega arith)))
  inner_loop-Finishes (suc k) s rate t m w es cfg ready bound (feed g got decodes rest) =
      rw (inner_loop_round (suc k) s rate t m w es cfg.2)
        (elim (Bool-cases (ltb m.packet_count rate)) [
          | inr full ↦ rw full (_, refl, ready, inr (refl, ltb-false _ _ full))
          | inl open_ ↦
              let now = t.decoded_at m.packet_count in
              let then_ = t.aggregated_at m.packet_count in
              let (a, decoded) = decodes now in
              let (h, run, ready', count) =
                served (decode (station_of s) now (at_start g.packet))
                  (on_packet s now then_ m (at_start g.packet)) a decoded
                  (on_packet-Serves s rate now then_ m g.packet cfg ready) in
              let how : Continues s now g.packet h =
                rw run at (on_packet-Continues s now g.packet then_ m) in
              rw open_ (
                rw got (
                  rw run (
                    on_control-Finishes s rate now _ g h.control h got how ready' (
                      inner_loop-Finishes k s rate t h.daemon g.wait_time g.later cfg ready'
                        (count_left rate k m.packet_count h.daemon.packet_count (equal g.packet [])
                          bound count)
                        rest))))
        ])
