-- ===== src/Daemon/Visits.antt =====
-- The outer loop of `main` in src/aprs_wx.cpp: one connection after the other; and `main` as a whole.
use aprs_wx.Aggregator.Sums.{WeatherAggregator, new_aggregator}
use aprs_wx.Daemon.Config.{ConfigItem, start_up}
use aprs_wx.Daemon.Handling.{Control, Daemon, Settings, goes_on, returns_1}
use aprs_wx.Daemon.Session.{Clock, Ended, inner_loop}
use aprs_wx.Double.{Double}
use aprs_wx.Prelude.{
  Bytes, List, Outcome, [], exits, if◌then◌else◌, ok, throws, undefined, unfinished, ℕ, ℤ, ◌++◌,
  ◌>>=◌, ◌∷◌,
}
use aprs_wx.Socket.Opening.{Attempt, Login, Opened, open_connection}
use aprs_wx.Utilities.{ConfigFile, ConfigStatus, Post}

-- One round: what the calls of `connect` give, and the clock of the inner loop.
pub record Visit : Type 0 where
  pub attempts : List Attempt
  pub clock : Clock

-- What the rounds leave: how they end, the aggregator, and the transfers to the database.
pub record Served (F : Type 0) : Type 0 where
  pub control : Control
  pub aggregator : WeatherAggregator F
  pub posts : List Post

-- The end of the process: `main` returns a number, or `exit` is called with it.
pub record Exit (F : Type 0) : Type 0 where
  pub exit_status : ℕ
  pub posts : List Post

abbrev pub status_of : Control → ℕ
status_of goes_on = 0
status_of returns_1 = 1

-- The state in front of the first packet of a connection.
abbrev pub new_daemon : {F : Type 0} → WeatherAggregator F → Daemon F
new_daemon a = record { packet_count = 0; aggregator = a }

module _ {F : Type 0} ⦃d : Double F⦄ where
  -- The inner loop, if the connection is open.
  unfoldable pub on_open : ℕ → Settings F → Clock → WeatherAggregator F → Opened → Outcome (Ended F)
  on_open fuel s t a o =
      let m = new_daemon a in
      if o.is_open
      then inner_loop fuel s t m o.wait_time o.later
      else ok (record { control = goes_on; daemon = m; posts = []; later = o.later })

  -- The end of a round; `again` is the loop.
  unfoldable pub on_ended :
      (WeatherAggregator F → Outcome (Served F)) → Control → Ended F → Outcome (Served F)
  on_ended again returns_1 e =
      ok (record { control = returns_1; aggregator = e.daemon.aggregator; posts = e.posts })
  on_ended again goes_on e = do
    v ← again e.daemon.aggregator
    ok (record v { posts = e.posts ++ v.posts })

  -- `while (run)`: the rounds up to the one in which a signal clears `run`.
  unfoldable pub visit_all :
      ℕ → Login → Settings F → List Visit → WeatherAggregator F → Outcome (Served F)
  unfolding on_open on_ended
  visit_all fuel login s [] a = ok (record { control = goes_on; aggregator = a; posts = [] })
  visit_all fuel login s (v ∷ visits) a = do
    o ← open_connection login v.attempts
    e ← on_open fuel s v.clock a o
    on_ended (visit_all fuel login s visits) e.control e

  -- The end of the `try` block of `main`, with its handler; the transfers in front of an exception are
  -- not kept.
  abbrev pub leave : Outcome (Served F) → Outcome (Exit F)
  leave (ok v) = ok (record { exit_status = status_of v.control; posts = v.posts })
  leave (throws e) = ok (record { exit_status = 1; posts = [] })
  leave exits = ok (record { exit_status = 1; posts = [] })
  leave undefined = undefined
  leave unfinished = unfinished

  unfoldable pub run_main :
      ℕ → ConfigFile F → (ℤ → Bytes) → ConfigStatus ConfigItem → List Visit → Outcome (Exit F)
  unfolding visit_all
  run_main fuel lib print st visits =
      leave (do (login, s) ← start_up lib print st; visit_all fuel login s visits new_aggregator)
