-- ===== src/Daemon/Heard/Connections.antt =====
-- The outer loop of `main` in src/aprs_wx.cpp, and `main` as a whole, against the map of reports.
use aprs_wx.Aggregator.Influx.{Database}
use aprs_wx.Aggregator.Reports.{Reports}
use aprs_wx.Aggregator.Sums.{WeatherAggregator, new_aggregator}
use aprs_wx.Daemon.Config.{ConfigItem, start_up}
use aprs_wx.Daemon.Handling.{Control, Settings, goes_on, returns_1}
use aprs_wx.Daemon.Heard.{
  Heard, Said, count_of, hear_all, heard_broken, heard_nothing, heard_other, heard_report,
  heard_server, then_say,
}
use aprs_wx.Daemon.Heard.Loop.{
  Brings, Says, brings_broken, brings_enough, brings_text, inner_loop-Says,
}
use aprs_wx.Daemon.Heard.Steps.{HasSettings, IsSummed, new_aggregator-IsSummed}
use aprs_wx.Daemon.Session.{Clock, Ended}
use aprs_wx.Daemon.Visits.{
  Served, Visit, new_daemon, on_ended, on_open, run_main, status_of, visit_all,
}
use aprs_wx.Double.{Double}
use aprs_wx.Prelude.{
  All, Bool, Bytes, List, Option, Outcome, [], arith, false, length, map, ok, refl, suc, sym, true,
  ℕ, ℤ, ◌++◌, ◌+◌, ◌-◌, ◌<◌, ◌∷◌, ◌≡◌, ◌≤◌,
}
use aprs_wx.Socket.Opening.{Login, Opened, open_connection}
use aprs_wx.Socket.Receive.{Event}
use aprs_wx.Utilities.{ConfigFile, ConfigStatus}
use mathlib.Core.Path.{ap₂, subst}

module _ {F : Type 0} ⦃d : Double F⦄ where
  -- A row of connections, with what is heard on each: a text that ends the program ends the row.
  abbrev pub then_go_on : Control → Said F → Said F → Said F
  then_go_on goes_on first rest = then_say first rest
  then_go_on returns_1 first rest = first

  abbrev pub hear_turns :
      Option Database → Bool → Bool → ℕ → List (Visit × List (Heard F)) → Reports F → Said F
  hear_turns db secure repeats rate [] m = record { control = goes_on; reports = m; posts = [] }
  hear_turns db secure repeats rate ((v, xs) ∷ turns) m =
      let first = hear_all db secure repeats v.clock.aggregated_at rate 0 xs m in
      then_go_on first.control first (hear_turns db secure repeats rate turns first.reports)

  -- The connection fails and nothing is heard, or its texts are heard as `xs`.
  pub data Turns (s : Settings F) (rate : ℕ) (login : Login) (v : Visit)
      : List (Heard F) → Type 0 where
    turns_down :
        (o : Opened)
        → open_connection login v.attempts ≡ ok o
        → o.is_open ≡ false
        → Turns s rate login v []
    turns_up :
        {xs : List (Heard F)} (o : Opened)
        → open_connection login v.attempts ≡ ok o
        → o.is_open ≡ true
        → Brings s v.clock rate 0 o.wait_time o.later xs
        → Turns s rate login v xs

  count_above : (rate n : ℕ) (x : Heard F) → n < rate → rate - count_of rate n x + 1 ≤ rate - n
  count_above rate n heard_nothing h = omega arith
  count_above rate n (heard_report r) h = omega arith
  count_above rate n heard_server h = omega arith
  count_above rate n heard_other h = omega arith
  count_above rate n heard_broken h = omega arith

  -- The count bounds what is heard on a connection.
  Brings-length :
      {s : Settings F} {t : Clock} {rate n w : ℕ} {es : List Event} {xs : List (Heard F)}
      → Brings s t rate n w es xs
      → length xs ≤ rate - n
  Brings-length (brings_enough full) = omega arith
  Brings-length (brings_broken g open_ got hears) = omega arith
  Brings-length {rate = rate} {n = n} (brings_text {xs = xs} g x open_ got hears good rest) =
      omega (arith, Brings-length rest, count_above rate n x open_)

  -- The loop has ended with what `said` says.
  abbrev pub Leads : Said F → Outcome (Served F) → Type 0
  Leads said m =
      (v : Served F) × (m ≡ ok v)
      × (v.control ≡ said.control)
      × (v.aggregator.reports ≡ said.reports)
      × (v.posts ≡ said.posts)
      × IsSummed v.aggregator

  on_open-Says :
      (s : Settings F) (secure repeats : Bool) (rate : ℕ) (login : Login) (v : Visit)
      (xs : List (Heard F)) (a : WeatherAggregator F)
      → HasSettings s secure repeats rate
      → IsSummed a
      → Turns s rate login v xs
      → (o : Opened) × (open_connection login v.attempts ≡ ok o)
        × Says
            (hear_all s.database secure repeats v.clock.aggregated_at rate 0 xs a.reports)
            (on_open (suc rate) s v.clock a o)
  unfolding on_open
  on_open-Says s secure repeats rate login v [] a set summed (turns_down o opens shut) =
      (o, opens, rw shut (_, refl, refl, refl, refl, summed))
  on_open-Says s secure repeats rate login v xs a set summed (turns_up o opens open_ brings) = (
    o,
    opens,
    rw open_ (
        inner_loop-Says rate s secure repeats rate v.clock (new_daemon a) set summed
          (omega (arith, Brings-length brings)) brings),
  )

  on_ended-Leads :
      (again : WeatherAggregator F → Outcome (Served F)) (c : Control) (e : Ended F)
      (first said : Said F)
      → c ≡ first.control
      → e.daemon.aggregator.reports ≡ first.reports
      → e.posts ≡ first.posts
      → IsSummed e.daemon.aggregator
      → Leads said (again e.daemon.aggregator)
      → Leads (then_go_on first.control first said) (on_ended again c e)
  unfolding on_ended
  on_ended-Leads again goes_on e first said c reports posts summed
        (v, run, control, r, p, summed') =
      rw (sym c)
        (record v { posts = e.posts ++ v.posts }, rw run, control, r, ap₂ ◌++◌ posts p, summed')
  on_ended-Leads again returns_1 e first said c reports posts summed rest =
      rw (sym c) (_, refl, refl, reports, posts, summed)

  -- With the settings `secure`, `repeats` and `rate`, and from a summed aggregator, the loop over
  -- connections on which `turns` are heard ends with the control, the reports and the transfers that
  -- `hear_turns` says: the reports of one connection are those with which the next begins.
  pub visit_all-Leads :
      (turns : List (Visit × List (Heard F))) (s : Settings F) (secure repeats : Bool) (rate : ℕ)
      (login : Login) (a : WeatherAggregator F)
      → HasSettings s secure repeats rate
      → IsSummed a
      → All (λ p. Turns s rate login p.0 p.1) turns
      → Leads
          (hear_turns s.database secure repeats rate turns a.reports)
          (visit_all (suc rate) login s (map (λ p. p.0) turns) a)
  unfolding visit_all
  visit_all-Leads [] s secure repeats rate login a set summed h =
      (_, refl, refl, refl, refl, summed)
  visit_all-Leads ((v, xs) ∷ turns) s secure repeats rate login a set summed (turn, h) =
      let (o, opens, (e, run, control, reports, posts, summed')) =
        on_open-Says s secure repeats rate login v xs a set summed turn in
      let first = hear_all s.database secure repeats v.clock.aggregated_at rate 0 xs a.reports in
      let rest =
        visit_all-Leads turns s secure repeats rate login e.daemon.aggregator set summed' h in
      rw opens (
        rw run (
          on_ended-Leads _ e.control e first _ control reports posts summed' (
            subst
              (λ m.
                Leads (hear_turns s.database secure repeats rate turns m)
                  (visit_all (suc rate) login s (map (λ p. p.0) turns) e.daemon.aggregator))
              reports rest)))

  -- With a file from which the login and the settings `secure`, `repeats` and `rate` come, and with
  -- connections on which `turns` are heard, `main` returns: 1 if a text was broken, and 0 otherwise,
  -- with the transfers that `hear_turns` says from no reports on: behind each report the means of the
  -- reports that are not too old, and on each line that starts with `# aprsc` the means again, if
  -- there are reports and the settings say so; on the identification of another server nothing. No
  -- exception and no undefined read ends it.
  pub run_main-Says :
      (lib : ConfigFile F) (print : ℤ → Bytes) (st : ConfigStatus ConfigItem) (login : Login)
      (s : Settings F) (secure repeats : Bool) (rate : ℕ) (turns : List (Visit × List (Heard F)))
      → start_up lib print st ≡ ok (login, s)
      → HasSettings s secure repeats rate
      → All (λ p. Turns s rate login p.0 p.1) turns
      → let said = hear_turns s.database secure repeats rate turns [] in
        run_main (suc rate) lib print st (map (λ p. p.0) turns)
        ≡ ok (record { exit_status = status_of said.control; posts = said.posts })
  unfolding run_main
  run_main-Says lib print st login s secure repeats rate turns started set h =
      let (v, run, control, reports, posts, summed) =
        visit_all-Leads turns s secure repeats rate login new_aggregator set new_aggregator-IsSummed
          h in
      rw started
        (rw run (ap₂ (λ c p. ok (record { exit_status = status_of c; posts = p })) control posts))
