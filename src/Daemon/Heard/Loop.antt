-- ===== src/Daemon/Heard/Loop.antt =====
-- The inner loop of `main` in src/aprs_wx.cpp against the map of reports.
use aprs_wx.Aggregator.Influx.{Database}
use aprs_wx.Aggregator.Reports.{Reports}
use aprs_wx.AprsIs.Cursor.{at_start}
use aprs_wx.Daemon.Handling.{Control, Daemon, Handled, Settings, goes_on, on_packet, returns_1}
use aprs_wx.Daemon.Heard.{Heard, Said, count_of, hear, hear_all, heard, heard_broken, then_say}
use aprs_wx.Daemon.Heard.Steps.{Does, HasSettings, IsSummed, on_packet-Does}
use aprs_wx.Daemon.Session.{Clock, Ended, inner_loop, inner_loop_round, inner_round, on_control}
use aprs_wx.Double.{Double}
use aprs_wx.Prelude.{
  Bool, Bytes, Ensures, List, Option, Outcome, [], arith, false, length, le→ltb, lt→ltb, ok, refl,
  suc, sym, true, zero, ℕ, ◌++◌, ◌<◌, ◌∙◌, ◌∷◌, ◌≡◌, ◌≤◌,
}
use aprs_wx.Socket.Receive.{Event, Received, get_packet}
use mathlib.Core.Path.{ap₂, subst}

module _ {F : Type 0} where
  abbrev pub is_broken : Heard F → Bool
  is_broken heard_broken = true
  is_broken _ = false

module _ {F : Type 0} ⦃d : Double F⦄ where
  -- `Brings s t rate n w es xs`: from the count `n` on, the calls of `getPacket` return texts that are
  -- heard as `xs`, up to the full count or to a text that ends the program.
  pub data Brings (s : Settings F) (t : Clock) (rate : ℕ)
      : ℕ → ℕ → List Event → List (Heard F) → Type 0 where
    brings_enough : {n w : ℕ} {es : List Event} → rate ≤ n → Brings s t rate n w es []
    brings_broken :
        {n w : ℕ} {es : List Event} (g : Received)
        → n < rate
        → get_packet es w ≡ ok g
        → heard s (t.decoded_at n) g.packet ≡ ok heard_broken
        → Brings s t rate n w es (heard_broken ∷ [])
    brings_text :
        {n w : ℕ} {es : List Event} {xs : List (Heard F)} (g : Received) (x : Heard F)
        → n < rate
        → get_packet es w ≡ ok g
        → heard s (t.decoded_at n) g.packet ≡ ok x
        → is_broken x ≡ false
        → Brings s t rate (count_of rate n x) g.wait_time g.later xs
        → Brings s t rate n w es (x ∷ xs)

  -- The loop has ended with what `said` says.
  abbrev pub Says : Said F → Outcome (Ended F) → Type 0
  Says said m =
      (e : Ended F) × (m ≡ ok e)
      × (e.control ≡ said.control)
      × (e.daemon.aggregator.reports ≡ said.reports)
      × (e.posts ≡ said.posts)
      × IsSummed e.daemon.aggregator

  hear_all_next :
      (db : Option Database) (secure repeats : Bool) (time : ℕ → ℕ) (rate n : ℕ) (x : Heard F)
      (xs : List (Heard F)) (m : Reports F)
      → is_broken x ≡ false
      → hear_all db secure repeats time rate n (x ∷ xs) m ≡ (
          let first = hear db secure repeats (time n) x m in
          then_say first
            (hear_all db secure repeats time rate (count_of rate n x) xs first.reports))
  hear_all_next db secure repeats time rate n heard_broken xs m h = cc
  hear_all_next db secure repeats time rate n _ xs m h = refl

  hear_goes_on :
      (db : Option Database) (secure repeats : Bool) (later : ℕ) (x : Heard F) (m : Reports F)
      → is_broken x ≡ false
      → (hear db secure repeats later x m).control ≡ goes_on
  hear_goes_on db secure repeats later heard_broken m h = cc
  hear_goes_on db secure repeats later _ m h = refl

  on_control-Says :
      (again : Daemon F → Outcome (Ended F)) (es : List Event) (c : Control) (h : Handled F)
      (first said : Said F)
      → c ≡ goes_on
      → h.posts ≡ first.posts
      → Says said (again h.daemon)
      → Says (then_say first said) (on_control again es c h)
  unfolding on_control
  on_control-Says again es goes_on h first said go posts (e, run, control, reports, more, summed) =
      (
        record e { posts = h.posts ++ e.posts },
        rw run,
        control,
        reports,
        ap₂ ◌++◌ posts more,
        summed,
      )
  on_control-Says again es returns_1 h first said go posts says = cc

  on_control-stops :
      (again : Daemon F → Outcome (Ended F)) (es : List Event) (c : Control) (h : Handled F)
      (said : Said F)
      → c ≡ returns_1
      → said.control ≡ returns_1
      → h.daemon.aggregator.reports ≡ said.reports
      → h.posts ≡ said.posts
      → IsSummed h.daemon.aggregator
      → Says said (on_control again es c h)
  unfolding on_control
  on_control-stops again es returns_1 h said stop control reports posts summed =
      (_, refl, sym control, reports, posts, summed)
  on_control-stops again es goes_on h said stop control reports posts summed = cc

  -- `on_packet-Does` on a text that is heard as `x`.
  on_packet-heard :
      (s : Settings F) (secure repeats : Bool) (rate now later : ℕ) (m : Daemon F) (line : Bytes)
      (x : Heard F)
      → HasSettings s secure repeats rate
      → IsSummed m.aggregator
      → heard s now line ≡ ok x
      → Does
          (count_of rate m.packet_count x)
          (hear s.database secure repeats later x m.aggregator.reports)
          (on_packet s now later m (at_start line))
  on_packet-heard s secure repeats rate now later m line x set summed hears =
      subst
        (Ensures λ y.
          Does (count_of rate m.packet_count y)
            (hear s.database secure repeats later y m.aggregator.reports)
            (on_packet s now later m (at_start line)))
        hears (on_packet-Does s secure repeats rate now later m line set summed)

  -- With the settings `secure`, `repeats` and `rate`, from a summed aggregator, and with calls of
  -- `getPacket` that return texts heard as `xs`, the inner loop ends within a round for each of them,
  -- and one more: with the end, the reports and the transfers that `hear_all` says.
  pub inner_loop-Says :
      (k : ℕ) {w : ℕ} {es : List Event} {xs : List (Heard F)} (s : Settings F)
      (secure repeats : Bool) (rate : ℕ) (t : Clock) (m : Daemon F)
      → HasSettings s secure repeats rate
      → IsSummed m.aggregator
      → length xs ≤ k
      → Brings s t rate m.packet_count w es xs
      → Says
          (hear_all s.database secure repeats t.aggregated_at rate m.packet_count xs
            m.aggregator.reports)
          (inner_loop (suc k) s t m w es)
  unfolding inner_round
  inner_loop-Says k {w} {es} s secure repeats rate t m set summed bound (brings_enough full) =
      rw (inner_loop_round k s rate t m w es set.2)
        (rw (le→ltb m.packet_count rate full) (_, refl, refl, refl, refl, summed))
  inner_loop-Says k {w} {es} s secure repeats rate t m set summed bound
        (brings_broken g open_ got hears) =
      let (h, run, control, reports, posts, summed', count) =
        on_packet-heard s secure repeats rate (t.decoded_at m.packet_count)
          (t.aggregated_at m.packet_count) m g.packet heard_broken set summed hears in
      rw (inner_loop_round k s rate t m w es set.2) (
        rw (lt→ltb m.packet_count rate open_) (
          rw got
            (rw run (on_control-stops _ g.later h.control h _ control refl reports posts summed'))))
  inner_loop-Says zero s secure repeats rate t m set summed bound
        (brings_text g x open_ got hears good rest) =
      absurd (omega arith)
  inner_loop-Says (suc k) {w} {es} s secure repeats rate t m set summed bound
        (brings_text {xs = xs} g x open_ got hears good rest) =
      let later = t.aggregated_at m.packet_count in
      let first = hear s.database secure repeats later x m.aggregator.reports in
      let (h, run, control, reports, posts, summed', count) =
        on_packet-heard s secure repeats rate (t.decoded_at m.packet_count) later m g.packet x set
          summed hears in
      let more =
        inner_loop-Says k {w = g.wait_time} {es = g.later} {xs = xs} s secure repeats rate t
          h.daemon set summed' (omega arith)
          (subst (λ j. Brings s t rate j g.wait_time g.later xs) (sym count) rest) in
      let same =
        ap₂ (λ j r. hear_all s.database secure repeats t.aggregated_at rate j xs r) count reports in
      rw
        (hear_all_next s.database secure repeats t.aggregated_at rate m.packet_count x xs
          m.aggregator.reports good)
        (rw (inner_loop_round (suc k) s rate t m w es set.2) (
          rw (lt→ltb m.packet_count rate open_) (
            rw got (
              rw run (
                on_control-Says _ g.later h.control h first _
                  (control
                    ∙ hear_goes_on s.database secure repeats later x m.aggregator.reports good)
                  posts
                  (subst (λ z. Says z (inner_loop (suc k) s t h.daemon g.wait_time g.later)) same
                    more))))))
