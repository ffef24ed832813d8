-- ===== src/Daemon/Heard.antt =====
-- What the loops of `main` in src/aprs_wx.cpp promise: a map of reports that follows what is heard.
pub mod Steps
pub mod Loop
pub mod Connections
pub mod Texts
use aprs_wx.Aggregator.Influx.{Database}
use aprs_wx.Aggregator.Reports.{Reports}
use aprs_wx.AprsIs.Cursor.{at_start, prefix}
use aprs_wx.AprsIs.Decode.{decode}
use aprs_wx.Daemon.Handling.{Control, Settings, goes_on, is_empty, returns_1, station_of}
use aprs_wx.Daemon.Output.{post_of, reports_text, reports_with}
use aprs_wx.Double.{Double}
use aprs_wx.Packet.Report.{Packet, WxReport, status, wx}
use aprs_wx.Packet.Status.{PacketStatus}
use aprs_wx.Prelude.{
  Bool, Bytes, List, Option, Outcome, [], codes, equal, if◌then◌else◌, none, not, ok, some, ℕ, ◌&&◌,
  ◌++◌, ◌+◌, ◌==◌, ◌>>=◌, ◌∷◌,
}
use aprs_wx.Std.Text.Access.{byte_at}
use aprs_wx.Utilities.{Post}

-- What a text is to the loop: a report, the identification of an aprsc server, a text that changes
-- nothing, one that ends the program, and no text.
pub data Heard (F : Type 0) : Type 0 where
  heard_report : WxReport F → Heard F
  heard_server : Heard F
  heard_other : Heard F
  heard_broken : Heard F
  heard_nothing : Heard F

-- What follows: whether the loop goes on, the reports, and the transfers.
pub record Said (F : Type 0) : Type 0 where
  pub control : Control
  pub reports : Reports F
  pub posts : List Post

module _ {F : Type 0} where
  abbrev pub heard_status : PacketStatus → Packet F → Heard F
  heard_status PacketStatus.wx_packet (wx r) = heard_report r
  heard_status PacketStatus.decoding_error p = heard_broken
  heard_status _ p = heard_other

  -- The count behind a text.
  abbrev pub count_of : ℕ → ℕ → Heard F → ℕ
  count_of rate n heard_nothing = rate
  count_of rate n _ = n + 1

module _ {F : Type 0} ⦃d : Double F⦄ where
  -- The classes of the texts.
  abbrev pub heard_data : Settings F → ℕ → Bytes → Outcome (Heard F)
  heard_data s now line = do
    (p, _) ← decode (station_of s) now (at_start line)
    ok (heard_status (status p) p)

  abbrev pub heard : Settings F → ℕ → Bytes → Outcome (Heard F)
  heard s now line =
      let station = heard_data s now line in
      if equal line []
      then ok heard_nothing
      else if prefix (codes "# aprsc") (at_start line)
      then ok heard_server
      else if byte_at line 0 == b'#'
      then ok heard_other
      else station

  -- The transfer of the text on the reports.
  abbrev pub announce : Option Database → Bool → Reports F → List Post
  announce none secure m = []
  announce (some db) secure m = post_of db secure (reports_text m)

  -- One text, at the time `later`, with the values of `influxTLS` and `influxRepeats`.
  abbrev pub hear : Option Database → Bool → Bool → ℕ → Heard F → Reports F → Said F
  hear db secure repeats later (heard_report r) m =
      let m' = reports_with later r m in
      record { control = goes_on; reports = m'; posts = announce db secure m' }
  hear db secure repeats later heard_server m = record {
    control = goes_on;
    reports = m;
    posts = if repeats && not (is_empty m) then announce db secure m else [];
  }
  hear db secure repeats later heard_other m = record { control = goes_on; reports = m; posts = [] }
  hear db secure repeats later heard_broken m = record {
    control = returns_1;
    reports = m;
    posts = [];
  }
  hear db secure repeats later heard_nothing m = record {
    control = goes_on;
    reports = m;
    posts = [];
  }

  -- A row of texts, from the count `n` on, each at the time that the clock gives for its count.
  abbrev pub then_say : Said F → Said F → Said F
  then_say first rest = record {
    control = rest.control;
    reports = rest.reports;
    posts = first.posts ++ rest.posts;
  }

  abbrev pub hear_all :
      Option Database → Bool → Bool → (ℕ → ℕ) → ℕ → ℕ → List (Heard F) → Reports F → Said F
  hear_all db secure repeats time rate n [] m = record {
    control = goes_on;
    reports = m;
    posts = [];
  }
  hear_all db secure repeats time rate n (heard_broken ∷ xs) m = record {
    control = returns_1;
    reports = m;
    posts = [];
  }
  hear_all db secure repeats time rate n (x ∷ xs) m =
      let first = hear db secure repeats (time n) x m in
      then_say first (hear_all db secure repeats time rate (count_of rate n x) xs first.reports)
