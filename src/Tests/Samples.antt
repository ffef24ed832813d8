-- ===== src/Tests/Samples.antt =====
-- Inputs that the examples share, over formulas.
use aprs_wx.Std.Text.Access.{Lacks}
use aprs_wx.Aggregator.Influx.{Database}
use aprs_wx.Aggregator.Reports.{assign}
use aprs_wx.Aggregator.Sums.{WeatherAggregator, new_aggregator}
use aprs_wx.AprsIs.Decode.{Station, station_at}
use aprs_wx.Double.Formula.{Formula, formula_double, literal}
use aprs_wx.Packet.Position.{new_position}
use aprs_wx.Packet.Report.{WxReport, new_report, no_values, set_slot}
use aprs_wx.Prelude.{
  Bool, Bytes, [], arith, codes, not, refl, some, true, ℕ, ◌&&◌, ◌++◌, ◌==◌, ◌∷◌, ◌≡◌,
}

-- A test for the bytes of a header.
abbrev pub lacks : ℕ → Bytes → Bool
lacks x [] = true
lacks x (y ∷ s) = not (y == x) && lacks x s

pub lacks-Lacks : (x : ℕ) (s : Bytes) → lacks x s ≡ true → Lacks x s
lacks-Lacks x [] h = tt
lacks-Lacks x (y ∷ s) h = (ground arith, lacks-Lacks x s (ground arith))

abbrev pub home_lat : Formula
home_lat = literal 454 1

abbrev pub home_lon : Formula
home_lon = literal 757 1

abbrev pub range : Formula
range = literal 50 0

abbrev pub home : Station Formula
home = station_at home_lat home_lon range

abbrev pub store : Database
store = record { host = codes "db"; port = 8086; database = codes "wx" }

abbrev pub call : Bytes
call = codes "VE3YSH"

abbrev pub route : Bytes
route = codes "APRS,TCPIP*"

abbrev pub header : Bytes
header = call ++ b'>' ∷ route

pub call-Lacks : Lacks b'>' call
call-Lacks = lacks-Lacks b'>' call refl

pub header-Lacks : Lacks b':' header
header-Lacks = lacks-Lacks b':' header refl

-- A report without a date, behind its discriminator.
abbrev pub weather : Bytes
weather = codes "4523.50N/07541.25W_090/004g010t068r000h50b10132\n"

-- The report of a station with a temperature and a weight, received at time 7.
abbrev pub weighed : WxReport Formula
weighed = record (new_report 7) {
  position = record new_position { hann_value = some (literal 1 0) };
  weather_value = set_slot no_values 3 (literal 68 0);
}

abbrev pub weighed-HasWeight : (h : Formula) × (weighed.position.hann_value ≡ some h)
weighed-HasWeight = (literal 1 0, refl)

abbrev pub gathered : WeatherAggregator Formula
gathered = record new_aggregator { reports = assign call weighed [] }
