-- ===== src/Monitor/Rounds.antt =====
-- The daemon process of `main` in src/sys_monitor.cpp, and `main` as a whole.
pub mod Posting
pub mod Ending
pub mod Naming
use aprs_wx.Double.{Double}
use aprs_wx.Monitor.Config.{MonitorConfig, MonitorItem, initial_monitor, process_monitor, url_of}
use aprs_wx.Monitor.CpuStats.{
  CpuStats, get_data, get_usage, new_stats, percent_usage, set_past_data,
}
use aprs_wx.Monitor.Hostname.{NameAnswer, is_unknown}
use aprs_wx.Packet.Report.{status}
use aprs_wx.Prelude.{
  Bool, Bytes, List, Option, Outcome, [], codes, exits, false, if◌then◌else◌, neg_ℕ, negsuc, none,
  ok, pos, throws, true, undefined, unfinished, ℕ, ℤ, ◌++◌, ◌+◌, ◌/◌, ◌>>=◌, ◌∷◌,
}
use aprs_wx.Utilities.{ConfigFile, ConfigStatus, Post, no_file, open_fail, opened}

-- The file of the zone: it cannot be opened, `>>` reads a number from it, or it is at its end, and the
-- variable stays unset.
pub data ZoneFile : Type 0 where
  not_opened : ZoneFile
  reads : ℤ → ZoneFile
  at_end : ZoneFile

-- What one round finds: the file of the zone, the first line of /proc/stat, if it can be opened, and
-- whether the transfer to the database succeeds.
pub record Findings : Type 0 where
  pub zone_file : ZoneFile
  pub stat : Option Bytes
  pub delivered : Bool

-- How the process ends: the result of `main`, and the transfers.
pub record Finished : Type 0 where
  pub exit_status : ℕ
  pub posts : List Post

-- z / 1000.
abbrev pub thousandth : ℤ → ℤ
thousandth (pos n) = pos (n / 1000)
thousandth (negsuc n) = neg_ℕ ((n + 1) / 1000)

abbrev pub line_prefix : Bytes → Bytes
line_prefix host_name = codes "sys,host=" ++ (host_name ++ (b' ' ∷ []))

module _ (print : ℤ → Bytes) (pre : Bytes) where
  -- The line of the temperature.
  unfoldable pub zone_line : Bytes → ZoneFile → Outcome Bytes
  zone_line [] f = ok []
  zone_line (c ∷ path) not_opened = ok []
  zone_line (c ∷ path) (reads t) =
      ok (pre ++ (codes "cpuTemp=" ++ (print (thousandth t) ++ (b'\n' ∷ []))))
  zone_line (c ∷ path) at_end = undefined

-- Behind the measurements; `again` is the loop.
unfoldable pub on_measured :
    Bytes → (CpuStats → Outcome Finished) → Bool → Bytes × CpuStats → Outcome Finished
on_measured url again fine ([], s) = ok (record { exit_status = 0; posts = [] })
on_measured url again true (c ∷ data_, s) = do
  e ← again s
  ok (record e { posts = record { url = url; body = c ∷ data_ } ∷ e.posts })
on_measured url again false (c ∷ data_, s) = ok (record { exit_status = 1; posts = [] })

module _ (F : Type 0) ⦃d : Double F⦄ (print : ℤ → Bytes) (pre : Bytes) where
  -- The line of the usage, behind `getData`, and the counters.
  unfoldable pub usage_line : Bool × CpuStats → Bytes × CpuStats
  usage_line (true, s) = (
    pre ++ (codes "cpuUse=" ++ (d.show (percent_usage (get_usage s)) ++ (b'\n' ∷ []))),
    set_past_data s,
  )
  usage_line (false, s) = ([], s)

  -- The measurements of one round.
  unfoldable pub measure : Bytes → Findings → CpuStats → Outcome (Bytes × CpuStats)
  unfolding zone_line usage_line
  measure zone f s = do
    heat ← zone_line print pre zone f.zone_file
    let (usage, s') = usage_line (get_data f.stat s)
    ok (heat ++ usage, s')

  -- `while (run)`, up to the round in which a signal clears `run`.
  unfoldable pub monitor_loop : Bytes → Bytes → List Findings → CpuStats → Outcome Finished
  unfolding measure on_measured
  monitor_loop url zone [] s = ok (record { exit_status = 0; posts = [] })
  monitor_loop url zone (f ∷ fs) s =
      measure zone f s >>= on_measured url (monitor_loop url zone fs) f.delivered

-- The first reading of the counters.
unfoldable pub first_reading : Option Bytes → CpuStats
first_reading stat = let (fine, s) = get_data stat new_stats in if fine then set_past_data s else s

-- The system that the monitor runs on: the answers of `gethostname`, the paths that exist, and the
-- first line of /proc/stat at the start.
pub record Host : Type 0 where
  pub first_answer : NameAnswer
  pub second_answer : NameAnswer
  pub exists : Bytes → Bool
  pub first_stat : Option Bytes

module _ {F : Type 0} ⦃d : Double F⦄ (lib : ConfigFile F) (print : ℤ → Bytes) where
  -- Behind the configuration file.
  unfoldable pub monitor_daemon : Host → Bytes → MonitorConfig → List Findings → Outcome Finished
  unfolding url_of monitor_loop first_reading
  monitor_daemon sys host_name g fs = do
    let zone = if sys.exists g.zone then g.zone else []
    url ← url_of print g
    monitor_loop F print (line_prefix host_name) url zone fs (first_reading sys.first_stat)

  unfoldable pub on_monitor_file :
      Host → Bytes → ConfigStatus MonitorItem → List Findings → Outcome Finished
  unfolding monitor_daemon process_monitor
  on_monitor_file sys host_name (opened items) fs =
      monitor_daemon sys host_name (process_monitor lib print items initial_monitor) fs
  on_monitor_file sys host_name no_file fs = ok (record { exit_status = 1; posts = [] })
  on_monitor_file sys host_name open_fail fs = ok (record { exit_status = 1; posts = [] })

  -- The handler of `main`, which goes on to `return 0`; `exit(1)` ends the process. The transfers in
  -- front of an exception are not kept.
  abbrev pub handle : Outcome Finished → Outcome Finished
  handle (ok e) = ok e
  handle (throws e) = ok (record { exit_status = 0; posts = [] })
  handle exits = ok (record { exit_status = 1; posts = [] })
  handle undefined = undefined
  handle unfinished = unfinished

  unfoldable pub monitor_main : Host → ConfigStatus MonitorItem → List Findings → Outcome Finished
  unfolding on_monitor_file is_unknown
  monitor_main sys status fs =
      let (unknown, h) = is_unknown sys.first_answer sys.second_answer none in
      let body = on_monitor_file sys h.view status fs in handle (if unknown then exits else body)
