-- ===== src/Monitor/Rounds/Naming.antt =====
-- The host name in `main` of src/sys_monitor.cpp.
use aprs_wx.Double.{Double}
use aprs_wx.Monitor.Config.{MonitorItem}
use aprs_wx.Monitor.Hostname.{
  Hostname, NameAnswer, answered, is_unknown, is_unknown-answered, is_unknown-is_valid, is_valid,
  names, names-answered, repeated, view-new_hostname,
}
use aprs_wx.Monitor.Rounds.{Findings, Finished, Host, handle, monitor_main, on_monitor_file}
use aprs_wx.Prelude.{
  Bytes, List, Outcome, [], equal, if◌then◌else◌, none, not, ok, some, refl, Bool-cases, inl, inr,
  ℤ, ◌≡◌,
}
use aprs_wx.Utilities.{ConfigFile, ConfigStatus}

module _ {F : Type 0} ⦃d : Double F⦄ (lib : ConfigFile F) (print : ℤ → Bytes) where
  -- `main` behind its first line, with a name of the host.
  abbrev pub named_main : Host → Bytes → ConfigStatus MonitorItem → List Findings → Outcome Finished
  named_main sys word status fs =
      let body = on_monitor_file lib print sys word status fs in
      if equal word [] then ok (record { exit_status = 1; posts = [] }) else handle lib print body

  -- Only the first answer of `gethostname` counts. If it fails or gives an empty name, `main` returns 1
  -- without a transfer, whatever the file and the rounds; otherwise it goes on under the name in the
  -- answer, and all later calls of `name` return that name, whatever `gethostname` would answer then. And
  -- on any object, the test of `main` is the opposite of `operator bool`.
  pub monitor_main-answered :
      (sys : Host) (status : ConfigStatus MonitorItem) (fs : List Findings)
      (answers : List NameAnswer) (h : Hostname)
      → let object = (is_unknown sys.first_answer sys.second_answer none).1 in
        (monitor_main lib print sys status fs
          ≡ named_main sys (answered sys.first_answer) status fs)
        × (names answers (some object) ≡ repeated (answered sys.first_answer) answers)
        × (is_unknown sys.first_answer sys.second_answer (some h) ≡ (not (is_valid h), h))
  unfolding monitor_main
  monitor_main-answered sys status fs answers h = (
    rw (is_unknown-answered sys.first_answer sys.second_answer) (
        rw (view-new_hostname sys.first_answer)
          (elim (Bool-cases (equal (answered sys.first_answer) [])) [
            | inl nothing ↦ rw nothing refl
            | inr something ↦ rw something refl
          ])),
    names-answered sys.first_answer sys.second_answer answers,
    is_unknown-is_valid sys.first_answer sys.second_answer h,
  )
