-- ===== src/Daemon/Senders.antt =====
-- Two weather reports behind each other in the loop of `main` in src/aprs_wx.cpp.
use aprs_wx.Aggregator.Influx.{Database}
use aprs_wx.Aggregator.Reports.{Reports, find_report, is_old}
use aprs_wx.Aggregator.Reports.Order.{IsSorted, erase_old-assign, young}
use aprs_wx.Aggregator.Reports.Same.{IsSorted-unique, swap_tests, test_twice}
use aprs_wx.Daemon.Handling.{Daemon, Handled, Settings, on_report}
use aprs_wx.Daemon.Output.{on_report-Output, post_of, reports_text, reports_with}
use aprs_wx.Daemon.Safety.{IsReady, Weighed, on_report-Serves}
use aprs_wx.Double.{Double}
use aprs_wx.Packet.Report.{WxReport, wx}
use aprs_wx.Prelude.{
  Bool, Bool-cases, Bytes, Option, Outcome, ap, equal, false, if◌then◌else◌, inl, inr, none, ok,
  refl, some, sym, true, ℕ, ◌>>=◌, ◌∙◌, ◌≡◌,
}
use mathlib.Core.Path.{subst}

module _ {F : Type 0} ⦃d : Double F⦄ (now : ℕ) where
  young_twice : (o : Option (WxReport F)) → young now (young now o) ≡ young now o
  young_twice none = refl
  young_twice (some r) = elim (Bool-cases (is_old now r)) [
    | inl old ↦ rw old refl
    | inr fresh ↦ rw fresh (rw fresh)
  ]

  young_if :
      (b : Bool) (x o : Option (WxReport F))
      → young now (if b then x else young now o) ≡ young now (if b then x else o)
  young_if true x o = refl
  young_if false x o = young_twice o

  -- A search behind two reports.
  find_report-both :
      (r q : WxReport F) (m : Reports F) (key : Bytes)
      → IsSorted m
      → find_report key (reports_with now r (reports_with now q m))
        ≡ young now (
            if equal key r.info.name
            then some r
            else if equal key q.info.name
            then some q
            else find_report key m)
  find_report-both r q m key sorted =
      let first = erase_old-assign now q.info.name key q m sorted in
      (erase_old-assign now r.info.name key r (reports_with now q m) first.0).1
      ∙ ap (λ o. young now (if equal key r.info.name then some r else o)) first.1
      ∙ young_if (equal key r.info.name) (some r) _

  reports_with-IsSorted :
      (r q : WxReport F) (m : Reports F)
      → IsSorted m
      → IsSorted (reports_with now r (reports_with now q m))
  reports_with-IsSorted r q m sorted =
      let first = erase_old-assign now q.info.name q.info.name q m sorted in
      (erase_old-assign now r.info.name r.info.name r (reports_with now q m) first.0).0

  reports_with_order :
      (r q : WxReport F) (m : Reports F)
      → IsSorted m
      → equal r.info.name q.info.name ≡ false
      → reports_with now r (reports_with now q m) ≡ reports_with now q (reports_with now r m)
  reports_with_order r q m sorted apart =
      IsSorted-unique _ _ (reports_with-IsSorted r q m sorted) (reports_with-IsSorted q r m sorted)
        (λ key.
          find_report-both r q m key sorted
          ∙ ap (young now)
              (swap_tests r.info.name q.info.name key apart (some r) (some q) (find_report key m))
          ∙ sym (find_report-both q r m key sorted))

  reports_with_again :
      (r q : WxReport F) (m : Reports F)
      → IsSorted m
      → q.info.name ≡ r.info.name
      → reports_with now r (reports_with now q m) ≡ reports_with now r m
  reports_with_again r q m sorted same =
      let alone = λ (key : Bytes). erase_old-assign now r.info.name key r m sorted in
      IsSorted-unique _ _ (reports_with-IsSorted r q m sorted) (alone r.info.name).0 (λ key.
        find_report-both r q m key sorted
        ∙ ap
            (λ name. young now (
              if equal key r.info.name
              then some r
              else if equal key name
              then some q
              else find_report key m))
            same
        ∙ ap (young now) (test_twice (equal key r.info.name) (some r) (some q) (find_report key m))
        ∙ sym (alone key).1)

module _ {F : Type 0} ⦃d : Double F⦄ where
  -- The loop on one report and then on another.
  abbrev pub both_reports :
      Settings F → ℕ → Daemon F → WxReport F → WxReport F → Outcome (Handled F)
  both_reports s now m first second = do
    h ← on_report s now m (wx first)
    on_report s now h.daemon (wx second)

  -- Both runs of the loop go through, and leave the same reports and the same transfers.
  abbrev pub Agree : Outcome (Handled F) → Outcome (Handled F) → Type 0
  Agree left right =
      (h : Handled F) × (k : Handled F) × (left ≡ ok h)
      × (right ≡ ok k)
      × (h.daemon.aggregator.reports ≡ k.daemon.aggregator.reports)
      × (h.posts ≡ k.posts)

module _ {F : Type 0} ⦃d : Double F⦄ (s : Settings F) (now : ℕ) (db : Database) (secure : Bool)
    (database : s.database ≡ some db) (tls : s.influx_tls ≡ some secure) where
  -- What the loop comes to behind a report, with a ready aggregator.
  abbrev Leaves : Reports F → Outcome (Handled F) → Type 0
  Leaves reports outcome =
      (h : Handled F) × (outcome ≡ ok h)
      × IsReady h.daemon.aggregator
      × (h.daemon.aggregator.reports ≡ reports)
      × (h.posts ≡ post_of db secure (reports_text reports))

  on_report-Leaves :
      (m : Daemon F) (r : WxReport F)
      → IsReady m.aggregator
      → Weighed r
      → Leaves (reports_with now r m.aggregator.reports) (on_report s now m (wx r))
  on_report-Leaves m r ready w =
      let (h, run, goes, reports, posts) =
        on_report-Output s now m r db secure ready w database tls in
      let (h', run', ready', count) = on_report-Serves s now m r (rw tls) ready w in
      let same : h' ≡ h = cc (run, run') in
      (h, run, subst (λ x. IsReady x.daemon.aggregator) same ready', reports, posts)

  both_reports-Leaves :
      (m : Daemon F) (first second : WxReport F)
      → IsReady m.aggregator
      → Weighed first
      → Weighed second
      → Leaves
          (reports_with now second (reports_with now first m.aggregator.reports))
          (both_reports s now m first second)
  both_reports-Leaves m first second ready w w' =
      let (h, run, ready', reports, posts) = on_report-Leaves m first ready w in
      rw run (
        subst (λ x. Leaves (reports_with now second x) (on_report s now h.daemon (wx second)))
          reports (on_report-Leaves h.daemon second ready' w'))

  Leaves-Agree :
      (left right : Outcome (Handled F)) {m n : Reports F}
      → m ≡ n
      → Leaves m left
      → Leaves n right
      → Agree left right
  Leaves-Agree left right same (h, run, ready, reports, posts) (k, run', ready', reports', posts') =
      (
        h,
        k,
        run,
        run',
        reports ∙ same ∙ sym reports',
        posts ∙ ap (λ m. post_of db secure (reports_text m)) same ∙ sym posts',
      )

  -- From a ready aggregator whose names ascend, with a database and a valid value of `influxTLS`, and for
  -- weather reports with weights at one time: behind two reports of different senders the loop has the
  -- same reports and posts the same text in whichever order they come in; and behind two reports of one
  -- sender it has the reports and posts the text as if the first had not come in.
  pub both_reports-Agree :
      (m : Daemon F) (r q old : WxReport F)
      → IsReady m.aggregator
      → IsSorted m.aggregator.reports
      → Weighed r
      → Weighed q
      → Weighed old
      → equal r.info.name q.info.name ≡ false
      → old.info.name ≡ r.info.name
      → Agree (both_reports s now m r q) (both_reports s now m q r)
        × Agree (both_reports s now m old r) (on_report s now m (wx r))
  both_reports-Agree m r q old ready sorted w w' w'' apart same = (
    Leaves-Agree (both_reports s now m r q) (both_reports s now m q r)
        (sym (reports_with_order now r q m.aggregator.reports sorted apart))
        (both_reports-Leaves m r q ready w w') (both_reports-Leaves m q r ready w' w),
    Leaves-Agree (both_reports s now m old r) (on_report s now m (wx r))
        (reports_with_again now r old m.aggregator.reports sorted same)
        (both_reports-Leaves m old r ready w'' w) (on_report-Leaves m r ready w),
  )
