-- ===== src/Tests/Monitoring.antt =====
-- The theorems of the loop of the monitor.
use aprs_wx.Monitor.Config.{
  MonitorItem, cpu_zone, database_host, database_name, database_port, on_monitor_item,
  process_monitor,
}
use aprs_wx.Monitor.CpuStats.{from_blank, from_digit, get_data, read_numbers}
use aprs_wx.Monitor.Hostname.{Hostname, is_unknown, is_valid, named, names, not_named}
use aprs_wx.Monitor.Rounds.{Findings, Host, line_prefix, monitor_main, not_opened, reads}
use aprs_wx.Monitor.Rounds.Ending.{monitor_main-texts}
use aprs_wx.Monitor.Rounds.Naming.{monitor_main-answered}
use aprs_wx.Monitor.Rounds.Posting.{HasZero, Posts, texts}
use native.Mathlib.Nat.{zero-div}
use aprs_wx.Prelude.{
  All, Bytes, List, [], codes, none, not, ok, pos, refl, some, true, ℕ, ℤ, ◌∷◌, ◌≡◌,
}
use aprs_wx.Std.Number.{digits_value, from_chars_unsigned, is_digit, starts_digit}
use aprs_wx.Tests.Usage.{counting}
use aprs_wx.Utilities.{ConfigFile, opened}

-- Conversions of the configuration over numbers: a text is its own value, and a number its first byte.
abbrev first_byte : Bytes → ℤ
first_byte [] = pos 0
first_byte (c ∷ s) = pos c

abbrev plain_file : ConfigFile ℕ
plain_file = record {
  is_alnum = λ c. true;
  is_digit = λ c. true;
  to_upper = λ c. c;
  parse_text = λ s test. some s;
  parse_text_by = λ s test change. some s;
  parse_boolean = λ s. none;
  convert_double = λ s. none;
  convert_long = λ s. some (first_byte s);
  convert_unsigned_long = λ s. none;
}

abbrev items : List (MonitorItem × Bytes)
items =
    (database_host, codes "db")
    ∷ (database_port, codes "8")
    ∷ (database_name, codes "sys")
    ∷ (cpu_zone, codes "0")
    ∷ []

abbrev print_0 : ℤ → Bytes
print_0 z = codes "0"

abbrev computer : Host
computer = record {
  first_answer = named (codes "pi");
  second_answer = named (codes "pi");
  exists = λ path. true;
  first_stat = none;
}

-- A computer whose name cannot be read at first, and an object with a name and an error.
abbrev nameless : Host
nameless = record computer { first_answer = not_named (pos 36) }

abbrev odd : Hostname
odd = record { err = pos 36; view = codes "pi" }

monitor_main-answered_example :
    (monitor_main ⦃d = counting⦄ plain_file print_0 nameless (opened items) []
      ≡ ok (record { exit_status = 1; posts = [] }))
    × (names
          (named (codes "b") ∷ not_named (pos 36) ∷ [])
          (some (is_unknown (not_named (pos 36)) (named (codes "pi")) none).1)
        ≡ [] ∷ [] ∷ [])
    × (is_unknown (not_named (pos 36)) (named (codes "pi")) (some odd) ≡ (not (is_valid odd), odd))
monitor_main-answered_example =
    monitor_main-answered ⦃d = counting⦄ plain_file print_0 nameless (opened items) []
      (named (codes "b") ∷ not_named (pos 36) ∷ []) odd

abbrev found_rounds : List Findings
found_rounds =
    record { zone_file = reads (pos 45277); stat = some (codes "cpu  12 7"); delivered = true }
    ∷ record { zone_file = not_opened; stat = none; delivered = true }
    ∷ []

found_rounds-Posts : All Posts found_rounds
unfolding get_data read_numbers from_digit from_blank from_chars_unsigned digits_value starts_digit
    is_digit
found_rounds-Posts = ((tt, λ s. refl, refl), ((tt, λ s. refl, refl), tt))

counting-HasZero : HasZero ℕ ⦃d = counting⦄ print_0 (line_prefix (codes "pi"))
counting-HasZero = (refl, λ n h. zero-div n)

monitor_main-texts_example :
    monitor_main ⦃d = counting⦄ plain_file print_0 computer (opened items) found_rounds
    ≡ ok (record {
      exit_status = 0;
      posts =
          texts ℕ ⦃d = counting⦄ print_0
            (line_prefix (codes "pi"))
            (codes "http://db:0/write?db=sys")
            (codes "/sys/class/thermal/thermal_zone0/temp")
            found_rounds;
    })
unfolding process_monitor on_monitor_item is_unknown
monitor_main-texts_example =
    monitor_main-texts ⦃d = counting⦄ plain_file print_0 computer items found_rounds (codes "db")
      (pos b'8') (codes "sys") refl refl refl refl counting-HasZero found_rounds-Posts
