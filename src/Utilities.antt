-- ===== src/Utilities.antt =====
-- The interface of the utilities beside this repository that both programs read their configuration
-- by; the conversions of the values are theirs, and each use of them takes them as an argument. And
-- what both programs hand to curlpp.
pub mod Messages
use aprs_wx.Prelude.{Bool, Bytes, List, Option, codes, if◌then◌else◌, ℕ, ℤ}

-- `class ConfigFile`: the conversions of a value.
pub record ConfigFile (F : Type 0) : Type 0 where
  pub is_alnum : ℕ → Bool
  pub is_digit : ℕ → Bool
  pub to_upper : ℕ → ℕ
  pub parse_text : Bytes → (ℕ → Bool) → Option Bytes
  pub parse_text_by : Bytes → (ℕ → Bool) → (ℕ → ℕ) → Option Bytes
  pub parse_boolean : Bytes → Option Bool
  pub convert_double : Bytes → Option F
  pub convert_long : Bytes → Option ℤ
  pub convert_unsigned_long : Bytes → Option ℕ

-- What the programs hand to curlpp: the address, and the text.
pub record Post : Type 0 where
  pub url : Bytes
  pub body : Bytes

-- What `open` tells: the items of the file, with their values in the order of the file, or a failure.
pub data ConfigStatus (K : Type 0) : Type 0 where
  opened : List (K × Bytes) → ConfigStatus K
  no_file : ConfigStatus K
  open_fail : ConfigStatus K

-- `class InputParser` on the arguments of the process, `appResourcesAppend`, and what the system tells of
-- a path: its output, the file, and the reason if it cannot be opened.
pub record Surroundings (K : Type 0) : Type 0 where
  pub cmd_option_exists : Bytes → Bool
  pub get_cmd_option : Bytes → Bytes
  pub app_resources_append : Bytes → Bytes
  pub shown : Bytes → Bytes
  pub open_file : Bytes → ConfigStatus K
  pub reason : Bytes → Bytes

-- The path of the configuration file, by the same lines in both programs.
abbrev pub config_path : {K : Type 0} → Surroundings K → Bytes
config_path tools =
    if tools.cmd_option_exists (codes "--config")
    then tools.get_cmd_option (codes "--config")
    else tools.app_resources_append (codes "config.txt")
