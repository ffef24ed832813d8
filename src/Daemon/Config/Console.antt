-- ===== src/Daemon/Config/Console.antt =====
-- The start of `main` in src/aprs_wx.cpp with what it writes on the console, up to the first connection.
pub mod Telling
use aprs_wx.Daemon.Config.{
  Config, ConfigItem, configure, filter_of, initial_config, is_no_call, process, settings_of,
  start_up,
}
use aprs_wx.Daemon.Config.Messages.{config_messages, config_messages-keys_refused, keys_refused}
use aprs_wx.Daemon.Handling.{Settings}
use aprs_wx.Double.{Double}
use aprs_wx.Prelude.{
  Bool-cases, Bytes, Exception, List, Option, Outcome, [], codes, exits, if◌then◌else◌, inl, inr,
  none, ok, refl, some, throws, undefined, unfinished, value, ℕ, ℤ, ◌++◌, ◌>>=◌, ◌∙◌, ◌∷◌, ◌≡◌,
  has_value, map, not, true, ◌&&◌, Bool,
}
use aprs_wx.Socket.Opening.{Login}
use aprs_wx.Utilities.{
  ConfigFile, ConfigStatus, Surroundings, config_path, no_file, open_fail, opened,
}
use aprs_wx.Utilities.Messages.{complaint_on, invalid_file, is_nil, no_database, says_if}

-- What a part of `main` writes, and what it comes to.
pub record Said (A : Type 0) : Type 0 where
  pub messages : List Bytes
  pub result : Outcome A

module _ {A : Type 0} where
  abbrev pub says : List Bytes → Said A → Said A
  says ms rest = record rest { messages = ms ++ rest.messages }

  -- Behind messages that a call makes, if it returns.
  abbrev pub said_by : Outcome (List Bytes) → Said A → Said A
  said_by (ok ms) rest = says ms rest
  said_by (throws e) rest = record { messages = []; result = throws e }
  said_by undefined rest = record { messages = []; result = undefined }
  said_by exits rest = record { messages = []; result = exits }
  said_by unfinished rest = record { messages = []; result = unfinished }

  -- A message, and `exit(1)`.
  abbrev pub gives_up : Bytes → Said A
  gives_up message = record { messages = message ∷ []; result = exits }

-- `value()` in front of what follows.
abbrev pub reads : {A B : Type 0} → Option A → (A → Said B) → Said B
reads none next = record { messages = []; result = throws Exception.bad_optional_access }
reads (some a) next = next a

abbrev pub hello : Bytes
hello = codes "Hello, CWOP APRS-IS!\n"

abbrev pub who : Bytes → Bytes → Bytes
who sign filter = sign ++ b' ' ∷ filter ++ codes "\n"

abbrev pub not_configured : Bytes → Bytes
not_configured path = codes "Configuration file " ++ path ++ codes " not configured.\n"

abbrev pub does_not_exist : Bytes → Bytes
does_not_exist path = codes "Configuration file specified " ++ path ++ codes " does not exist.\n"

abbrev pub could_not_open : Bytes → Bytes → Bytes
could_not_open path reason =
    codes "Could not open configuration file " ++ path ++ codes ": " ++ reason ++ codes "\n"

module _ {F : Type 0} ⦃d : Double F⦄ (lib : ConfigFile F) (print : ℤ → Bytes) where
  -- From the check of the call sign to the first connection.
  unfoldable pub greet : Bytes → Config F → Said (Login × Settings F)
  greet path g =
      let ready = reads g.qth_latitude (λ lat. reads g.qth_longitude (λ lon.
        reads g.filter_radius (λ limit.
          let filter = filter_of print lat lon limit in
          says (hello ∷ []) (
            reads g.callsign (λ sign. says (who sign filter ∷ []) (
              reads g.pass_code (λ pass. record {
                messages = [];
                result = ok (
                  record { call_sign = sign; pass_code = pass; filter = filter },
                  settings_of g lat lon limit,
                );
              }))))))) in
      if is_no_call g.callsign then gives_up (not_configured path) else ready

  -- Behind `open`.
  unfoldable pub on_file : Bytes → Bytes → ConfigStatus ConfigItem → Said (Login × Settings F)
  unfolding greet config_messages
  on_file path reason (opened items) =
      said_by (config_messages lib path items)
        (greet path (process lib items initial_config true).0)
  on_file path reason no_file = gives_up (does_not_exist path)
  on_file path reason open_fail = gives_up (could_not_open path reason)

  unfoldable pub start_program : Surroundings ConfigItem → Said (Login × Settings F)
  unfolding on_file
  start_program tools =
      let path = config_path tools in
      on_file (tools.shown path) (tools.reason path) (tools.open_file path)
