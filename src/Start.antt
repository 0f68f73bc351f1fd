-- ===== src/Start.antt =====
-- src/main.rs, src/cmd/mod.rs, src/cmd/key.rs, src/cmd/server.rs: the program from its arguments to its exit
-- code. The host, the configuration and what the commands do are parameters.
pub mod Exits
pub mod Added
pub mod Answered
mod Samples
use gateway_rs.Base.{
  ℕ, Bool, true, false, List, [], ◌∷◌, ◌++◌, Option, none, some, Result, ok, err, ◌==◌, not, ◌||◌,
  if◌then◌else◌, Text, text,
}
use gateway_rs.Account.Modes.{LogMethod, stdio, syslog}
use gateway_rs.Command.Info.{InfoKey, name, key, onboarding_key}

-- `U` are the arguments of the update commands and `A` those of the command that adds a gateway.
pub data Cmd (U A : Type 0) : Type 0 where
  key_info : Cmd U A
  info : List InfoKey → Cmd U A
  update : U → Cmd U A
  server : Cmd U A
  add : A → Cmd U A

pub record Cli (U A : Type 0) : Type 0 where
  pub config : Text
  pub daemon : Bool
  pub stdin : Bool
  pub cmd : Cmd U A

-- What the logger is made of: the drain with its level, and the timestamps of the standard output.
pub data Drain (V : Type 0) : Type 0 where
  syslog_drain : V → Drain V
  term_drain : Bool → V → Drain V

pub record LogSettings (V : Type 0) : Type 0 where
  pub method : LogMethod
  pub level : V
  pub timestamp : Bool

-- The connection to the syslog is given, or fails; the failure stops the program.
unfoldable pub mk_logger : {V : Type 0} → Bool → LogSettings V → Option (Drain V)
mk_logger syslog_works log = elim log.method [
  | syslog ↦ if syslog_works then some (syslog_drain log.level) else none
  | stdio ↦ some (term_drain log.timestamp log.level)
]

-- What the task that waits for the end meets: an interrupt, or a read of so many bytes or an error.
pub data Signal : Type 0 where
  ctrl_c : Signal
  read : Option ℕ → Signal

-- Whether the shutdown is triggered. Without the flag the standard input is not read.
unfoldable pub wait_for_end : Bool → List Signal → Bool
wait_for_end stdin [] = false
wait_for_end stdin (ctrl_c ∷ rest) = true
wait_for_end stdin (read none ∷ rest) = wait_for_end stdin rest
wait_for_end stdin (read (some n) ∷ rest) =
    let later = wait_for_end stdin rest in if stdin then (if n == 0 then true else later) else later

-- What a command does with the settings.
pub record Commands (E G U A : Type 0) : Type 0 where
  pub info_cmd : G → List InfoKey → Result E (Unit {0})
  pub update_cmd : G → U → Result E (Unit {0})
  pub add_cmd : G → A → Result E (Unit {0})
  pub server_cmd : G → Result E (Unit {0})

-- An error is logged, or it is what `main` returns, which the language prints with the exit code 1.
pub data Report (E : Type 0) : Type 0 where
  logged : E → Report E
  printed : E → Report E

-- How the program ends: with a code, or with a panic.
pub data ProgramEnd : Type 0 where
  exits : ℕ → ProgramEnd
  panics : Text → ProgramEnd

-- Each host call that the program insists on: the start as a daemon, the configuration at a path, the
-- syslog, the standard log and the runtime. `log` gives the settings of the logger.
pub record Host (E G V : Type 0) : Type 0 where
  pub daemonize : Bool
  pub settings : Text → Result E G
  pub log : G → LogSettings V
  pub syslog_works : Bool
  pub log_init : Bool
  pub runtime : Bool

module _ {E : Type 0} where
  -- `expect`
  unfoldable pub insist : Bool → Text → List (Report E) × ProgramEnd → List (Report E) × ProgramEnd
  insist true what after = after
  insist false what after = ([], panics what)

  -- The errors that are logged, and the end with the code of a result.
  unfoldable pub exit_with : Result E (Unit {0}) → List (Report E) × ProgramEnd
  exit_with (ok u) = ([], exits 0)
  exit_with (err e) = (logged e ∷ [], exits 1)

module _ {E G U A : Type 0} (commands : Commands E G U A) where
  -- `key::Info::run`
  unfoldable pub run_key_info : G → Result E (Unit {0})
  run_key_info settings = commands.info_cmd settings (name ∷ key ∷ onboarding_key ∷ [])

  unfoldable pub run_cmd : Cmd U A → G → Result E (Unit {0})
  run_cmd key_info settings = run_key_info settings
  run_cmd (info keys) settings = commands.info_cmd settings keys
  run_cmd (update cmd) settings = commands.update_cmd settings cmd
  run_cmd (add cmd) settings = commands.add_cmd settings cmd
  run_cmd server settings = commands.server_cmd settings

  module _ {V : Type 0} (host : Host E G V) where
    unfoldable pub run_logged : Cmd U A → G → Option (Drain V) → List (Report E) × ProgramEnd
    run_logged cmd settings none = ([], panics (text "syslog drain"))
    run_logged cmd settings (some drain) =
        insist host.log_init (text "log init")
          (insist host.runtime (text "runtime build") (exit_with (run_cmd cmd settings)))

    unfoldable pub run_configured : Cmd U A → Result E G → List (Report E) × ProgramEnd
    run_configured cmd (err e) = (printed e ∷ [], exits 1)
    run_configured cmd (ok settings) =
        run_logged cmd settings (mk_logger host.syslog_works (host.log settings))

    -- `main`: the errors that it reports, and its end.
    unfoldable pub main : Cli U A → List (Report E) × ProgramEnd
    main cli =
        insist (not cli.daemon || host.daemonize) (text "daemon start")
          (run_configured cli.cmd (host.settings cli.config))
