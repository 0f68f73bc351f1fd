-- ===== src/Start/Samples.antt =====
-- Runs of src/main.rs: a start that succeeds, a command that fails, and one that is not configured. The
-- settings are a number, which the server refuses when it is zero.
use gateway_rs.Base.{
  ℕ, ◌≡◌, ◌⊎◌, Text, ◌↔◌, refl, Bool, true, false, [], ◌∷◌, none, some, Result, ok, err, text, ◌==◌,
  if◌then◌else◌,
}
use gateway_rs.Account.Modes.{stdio}
use gateway_rs.Start.{
  Cmd, Cli, server, key_info, Commands, exits, panics, logged, printed, Host, mk_logger, insist,
  exit_with, run_cmd, run_logged, run_configured, main, wait_for_end, ctrl_c, read,
}
use gateway_rs.Start.Exits.{Ready, Daemonized, main-exits}

abbrev commands : Commands ℕ ℕ (Unit {0}) (Unit {0})
commands = record {
  info_cmd = λ settings keys. ok tt;
  update_cmd = λ settings cmd. err 7;
  add_cmd = λ settings cmd. err 8;
  server_cmd = λ settings. if settings == 0 then err 9 else ok tt;
}

abbrev host : Result ℕ ℕ → Host ℕ ℕ ℕ
host settings = record {
  daemonize = false;
  settings = λ path. settings;
  log = λ settings. record { method = stdio; level = settings; timestamp = true };
  syslog_works = false;
  log_init = true;
  runtime = true;
}

abbrev cli : Bool → Cmd (Unit {0}) (Unit {0}) → Cli (Unit {0}) (Unit {0})
cli daemon cmd = record {
  config = text "/etc/helium_gateway";
  daemon = daemon;
  stdin = false;
  cmd = cmd;
}

served : main commands (host (ok 5)) (cli false server) ≡ ([], exits 0)
unfolding main insist run_configured run_logged mk_logger run_cmd exit_with
served = refl

failed : main commands (host (ok 0)) (cli false server) ≡ (logged 9 ∷ [], exits 1)
unfolding main insist run_configured run_logged mk_logger run_cmd exit_with
failed = refl

unconfigured : main commands (host (err 4)) (cli false key_info) ≡ (printed 4 ∷ [], exits 1)
unfolding main insist run_configured
unconfigured = refl

not_forked : main commands (host (ok 5)) (cli true key_info) ≡ ([], panics (text "daemon start"))
unfolding main insist
not_forked = refl

-- A closed standard input is not seen without the flag.
closed :
    (wait_for_end true (read (some 3) ∷ read none ∷ read (some 0) ∷ []) ≡ true)
    × (wait_for_end false (read (some 0) ∷ []) ≡ false)
    × (wait_for_end false (read none ∷ ctrl_c ∷ []) ≡ true)
unfolding wait_for_end
closed = (refl, refl, refl)

main-exits_example :
    ((main commands (host (ok 0)) (cli false server) ≡ ([], exits 0)) ↔ (
      (settings : ℕ) × Ready commands (host (ok 0)) (cli false server) settings
      × (run_cmd commands server settings ≡ ok tt)))
    × ((main commands (host (ok 0)) (cli false server) ≡ (logged 9 ∷ [], exits 1)) ↔ (
        (settings : ℕ) × Ready commands (host (ok 0)) (cli false server) settings
        × (run_cmd commands server settings ≡ err 9)))
    × ((main commands (host (ok 0)) (cli false server) ≡ (printed 9 ∷ [], exits 1)) ↔ (
        Daemonized commands (host (ok 0)) (cli false server)
        × ((host (ok 0)).settings (text "/etc/helium_gateway") ≡ err 9)))
    × (((what : Text) × ((main commands (host (ok 0)) (cli false server)).1 ≡ panics what))
        ⊎ (main commands (host (ok 0)) (cli false server) ≡ ([], exits 0))
        ⊎ ((d : ℕ) × (main commands (host (ok 0)) (cli false server) ≡ (logged d ∷ [], exits 1)))
        ⊎ ((d : ℕ) × (main commands (host (ok 0)) (cli false server) ≡ (printed d ∷ [], exits 1))))
main-exits_example = main-exits commands (host (ok 0)) (cli false server) 9
