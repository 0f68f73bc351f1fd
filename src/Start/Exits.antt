-- ===== src/Start/Exits.antt =====
-- src/main.rs: when the program exits with which code, and when it waits no longer.
use gateway_rs.Base.{
  ℕ, ◌≡◌, ◌≢◌, ◌↔◌, ◌⊎◌, inl, inr, refl, arith, Bool, true, false, ◌&&◌, not, List, [], ◌∷◌, any,
  Option, none, some, Result, ok, err, ◌==◌, Result-cases, ap, sym, ◌∙◌, ◌||◌, Text, text,
}
use gateway_rs.Start.{
  Cmd, Cli, Signal, ctrl_c, read, wait_for_end, Commands, Report, logged, printed, ProgramEnd,
  exits, panics, Host, mk_logger, Drain, insist, exit_with, run_cmd, run_logged, run_configured,
  main,
}

-- What ends the wait by itself: an interrupt and, with the flag, the end of the standard input.
abbrev ends : Bool → Signal → Bool
ends stdin ctrl_c = true
ends stdin (read none) = false
ends stdin (read (some n)) = stdin && (n == 0)

-- The shutdown is triggered just when one of the signals ends the wait.
pub wait_for_end-any :
    (stdin : Bool) (signals : List Signal) → wait_for_end stdin signals ≡ any (ends stdin) signals
unfolding wait_for_end
wait_for_end-any stdin [] = refl
wait_for_end-any stdin (ctrl_c ∷ rest) = refl
wait_for_end-any stdin (read none ∷ rest) = wait_for_end-any stdin rest
wait_for_end-any stdin (read (some n) ∷ rest) = ground (arith, wait_for_end-any stdin rest)

-- The end of `main`, and what it has reported.
abbrev pub Ended : Type 0 → Type 0
Ended E = List (Report E) × ProgramEnd

abbrev IsExit : (E : Type 0) → Ended E → Type 0
IsExit E r = (reports : List (Report E)) × (code : ℕ) × (r ≡ (reports, exits code))

module _ {E : Type 0} where
  insist-exits :
      (b : Bool) (what : Text) (after : Ended E)
      → IsExit E (insist b what after)
      → (b ≡ true) × (insist b what after ≡ after)
  unfolding insist
  insist-exits true what after h = (refl, refl)
  insist-exits false what after (reports, code, h) = cc

  ok-exit_with : (r : Result E (Unit {0})) → (exit_with r ≡ ([], exits 0)) ↔ (r ≡ ok tt)
  unfolding exit_with
  ok-exit_with (ok u) = ((λ h. refl), (λ h. refl))
  ok-exit_with (err e) = ((λ h. cc), (λ h. cc))

  err-exit_with :
      (r : Result E (Unit {0})) (e : E) → (exit_with r ≡ (logged e ∷ [], exits 1)) ↔ (r ≡ err e)
  unfolding exit_with
  err-exit_with (ok u) e = ((λ h. cc), (λ h. cc))
  err-exit_with (err d) e = ((λ h. cc), (λ h. cc))

  -- A panic, or an exit with a code.
  Ended-cases : (r : Ended E) → ((what : Text) × (r.1 ≡ panics what)) ⊎ IsExit E r
  Ended-cases (reports, exits code) = inr (reports, code, refl)
  Ended-cases (reports, panics what) = inl (what, refl)

  exit_with-ne-printed : (r : Result E (Unit {0})) (e : E) → exit_with r ≢ (printed e ∷ [], exits 1)
  unfolding exit_with
  exit_with-ne-printed (ok u) e h = cc
  exit_with-ne-printed (err d) e h = cc

module _ {E G U A V : Type 0} (commands : Commands E G U A) (host : Host E G V) where
  -- What the host does for the program before the configuration is read.
  abbrev pub Daemonized : Cli U A → Type 0
  Daemonized cli = (not cli.daemon || host.daemonize) ≡ true

  -- What the host does for the program before the command runs.
  pub record Ready (cli : Cli U A) (settings : G) : Type 0 where
    pub daemonized : Daemonized cli
    pub configured : host.settings cli.config ≡ ok settings
    pub drain : Drain V
    pub logs : mk_logger host.syslog_works (host.log settings) ≡ some drain
    pub log_started : host.log_init ≡ true
    pub built : host.runtime ≡ true

  Ready-exits :
      (cli : Cli U A) (settings : G)
      → Ready cli settings
      → main commands host cli ≡ exit_with (run_cmd commands cli.cmd settings)
  unfolding main run_configured run_logged insist
  Ready-exits cli settings ready =
      rw
        (
          main, ready.daemonized, insist, ready.configured, run_configured, ready.logs, run_logged,
          ready.log_started, ready.built,
        )
        refl

  unconfigured-exits :
      (cli : Cli U A) (e : E)
      → Daemonized cli
      → host.settings cli.config ≡ err e
      → main commands host cli ≡ (printed e ∷ [], exits 1)
  unfolding main run_configured insist
  unconfigured-exits cli e daemonized failed =
      rw (main, daemonized, insist, failed, run_configured) refl

  run_logged-exits :
      (cmd : Cmd U A) (settings : G) (logger : Option (Drain V))
      → IsExit E (run_logged commands host cmd settings logger)
      → (drain : Drain V) × (logger ≡ some drain) × (host.log_init ≡ true) × (host.runtime ≡ true)
  unfolding run_logged
  run_logged-exits cmd settings none (reports, code, h) = cc
  run_logged-exits cmd settings (some drain) h =
      let inside =
        insist host.runtime (text "runtime build") (exit_with (run_cmd commands cmd settings)) in
      let (started, e) = insist-exits host.log_init (text "log init") inside h in
      let (built, _) =
        insist-exits host.runtime (text "runtime build") (exit_with (run_cmd commands cmd settings))
          (h.0, h.1, sym e ∙ h.2) in
      (drain, refl, started, built)

  -- Without a panic, either the configuration fails, or all is ready for the command.
  exits-cases :
      (cli : Cli U A)
      → IsExit E (main commands host cli)
      → ((e : E) × Daemonized cli × (host.settings cli.config ≡ err e))
        ⊎ ((settings : G) × Ready cli settings)
  unfolding main run_configured
  exits-cases cli h =
      let (daemonized, e) =
        insist-exits (not cli.daemon || host.daemonize) (text "daemon start")
          (run_configured commands host cli.cmd (host.settings cli.config)) h in
      let after : IsExit E (run_configured commands host cli.cmd (host.settings cli.config)) =
        (h.0, h.1, sym e ∙ h.2) in
      elim (Result-cases (host.settings cli.config)) [
        | inr (failure, failed) ↦ inl (failure, daemonized, failed)
        | inl (settings, configured) ↦
            let (drain, logs, log_started, built) =
              run_logged-exits cli.cmd settings (mk_logger host.syslog_works (host.log settings)) (
                after.0,
                after.1,
                sym (ap (run_configured commands host cli.cmd) configured) ∙ after.2,
              ) in
            inr (
              settings,
              record {
                daemonized = daemonized;
                configured = configured;
                drain = drain;
                logs = logs;
                log_started = log_started;
                built = built;
              },
            )
      ]

  ran_cases :
      (cli : Cli U A) (settings : G)
      → Ready cli settings
      → (main commands host cli ≡ ([], exits 0))
        ⊎ ((d : E) × (main commands host cli ≡ (logged d ∷ [], exits 1)))
        ⊎ ((d : E) × (main commands host cli ≡ (printed d ∷ [], exits 1)))
  ran_cases cli settings ready =
      let e = Ready-exits cli settings ready in
      elim (Result-cases (run_cmd commands cli.cmd settings)) [
        | inl (u, ran) ↦ inl (e ∙ (ok-exit_with (run_cmd commands cli.cmd settings)).1 (ran ∙ refl))
        | inr (d, failed) ↦
            inr (inl (d, e ∙ (err-exit_with (run_cmd commands cli.cmd settings) d).1 failed))
      ]

  failed_with :
      (cli : Cli U A) (d e : E)
      → Daemonized cli
      → host.settings cli.config ≡ err d
      → main commands host cli ≡ (printed e ∷ [], exits 1)
      → host.settings cli.config ≡ err e
  failed_with cli d e daemonized failed h =
      let h' = unconfigured-exits cli d daemonized failed in cc

  -- The program exits with code 0 and reports nothing just when the host does all that it insists on, the
  -- configuration is read and the command succeeds with these settings. It logs an error and exits with
  -- code 1 just when after such a start the command fails with this error; and it prints an error and exits
  -- with code 1 just when the configuration fails with it, after the start as a daemon where it is asked
  -- for. Otherwise it panics.
  pub main-exits :
      (cli : Cli U A) (e : E)
      → ((main commands host cli ≡ ([], exits 0))
          ↔ ((settings : G) × Ready cli settings × (run_cmd commands cli.cmd settings ≡ ok tt)))
        × ((main commands host cli ≡ (logged e ∷ [], exits 1))
            ↔ ((settings : G) × Ready cli settings × (run_cmd commands cli.cmd settings ≡ err e)))
        × ((main commands host cli ≡ (printed e ∷ [], exits 1))
            ↔ (Daemonized cli × (host.settings cli.config ≡ err e)))
        × (((what : Text) × ((main commands host cli).1 ≡ panics what))
            ⊎ (main commands host cli ≡ ([], exits 0))
            ⊎ ((d : E) × (main commands host cli ≡ (logged d ∷ [], exits 1)))
            ⊎ ((d : E) × (main commands host cli ≡ (printed d ∷ [], exits 1))))
  main-exits cli e = (
    (
      λ h. elim (exits-cases cli ([], 0, h)) [
        | inl (d, daemonized, failed) ↦
            let h' = unconfigured-exits cli d daemonized failed in absurd (cc (h, h'))
        | inr (settings, ready) ↦ (
          settings,
          ready,
          (ok-exit_with (run_cmd commands cli.cmd settings)).0
              (sym (Ready-exits cli settings ready) ∙ h),
        )
      ],
      λ (settings, ready, ran).
          Ready-exits cli settings ready ∙ (ok-exit_with (run_cmd commands cli.cmd settings)).1 ran,
    ),
    (
      λ h. elim (exits-cases cli (logged e ∷ [], 1, h)) [
        | inl (d, daemonized, failed) ↦
            let h' = unconfigured-exits cli d daemonized failed in absurd (cc (h, h'))
        | inr (settings, ready) ↦ (
          settings,
          ready,
          (err-exit_with (run_cmd commands cli.cmd settings) e).0
              (sym (Ready-exits cli settings ready) ∙ h),
        )
      ],
      λ (settings, ready, failed).
          Ready-exits cli settings ready
          ∙ (err-exit_with (run_cmd commands cli.cmd settings) e).1 failed,
    ),
    (
      λ h. elim (exits-cases cli (printed e ∷ [], 1, h)) [
        | inl (d, daemonized, failed) ↦ (daemonized, failed_with cli d e daemonized failed h)
        | inr (settings, ready) ↦ absurd (
            exit_with-ne-printed (run_cmd commands cli.cmd settings) e
              (sym (Ready-exits cli settings ready) ∙ h))
      ],
      λ (daemonized, failed). unconfigured-exits cli e daemonized failed,
    ),
    elim (Ended-cases (main commands host cli)) [
      | inl panicked ↦ inl panicked
      | inr exited ↦ elim (exits-cases cli exited) [
        | inl (d, daemonized, failed) ↦
            inr (inr (inr (d, unconfigured-exits cli d daemonized failed)))
        | inr (settings, ready) ↦ inr (ran_cases cli settings ready)
      ]
    ],
  )
