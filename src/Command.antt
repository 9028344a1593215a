-- ===== src/Command.antt =====
-- cmd/resolver/main.go: from the flags to the status of the process.
pub mod Exits
use route_ans.Prelude.{
  ℕ, Bool, true, false, Option, none, some, List, [], ◌∷◌, ◌++◌, Text, Result, ok, err,
  if◌then◌else◌,
}
use route_ans.Prelude.Int.{ℤ, pos, ◌==ℤ◌}
use route_ans.Cache.Redis.{RedisOptions}
use route_ans.Queue.Redis.{RedisQueueOptions}
use route_ans.Config.Types.{Config}
use route_ans.Config.Defaults.{seconds}
use route_ans.Config.Loading.{load}
use route_ans.Server.Lifecycle.{Action, new_server, start_server, shut_down}
use route_ans.Server.Setup.{Providers}
use route_ans.Telemetry.Logging.{Logger, new_logger}
use route_ans.Telemetry.Tracing.{Exporting, init_tracing}

-- What ends the wait of `main`.
pub data Ending : Type 0 where
  server_error : Ending
  signalled : Ending

-- What `flag.Parse` makes of the arguments: the value of `-version`; or it exits by itself, when it is
-- asked for help, or cannot read them.
pub data Flags : Type 0 where
  parsed : Bool → Flags
  help : Flags
  malformed : Flags

-- What `main` meets: its flags and the configuration file, the environment, the calls that may fail,
-- what ends its wait, which of `Start` and `Shutdown` takes its turn when (true for `Start`), and whether
-- the HTTP server stops within the timeout that it is given.
pub record World (T : Type 0) : Type 0 where
  pub flags : Flags
  pub file : Option Text
  pub yaml : Text → Option Config
  pub env : Text → Option Text
  pub ping_cache : RedisOptions → Bool
  pub ping_queue : RedisQueueOptions → Bool
  pub new_file : Text → Text → T
  pub mock : T
  pub make_resource : Text → Bool
  pub make_exporter : Text → Bool → Bool
  pub ending : Ending
  pub turns : List Bool
  pub stops_within : ℤ → Bool

-- What `main` did: how it logs, what it exported and whether it flushed that, what it started and ended,
-- and its status.
pub record Run : Type 0 where
  pub logger : Option Logger
  pub exporting : Option Exporting
  pub flushed : Bool
  pub actions : List Action
  pub status : ℕ

abbrev ended_at_once : ℕ → Run
ended_at_once status = record {
  logger = none;
  exporting = none;
  flushed = false;
  actions = [];
  status = status;
}

-- A failure of the tracing is only logged.
abbrev pub exporting_or_none : Option (Option Exporting) → Option Exporting
exporting_or_none none = none
exporting_or_none (some e) = e

-- The timeout of the shutdown.
unfoldable pub shutdown_timeout : Config → ℤ
shutdown_timeout c =
    if c.server.graceful_shutdown_timeout ==ℤ pos 0
    then seconds 30
    else c.server.graceful_shutdown_timeout

-- The actions of two goroutines that take turns, the second of which is `main`: when it is through,
-- the process ends, however far the first has come.
unfoldable pub merged : List Bool → List Action → List Action → List Action
merged [] starts stops = stops
merged (true ∷ turns) [] stops = merged turns [] stops
merged (true ∷ turns) (a ∷ starts) stops = a ∷ merged turns starts stops
merged (false ∷ turns) starts [] = []
merged (false ∷ turns) starts (b ∷ stops) = b ∷ merged turns starts stops

-- `Start` runs in a goroutine beside `main`; its error comes behind all that it does, and a signal may
-- come before.
abbrev pub performed_in : Ending → List Bool → List Action → List Action → List Action
performed_in server_error turns starts stops = starts ++ stops
performed_in signalled turns starts stops = merged turns starts stops

abbrev is_exporting : Option Exporting → Bool
is_exporting none = false
is_exporting (some e) = true

module _ {T : Type 0} (w : World T) where
  -- The end of `main`, behind the wait: both endings lead to the shutdown. `os.Exit(1)` runs no
  -- deferred call, so the traces are flushed only when `main` returns.
  abbrev pub ended : Ending → Config → Option Exporting → Providers T → Run
  ended ending c exporting p = record {
    logger = some (new_logger c.telemetry.logging);
    exporting = exporting;
    flushed = if w.stops_within (shutdown_timeout c) then is_exporting exporting else false;
    actions = performed_in ending w.turns (start_server c p) (shut_down (shutdown_timeout c) p);
    status = if w.stops_within (shutdown_timeout c) then 0 else 1;
  }

  -- `main` where the server cannot be made.
  abbrev pub not_made : Config → Option Exporting → Run
  not_made c exporting = record (ended_at_once 1) {
    logger = some (new_logger c.telemetry.logging);
    exporting = exporting;
  }

  -- `main` on a loaded configuration. `log.Fatal` exits with 1.
  unfoldable pub serve_config : Config → Run
  serve_config c =
      let exporting =
        exporting_or_none (init_tracing w.make_resource w.make_exporter c.telemetry.tracing) in
      elim (new_server w.ping_cache w.ping_queue w.new_file w.mock c) [
        | err e ↦ not_made c exporting
        | ok p ↦ ended w.ending c exporting p
      ]

  -- `main` behind its flags
  abbrev pub main_with : Bool → Run
  main_with show_version =
      if show_version
      then ended_at_once 0
      else elim (load w.yaml w.env w.file) [ err e ↦ ended_at_once 1 | ok c ↦ serve_config c ]

  -- `main`
  unfoldable pub run_main : Run
  run_main = elim w.flags [
    | help ↦ ended_at_once 0
    | malformed ↦ ended_at_once 2
    | parsed show_version ↦ main_with show_version
  ]
