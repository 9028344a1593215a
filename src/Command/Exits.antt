-- ===== src/Command/Exits.antt =====
-- How the process ends.
use route_ans.Prelude.{
  ◌≡◌, ◌↔◌, ◌⊎◌, true, false, ◌&&◌, Option, List, [], ◌∷◌, ◌++◌, Text, Result, ok, ◌==◌,
}
use route_ans.Config.Types.{Config}
use route_ans.Config.Loading.Validity.{Loaded}
use route_ans.Server.Lifecycle.{Action, new_server, start_server, shut_down}
use route_ans.Server.Setup.{Providers}
use route_ans.Telemetry.Tracing.{Exporting, init_tracing}
use route_ans.Command.{
  parsed, help, malformed, World, Run, Ending, server_error, signalled, exporting_or_none,
  is_exporting,
}

-- Actions of two goroutines in some order: all of the second, in their order, and between them the
-- first ones of the first, in theirs.
pub data Interleaved : List Action → List Action → List Action → Type 0 where
  over : {starts : List Action} → Interleaved starts [] []
  first :
      {a : Action} {starts stops l : List Action}
      → Interleaved starts stops l
      → Interleaved (a ∷ starts) stops (a ∷ l)
  second :
      {b : Action} {starts stops l : List Action}
      → Interleaved starts stops l
      → Interleaved starts (b ∷ stops) (b ∷ l)

-- What `Start` and `Shutdown` do together, on what ended the wait.
abbrev pub Order : Ending → List Action → List Action → List Action → Type 0
Order server_error starts stops l = l ≡ starts ++ stops
Order signalled starts stops l = Interleaved starts stops l

module _ {T : Type 0} (w : World T) where
  -- A configuration was loaded, and the server was made of it.
  pub record Served (c : Config) (p : Providers T) : Type 0 where
    pub loaded : Loaded w.yaml w.env w.file c
    pub made : new_server w.ping_cache w.ping_queue w.new_file w.mock c ≡ ok p

  -- The configuration that the process serves, its providers, and an end within the timeout.
  abbrev Ends : Type 0
  Ends =
      (c : Config) × (p : Providers T) × Served c p
      × (w.flags ≡ parsed false)
      × (w.stops_within c.server.graceful_shutdown_timeout ≡ true)

  abbrev pub Exits : Run → Type 0
  Exits r =
      ((r.status ≡ 0) ↔ ((w.flags ≡ help) ⊎ (w.flags ≡ parsed true) ⊎ Ends))
      × ((r.status ≡ 2) ↔ (w.flags ≡ malformed))
      × ((r.actions ≡ [])
          ⊎ ((c : Config) × (p : Providers T) × Served c p
              × Order w.ending (start_server c p) (shut_down c.server.graceful_shutdown_timeout p)
                  r.actions))
      × (r.flushed ≡ ((r.status == 0) && is_exporting r.exporting))

  abbrev exporting_of : Config → Option Exporting
  exporting_of c =
      exporting_or_none (init_tracing w.make_resource w.make_exporter c.telemetry.tracing)

  abbrev made_of : Config → Result Text (Providers T)
  made_of c = new_server w.ping_cache w.ping_queue w.new_file w.mock c
