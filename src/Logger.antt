-- ===== src/Logger.antt =====
-- src/package/logger.rs: where the events go. The parts of `tracing` are what they are built from.
use api_starter.Base.{
  String, ◌<>◌, not, Option, none, some, List, [], ◌∷◌, Result, map_ok, if◌then◌else◌,
}
use api_starter.Config.Settings.{Logger, Deployment, level_text, is_production}

-- Rolling files of a directory, one for a day, and the standard output; both as JSON, with the span that
-- an event stands in.
pub data Sink : Type 0 where
  rolling_file : String → String → String → Sink
  stdout : Sink

pub record Subscriber : Type 0 where
  pub filter : String
  pub sinks : List Sink

abbrev pub default_filter : Logger → String
default_filter cfg =
    "api_starter=" <> level_text cfg.level <> ",tower_http=" <> level_text cfg.level

-- `RUST_LOG`, where it is a filter.
abbrev pub filter_of : Option String → Logger → String
filter_of (some filter) cfg = filter
filter_of none cfg = default_filter cfg

-- `build` makes the log directory, or fails: then the start panics.
unfoldable pub init :
    Option String
    → (String → Result String (Unit {0}))
    → Logger
    → Deployment
    → Result String Subscriber
init rust_log build cfg deployment =
    map_ok
      (λ made. record {
        filter = filter_of rust_log cfg;
        sinks =
            rolling_file cfg.directory "log" "log"
            ∷ (if not (is_production deployment.environment) then stdout ∷ [] else []);
      })
      (build cfg.directory)
