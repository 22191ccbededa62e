-- ===== src/Fx/Observability.antt =====
-- internal/fx/logger.go, metrics.go and tracing.go. The packages logging, metrics and tracing are
-- parameters.
use ofm_mail_service.Prelude.{String, Bool, not, if◌then◌else◌, Option, none, some}
use ofm_mail_service.Effect.{Result, ok, err, Eff, pure, attempt, ◌>>=◌, ◌>>◌}
use ofm_mail_service.Config.{AppConfig, MetricsConfig, TracingConfig}
use ofm_mail_service.Fx.Lifecycle.{
  Wiring, append, outside, Background, start_background, stop_background,
}

pub record Logging (W Logger : Type 0) : Type 0 where
  -- logging.NewWithMode: the service, the environment, the mode and the level
  pub new_with_mode : String → String → String → String → Eff W Logger
  pub sync : Logger → Eff W (Unit {0})

unfoldable pub provide_logger : {W Logger : Type 0} → Logging W Logger → AppConfig → Wiring W Logger
provide_logger logging cfg = do
  lg ← outside (logging.new_with_mode "mail-service" cfg.env cfg.observability_mode cfg.log_level)
  append (record { on_start = none; on_stop = some (logging.sync lg) })
  pure lg

pub record Metrics (W Meter : Type 0) : Type 0 where
  pub new_noop : Meter
  -- metrics.New: the service and the environment
  pub new : String → String → Meter
  pub set_global : Meter → W → W

unfoldable pub provide_metrics :
    {W Meter : Type 0} → Metrics W Meter → AppConfig → MetricsConfig → W → Meter × W
provide_metrics metrics app cfg w =
    let meter = if not cfg.enabled then metrics.new_noop else metrics.new "mail-service" app.env in
    (meter, metrics.set_global meter w)

-- The goroutine of `b` serves the metrics, and logs the error with which it ends.
unfoldable pub invoke_run_metrics_server :
    {W Context : Type 0} → Background W Context → Wiring W (Unit {0})
invoke_run_metrics_server b =
    append (record { on_start = some (start_background b); on_stop = some (stop_background b) })

-- The fields of tracing.Config that the service sets; `defaults` has the others.
pub record TracerConfig (Float Defaults : Type 0) : Type 0 where
  pub defaults : Defaults
  pub enabled : Bool
  pub endpoint : String
  pub protocol : String
  pub sample_ratio : Float
  pub service_version : String

unfoldable pub provide_tracing_config :
    {Float Defaults : Type 0}
    → (String → String → TracerConfig Float Defaults)
    → AppConfig
    → TracingConfig Float
    → TracerConfig Float Defaults
provide_tracing_config default_config app cfg = record (default_config "mail-service" app.env) {
  enabled = cfg.enabled;
  endpoint = cfg.endpoint;
  protocol = cfg.protocol;
  sample_ratio = cfg.sample_ratio;
  service_version = cfg.service_version;
}

pub record Tracing (W Config Provider : Type 0) : Type 0 where
  pub new_tracer_provider : Config → Eff W Provider
  pub set_global : Provider → W → W
  pub shutdown : Provider → Eff W (Unit {0})

module _ {W Config Provider : Type 0} (tracing : Tracing W Config Provider) where
  -- what follows `NewTracerProvider`: its error is only logged
  unfoldable pub installed : Result Provider → Wiring W (Unit {0})
  installed (err e) = pure tt
  installed (ok tp) = do
    outside (λ w. (ok tt, tracing.set_global tp w))
    append (record { on_start = none; on_stop = some (tracing.shutdown tp) })

  unfoldable pub invoke_install_tracing : Option Config → Wiring W (Unit {0})
  unfolding installed
  invoke_install_tracing none = pure tt
  invoke_install_tracing (some cfg) = attempt (outside (tracing.new_tracer_provider cfg)) installed
