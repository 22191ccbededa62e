-- ===== src/Fx/Process.antt =====
-- cmd/mail-service/main.go and the modules of internal/fx that it lists. The container fx calls the
-- functions that the modules invoke in the order of the modules, and each constructor when what it
-- makes is first asked for; an error ends the wiring. Log entries are left out.
pub mod Hooks
pub mod Record
pub mod Serving
pub mod Course
mod Tests
use ofm_mail_service.Prelude.{String, Bool, List, Option, some}
use ofm_mail_service.Effect.{Result, ok, Eff, lift, ◌>>=◌, ◌>>◌}
use ofm_mail_service.Config.{Config}
use ofm_mail_service.Config.Loading.{Environment, load}
use ofm_mail_service.EventBroker.{EventBroker}
use ofm_mail_service.EventBroker.Commands.{Wire}
use ofm_mail_service.Application.Service.{MailSender, MailService, Renderer, new, send}
use ofm_mail_service.Application.Registry.{TemplateDefinition, TemplateEngine, render}
use ofm_mail_service.Smtp.Session.{Breaker, Net}
use ofm_mail_service.Kafka.Broker.{Broker}
use ofm_mail_service.Kafka.Reason.{new_domain_failure_reason_resolver}
use ofm_mail_service.Kafka.Subscriber.{MailCommandSubscriber, new_mail_command_subscriber}
use ofm_mail_service.Fx.Lifecycle.{Wiring, outside, Background}
use ofm_mail_service.Fx.Messaging.{RedisClient, provide_event_broker_with_claims}
use ofm_mail_service.Fx.Observability.{
  Logging, provide_logger, Metrics, provide_metrics, invoke_run_metrics_server, TracerConfig,
  provide_tracing_config, Tracing, invoke_install_tracing,
}
use ofm_mail_service.Fx.Presentation.{invoke_subscribe_mail_commands}
use ofm_mail_service.Fx.Templates.{provide_template_registry}
use ofm_mail_service.Fx.Transport.{provide_mail_sender}

-- The packages that the process is built from, over the world that they change.
pub record Packages (W Float Data Bytes Context : Type 0) : Type 1 where
  pub Log : Type 0
  pub Meter : Type 0
  pub Provider : Type 0
  pub TracingDefaults : Type 0
  pub Reader : Type 0
  pub environment : Environment W Float
  pub logging : Logging W Log
  pub tracing_defaults : String → String → TracerConfig Float TracingDefaults
  pub tracing : Tracing W (TracerConfig Float TracingDefaults) Provider
  pub metrics : Metrics W Meter
  -- the goroutine that serves the metrics
  pub serving : Meter → Background W Context
  pub redis : RedisClient W
  pub event_id : String → Bytes → String
  pub event_broker : Broker Reader → EventBroker W Bytes
  -- net/mail
  pub address_text : String → String → String
  pub is_address : String → Bool
  pub breaker : Breaker
  pub net : Net W
  pub engine : TemplateEngine Data
  pub wire : Wire W Data Bytes
  -- the goroutine that subscribes again and again
  pub consuming : MailCommandSubscriber W Data Bytes → Background W Context

module _ {W Float Data Bytes Context : Type 0} (p : Packages W Float Data Bytes Context) where
  unfoldable pub provide_config : Eff W (Config Float)
  provide_config = load p.environment

  unfoldable pub provide_mail_service :
      MailSender W → Renderer Data → p.Log → Result (MailService W Data)
  provide_mail_service sender registry lg = new (some sender) (some registry) (some lg)

  unfoldable pub provide_mail_command_subscriber :
      EventBroker W Bytes
      → MailService W Data
      → Config Float
      → p.Log
      → Result (MailCommandSubscriber W Data Bytes)
  provide_mail_command_subscriber broker service cfg lg =
      new_mail_command_subscriber p.wire (some broker) (some (send p.is_address service)) cfg.kafka
        (some new_domain_failure_reason_resolver) (some lg)

  -- `templates` is the group "mail_templates" in the order that the container gives it.
  module _ (templates : List TemplateDefinition) where
    -- MetricsModule, MessagingModule, ServiceModule and PresentationModule
    unfoldable pub serve_mail : Config Float → p.Log → Wiring W (Unit {0})
    unfolding provide_mail_service provide_mail_command_subscriber
    serve_mail cfg lg = do
      meter ←
          outside
            λ w. let (meter, w') = provide_metrics p.metrics cfg.app cfg.metrics w in (ok meter, w')
      invoke_run_metrics_server (p.serving meter)
      broker ←
          provide_event_broker_with_claims p.event_id p.event_broker p.redis cfg.redis cfg.kafka
      sender ←
          lift (provide_mail_sender p.address_text p.is_address p.breaker p.net cfg.smtp (some lg))
      registry ← lift (provide_template_registry p.engine cfg.templates templates)
      service ← lift (provide_mail_service sender (render p.engine registry) lg)
      subscriber ← lift (provide_mail_command_subscriber broker service cfg lg)
      invoke_subscribe_mail_commands (p.consuming subscriber)

    -- ConfigModule, LoggerModule and TracingModule, and then the others
    unfoldable pub main : Wiring W (Unit {0})
    unfolding provide_config serve_mail
    main = do
      cfg ← outside provide_config
      lg ← provide_logger p.logging cfg.app
      invoke_install_tracing p.tracing
          (some (provide_tracing_config p.tracing_defaults cfg.app cfg.tracing))
      serve_mail cfg lg
