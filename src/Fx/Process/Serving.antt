-- ===== src/Fx/Process/Serving.antt =====
-- The modules behind the logger and the tracer, over the recording world.
use ofm_mail_service.Prelude.{◌≡◌, ◌≢◌, refl, String, List, [], ◌∷◌, Option, none, some}
use ofm_mail_service.Errors.{Err}
use ofm_mail_service.Effect.{Result, ok, err}
use ofm_mail_service.Config.{Config}
use ofm_mail_service.Application.Service.{MailSender, new}
use ofm_mail_service.Application.Registry.{TemplateDefinition, Registry}
use ofm_mail_service.Kafka.Subscriber.{new_mail_command_subscriber}
use ofm_mail_service.Kafka.Broker.{new_broker}
use ofm_mail_service.Fx.Lifecycle.{Hook}
use ofm_mail_service.Fx.Messaging.{provide_event_broker, provide_event_broker_with_claims}
use ofm_mail_service.Fx.Observability.{provide_metrics, invoke_run_metrics_server}
use ofm_mail_service.Fx.Presentation.{invoke_subscribe_mail_commands}
use ofm_mail_service.Fx.Templates.{provide_template_registry}
use ofm_mail_service.Fx.Transport.{provide_mail_sender}
use ofm_mail_service.Fx.Process.{serve_mail}
use ofm_mail_service.Fx.Process.Hooks.{
  start_all, stop_all, four_more-AllStart, run-four_more, AllStart,
}
use ofm_mail_service.Fx.Process.Record.{World, Event, idle, Outside, packages, goroutines, served}

module _ {Float Data Bytes : Type 0} (o : Outside Float Data Bytes) where
  unfoldable pub sender_of : Config Float → Result (MailSender World)
  sender_of cfg =
      provide_mail_sender o.address_text o.is_address o.breaker o.net cfg.smtp (some (tt {0}))

  unfoldable pub registry_of : List TemplateDefinition → Config Float → Result (Registry o.engine)
  registry_of templates cfg = provide_template_registry o.engine cfg.templates templates

  -- What the process needs behind its logger and its tracer.
  abbrev pub Serves : List TemplateDefinition → Config Float → Type 0
  Serves templates cfg =
      (o.instrument_answer ≡ none)
      × (o.ping_answer ≡ none)
      × (cfg.kafka.brokers ≢ [])
      × ((sender : MailSender World) × (sender_of cfg ≡ ok sender))
      × ((registry : Registry o.engine) × (registry_of templates cfg ≡ ok registry))

  module _ (templates : List TemplateDefinition) (cfg : Config Float) (hooks0 : List (Hook World))
      (log0 : List Event) where
    unfoldable pub Served : Result (Unit {0}) → List (Hook World) → World → Type 0
    Served (ok _) hooks w =
        Serves templates cfg
        × AllStart hooks
        × (stop_all hooks (start_all hooks w) ≡ stop_all hooks0 (served cfg log0))
    Served (err e) hooks w = (¬ Serves templates cfg) × (goroutines w.log ≡ goroutines log0)

    pub serve_cases :
        (i p : Option Err) (brokers : List String) (s : Result (MailSender World))
        (r : Result (Registry o.engine))
        → o.instrument_answer ≡ i
        → o.ping_answer ≡ p
        → cfg.kafka.brokers ≡ brokers
        → sender_of cfg ≡ s
        → registry_of templates cfg ≡ r
        → AllStart hooks0
        → ((w : World) → start_all hooks0 w ≡ w)
        → let (r, (hooks, w)) =
            serve_mail (packages o) templates cfg tt (hooks0, record idle { log = log0 }) in
          Served r hooks w
    unfolding serve_mail new new_mail_command_subscriber provide_metrics invoke_run_metrics_server
        provide_event_broker_with_claims provide_event_broker new_broker
        invoke_subscribe_mail_commands sender_of registry_of Served goroutines
    serve_cases (some e) p brokers s r ei ep eb es er starts quiet = rw ei ((λ x. cc), refl)
    serve_cases none (some e) brokers s r ei ep eb es er starts quiet =
        rw ei (rw ep ((λ x. cc), refl))
    serve_cases none none [] s r ei ep eb es er starts quiet =
        rw ei (rw ep (rw eb ((λ x. x.2 refl), refl)))
    serve_cases none none (address ∷ addresses) (err e) r ei ep eb es er starts quiet =
        rw ei (rw ep (rw eb (rw es ((λ x. cc), refl))))
    serve_cases none none (address ∷ addresses) (ok s) (err e) ei ep eb es er starts quiet =
        rw ei (rw ep (rw eb (rw es (rw er ((λ x. cc), refl)))))
    serve_cases none none (address ∷ addresses) (ok s) (ok r) ei ep eb es er starts quiet = rw ei (
        rw ep (
          rw eb (
            rw es (
              rw er (
                (refl, refl, (λ n. cc), (s, es), (r, er)),
                four_more-AllStart hooks0 _ _ _ _ starts (λ w. refl) tt tt (λ w. refl),
                run-four_more hooks0 _ _ _ _ _ (quiet _),
              )))))
