-- ===== src/Fx/Process/Course.antt =====
-- The whole process between its start and its stop, over a world that records what is done.
use ofm_mail_service.Prelude.{◌≡◌, refl, subst, ap, ◌∙◌, List, [], ◌∷◌, ◌++◌, Option, none, some}
use ofm_mail_service.Errors.{Err}
use ofm_mail_service.Effect.{Result, ok, err}
use ofm_mail_service.Config.{Config}
use ofm_mail_service.Config.Loading.{load}
use ofm_mail_service.Application.Registry.{TemplateDefinition}
use ofm_mail_service.Fx.Lifecycle.{Hook}
use ofm_mail_service.Fx.Observability.{provide_logger, installed, invoke_install_tracing}
use ofm_mail_service.Fx.Startup.{Container}
use ofm_mail_service.Fx.Process.{provide_config, serve_mail, main}
use ofm_mail_service.Fx.Process.Hooks.{start_all, stop_all, start-start_all, stop-stop_all}
use ofm_mail_service.Fx.Process.Record.{
  World, Event, logger_opened, logger_synced, tracer_installed, tracer_shut, idle, Outside,
  packages, goroutines, with_tracer, stopping, observed_log, served_log, served,
}
use ofm_mail_service.Fx.Process.Serving.{Serves, Served, serve_cases}

module _ {Float Data Bytes : Type 0} (o : Outside Float Data Bytes) where
  Ready : List TemplateDefinition → Type 0
  Ready templates =
      (cfg : Config Float) × (o.parsed ≡ ok cfg) × (o.logger_answer ≡ none) × Serves o templates cfg

  module _ (container : Container World) (templates : List TemplateDefinition) where
    pub Course : Result (Unit {0}) → List (Hook World) → World → Type 0
    Course (ok _) hooks w =
        (cfg : Config Float) × (o.parsed ≡ ok cfg)
        × (o.logger_answer ≡ none)
        × Serves o templates cfg
        × ((container.stop hooks (container.start hooks w)).log
            ≡ logger_synced ∷ with_tracer tracer_shut o.provider_answer
              ++ served_log cfg
                  (with_tracer tracer_installed o.provider_answer ++ logger_opened ∷ []))
    Course (err e) hooks w = (¬ Ready templates) × (goroutines w.log ≡ 0)

    parsed_once : (c d : Config Float) → o.parsed ≡ ok c → o.parsed ≡ ok d → c ≡ d
    parsed_once c d ec ed = cc

    Served-Course :
        (cfg : Config Float) (hooks0 : List (Hook World)) (log0 : List Event)
        (result : Result (Unit {0})) (hooks : List (Hook World)) (w : World)
        → o.parsed ≡ ok cfg
        → o.logger_answer ≡ none
        → goroutines log0 ≡ 0
        → (stop_all hooks0 (served cfg log0)).log
          ≡ logger_synced ∷ with_tracer tracer_shut o.provider_answer
            ++ served_log cfg (with_tracer tracer_installed o.provider_answer ++ logger_opened ∷ [])
        → Served o templates cfg hooks0 log0 result hooks w
        → Course result hooks w
    unfolding Course Served Ready
    Served-Course cfg hooks0 log0 (err e) hooks w parsed logger none_yet same (fails, started) = (
      λ ready.
          fails
            (subst (λ c. Serves o templates c) (parsed_once ready.0 cfg ready.1 parsed) ready.3),
      started ∙ none_yet,
    )
    Served-Course cfg hooks0 log0 (ok _) hooks w parsed logger none_yet same (serves, starts, ran) =
        (
          cfg,
          parsed,
          logger,
          serves,
          ap (λ v. v.log)
                (ap (container.stop hooks) (start-start_all container hooks w starts)
                  ∙ stop-stop_all container hooks (start_all hooks w)
                  ∙ ran)
              ∙ same,
        )

module _ {Float Data Bytes : Type 0} (container : Container World)
    (templates : List TemplateDefinition) where
  -- the hooks of the logger and of a tracer
  abbrev observing : Outside Float Data Bytes → Option Err → List (Hook World)
  observing o none =
      stopping ((packages o).logging.sync tt) ∷ stopping ((packages o).tracing.shutdown tt) ∷ []
  observing o (some e) = stopping ((packages o).logging.sync tt) ∷ []

  main-serve_mail :
      (o : Outside Float Data Bytes) (cfg : Config Float) (t : Option Err)
      → o.parsed ≡ ok cfg
      → o.logger_answer ≡ none
      → o.provider_answer ≡ t
      → main (packages o) templates ([], idle)
        ≡ serve_mail
            (packages o)
            templates
            cfg
            tt
            (observing o t, record idle { log = observed_log t })
  unfolding main provide_config load provide_logger invoke_install_tracing installed with_tracer
  main-serve_mail o cfg none ec el et = rw ec (rw el (rw et refl))
  main-serve_mail o cfg (some e) ec el et = rw ec (rw el (rw et refl))

  -- a configuration was read, and there is a logger
  serves :
      (o : Outside Float Data Bytes) (cfg : Config Float) (t : Option Err)
      → o.parsed ≡ ok cfg
      → o.logger_answer ≡ none
      → o.provider_answer ≡ t
      → let (r, (hooks, w)) = main (packages o) templates ([], idle) in
        Course o container templates r hooks w
  unfolding goroutines with_tracer
  serves o cfg none ec el et = rw (main-serve_mail o cfg none ec el et) (
      Served-Course o container templates cfg (observing o none) (observed_log none) _ _ _ ec el
        refl (rw et refl)
        (serve_cases o templates cfg (observing o none) (observed_log none) _ _ _ _ _ refl refl refl
          refl refl (tt, (tt, tt)) (λ w. refl)))
  serves o cfg (some e) ec el et = rw (main-serve_mail o cfg (some e) ec el et) (
      Served-Course o container templates cfg (observing o (some e)) (observed_log (some e)) _ _ _
        ec el refl (rw et refl)
        (serve_cases o templates cfg (observing o (some e)) (observed_log (some e)) _ _ _ _ _ refl
          refl refl refl refl (tt, tt) (λ w. refl)))

  main_cases :
      (o : Outside Float Data Bytes) (c : Result (Config Float)) (l : Option Err)
      → o.parsed ≡ c
      → o.logger_answer ≡ l
      → let (r, (hooks, w)) = main (packages o) templates ([], idle) in
        Course o container templates r hooks w
  unfolding main provide_config load provide_logger Course Ready goroutines
  main_cases o (err e) l ec el = rw ec ((λ ready. cc), refl)
  main_cases o (ok cfg) (some e) ec el = rw ec (rw el ((λ ready. cc), refl))
  main_cases o (ok cfg) none ec el = serves o cfg o.provider_answer ec el refl

  -- By what fx documents of hooks: where `main` wires the process, a configuration was read, there are
  -- a logger, a Redis that answers, a Kafka broker, a transport and a template registry, and a start
  -- and a stop open Redis, run one server of metrics and one consumer of the command topic, and then
  -- cancel the consumer, close the broker and Redis, cancel the server, shut the tracer down, if there
  -- is one, and sync the logger, in this order. Where it fails, one of these is missing, and no
  -- goroutine was started; a tracer that cannot be made never is the reason.
  pub main-Course :
      (o : Outside Float Data Bytes)
      → let (r, (hooks, w)) = main (packages o) templates ([], idle) in
        Course o container templates r hooks w
  main-Course o = main_cases o o.parsed o.logger_answer refl refl
