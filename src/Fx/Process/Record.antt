-- ===== src/Fx/Process/Record.antt =====
-- A world that records what the process does, and packages that change nothing else in it.
use ofm_mail_service.Prelude.{ℕ, suc, String, Bool, List, [], ◌∷◌, ◌++◌, Option, none, some}
use ofm_mail_service.Errors.{Err}
use ofm_mail_service.Effect.{Result, Eff, check}
use ofm_mail_service.Config.{Config}
use ofm_mail_service.EventBroker.{EventBroker}
use ofm_mail_service.EventBroker.Commands.{Wire}
use ofm_mail_service.Application.Registry.{TemplateEngine}
use ofm_mail_service.Smtp.Session.{Breaker, Net}
use ofm_mail_service.Kafka.Broker.{Broker}
use ofm_mail_service.Fx.Claims.{Redis}
use ofm_mail_service.Fx.Lifecycle.{Hook, Background}
use ofm_mail_service.Fx.Messaging.{RedisOptions, redis_options}
use ofm_mail_service.Fx.Observability.{TracerConfig}
use ofm_mail_service.Fx.Process.{Packages}

pub data Event : Type 0 where
  logger_opened logger_synced tracer_installed tracer_shut : Event
  redis_opened : RedisOptions → Event
  redis_closed broker_closed : Event
  metrics_started cancelled : ℕ → Event
  -- the context of the consumer, and the topic that it reads
  consumer_started : ℕ → String → Event

-- The variables `cancel` of the two goroutines, the number of contexts, and what was done, the last
-- event first.
pub record World : Type 0 where
  pub metrics_cancel : Option ℕ
  pub consumer_cancel : Option ℕ
  pub contexts : ℕ
  pub log : List Event

abbrev pub idle : World
idle = record { metrics_cancel = none; consumer_cancel = none; contexts = 0; log = [] }

abbrev pub note : Event → World → World
note e w = record w { log = e ∷ w.log }

abbrev new_context : World → ℕ × World
new_context w = (w.contexts, record w { contexts = suc w.contexts })

abbrev serving : Background World ℕ
serving = record {
  with_cancel = new_context;
  cancel = λ ctx w. note (cancelled ctx) w;
  assign = λ ctx w. record w { metrics_cancel = some ctx };
  assigned = λ w. w.metrics_cancel;
  go = λ ctx w. note (metrics_started ctx) w;
}

abbrev consuming : String → Background World ℕ
consuming topic = record {
  with_cancel = new_context;
  cancel = λ ctx w. note (cancelled ctx) w;
  assign = λ ctx w. record w { consumer_cancel = some ctx };
  assigned = λ w. w.consumer_cancel;
  go = λ ctx w. note (consumer_started ctx topic) w;
}

-- How the outside answers, and the packages that the recorded events do not show.
pub record Outside (Float Data Bytes : Type 0) : Type 1 where
  pub Reader : Type 0
  pub file_answer : String → Result (Unit {0})
  pub parsed : Result (Config Float)
  pub logger_answer : Option Err
  pub sync_answer : Option Err
  pub provider_answer : Option Err
  pub shutdown_answer : Option Err
  pub instrument_answer : Option Err
  pub ping_answer : Option Err
  pub close_answer : Option Err
  pub commands : Redis World
  pub tracing_defaults : String → String → TracerConfig Float (Unit {0})
  pub event_id : String → Bytes → String
  pub event_broker : Broker Reader → EventBroker World Bytes
  pub address_text : String → String → String
  pub is_address : String → Bool
  pub breaker : Breaker
  pub net : Net World
  pub engine : TemplateEngine Data
  pub wire : Wire World Data Bytes

-- the goroutines that were started
unfoldable pub goroutines : List Event → ℕ
goroutines [] = 0
goroutines (metrics_started ctx ∷ log) = suc (goroutines log)
goroutines (consumer_started ctx topic ∷ log) = suc (goroutines log)
goroutines (logger_opened ∷ log) = goroutines log
goroutines (logger_synced ∷ log) = goroutines log
goroutines (tracer_installed ∷ log) = goroutines log
goroutines (tracer_shut ∷ log) = goroutines log
goroutines (redis_opened options ∷ log) = goroutines log
goroutines (redis_closed ∷ log) = goroutines log
goroutines (broker_closed ∷ log) = goroutines log
goroutines (cancelled ctx ∷ log) = goroutines log

-- what is done with a tracer, where there is one
unfoldable pub with_tracer : Event → Option Err → List Event
with_tracer e none = e ∷ []
with_tracer e (some failed) = []

abbrev pub stopping : Eff World (Unit {0}) → Hook World
stopping m = record { on_start = none; on_stop = some m }

abbrev pub observed_log : Option Err → List Event
observed_log t = with_tracer tracer_installed t ++ logger_opened ∷ []

abbrev pub served_log : {Float : Type 0} → Config Float → List Event → List Event
served_log cfg log =
    cancelled 0
    ∷ redis_closed
    ∷ broker_closed
    ∷ cancelled 1
    ∷ consumer_started 1 cfg.kafka.command_topic
    ∷ metrics_started 0
    ∷ redis_opened (redis_options cfg.redis)
    ∷ log

abbrev pub served : {Float : Type 0} → Config Float → List Event → World
served cfg log = record {
  metrics_cancel = some 0;
  consumer_cancel = some 1;
  contexts = 2;
  log = served_log cfg log;
}

module _ {Float Data Bytes : Type 0} (o : Outside Float Data Bytes) where
  abbrev pub packages : Packages World Float Data Bytes ℕ
  packages = record {
    Log = Unit {0};
    Meter = Unit {0};
    Provider = Unit {0};
    TracingDefaults = Unit {0};
    Reader = o.Reader;
    environment = record { load_file = λ file w. (o.file_answer file, w); parse = λ w. o.parsed };
    logging = record {
      new_with_mode = λ service env mode level w. (check o.logger_answer, note logger_opened w);
      sync = λ lg w. (check o.sync_answer, note logger_synced w);
    };
    tracing_defaults = o.tracing_defaults;
    tracing = record {
      new_tracer_provider = λ cfg w. (check o.provider_answer, w);
      set_global = λ tp w. note tracer_installed w;
      shutdown = λ tp w. (check o.shutdown_answer, note tracer_shut w);
    };
    metrics = record { new_noop = tt; new = λ service env. tt; set_global = λ meter w. w };
    serving = λ meter. serving;
    redis = record {
      new_client = λ options w. note (redis_opened options) w;
      instrument_tracing = λ w. (check o.instrument_answer, w);
      retry_ping = λ w. (check o.ping_answer, w);
      close = λ w. (check o.close_answer, note redis_closed w);
      commands = o.commands;
    };
    event_id = o.event_id;
    event_broker = λ b. record (o.event_broker b) { close = note broker_closed };
    address_text = o.address_text;
    is_address = o.is_address;
    breaker = o.breaker;
    net = o.net;
    engine = o.engine;
    wire = o.wire;
    consuming = λ subscriber. consuming subscriber.cfg.command_topic;
  }
