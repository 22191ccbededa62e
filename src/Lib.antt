-- ===== src/Lib.antt =====
-- The mail service: it consumes mail commands from a message broker, renders the template that a
-- command names, sends the mail over SMTP, and publishes a result message for each command. The
-- development models the Go code of the repository, part by part, and proves what the parts promise.
--
-- The parts and their files. A `Result` is a Go value with an error; an `Eff W A` is a Go function
-- with effects, which takes the outside world as a value of any type `W` and hands it back beside
-- its result (Effect). The interfaces that the code calls are records of such functions, and a
-- theorem about calls instantiates `W` with the list of the calls made so far, whose answers may
-- depend on all that happened before: Application/Service/Outbox, EventBroker/Trace,
-- Kafka/Consumer/Trace, Smtp/Session/Trace, Nats/Connection/Trace. Where two components share the
-- world, one acts on a part of it that the other leaves alone (Kafka/Consumer/Frame). Goroutines are
-- a step relation (Nats/Runtime), whose theorems hold of every state that is reachable in any order
-- of steps; Nats/Runtime/Refinement compares it, state by state, with the contract over bags, a
-- quotient of lists, of Nats/Runtime/Contract. In Fx/Claims/Sending a record beside the world holds
-- each mail under the event in whose delivery it was handed over.
--   Errors, Errors/Message     the error variables of all packages, `%w` chains, and their texts
--   Domain                     internal/domain/email.go
--   Config, Config/Defaults    config/*.go; Config/Loading is Load of config/config.go
--   Application/Registry       internal/application/template_registry.go: `register` is Register,
--                              `render` is Render, `build_template_registry` is
--                              BuildTemplateRegistry; FilePath and KeyMap are Go's path/filepath
--                              and maps
--   Application/Service        internal/application/service.go: `new`, `send`, and
--                              `is_domain_send_error`
--   EventBroker                internal/presentation/event_broker/type.go and the messages
--   Kafka/Subscriber           internal/presentation/event_broker/kafka/mail_command_subscriber.go;
--                              Kafka/Interfaces is type.go, Kafka/Mapper is mapper.go, Kafka/Reason
--                              is error_reason.go
--   Kafka/Message, Consumer    kafka/broker.go: `retry_attempt` is retryAttempt, `round` one round
--                              of the loop of RunPullConsumer
--   Kafka/Broker               kafka/broker.go: NewBroker, Publish, Subscribe, Close, and what
--                              RunPullConsumer does around its loop; Kafka/Exchange puts Publish
--                              before the loop
--   Nats/Subscriber, Settings  internal/presentation/event_broker/nats/mail_command_subscriber.go;
--                              Nats/Commands is commands.go, Nats/Interfaces is type.go, Nats/Mapper
--                              is mapper.go, Nats/Reason is error_reason.go
--   Nats/Runtime               nats/pull_consumer_runtime.go: the goroutines as steps
--   Nats/Connection, Broker    nats/broker.go, and Create of nats/pull_consumer_runtime.go: the
--                              parts of a broker are values of the interfaces of type.go;
--                              Nats/Broker/Answering puts Nats/Subscriber on the broker, and a worker
--                              of Nats/Runtime behind it
--   Bootstrap                  pkg/messaging/nats/bootstrap.go
--   Nats/Validator, Plan       nats/pull_consumer_validator.go, and ResolvePullPlan of
--                              nats/broker.go
--   Fx/Claims, Messaging       internal/fx/messaging.go: the broker that claims events in Redis,
--                              and its construction; Fx/Claims/Consuming puts it around the loop of
--                              Kafka/Consumer, Fx/Claims/Resending around Kafka/Subscriber;
--                              Fx/Claims/Sending puts the three together with the mail service,
--                              over Fx/Claims/Covering;
--                              Fx/Claims/Processes has several processes over one Redis, as steps
--                              in any order
--   Fx/Reconnect, Presentation internal/fx/presentation.go: the loop that subscribes again, and the
--                              hooks around it; Fx/Startup runs them with those of Fx/Messaging,
--                              Fx/Reconnect/Stopping puts the loop around the sessions of
--                              Kafka/Broker
--   Fx/Process                 cmd/mail-service/main.go, with ProvideConfig, ProvideMailService and
--                              ProvideMailCommandSubscriber: `main` wires all modules
--   Fx/Observability           internal/fx/logger.go, metrics.go, tracing.go
--   Fx/Templates               internal/fx/service.go: the template definitions of the process
--   Fx/Transport, Fake         ProvideMailSender of internal/fx/service.go, pkg/mailer/fake/fake.go
--   Smtp/Config, Session       pkg/mailer/smtp/smtp.go: `new` is New, `new_client` is newClient,
--                              `send_once` is the unexported send, `send` is Send; Smtp/Error is
--                              error.go; Smtp/Lines and Reading have a reader of its messages
-- The service is given the registry and the transport; the subscriber calls the service and
-- publishes by the broker (Kafka/Subscriber/Delivery puts the three together); the claiming broker
-- wraps the handler that the subscriber gives it.
--
-- Numbers: Go's int and time.Duration are signed numbers, durations in nanoseconds; no modelled
-- arithmetic on them can overflow but the attempt plus one, whose number is below 2^63 by
-- Kafka/Message/Laws and below the limit of attempts where one is added. Fuel: the consumer loop
-- and the reconnecting loop run for ever in the code, so that the models run any number of rounds,
-- and their theorems hold for each number (Fx/Reconnect/Stopping gives the consumer
-- loop any number of rounds and one more); the reader of Smtp/Reading has a round for each line and
-- one more; `decimal_from` has the number itself as fuel, which is more than its digits.
--
-- Parameters: JSON, the clock, the template engines and the file system, address parsing, the Kafka
-- reader and writer, the NATS connection, the envelope, retry and dead-letter packages of ofm-
-- common, the circuit breaker, Redis, and the network. Hypotheses on them are records: the two
-- `RedisLaws` state what Redis documents of SETNX, SET and DEL, `IsPoison` that a consumer group
-- resumes at the first message with no commit (so does `IsRetried`), `RedisWorks` that Redis is
-- reached, `ContextLaws` that a context is done only behind a cancellation, `BreakerLaws` that the
-- circuit breaker does nothing but call its function, `Container` in which order fx runs hooks,
-- `StopLaws` that a context that is done stays so. The tests of each part instantiate them. The runs
-- of Nats/Runtime/Termination keep to `AnswersAsked`: Fetch of nats.go answers no more messages than
-- it was asked for.
--
-- Not modelled: the libraries that read the environment and inject dependencies; log entries and the
-- counters of package metrics; the contents of contexts but their deadlines and cancellation; the
-- loop of the retry queue, which belongs to ofm-common.
pub mod Application
pub mod Bootstrap
pub mod Config
pub mod Domain
pub mod Effect
pub mod Errors
pub mod EventBroker
pub mod Fake
pub mod Fx
pub mod Kafka
pub mod Nats
pub mod Prelude
pub mod Smtp
