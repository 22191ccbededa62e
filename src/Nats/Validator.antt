-- ===== src/Nats/Validator.antt =====
-- nats/pull_consumer_validator.go: the settings of a pull consumer are checked before JetStream is
-- touched. `none` is a nil error.
pub mod Laws
use ofm_mail_service.Prelude.{
  Bool, true, ◌||◌, not, Option, none, some, ◌==◌, if◌then◌else◌, ℤ, pos, ltb_ℤ, leb_ℤ,
}
use ofm_mail_service.Errors.{Err, NatsError, nats, sentinel}
use ofm_mail_service.Config.{PullAdaptiveConfig, PullConsumerConfig}
use ofm_mail_service.Nats.Interfaces.{PullConsumerConfigValidator}

abbrev refuse : NatsError → Option Err
refuse e = some (sentinel (nats e))

-- the checks behind `cfg.Adaptive.Enabled`
validate_adaptive : PullAdaptiveConfig → Option Err
validate_adaptive a =
    if leb_ℤ a.check_interval (pos 0)
    then refuse NatsError.invalid_adaptive_check_interval
    else if ltb_ℤ a.medium_pending (pos 0) || leb_ℤ a.high_pending a.medium_pending
    then refuse NatsError.invalid_adaptive_thresholds
    else if leb_ℤ a.low_batch_size (pos 0)
        || leb_ℤ a.low_max_wait (pos 0)
        || leb_ℤ a.medium_batch_size (pos 0)
        || leb_ℤ a.medium_max_wait (pos 0)
        || leb_ℤ a.high_batch_size (pos 0)
        || leb_ℤ a.high_max_wait (pos 0)
    then refuse NatsError.invalid_adaptive_plan
    else none

-- the checks of the numbers that every consumer has
validate_sizes : PullConsumerConfig → Option Err
unfolding validate_adaptive
validate_sizes c =
    if leb_ℤ c.batch_size (pos 0)
    then refuse NatsError.invalid_batch_size
    else if leb_ℤ c.max_wait (pos 0)
    then refuse NatsError.invalid_max_wait
    else if leb_ℤ c.workers (pos 0)
    then refuse NatsError.invalid_worker_count
    else if leb_ℤ c.queue_size (pos 0)
    then refuse NatsError.invalid_queue_size
    else if leb_ℤ c.ack_wait (pos 0)
    then refuse NatsError.invalid_ack_wait
    else if leb_ℤ c.max_deliver (pos 0)
    then refuse NatsError.invalid_max_deliver
    else if not c.adaptive.enabled
    then none
    else validate_adaptive c.adaptive

unfoldable pub validate : PullConsumerConfig → Option Err
unfolding validate_sizes
validate c =
    if c.stream == ""
    then refuse NatsError.empty_stream_name
    else if c.subject == ""
    then refuse NatsError.empty_subject
    else if c.durable == ""
    then refuse NatsError.empty_durable_name
    else validate_sizes c

abbrev pub new_pull_consumer_config_validator : PullConsumerConfigValidator
new_pull_consumer_config_validator = record { validate = validate }
