-- ===== src/Nats/Validator/Laws.antt =====
-- The validator decides a predicate that is stated without its order of tests.
use ofm_mail_service.Prelude.{◌≡◌, ◌≢◌, ◌↔◌, ◌⊎◌, false, none, arith, eq_iff, pos, ◌<ℤ◌, ◌≤ℤ◌}
use ofm_mail_service.Config.{PullAdaptiveConfig, PullConsumerConfig}
use ofm_mail_service.Nats.Validator.{validate, validate_sizes, validate_adaptive}

pub record AdaptiveIsValid (a : PullAdaptiveConfig) : Type 0 where
  pub interval : pos 0 <ℤ a.check_interval
  pub medium_nonneg : pos 0 ≤ℤ a.medium_pending
  pub medium-lt-high : a.medium_pending <ℤ a.high_pending
  pub low_batch : pos 0 <ℤ a.low_batch_size
  pub low_wait : pos 0 <ℤ a.low_max_wait
  pub medium_batch : pos 0 <ℤ a.medium_batch_size
  pub medium_wait : pos 0 <ℤ a.medium_max_wait
  pub high_batch : pos 0 <ℤ a.high_batch_size
  pub high_wait : pos 0 <ℤ a.high_max_wait

pub record SizesAreValid (c : PullConsumerConfig) : Type 0 where
  pub batch : pos 0 <ℤ c.batch_size
  pub wait : pos 0 <ℤ c.max_wait
  pub workers : pos 0 <ℤ c.workers
  pub queue : pos 0 <ℤ c.queue_size
  pub ack : pos 0 <ℤ c.ack_wait
  pub deliver : pos 0 <ℤ c.max_deliver
  pub adaptive : (c.adaptive.enabled ≡ false) ⊎ AdaptiveIsValid c.adaptive

-- What a consumer needs: names, positive sizes, and ordered tiers unless it does not adapt.
pub record IsValid (c : PullConsumerConfig) : Type 0 where
  pub stream : c.stream ≢ ""
  pub subject : c.subject ≢ ""
  pub durable : c.durable ≢ ""
  pub sizes : SizesAreValid c

validate_adaptive_sound : (a : PullAdaptiveConfig) → validate_adaptive a ≡ none → AdaptiveIsValid a
unfolding validate_adaptive
validate_adaptive_sound a h = ground arith

validate_adaptive_complete :
    (a : PullAdaptiveConfig) → AdaptiveIsValid a → validate_adaptive a ≡ none
unfolding validate_adaptive
validate_adaptive_complete a h = ground arith

validate_sizes_sound : (c : PullConsumerConfig) → validate_sizes c ≡ none → SizesAreValid c
unfolding validate_sizes
validate_sizes_sound c h = ground (arith, validate_adaptive_sound c.adaptive)

validate_sizes_complete : (c : PullConsumerConfig) → SizesAreValid c → validate_sizes c ≡ none
unfolding validate_sizes
validate_sizes_complete c h = ground (arith, validate_adaptive_complete c.adaptive)

-- `Validate` answers nil exactly for the settings that satisfy `IsValid`.
pub validate_iff : (c : PullConsumerConfig) → (validate c ≡ none) ↔ IsValid c
unfolding validate
validate_iff c = (
  λ h.
      ground (
        arith,
        eq_iff c.stream "",
        eq_iff c.subject "",
        eq_iff c.durable "",
        validate_sizes_sound c,
      ),
  λ h. ground (
    arith,
    eq_iff c.stream "",
    eq_iff c.subject "",
    eq_iff c.durable "",
    validate_sizes_complete c,
  ),
)
