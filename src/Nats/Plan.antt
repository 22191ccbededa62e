-- ===== src/Nats/Plan.antt =====
-- nats/broker.go `ResolvePullPlan`, and the fetch state that nats/pull_consumer_runtime.go
-- switches by it.
pub mod Laws
pub mod Tests
use ofm_mail_service.Prelude.{
  ◌<◌, Bool, true, false, ◌&&◌, ◌||◌, not, String, if◌then◌else◌, ℤ, leb_ℤ, ltb_ℤ, ◌==◌,
}
use ofm_mail_service.Config.{PullConsumerConfig}

pub record PullPlan : Type 0 where
  pub tier : String
  pub batch : ℤ
  pub wait : ℤ

unfoldable pub resolve_pull_plan : PullConsumerConfig → ℤ → PullPlan
resolve_pull_plan c pending =
    if not c.adaptive.enabled
    then record { tier = "base"; batch = c.batch_size; wait = c.max_wait }
    else if leb_ℤ c.adaptive.high_pending pending
    then record {
      tier = "high";
      batch = c.adaptive.high_batch_size;
      wait = c.adaptive.high_max_wait;
    }
    else if leb_ℤ c.adaptive.medium_pending pending
    then record {
      tier = "medium";
      batch = c.adaptive.medium_batch_size;
      wait = c.adaptive.medium_max_wait;
    }
    else record { tier = "low"; batch = c.adaptive.low_batch_size; wait = c.adaptive.low_max_wait }
