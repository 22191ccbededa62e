-- ===== src/Nats/Plan/Laws.antt =====
-- The plans of a valid configuration.
use ofm_mail_service.Prelude.{◌≡◌, none, arith, pos, ◌<ℤ◌, ℤ}
use ofm_mail_service.Config.{PullConsumerConfig}
use ofm_mail_service.Nats.Plan.{resolve_pull_plan}
use ofm_mail_service.Nats.Validator.{validate}
use ofm_mail_service.Nats.Validator.Laws.{validate_iff}

-- Whatever number of messages is pending, a validated configuration has a plan with a positive
-- batch and a positive wait.
pub resolve_pull_plan_positive :
    (c : PullConsumerConfig) (pending : ℤ)
    → validate c ≡ none
    → (pos 0 <ℤ (resolve_pull_plan c pending).batch) × (pos 0 <ℤ (resolve_pull_plan c pending).wait)
unfolding resolve_pull_plan
resolve_pull_plan_positive c pending h = let v = (validate_iff c).0 h in ground arith
