-- ===== src/Nats/Plan/Tests.antt =====
-- The settings of a process with no NATS variables in its environment.
use ofm_mail_service.Prelude.{◌≡◌, refl, none}
use ofm_mail_service.Config.{PullConsumerConfig}
use ofm_mail_service.Config.Defaults.{default_nats_config}
use ofm_mail_service.Nats.Settings.{build_pull_consumer_config}
use ofm_mail_service.Nats.Validator.{validate}

abbrev pub settings : PullConsumerConfig
settings = build_pull_consumer_config default_nats_config

pub is_valid : validate settings ≡ none
unfolding validate build_pull_consumer_config
is_valid = refl
