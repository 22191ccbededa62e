-- ===== src/Kafka/Message/Tests.antt =====
-- The headers of a message that is tried for the third time.
use ofm_mail_service.Prelude.{◌≡◌, ◌≤◌, ◌<◌, ◌^◌, List, [], ◌∷◌, arith}
use ofm_mail_service.Kafka.Message.{Header, retry_attempt}
use ofm_mail_service.Kafka.Message.Roundtrip.{numeral, retry_attempt-numeral}
use ofm_mail_service.Kafka.Message.Laws.{retry_attempt_bounds}

abbrev third : List Header
third = record { key = "x-ofm-retry-attempt"; value = 51 ∷ [] } ∷ []

retry_attempt_bounds_example : (1 ≤ retry_attempt third) × (retry_attempt third < 2 ^ 63)
retry_attempt_bounds_example = retry_attempt_bounds third

retry_attempt-numeral_example :
    retry_attempt (record { key = "x-ofm-retry-attempt"; value = numeral 120 } ∷ third) ≡ 120
retry_attempt-numeral_example = retry_attempt-numeral 120 third (omega arith) (omega arith)
