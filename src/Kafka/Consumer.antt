-- ===== src/Kafka/Consumer.antt =====
-- kafka/broker.go `RunPullConsumer` and `deadLetterMessage`: the consumer loop. The Kafka reader and
-- writer, and the packages events and resilience, are parameters; metrics are left out. The last
-- `if err != nil` of the loop is left out too: it tests an error that is nil there.

pub mod Trace
pub mod Rounds
pub mod Order
pub mod Accounting
pub mod Poison
pub mod Requeue
pub mod Invariant
pub mod Frame
pub mod Ending
pub mod Samples
mod Tests
use ofm_mail_service.Prelude.{
  ℕ, zero, suc, ◌+◌, String, Bool, true, false, not, ◌&&◌, Option, none, some, ltb, if◌then◌else◌,
  ℤ, pos,
}
use Prim.Native.String.{◌++◌}
use ofm_mail_service.Errors.{Err, permanent, is_foreign}
use ofm_mail_service.Errors.Message.{error_text}
use ofm_mail_service.Effect.{Result, ok, err, Eff, lift, ◌>>=◌}
use ofm_mail_service.EventBroker.{MessageHandler}
use ofm_mail_service.Kafka.Message.{Message, retry_attempt}

-- resilience.DLQRecord
pub record DlqRecord (Bytes : Type 0) : Type 0 where
  pub original_key : Bytes
  pub original_value : Bytes
  pub original_topic : String
  pub original_partition : ℤ
  pub original_offset : ℤ
  pub attempts : ℕ
  pub error_class : String
  pub error : String
  pub failed_at : String

-- The outside of the loop.
pub record Client (W Bytes : Type 0) : Type 0 where
  -- kafka.Reader
  pub fetch_message : Eff W (Message Bytes)
  pub commit_messages : Message Bytes → Eff W (Unit {0})
  -- kafka.Writer.WriteMessages, by the topic
  pub write_message : String → Message Bytes → Eff W (Unit {0})
  -- resilience.KafkaRetryQueue.Enqueue, with the topic of its writer first
  pub enqueue : String → Message Bytes → String → ℕ → Err → Eff W (Unit {0})
  -- events.Unwrap, resilience.MarshalDLQ, fmt's %T, time.Now
  pub unwrap : Bytes → Result Bytes
  pub marshal_dlq : DlqRecord Bytes → Result Bytes
  pub type_name : Err → String
  pub now : W → String × W
  -- resilience.DefaultRetryPolicy.MaxAttempts
  pub max_attempts : ℕ

-- How one round of the loop ends: by `continue` or at its end, or by `return`.
pub data Flow : Type 0 where
  next : Flow
  stop : Option Err → Flow

abbrev pub returned : Result (Unit {0}) → Flow
returned (ok _) = stop none
returned (err e) = stop (some e)

-- `if err != nil { return err }` at the end of a round
abbrev pub continued : Result (Unit {0}) → Flow
continued (ok _) = next
continued (err e) = stop (some e)

abbrev pub ending : {W : Type 0} → (Result (Unit {0}) → Flow) → Result (Unit {0}) × W → Flow × W
ending f (result, w) = (f result, w)

-- Back to the head of the loop, or out of it.
abbrev pub resume :
    {W : Type 0} → (W → Option (Option Err) × W) → Flow × W → Option (Option Err) × W
resume rounds (next, w) = rounds w
resume rounds (stop e, w) = (some e, w)

module _ {W Bytes : Type 0} (client : Client W Bytes) (dead_letter retry_topic subject : String)
    (handler : MessageHandler W Bytes) where
  pub dlq_record : Message Bytes → ℕ → Err → String → DlqRecord Bytes
  dlq_record msg attempts cause failed_at = record {
    original_key = msg.key;
    original_value = msg.value;
    original_topic = subject;
    original_partition = msg.partition;
    original_offset = msg.offset;
    attempts = attempts;
    error_class = client.type_name cause;
    error = error_text cause;
    failed_at = failed_at;
  }

  -- A literal of a message leaves the partition and the offset at 0.
  pub dlq_message : Message Bytes → Bytes → Message Bytes
  dlq_message msg payload = record {
    key = msg.key;
    value = payload;
    headers = msg.headers;
    partition = pos 0;
    offset = pos 0;
  }

  -- deadLetterMessage
  dead_letter_message : Message Bytes → ℕ → Err → Eff W (Unit {0})
  dead_letter_message msg attempts cause w =
      let (failed_at, w') = client.now w in
      (do
        payload ← lift (client.marshal_dlq (dlq_record msg attempts cause failed_at))
        client.write_message dead_letter (dlq_message msg payload))
        w'

  -- what follows the handler's answer
  after_handler : Message Bytes → ℕ → Result (Unit {0}) × W → Flow × W
  after_handler msg attempts (ok _, w) = ending continued (client.commit_messages msg w)
  after_handler msg attempts (err e, w) =
      if not (is_foreign e permanent) && ltb attempts client.max_attempts
      then ending continued (client.enqueue retry_topic msg subject (attempts + 1) e w)
      else ending returned (dead_letter_message msg attempts e w)

  -- what follows `Unwrap`
  unwrapped : Message Bytes → ℕ → Result Bytes → W → Flow × W
  unwrapped msg attempts (err e) w = ending returned (dead_letter_message msg attempts e w)
  unwrapped msg attempts (ok payload) w = after_handler msg attempts (handler subject payload w)

  process : Result (Message Bytes) × W → Flow × W
  process (err e, w) = (stop (some e), w)
  process (ok msg, w) = unwrapped msg (retry_attempt msg.headers) (client.unwrap msg.value) w

  -- one round of the loop
  pub round : W → Flow × W
  round w = process (client.fetch_message w)

  -- The first rounds of the loop, as many as the fuel: `none` while it goes on.
  pub run_pull_consumer : ℕ → W → Option (Option Err) × W
  run_pull_consumer zero w = (none, w)
  run_pull_consumer (suc fuel) w = resume (run_pull_consumer fuel) (round w)
