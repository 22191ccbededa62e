-- ===== src/Fx/Claims/Sending.antt =====
-- The whole of the service on one command after the other: the consumer loop of kafka/broker.go, the
-- claims of fx/messaging.go, the subscriber, the mail service of internal/application, and any
-- transport.
mod Tests
use ofm_mail_service.Prelude.{
  ℕ, zero, suc, ◌-◌, ◌≤◌, ◌≡◌, ◌⊎◌, inl, inr, refl, sym, ap, ◌∙◌, String, List, [], ◌∷◌, map, Bool,
  Option, none, Bool-cases, count, length, true, ◌==◌, eq_iff, arith,
}
use ofm_mail_service.Errors.{Err}
use ofm_mail_service.Effect.{Result, ok, err, Result-cases}
use ofm_mail_service.Config.{KafkaConfig}
use ofm_mail_service.Domain.{Email, SendResult}
use ofm_mail_service.Application.Registry.{TemplateEngine, Registry}
use ofm_mail_service.Application.Service.Laws.{Outcome, rejected, undelivered, delivered}
use ofm_mail_service.Application.Service.Outbox.{Outbox}
use ofm_mail_service.EventBroker.Commands.{SendMailCommand, SendMailResult}
use ofm_mail_service.EventBroker.{MessageHandler}
use ofm_mail_service.Kafka.Consumer.{Client}
use ofm_mail_service.Kafka.Consumer.Frame.{lifted_client}
use ofm_mail_service.Kafka.Mapper.{new_mail_mapper}
use ofm_mail_service.Kafka.Subscriber.{handle, report, wrap_unmarshal}
use ofm_mail_service.Kafka.Subscriber.Handling.{request_of}
use ofm_mail_service.Kafka.Subscriber.Delivery.{
  Published, World, Delivery, process_subscriber, handle-Delivery,
}
use ofm_mail_service.Fx.Claims.{Redis, event_key}
use ofm_mail_service.Fx.Claims.Consuming.{Ledger, RedisLaws, sessions}
use ofm_mail_service.Fx.Claims.Resending.{Apart}
use ofm_mail_service.Fx.Claims.Covering.{beside_reader, Costs, covered_once, sessions_keep}

-- Mails, each under the key of an event, the last first.
abbrev pub Attributed : Type 0
Attributed = List (String × Email)

-- the mails of one event
abbrev pub mails_of : String → Attributed → ℕ
mails_of k log = count (λ e. e.0 == k) log

-- The record has the mails of the outbox, in their order, and no others.
abbrev pub IsWhole : Outbox → Attributed → Type 0
IsWhole box log = map (λ e. e.1) log ≡ box

-- the first mails, as many as the number
abbrev pub attribute_first : String → ℕ → Outbox → Attributed → Attributed
attribute_first k zero box log = log
attribute_first k (suc n) [] log = log
attribute_first k (suc n) (mail ∷ box) log = (k, mail) ∷ attribute_first k n box log

-- what an outbox has more than before
abbrev pub attribute : String → Outbox → Outbox → Attributed → Attributed
attribute k before box log = attribute_first k (length box - length before) box log

attribute_none :
    (k : String) (before box : Outbox) (log : Attributed)
    → box ≡ before
    → attribute k before box log ≡ log
attribute_none k before box log same =
    let none_more : length box - length before ≡ 0 = omega (arith, ap length same) in
    ap (λ n. attribute_first k n box log) none_more

attribute_one :
    (k : String) (mail : Email) (before box : Outbox) (log : Attributed)
    → box ≡ mail ∷ before
    → attribute k before box log ≡ (k, mail) ∷ log
attribute_one k mail before box log more =
    let one_more : length box - length before ≡ suc 0 = omega (arith, ap length more) in
    ap (λ n. attribute_first k n box log) one_more ∙ ap (λ b. attribute_first k (suc 0) b log) more

module _ {Data Payload : Type 0} (is_address : String → Bool) (engine : TemplateEngine Data)
    (r : Registry engine) (transport : Outbox → Option Err)
    (brokers : Published Payload → Option Err) (clock : Outbox × Published Payload → String)
    (unmarshal : Payload → Result (SendMailCommand Data))
    (marshal : SendMailResult → Result Payload) (cfg : KafkaConfig)
    (encodes : (result : SendMailResult) → (bytes : Payload) × (marshal result ≡ ok bytes))
    (reaches : (out : Published Payload) → brokers out ≡ none) where
  abbrev run :
      String
      → Payload
      → Outbox × Published Payload
      → Result (Unit {0}) × (Outbox × Published Payload)
  run =
      handle (process_subscriber is_address engine r transport brokers clock unmarshal marshal cfg)

  report_ok :
      (cmd : SendMailCommand Data) (answer : Result SendResult) (w : Outbox × Published Payload)
      → (report
          (process_subscriber is_address engine r transport brokers clock unmarshal marshal cfg)
          cmd
          answer
          w).0
        ≡ ok tt
  unfolding report new_mail_mapper
  report_ok cmd (ok a) w = rw ((encodes _).1) (rw (reaches _) refl)
  report_ok cmd (err e) w = rw ((encodes _).1) (rw (reaches _) refl)

  handle_ok :
      (subject : String) (payload : Payload) (cmd : SendMailCommand Data)
      (w : Outbox × Published Payload)
      → unmarshal payload ≡ ok cmd
      → (run subject payload w).0 ≡ ok tt
  unfolding handle new_mail_mapper
  handle_ok subject payload cmd w e = rw e (report_ok cmd _ _)

  handle_undecodable :
      (subject : String) (payload : Payload) (x : Err) (w : Outbox × Published Payload)
      → unmarshal payload ≡ err x
      → (run subject payload w).1 ≡ w
  unfolding handle wrap_unmarshal
  handle_undecodable subject payload x w e = rw e refl

  Outcome-box :
      (cmd : SendMailCommand Data) (rendered : Result Email) (box box' : Outbox)
      (answer : Result SendResult)
      → Outcome is_address rendered transport (request_of cmd) box answer box'
      → (box' ≡ box) ⊎ ((mail : Email) × (box' ≡ mail ∷ box))
  Outcome-box cmd rendered box box' answer (rejected x why known) = inl refl
  Outcome-box cmd rendered box box' answer (undelivered mail x named valid made fine failed) =
      inr (_, refl)
  Outcome-box cmd rendered box box' answer (delivered mail named valid made fine sent) =
      inr (_, refl)

  -- A call hands over no mail, or it hands over one and returns nil.
  abbrev Hands : Outbox → Result (Unit {0}) → Outbox → Type 0
  Hands box answer box' = (box' ≡ box) ⊎ ((answer ≡ ok tt) × (mail : Email) × (box' ≡ mail ∷ box))

  run-Hands :
      (subject : String) (payload : Payload) (w : Outbox × Published Payload)
      → Hands w.0 (run subject payload w).0 (run subject payload w).1.0
  run-Hands subject payload w = elim (Result-cases (unmarshal payload)) [
    | inl (cmd, e) ↦
        let delivery =
          handle-Delivery is_address engine r transport brokers clock unmarshal marshal cfg subject
            payload cmd w.0 w.1 e in
        elim (Outcome-box cmd _ w.0 _ delivery.answer delivery.mailed) [
          | inl same ↦ inl same
          | inr (mail, more) ↦ inr (handle_ok subject payload cmd w e, mail, more)
        ]
    | inr (x, e) ↦ inl (ap (λ v. v.0) (handle_undecodable subject payload x w e))
  ]

  module _ (event_id : String → Payload → String) where
    -- The handler, with a record beside it: each mail that the transport is handed, under the key of
    -- the event in whose delivery this was.
    abbrev pub recorded : MessageHandler ((Outbox × Published Payload) × Attributed) Payload
    recorded subject payload (w, log) =
        let (answer, w') = run subject payload w in
        (answer, (w', attribute (event_key (event_id subject payload)) w.0 w'.0 log))

    recorded-Costs : (k : String) → Costs event_id recorded (λ t. mails_of k t.1) k
    recorded-Costs k subject payload (w, log) =
        let key = event_key (event_id subject payload) in
        elim (run-Hands subject payload w) [
          | inl same ↦ inl (ap (mails_of k) (attribute_none key w.0 _ log same))
          | inr (nil, mail, more) ↦ elim (Bool-cases (key == k)) [
            | inl own ↦ inr (
              nil,
              (eq_iff key k).0 own,
              ap (mails_of k) (attribute_one key mail w.0 _ log more) ∙ rw own refl,
            )
            | inr other ↦
                inl (ap (mails_of k) (attribute_one key mail w.0 _ log more) ∙ rw other refl)
          ]
        ]

    recorded-IsWhole :
        (subject : String) (payload : Payload) (t : (Outbox × Published Payload) × Attributed)
        → IsWhole t.0.0 t.1
        → IsWhole (recorded subject payload t).1.0.0 (recorded subject payload t).1.1
    recorded-IsWhole subject payload (w, log) whole =
        let key = event_key (event_id subject payload) in
        elim (run-Hands subject payload w) [
          | inl same ↦ ap (map (λ e. e.1)) (attribute_none key w.0 _ log same) ∙ whole ∙ sym same
          | inr (nil, mail, more) ↦
              ap (map (λ e. e.1)) (attribute_one key mail w.0 _ log more)
              ∙ ap (λ box. mail ∷ box) whole
              ∙ sym more
        ]

    module _ {K : Type 0}
        (redis : Redis (Ledger × (((Outbox × Published Payload) × Attributed) × K)))
        (laws : RedisLaws redis) (apart : Apart redis) (client : Client K Payload)
        (dead_letter retry_topic topic : String) where
      abbrev pub after :
          List ℕ
          → Ledger × (((Outbox × Published Payload) × Attributed) × K)
          → Ledger × (((Outbox × Published Payload) × Attributed) × K)
      after =
          sessions event_id redis laws (beside_reader recorded) (lifted_client client) dead_letter
            retry_topic topic

      -- Over any sessions of the consumer loop, whatever the reader delivers and how often, whatever
      -- the templates render, the transport answers and Redis fails: for each event, the transport is
      -- handed at most one mail in all deliveries of it together, and every mail that it is handed
      -- is handed over in a delivery of an event; by what Redis documents, as long as results can be
      -- encoded and published, no key expires and no other process changes the keys.
      pub mailed_once :
          (rounds : List ℕ) (keys : String → Option String) (out : Published Payload) (w : K)
          (k : String)
          → let ((box, _), log) =
              (after rounds (record { keys = keys; handled = [] }, ((([], out), []), w))).1.0 in
            (mails_of k log ≤ 1) × IsWhole box log
      mailed_once rounds keys out w k = (
        covered_once event_id recorded (λ t. mails_of k t.1) k (recorded-Costs k) redis laws apart
            client dead_letter retry_topic topic rounds keys (([], out), []) w refl,
        sessions_keep event_id recorded (λ t. IsWhole t.0.0 t.1) recorded-IsWhole redis laws apart
            client dead_letter retry_topic topic rounds
            (record { keys = keys; handled = [] }, ((([], out), []), w)) refl,
      )
