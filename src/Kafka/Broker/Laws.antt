-- ===== src/Kafka/Broker/Laws.antt =====
-- What the sessions of the reconnecting caller leave behind. The ledger keeps the readers that were
-- opened and closed, in their order, and counts the retry queues that were started.
use ofm_mail_service.Prelude.{
  ℕ, zero, suc, ◌≡◌, refl, sym, ap, ◌∙◌, ◌⊎◌, inl, inr, String, List, [], ◌∷◌, ◌++◌, Option, none,
  some, arith, length, length-append,
}
use mathlib.Core.List.{append-nil, append_assoc}
use ofm_mail_service.Errors.{Err}
use ofm_mail_service.Effect.{Result}
use ofm_mail_service.Config.{PullConsumerConfig}
use ofm_mail_service.EventBroker.{MessageHandler}
use ofm_mail_service.Kafka.Consumer.{Client}
use ofm_mail_service.Kafka.Consumer.Frame.{
  lifted, lifted_client, lifted_handler, run_pull_consumer_keeps,
}
use ofm_mail_service.Kafka.Broker.{
  Broker, Library, mail_broker, run_pull_consumer, defer_close, close, close_all,
}

pub record Ledger : Type 0 where
  pub opened : List ℕ
  pub closed : List ℕ
  pub retry_queues : ℕ

abbrev pub empty : Ledger
empty = record { opened = []; closed = []; retry_queues = 0 }

-- A library that keeps the ledger, around one that does not. Readers are numbered.
abbrev pub open_reader : Ledger → Ledger
open_reader l = record l { opened = l.opened ++ length l.opened ∷ [] }

abbrev pub close_reader : ℕ → Ledger → Ledger
close_reader r l = record l { closed = l.closed ++ r ∷ [] }

abbrev pub run_retry_queue : Ledger → Ledger
run_retry_queue l = record l { retry_queues = suc l.retry_queues }

module _ {W Bytes : Type 0} (wrap : String → Bytes → Result Bytes) (sum256 : Bytes → Bytes)
    (c : Client W Bytes) where
  abbrev pub library : Library (Ledger × W) ℕ Bytes
  library = record {
    wrap = wrap;
    sum256 = sum256;
    write_messages = λ _ topic msg. lifted (c.write_message topic msg);
    run_retry_queue = λ _ (l, w). (run_retry_queue l, w);
    new_reader = λ _ (l, w). (length l.opened, (open_reader l, w));
    close_reader = λ r (l, w). (close_reader r l, w);
    client = λ _ _. lifted_client c;
    retry_topic = λ group. group;
    max_attempts = c.max_attempts;
  }

  module _ (cfg : PullConsumerConfig) (h : MessageHandler W Bytes) (fuel : ℕ) where
    abbrev run : Broker ℕ → Ledger × W → Option (Option Err) × (Broker ℕ × (Ledger × W))
    run b s = run_pull_consumer library fuel b cfg (lifted_handler h) s

    -- The reconnecting caller: a new session after each return, and none while one goes on.
    abbrev again :
        (Broker ℕ × (Ledger × W) → Broker ℕ × (Ledger × W))
        → Option (Option Err) × (Broker ℕ × (Ledger × W))
        → Broker ℕ × (Ledger × W)
    again rest (none, s) = s
    again rest (some e, s) = rest s

    abbrev pub sessions : ℕ → Broker ℕ × (Ledger × W) → Broker ℕ × (Ledger × W)
    sessions zero s = s
    sessions (suc k) (b, s) = again (sessions k) (run b s)

    -- The broker keeps every reader that was opened, one for each retry queue, closed or not.
    abbrev Keeps : Broker ℕ → Ledger → Type 0
    Keeps b l = (b.readers ≡ l.opened) × (l.retry_queues ≡ length l.opened)

    -- Between two sessions all readers are closed; in one, all but the last.
    abbrev Between : Broker ℕ → Ledger → Type 0
    Between b l = Keeps b l × (l.closed ≡ l.opened)

    abbrev Within : Broker ℕ → Ledger → Type 0
    Within b l = Keeps b l × ((r : ℕ) × (l.opened ≡ l.closed ++ r ∷ []))

    abbrev pub IsKept : Broker ℕ → Ledger → Type 0
    IsKept b l = Between b l ⊎ Within b l

    abbrev After : Option (Option Err) → Broker ℕ → Ledger → Type 0
    After none = Within
    After (some e) = Between

    defer_close-After :
        (b : Broker ℕ) (l : Ledger)
        → Between b l
        → (x : Option (Option Err) × (Ledger × W)) → x.1.0 ≡ open_reader (run_retry_queue l)
        → let (o, (l', w')) = defer_close library (length l.opened) x in
          After o (record b { readers = b.readers ++ length l.opened ∷ [] }) l'
    unfolding defer_close
    defer_close-After b l k (none, (l', w)) e =
        let ((readers, queues), closed) = k in
        let len = length-append l.opened (length l.opened ∷ []) in
        rw e (
          (ap (λ rs. rs ++ length l.opened ∷ []) readers, omega (arith, queues, len)),
          (length l.opened, ap (λ rs. rs ++ length l.opened ∷ []) (sym closed)),
        )
    defer_close-After b l k (some x, (l', w)) e =
        let ((readers, queues), closed) = k in
        let len = length-append l.opened (length l.opened ∷ []) in
        rw e (
          (ap (λ rs. rs ++ length l.opened ∷ []) readers, omega (arith, queues, len)),
          ap (λ rs. rs ++ length l.opened ∷ []) closed,
        )

    run_leaves :
        (b : Broker ℕ) (s : Ledger × W)
        → Between b s.0
        → let (o, (b', s')) = run b s in After o b' s'.0
    unfolding run_pull_consumer
    run_leaves b (l, w) k = defer_close-After b l k _ (
        run_pull_consumer_keeps c b.dead_letter b.group cfg.subject h fuel
          (open_reader (run_retry_queue l), w))

    again-IsKept :
        (rest : Broker ℕ × (Ledger × W) → Broker ℕ × (Ledger × W))
        → ((b : Broker ℕ) (s : Ledger × W)
            → Between b s.0
            → let (b', (l', w')) = rest (b, s) in IsKept b' l')
        → (x : Option (Option Err) × (Broker ℕ × (Ledger × W))) → After x.0 x.1.0 x.1.1.0
        → let (b', (l', w')) = again rest x in IsKept b' l'
    again-IsKept rest keeps (none, (b, (l, w))) a = inr a
    again-IsKept rest keeps (some e, (b, s)) a = keeps b s a

    sessions-IsKept :
        (k : ℕ) (b : Broker ℕ) (s : Ledger × W)
        → Between b s.0
        → let (b', (l', w')) = sessions k (b, s) in IsKept b' l'
    sessions-IsKept zero b s a = inl a
    sessions-IsKept (suc k) b s a =
        again-IsKept (sessions k) (sessions-IsKept k) (run b s) (run_leaves b s a)

    close_all-closed :
        (rs : List ℕ) (l : Ledger) (w : W) → (close_all library rs (l, w)).0.closed ≡ l.closed ++ rs
    unfolding close_all
    close_all-closed [] l w = sym (append-nil l.closed)
    close_all-closed (r ∷ rs) l w =
        close_all-closed rs (close_reader r l) w ∙ append_assoc l.closed (r ∷ []) rs

    close-closed :
        (b : Broker ℕ) (l : Ledger) (w : W)
        → IsKept b l
        → (close library b (l, w)).0.closed ≡ l.closed ++ l.opened
    unfolding close
    close-closed b l w (inl ((readers, _), _)) =
        close_all-closed b.readers l w ∙ ap (λ rs. l.closed ++ rs) readers
    close-closed b l w (inr ((readers, _), _)) =
        close_all-closed b.readers l w ∙ ap (λ rs. l.closed ++ rs) readers

    -- Whatever the sessions of the reconnecting caller do, the broker keeps every reader that was
    -- opened, and there is one retry queue for each of them. All of them are closed, but the last
    -- where a session goes on. `Close` closes every one, those that are closed already once more.
    pub sessions_leave :
        (brokers : List String) (group : String) (k : ℕ) (w : W)
        → let (b, (l, w')) = sessions k (mail_broker brokers group, (empty, w)) in
          IsKept b l × ((close library b (l, w')).0.closed ≡ l.closed ++ l.opened)
    sessions_leave brokers group k w =
        let kept = sessions-IsKept k (mail_broker brokers group) (empty, w) ((refl, refl), refl) in
        (kept, close-closed _ _ _ kept)
