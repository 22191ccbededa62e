-- ===== src/Fx/Reconnect/Stopping.antt =====
-- The goroutine of the consumer, with the sessions of the Kafka broker, whose context is cancelled
-- while a session goes on.
use ofm_mail_service.Prelude.{
  ℕ, suc, ◌+◌, ◌≡◌, ◌⊎◌, inl, inr, refl, ◌∙◌, ap, Bool, true, false, Option, none, some, arith,
}
use ofm_mail_service.Errors.{Err}
use ofm_mail_service.Effect.{Result, ok, err}
use ofm_mail_service.Config.{PullConsumerConfig}
use ofm_mail_service.EventBroker.{MessageHandler}
use ofm_mail_service.Kafka.Broker.{Broker, Library}
use ofm_mail_service.Kafka.Broker.Ending.{
  StopLaws, reader, next_fetch, FetchesOn, Ends, session, session-Ends,
}
use ofm_mail_service.Fx.Reconnect.{Runner, returned, run, round, after_subscribe}

-- What a session that has returned is to its caller.
abbrev pub reported {ℓ} : {S : Type ℓ} → Option (Option Err) × S → Result (Unit {0}) × S
reported (some (some e), s) = (err e, s)
reported (_, s) = (ok tt, s)

module _ {W Reader Bytes : Type 0} (library : Library W Reader Bytes) (done : W → Bool)
    (laws : StopLaws library done) (cfg : PullConsumerConfig) (h : MessageHandler W Bytes)
    (r : Runner (Broker Reader × W))
    (asks : (s : Broker Reader × W) → r.cancelled s ≡ done s.1) where
  returns_with :
      (n backoff fuel : ℕ) (b : Broker Reader) (w : W)
      → done w ≡ false
      → r.subscribe (b, w) ≡ reported (session library done cfg h b w (suc n))
      → done (session library done cfg h b w n).1.1 ≡ true
      → Ends library done cfg h b w n (session library done cfg h b w n).1
      → run r (suc fuel) backoff (b, w) ≡ (returned, (session library done cfg h b w (suc n)).1)
  unfolding run round after_subscribe
  returns_with n backoff fuel b w live calls over e =
      let one : suc n ≡ 0 + suc n = omega arith in
      let last = ap (session library done cfg h b w) one ∙ e.ends 0 in
      let s = (session library done cfg h b w n).1 in
      let reader = (reader library done cfg h b w).0 in
      let w' = (next_fetch library done cfg h b w s).1 in
      let stays = laws.close_stays reader w' (laws.fetch_stays reader b.brokers s.1 over) in
      let over' = asks (s.0, library.close_reader reader w') ∙ stays in
      rw (asks (b, w), live, calls, last, over') refl

  -- Where the loop's subscription is a session of the Kafka broker, which begins before a
  -- cancellation, and the context is cancelled while the session is in any round of its own loop: the
  -- next `FetchMessage` answers one more message all the same, or it fails; and where it fails, the
  -- session ends with its error, however many rounds it is given, its reader is closed, and the loop
  -- around it has then returned, with no wait and no further session.
  pub run-Ends :
      (n backoff fuel : ℕ) (b : Broker Reader) (w : W)
      → done w ≡ false
      → r.subscribe (b, w) ≡ reported (session library done cfg h b w (suc n))
      → (session library done cfg h b w n).0 ≡ none
      → done (session library done cfg h b w n).1.1 ≡ true
      → FetchesOn library done cfg h b w (session library done cfg h b w n).1
        ⊎ (Ends library done cfg h b w n (session library done cfg h b w n).1
            × (run r (suc fuel) backoff (b, w)
                ≡ (returned, (session library done cfg h b w (suc n)).1)))
  run-Ends n backoff fuel b w live calls going over =
      elim (session-Ends library done cfg h b w n going) [
        | inl more ↦ inl more
        | inr e ↦ inr (e, returns_with n backoff fuel b w live calls over e)
      ]
