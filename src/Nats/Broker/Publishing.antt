-- ===== src/Nats/Broker/Publishing.antt =====
-- The calls of `Publish` of the NATS broker.
use mathlib.Core.Option.{get_or}
use Prim.Native.String.{◌++◌}
use ofm_mail_service.Prelude.{ℕ, ◌≡◌, refl, String, ◌∷◌, Option, none, some}
use ofm_mail_service.Errors.{Err, prefixed}
use ofm_mail_service.Effect.{Result, ok, err}
use ofm_mail_service.Nats.Broker.{flush_timeout, publish, flushed, flush}
use ofm_mail_service.Nats.Connection.Trace.{
  Command, publish_msg, flush as flush_call, call, Trace, recorded, conn,
}

-- the wait for the server: the time to the deadline of the context, or five seconds
abbrev pub flushing : {Payload : Type 0} → Option ℕ → Command Payload
flushing ctx = flush_call (get_or ctx flush_timeout)

module _ {Payload : Type 0} (answer : Command Payload → Trace Payload → Option Err) (ctx : Option ℕ)
    (t : Trace Payload) where
  -- The calls of `Publish` behind the trace `t`, with its result.
  pub data Published (subject : String) (payload : Payload)
      : Result (Unit {0}) → Trace Payload → Type 0 where
    refused :
        (x : Err)
        → answer (publish_msg subject payload) t ≡ some x
        → Published subject payload
            (err (prefixed ("publish to nats (" ++ subject ++ ")") x))
            (call (publish_msg subject payload) (some x) ∷ t)
    unflushed :
        (x : Err)
        → answer (publish_msg subject payload) t ≡ none
        → answer (flushing ctx) (call (publish_msg subject payload) none ∷ t) ≡ some x
        → Published subject payload
            (err (prefixed "flush nats publisher" x))
            (call (flushing ctx) (some x) ∷ call (publish_msg subject payload) none ∷ t)
    sent :
        answer (publish_msg subject payload) t ≡ none
        → answer (flushing ctx) (call (publish_msg subject payload) none ∷ t) ≡ none
        → Published subject payload
            (ok tt)
            (call (flushing ctx) none ∷ call (publish_msg subject payload) none ∷ t)

module _ {Payload : Type 0} (answer : Command Payload → Trace Payload → Option Err)
    (quote : String → String) where
  flush-recorded :
      (ctx : Option ℕ) (t : Trace Payload)
      → flush quote (conn answer) ctx t ≡ recorded answer (flushing ctx) t
  unfolding flush
  flush-recorded none t = refl
  flush-recorded (some time) t = refl

  module _ (ctx : Option ℕ) (t : Trace Payload) (subject : String) (payload : Payload) where
    publish_cases :
        (p f : Option Err)
        → answer (publish_msg subject payload) t ≡ p
        → answer (flushing ctx) (call (publish_msg subject payload) none ∷ t) ≡ f
        → let (r, t') = publish quote (conn answer) ctx subject payload t in
          Published answer ctx t subject payload r t'
    unfolding publish flushed
    publish_cases (some x) f ep ef = rw ep (refused x ep)
    publish_cases none (some x) ep ef = rw (ep, flush-recorded ctx, ef) (unflushed x ep ef)
    publish_cases none none ep ef = rw (ep, flush-recorded ctx, ef) (sent ep ef)

    pub publish-Published :
        let (r, t') = publish quote (conn answer) ctx subject payload t in
        Published answer ctx t subject payload r t'
    publish-Published = publish_cases _ _ refl refl
