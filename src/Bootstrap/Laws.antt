-- ===== src/Bootstrap/Laws.antt =====
-- What the bootstrap leaves behind.
use ofm_mail_service.Prelude.{◌≡◌, ◌⊎◌, inl, refl, String, [], ◌∷◌, Option, none, some, arith}
use ofm_mail_service.Errors.{Err, StreamError, stream, sentinel}
use ofm_mail_service.Effect.{Result, ok, err}
use ofm_mail_service.Config.{NatsConfig}
use ofm_mail_service.Nats.Connection.{StreamConfig}
use ofm_mail_service.Nats.Connection.Trace.{
  Command, add_stream, update_stream, call, closed, Trace, opened, closes, conn,
}
use ofm_mail_service.Bootstrap.{mail_commands_stream, mail_events_stream, ensure_stream}

module _ {Payload : Type 0} where
  -- A call has made the stream, or brought it up to date.
  abbrev pub Ensures : StreamConfig → Trace Payload → Type 0
  Ensures cfg [] = ⊥
  Ensures cfg (call (add_stream c) none ∷ t) = (c ≡ cfg) ⊎ Ensures cfg t
  Ensures cfg (call (update_stream c) none ∷ t) = (c ≡ cfg) ⊎ Ensures cfg t
  Ensures cfg (_ ∷ t) = Ensures cfg t

  -- The last call on the server has failed.
  abbrev pub Refused : Trace Payload → Type 0
  Refused (call c (some e) ∷ t) = Unit
  Refused (closed ∷ call c (some e) ∷ t) = Unit
  Refused _ = ⊥

  -- What an answer of the bootstrap says, with the calls that it has made.
  abbrev pub Ensured : NatsConfig → Result (Unit {0}) → Trace Payload → Type 0
  Ensured cfg (ok _) t = Ensures (mail_commands_stream cfg) t × Ensures (mail_events_stream cfg) t
  Ensured cfg (err e) t = ((e ≡ sentinel (stream StreamError.nil_logger)) × (t ≡ [])) ⊎ Refused t

  module _ (answer : Command Payload → Trace Payload → Option Err) (quote : String → String)
      (cfg : NatsConfig) where
    -- Whatever the server answers, the bootstrap closes the connection that it opened. Where it
    -- returns nil, it has made both streams, or brought them up to date; where it returns an error,
    -- it had no logger and made no call, or its last call on the server has failed.
    pub ensure_stream-Ensured :
        {Log : Type 0} (log : Option Log)
        → let (r, t) = ensure_stream quote (conn answer) cfg log [] in
          Ensured cfg r t × (opened t ≡ closes t)
    unfolding ensure_stream
    ensure_stream-Ensured none = (inl (refl, refl), refl)
    ensure_stream-Ensured (some log) = ground arith
