-- ===== src/Bootstrap.antt =====
-- pkg/messaging/nats/bootstrap.go: the JetStream streams of the service. The log is left out.
-- `quote` is strconv.Quote, the verb `%q`.
pub mod Laws
mod Tests
use Prim.Native.String.{◌++◌}
use ofm_mail_service.Prelude.{ℕ, ◌*◌, String, List, [], ◌∷◌, Option, none, some, pos}
use ofm_mail_service.Errors.{Err, StreamError, stream, sentinel, headed}
use ofm_mail_service.Errors.Message.{error_text}
use ofm_mail_service.Effect.{Result, ok, err, Eff, pure, fail, attempt, ◌>>=◌, ◌>>◌}
use ofm_mail_service.Config.{NatsConfig}
use ofm_mail_service.Nats.Connection.{
  Conn, StreamConfig, file_storage, limits_policy, connect_options, wrap_connect_to_nats_error,
  wrap_init_jet_stream_context_error,
}

-- WrapEnsureStreamError
wrap_ensure_stream_error : (String → String) → String → Err → Err → Err
wrap_ensure_stream_error quote name add_err update_err =
    headed ("ensure stream " ++ quote name ++ ": add err=" ++ error_text add_err ++ ", update err=")
      update_err

abbrev seven_days : ℕ
seven_days = 7 * 24 * 3600 * 1_000_000_000

stream_config : String → String → StreamConfig
stream_config name subject = record {
  name = name;
  subjects = subject ∷ [];
  storage = file_storage;
  retention = limits_policy;
  replicas = pos 1;
  max_age = seven_days;
}

pub mail_commands_stream : NatsConfig → StreamConfig
unfolding stream_config
mail_commands_stream cfg = stream_config cfg.mail_commands_stream cfg.mail_send_subject

pub mail_events_stream : NatsConfig → StreamConfig
unfolding stream_config
mail_events_stream cfg = stream_config cfg.mail_events_stream cfg.mail_send_result_subject

module _ {W Payload : Type 0} (quote : String → String) (conn : Conn W Payload) where
  abbrev mapped : (Result (Unit {0}) → Result (Unit {0})) → Eff W (Unit {0}) → Eff W (Unit {0})
  mapped f m w = let (r, w') = m w in (f r, w')

  -- Connect
  connect : NatsConfig → Eff W (Unit {0})
  connect cfg = mapped wrap_connect_to_nats_error (conn.connect cfg.url (connect_options cfg))

  -- what follows `UpdateStream`, which is called where `AddStream` has failed
  updated : StreamConfig → Err → Result (Unit {0}) → Eff W (Unit {0})
  unfolding wrap_ensure_stream_error
  updated cfg add_err (ok _) = pure tt
  updated cfg add_err (err update_err) =
      fail (wrap_ensure_stream_error quote cfg.name add_err update_err)

  added : StreamConfig → Result (Unit {0}) → Eff W (Unit {0})
  unfolding updated
  added cfg (ok _) = pure tt
  added cfg (err add_err) = attempt (conn.update_stream cfg) (updated cfg add_err)

  ensured : StreamConfig → Eff W (Unit {0})
  unfolding added
  ensured cfg = attempt (conn.add_stream cfg) (added cfg)

  -- the part of `EnsureStream` behind `Connect`
  streams : NatsConfig → Eff W (Unit {0})
  unfolding ensured
  streams cfg = do
    mapped wrap_init_jet_stream_context_error conn.jet_stream
    ensured (mail_commands_stream cfg)
    ensured (mail_events_stream cfg)

  -- the deferred `nc.Close()`
  hang_up : Result (Unit {0}) → Eff W (Unit {0})
  hang_up r w = (r, conn.close w)

  pub ensure_stream : {Log : Type 0} → NatsConfig → Option Log → Eff W (Unit {0})
  unfolding connect streams hang_up
  ensure_stream cfg none = fail (sentinel (stream StreamError.nil_logger))
  ensure_stream cfg (some _) = do connect cfg; attempt (streams cfg) hang_up
