-- ===== src/Bootstrap/Tests.antt =====
-- The streams are there already, with other settings: they are brought up to date.
use ofm_mail_service.Prelude.{◌≡◌, String, [], Option, none, some}
use ofm_mail_service.Errors.{Err, foreign, other}
use ofm_mail_service.Config.Defaults.{default_nats_config}
use ofm_mail_service.Nats.Connection.Trace.{Command, add_stream, Trace, opened, closes, conn}
use ofm_mail_service.Bootstrap.{ensure_stream}
use ofm_mail_service.Bootstrap.Laws.{Ensured, ensure_stream-Ensured}

abbrev answer : Command String → Trace String → Option Err
answer (add_stream c) t = some (foreign other "stream name already in use")
answer _ t = none

ensure_stream-Ensured_example :
    let (r, t) = ensure_stream (λ text. text) (conn answer) default_nats_config (some tt) [] in
    Ensured default_nats_config r t × (opened t ≡ closes t)
ensure_stream-Ensured_example =
    ensure_stream-Ensured answer (λ text. text) default_nats_config (some tt)
