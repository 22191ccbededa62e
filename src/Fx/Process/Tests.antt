-- ===== src/Fx/Process/Tests.antt =====
-- A process with the default settings and without a transport, whose tracer cannot be made, and one
-- whose environment cannot be read.
use ofm_mail_service.Prelude.{◌≡◌, refl, String, List, [], ◌∷◌, true, some, none}
use ofm_mail_service.Errors.{Err, foreign, other, prefixed}
use ofm_mail_service.Effect.{ok, err, Eff}
use ofm_mail_service.Config.{Config}
use ofm_mail_service.Config.Defaults.{default_config}
use ofm_mail_service.Config.Loading.{load}
use ofm_mail_service.Smtp.Session.{Net}
use ofm_mail_service.Application.Registry.{TemplateDefinition}
use ofm_mail_service.Application.Registry.Tests.{engine}
use ofm_mail_service.Fx.Startup.Tests.{container}
use ofm_mail_service.Fx.Templates.{provide_welcome_template_definition}
use ofm_mail_service.Fx.Process.{provide_config, main}
use ofm_mail_service.Fx.Process.Record.{World, Outside, packages, idle}
use ofm_mail_service.Fx.Process.Course.{Course, main-Course}

abbrev done : {A : Type 0} → A → Eff World (Unit {0})
done a w = (ok tt, w)

abbrev net : Net World
net = record {
  dial_tls = λ address name. done tt;
  dial_tcp = done;
  new_client = done;
  start_tls = done;
  auth = λ user password host. done tt;
  mail = done;
  rcpt = done;
  open_data = done tt;
  write = done;
  close_writer = done tt;
  quit = done tt;
  close_client = done tt;
  close_conn = done tt;
}

abbrev config : Config String
config =
    let defaults = default_config "1.0" "ofm@example.org" "secret" in
    record defaults { smtp = record defaults.smtp { mode = "fake" } }

abbrev refused : Err
refused = foreign other "connection refused"

abbrev outside : Outside String String String
outside = record {
  Reader = Unit {0};
  file_answer = λ file. err (foreign other "no such file");
  parsed = ok config;
  logger_answer = none;
  sync_answer = some refused;
  provider_answer = some refused;
  shutdown_answer = none;
  instrument_answer = none;
  ping_answer = none;
  close_answer = none;
  commands = record {
    set_nx = λ k v time w. (ok true, w);
    set = λ k v time w. (ok tt, w);
    del = λ k w. (ok tt, w);
  };
  tracing_defaults = λ service env. record {
    defaults = tt;
    enabled = true;
    endpoint = "";
    protocol = "grpc";
    sample_ratio = "1.0";
    service_version = "";
  };
  event_id = λ subject payload. payload;
  event_broker = λ b. record {
    publish = λ subject payload w. (ok tt, w);
    subscribe = λ subject handler w. (ok tt, w);
    run_pull_consumer = λ cfg handler w. (ok tt, w);
    close = λ w. w;
  };
  address_text = λ name address. address;
  is_address = λ text. true;
  breaker = λ W call. call;
  net = net;
  engine = engine;
  wire = record {
    unmarshal = λ payload. err refused;
    marshal = λ result. ok result.error;
    now = λ w. ("", w);
  };
}

abbrev definitions : List TemplateDefinition
definitions = provide_welcome_template_definition ∷ []

abbrev wordless : Outside String String String
wordless = record outside { parsed = err refused }

unread :
    (main (packages wordless) definitions ([], idle)).0 ≡ err (prefixed "parse env config" refused)
unfolding main provide_config load
unread = refl

main-Course_example :
    let (r, (hooks, w)) = main (packages outside) definitions ([], idle) in
    Course outside container definitions r hooks w
main-Course_example = main-Course container definitions outside
