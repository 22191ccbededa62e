-- ===== src/Smtp/Session/Trace.antt =====
-- A world that keeps the calls on the network with their outcomes, the last one first. The servers
-- may answer each by all that happened before.
use ofm_mail_service.Prelude.{String, List, ◌∷◌, Option}
use ofm_mail_service.Errors.{Err}
use ofm_mail_service.Effect.{Eff, check}
use ofm_mail_service.Smtp.Session.{Net, TlsConfig}

pub data Command : Type 0 where
  dial_tcp new_client open_data close_writer quit close_client close_conn : Command
  dial_tls start_tls : TlsConfig → Command
  -- the user, the password and the host
  auth : String → String → String → Command
  mail rcpt write : String → Command

pub data Call : Type 0 where
  call : Command → Option Err → Call

abbrev pub Trace : Type 0
Trace = List Call

module _ (answer : Command → Trace → Option Err) where
  abbrev pub recorded : Command → Eff Trace (Unit {0})
  recorded c t = (check (answer c t), call c (answer c t) ∷ t)

  abbrev pub net : Net Trace
  net = record {
    dial_tls = λ _ tls. recorded (dial_tls tls);
    dial_tcp = λ _. recorded dial_tcp;
    new_client = λ _. recorded new_client;
    start_tls = λ tls. recorded (start_tls tls);
    auth = λ user password host. recorded (auth user password host);
    mail = λ from. recorded (mail from);
    rcpt = λ to. recorded (rcpt to);
    open_data = recorded open_data;
    write = λ text. recorded (write text);
    close_writer = recorded close_writer;
    quit = recorded quit;
    close_client = recorded close_client;
    close_conn = recorded close_conn;
  }
