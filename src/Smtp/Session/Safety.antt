-- ===== src/Smtp/Session/Safety.antt =====
-- What every course of a delivery does to the connection and to the password.
use ofm_mail_service.Prelude.{
  ℕ, suc, ◌+◌, ◌≡◌, refl, String, [], ◌∷◌, Option, none, arith, ◌⊎◌, inl, inr, Bool, Bool-cases,
  eq_iff,
}
use ofm_mail_service.Errors.{Err}
use ofm_mail_service.Effect.{Result, ok, err}
use ofm_mail_service.Domain.{Email}
use ofm_mail_service.Config.{SmtpConfig}
use ofm_mail_service.Smtp.Config.{SmtpSender, new}
use ofm_mail_service.Smtp.Session.{
  new_tls_config, closing_on_error, client_on, secured, new_client, written, converse, hang_up,
  connected, send_once,
}
use ofm_mail_service.Smtp.Session.Trace.{
  Command, dial_tls, dial_tcp, start_tls, close_conn, auth, call, Trace, net,
}

-- The connection in use is encrypted, and the certificate was verified for the name `host`: by its
-- dialling, or by a STARTTLS that succeeded.
abbrev pub IsEncrypted : String → Trace → Type 0
IsEncrypted host [] = ⊥
IsEncrypted host (call (dial_tls tls) none ∷ t) = tls.server_name ≡ host
IsEncrypted host (call (start_tls tls) none ∷ t) = tls.server_name ≡ host
IsEncrypted host (call dial_tcp none ∷ t) = ⊥
IsEncrypted host (call close_conn r ∷ t) = ⊥
IsEncrypted host (_ ∷ t) = IsEncrypted host t

-- The password was handed out on such connections only.
abbrev pub IsDiscreet : String → Trace → Type 0
IsDiscreet host [] = Unit
IsDiscreet host (call (auth user password name) r ∷ t) = IsEncrypted host t × IsDiscreet host t
IsDiscreet host (_ ∷ t) = IsDiscreet host t

-- Connections that were opened, and closed.
abbrev pub opened : Trace → ℕ
opened [] = 0
opened (call (dial_tls tls) none ∷ t) = suc (opened t)
opened (call dial_tcp none ∷ t) = suc (opened t)
opened (_ ∷ t) = opened t

abbrev pub closed : Trace → ℕ
closed [] = 0
closed (call close_conn r ∷ t) = suc (closed t)
closed (_ ∷ t) = closed t

-- the connections that `t'` has left open since `t`
abbrev pub Leaves : ℕ → Trace → Trace → Type 0
Leaves n t t' = opened t' + closed t ≡ opened t + closed t' + n

abbrev pub UsesTls : SmtpSender → Type 0
UsesTls s = (s.cfg.mode ≡ "tls") ⊎ (s.cfg.mode ≡ "starttls")

-- A sender that `New` returns has one of its two modes.
pub new-UsesTls :
    (address_text : String → String → String) {Log : Type 0} (cfg : SmtpConfig) (log : Option Log)
    (s : SmtpSender)
    → new address_text cfg log ≡ ok s
    → UsesTls s
unfolding new
new-UsesTls address_text cfg log s h =
    ground (arith, eq_iff cfg.mode "tls", eq_iff cfg.mode "starttls")

module _ (answer : Command → Trace → Option Err) (s : SmtpSender) where
  new_client_ok :
      (t : Trace)
      → UsesTls s
      → (new_client (net answer) s t).0 ≡ ok tt
      → IsEncrypted s.cfg.host (new_client (net answer) s t).1
        × Leaves 1 t (new_client (net answer) s t).1
  unfolding new_client client_on secured closing_on_error new_tls_config
  new_client_ok t m h = ground (arith, eq_iff s.cfg.mode "tls", eq_iff s.cfg.mode "starttls")

  new_client_err :
      (t : Trace) (e : Err)
      → (new_client (net answer) s t).0 ≡ err e
      → Leaves 0 t (new_client (net answer) s t).1
  unfolding new_client client_on secured closing_on_error new_tls_config
  new_client_err t e h = ground arith

  new_client-IsDiscreet :
      (t : Trace) → IsDiscreet s.cfg.host t → IsDiscreet s.cfg.host (new_client (net answer) s t).1
  unfolding new_client client_on secured closing_on_error new_tls_config
  new_client-IsDiscreet t h = ground arith

  module _ (msg : Email) where
    converse-Leaves : (t : Trace) → Leaves 0 t (converse (net answer) s msg t).1
    unfolding converse written
    converse-Leaves t = ground arith

    converse-IsDiscreet :
        (t : Trace)
        → IsEncrypted s.cfg.host t
        → IsDiscreet s.cfg.host t
        → IsDiscreet s.cfg.host (converse (net answer) s msg t).1
    unfolding converse written
    converse-IsDiscreet t e h = ground arith

    connected_ok :
        (t : Trace)
        → IsEncrypted s.cfg.host t
        → IsDiscreet s.cfg.host t
        → IsDiscreet s.cfg.host (connected (net answer) s msg (ok tt) t).1
          × (opened (connected (net answer) s msg (ok tt) t).1 + closed t + 1
              ≡ opened t + closed (connected (net answer) s msg (ok tt) t).1)
    unfolding connected hang_up
    connected_ok t e h = (converse-IsDiscreet t e h, omega (arith, converse-Leaves t))

    settled :
        (t : Trace) (r : Result (Unit {0}))
        → UsesTls s
        → (new_client (net answer) s t).0 ≡ r
        → IsDiscreet s.cfg.host t
        → let t' = (connected (net answer) s msg r (new_client (net answer) s t).1).1 in
          IsDiscreet s.cfg.host t' × Leaves 0 t t'
    unfolding connected
    settled t (ok _) m e h =
        let (encrypted, one) = new_client_ok t m e in
        let (discreet, none_left) =
          connected_ok (new_client (net answer) s t).1 encrypted (new_client-IsDiscreet t h) in
        (discreet, omega arith)
    settled t (err x) m e h = (new_client-IsDiscreet t h, new_client_err t x e)

    -- Whatever the servers answer, a delivery by a sender that `New` returned hands the password
    -- out on a connection only that is encrypted for the configured host, and closes every connection that it opened.
    pub send_once_safe :
        (address_text : String → String → String) {Log : Type 0} (cfg : SmtpConfig)
        (log : Option Log) (is_address : String → Bool) (t : Trace)
        → new address_text cfg log ≡ ok s
        → IsDiscreet s.cfg.host t
        → let t' = (send_once (net answer) s is_address msg t).1 in
          IsDiscreet s.cfg.host t' × Leaves 0 t t'
    unfolding send_once
    send_once_safe address_text cfg log is_address t m h = elim (Bool-cases (is_address msg.to)) [
      | inl valid ↦ rw valid (settled t _ (new-UsesTls address_text cfg log s m) refl h)
      | inr invalid ↦ rw invalid (h, omega arith)
    ]
