-- ===== src/Smtp/Session/Breaking.antt =====
-- `Send` around the unexported `send`: what holds whatever the circuit breaker decides.
use ofm_mail_service.Prelude.{
  ℕ, zero, suc, ◌≡◌, refl, sym, ap, subst, ◌∙◌, String, Bool, Option, arith,
}
use ofm_mail_service.Errors.{Err}
use ofm_mail_service.Effect.{Result, ok, err, Eff}
use ofm_mail_service.Domain.{Email}
use ofm_mail_service.Config.{SmtpConfig}
use ofm_mail_service.Smtp.Config.{SmtpSender, new}
use ofm_mail_service.Smtp.Session.{Breaker, capture, captured, send_once, send}
use ofm_mail_service.Smtp.Session.Trace.{Command, Trace, net}
use ofm_mail_service.Smtp.Session.Safety.{IsDiscreet, Leaves, send_once_safe}

-- the world after `n` calls
abbrev pub iterate : {W : Type 0} → Eff W (Unit {0}) → ℕ → W → W
iterate f zero w = w
iterate f (suc n) w = (f (iterate f n w)).1

-- A circuit breaker refuses, or it calls its function, perhaps more than once, and does nothing else
-- to the world; it returns nil only behind a call.
pub record BreakerLaws (breaker : Breaker) : Type 1 where
  pub calls :
      (W : Type 0) (f : Eff W (Unit {0})) (w : W) → (n : ℕ) × ((breaker W f w).1 ≡ iterate f n w)
  pub nil_calls :
      (W : Type 0) (f : Eff W (Unit {0})) (w : W)
      → (breaker W f w).0 ≡ ok tt
      → (n : ℕ) × ((breaker W f w).1 ≡ iterate f (suc n) w)

module _ {W : Type 0} (m : Eff W (Unit {0})) where
  iterate-capture :
      (n : ℕ) (w : W) (r : Result (Unit {0})) → (iterate (capture m) n (w, r)).0 ≡ iterate m n w
  iterate-capture zero w r = refl
  iterate-capture (suc n) w r = ap (λ v. (m v).1) (iterate-capture n w r)

  captured-world : (x : Result (Unit {0}) × (W × Result (Unit {0}))) → (captured x).1 ≡ x.1.0
  captured-world (ok _, s) = refl
  captured-world (err e, s) = refl

  captured-nil :
      (x : Result (Unit {0}) × (W × Result (Unit {0})))
      → (captured x).0 ≡ ok tt
      → (x.0 ≡ ok tt) × (x.1.1 ≡ ok tt)
  captured-nil (ok _, s) nil = (refl, nil)
  captured-nil (err e, s) nil = cc

module _ {breaker : Breaker} (laws : BreakerLaws breaker) (answer : Command → Trace → Option Err)
    (s : SmtpSender) (is_address : String → Bool) (msg : Email) where
  abbrev once : Eff Trace (Unit {0})
  once = send_once (net answer) s is_address msg

  send-iterate :
      (t : Trace) → (n : ℕ) × ((send breaker (net answer) s is_address msg t).1 ≡ iterate once n t)
  unfolding send
  send-iterate t =
      let (n, same) = laws.calls (Trace × Result (Unit {0})) (capture once) (t, ok tt) in
      (
        n,
        captured-world once _
            ∙ ap (λ (v : Trace × Result (Unit {0})). v.0) same
            ∙ iterate-capture once n t (ok tt),
      )

  send-nil :
      (t : Trace)
      → (send breaker (net answer) s is_address msg t).0 ≡ ok tt
      → (t' : Trace) × ((once t').0 ≡ ok tt)
        × ((send breaker (net answer) s is_address msg t).1 ≡ (once t').1)
  unfolding send
  send-nil t nil =
      let (called, sent) = captured-nil once _ nil in
      let (n, same) = laws.nil_calls (Trace × Result (Unit {0})) (capture once) (t, ok tt) called in
      (
        (iterate (capture once) n (t, ok tt)).0,
        sym (ap (λ (v : Trace × Result (Unit {0})). v.1) same) ∙ sent,
        captured-world once _ ∙ ap (λ (v : Trace × Result (Unit {0})). v.0) same,
      )

  -- behind an answer nil: the last thing that happened is a delivery that returned nil
  abbrev pub Sent : Result (Unit {0}) → Trace → Type 0
  Sent (ok _) t = (t' : Trace) × ((once t').0 ≡ ok tt) × (t ≡ (once t').1)
  Sent (err e) t = Unit

  Sent-nil : (r : Result (Unit {0})) (t : Trace) → (r ≡ ok tt → Sent (ok tt) t) → Sent r t
  Sent-nil (ok _) t h = h refl
  Sent-nil (err e) t h = tt

  module _ (address_text : String → String → String) {Log : Type 0} (cfg : SmtpConfig)
      (log : Option Log) (m : new address_text cfg log ≡ ok s) (t : Trace) where
    iterate_safe :
        (n : ℕ)
        → IsDiscreet s.cfg.host t
        → IsDiscreet s.cfg.host (iterate once n t) × Leaves 0 t (iterate once n t)
    iterate_safe zero h = (h, omega arith)
    iterate_safe (suc n) h =
        let (discreet, left) = iterate_safe n h in
        let (discreet', left') =
          send_once_safe answer s msg address_text cfg log is_address (iterate once n t) m
            discreet in
        (discreet', omega (arith, left, left'))

    -- Whatever the servers answer and the circuit breaker decides, `Send` of a sender that `New`
    -- returned hands the password out only on a connection that is encrypted, with a certificate that
    -- was verified for the configured host, and closes every connection that it opened; and where it
    -- returns nil, its last delivery did.
    pub send_safe :
        IsDiscreet s.cfg.host t
        → let (r, t') = send breaker (net answer) s is_address msg t in
          IsDiscreet s.cfg.host t' × Leaves 0 t t' × Sent r t'
    send_safe h =
        let (n, same) = send-iterate t in
        let (discreet, left) = iterate_safe n h in
        let sent = Sent-nil _ _ (send-nil t) in
        (
          subst (IsDiscreet s.cfg.host) (sym same) discreet,
          subst (Leaves 0 t) (sym same) left,
          sent,
        )
