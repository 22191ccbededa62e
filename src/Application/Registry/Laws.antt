-- ===== src/Application/Registry/Laws.antt =====
-- What the registry guarantees.
use ofm_mail_service.Prelude.{
  ◌≡◌, ◌≢◌, String, true, Option, none, some, arith, eq_iff, trim_space, trim_space-trim_space,
}
use ofm_mail_service.Errors.{Err, is}
use ofm_mail_service.Effect.{Result, ok, err, bind_result}
use ofm_mail_service.Domain.{Email}
use ofm_mail_service.Application.KeyMap.{lookup}
use ofm_mail_service.Application.Registry.{
  TemplateDefinition, TemplateEngine, CompiledTemplate, Registry, register, render, compile, commit,
  store, execute_found, execute, finish, rendering, is_template_registry_error,
}

-- A text that is worth sending: not blank, and trimmed.
pub record IsPresentable (e : Email) : Type 0 where
  pub subject_some : e.subject ≢ ""
  pub body_some : e.html_body ≢ ""
  pub subject_trimmed : trim_space e.subject ≡ e.subject
  pub body_trimmed : trim_space e.html_body ≡ e.html_body

module _ {Data : Type 0} (engine : TemplateEngine Data) where
  finish-IsPresentable :
      (subject body : String) (e : Email) → finish engine subject body ≡ ok e → IsPresentable e
  unfolding finish
  finish-IsPresentable subject body e h = ground (
    arith,
    trim_space-trim_space subject,
    trim_space-trim_space body,
    eq_iff (trim_space subject) "",
    eq_iff (trim_space body) "",
  )

  -- the answers of the two template libraries, generalised
  texts-IsPresentable :
      (subject body : Result String) (e : Email)
      → bind_result
          (rendering "execute subject template" subject)
          (λ s. bind_result (rendering "execute html template" body) (finish engine s))
        ≡ ok e
      → IsPresentable e
  unfolding rendering
  texts-IsPresentable (ok subject) (ok body) e h = finish-IsPresentable subject body e h
  texts-IsPresentable (ok subject) (err y) e h = cc
  texts-IsPresentable (err x) body e h = cc

  execute_found-IsPresentable :
      (o : Option (CompiledTemplate engine)) (args : Data) (e : Email)
      → execute_found engine o args ≡ ok e
      → IsPresentable e
  unfolding execute_found
  execute_found-IsPresentable none args e h = cc
  execute_found-IsPresentable (some tpl) args e h = texts-IsPresentable _ _ e h

  -- A mail that `Render` returns has a subject and a body that are neither blank nor untrimmed.
  pub render-IsPresentable :
      (r : Registry engine) (message_type : String) (args : Data) (e : Email)
      → render engine r message_type args ≡ ok e
      → IsPresentable e
  unfolding render
  render-IsPresentable r m args e h = execute_found-IsPresentable (lookup m r.defs) args e h

  -- Every error of `Render` is a template registry error.
  pub render_error :
      (r : Registry engine) (message_type : String) (args : Data) (x : Err)
      → render engine r message_type args ≡ err x
      → is_template_registry_error x ≡ true
  unfolding render execute finish rendering is_template_registry_error is
  render_error r m args x h = ground arith

  -- A `Register` that returns an error leaves the registry as it was.
  pub register_error_unchanged :
      (def : TemplateDefinition) (r : Registry engine) (x : Err)
      → (register engine def r).0 ≡ err x
      → (register engine def r).1 ≡ r
  unfolding register commit compile store
  register_error_unchanged def r x h = ground arith
