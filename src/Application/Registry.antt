-- ===== src/Application/Registry.antt =====
-- internal/application/template_registry.go. Parsing and executing templates belong to Go's
-- text/template and html/template, and reading to the file system: they are parameters.
pub mod Laws
pub mod Building
pub mod Tests
use Prim.Native.String.{◌++◌}
use ofm_mail_service.Prelude.{
  String, List, [], ◌∷◌, Bool, ◌||◌, Option, none, some, ◌==◌, trim_space, if◌then◌else◌,
}
use ofm_mail_service.Errors.{Err, DomainError, domain, sentinel, prefixed, suffixed, is}
use ofm_mail_service.Errors.Message.{error_text}
use ofm_mail_service.Effect.{Result, ok, err, bind_result, Eff, pure, reject_if, lift, ◌>>=◌, ◌>>◌}
use ofm_mail_service.Domain.{Email}
use ofm_mail_service.Application.FilePath.{base, clean}
use ofm_mail_service.Application.KeyMap.{lookup, assign}

pub record TemplateDefinition : Type 0 where
  pub message_type : String
  pub subject_template : String
  pub html_template_path : String

-- What the registry asks of the template libraries and of the file system, which does not change
-- while the registry is built.
pub record TemplateEngine (Data : Type 0) : Type 1 where
  pub Subject : Type 0
  pub Body : Type 0
  pub parse_subject : String → String → Result Subject
  pub parse_body : String → String → Result Body
  pub read_file : String → Result String
  pub execute_subject : Subject → Data → Result String
  pub execute_body : Body → Data → Result String

abbrev pub refuse {ℓ} : {A : Type ℓ} → DomainError → Result A
refuse e = err (sentinel (domain e))

-- fmt.Errorf("%w: <step>: %v", mail.ErrFailedToRenderMail, err)
unfoldable pub rendering {ℓ} : {A : Type ℓ} → String → Result A → Result A
rendering step (ok a) = ok a
rendering step (err e) =
    err (
      suffixed (sentinel (domain DomainError.failed_to_render_mail)) (step ++ ": " ++ error_text e))

module _ {Data : Type 0} (engine : TemplateEngine Data) where
  open engine use {
    Subject, Body, parse_subject, parse_body, read_file, execute_subject, execute_body,
  }

  pub record CompiledTemplate : Type 0 where
    pub subject : Subject
    pub body : Body

  pub record Registry : Type 0 where
    pub defs : List (String × CompiledTemplate)

  unfoldable pub new_template_registry : Registry
  new_template_registry = record { defs = [] }

  -- the map entry of a definition whose texts all parse
  compile : TemplateDefinition → Result CompiledTemplate
  unfolding rendering
  compile def =
      bind_result
        (rendering "parse subject template"
          (parse_subject (def.message_type ++ "-subject") def.subject_template))
        λ subject_tpl.
          bind_result (rendering "read html template" (read_file (clean def.html_template_path)))
            λ body_bytes.
              bind_result
                (rendering "parse html template"
                  (parse_body (base def.html_template_path) body_bytes))
                λ body_tpl. ok (record { subject = subject_tpl; body = body_tpl })

  store : String → CompiledTemplate → Eff Registry (Unit {0})
  store message_type tpl r = (ok tt, record { defs = assign message_type tpl r.defs })

  commit : TemplateDefinition → Eff Registry (Unit {0})
  commit def = do tpl ← lift (compile def); store def.message_type tpl

  pub register : TemplateDefinition → Eff Registry (Unit {0})
  register def = do
    reject_if (trim_space def.message_type == "")
        (sentinel (domain DomainError.invalid_message_type))
    reject_if (trim_space def.subject_template == "")
        (sentinel (domain DomainError.template_subject_empty))
    reject_if (trim_space def.html_template_path == "")
        (sentinel (domain DomainError.template_body_empty))
    commit def

  -- the checks of the two texts after both templates are executed
  finish : String → String → Result Email
  finish subject body =
      let subject_text = trim_space subject in
      let body_text = trim_space body in
      if subject_text == ""
      then refuse DomainError.template_subject_empty
      else if body_text == ""
      then refuse DomainError.template_body_empty
      else ok (record { to = ""; subject = subject_text; html_body = body_text })

  execute : CompiledTemplate → Data → Result Email
  unfolding rendering finish
  execute tpl args =
      bind_result (rendering "execute subject template" (execute_subject tpl.subject args))
        λ subject.
          bind_result (rendering "execute html template" (execute_body tpl.body args))
            λ body. finish subject body

  execute_found : Option CompiledTemplate → Data → Result Email
  unfolding execute
  execute_found none args = refuse DomainError.template_not_found
  execute_found (some tpl) args = execute tpl args

  pub render : Registry → String → Data → Result Email
  unfolding execute_found
  render r message_type args = execute_found (lookup message_type r.defs) args

  -- the loop of `BuildTemplateRegistry`
  register_all : List TemplateDefinition → Eff Registry (Unit {0})
  register_all [] = pure tt
  register_all (def ∷ defs) = do register def; register_all defs

  pub build_template_registry : List TemplateDefinition → Result Registry
  build_template_registry defs =
      let (result, registry) = register_all defs new_template_registry in
      bind_result result (λ _. ok registry)

-- WrapTemplateDefinitionGroupError
unfoldable pub wrap_template_definition_group_error : Err → Err
wrap_template_definition_group_error e = prefixed "build template registry" e

-- IsTemplateRegistryError
unfoldable pub is_template_registry_error : Err → Bool
is_template_registry_error e =
    is e (domain DomainError.template_not_found)
    || is e (domain DomainError.template_subject_empty)
    || is e (domain DomainError.template_body_empty)
    || is e (domain DomainError.failed_to_render_mail)
