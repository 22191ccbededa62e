-- ===== src/Application/Registry/Tests.antt =====
-- A small template engine, whose templates are their texts, and registries over it.
use ofm_mail_service.Prelude.{
  ◌≡◌, refl, String, List, map, [], ◌∷◌, some, ◌==◌, if◌then◌else◌, trim_space,
}
use ofm_mail_service.Errors.{foreign, other, DomainError, domain, sentinel}
use ofm_mail_service.Effect.{Result, ok, err}
use ofm_mail_service.Domain.{Email}
use ofm_mail_service.Application.FilePath.{base, clean, join}
use ofm_mail_service.Application.KeyMap.{lookup, assign}
use ofm_mail_service.Application.Registry.{
  TemplateDefinition, TemplateEngine, Registry, rendering, compile, store, commit, register, finish,
  execute, execute_found, render, register_all, new_template_registry, build_template_registry,
}
use ofm_mail_service.Config.Defaults.{default_templates_config}
use ofm_mail_service.Fx.Templates.{resolve, mail_templates}
use ofm_mail_service.Application.Registry.Building.{Serves, build_template_registry-Serves}

-- A file `lost.html` does not exist; a template is executed to its text, for any data.
abbrev pub engine : TemplateEngine String
engine = record {
  Subject = String;
  Body = String;
  parse_subject = λ _ text. ok text;
  parse_body = λ _ text. ok text;
  read_file = λ path.
      if path == "lost.html" then err (foreign other "no such file") else ok "<p>Hello</p> ";
  execute_subject = λ text _. ok text;
  execute_body = λ text _. ok text;
}

abbrev welcome : TemplateDefinition
welcome = record {
  message_type = "welcome";
  subject_template = " Welcome";
  html_template_path = "welcome.html";
}

abbrev pub welcome_registry : Registry engine
welcome_registry = record {
  defs = ("welcome", record { subject = " Welcome"; body = "<p>Hello</p> " }) ∷ [];
}

abbrev rendered : Email
rendered = record { to = ""; subject = "Welcome"; html_body = "<p>Hello</p>" }

-- the definitions of the process, as it resolves them
abbrev resolved : List TemplateDefinition
resolved = map (resolve default_templates_config) mail_templates

abbrev registry_of : Result (Registry engine) → Registry engine
registry_of (ok r) = r
registry_of (err e) = record { defs = [] }

abbrev pub process_registry : Registry engine
process_registry = registry_of (build_template_registry engine resolved)

pub process_built : build_template_registry engine resolved ≡ ok process_registry
unfolding build_template_registry register_all register commit compile store rendering
    new_template_registry assign trim_space clean base join resolve mail_templates
process_built = refl

built : build_template_registry engine (welcome ∷ []) ≡ ok welcome_registry
unfolding build_template_registry register_all register commit compile store rendering
    new_template_registry assign trim_space clean base
built = refl

build_template_registry-Serves_example :
    Serves engine (new_template_registry engine) welcome_registry "welcome" (some welcome)
build_template_registry-Serves_example =
    build_template_registry-Serves engine (welcome ∷ []) welcome_registry "welcome" built

registered : (register engine welcome (new_template_registry engine)).0 ≡ ok tt
unfolding register commit compile store rendering new_template_registry assign trim_space clean base
registered = refl

is_rendered : render engine welcome_registry "welcome" "data" ≡ ok rendered
unfolding render execute_found execute finish rendering lookup trim_space
is_rendered = refl

not_found :
    render engine welcome_registry "goodbye" "data"
    ≡ err (sentinel (domain DomainError.template_not_found))
unfolding render execute_found lookup
not_found = refl

abbrev blank : TemplateDefinition
blank = record { message_type = " "; subject_template = "Blank"; html_template_path = "blank.html" }

is_refused :
    (register engine blank welcome_registry).0
    ≡ err (sentinel (domain DomainError.invalid_message_type))
unfolding register trim_space
is_refused = refl
