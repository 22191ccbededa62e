-- ===== src/Fx/Templates/Tests.antt =====
-- The registry of the process, over the engine of the registry's tests.
use ofm_mail_service.Prelude.{◌≡◌, refl, String, All, none, ◌==◌, false}
use mathlib.Core.List.{Memᴰ}
use ofm_mail_service.Effect.{ok}
use ofm_mail_service.Config.Defaults.{default_templates_config}
use ofm_mail_service.Application.KeyMap.{lookup}
use ofm_mail_service.Application.Registry.{TemplateDefinition}
use ofm_mail_service.Application.Registry.Tests.{engine, process_registry, process_built}
use ofm_mail_service.Fx.Templates.{mail_templates, grouped, provide_template_registry}
use ofm_mail_service.Fx.Templates.Laws.{ServesFile, provide_template_registry_serves}

provided :
    provide_template_registry engine default_templates_config mail_templates ≡ ok process_registry
unfolding provide_template_registry grouped
provided = rw process_built refl

provide_template_registry_serves_example :
    ((def : TemplateDefinition)
      → Memᴰ def mail_templates
      → ServesFile engine default_templates_config mail_templates process_registry provided def)
    × ((t : String)
        → All (λ d. (t == d.message_type) ≡ false) mail_templates
        → lookup t process_registry.defs ≡ none)
provide_template_registry_serves_example =
    provide_template_registry_serves engine default_templates_config mail_templates process_registry
      provided (λ def m. m) (λ def m. m)
