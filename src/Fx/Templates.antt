-- ===== src/Fx/Templates.antt =====
-- internal/fx/service.go: the template definitions of the process, the registry built from them,
-- and the choice of the transport.
pub mod Laws
mod Tests
use ofm_mail_service.Prelude.{String, List, [], ◌∷◌, map, ◌==◌, ◌||◌, if◌then◌else◌, Option}
use ofm_mail_service.Errors.{Err}
use ofm_mail_service.Effect.{Result, ok, err}
use ofm_mail_service.Config.{TemplatesConfig, SmtpConfig}
use ofm_mail_service.Application.FilePath.{join, base}
use ofm_mail_service.Application.Registry.{
  TemplateDefinition, TemplateEngine, Registry, build_template_registry,
  wrap_template_definition_group_error,
}

abbrev template : String → String → String → TemplateDefinition
template message_type subject path = record {
  message_type = message_type;
  subject_template = subject;
  html_template_path = path;
}

unfoldable pub provide_email_code_template_definition : TemplateDefinition
provide_email_code_template_definition =
    template "email_code" "Your OFM verification code" "email_code.html"

unfoldable pub provide_welcome_template_definition : TemplateDefinition
provide_welcome_template_definition = template "welcome" "Welcome to OFM, {{.name}}" "welcome.html"

unfoldable pub provide_password_reset_template_definition : TemplateDefinition
provide_password_reset_template_definition =
    template "password_reset" "Your OFM password reset code" "password_reset.html"

unfoldable pub provide_order_receipt_template_definition : TemplateDefinition
provide_order_receipt_template_definition =
    template "order_receipt" "Your OFM order receipt for {{.gig_title}}" "order_receipt.html"

unfoldable pub provide_order_delivery_template_definition : TemplateDefinition
provide_order_delivery_template_definition =
    template "order_delivery_submitted_seller"
      "Your order delivery was submitted for {{.gig_title}}" "order_lifecycle.html"

unfoldable pub provide_order_delivery_buyer_template_definition : TemplateDefinition
provide_order_delivery_buyer_template_definition =
    template "order_delivery_submitted_buyer"
      "A delivery was submitted for your order {{.order_id}}" "order_lifecycle.html"

unfoldable pub provide_order_revision_template_definition : TemplateDefinition
provide_order_revision_template_definition =
    template "order_revision_requested_seller" "Revision requested for {{.gig_title}}"
      "order_lifecycle.html"

unfoldable pub provide_order_revision_buyer_template_definition : TemplateDefinition
provide_order_revision_buyer_template_definition =
    template "order_revision_requested_buyer"
      "Your revision request for order {{.order_id}} was received" "order_lifecycle.html"

unfoldable pub provide_order_dispute_template_definition : TemplateDefinition
provide_order_dispute_template_definition =
    template "order_disputed_buyer" "A dispute was opened for your order {{.order_id}}"
      "order_lifecycle.html"

unfoldable pub provide_order_dispute_seller_template_definition : TemplateDefinition
provide_order_dispute_seller_template_definition =
    template "order_disputed_seller" "A dispute was opened for order {{.order_id}}"
      "order_lifecycle.html"

unfoldable pub provide_order_completion_template_definition : TemplateDefinition
provide_order_completion_template_definition =
    template "order_completed_buyer" "Your order {{.order_id}} is complete" "order_lifecycle.html"

unfoldable pub provide_order_completion_seller_template_definition : TemplateDefinition
provide_order_completion_seller_template_definition =
    template "order_completed_seller" "Your order {{.order_id}} has been completed"
      "order_lifecycle.html"

unfoldable pub provide_order_release_failed_template_definition : TemplateDefinition
provide_order_release_failed_template_definition =
    template "order_release_failed_buyer" "We could not release funds for order {{.order_id}}"
      "order_lifecycle.html"

unfoldable pub provide_order_release_failed_seller_template_definition : TemplateDefinition
provide_order_release_failed_seller_template_definition =
    template "order_release_failed_seller" "Payout release failed for order {{.order_id}}"
      "order_lifecycle.html"

-- the group "mail_templates", in the order of its declaration
unfoldable pub mail_templates : List TemplateDefinition
unfolding provide_email_code_template_definition provide_welcome_template_definition
    provide_password_reset_template_definition provide_order_receipt_template_definition
    provide_order_delivery_template_definition provide_order_delivery_buyer_template_definition
    provide_order_revision_template_definition provide_order_revision_buyer_template_definition
    provide_order_dispute_template_definition provide_order_dispute_seller_template_definition
    provide_order_completion_template_definition provide_order_completion_seller_template_definition
    provide_order_release_failed_template_definition
    provide_order_release_failed_seller_template_definition
mail_templates =
    provide_email_code_template_definition ∷ provide_welcome_template_definition
    ∷ provide_password_reset_template_definition ∷ provide_order_receipt_template_definition
    ∷ provide_order_delivery_template_definition ∷ provide_order_delivery_buyer_template_definition
    ∷ provide_order_revision_template_definition ∷ provide_order_revision_buyer_template_definition
    ∷ provide_order_dispute_template_definition ∷ provide_order_dispute_seller_template_definition
    ∷ provide_order_completion_template_definition
    ∷ provide_order_completion_seller_template_definition
    ∷ provide_order_release_failed_template_definition
    ∷ provide_order_release_failed_seller_template_definition ∷ []

-- the file of a definition, by its last part, in the configured directory
unfoldable pub resolve : TemplatesConfig → TemplateDefinition → TemplateDefinition
unfolding join base
resolve cfg def = record def { html_template_path = join cfg.dir (base def.html_template_path) }

grouped {ℓ} : {A : Type ℓ} → Result A → Result A
grouped (ok a) = ok a
grouped (err e) = err (wrap_template_definition_group_error e)

pub provide_template_registry :
    {Data : Type 0}
    → (engine : TemplateEngine Data) → TemplatesConfig
    → List TemplateDefinition
    → Result (Registry engine)
unfolding grouped wrap_template_definition_group_error
provide_template_registry engine cfg defs =
    grouped (build_template_registry engine (map (resolve cfg) defs))
