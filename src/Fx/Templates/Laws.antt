-- ===== src/Fx/Templates/Laws.antt =====
-- The registry that the process builds.
use Prim.Native.String.{◌++◌}
use ofm_mail_service.Prelude.{
  ◌≡◌, ◌≢◌, ◌⊎◌, inl, inr, Bool-cases, ap, ◌∙◌, refl, sym, subst, String, List, [], ◌∷◌, map, false,
  none, some, arith, ◌==◌, eq_iff, All,
}
use mathlib.Core.List.{Memᴰ}
use ofm_mail_service.Effect.{ok, bind_result}
use ofm_mail_service.Config.{TemplatesConfig}
use ofm_mail_service.Application.FilePath.{join, base, clean}
use ofm_mail_service.Application.KeyMap.{lookup}
use ofm_mail_service.Application.Registry.{
  TemplateDefinition, TemplateEngine, Registry, CompiledTemplate, build_template_registry,
  new_template_registry,
}
use ofm_mail_service.Application.Registry.Building.{latest, Serves, build_template_registry-Serves}
use ofm_mail_service.Fx.Templates.{resolve, mail_templates, provide_template_registry, grouped}

-- No two definitions have one message type.
abbrev pub HasDistinctTypes : List TemplateDefinition → Type 0
HasDistinctTypes [] = Unit
HasDistinctTypes (def ∷ defs) =
    All (λ d. (def.message_type == d.message_type) ≡ false) defs × HasDistinctTypes defs

latest-none :
    (t : String) (cfg : TemplatesConfig) (defs : List TemplateDefinition)
    → All (λ d. (t == d.message_type) ≡ false) defs
    → latest t (map (resolve cfg) defs) ≡ none
unfolding resolve
latest-none t cfg [] h = refl
latest-none t cfg (d ∷ defs) h =
    rw (latest-none t cfg defs h.1)
      (ground (arith, eq_iff t d.message_type, eq_iff d.message_type t))

-- A definition is the only one of its message type.
abbrev IsOnly : TemplateDefinition → List TemplateDefinition → Type 0
IsOnly def defs =
    (d : TemplateDefinition) → Memᴰ d defs → d.message_type ≡ def.message_type → d ≡ def

latest-cases :
    (cfg : TemplatesConfig) (def : TemplateDefinition) (defs : List TemplateDefinition)
    → IsOnly def defs
    → (latest def.message_type (map (resolve cfg) defs) ≡ none)
      ⊎ (latest def.message_type (map (resolve cfg) defs) ≡ some (resolve cfg def))
unfolding resolve
latest-cases cfg def [] only = inl refl
latest-cases cfg def (d ∷ defs) only =
    elim (latest-cases cfg def defs (λ x m. only x (Memᴰ.tail m))) [
      | inr found ↦ inr (rw found refl)
      | inl absent ↦ elim (Bool-cases (d.message_type == def.message_type)) [
        | inl same ↦
            let e = only d (Memᴰ.head refl) ((eq_iff d.message_type def.message_type).0 same) in
            inr (rw (absent, same) (ap (λ x. some (resolve cfg x)) e))
        | inr differ ↦ inl (rw (absent, differ) refl)
      ]
    ]

latest_member :
    (cfg : TemplatesConfig) (def : TemplateDefinition) (defs : List TemplateDefinition)
    → Memᴰ def defs
    → IsOnly def defs
    → latest def.message_type (map (resolve cfg) defs) ≡ some (resolve cfg def)
unfolding resolve
latest_member cfg def [] m only = elim m [ ]
latest_member cfg def (d ∷ defs) (Memᴰ.tail m) only =
    rw (latest_member cfg def defs m (λ x n. only x (Memᴰ.tail n))) refl
latest_member cfg def (d ∷ defs) (Memᴰ.head e) only =
    elim (latest-cases cfg def defs (λ x n. only x (Memᴰ.tail n))) [
      | inr found ↦ rw found refl
      | inl absent ↦
          let same =
            (eq_iff d.message_type def.message_type).1 (ap (λ x. x.message_type) (sym e)) in
          rw (absent, same) (ap (λ x. some (resolve cfg x)) (sym e))
    ]

All-member :
    (P : TemplateDefinition → Type 0) (d : TemplateDefinition) (defs : List TemplateDefinition)
    → All P defs
    → Memᴰ d defs
    → P d
All-member P d [] h m = elim m [ ]
All-member P d (x ∷ defs) h (Memᴰ.head e) = subst P (sym e) h.0
All-member P d (x ∷ defs) h (Memᴰ.tail m) = All-member P d defs h.1 m

differs :
    (a b d : TemplateDefinition)
    → a ≡ d
    → (d.message_type == b.message_type) ≡ false
    → a.message_type ≢ b.message_type
differs a b d e differ same =
    let one = (eq_iff d.message_type b.message_type).1 (ap (λ x. x.message_type) (sym e) ∙ same) in
    cc

distinct-IsOnly :
    (a b : TemplateDefinition) (defs : List TemplateDefinition)
    → HasDistinctTypes defs
    → Memᴰ a defs
    → Memᴰ b defs
    → a.message_type ≡ b.message_type
    → a ≡ b
distinct-IsOnly a b [] h m n same = elim m [ ]
distinct-IsOnly a b (d ∷ defs) h (Memᴰ.head e) (Memᴰ.head f) same = e ∙ sym f
distinct-IsOnly a b (d ∷ defs) h (Memᴰ.head e) (Memᴰ.tail n) same =
    absurd (differs a b d e (All-member _ b defs h.0 n) same)
distinct-IsOnly a b (d ∷ defs) h (Memᴰ.tail m) (Memᴰ.head f) same =
    absurd (differs b a d f (All-member _ a defs h.0 m) (sym same))
distinct-IsOnly a b (d ∷ defs) h (Memᴰ.tail m) (Memᴰ.tail n) same =
    distinct-IsOnly a b defs h.1 m n same

All-part :
    (P : TemplateDefinition → Type 0) (defs all : List TemplateDefinition)
    → All P all
    → ((def : TemplateDefinition) → Memᴰ def defs → Memᴰ def all)
    → All P defs
All-part P [] all h part = tt
All-part P (d ∷ defs) all h part = (
  All-member P d all h (part d (Memᴰ.head refl)),
  All-part P defs all h (λ x m. part x (Memᴰ.tail m)),
)

-- The definitions of the process have distinct message types.
pub mail_templates-HasDistinctTypes : HasDistinctTypes mail_templates
unfolding mail_templates
mail_templates-HasDistinctTypes = search

module _ {Data : Type 0} (engine : TemplateEngine Data) where
  built :
      (cfg : TemplatesConfig) (defs : List TemplateDefinition) (r : Registry engine)
      → provide_template_registry engine cfg defs ≡ ok r
      → build_template_registry engine (map (resolve cfg) defs) ≡ ok r
  unfolding provide_template_registry grouped
  built cfg defs r h = ground arith

  lookup_new : (t : String) → lookup t (new_template_registry engine).defs ≡ none
  unfolding lookup new_template_registry
  lookup_new t = refl

  module _ (cfg : TemplatesConfig) (defs : List TemplateDefinition) (r : Registry engine)
      (h : provide_template_registry engine cfg defs ≡ ok r) where
    serves :
        (t : String)
        → Serves engine (new_template_registry engine) r t (latest t (map (resolve cfg) defs))
    serves t =
        build_template_registry-Serves engine (map (resolve cfg) defs) r t (built cfg defs r h)

    -- A definition is served: its subject, and the file of its name in the configured directory.
    abbrev pub ServesFile : TemplateDefinition → Type 0
    ServesFile def =
        let file = join cfg.dir (base def.html_template_path) in
        (tpl : CompiledTemplate engine) × (lookup def.message_type r.defs ≡ some tpl)
        × (engine.parse_subject (def.message_type ++ "-subject") def.subject_template
            ≡ ok tpl.subject)
        × (bind_result (engine.read_file (clean file)) (engine.parse_body (base file))
            ≡ ok tpl.body)

    serves_file : (def : TemplateDefinition) → Memᴰ def defs → IsOnly def defs → ServesFile def
    unfolding resolve
    serves_file def m only =
        let (tpl, found, compiled) =
          subst (Serves engine (new_template_registry engine) r def.message_type)
            (latest_member cfg def defs m only) (serves def.message_type) in
        (tpl, found, compiled.subject, compiled.body)

    -- In whatever order the container groups the definitions of the process, and however often, the
    -- registry that it builds serves every one of them under its message type: the subject that is
    -- parsed from the definition's text, and the body that is parsed from the file of the
    -- definition's name in the configured directory; and it serves no other message type.
    pub provide_template_registry_serves :
        ((def : TemplateDefinition) → Memᴰ def mail_templates → Memᴰ def defs)
        → ((def : TemplateDefinition) → Memᴰ def defs → Memᴰ def mail_templates)
        → ((def : TemplateDefinition) → Memᴰ def mail_templates → ServesFile def)
          × ((t : String)
              → All (λ d. (t == d.message_type) ≡ false) mail_templates
              → lookup t r.defs ≡ none)
    provide_template_registry_serves whole part = (
      λ def m. serves_file def (whole def m) (λ d n.
          distinct-IsOnly d def mail_templates mail_templates-HasDistinctTypes (part d n) m),
      λ t absent.
          subst (Serves engine (new_template_registry engine) r t)
            (latest-none t cfg defs (All-part _ defs mail_templates absent part)) (serves t)
          ∙ lookup_new t,
    )
