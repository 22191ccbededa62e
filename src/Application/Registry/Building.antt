-- ===== src/Application/Registry/Building.antt =====
-- What the registry holds after definitions are registered.
use Prim.Native.String.{◌++◌}
use ofm_mail_service.Prelude.{
  ◌≡◌, ◌∙◌, inl, inr, refl, String, List, [], ◌∷◌, Option, none, some, arith, ◌==◌, Bool-cases,
  if◌then◌else◌,
}
use ofm_mail_service.Effect.{ok, bind_result, lift, >>=-eq-ok}
use ofm_mail_service.Application.FilePath.{base, clean}
use ofm_mail_service.Application.KeyMap.{lookup, assign, lookup-assign}
use ofm_mail_service.Application.Registry.{
  TemplateDefinition, TemplateEngine, CompiledTemplate, Registry, register, compile, store, commit,
  new_template_registry, register_all, build_template_registry,
}

-- The definition that `latest t defs` finds is the last one for the message type `t`.
abbrev pub latest : String → List TemplateDefinition → Option TemplateDefinition
latest t [] = none
latest t (def ∷ defs) = elim (latest t defs) [
  | some later ↦ some later
  | none ↦ if def.message_type == t then some def else none
]

module _ {Data : Type 0} (engine : TemplateEngine Data) where
  open engine use {parse_subject, parse_body, read_file}

  -- The template that the texts of a definition stand for.
  pub record IsCompiled (def : TemplateDefinition) (tpl : CompiledTemplate engine) : Type 0 where
    pub subject :
        parse_subject (def.message_type ++ "-subject") def.subject_template ≡ ok tpl.subject
    pub body :
        bind_result
          (read_file (clean def.html_template_path))
          (parse_body (base def.html_template_path))
        ≡ ok tpl.body

  compile-IsCompiled :
      (def : TemplateDefinition) (tpl : CompiledTemplate engine)
      → compile engine def ≡ ok tpl
      → IsCompiled def tpl
  unfolding compile
  compile-IsCompiled def tpl h = ground arith

  register-commit :
      (def : TemplateDefinition) (r : Registry engine)
      → (register engine def r).0 ≡ ok tt
      → register engine def r ≡ commit engine def r
  unfolding register
  register-commit def r h = ground arith

  commit-store :
      (def : TemplateDefinition) (r : Registry engine)
      → (commit engine def r).0 ≡ ok tt
      → (tpl : CompiledTemplate engine) × (compile engine def ≡ ok tpl)
        × ((commit engine def r).1.defs ≡ assign def.message_type tpl r.defs)
  unfolding commit store
  commit-store def r h =
      let (tpl, compiled, _) =
        >>=-eq-ok (lift (compile engine def)) (store engine def.message_type) r h in
      (tpl, compiled, rw compiled)

  -- A successful `Register` binds its message type to the compiled template, and no other.
  pub lookup-register :
      (def : TemplateDefinition) (r : Registry engine)
      → (register engine def r).0 ≡ ok tt
      → (tpl : CompiledTemplate engine) × IsCompiled def tpl
        × ((t : String)
            → lookup t (register engine def r).1.defs
              ≡ (if def.message_type == t then some tpl else lookup t r.defs))
  lookup-register def r h =
      let same = register-commit def r h in
      let (tpl, compiled, stored) = commit-store def r (rw same at h) in
      (
        tpl,
        compile-IsCompiled def tpl compiled,
        λ t. rw (same, stored) (lookup-assign def.message_type t tpl r.defs),
      )

  -- What the registry `r`, which grew from `start`, holds for `t`.
  abbrev pub Serves :
      Registry engine → Registry engine → String → Option TemplateDefinition → Type 0
  Serves start r t none = lookup t r.defs ≡ lookup t start.defs
  Serves start r t (some def) =
      (tpl : CompiledTemplate engine) × (lookup t r.defs ≡ some tpl) × IsCompiled def tpl

  Serves-register :
      (def : TemplateDefinition) (start mid r : Registry engine) (t : String)
      (tpl : CompiledTemplate engine)
      → IsCompiled def tpl
      → lookup t mid.defs ≡ (if def.message_type == t then some tpl else lookup t start.defs)
      → (o : Option TemplateDefinition) → Serves mid r t o
      → Serves start r t (elim o [
        | some later ↦ some later
        | none ↦ if def.message_type == t then some def else none
      ])
  Serves-register def start mid r t tpl c e (some later) h = h
  Serves-register def start mid r t tpl c e none h = elim (Bool-cases (def.message_type == t)) [
    | inl same ↦ rw same (tpl, h ∙ e ∙ rw same, c)
    | inr differ ↦ rw differ (h ∙ e ∙ rw differ)
  ]

  register_all-Serves :
      (defs : List TemplateDefinition) (start : Registry engine) (t : String)
      → (register_all engine defs start).0 ≡ ok tt
      → Serves start (register_all engine defs start).1 t (latest t defs)
  unfolding register_all
  register_all-Serves [] start t h = refl
  register_all-Serves (def ∷ defs) start t h =
      let (_, first, rest) =
        >>=-eq-ok (register engine def) (λ _. register_all engine defs) start h in
      let mid : Registry engine = (register engine def start).1 in
      let (tpl, compiled, bound) = lookup-register def start first in
      rw first (
        Serves-register def start mid (register_all engine defs mid).1 t tpl compiled (bound t)
          (latest t defs) (register_all-Serves defs mid t rest))

  build-register_all :
      (defs : List TemplateDefinition) (r : Registry engine)
      → build_template_registry engine defs ≡ ok r
      → register_all engine defs (new_template_registry engine) ≡ (ok tt, r)
  unfolding build_template_registry
  build-register_all defs r h = ground arith

  -- A registry that was built serves, for each message type, the last definition given for it,
  -- and no type without a definition.
  pub build_template_registry-Serves :
      (defs : List TemplateDefinition) (r : Registry engine) (t : String)
      → build_template_registry engine defs ≡ ok r
      → Serves (new_template_registry engine) r t (latest t defs)
  build_template_registry-Serves defs r t h =
      let e = build-register_all defs r h in
      let served = register_all-Serves defs (new_template_registry engine) t (rw e) in
      rw e at served
