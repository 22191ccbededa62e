-- ===== src/Config/Loading.antt =====
-- config/config.go `Load`. The libraries env and godotenv are parameters.
use ofm_mail_service.Prelude.{String}
use ofm_mail_service.Errors.{prefixed}
use ofm_mail_service.Effect.{Result, ok, err, Eff, attempt}
use ofm_mail_service.Config.{Config}

-- WrapParseEnvConfigError
abbrev wrap_parse_env_config_error {ℓ} : {A : Type ℓ} → Result A → Result A
wrap_parse_env_config_error (ok a) = ok a
wrap_parse_env_config_error (err e) = err (prefixed "parse env config" e)

pub record Environment (W Float : Type 0) : Type 0 where
  -- godotenv.Load: sets the variables of a file that are not set
  pub load_file : String → Eff W (Unit {0})
  -- env.Parse
  pub parse : W → Result (Config Float)

module _ {W Float : Type 0} (environment : Environment W Float) where
  -- The errors of the two files are dropped.
  unfoldable pub load : Eff W (Config Float)
  load = attempt (environment.load_file ".env.local") λ _.
      attempt (environment.load_file ".env")
        λ _ w. (wrap_parse_env_config_error (environment.parse w), w)
