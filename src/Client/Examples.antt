-- ===== src/Client/Examples.antt =====
-- A client whose TLS configuration names no key.
use ecs_gatus_app.Base.{◌≢◌, some, []}
use ecs_gatus_app.Base.Text.{codes}
use ecs_gatus_app.Base.Outcome.{err}
use ecs_gatus_app.Client.{
  Config, KeyPairs, get_default_config, err_invalid_client_tls_config, validate_and_set_defaults,
}
use ecs_gatus_app.Client.Validation.{validate_and_set_defaults_lem}

abbrev half_configured : Config
half_configured = record get_default_config {
  tls = some (record {
    certificate_file = codes "cert.pem";
    private_key_file = [];
    renegotiation_support = [];
  });
}

abbrev no_files : KeyPairs
no_files certificate_file private_key_file = some (codes "no such file")

validate_and_set_defaults_lem_example :
    validate_and_set_defaults no_files half_configured ≢ err err_invalid_client_tls_config
validate_and_set_defaults_lem_example = validate_and_set_defaults_lem no_files half_configured
