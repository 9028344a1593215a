-- ===== src/Telemetry/Tracing.antt =====
-- `InitTracing` of internal/telemetry/logging.go. Making a resource for the name of the service and an
-- exporter for an endpoint are calls of OpenTelemetry, which may fail.
use route_ans.Prelude.{Bool, true, Option, none, some, Text, codes, text_eq, not, if◌then◌else◌}
use route_ans.Prelude.Int.{ℤ}
use route_ans.Config.Types.{TracingConfig}

-- What is exported, and whether without TLS.
pub record Exporting : Type 0 where
  pub endpoint : Text
  pub insecure : Bool
  pub service_name : Text
  pub sample_rate : ℤ

-- The exporter is insecure if it is asked to be, or if the provider is not "otlp".
unfoldable pub is_insecure : TracingConfig → Bool
is_insecure c = if text_eq c.provider (codes "otlp") then c.otlp.insecure else true

abbrev exporting_of : TracingConfig → Exporting
exporting_of c = record {
  endpoint = c.otlp.endpoint;
  insecure = is_insecure c;
  service_name = c.service_name;
  sample_rate = c.sample_rate;
}

-- `InitTracing`: an error is `none`, and without tracing there is nothing to export.
unfoldable pub init_tracing :
    (Text → Bool) → (Text → Bool → Bool) → TracingConfig → Option (Option Exporting)
init_tracing make_resource make_exporter c =
    if not c.enabled
    then some none
    else if not (make_resource c.service_name)
    then none
    else if make_exporter c.otlp.endpoint (is_insecure c)
    then some (some (exporting_of c))
    else none
