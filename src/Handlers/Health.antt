-- ===== src/Handlers/Health.antt =====
-- internal/handlers/health.go
use eterrain_tf_upload.Text.{Bytes, codes}
use eterrain_tf_upload.Http.{Handler, json_response}

pub record HealthResponse : Type 0 where
  pub status : Bytes
  pub version : Bytes
  pub service : Bytes

-- Check of a HealthHandler for a version
unfoldable pub check : {Uuid S : Type 0} → Bytes → Handler Uuid S HealthResponse
check version r s = (
  s,
  json_response 200 (record {
    status = codes "healthy";
    version = version;
    service = codes "terraform-backend-service";
  }),
)
