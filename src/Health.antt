-- ===== src/Health.antt =====
-- The health endpoints of src/main.py. What a check of a service finds is a parameter.
use omnisync.Base.{ℕ, Bool, ◌&&◌, String, Option, none, if◌then◌else◌}

-- A check: whether the service answers, after how long, and the text of its error.
pub record Check : Type 0 where
  pub up : Bool
  pub latency_ms : Option ℕ
  pub error : Option String

pub record DependencyStatus : Type 0 where
  pub status : String
  pub latency_ms : Option ℕ
  pub error : Option String

pub record HealthResponse : Type 0 where
  pub status : String
  pub database : Bool
  pub redis : Bool
  pub minio : Bool
  pub jaeger : Bool
  pub dependencies : DependencyStatus × DependencyStatus × DependencyStatus × DependencyStatus

unfoldable pub dependency : Check → DependencyStatus
dependency c = record {
  status = if c.up then "ok" else "error";
  latency_ms = c.latency_ms;
  error = c.error;
}

-- The optional services do not count.
unfoldable pub health : Bool → Check → Check → Check → HealthResponse
unfolding dependency
health db_ok redis minio jaeger = record {
  status = if db_ok && redis.up then "ok" else "degraded";
  database = db_ok;
  redis = redis.up;
  minio = minio.up;
  jaeger = jaeger.up;
  dependencies = (
    dependency (record { up = db_ok; latency_ms = none; error = none }),
    dependency redis,
    dependency minio,
    dependency jaeger,
  );
}

pub record Readiness : Type 0 where
  pub status_code : ℕ
  pub status : String
  pub database : Bool
  pub redis : Bool
  pub redis_error : Option String

unfoldable pub readiness : Bool → Check → Readiness
readiness db_ok redis =
    let ready = db_ok && redis.up in
    record {
      status_code = if ready then 200 else 503;
      status = if ready then "ready" else "not_ready";
      database = db_ok;
      redis = redis.up;
      redis_error = redis.error;
    }
