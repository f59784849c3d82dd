-- ===== src/Config.antt =====
-- `Settings` of src/config.py: the settings that the modelled code reads, with their defaults, and
-- the check of the secret. Times are in seconds.
use omnisync.Base.{ℕ, String, Bool, true, not, ◌&&◌, ◌||◌, str_eq}
use text.Mathlib.Text.{starts_with}

pub record Settings : Type 0 where
  pub s3_payload_threshold : ℕ
  pub raw_payload_ttl_days : ℕ
  pub outbox_batch_size : ℕ
  pub outbox_max_attempts : ℕ
  pub dlq_max_replay_attempts : ℕ
  pub dlq_retry_enabled : Bool
  pub dlq_retry_base_delay : ℕ
  pub dlq_retry_max_delay : ℕ
  pub dlq_retry_batch_size : ℕ
  pub jwt_secret : String
  pub jwt_expire_minutes : ℕ
  pub env : String

abbrev pub default_settings : Settings
default_settings = record {
  s3_payload_threshold = 32768;
  raw_payload_ttl_days = 90;
  outbox_batch_size = 100;
  outbox_max_attempts = 10;
  dlq_max_replay_attempts = 5;
  dlq_retry_enabled = true;
  dlq_retry_base_delay = 60;
  dlq_retry_max_delay = 3600;
  dlq_retry_batch_size = 50;
  jwt_secret = "changeme-min-32-chars-placeholder";
  jwt_expire_minutes = 1440;
  env = "development";
}

-- Python's `part in text`.
unfoldable pub contains_text : String → String → Bool
contains_text part String.[] = str_eq part ""
contains_text part (String.◌∷◌ c s) = starts_with (String.◌∷◌ c s) part || contains_text part s

-- `_validate_jwt_secret`: false is the ValueError.
unfoldable pub validate_jwt_secret : Settings → Bool
unfolding contains_text
validate_jwt_secret s = not (str_eq s.env "production" && contains_text "changeme" s.jwt_secret)
