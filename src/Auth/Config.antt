-- ===== src/Auth/Config.antt =====
-- config/config.go: the `auth` section and its client entries.
use insight_collector.Prelude.{String, Bool, List}

pub record ClientConfig : Type 0 where
  pub client_id : String
  pub client_name : String
  pub auth_type : String
  pub key_path : String
  pub secret_key : String
  pub permissions : List String
  pub active : Bool

pub record AuthConfig : Type 0 where
  pub enabled : Bool
  pub algorithm : String
  pub clients : List ClientConfig
