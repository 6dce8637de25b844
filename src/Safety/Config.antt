-- ===== src/Safety/Config.antt =====
-- src/safety_config.py: the parsed configuration. Reading and parsing the YAML file is outside.
use mcp_kubernetes_platform.Prelude.{Bool, String, List}

-- dataclass NamespaceSet
pub record NamespaceSet : Type 0 where
  pub exact : List String
  pub pattern : List String

-- dataclass OverrideConfig
pub record OverrideConfig : Type 0 where
  pub enabled : Bool
  pub authorized_pr_label : String
  pub authorized_by : String
  pub expires_at : String

-- dataclass SafetyConfig
pub record SafetyConfig : Type 0 where
  pub trading_namespaces : NamespaceSet
  pub system_namespaces : NamespaceSet
  pub stateless_web_namespaces : NamespaceSet
  pub batch_namespaces : NamespaceSet
  pub default_policy : String
  pub override : OverrideConfig
