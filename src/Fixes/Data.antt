-- ===== src/Fixes/Data.antt =====
-- Findings with the keys that the handlers read, JSON values and fixes.
use mcp_kubernetes_platform.Prelude.{ℕ, Bool, String, Option, List}

-- The values that a patch is made of.
mutual
  pub data Json : Type 0 where
    null : Json
    text : String → Json
    number : ℕ → Json
    array : Items → Json
    object : Fields → Json

  pub data Items : Type 0 where
    end : Items
    item : Json → Items → Items

  pub data Fields : Type 0 where
    close : Fields
    field : String → Json → Fields → Fields

pub record Probe : Type 0 where
  pub http_get : Option Json
  pub tcp_socket : Option Json

pub record Taint : Type 0 where
  pub key : Option String
  pub value : Option String
  pub effect : Option String

-- The dict `raw`: each key that a handler reads, which may be missing.
pub record Raw : Type 0 where
  pub reason : Option String
  pub message : Option String
  pub current_image : Option String
  pub existing_liveness_probe : Option Probe
  pub bump_percent : Option ℕ
  pub current_memory_limit_bytes : Option ℕ
  pub storage_class_allow_expansion : Option Bool
  pub usage_percent : Option ℕ
  pub capacity_gi : Option ℕ
  pub growth_percent : Option ℕ
  pub mismatched_label_key : Option String
  pub blocking_taint : Option Taint
  pub disruptions_allowed : Option ℕ
  pub matched_pods : Option ℕ

pub record Finding : Type 0 where
  pub uid : String
  pub behavior : String
  pub namespace : String
  pub resource_kind : String
  pub resource_name : String
  pub container_name : Option String
  pub raw : Raw

-- the dict `k8s_state`
pub record ClusterState : Type 0 where
  pub cluster_dns_ip : Option String
  pub node_label_values : Option (List (String × List String))
  pub metrics_server_deployed : Option Bool

pub data PatchType : Type 0 where
  strategic_merge : PatchType
  kubectl_cmd : PatchType

pub data Payload : Type 0 where
  command : String → Payload
  patch : Json → Payload

pub record FixCandidate : Type 0 where
  pub description : String
  pub patch_type : PatchType
  pub payload : Payload
  pub requires_review : Bool
  pub references : List String

-- KeyError with the missing key, and each ValueError of the handlers.
pub data FixError : Type 0 where
  missing_key : String → FixError
  no_mapping : String → FixError
  no_nodes : String → FixError
  few_replicas : String → ℕ → FixError
