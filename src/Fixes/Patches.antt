-- ===== src/Fixes/Patches.antt =====
-- The texts and JSON values that the handlers build.
use mcp_kubernetes_platform.Prelude.{
  Bool, true, false, not, String, ◌==◌, Option, none, some, eqb, if◌then◌else◌,
}
use mcp_kubernetes_platform.Prelude.Effects.{Result, ok, raised}
use mcp_kubernetes_platform.Fixes.Data.{
  Json, null, text, number, array, object, end, item, Fields, close, field, FixError, missing_key,
}

abbrev pub one : String → Json → Json
one k v = object (field k v close)

-- {"spec": {"template": {"spec": …}}}
abbrev pub pod_spec : Fields → Json
pod_spec fs = one "spec" (one "template" (one "spec" (object fs)))

abbrev pub optional_text : Option String → Json
optional_text none = null
optional_text (some s) = text s

-- the patch of one container
unfoldable pub container_patch : Option String → String → Json → Json
container_patch name k v = pod_spec (
    field "containers"
      (array (item (object (field "name" (optional_text name) (field k v close))) end)) close)

-- `bool(v)`
unfoldable pub is_truthy : Json → Bool
is_truthy null = false
is_truthy (text s) = not (s == "")
is_truthy (number n) = not (eqb n 0)
is_truthy (array end) = false
is_truthy (array (item v vs)) = true
is_truthy (object close) = false
is_truthy (object (field k v fs)) = true

-- d.get(…) or e, for a value that may be missing
abbrev pub get_json : Option Json → Json
get_json none = null
get_json (some v) = v

unfoldable pub or_json : Json → Json → Json
or_json v w = if is_truthy v then v else w

-- raw[k]
abbrev pub require : {A : Type 0} → String → Option A → Result FixError A
require k none = raised (missing_key k)
require k (some a) = ok a

abbrev pub named : Option String → String
named none = "None"
named (some s) = s
