-- ===== src/Gitops/Texts.antt =====
-- The texts of src/gitops/pr_generator.py: title, body and marker, the list of namespaces in an
-- environment variable, and the number at the end of an address.
use Prim.Native.String.{String}
use mcp_kubernetes_platform.Prelude.{
  lstrip, rstrip, ℕ, zero, suc, ◌+◌, ◌-◌, ◌*◌, Bool, true, false, ◌&&◌, not, List, [], ◌∷◌, ◌==◌,
  eqb, leb, ltb, all, keep, map, length, codes, ◌<>◌, if◌then◌else◌,
}

pub record Finding : Type 0 where
  pub finding_id : String
  pub severity : String
  pub namespace : String
  pub kind : String
  pub name : String
  pub fix_class : String
  pub events_block : String
  pub logs_block : String
  pub manifest_diff : String

pub record SandboxResult : Type 0 where
  pub verdict : String
  pub sandbox_log_url : String
  pub smoke_test_output : String

-- name[:n]
unfoldable pub take_text : ℕ → String → String
take_text zero s = ""
take_text (suc n) String.[] = ""
take_text (suc n) (String.◌∷◌ c s) = String.◌∷◌ c (take_text n s)

abbrev pub max_title : ℕ
max_title = 120

abbrev pub text_length : String → ℕ
text_length s = length (codes s)

-- The name, cut where prefix, name and suffix have more characters than a title may have;
-- `max(0, max_name - 3)` is the truncated subtraction.
unfoldable pub cut_name : String → String → String → String
cut_name prefix suffix name =
    if ltb max_title (text_length prefix + text_length suffix + text_length name)
    then take_text (max_title - text_length prefix - text_length suffix - 3) name <> "..."
    else name

-- `lower` is `str.lower`
unfoldable pub title_prefix : (String → String) → Finding → String
title_prefix lower f = "[auto-remediate] ns/" <> f.namespace <> " " <> lower f.kind <> "/"

unfoldable pub title_suffix : Finding → String
title_suffix f = ": " <> f.fix_class

unfoldable pub build_title : (String → String) → Finding → String
build_title lower f =
    title_prefix lower f
    <> cut_name (title_prefix lower f) (title_suffix f) f.name
    <> title_suffix f

unfoldable pub idempotency_marker : String → String → String
idempotency_marker fid xid = "<!-- auto-remediate:finding_id=" <> fid <> " fix_id=" <> xid <> " -->"

-- `s or d`
abbrev pub or_else : String → String → String
or_else s d = if s == "" then d else s

unfoldable pub build_body : Finding → String → SandboxResult → String
build_body f fix_id sandbox =
    "## Auto-Remediation Report\n\n**Finding ID:** `"
    <> f.finding_id
    <> "`\n**Severity:** `"
    <> f.severity
    <> "`\n**Namespace:** `"
    <> f.namespace
    <> "`\n**Resource:** `"
    <> f.kind
    <> "/"
    <> f.name
    <> "`\n**Fix class:** `"
    <> f.fix_class
    <> "`\n**Sandbox verified:** `"
    <> (if sandbox.verdict == "healed" then "True" else "False")
    <> "`\n\n---\n\n## Evidence\n\n### Kubernetes Events\n\n```\n"
    <> or_else f.events_block "(none)"
    <> "\n```\n\n### Relevant Logs (last 100 lines)\n\n```\n"
    <> or_else f.logs_block "(none)"
    <> "\n```\n\n---\n\n## Proposed Manifest Diff\n\n```diff\n"
    <> or_else f.manifest_diff "(empty diff)"
    <> "\n```\n\n---\n\n## Sandbox Run\n\n**Sandbox log:** "
    <> or_else sandbox.sandbox_log_url "N/A"
    <> "\n\n**Smoke-test result:**\n\n```\n"
    <> or_else sandbox.smoke_test_output "(none)"
    <> "\n```\n\n**Verdict:** "
    <> sandbox.verdict
    <> "\n\n---\n\n## Review Checklist\n\n- [ ] Diff is consistent with described fix class\n- [ ] No unrelated files changed\n- [ ] Smoke-test output confirms the symptom is resolved\n- [ ] Change is safe to apply to the live namespace\n\n"
    <> idempotency_marker f.finding_id fix_id
    <> "\n"

-- Parts between a separator, as `str.split` gives them: the first part, and the others.
unfoldable pub split_from : ℕ → List ℕ → List ℕ × List (List ℕ)
split_from sep [] = ([], [])
split_from sep (c ∷ s) =
    let (part, parts) = split_from sep s in
    if eqb c sep then ([], part ∷ parts) else (c ∷ part, parts)

unfoldable pub split : ℕ → List ℕ → List (List ℕ)
split sep s = let (part, parts) = split_from sep s in part ∷ parts

abbrev pub is_empty : List ℕ → Bool
is_empty [] = true
is_empty (c ∷ s) = false

-- {ns.strip() for ns in text.split(",") if ns.strip()}
unfoldable pub allowed_namespaces : String → List (List ℕ)
allowed_namespaces text =
    keep (λ s. not (is_empty s)) (map (λ s. lstrip (rstrip s)) (split 44 (codes text)))

-- The last part between slashes that is not empty, as `rstrip("/").split("/")[-1]`.
unfoldable pub last_part : List (List ℕ) → List ℕ → List ℕ
last_part [] found = found
last_part (p ∷ ps) found = last_part ps (if is_empty p then found else p)

unfoldable pub decimal : List ℕ → ℕ → ℕ
decimal [] n = n
decimal (c ∷ s) n = decimal s (n * 10 + (c - 48))

-- the number of a pull request, from its address; 0 where the last part has other characters
unfoldable pub pr_number_of : String → ℕ
pr_number_of url =
    let part = last_part (split 47 (codes url)) [] in
    if not (is_empty part) && all (λ c. leb 48 c && leb c 57) part then decimal part 0 else 0
