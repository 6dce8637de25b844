-- ===== src/Caches/Table.antt =====
-- src/auto_remediate/deterministic_table.py: the candidates by the kind of a finding.
use Prim.Native.Char.{code}
use mcp_kubernetes_platform.Prelude.{
  mentions, mentions_lower, ◌≡◌, refl, Bool, true, false, ◌||◌, String, ◌<>◌, List, [], ◌∷◌, ◌++◌,
  All, eqb, Bool-cases, inl, inr, if◌then◌else◌,
}
use mcp_kubernetes_platform.Caches.Models.{
  FixKind, kubectl_patch, manifest_diff, rollout_restart, scale, label_edit, Finding, FixCandidate,
}

-- the text before the first slash
abbrev pub first_part : String → String
first_part String.[] = ""
first_part (String.◌∷◌ c s) =
    let rest = first_part s in if eqb (code c) 47 then "" else String.◌∷◌ c rest

unfoldable pub namespace_part : String → String
namespace_part component = if mentions "/" component then first_part component else "default"

unfoldable pub deterministic : FixKind → String → String → FixCandidate
deterministic k c why = record {
  kind = k;
  command_or_diff = c;
  rationale = why;
  rank = 1;
  source = "deterministic";
}

unfoldable pub crash_candidate : String → FixCandidate
crash_candidate i =
    deterministic rollout_restart
      ("kubectl rollout restart deploy/" <> i <> " -n " <> namespace_part i)
      "Restart the deployment to clear transient crash state."

unfoldable pub rbac_candidate : String → FixCandidate
rbac_candidate i =
    deterministic manifest_diff
      ("# Review RBAC bindings:\nkubectl get rolebindings,clusterrolebindings -A | grep " <> i)
      "Audit RBAC bindings to identify excess permissions."

unfoldable pub scale_candidate : String → FixCandidate
scale_candidate i =
    deterministic scale ("kubectl scale deploy/" <> i <> " --replicas=1")
      "Scale deployment to desired replica count."

unfoldable pub label_candidate : String → FixCandidate
label_candidate i =
    deterministic label_edit
      ("kubectl label pod -l app=" <> i <> " managed-by=platform-engineer --overwrite")
      "Apply standard labels for resource ownership tracking."

unfoldable pub fallback_candidate : String → FixCandidate
fallback_candidate i =
    deterministic kubectl_patch ("kubectl describe " <> i <> " 2>&1 | head -40")
      "Inspect the resource to determine the appropriate fix."

abbrev pub one_if : Bool → FixCandidate → List FixCandidate
one_if b c = if b then c ∷ [] else []

abbrev pub is_crash : Finding → Bool
is_crash f = mentions_lower "crashloop" f.kind || mentions_lower "crash" f.kind

abbrev pub is_rbac : Finding → Bool
is_rbac f =
    mentions_lower "rbac" f.kind
    || mentions_lower "permission" f.kind
    || mentions_lower "unauthorized" f.kind

abbrev pub is_scale : Finding → Bool
is_scale f = mentions_lower "scale" f.kind || mentions_lower "replica" f.kind

-- the candidates of the last test, of the last two, and so on
abbrev pub from_labels : Finding → List FixCandidate
from_labels f = one_if (mentions_lower "label" f.kind) (label_candidate f.component_id)

abbrev pub from_scales : Finding → List FixCandidate
from_scales f = one_if (is_scale f) (scale_candidate f.component_id) ++ from_labels f

abbrev pub from_rbacs : Finding → List FixCandidate
from_rbacs f = one_if (is_rbac f) (rbac_candidate f.component_id) ++ from_scales f

unfoldable pub matching_candidates : Finding → List FixCandidate
matching_candidates f = one_if (is_crash f) (crash_candidate f.component_id) ++ from_rbacs f

-- `if not candidates`
abbrev pub or_else : List FixCandidate → FixCandidate → List FixCandidate
or_else [] c = c ∷ []
or_else (x ∷ xs) c = x ∷ xs

unfoldable pub lookup_candidates : Finding → List FixCandidate
lookup_candidates f = or_else (matching_candidates f) (fallback_candidate f.component_id)

abbrev pub is_empty : List FixCandidate → Bool
is_empty [] = true
is_empty (x ∷ xs) = false

-- first in rank, and from the table
abbrev pub IsFromTable : FixCandidate → Type 0
IsFromTable c = (c.rank ≡ 1) × (c.source ≡ "deterministic")

one_if-IsFromTable :
    (b : Bool) (c : FixCandidate) (rest : List FixCandidate)
    → IsFromTable c
    → All IsFromTable rest
    → All IsFromTable (one_if b c ++ rest)
one_if-IsFromTable true c rest h k = (h, k)
one_if-IsFromTable false c rest h k = k

from_labels-IsFromTable : (f : Finding) → All IsFromTable (from_labels f)
unfolding label_candidate deterministic
from_labels-IsFromTable f = elim (Bool-cases (mentions_lower "label" f.kind)) [
  | inl named ↦ rw named ((refl, refl), tt)
  | inr other ↦ rw other tt
]

or_else-IsFromTable :
    (cs : List FixCandidate) (c : FixCandidate)
    → All IsFromTable cs
    → IsFromTable c
    → All IsFromTable (or_else cs c) × (is_empty (or_else cs c) ≡ false)
or_else-IsFromTable [] c h k = ((k, tt), refl)
or_else-IsFromTable (x ∷ xs) c h k = (h, refl)

-- `lookup_candidates` returns at least one candidate, and all of them have rank 1 and come from the table.
pub lookup_candidates-IsFromTable :
    (f : Finding) → All IsFromTable (lookup_candidates f) × (is_empty (lookup_candidates f) ≡ false)
unfolding lookup_candidates matching_candidates crash_candidate rbac_candidate scale_candidate
    label_candidate fallback_candidate deterministic
lookup_candidates-IsFromTable f =
    or_else-IsFromTable (matching_candidates f) (fallback_candidate f.component_id)
      (one_if-IsFromTable (is_crash f) (crash_candidate f.component_id) (from_rbacs f) (refl, refl)
        (one_if-IsFromTable (is_rbac f) (rbac_candidate f.component_id) (from_scales f) (refl, refl)
          (one_if-IsFromTable (is_scale f) (scale_candidate f.component_id) (from_labels f)
            (refl, refl) (from_labels-IsFromTable f))))
      (refl, refl)
