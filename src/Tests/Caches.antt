-- ===== src/Tests/Caches.antt =====
-- Runs of the cache and the store of findings.
use mcp_kubernetes_platform.Prelude.{◌≡◌, refl, true, false, String, none, [], ◌∷◌, arith}
use mcp_kubernetes_platform.Prelude.Effects.{ok, raised}
use mcp_kubernetes_platform.Caches.Models.{scale, Finding, Explanation}
use mcp_kubernetes_platform.Caches.Cache.{
  FindingCache, encode, cache_key, find_row, fresh, count, get, explain,
}
use mcp_kubernetes_platform.Caches.Recall.{evicted, stored, run, explain-recalls}
use mcp_kubernetes_platform.Caches.Store.{
  StoredFinding, seen_again, update_seen, finding_fingerprint, new_finding, upsert_row,
  upsert_finding,
}

abbrev finding : String → Finding
finding i = record {
  component_id = i;
  kind = "scale";
  severity = "high";
  evidence = "";
  diagnosis = "";
  fix_class = "";
  proposed_fix = "";
  schema_version = 1;
}

abbrev explanation : Explanation
explanation = record {
  finding_hash = "h";
  summary = "s";
  fix_candidates =
      record { kind = scale; command_or_diff = "c"; rationale = "r"; rank = 1; source = "llm" }
      ∷ [];
  raw_llm_text = none;
  from_cache = false;
}

abbrev cold : FindingCache
cold = record { rows = []; hit_count = 0; miss_count = 0 }

abbrev component : Finding → String
component f = f.component_id

abbrev identity : String → String
identity s = s

explain-recalls_example :
    (explain component identity (finding "a") "m" 20 30 (raised "down") (
      run component identity
        (evicted 15 ∷ stored (finding "b") (encode explanation) "m" 16 ∷ [])
        (explain component identity (finding "a") "m" 5 10 (ok explanation) cold).1)).0
    ≡ ok (record explanation { from_cache = true })
unfolding get fresh find_row cache_key count
explain-recalls_example =
    explain-recalls component identity (finding "a") "m" 5 10 20 30 explanation (raised "down")
      (evicted 15 ∷ stored (finding "b") (encode explanation) "m" 16 ∷ []) cold refl
      (ground arith, (refl, tt)) (ground arith)

abbrev first : StoredFinding
first = new_finding "1" "web|Pod|a|high|r" "t1" "web" "Pod" "a" "high" "r"

second_upsert :
    upsert_finding identity "2" "t2" "web" "Pod" "a" "high" "r" (first ∷ [])
    ≡ ok ("web|Pod|a|high|r", seen_again "t2" first ∷ [])
unfolding upsert_finding upsert_row finding_fingerprint new_finding update_seen seen_again
second_upsert = refl
