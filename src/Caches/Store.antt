-- ===== src/Caches/Store.antt =====
-- src/auto_remediate/finding_store.py: the table `findings` as a list of rows. SHA-256 is an argument, and
-- so are the random id and the time of a call.
use mcp_kubernetes_platform.Prelude.{
  ℕ, ◌+◌, String, ◌<>◌, ◌==◌, Option, none, some, List, [], ◌∷◌, ◌++◌, any, not, is_in,
  if◌then◌else◌,
}
use mcp_kubernetes_platform.Prelude.Effects.{Result, ok, raised}

pub record StoredFinding : Type 0 where
  pub id : String
  pub fingerprint_sha256 : String
  pub first_seen : String
  pub last_seen : String
  pub occurrence_count : ℕ
  pub ns : String
  pub kind : String
  pub name : String
  pub severity : String
  pub status : String
  pub current_pr_url : Option String
  pub root_cause_hash : String

-- the CHECK on the severity
abbrev pub severities : List String
severities = "critical" ∷ "high" ∷ "medium" ∷ "low" ∷ "info" ∷ []

-- IntegrityError of the CHECK. A random id is taken to be new.
pub data StoreError : Type 0 where
  bad_severity : StoreError

-- DO UPDATE SET
unfoldable pub seen_again : String → StoredFinding → StoredFinding
seen_again now r = record r { last_seen = now; occurrence_count = r.occurrence_count + 1 }

unfoldable pub update_seen : String → String → List StoredFinding → List StoredFinding
update_seen fp now [] = []
update_seen fp now (r ∷ rs) =
    let rest = update_seen fp now rs in
    if r.fingerprint_sha256 == fp then seen_again now r ∷ rs else r ∷ rest

unfoldable pub get_finding_by_fingerprint : String → List StoredFinding → Option StoredFinding
get_finding_by_fingerprint fp [] = none
get_finding_by_fingerprint fp (r ∷ rs) =
    let rest = get_finding_by_fingerprint fp rs in
    if r.fingerprint_sha256 == fp then some r else rest

unfoldable pub get_finding_by_id : String → List StoredFinding → Option StoredFinding
get_finding_by_id i [] = none
get_finding_by_id i (r ∷ rs) =
    let rest = get_finding_by_id i rs in if r.id == i then some r else rest

-- the row that is inserted
unfoldable pub new_finding :
    String → String → String → String → String → String → String → String → StoredFinding
new_finding id fp now ns kind name severity root_cause_hash = record {
  id = id;
  fingerprint_sha256 = fp;
  first_seen = now;
  last_seen = now;
  occurrence_count = 1;
  ns = ns;
  kind = kind;
  name = name;
  severity = severity;
  status = "open";
  current_pr_url = none;
  root_cause_hash = root_cause_hash;
}

unfoldable pub upsert_row :
    StoredFinding → List StoredFinding → Result StoreError (List StoredFinding)
upsert_row r rows =
    if not (is_in r.severity severities)
    then raised bad_severity
    else if any (λ x. x.fingerprint_sha256 == r.fingerprint_sha256) rows
    then ok (update_seen r.fingerprint_sha256 r.last_seen rows)
    else ok (rows ++ r ∷ [])

abbrev pub returning :
    String
    → Result StoreError (List StoredFinding)
    → Result StoreError (String × List StoredFinding)
returning fp (raised e) = raised e
returning fp (ok after) = ok (fp, after)

module _ (hexdigest : String → String) where
  unfoldable pub finding_fingerprint : String → String → String → String → String → String
  finding_fingerprint ns kind name severity root_cause_hash =
      hexdigest (ns <> "|" <> kind <> "|" <> name <> "|" <> severity <> "|" <> root_cause_hash)

  -- with the id, the time, and the columns of the call
  unfoldable pub upsert_finding :
      String
      → String
      → String
      → String
      → String
      → String
      → String
      → List StoredFinding
      → Result StoreError (String × List StoredFinding)
  upsert_finding id now ns kind name severity root_cause_hash rows =
      let fp = finding_fingerprint ns kind name severity root_cause_hash in
      returning fp (upsert_row (new_finding id fp now ns kind name severity root_cause_hash) rows)
