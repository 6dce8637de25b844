-- ===== src/Caches/Cache.antt =====
-- src/auto_remediate/finding_cache.py. The table is a list of rows; the
-- column `explanation` holds the payload itself instead of its JSON text. SHA-256 and the canonical JSON
-- text of a finding are arguments, and times are microseconds.
use mcp_kubernetes_platform.Prelude.{
  ℕ, ◌+◌, ◌*◌, true, ◌||◌, not, String, ◌==◌, Option, none, some, List, [], ◌∷◌, ◌++◌, map, keep,
  eqb, ltb, count_if, if◌then◌else◌,
}
use mcp_kubernetes_platform.Prelude.Effects.{Result, ok, raised}
use mcp_kubernetes_platform.Caches.Models.{
  FixKind, value_of, fix_kind, Finding, FixCandidate, Explanation,
}

-- the dicts of the payload
pub record PayloadCandidate : Type 0 where
  pub kind : String
  pub command_or_diff : String
  pub rationale : String
  pub rank : ℕ
  pub source : String

pub record Payload : Type 0 where
  pub finding_hash : String
  pub summary : String
  pub fix_candidates : List PayloadCandidate
  pub raw_llm_text : Option String

pub record CacheRow : Type 0 where
  pub hash : String
  pub finding_json : String
  pub explanation : Payload
  pub model_id : String
  pub created_at : ℕ
  pub expires_at : ℕ

-- the table with the two counters of the module
pub record FindingCache : Type 0 where
  pub rows : List CacheRow
  pub hit_count : ℕ
  pub miss_count : ℕ

abbrev pub ttl : ℕ
ttl = 7 * 24 * 3600 * 1000000

unfoldable pub find_row : String → List CacheRow → Option CacheRow
find_row h [] = none
find_row h (r ∷ rs) = let rest = find_row h rs in if r.hash == h then some r else rest

-- INSERT OR REPLACE
unfoldable pub replace : CacheRow → List CacheRow → List CacheRow
replace r rows = keep (λ x. not (x.hash == r.hash)) rows ++ r ∷ []

-- the answer to a row that was looked up
unfoldable pub fresh : ℕ → String → Option CacheRow → Option Payload
fresh now model_id none = none
fresh now model_id (some r) =
    if ltb r.expires_at now || not (r.model_id == model_id) then none else some r.explanation

unfoldable pub count : Option Payload → FindingCache → FindingCache
count none c = record c { miss_count = c.miss_count + 1 }
count (some p) c = record c { hit_count = c.hit_count + 1 }

unfoldable pub evict_expired : ℕ → FindingCache → ℕ × FindingCache
evict_expired now c = (
  count_if (λ r. ltb r.expires_at now) c.rows,
  record c { rows = keep (λ r. not (ltb r.expires_at now)) c.rows },
)

-- the quotient as its two parts; 0.0 without calls
unfoldable pub hit_rate : FindingCache → ℕ × ℕ
hit_rate c =
    let total = c.hit_count + c.miss_count in if eqb total 0 then (0, 1) else (c.hit_count, total)

unfoldable pub encode_candidate : FixCandidate → PayloadCandidate
encode_candidate c = record {
  kind = value_of c.kind;
  command_or_diff = c.command_or_diff;
  rationale = c.rationale;
  rank = c.rank;
  source = c.source;
}

unfoldable pub encode : Explanation → Payload
encode e = record {
  finding_hash = e.finding_hash;
  summary = e.summary;
  fix_candidates = map encode_candidate e.fix_candidates;
  raw_llm_text = e.raw_llm_text;
}

-- ValueError of FixKind, with the text; or what the back end raises
pub data ExplainError : Type 0 where
  bad_kind : String → ExplainError
  backend_error : String → ExplainError

unfoldable pub with_kind : PayloadCandidate → Option FixKind → Result ExplainError FixCandidate
with_kind c none = raised (bad_kind c.kind)
with_kind c (some k) = ok (record {
  kind = k;
  command_or_diff = c.command_or_diff;
  rationale = c.rationale;
  rank = c.rank;
  source = c.source;
})

unfoldable pub also :
    Result ExplainError FixCandidate
    → Result ExplainError (List FixCandidate)
    → Result ExplainError (List FixCandidate)
also (raised e) rest = raised e
also (ok c) (raised e) = raised e
also (ok c) (ok cs) = ok (c ∷ cs)

unfoldable pub decode_candidates : List PayloadCandidate → Result ExplainError (List FixCandidate)
decode_candidates [] = ok []
decode_candidates (c ∷ cs) = also (with_kind c (fix_kind c.kind)) (decode_candidates cs)

unfoldable pub decoded :
    Payload → Result ExplainError (List FixCandidate) → Result ExplainError Explanation
decoded p (raised e) = raised e
decoded p (ok cs) = ok (record {
  finding_hash = p.finding_hash;
  summary = p.summary;
  fix_candidates = cs;
  raw_llm_text = p.raw_llm_text;
  from_cache = true;
})

unfoldable pub decode : Payload → Result ExplainError Explanation
decode p = decoded p (decode_candidates p.fix_candidates)

module _ (canonical_json : Finding → String) (hexdigest : String → String) where
  unfoldable pub cache_key : Finding → String
  cache_key f = hexdigest (canonical_json f)

  unfoldable pub get : Finding → String → ℕ → FindingCache → Option Payload × FindingCache
  get f model_id now c =
      let found = fresh now model_id (find_row (cache_key f) c.rows) in (found, count found c)

  abbrev pub new_row : Finding → Payload → String → ℕ → CacheRow
  new_row f p model_id now = record {
    hash = hexdigest (canonical_json f);
    finding_json = canonical_json f;
    explanation = p;
    model_id = model_id;
    created_at = now;
    expires_at = now + ttl;
  }

  unfoldable pub set : Finding → Payload → String → ℕ → FindingCache → FindingCache
  set f p model_id now c = record c { rows = replace (new_row f p model_id now) c.rows }

  -- after the back end has answered a miss, at the time `now`
  unfoldable pub store_answer :
      Finding
      → String
      → ℕ
      → Result String Explanation
      → FindingCache
      → Result ExplainError Explanation × FindingCache
  store_answer f model_id now (raised e) c = (raised (backend_error e), c)
  store_answer f model_id now (ok r) c = (ok r, set f (encode r) model_id now c)

  unfoldable pub answer :
      Finding
      → String
      → ℕ
      → Result String Explanation
      → Option Payload × FindingCache
      → Result ExplainError Explanation × FindingCache
  answer f model_id now backend (some p, c) = (decode p, c)
  answer f model_id now backend (none, c) = store_answer f model_id now backend c

  -- CachedBackend.explain: `asked` is the time of the lookup, `now` that of the answer, and `backend`
  -- what the back end gives if it is asked.
  unfoldable pub explain :
      Finding
      → String
      → ℕ
      → ℕ
      → Result String Explanation
      → FindingCache
      → Result ExplainError Explanation × FindingCache
  explain f model_id asked now backend c = answer f model_id now backend (get f model_id asked c)
