-- ===== src/Caches/Recall.antt =====
-- An explanation that was stored is given again.
use mcp_kubernetes_platform.Prelude.{
  ℕ, ◌+◌, ◌≤◌, ◌≡◌, refl, ap, ◌∙◌, true, false, not, String, ◌==◌, eq_iff, eq_refl, Option, none,
  some, List, [], ◌∷◌, ◌++◌, map, keep, All, ltb, arith, inl, inr, Bool-cases,
}
use mcp_kubernetes_platform.Prelude.Effects.{Result, ok}
use mcp_kubernetes_platform.Caches.Models.{
  FixKind, kubectl_patch, manifest_diff, rollout_restart, scale, label_edit, unknown, value_of,
  fix_kind, Finding, FixCandidate, Explanation,
}
use mcp_kubernetes_platform.Caches.Cache.{
  Payload, CacheRow, FindingCache, ttl, find_row, replace, fresh, count, evict_expired,
  encode_candidate, encode, with_kind, also, decode_candidates, decoded, decode, cache_key, new_row,
  get, set, store_answer, answer, explain,
}

fix_kind-value_of : (k : FixKind) → fix_kind (value_of k) ≡ some k
unfolding fix_kind value_of
fix_kind-value_of kubectl_patch = refl
fix_kind-value_of manifest_diff = refl
fix_kind-value_of rollout_restart = refl
fix_kind-value_of scale = refl
fix_kind-value_of label_edit = refl
fix_kind-value_of unknown = refl

decode_candidates-encode :
    (cs : List FixCandidate) → decode_candidates (map encode_candidate cs) ≡ ok cs
unfolding decode_candidates encode_candidate with_kind also
decode_candidates-encode [] = refl
decode_candidates-encode (c ∷ cs) = rw (fix_kind-value_of c.kind, decode_candidates-encode cs) refl

decode-encode : (e : Explanation) → decode (encode e) ≡ ok (record e { from_cache = true })
unfolding decode encode decoded
decode-encode e = rw (decode_candidates-encode e.fix_candidates) refl

find_row-append :
    (r : CacheRow) (rows : List CacheRow)
    → find_row r.hash (keep (λ x. not (x.hash == r.hash)) rows ++ r ∷ []) ≡ some r
unfolding find_row
find_row-append r [] = rw (eq_refl r.hash) refl
find_row-append r (x ∷ rows) = elim (Bool-cases (x.hash == r.hash)) [
  | inl same ↦ rw same (find_row-append r rows)
  | inr other ↦ rw (other, other) (find_row-append r rows)
]

find_row-replace : (r : CacheRow) (rows : List CacheRow) → find_row r.hash (replace r rows) ≡ some r
unfolding replace
find_row-replace r rows = find_row-append r rows

find_row-replace_other :
    (h : String) (r : CacheRow) (rows : List CacheRow)
    → (r.hash == h) ≡ false
    → find_row h (replace r rows) ≡ find_row h rows
unfolding find_row replace
find_row-replace_other h r [] other = rw other refl
find_row-replace_other h r (x ∷ rows) other = elim (Bool-cases (x.hash == h)) [
  | inl same ↦ elim (Bool-cases (x.hash == r.hash)) [
    | inl gone ↦
        let e : x.hash ≡ r.hash = (eq_iff x.hash r.hash).0 gone in
        absurd (cc (other, same, ap (λ t. t == h) e))
    | inr kept ↦ rw (kept, same) refl
  ]
  | inr not_it ↦ elim (Bool-cases (x.hash == r.hash)) [
    | inl gone ↦ rw (gone, not_it) (find_row-replace_other h r rows other)
    | inr kept ↦ rw (kept, not_it) (find_row-replace_other h r rows other)
  ]
]

find_row-evict :
    (h : String) (now : ℕ) (r : CacheRow) (rows : List CacheRow)
    → ltb r.expires_at now ≡ false
    → find_row h rows ≡ some r
    → find_row h (keep (λ x. not (ltb x.expires_at now)) rows) ≡ some r
unfolding find_row
find_row-evict h now r [] valid found = absurd (cc found)
find_row-evict h now r (x ∷ rows) valid found = elim (Bool-cases (x.hash == h)) [
  | inl same ↦
      let e : x ≡ r = cc (found, same) in
      rw (ap (λ y. ltb y.expires_at now) e ∙ valid, same) (ap some e)
  | inr other ↦
      let later = find_row-evict h now r rows valid (cc (found, other)) in
      elim (Bool-cases (ltb x.expires_at now)) [
        | inl gone ↦ rw gone later
        | inr kept ↦ rw (kept, other) later
      ]
]

-- What may happen to the cache meanwhile.
pub data Meanwhile : Type 0 where
  evicted : ℕ → Meanwhile
  stored : Finding → Payload → String → ℕ → Meanwhile
  looked_up : Finding → String → ℕ → Meanwhile

module _ (canonical_json : Finding → String) (hexdigest : String → String) where
  abbrev pub run : List Meanwhile → FindingCache → FindingCache
  run [] c = c
  run (evicted now ∷ ms) c = run ms (evict_expired now c).1
  run (stored f p model_id now ∷ ms) c = run ms (set canonical_json hexdigest f p model_id now c)
  run (looked_up f model_id now ∷ ms) c = run ms (get canonical_json hexdigest f model_id now c).1

  -- It evicts no later than `expires`, and stores nothing under the key.
  abbrev pub Spares : String → ℕ → Meanwhile → Type 0
  Spares key expires (evicted now) = now ≤ expires
  Spares key expires (stored f p model_id now) =
      (cache_key canonical_json hexdigest f == key) ≡ false
  Spares key expires (looked_up f model_id now) = Unit

  count-rows : (o : Option Payload) (c : FindingCache) → (count o c).rows ≡ c.rows
  unfolding count
  count-rows none c = refl
  count-rows (some p) c = refl

  run-find_row :
      (r : CacheRow) (ms : List Meanwhile) (c : FindingCache)
      → All (Spares r.hash r.expires_at) ms
      → find_row r.hash c.rows ≡ some r
      → find_row r.hash (run ms c).rows ≡ some r
  unfolding evict_expired set get cache_key
  run-find_row r [] c h found = found
  run-find_row r (evicted now ∷ ms) c h found =
      run-find_row r ms (evict_expired now c).1 h.1
        (find_row-evict r.hash now r c.rows (ground (arith, h.0)) found)
  run-find_row r (stored f p model_id now ∷ ms) c h found =
      run-find_row r ms (set canonical_json hexdigest f p model_id now c) h.1 (
        find_row-replace_other r.hash (new_row canonical_json hexdigest f p model_id now) c.rows h.0
        ∙ found)
  run-find_row r (looked_up f model_id now ∷ ms) c h found =
      run-find_row r ms (get canonical_json hexdigest f model_id now c).1 h.1
        (ap (find_row r.hash) (count-rows _ c) ∙ found)

module _ (canonical_json : Finding → String) (hexdigest : String → String) (f : Finding)
    (model_id : String) where
  answer-none :
      (now : ℕ) (r : Explanation) (g : Option Payload × FindingCache)
      → g.0 ≡ none
      → (answer canonical_json hexdigest f model_id now (ok r) g).1
        ≡ set canonical_json hexdigest f (encode r) model_id now g.1
  unfolding answer store_answer
  answer-none now r (none, c) h = refl
  answer-none now r (some p, c) h = absurd (cc h)

  answer-some :
      (now : ℕ) (backend : Result String Explanation) (p : Payload)
      (g : Option Payload × FindingCache)
      → g.0 ≡ some p
      → (answer canonical_json hexdigest f model_id now backend g).0 ≡ decode p
  unfolding answer
  answer-some now backend p (none, c) h = absurd (cc h)
  answer-some now backend p (some q, c) h = ap decode (cc h)

  get-found :
      (now : ℕ) (p : Payload) (at : ℕ) (c : FindingCache)
      → find_row (hexdigest (canonical_json f)) c.rows
        ≡ some (new_row canonical_json hexdigest f p model_id at)
      → now ≤ at + ttl
      → (get canonical_json hexdigest f model_id now c).0 ≡ some p
  unfolding get fresh cache_key
  get-found now p at c found soon =
      let in_time : ltb (at + ttl) now ≡ false = ground (arith, soon) in
      ap (fresh now model_id) found ∙ rw (in_time, eq_refl model_id) refl

-- Round trip: when a lookup misses and the back end answers with `r` at the time `now`, then a later
-- call for the same finding and model, at most seven days after that and after any evictions before,
-- lookups, and answers stored for findings with other keys, gives `r`, marked as from the cache,
-- whatever the back end would answer.
pub explain-recalls :
    (canonical_json : Finding → String) (hexdigest : String → String) (f : Finding)
    (model_id : String) (asked now asked' now' : ℕ) (r : Explanation)
    (backend : Result String Explanation) (ms : List Meanwhile) (c : FindingCache)
    → (get canonical_json hexdigest f model_id asked c).0 ≡ none
    → All (Spares canonical_json hexdigest (cache_key canonical_json hexdigest f) (now + ttl)) ms
    → asked' ≤ now + ttl
    → (explain canonical_json hexdigest f model_id asked' now' backend (
        run canonical_json hexdigest ms
          (explain canonical_json hexdigest f model_id asked now (ok r) c).1)).0
      ≡ ok (record r { from_cache = true })
unfolding explain set cache_key
explain-recalls canonical_json hexdigest f model_id asked now asked' now' r backend ms c missed
      spared soon =
    let row = new_row canonical_json hexdigest f (encode r) model_id now in
    let first =
      answer-none canonical_json hexdigest f model_id now r
        (get canonical_json hexdigest f model_id asked c) missed in
    let there =
      ap (λ d. find_row row.hash d.rows) first
      ∙ find_row-replace row (get canonical_json hexdigest f model_id asked c).1.rows in
    let kept = run-find_row canonical_json hexdigest row ms _ spared there in
    answer-some canonical_json hexdigest f model_id now' backend (encode r) _
      (get-found canonical_json hexdigest f model_id asked' (encode r) now _ kept soon)
    ∙ decode-encode r
