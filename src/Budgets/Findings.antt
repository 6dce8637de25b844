-- ===== src/Budgets/Findings.antt =====
-- Which findings a budget has.
use mcp_kubernetes_platform.Prelude.{
  ℕ, ◌≡◌, refl, sym, ap, ◌∙◌, Bool, true, false, ◌||◌, String, ◌==◌, some, List, [], ◌∷◌, ◌++◌, any,
  length, text_or, inl, inr, Bool-cases, if◌then◌else◌,
}
use mcp_kubernetes_platform.Prelude.Effects.{Result, ok, raised}
use mcp_kubernetes_platform.Observer.Findings.{Finding}
use mcp_kubernetes_platform.Budgets.Analyzer.{
  Read, found, missing, failed, OwnerRef, Selector, Budget, Cluster, label_selector,
  selector_mismatch, eviction_blocked, no_owner_workload, after_read, check_owners, check_ref,
  and_then, check_refs, check_pods, blocked, report, evaluate_pods, selected, select, evaluate_pdb,
}

abbrev pub exists_as {ℓ} : {A : Type 0} {B : Type ℓ} → Read A → (A → B) → B → B
exists_as (found a) f b = f a
exists_as missing f b = b
exists_as (failed e) f b = b

module _ (k : Cluster) (ns : String) where
  -- The first deployment among the owners of a replica set is there.
  abbrev pub first_live : List OwnerRef → Bool
  first_live [] = false
  first_live (o ∷ os) =
      let later = first_live os in
      if o.kind == "Deployment"
      then exists_as (k.read_deployment o.name ns) (λ u. true) false
      else later

  -- The owner of a pod is a live workload.
  abbrev pub is_live : OwnerRef → Bool
  is_live r =
      if r.kind == "ReplicaSet"
      then exists_as (k.read_replica_set r.name ns) first_live false
      else if r.kind == "StatefulSet"
      then exists_as (k.read_stateful_set r.name ns) (λ u. true) false
      else if r.kind == "Deployment"
      then exists_as (k.read_deployment r.name ns) (λ u. true) false
      else false

  -- what an analysis that does not raise has found
  abbrev Sees : Bool → Bool → Result String Bool → Type 0
  Sees seen live (raised e) = Unit
  Sees seen live (ok b) = b ≡ (seen || live)

  or_true : (b : Bool) → b || true ≡ true
  or_true true = refl
  or_true false = refl

  or_false : (b : Bool) → b ≡ b || false
  or_false true = refl
  or_false false = refl

  read-Sees :
      (seen : Bool) (r : Read Unit)
      → Sees seen (exists_as r (λ u. true) false) (after_read r seen (λ u. ok true))
  read-Sees seen (found u) = sym (or_true seen)
  read-Sees seen missing = or_false seen
  read-Sees seen (failed e) = tt

  -- once a workload is found, the answer stays
  stays : (seen live : Bool) (r : Result String Bool) → Sees true live r → Sees seen true r
  stays seen live (raised e) h = tt
  stays seen live (ok b) h = h ∙ sym (or_true seen)

  after-Sees :
      (seen live : Bool) (r : Read Unit) (rest : Result String Bool)
      → Sees true live rest
      → Sees seen (exists_as r (λ u. true) false) (after_read r seen (λ u. rest))
  after-Sees seen live (found u) rest h = stays seen live rest h
  after-Sees seen live missing rest h = or_false seen
  after-Sees seen live (failed e) rest h = tt

  check_owners-Sees :
      (os : List OwnerRef) (seen : Bool) → Sees seen (first_live os) (check_owners k ns os seen)
  unfolding check_owners
  check_owners-Sees [] seen = or_false seen
  check_owners-Sees (o ∷ os) seen = elim (Bool-cases (o.kind == "Deployment")) [
    | inl deployment ↦ rw deployment (
        after-Sees seen (first_live os) (k.read_deployment o.name ns) (check_owners k ns os true)
          (check_owners-Sees os true))
    | inr other ↦ rw other (check_owners-Sees os seen)
  ]

  replica_set-Sees :
      (seen : Bool) (r : Read (List OwnerRef))
      → Sees seen
          (exists_as r first_live false)
          (after_read r seen (λ os. check_owners k ns os seen))
  replica_set-Sees seen (found os) = check_owners-Sees os seen
  replica_set-Sees seen missing = or_false seen
  replica_set-Sees seen (failed e) = tt

  check_ref-Sees : (r : OwnerRef) (seen : Bool) → Sees seen (is_live r) (check_ref k ns r seen)
  unfolding check_ref
  check_ref-Sees r seen = elim (Bool-cases (r.kind == "ReplicaSet")) [
    | inl rs ↦ rw rs (replica_set-Sees seen (k.read_replica_set r.name ns))
    | inr no_rs ↦ elim (Bool-cases (r.kind == "StatefulSet")) [
      | inl ss ↦ rw (no_rs, ss) (read-Sees seen (k.read_stateful_set r.name ns))
      | inr no_ss ↦ elim (Bool-cases (r.kind == "Deployment")) [
        | inl d ↦ rw (no_rs, no_ss, d) (read-Sees seen (k.read_deployment r.name ns))
        | inr no_d ↦ rw (no_rs, no_ss, no_d) (or_false seen)
      ]
    ]
  ]

  or_assoc : (a b c : Bool) → (a || b) || c ≡ a || (b || c)
  or_assoc true b c = refl
  or_assoc false b c = refl

  joined :
      (seen x y b : Bool) (r : Result String Bool)
      → b ≡ (seen || x)
      → Sees b y r
      → Sees seen (x || y) r
  joined seen x y b (raised e) h s = tt
  joined seen x y b (ok c) h s = s ∙ (ap (λ z. z || y) h ∙ or_assoc seen x y)

  and_then-Sees :
      (seen x y : Bool) (m : Result String Bool) (f : Bool → Result String Bool)
      → Sees seen x m
      → ((b : Bool) → Sees b y (f b))
      → Sees seen (x || y) (and_then k ns m f)
  and_then-Sees seen x y (raised e) f h s = tt
  and_then-Sees seen x y (ok b) f h s = joined seen x y b (f b) h (s b)

  check_refs-Sees :
      (rs : List OwnerRef) (seen : Bool) → Sees seen (any is_live rs) (check_refs k ns rs seen)
  unfolding check_refs
  check_refs-Sees [] seen = or_false seen
  check_refs-Sees (r ∷ rs) seen =
      and_then-Sees seen (is_live r) (any is_live rs) (check_ref k ns r seen) (check_refs k ns rs)
        (check_ref-Sees r seen) (check_refs-Sees rs)

  check_pods-Sees :
      (ps : List (List OwnerRef)) (seen : Bool)
      → Sees seen (any (λ p. any is_live p) ps) (check_pods k ns ps seen)
  unfolding check_pods
  check_pods-Sees [] seen = or_false seen
  check_pods-Sees (p ∷ ps) seen =
      and_then-Sees seen (any is_live p) (any (λ q. any is_live q) ps) (check_refs k ns p seen)
        (check_pods k ns ps) (check_refs-Sees p seen) (check_pods-Sees ps)

  -- the findings of a budget whose selector gives the pods
  abbrev pub expected : Budget → List (List OwnerRef) → List Finding
  expected pdb [] = selector_mismatch ns pdb ∷ []
  expected pdb (p ∷ ps) =
      (if blocked pdb.disruptions_allowed
        then eviction_blocked ns pdb (length (p ∷ ps)) ∷ []
        else [])
      ++ (if any (λ q. any is_live q) (p ∷ ps) then [] else no_owner_workload ns pdb ∷ [])

  report-expected :
      (pdb : Budget) (n : ℕ) (live : Bool) (r : Result String Bool) (fs : List Finding)
      → Sees false live r
      → report ns pdb n r ≡ ok fs
      → fs
        ≡ (if blocked pdb.disruptions_allowed then eviction_blocked ns pdb n ∷ [] else [])
          ++ (if live then [] else no_owner_workload ns pdb ∷ [])
  unfolding report
  report-expected pdb n live (raised e) fs s h = absurd (cc h)
  report-expected pdb n live (ok b) fs s h = rw (← s) (cc h)

  evaluate_pods-expected :
      (pdb : Budget) (pods : List (List OwnerRef)) (fs : List Finding)
      → evaluate_pods k ns pdb (ok pods) ≡ ok fs
      → fs ≡ expected pdb pods
  unfolding evaluate_pods
  evaluate_pods-expected pdb [] fs h = cc h
  evaluate_pods-expected pdb (p ∷ ps) fs h =
      report-expected pdb (length (p ∷ ps)) (any (λ q. any is_live q) (p ∷ ps))
        (check_pods k ns (p ∷ ps) false) fs (check_pods-Sees (p ∷ ps) false) h

-- If a budget has a selector without match expressions, the client lists its pods, and the analysis does
-- not raise, then its findings are: a mismatch alone if there is no pod; and else a blocked eviction if
-- no disruption is allowed, and a missing owner if no owner of a pod is a live workload, which for a
-- replica set is that the first deployment among its owners is there.
pub evaluate_pdb-expected :
    (k : Cluster) (pdb : Budget) (s : Selector) (pods : List (List OwnerRef)) (fs : List Finding)
    → pdb.selector ≡ some s
    → s.match_expressions ≡ []
    → k.list_pods (text_or pdb.namespace "default") (label_selector s.match_labels) ≡ ok pods
    → evaluate_pdb k pdb ≡ ok fs
    → fs ≡ expected k (text_or pdb.namespace "default") pdb pods
unfolding evaluate_pdb select selected
evaluate_pdb-expected k pdb s pods fs has plain listed h =
    let ns = text_or pdb.namespace "default" in
    evaluate_pods-expected k ns pdb pods fs (
      sym (
        ap (select k ns pdb) has
        ∙ (ap (λ es. selected k ns pdb es s.match_labels) plain
            ∙ ap (evaluate_pods k ns pdb) listed))
      ∙ h)
