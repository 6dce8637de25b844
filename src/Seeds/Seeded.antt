-- ===== src/Seeds/Seeded.antt =====
-- The seed in the worklist: `WorklistDB.seed` on tasks that `topological_sort` can order.
use mathlib.Core.Path.{subst}
use mathlib.Core.List.{map-append}
use mcp_kubernetes_platform.Prelude.{
  ℕ, suc, ◌+◌, ◌≤◌, ◌<◌, ◌≡◌, refl, sym, ap, ◌∙◌, inl, inr, true, false, String, Option, none, some,
  List, [], ◌∷◌, ◌++◌, ◌==◌, ◌&&◌, append_assoc, append-nil, arith, any, length, length-append, map,
  eqb, eqb→eq, eqb_refl, All, Any, All-map, Any-map, Bool-cases,
}
use mcp_kubernetes_platform.Prelude.Effects.{ok}
use mcp_kubernetes_platform.Worklist.Tables.{Task, is_queued}
use mcp_kubernetes_platform.Worklist.Tasks.{
  Seed, same_key, new_task, insert_or_ignore, seed, claim_next,
}
use mcp_kubernetes_platform.Worklist.Progress.{IsQuiet}
use mcp_kubernetes_platform.Seeds.Plan.{PlannedTask, ids, task_of, topological_sort}
use mcp_kubernetes_platform.Seeds.Counting.{occurs}
use mcp_kubernetes_platform.Seeds.Order.{topological_sort-Follows}
use mcp_kubernetes_platform.Seeds.Progress.{IsRowOf, rows-claim_next}

-- what `seed` takes of a task: not the id
abbrev pub seed_of : PlannedTask → Seed
seed_of t = record {
  prd_section = t.prd_section;
  title = t.title;
  blockers = t.blockers;
  deliverable_paths = t.deliverable_paths;
}

abbrev pub row_of : PlannedTask → Task
row_of t = new_task t.id (seed_of t)

-- The ids go up by one from `n`.
abbrev pub AreNumbered : ℕ → List PlannedTask → Type 0
AreNumbered n [] = Unit
AreNumbered n (t ∷ ts) = (t.id ≡ n) × AreNumbered (suc n) ts

-- No task has the section and the title of an earlier one.
abbrev pub AreDistinct : List PlannedTask → List PlannedTask → Type 0
AreDistinct seen [] = Unit
AreDistinct seen (t ∷ ts) =
    (any (λ u. u.prd_section == t.prd_section && u.title == t.title) seen ≡ false)
    × AreDistinct (seen ++ t ∷ []) ts

-- AUTOINCREMENT: after rows with the keys from 1 on comes the next number.
abbrev pub IsAutoincrement : (List Task → ℕ) → Type 0
IsAutoincrement alloc =
    (us : List PlannedTask) → AreNumbered 1 us → alloc (map row_of us) ≡ suc (length us)

numbered_snoc :
    (n : ℕ) (us : List PlannedTask) (t : PlannedTask)
    → AreNumbered n us
    → t.id ≡ n + length us
    → AreNumbered n (us ++ t ∷ [])
numbered_snoc n [] t h e = (omega (arith, e), tt)
numbered_snoc n (u ∷ us) t h e = (h.0, numbered_snoc (suc n) us t h.1 (omega (arith, e)))

any-same_key :
    (t : PlannedTask) (us : List PlannedTask)
    → any (same_key (seed_of t)) (map row_of us)
      ≡ any (λ u. u.prd_section == t.prd_section && u.title == t.title) us
unfolding same_key
any-same_key t [] = refl
any-same_key t (u ∷ us) = ground (arith, any-same_key t us)

module _ (alloc : List Task → ℕ) (auto : IsAutoincrement alloc) where
  insert-new :
      (t : PlannedTask) (rows : List Task)
      → any (same_key (seed_of t)) rows ≡ false
      → alloc rows ≡ t.id
      → insert_or_ignore alloc (seed_of t) rows ≡ rows ++ row_of t ∷ []
  unfolding insert_or_ignore
  insert-new t rows new key = rw (new, key) refl

  seed-map :
      (ts us : List PlannedTask)
      → AreNumbered 1 us
      → AreNumbered (suc (length us)) ts
      → AreDistinct us ts
      → seed alloc (map seed_of ts) (map row_of us) ≡ map row_of (us ++ ts)
  unfolding seed
  seed-map [] us first next distinct = ap (map row_of) (sym (append-nil us))
  seed-map (t ∷ ts) us first next distinct =
      let key : alloc (map row_of us) ≡ t.id = auto us first ∙ sym next.0 in
      let rows : map row_of us ++ row_of t ∷ [] ≡ map row_of (us ++ t ∷ []) =
        sym (map-append row_of us (t ∷ [])) in
      let more = length-append us (t ∷ []) in
      let rest =
        seed-map ts (us ++ t ∷ []) (numbered_snoc 1 us t first (omega (arith, next.0)))
          (subst (λ n. AreNumbered n ts) (omega (arith, more)) next.1) distinct.1 in
      ap (seed alloc (map seed_of ts))
        (insert-new t (map row_of us) (any-same_key t us ∙ distinct.0) key ∙ rows)
      ∙ rest
      ∙ ap (map row_of) (append_assoc us (t ∷ []) ts)

numbered_above :
    (n i : ℕ) (ts : List PlannedTask)
    → AreNumbered n ts
    → i < n
    → (occurs i (ids ts) ≡ 0) × (task_of i ts ≡ none)
unfolding task_of
numbered_above n i [] h less = (refl, refl)
numbered_above n i (t ∷ ts) h less =
    let later = numbered_above (suc n) i ts h.1 (omega (arith, less)) in
    (ground (arith, h.0, less, later.0), ground (arith, h.0, less, later.1))

numbered_once : (n i : ℕ) (ts : List PlannedTask) → AreNumbered n ts → occurs i (ids ts) ≤ 1
numbered_once n i [] h = omega arith
numbered_once n i (t ∷ ts) h = elim (Bool-cases (eqb i t.id)) [
  | inl e ↦
      let same : i ≡ n = eqb→eq i t.id e ∙ h.0 in
      ground (arith, e, (numbered_above (suc n) i ts h.1 (omega (arith, same))).0)
  | inr e ↦ ground (arith, e, numbered_once (suc n) i ts h.1)
]

numbered-task_of :
    (n : ℕ) (ts : List PlannedTask)
    → AreNumbered n ts
    → All (λ t. (task_of t.id ts ≡ some t) × (1 ≤ occurs t.id (ids ts))) ts
unfolding task_of
numbered-task_of n [] h = tt
numbered-task_of n (t ∷ ts) h = (
  (
    ground (arith, eqb_refl t.id, (numbered_above (suc n) t.id ts h.1 (omega (arith, h.0))).1),
    ground (arith, eqb_refl t.id),
  ),
  All-map (λ u p. (ground (arith, p.0), ground (arith, p.1))) ts (numbered-task_of (suc n) ts h.1),
)

occurs-Any : (i : ℕ) (ts : List PlannedTask) → 1 ≤ occurs i (ids ts) → Any (λ t. t.id ≡ i) ts
occurs-Any i [] h = absurd (omega (arith, h))
occurs-Any i (t ∷ ts) h = elim (Bool-cases (eqb i t.id)) [
  | inl e ↦ inl (sym (eqb→eq i t.id e))
  | inr e ↦ inr (occurs-Any i ts (ground (arith, h, e)))
]

Any-both :
    (P Q : PlannedTask → Type 0) (ts : List PlannedTask)
    → All P ts
    → Any Q ts
    → Any (λ t. P t × Q t) ts
Any-both P Q [] h a = absurd a
Any-both P Q (t ∷ ts) h (inl q) = inl (h.0, q)
Any-both P Q (t ∷ ts) h (inr a) = inr (Any-both P Q ts h.1 a)

task_or : PlannedTask → Option PlannedTask → PlannedTask
task_or t none = t
task_or t (some u) = u

-- a task of the plan with the id is the task
same_task :
    (ts : List PlannedTask) (p u : PlannedTask)
    → task_of p.id ts ≡ some p
    → p.id ≡ u.id
    → task_of u.id ts ≡ some u
    → p ≡ u
unfolding task_or
same_task ts p u hp same hu = ap (task_or p) (sym hp ∙ ap (λ i. task_of i ts) same ∙ hu)

in_plan :
    (ts plan : List PlannedTask)
    → topological_sort ts ≡ ok plan
    → AreNumbered 1 ts
    → All (λ u. IsRowOf plan (row_of u)) ts
in_plan ts plan sorted numbered =
    All-map
      (λ u h.
        let follows = topological_sort-Follows ts plan u.id sorted in
        let there = occurs-Any u.id plan (omega (arith, h.1, follows.0)) in
        Any-map (λ p q. (q.1, ap (λ t. t.blockers) (same_task ts p u q.0 q.1 h.0))) plan
          (Any-both _ _ plan follows.2 there))
      ts (numbered-task_of 1 ts numbered)

-- what the methods never change in a row
abbrev pub frame : Task → ℕ × List ℕ
frame t = (t.id, t.blockers)

first_of : (ℕ × List ℕ) → List (ℕ × List ℕ) → ℕ × List ℕ
first_of d [] = d
first_of d (x ∷ xs) = x

others_of : List (ℕ × List ℕ) → List (ℕ × List ℕ)
others_of [] = []
others_of (x ∷ xs) = xs

frames-rows :
    (plan ts : List PlannedTask) (tasks : List Task)
    → map frame tasks ≡ map frame (map row_of ts)
    → All (λ u. IsRowOf plan (row_of u)) ts
    → All (IsRowOf plan) tasks
unfolding first_of others_of
frames-rows plan ts [] e h = tt
frames-rows plan [] (t ∷ tasks) e h = absurd (cc e)
frames-rows plan (u ∷ us) (t ∷ tasks) e h =
    let same = ap (first_of (frame t)) e in
    (
      Any-map (λ p q. (q.0 ∙ sym (ap (λ f. f.0) same), q.1 ∙ sym (ap (λ f. f.1) same))) plan h.0,
      frames-rows plan us tasks (ap others_of e) h.1,
    )

-- Seeding does not get stuck. The tasks have the ids 1, 2 and so on in this order, no two of them
-- have both section and title in common, `topological_sort` finds them a plan, and they are seeded,
-- in the order of their ids, into an empty table. Then in any table with the ids and the blockers of
-- the seeded rows, which no method changes, in which each row is queued or done and one is queued,
-- `claim_next` hands out a task.
pub seed-claim_next :
    (alloc : List Task → ℕ) (ts plan : List PlannedTask) (tasks : List Task) (agent_id now : String)
    → IsAutoincrement alloc
    → topological_sort ts ≡ ok plan
    → AreNumbered 1 ts
    → AreDistinct [] ts
    → map frame tasks ≡ map frame (seed alloc (map seed_of ts) [])
    → All IsQuiet tasks
    → Any (λ t. is_queued t.status ≡ true) tasks
    → (t : Task) × ((claim_next agent_id now tasks).0 ≡ some t)
seed-claim_next alloc ts plan tasks agent_id now auto sorted numbered distinct frames quiet
      waiting =
    let seeded = seed-map alloc auto ts [] tt numbered distinct in
    rows-claim_next ts plan tasks agent_id now sorted (λ i. numbered_once 1 i ts numbered)
      (frames-rows plan ts tasks (frames ∙ ap (map frame) seeded) (in_plan ts plan sorted numbered))
      quiet waiting
