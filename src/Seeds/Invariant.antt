-- ===== src/Seeds/Invariant.antt =====
-- What the `while` loop of `topological_sort` keeps, and that it ends.
use mcp_kubernetes_platform.Prelude.{
  ℕ, zero, suc, ◌+◌, ◌-◌, ◌&&◌, length-append, ◌≤◌, ◌≡◌, refl, sym, ap, ◌∙◌, true, some, List, [],
  ◌∷◌, ◌++◌, All, All-append, arith, eqb, ltb, length, eqb_refl, if◌then◌else◌, append_assoc,
  append-nil,
}
use mathlib.Core.Path.{subst}
use mcp_kubernetes_platform.Seeds.Plan.{
  member, PlannedTask, ids, keys, sorted, task_of, edges, Graph, Kahn, append_task, visit,
  kahn_loop, no_edges, start,
}
use mcp_kubernetes_platform.Seeds.Counting.{
  occurs, occurs-append, occurs-sorted, occurs-keep, occurs-keys, length-le,
}
use mcp_kubernetes_platform.Seeds.Relaxing.{relax-ordered, relax-degree, relax-queue}
use mcp_kubernetes_platform.Seeds.Edges.{
  build, edge, wait, build-degree, build-dependents, wait-nil, wait-snoc,
}
use mcp_kubernetes_platform.Seeds.Blockers.{task_of-id, task_of-known, edge-known, wait-blockers}

-- Each blocker of a task is among the ids before it.
abbrev pub Follows : List ℕ → List PlannedTask → Type 0
Follows seen [] = Unit
Follows seen (t ∷ ts) = All (λ b. member b seen ≡ true) t.blockers × Follows (seen ++ t.id ∷ []) ts

-- the task that the dict has for its id
abbrev pub IsTaskOf : List PlannedTask → PlannedTask → Type 0
IsTaskOf tasks t = task_of t.id tasks ≡ some t

-- `q` is what is left of the queue.
pub record IsSound (tasks : List PlannedTask) (q : List ℕ) (s : Kahn) : Type 0 where
  pub degrees : (i : ℕ) → s.in_degree i ≡ wait (ids s.ordered) i (edges tasks)
  pub places :
      (i : ℕ)
      → occurs i (ids s.ordered) + occurs i q
        ≡ (if eqb (wait (ids s.ordered) i (edges tasks)) 0 then occurs i (keys (ids tasks)) else 0)
  pub follows : Follows [] s.ordered
  pub tasks_of : All (IsTaskOf tasks) s.ordered

ids-snoc : (ts : List PlannedTask) (t : PlannedTask) → ids (ts ++ t ∷ []) ≡ ids ts ++ t.id ∷ []
ids-snoc [] t = refl
ids-snoc (u ∷ ts) t = ap (λ is. u.id ∷ is) (ids-snoc ts t)

Follows-snoc :
    (seen : List ℕ) (ts : List PlannedTask) (t : PlannedTask)
    → Follows seen ts
    → All (λ b. member b (seen ++ ids ts) ≡ true) t.blockers
    → Follows seen (ts ++ t ∷ [])
Follows-snoc seen [] t h k =
    (subst (λ is. All (λ b. member b is ≡ true) t.blockers) (append-nil seen) k, tt)
Follows-snoc seen (u ∷ ts) t h k = (
  h.0,
  Follows-snoc (seen ++ u.id ∷ []) ts t h.1 (
      subst (λ is. All (λ b. member b is ≡ true) t.blockers)
        (sym (append_assoc seen (u.id ∷ []) (ids ts))) k),
)

pub length-ids : (ts : List PlannedTask) → length (ids ts) ≡ length ts
length-ids [] = refl
length-ids (t ∷ ts) = ap suc (length-ids ts)

-- at most one place of an id, and of an id of the tasks
places-known :
    (tasks : List PlannedTask) (tid : ℕ) (q : List ℕ) (s : Kahn)
    → IsSound tasks (tid ∷ q) s
    → (occurs tid (ids s.ordered) ≡ 0)
      × (wait (ids s.ordered) tid (edges tasks) ≡ 0)
      × (1 ≤ occurs tid (ids tasks))
places-known tasks tid q s h = (
  ground (arith, eqb_refl tid, h.places tid, occurs-keys tid (ids tasks)),
  ground (arith, eqb_refl tid, h.places tid, occurs-keys tid (ids tasks)),
  ground (arith, eqb_refl tid, h.places tid, occurs-keys tid (ids tasks)),
)

module _ (tasks : List PlannedTask) (g : Graph) (g_is : g ≡ build (edges tasks) no_edges) where
  dependents-edge : (i tid : ℕ) → occurs i (sorted (g.dependents tid)) ≡ edge i tid (edges tasks)
  dependents-edge i tid = omega (
    arith,
    occurs-sorted i (g.dependents tid),
    ap (λ h. occurs i (h.dependents tid)) g_is,
    build-dependents (edges tasks) no_edges i tid,
  )

  pub start-IsSound : IsSound tasks (start tasks g).queue (start tasks g)
  unfolding start
  start-IsSound = record {
    degrees = λ i. omega (
      arith,
      ap (λ h. h.in_degree i) g_is,
      build-degree (edges tasks) no_edges i,
      wait-nil (edges tasks) i,
    );
    places = λ i. ground (
      arith,
      ap (λ h. h.in_degree i) g_is,
      build-degree (edges tasks) no_edges i,
      wait-nil (edges tasks) i,
      occurs-keep (λ j. eqb (g.in_degree j) 0) i (sorted (keys (ids tasks))),
      occurs-sorted i (keys (ids tasks)),
    );
    follows = tt;
    tasks_of = tt;
  }

  pub visit-ordered :
      (tid : ℕ) (q : List ℕ) (s : Kahn) (t : PlannedTask)
      → task_of tid tasks ≡ some t
      → (visit tasks g tid q s).ordered ≡ s.ordered ++ t ∷ []
  unfolding visit append_task
  visit-ordered tid q s t h =
      relax-ordered (sorted (g.dependents tid)) _ ∙ ap (λ o. append_task o s.ordered) h

  visit-ids :
      (tid : ℕ) (q : List ℕ) (s : Kahn) (t : PlannedTask)
      → task_of tid tasks ≡ some t
      → ids (visit tasks g tid q s).ordered ≡ ids s.ordered ++ tid ∷ []
  visit-ids tid q s t h =
      ap ids (visit-ordered tid q s t h)
      ∙ (ids-snoc s.ordered t ∙ ap (λ k. ids s.ordered ++ k ∷ []) (task_of-id tid tasks t h))

  visit-degree :
      (tid : ℕ) (q : List ℕ) (s : Kahn) (i : ℕ)
      → (visit tasks g tid q s).in_degree i ≡ s.in_degree i - edge i tid (edges tasks)
  unfolding visit
  visit-degree tid q s i =
      relax-degree (sorted (g.dependents tid)) _ i
      ∙ ap (λ n. s.in_degree i - n) (dependents-edge i tid)

  visit-queue :
      (tid : ℕ) (q : List ℕ) (s : Kahn)
      → ((i : ℕ) → edge i tid (edges tasks) ≤ s.in_degree i)
      → (i : ℕ)
      → occurs i (visit tasks g tid q s).queue
        ≡ occurs i q
          + (if ltb 0 (edge i tid (edges tasks)) && eqb (s.in_degree i) (edge i tid (edges tasks))
              then 1
              else 0)
  unfolding visit
  visit-queue tid q s h i =
      rw (← dependents-edge i tid) (
        relax-queue (sorted (g.dependents tid)) _ (λ j. omega (arith, h j, dependents-edge j tid))
          i)

  pub visit-IsSound :
      (tid : ℕ) (q : List ℕ) (s : Kahn)
      → IsSound tasks (tid ∷ q) s
      → IsSound tasks (visit tasks g tid q s).queue (visit tasks g tid q s)
  visit-IsSound tid q s h =
      let known = places-known tasks tid q s h in
      let t = task_of-known tid tasks known.2 in
      let done = ids s.ordered in
      let is = visit-ids tid q s t.0 t.1 in
      let less = λ (i : ℕ). wait-snoc (edges tasks) done tid i known.0 in
      record {
        degrees = λ i. rw is (omega (arith, visit-degree tid q s i, h.degrees i, less i));
        places = λ i. rw is (
            ground (
              arith,
              occurs-append i done (tid ∷ []),
              visit-queue tid q s (λ j. omega (arith, h.degrees j, less j)) i,
              h.degrees i,
              less i,
              h.places i,
              occurs-keys i (ids tasks),
              edge-known i tid tasks,
            ));
        follows = subst (Follows []) (sym (visit-ordered tid q s t.0 t.1)) (
            Follows-snoc [] s.ordered t.0 h.follows (wait-blockers tid done tasks t.0 t.1 known.1));
        tasks_of = subst (All (IsTaskOf tasks)) (sym (visit-ordered tid q s t.0 t.1)) (
            All-append (IsTaskOf tasks) s.ordered (t.0 ∷ []) h.tasks_of
              (ap (λ k. task_of k tasks) (task_of-id tid tasks t.0 t.1) ∙ t.1, tt));
      }

  -- The loop ends with the fuel that it has, sound and with an empty queue.
  pub kahn_loop-ends :
      (fuel : ℕ) (q : List ℕ) (s : Kahn)
      → s.queue ≡ q
      → IsSound tasks q s
      → length tasks ≤ fuel + length s.ordered
      → (s' : Kahn) × (kahn_loop fuel tasks g q s ≡ some s') × IsSound tasks [] s'
  unfolding kahn_loop
  kahn_loop-ends fuel [] s e h enough = (s, refl, h)
  kahn_loop-ends zero (tid ∷ q) s e h enough = absurd (
      omega (
        arith,
        enough,
        length-ids tasks,
        length-ids s.ordered,
        length-le (tid ∷ ids s.ordered) (ids tasks)
            (λ i. ground (arith, h.places i, occurs-keys i (ids tasks))),
      ))
  kahn_loop-ends (suc fuel) (tid ∷ q) s e h enough =
      let s' = visit tasks g tid q s in
      let t = task_of-known tid tasks (places-known tasks tid q s h).2 in
      kahn_loop-ends fuel s'.queue s' refl (visit-IsSound tid q s h) (
        omega (
          arith,
          enough,
          ap length (visit-ordered tid q s t.0 t.1),
          length-append s.ordered (t.0 ∷ []),
        ))
