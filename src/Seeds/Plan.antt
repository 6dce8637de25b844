-- ===== src/Seeds/Plan.antt =====
-- `topological_sort`. The dicts are functions on the ids, with the ids of the tasks as their keys.
use mcp_kubernetes_platform.Prelude.{
  ℕ, zero, suc, ◌-◌, ◌+◌, Bool, not, String, Option, none, some, List, [], ◌∷◌, ◌++◌, map, eqb, leb,
  any, keep, length, if◌then◌else◌,
}
use mcp_kubernetes_platform.Prelude.Effects.{Result, ok, raised}

-- a dict of the seed
pub record PlannedTask : Type 0 where
  pub id : ℕ
  pub prd_section : String
  pub title : String
  pub blockers : List ℕ
  pub deliverable_paths : List String

-- KeyError and ValueError; `out_of_fuel` is the model's own.
pub data SortError : Type 0 where
  key_error : ℕ → SortError
  cycle_error : List ℕ → SortError
  out_of_fuel : SortError

abbrev pub member : ℕ → List ℕ → Bool
member i is = any (λ j. eqb i j) is

abbrev pub ids : List PlannedTask → List ℕ
ids ts = map (λ t. t.id) ts

-- the keys of a dict with one entry for each id, in the order of their first places
unfoldable pub keys : List ℕ → List ℕ
keys [] = []
keys (i ∷ is) = i ∷ keep (λ j. not (eqb i j)) (keys is)

-- `sorted`
unfoldable pub insert_sorted : ℕ → List ℕ → List ℕ
insert_sorted i [] = i ∷ []
insert_sorted i (j ∷ js) = if leb i j then i ∷ j ∷ js else j ∷ insert_sorted i js

unfoldable pub sorted : List ℕ → List ℕ
sorted [] = []
sorted (i ∷ is) = insert_sorted i (sorted is)

-- id_to_task[tid]: the last task with the id
unfoldable pub task_of : ℕ → List PlannedTask → Option PlannedTask
task_of i [] = none
task_of i (t ∷ ts) =
    let later = task_of i ts in
    elim later [ some u ↦ some u | none ↦ if eqb t.id i then some t else none ]

-- the pairs of a task and a blocker that the two nested loops go through, in their order
abbrev pub edges_of : ℕ → List ℕ → List (ℕ × ℕ)
edges_of i bs = map (λ b. (i, b)) bs

unfoldable pub edges : List PlannedTask → List (ℕ × ℕ)
edges [] = []
edges (t ∷ ts) = edges_of t.id t.blockers ++ edges ts

pub record Graph : Type 0 where
  pub in_degree : ℕ → ℕ
  pub dependents : ℕ → List ℕ

-- d[k] = v
abbrev pub set : {A : Type 0} → ℕ → A → (ℕ → A) → ℕ → A
set k v d i = if eqb k i then v else d i

unfoldable pub add_edge : ℕ → ℕ → Graph → Graph
add_edge i b g = record {
  in_degree = set i (g.in_degree i + 1) g.in_degree;
  dependents = set b (g.dependents b ++ i ∷ []) g.dependents;
}

-- `dependents` has an entry for the ids of the tasks only.
unfoldable pub add_edges : List ℕ → List (ℕ × ℕ) → Graph → Result SortError Graph
add_edges known [] g = ok g
add_edges known ((i, b) ∷ es) g =
    let rest = add_edges known es (add_edge i b g) in
    if member b known then rest else raised (key_error b)

-- The loop's variables; `in_degree` is that of the graph at first.
pub record Kahn : Type 0 where
  pub in_degree : ℕ → ℕ
  pub queue : List ℕ
  pub ordered : List PlannedTask

-- the body of the inner loop
unfoldable pub relax_one : ℕ → Kahn → Kahn
relax_one d s =
    let left = s.in_degree d - 1 in
    record s {
      in_degree = set d left s.in_degree;
      queue = if eqb left 0 then s.queue ++ d ∷ [] else s.queue;
    }

unfoldable pub relax : List ℕ → Kahn → Kahn
relax [] s = s
relax (d ∷ ds) s = relax ds (relax_one d s)

-- ordered.append(id_to_task[tid])
unfoldable pub append_task : Option PlannedTask → List PlannedTask → List PlannedTask
append_task none ordered = ordered
append_task (some t) ordered = ordered ++ t ∷ []

-- the body of the `while` loop, when `tid` is popped and `q` is left of the queue
unfoldable pub visit : List PlannedTask → Graph → ℕ → List ℕ → Kahn → Kahn
visit tasks g tid q s =
    relax (sorted (g.dependents tid))
      (record s { queue = q; ordered = append_task (task_of tid tasks) s.ordered })

-- the `while` loop; `none` is a loop that was given too little fuel
unfoldable pub kahn_loop : ℕ → List PlannedTask → Graph → List ℕ → Kahn → Option Kahn
kahn_loop fuel tasks g [] s = some s
kahn_loop zero tasks g (tid ∷ q) s = none
kahn_loop (suc fuel) tasks g (tid ∷ q) s =
    let s' = visit tasks g tid q s in kahn_loop fuel tasks g s'.queue s'

unfoldable pub conclude : List PlannedTask → Option Kahn → Result SortError (List PlannedTask)
conclude tasks none = raised out_of_fuel
conclude tasks (some s) =
    if eqb (length s.ordered) (length tasks)
    then ok s.ordered
    else raised (cycle_error (keep (λ i. not (member i (ids s.ordered))) (ids tasks)))

abbrev pub no_edges : Graph
no_edges = record { in_degree = λ i. 0; dependents = λ i. [] }

-- the first queue: the keys with no blocker, sorted
unfoldable pub start : List PlannedTask → Graph → Kahn
start tasks g = record {
  in_degree = g.in_degree;
  queue = keep (λ i. eqb (g.in_degree i) 0) (sorted (keys (ids tasks)));
  ordered = [];
}

unfoldable pub sort_graph : List PlannedTask → Graph → Result SortError (List PlannedTask)
sort_graph tasks g =
    let s = start tasks g in conclude tasks (kahn_loop (length tasks) tasks g s.queue s)

-- A loop visits each key at most once, so as much fuel as there are tasks is enough.
unfoldable pub topological_sort : List PlannedTask → Result SortError (List PlannedTask)
topological_sort tasks = elim (add_edges (ids tasks) (edges tasks) no_edges) [
  | raised e ↦ raised e
  | ok g ↦ sort_graph tasks g
]
