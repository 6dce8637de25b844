-- ===== src/Worklist/Tasks.antt =====
-- The task operations of `WorklistDB` in src/worklist.py. Each takes the rows and returns the new
-- ones; the texts of the clocks are arguments. SQLite runs each statement as one step.
use mcp_kubernetes_platform.Prelude.{
  ℕ, Bool, true, false, ◌&&◌, not, String, Option, none, some, List, [], ◌∷◌, ◌++◌, ◌==◌, any, eqb,
  leb, count_if, if◌then◌else◌, ◌<>◌,
}
use mcp_kubernetes_platform.Worklist.Tables.{
  TaskStatus, queued, claimed, in_progress, done, failed, Task, update, is_queued, is_done,
}

-- b.id IN (SELECT value FROM json_each(t.blockers))
abbrev pub lists_blocker : List ℕ → ℕ → Bool
lists_blocker bs i = any (λ b. eqb i b) bs

-- the subquery under NOT EXISTS
unfoldable pub blocks : Task → Task → Bool
blocks t b = lists_blocker t.blockers b.id && not (is_done b.status)

-- the WHERE clause of the selection
unfoldable pub claimable : List Task → Task → Bool
claimable tasks t = is_queued t.status && not (any (blocks t) tasks)

min_or : ℕ → Option ℕ → ℕ
min_or i none = i
min_or i (some j) = if leb i j then i else j

-- SELECT id … ORDER BY id LIMIT 1, over the rows for which the test holds
unfoldable pub least_id : (Task → Bool) → List Task → Option ℕ
unfolding min_or
least_id test [] = none
least_id test (t ∷ ts) =
    let rest = least_id test ts in if test t then some (min_or t.id rest) else rest

-- the assignments of `_CLAIM_UPDATE`
abbrev pub claimed_for : String → String → Task → Task
claimed_for agent_id now t = record t {
  status = claimed;
  claimed_by = some agent_id;
  claimed_at = some now;
}

abbrev pub has_id : ℕ → Task → Bool
has_id i t = eqb t.id i

-- the first row for which the test holds
unfoldable pub find : (Task → Bool) → List Task → Option Task
find test [] = none
find test (t ∷ ts) = let rest = find test ts in if test t then some t else rest

-- `_row_to_task`: the columns that RETURNING names
abbrev pub row_to_task : Task → Task
row_to_task t = record t { completed_at = none; pr_url = none }

unfoldable pub claim_id : String → String → Option ℕ → List Task → Option Task × List Task
claim_id agent_id now none tasks = (none, tasks)
claim_id agent_id now (some i) tasks =
    let after = update (has_id i) (claimed_for agent_id now) tasks in
    (elim (find (has_id i) after) [ none ↦ none | some t ↦ some (row_to_task t) ], after)

unfoldable pub claim_next : String → String → List Task → Option Task × List Task
unfolding claim_id
claim_next agent_id now tasks = claim_id agent_id now (least_id (claimable tasks) tasks) tasks

-- WHERE id=? AND claimed_by=?
unfoldable pub is_owned : ℕ → String → Task → Bool
is_owned i agent_id t = eqb t.id i && elim t.claimed_by [ none ↦ false | some a ↦ a == agent_id ]

unfoldable pub mark_in_progress : ℕ → String → List Task → List Task
mark_in_progress i agent_id = update (is_owned i agent_id) (λ t. record t { status = in_progress })

unfoldable pub complete : ℕ → String → String → String → List Task → List Task
complete i agent_id pr_url now =
    update (is_owned i agent_id)
      (λ t. record t { status = done; completed_at = some now; pr_url = some pr_url })

unfoldable pub fail : ℕ → String → String → String → List Task → List Task
fail i agent_id reason now = update (is_owned i agent_id) (λ t. record t {
  status = failed;
  completed_at = some now;
  pr_url = some ("FAILED: " <> reason);
})

-- a dict that `seed` is given
pub record Seed : Type 0 where
  pub prd_section : String
  pub title : String
  pub blockers : List ℕ
  pub deliverable_paths : List String

-- the UNIQUE constraint
unfoldable pub same_key : Seed → Task → Bool
same_key s t = t.prd_section == s.prd_section && t.title == s.title

-- A new row has the defaults of the table; `i` is the key that SQLite gives it.
abbrev pub new_task : ℕ → Seed → Task
new_task i s = record {
  id = i;
  prd_section = s.prd_section;
  title = s.title;
  blockers = s.blockers;
  deliverable_paths = s.deliverable_paths;
  status = queued;
  claimed_by = none;
  claimed_at = none;
  completed_at = none;
  pr_url = none;
}

-- `alloc` is SQLite's AUTOINCREMENT.
module _ (alloc : List Task → ℕ) where
  -- INSERT OR IGNORE
  unfoldable pub insert_or_ignore : Seed → List Task → List Task
  insert_or_ignore s tasks =
      if any (same_key s) tasks then tasks else tasks ++ new_task (alloc tasks) s ∷ []

  unfoldable pub seed : List Seed → List Task → List Task
  seed [] tasks = tasks
  seed (s ∷ rest) tasks = seed rest (insert_or_ignore s tasks)

unfoldable pub has_status : TaskStatus → Task → Bool
has_status queued t = is_queued t.status
has_status claimed t = elim t.status [ claimed ↦ true | _ ↦ false ]
has_status in_progress t = elim t.status [ in_progress ↦ true | _ ↦ false ]
has_status done t = is_done t.status
has_status failed t = elim t.status [ failed ↦ true | _ ↦ false ]

-- one group of GROUP BY, if it has a row
unfoldable pub group : TaskStatus → List Task → List (TaskStatus × ℕ)
group s tasks = let n = count_if (has_status s) tasks in if eqb n 0 then [] else (s, n) ∷ []

unfoldable pub count_by_status : List Task → List (TaskStatus × ℕ)
count_by_status tasks =
    group queued tasks
    ++ group claimed tasks
    ++ group in_progress tasks
    ++ group done tasks
    ++ group failed tasks
