-- ===== src/Tests/Seeds.antt =====
-- Runs of the worklist's seed.
use mcp_kubernetes_platform.Prelude.{
  ℕ, suc, length, map, ap, sym, some, inl, ◌≤◌, ◌≡◌, ◌≢◌, refl, true, List, [], ◌∷◌, All, arith,
  eqb, if◌then◌else◌,
}
use mcp_kubernetes_platform.Prelude.Effects.{Result, ok, raised}
use mcp_kubernetes_platform.Seeds.Plan.{
  member, PlannedTask, SortError, key_error, cycle_error, ids, keys, sorted, insert_sorted, task_of,
  edges, add_edge, add_edges, relax_one, relax, append_task, visit, kahn_loop, conclude, start,
  sort_graph, topological_sort,
}
use mcp_kubernetes_platform.Seeds.Canonical.{canonical_tasks}
use mcp_kubernetes_platform.Seeds.Counting.{occurs}
use mcp_kubernetes_platform.Seeds.Edges.{edge}
use mcp_kubernetes_platform.Seeds.Invariant.{Follows, IsTaskOf}
use mcp_kubernetes_platform.Seeds.Order.{topological_sort-Follows, topological_sort-cycle_error}
use mcp_kubernetes_platform.Worklist.Tables.{Task}
use mcp_kubernetes_platform.Worklist.Tasks.{claim_next, seed, insert_or_ignore, same_key}
use mcp_kubernetes_platform.Seeds.Seeded.{IsAutoincrement, seed_of, row_of, frame, seed-claim_next}
use mcp_kubernetes_platform.Seeds.Acyclic.{topological_sort-returns}

abbrev ids_of : Result SortError (List PlannedTask) → List ℕ
ids_of (ok ts) = ids ts
ids_of (raised e) = []

canonical_order :
    ids_of (topological_sort canonical_tasks)
    ≡ 1 ∷ 10 ∷ 14 ∷ 16 ∷ 17 ∷ 19 ∷ 2 ∷ 3 ∷ 4 ∷ 5 ∷ 6 ∷ 7 ∷ 8 ∷ 9 ∷ 22 ∷ 11 ∷ 18 ∷ 23 ∷ 12 ∷ 20 ∷ 13
      ∷ 15 ∷ 24 ∷ 21 ∷ 25 ∷ []
unfolding topological_sort sort_graph start kahn_loop visit append_task task_of relax relax_one
    add_edges add_edge edges sorted insert_sorted keys conclude
canonical_order = refl

abbrev task : ℕ → List ℕ → PlannedTask
task i bs = record {
  id = i;
  prd_section = "1";
  title = if eqb i 1 then "a" else if eqb i 2 then "b" else "c";
  blockers = bs;
  deliverable_paths = [];
}

-- the second waits for the third
abbrev three : List PlannedTask
three = task 1 [] ∷ task 2 (1 ∷ 3 ∷ []) ∷ task 3 (1 ∷ []) ∷ []

abbrev ring : List PlannedTask
ring = task 1 [] ∷ task 2 (3 ∷ []) ∷ task 3 (2 ∷ []) ∷ []

abbrev rank_of : ℕ → ℕ
rank_of i = if eqb i 2 then 4 else i

three_sorted : topological_sort three ≡ ok (task 1 [] ∷ task 3 (1 ∷ []) ∷ task 2 (1 ∷ 3 ∷ []) ∷ [])
unfolding topological_sort sort_graph start kahn_loop visit append_task task_of relax relax_one
    add_edges add_edge edges sorted insert_sorted keys conclude
three_sorted = refl

topological_sort-Follows_example :
    (occurs 3 (ids (task 1 [] ∷ task 3 (1 ∷ []) ∷ task 2 (1 ∷ 3 ∷ []) ∷ [])) ≡ occurs 3 (ids three))
    × Follows [] (task 1 [] ∷ task 3 (1 ∷ []) ∷ task 2 (1 ∷ 3 ∷ []) ∷ [])
    × All (IsTaskOf three) (task 1 [] ∷ task 3 (1 ∷ []) ∷ task 2 (1 ∷ 3 ∷ []) ∷ [])
topological_sort-Follows_example =
    topological_sort-Follows three (task 1 [] ∷ task 3 (1 ∷ []) ∷ task 2 (1 ∷ 3 ∷ []) ∷ []) 3
      three_sorted

ring_raises : topological_sort ring ≡ raised (cycle_error (2 ∷ 3 ∷ []))
unfolding topological_sort sort_graph start kahn_loop visit append_task task_of relax relax_one
    add_edges add_edge edges sorted insert_sorted keys conclude
ring_raises = refl

abbrev both : List ℕ
both = 2 ∷ 3 ∷ []

topological_sort-cycle_error_example :
    (both ≢ [])
    × ((i : ℕ)
        → member i (both) ≡ true
        → (member i (ids ring) ≡ true)
          × ((b : ℕ) × (1 ≤ edge i b (edges ring)) × (member b (both) ≡ true)))
topological_sort-cycle_error_example =
    topological_sort-cycle_error ring (both) (λ i. ground arith) ring_raises

-- Two tasks with the id 1: the error names no id.
abbrev twice : List PlannedTask
twice = task 1 [] ∷ task 1 [] ∷ []

twice_raises : topological_sort twice ≡ raised (cycle_error [])
unfolding topological_sort sort_graph start kahn_loop visit append_task task_of relax relax_one
    add_edges add_edge edges sorted insert_sorted keys conclude
twice_raises = refl

abbrev lost : List PlannedTask
lost = task 1 (7 ∷ []) ∷ []

lost_raises : topological_sort lost ≡ raised (key_error 7)
unfolding topological_sort add_edges edges
lost_raises = refl

topological_sort-returns_example : (plan : List PlannedTask) × (topological_sort three ≡ ok plan)
unfolding edges
topological_sort-returns_example =
    topological_sort-returns three rank_of (λ i. ground arith) (refl, (refl, (refl, tt)))
      (omega arith, (omega arith, (omega arith, tt)))

abbrev next_key : List Task → ℕ
next_key [] = 1
next_key (t ∷ ts) = suc (next_key ts)

next_key-IsAutoincrement : IsAutoincrement next_key
next_key-IsAutoincrement [] h = refl
next_key-IsAutoincrement (u ∷ us) h = ap suc (counted us)
  where
    counted : (us : List PlannedTask) → next_key (map row_of us) ≡ suc (length us)
    counted [] = refl
    counted (u ∷ us) = ap suc (counted us)

abbrev plan_of : Result SortError (List PlannedTask) → List PlannedTask
plan_of (ok ts) = ts
plan_of (raised e) = []

canonical_plan : topological_sort canonical_tasks ≡ ok (plan_of (topological_sort canonical_tasks))
unfolding topological_sort sort_graph start kahn_loop visit append_task task_of relax relax_one
    add_edges add_edge edges sorted insert_sorted keys conclude
canonical_plan = refl

-- the table as it is seeded
abbrev table : List Task
table = map row_of canonical_tasks

seeded : seed next_key (map seed_of canonical_tasks) [] ≡ table
unfolding seed insert_or_ignore same_key
seeded = refl

seed-claim_next_example : (t : Task) × ((claim_next "agent" "now" table).0 ≡ some t)
seed-claim_next_example =
    seed-claim_next next_key canonical_tasks (plan_of (topological_sort canonical_tasks)) table
      "agent" "now" next_key-IsAutoincrement canonical_plan
      (
        refl,
        (
          refl,
          (
            refl,
            (
              refl,
              (
                refl,
                (
                  refl,
                  (
                    refl,
                    (
                      refl,
                      (
                        refl,
                        (
                          refl,
                          (
                            refl,
                            (
                              refl,
                              (
                                refl,
                                (
                                  refl,
                                  (
                                    refl,
                                    (
                                      refl,
                                      (
                                        refl,
                                        (
                                          refl,
                                          (
                                            refl,
                                            (refl, (refl, (refl, (refl, (refl, (refl, tt)))))),
                                          ),
                                        ),
                                      ),
                                    ),
                                  ),
                                ),
                              ),
                            ),
                          ),
                        ),
                      ),
                    ),
                  ),
                ),
              ),
            ),
          ),
        ),
      )
      (
        refl,
        (
          refl,
          (
            refl,
            (
              refl,
              (
                refl,
                (
                  refl,
                  (
                    refl,
                    (
                      refl,
                      (
                        refl,
                        (
                          refl,
                          (
                            refl,
                            (
                              refl,
                              (
                                refl,
                                (
                                  refl,
                                  (
                                    refl,
                                    (
                                      refl,
                                      (
                                        refl,
                                        (
                                          refl,
                                          (
                                            refl,
                                            (refl, (refl, (refl, (refl, (refl, (refl, tt)))))),
                                          ),
                                        ),
                                      ),
                                    ),
                                  ),
                                ),
                              ),
                            ),
                          ),
                        ),
                      ),
                    ),
                  ),
                ),
              ),
            ),
          ),
        ),
      )
      (ap (map frame) (sym seeded))
      (
        inl refl,
        (
          inl refl,
          (
            inl refl,
            (
              inl refl,
              (
                inl refl,
                (
                  inl refl,
                  (
                    inl refl,
                    (
                      inl refl,
                      (
                        inl refl,
                        (
                          inl refl,
                          (
                            inl refl,
                            (
                              inl refl,
                              (
                                inl refl,
                                (
                                  inl refl,
                                  (
                                    inl refl,
                                    (
                                      inl refl,
                                      (
                                        inl refl,
                                        (
                                          inl refl,
                                          (
                                            inl refl,
                                            (
                                              inl refl,
                                              (
                                                inl refl,
                                                (inl refl, (inl refl, (inl refl, (inl refl, tt)))),
                                              ),
                                            ),
                                          ),
                                        ),
                                      ),
                                    ),
                                  ),
                                ),
                              ),
                            ),
                          ),
                        ),
                      ),
                    ),
                  ),
                ),
              ),
            ),
          ),
        ),
      )
      (inl refl)

-- Seeded in the order of its plan, the third task of `three` stands in row 2, and the second in row 3,
-- which lists itself as a blocker.
blocks_itself :
    map frame (seed next_key (map seed_of (plan_of (topological_sort three))) [])
    ≡ (1, []) ∷ (2, 1 ∷ []) ∷ (3, 1 ∷ 3 ∷ []) ∷ []
unfolding topological_sort sort_graph start kahn_loop visit append_task task_of relax relax_one
    add_edges add_edge edges sorted insert_sorted keys conclude seed insert_or_ignore same_key
blocks_itself = refl
