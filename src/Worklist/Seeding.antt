-- ===== src/Worklist/Seeding.antt =====
-- Seeding twice is seeding once; and the counts by status count every row once.
use mcp_kubernetes_platform.Prelude.{
  ℕ, ◌+◌, ◌≡◌, inl, inr, refl, Bool, true, List, [], ◌∷◌, ◌++◌, arith, any, length, count_if, All,
  Bool-cases, eq_refl,
}
use mcp_kubernetes_platform.Worklist.Tables.{
  TaskStatus, queued, claimed, in_progress, done, failed, Task,
}
use mcp_kubernetes_platform.Worklist.Tasks.{
  Seed, same_key, new_task, insert_or_ignore, seed, count_by_status, group, has_status,
}

any-append_left : (p : Task → Bool) (xs ys : List Task) → any p xs ≡ true → any p (xs ++ ys) ≡ true
any-append_left p [] ys h = cc
any-append_left p (x ∷ xs) ys h = ground (arith, any-append_left p xs ys)

any-append_last :
    (p : Task → Bool) (xs : List Task) (y : Task) → p y ≡ true → any p (xs ++ y ∷ []) ≡ true
any-append_last p [] y h = rw h refl
any-append_last p (x ∷ xs) y h = ground (arith, any-append_last p xs y h)

module _ (alloc : List Task → ℕ) where
  insert_keeps :
      (p : Task → Bool) (s : Seed) (ts : List Task)
      → any p ts ≡ true
      → any p (insert_or_ignore alloc s ts) ≡ true
  unfolding insert_or_ignore
  insert_keeps p s ts h = ground (arith, any-append_left p ts (new_task (alloc ts) s ∷ []))

  insert_there : (s : Seed) (ts : List Task) → any (same_key s) (insert_or_ignore alloc s ts) ≡ true
  unfolding insert_or_ignore
  insert_there s ts = elim (Bool-cases (any (same_key s) ts)) [
    | inl old ↦ rw old old
    | inr new ↦ rw new (any-append_last (same_key s) ts _ (unfold same_key in simp eq_refl))
  ]

  seed_keeps :
      (p : Task → Bool) (ss : List Seed) (ts : List Task)
      → any p ts ≡ true
      → any p (seed alloc ss ts) ≡ true
  unfolding seed
  seed_keeps p [] ts h = h
  seed_keeps p (s ∷ ss) ts h = seed_keeps p ss _ (insert_keeps p s ts h)

  seed_there :
      (ss : List Seed) (ts : List Task) → All (λ s. any (same_key s) (seed alloc ss ts) ≡ true) ss
  unfolding seed
  seed_there [] ts = tt
  seed_there (s ∷ ss) ts = (
    seed_keeps (same_key s) ss _ (insert_there s ts),
    seed_there ss (insert_or_ignore alloc s ts),
  )

  seed_known :
      (ss : List Seed) (ts : List Task)
      → All (λ s. any (same_key s) ts ≡ true) ss
      → seed alloc ss ts ≡ ts
  unfolding seed insert_or_ignore
  seed_known [] ts h = refl
  seed_known (s ∷ ss) ts h = rw h.0 (seed_known ss ts h.1)

  -- Seeding again with the same tasks changes nothing, and after a seeding each task that was
  -- given is in the table, by its section and title.
  pub seed_idem :
      (ss : List Seed) (ts : List Task)
      → (seed alloc ss (seed alloc ss ts) ≡ seed alloc ss ts)
        × All (λ s. any (same_key s) (seed alloc ss ts) ≡ true) ss
  seed_idem ss ts = (seed_known ss (seed alloc ss ts) (seed_there ss ts), seed_there ss ts)

-- the counts of a result, added up
abbrev pub total : List (TaskStatus × ℕ) → ℕ
total [] = 0
total ((s, n) ∷ rest) = n + total rest

total-append : (xs ys : List (TaskStatus × ℕ)) → total (xs ++ ys) ≡ total xs + total ys
total-append [] ys = omega arith
total-append ((s, n) ∷ xs) ys = omega (arith, total-append xs ys)

total-group : (s : TaskStatus) (ts : List Task) → total (group s ts) ≡ count_if (has_status s) ts
unfolding group
total-group s ts = ground arith

abbrev number : TaskStatus → List Task → ℕ
number s ts = count_if (has_status s) ts

each_once :
    (ts : List Task)
    → number queued ts
        + (number claimed ts + (number in_progress ts + (number done ts + number failed ts)))
      ≡ length ts
unfolding has_status
each_once [] = refl
each_once (t ∷ ts) = ground (arith, each_once ts)

-- The counts that `count_by_status` reports add up to the number of rows.
pub total-count_by_status : (ts : List Task) → total (count_by_status ts) ≡ length ts
unfolding count_by_status
total-count_by_status ts = simp (total-append, total-group) (omega (arith, each_once ts))
