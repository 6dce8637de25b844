-- ===== src/Seeds/Edges.antt =====
-- What `topological_sort` builds from the pairs of a task and a blocker: degrees and dependents.
use mcp_kubernetes_platform.Prelude.{
  ℕ, suc, ◌+◌, ◌≡◌, refl, ap, true, ◌&&◌, not, List, [], ◌∷◌, ◌++◌, All, arith, eqb, inl, inr,
  Bool-cases, eqb→eq, eqb_refl, if◌then◌else◌,
}
use mcp_kubernetes_platform.Seeds.Plan.{member, edges_of, Graph, add_edge}
use mcp_kubernetes_platform.Seeds.Counting.{occurs, occurs-append, member-occurs}

-- the graph that the loops build where each blocker is an id of a task
abbrev pub build : List (ℕ × ℕ) → Graph → Graph
build [] g = g
build ((i, b) ∷ es) g = build es (add_edge i b g)

-- how many pairs go from `i`, and how many from `i` to `b`
abbrev pub degree : ℕ → List (ℕ × ℕ) → ℕ
degree i [] = 0
degree i ((j, b) ∷ es) = let rest = degree i es in if eqb i j then suc rest else rest

abbrev pub edge : ℕ → ℕ → List (ℕ × ℕ) → ℕ
edge i b [] = 0
edge i b ((j, c) ∷ es) = let rest = edge i b es in if eqb i j && eqb b c then suc rest else rest

-- how many blockers `i` waits for
abbrev pub wait : List ℕ → ℕ → List (ℕ × ℕ) → ℕ
wait done i [] = 0
wait done i ((j, b) ∷ es) =
    let rest = wait done i es in if eqb i j && not (member b done) then suc rest else rest

pub build-degree :
    (es : List (ℕ × ℕ)) (g : Graph) (i : ℕ) → (build es g).in_degree i ≡ g.in_degree i + degree i es
unfolding add_edge
build-degree [] g i = omega arith
build-degree ((j, b) ∷ es) g i = elim (Bool-cases (eqb i j)) [
  | inl same ↦
      let e : i ≡ j = eqb→eq i j same in
      ground (arith, same, e, ap g.in_degree e, eqb_refl j, build-degree es (add_edge j b g) i)
  | inr other ↦ ground (arith, other, build-degree es (add_edge j b g) i)
]

pub build-dependents :
    (es : List (ℕ × ℕ)) (g : Graph) (i b : ℕ)
    → occurs i ((build es g).dependents b) ≡ occurs i (g.dependents b) + edge i b es
unfolding add_edge
build-dependents [] g i b = omega arith
build-dependents ((j, c) ∷ es) g i b = elim (Bool-cases (eqb b c)) [
  | inl same ↦
      let e : b ≡ c = eqb→eq b c same in
      ground (
        arith,
        same,
        e,
        ap (λ k. occurs i (g.dependents k)) e,
        eqb_refl c,
        occurs-append i (g.dependents c) (j ∷ []),
        build-dependents es (add_edge j c g) i b,
      )
  | inr other ↦ ground (arith, other, build-dependents es (add_edge j c g) i b)
]

pub wait-nil : (es : List (ℕ × ℕ)) (i : ℕ) → wait [] i es ≡ degree i es
wait-nil [] i = refl
wait-nil ((j, b) ∷ es) i = ground (arith, wait-nil es i)

-- One more task done takes its edges away.
pub wait-snoc :
    (es : List (ℕ × ℕ)) (done : List ℕ) (tid i : ℕ)
    → occurs tid done ≡ 0
    → wait (done ++ tid ∷ []) i es + edge i tid es ≡ wait done i es
wait-snoc [] done tid i h = refl
wait-snoc ((j, b) ∷ es) done tid i h = elim (Bool-cases (eqb tid b)) [
  | inl same ↦
      let e : tid ≡ b = eqb→eq tid b same in
      ground (
        arith,
        h,
        same,
        ap (λ k. occurs k done) e,
        eqb_refl b,
        e,
        member-occurs b done,
        member-occurs b (done ++ tid ∷ []),
        occurs-append b done (tid ∷ []),
        wait-snoc es done tid i h,
      )
  | inr other ↦ ground (
    arith,
    h,
    other,
    member-occurs b done,
    member-occurs b (done ++ tid ∷ []),
    occurs-append b done (tid ∷ []),
    wait-snoc es done tid i h,
  )
]

pub wait-append :
    (es fs : List (ℕ × ℕ)) (done : List ℕ) (i : ℕ)
    → wait done i (es ++ fs) ≡ wait done i es + wait done i fs
wait-append [] fs done i = omega arith
wait-append ((j, b) ∷ es) fs done i = ground (arith, wait-append es fs done i)

pub wait-edges_of :
    (bs : List ℕ) (done : List ℕ) (i : ℕ)
    → wait done i (edges_of i bs) ≡ 0
    → All (λ b. member b done ≡ true) bs
wait-edges_of [] done i h = tt
wait-edges_of (b ∷ bs) done i h =
    (ground (arith, h, eqb_refl i), wait-edges_of bs done i (ground (arith, h, eqb_refl i)))
