-- ===== src/Seeds/Outcome.antt =====
-- What `topological_sort` comes to: an unknown blocker, or the conclude on a sound last state.
use mcp_kubernetes_platform.Prelude.{
  ℕ, ◌≤◌, ◌≡◌, ◌⊎◌, refl, ap, ◌∙◌, true, false, some, List, [], ◌∷◌, All, arith, eqb, eqb_refl,
  ◌&&◌, ltb, length, inl, inr, Bool-cases, if◌then◌else◌,
}
use mcp_kubernetes_platform.Prelude.Effects.{ok, raised}
use mcp_kubernetes_platform.Seeds.Plan.{
  member, PlannedTask, SortError, key_error, ids, edges, Graph, Kahn, add_edge, add_edges, conclude,
  no_edges, start, sort_graph, topological_sort,
}
use mcp_kubernetes_platform.Seeds.Counting.{occurs, occurs-keys}
use mcp_kubernetes_platform.Seeds.Edges.{build, edge, wait}
use mcp_kubernetes_platform.Seeds.Invariant.{IsSound, start-IsSound, kahn_loop-ends}

-- Each blocker of a pair is known.
abbrev pub AreKnown : List ℕ → List (ℕ × ℕ) → Type 0
AreKnown known es = All (λ e. member e.1 known ≡ true) es

pub add_edges-cases :
    (known : List ℕ) (es : List (ℕ × ℕ)) (g : Graph)
    → ((add_edges known es g ≡ ok (build es g)) × AreKnown known es)
      ⊎ ((b : ℕ) × (add_edges known es g ≡ raised (key_error b))
          × (member b known ≡ false)
          × ((i : ℕ) × (1 ≤ edge i b es)))
unfolding add_edges
add_edges-cases known [] g = inl (refl, tt)
add_edges-cases known ((i, b) ∷ es) g = elim (Bool-cases (member b known)) [
  | inr unknown ↦ inr (b, rw unknown refl, unknown, (i, ground (arith, eqb_refl i, eqb_refl b)))
  | inl there ↦ elim (add_edges-cases known es (add_edge i b g)) [
    | inl rest ↦ inl (rw there rest.0, (there, rest.1))
    | inr bad ↦ inr (bad.0, rw there bad.1, bad.2, (bad.3.0, ground (arith, bad.3.1)))
  ]
]

-- the last state of the loop
abbrev pub IsLast : List PlannedTask → Kahn → Type 0
IsLast ts s =
    (topological_sort ts ≡ conclude ts (some s)) × IsSound ts [] s × AreKnown (ids ts) (edges ts)

topological_sort-built :
    (ts : List PlannedTask) (g : Graph)
    → add_edges (ids ts) (edges ts) no_edges ≡ ok g
    → topological_sort ts ≡ sort_graph ts g
unfolding topological_sort
topological_sort-built ts g h = rw (topological_sort, h) refl

topological_sort-unknown :
    (ts : List PlannedTask) (e : SortError)
    → add_edges (ids ts) (edges ts) no_edges ≡ raised e
    → topological_sort ts ≡ raised e
unfolding topological_sort
topological_sort-unknown ts e h = rw (topological_sort, h) refl

pub topological_sort-cases :
    (ts : List PlannedTask)
    → ((b : ℕ) × (topological_sort ts ≡ raised (key_error b))
        × (member b (ids ts) ≡ false)
        × ((i : ℕ) × (1 ≤ edge i b (edges ts))))
      ⊎ ((s : Kahn) × IsLast ts s)
unfolding sort_graph
topological_sort-cases ts = elim (add_edges-cases (ids ts) (edges ts) no_edges) [
  | inr bad ↦ inl (bad.0, topological_sort-unknown ts (key_error bad.0) bad.1, bad.2, bad.3)
  | inl built ↦
      let g = build (edges ts) no_edges in
      let last =
        kahn_loop-ends ts g refl (length ts) (start ts g).queue (start ts g) refl
          (start-IsSound ts g refl) (omega arith) in
      inr (last.0, (topological_sort-built ts g built.0 ∙ ap (conclude ts) last.1, last.2, built.1))
]

-- Each id is done if it waits for nothing, and has the count of the keys.
pub last-places :
    (ts : List PlannedTask) (s : Kahn) (i : ℕ)
    → IsLast ts s
    → occurs i (ids s.ordered)
      ≡ (if eqb (wait (ids s.ordered) i (edges ts)) 0 && ltb 0 (occurs i (ids ts)) then 1 else 0)
last-places ts s i h = ground (arith, h.1.places i, occurs-keys i (ids ts))
