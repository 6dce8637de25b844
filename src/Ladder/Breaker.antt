-- ===== src/Ladder/Breaker.antt =====
-- The namespace circuit breaker, and what `detect` makes of it.
use mcp_kubernetes_platform.Prelude.{
  ℕ, ◌+◌, ◌-◌, ◌≤◌, ◌<◌, ◌≡◌, ◌⊎◌, Bool, true, false, String, List, [], ◌∷◌, arith, leb, get_or,
  inl, inr, Bool-cases, ◌==◌, eq_iff, if◌then◌else◌,
}
use mcp_kubernetes_platform.Prelude.Assoc.{lookup, insert, lookup-insert, lookup-insert_self}
use mcp_kubernetes_platform.Prelude.Effects.{ok, raised, guard}
use mcp_kubernetes_platform.Prelude.Effects.Keeps.{Keeps, Keeps-bind}
use mcp_kubernetes_platform.Ladder.Types.{
  ResourceRef, Outside, Settings, LadderError, namespace_circuit_open_error,
}
use mcp_kubernetes_platform.Ladder.Eligibility.{Counts, active, acquire, release}
use mcp_kubernetes_platform.Ladder.Driver.{Ladder, detect, query, acquire_for, open_session}
use mcp_kubernetes_platform.Ladder.Transitions.{is_ok}

active-insert :
    (ns j : String) (n : ℕ) (c : Counts)
    → active j (insert ns n c) ≡ (if ns == j then n else active j c)
unfolding active
active-insert ns j n c = rw lookup-insert (ground arith)

-- one more and one less is what there was
restored :
    (ns j : String) (c : Counts)
    → active j (release ns (insert ns (active ns c + 1) c)) ≡ active j c
unfolding release
restored ns j c =
    rw (lookup-insert_self, active-insert, active-insert) (ground (arith, eq_iff ns j))

-- The breaker lets a session in exactly while the namespace has fewer than the cap; a refusal
-- names the namespace with its count and changes nothing, and an entry that is released leaves
-- every namespace with the count that it had.
pub acquire-release :
    (cap : ℕ) (ns : String) (c : Counts)
    → ((active ns c < cap)
        × ((acquire cap ns c).0 ≡ ok tt)
        × ((j : String) → active j (release ns (acquire cap ns c).1) ≡ active j c))
      ⊎ ((cap ≤ active ns c)
          × (acquire cap ns c ≡ (raised (namespace_circuit_open_error ns (active ns c)), c)))
unfolding acquire release
acquire-release cap ns c = elim (Bool-cases (leb cap (active ns c))) [
  | inl full ↦ inr (ground (arith, full), ground arith)
  | inr room ↦ inl (ground (arith, room), ground arith, λ j. rw room (restored ns j c))
]

below_bound :
    (cap : ℕ) (ns : String) (c : Counts) → active ns c ≤ cap → get_or (lookup ns c) 1 - 1 ≤ cap
unfolding active
below_bound cap ns c h = ground arith

-- At most the cap is ever counted for a namespace.
pub acquire-bounded :
    (cap : ℕ) (ns : String) (c : Counts)
    → ((j : String) → active j c ≤ cap)
    → ((j : String) → active j (acquire cap ns c).1 ≤ cap)
      × ((j : String) → active j (release ns c) ≤ cap)
unfolding acquire release
acquire-bounded cap ns c h = (
  λ j. elim (Bool-cases (leb cap (active ns c))) [
    | inl full ↦ rw full (h j)
    | inr room ↦ rw (room, active-insert) (ground (arith, h j))
  ],
  λ j. rw active-insert (ground (arith, h j, below_bound cap ns c (h ns))),
)

module _ (cfg : Settings) (env : Outside) where
  -- a number of calls of `detect`, whatever they raise
  unfoldable pub detect_all : List ResourceRef → Ladder → Ladder
  detect_all [] l = l
  detect_all (r ∷ rs) l = detect_all rs (detect cfg env r l).1

  module _ (ns : String) (k : ℕ) where
    -- at least so many sessions are counted
    abbrev AtLeast : Ladder → Type 0
    AtLeast l = k ≤ active ns l.counts

    query-AtLeast : (r : ResourceRef) → Keeps AtLeast (query cfg env r)
    unfolding query
    query-AtLeast r = record { at = λ l h. h }

    acquire_for-AtLeast : (j : String) → Keeps AtLeast (acquire_for cfg env j)
    unfolding acquire_for acquire
    acquire_for-AtLeast j = record {
      at = λ l h. elim (Bool-cases (leb cfg.ns_cap (active j l.counts))) [
        | inl full ↦ rw full h
        | inr room ↦ rw (room, active-insert) (ground (arith, eq_iff j ns))
      ];
    }

    open_session-AtLeast : (r : ResourceRef) → Keeps AtLeast (open_session cfg env r)
    unfolding open_session
    open_session-AtLeast r = record { at = λ l h. h }

    guard-AtLeast : (b : Bool) (e : LadderError) → Keeps AtLeast (guard b e)
    guard-AtLeast true e = record { at = λ l h. h }
    guard-AtLeast false e = record { at = λ l h. h }

    detect-AtLeast : (r : ResourceRef) → Keeps AtLeast (detect cfg env r)
    unfolding detect
    detect-AtLeast r =
        search (Keeps-bind, query-AtLeast, acquire_for-AtLeast, open_session-AtLeast, guard-AtLeast)
          depth 8

    detect_all-AtLeast :
        (rs : List ResourceRef) (l : Ladder) → AtLeast l → AtLeast (detect_all rs l)
    unfolding detect_all
    detect_all-AtLeast [] l h = h
    detect_all-AtLeast (r ∷ rs) l h =
        detect_all-AtLeast rs (detect cfg env r l).1 ((detect-AtLeast r).at l h)

  detect_full :
      (r : ResourceRef) (l : Ladder)
      → cfg.ns_cap ≤ active r.namespace l.counts
      → is_ok (detect cfg env r l).0 ≡ false
  unfolding detect query acquire_for acquire
  detect_full r l h = ground arith

  -- Nothing that detects releases: once a namespace has reached the cap, every later `detect` for
  -- it raises, however many others come in between.
  pub detect_all-full :
      (ns : String) (rs : List ResourceRef) (r : ResourceRef) (l : Ladder)
      → cfg.ns_cap ≤ active ns l.counts
      → r.namespace ≡ ns
      → is_ok (detect cfg env r (detect_all rs l)).0 ≡ false
  detect_all-full ns rs r l h e =
      detect_full r (detect_all rs l) (rw e (detect_all-AtLeast ns cfg.ns_cap rs l h))
