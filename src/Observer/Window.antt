-- ===== src/Observer/Window.antt =====
-- Expiries in order: what pruning the window takes away, and what is left.
use mcp_kubernetes_platform.Prelude.{
  ℕ, ◌≤◌, ◌<◌, leb→le, ◌≡◌, refl, ap, Bool, ◌&&◌, String, ◌==◌, List, [], ◌∷◌, ◌++◌, arith, any,
  leb, ltb, All, inl, inr, Bool-cases, if◌then◌else◌,
}
use mcp_kubernetes_platform.Observer.Loop.{SeenEntry, prune}

-- the entry bars the key at the time `now`
abbrev pub bars : ℕ → String → SeenEntry → Bool
bars now key e = e.key == key && ltb now e.expires_at

-- expiries in order, from `lo` to `hi`
abbrev pub Sorted : ℕ → ℕ → List SeenEntry → Type 0
Sorted lo hi [] = Unit
Sorted lo hi (e ∷ es) = (lo ≤ e.expires_at) × (e.expires_at ≤ hi) × Sorted e.expires_at hi es

pub Sorted-below :
    (lo lo' hi : ℕ) (es : List SeenEntry) → lo' ≤ lo → Sorted lo hi es → Sorted lo' hi es
Sorted-below lo lo' hi [] less h = tt
Sorted-below lo lo' hi (e ∷ es) less h = (omega (arith, less, h.0), h.1, h.2)

pub Sorted-above :
    (lo hi hi' : ℕ) (es : List SeenEntry) → hi ≤ hi' → Sorted lo hi es → Sorted lo hi' es
Sorted-above lo hi hi' [] less h = tt
Sorted-above lo hi hi' (e ∷ es) less h =
    (h.0, omega (arith, less, h.1), Sorted-above e.expires_at hi hi' es less h.2)

pub Sorted-snoc :
    (lo hi hi' : ℕ) (es : List SeenEntry) (e : SeenEntry)
    → Sorted lo hi es
    → lo ≤ e.expires_at
    → hi ≤ e.expires_at
    → e.expires_at ≤ hi'
    → Sorted lo hi' (es ++ e ∷ [])
Sorted-snoc lo hi hi' [] e h l k m = (l, m, tt)
Sorted-snoc lo hi hi' (x ∷ es) e h l k m = (
  h.0,
  omega (arith, h.1, k, m),
  Sorted-snoc x.expires_at hi hi' es e h.2 (omega (arith, h.1, k)) k m,
)

-- entries that expire later bar as they are named
pub in_force :
    (now lo hi : ℕ) (key : String) (es : List SeenEntry)
    → Sorted lo hi es
    → now < lo
    → any (λ e. e.key == key) es ≡ any (bars now key) es
in_force now lo hi key [] h less = refl
in_force now lo hi key (e ∷ es) h less =
    ground (arith, h.0, less, in_force now e.expires_at hi key es h.2 (omega (arith, h.0, less)))

-- what is left after pruning is all in force
pub prune-bars :
    (now lo hi : ℕ) (key : String) (es : List SeenEntry)
    → Sorted lo hi es
    → any (λ e. e.key == key) (prune now es) ≡ any (bars now key) es
unfolding prune
prune-bars now lo hi key [] h = refl
prune-bars now lo hi key (e ∷ es) h = elim (Bool-cases (leb e.expires_at now)) [
  | inl old ↦ rw old (ground (arith, old, prune-bars now e.expires_at hi key es h.2))
  | inr new ↦
      rw new
        (in_force now e.expires_at hi key (e ∷ es) (omega arith, h.1, h.2) (ground (arith, new)))
]

pub prune-Sorted :
    (now lo hi : ℕ) (es : List SeenEntry) → Sorted lo hi es → Sorted lo hi (prune now es)
unfolding prune
prune-Sorted now lo hi [] h = tt
prune-Sorted now lo hi (e ∷ es) h = elim (Bool-cases (leb e.expires_at now)) [
  | inl old ↦
      rw old (
        Sorted-below e.expires_at lo hi (prune now es) h.0
          (prune-Sorted now e.expires_at hi es h.2))
  | inr new ↦ rw new h
]

-- what pruning takes away
abbrev pub cut : ℕ → List SeenEntry → List SeenEntry
cut now [] = []
cut now (e ∷ es) = let rest = cut now es in if leb e.expires_at now then e ∷ rest else []

pub cut-prune : (now : ℕ) (es : List SeenEntry) → cut now es ++ prune now es ≡ es
unfolding prune
cut-prune now [] = refl
cut-prune now (e ∷ es) = elim (Bool-cases (leb e.expires_at now)) [
  | inl old ↦ rw old (ap (λ rest. e ∷ rest) (cut-prune now es))
  | inr new ↦ rw new refl
]

abbrev pub Expired : ℕ → List SeenEntry → Type 0
Expired now es = All (λ e. e.expires_at ≤ now) es

pub cut-Expired : (now : ℕ) (es : List SeenEntry) → Expired now (cut now es)
cut-Expired now [] = tt
cut-Expired now (e ∷ es) = elim (Bool-cases (leb e.expires_at now)) [
  | inl old ↦ rw old (leb→le e.expires_at now old, cut-Expired now es)
  | inr new ↦ rw new tt
]

-- expired entries bar nothing
pub any-bars-Expired :
    (now : ℕ) (key : String) (old es : List SeenEntry)
    → Expired now old
    → any (bars now key) (old ++ es) ≡ any (bars now key) es
any-bars-Expired now key [] es h = refl
any-bars-Expired now key (e ∷ old) es h = ground (arith, h.0, any-bars-Expired now key old es h.1)
