-- ===== src/Journal/Records.antt =====
-- The records of the audit log, and its file as bytes.
use Prim.Native.String.{String}
use mcp_kubernetes_platform.Prelude.{
  ℕ, Bool, true, false, ◌&&◌, ◌||◌, List, [], ◌∷◌, keep, map, eqb, lstrip, rstrip, if◌then◌else◌,
}

-- The JSON values that a record has, without the numbers and lists of other writers.
pub data Value : Type 0 where
  null : Value
  text : String → Value
  mapping : List (String × String) → Value

abbrev pub Dict : Type 0
Dict = List (String × Value)

-- what `json.loads` gives for one line
pub data Document : Type 0 where
  object : Dict → Document
  other : String → Document

-- JSON in ASCII, as bytes
abbrev pub Bytes : Type 0
Bytes = List ℕ

-- A line break of a file in text mode: `\n`, `\r`, or the two.
abbrev pub is_end : ℕ → Bool
is_end c = eqb c 10 || eqb c 13

abbrev pub on_line : ℕ → List Bytes → List Bytes
on_line c [] = (c ∷ []) ∷ []
on_line c (l ∷ ls) = (c ∷ l) ∷ ls

-- The lines of a file. The flags say that a line has begun, and that the last byte was `\r`.
unfoldable pub lines_of : Bool → Bool → Bytes → List Bytes
lines_of begun cr [] = if begun then [] ∷ [] else []
lines_of begun cr (c ∷ s) =
    if cr && eqb c 10
    then lines_of false false s
    else if is_end c
    then [] ∷ lines_of false (eqb c 13) s
    else on_line c (lines_of true false s)

abbrev pub strip : Bytes → Bytes
strip s = lstrip (rstrip s)

abbrev pub is_full : Bytes → Bool
is_full [] = false
is_full (c ∷ s) = true

-- The stripped lines that are not empty.
unfoldable pub raw_lines : Bytes → List Bytes
raw_lines file = keep is_full (map strip (lines_of false false file))
