-- ===== src/Journal/Rotation.antt =====
-- Appends, renames of the log from outside and reopens, in any order.
use Prim.Native.String.{String}
use mcp_kubernetes_platform.Prelude.{
  ℕ, ◌≡◌, refl, sym, ap, ◌∙◌, Bool, true, false, Option, none, some, List, [], ◌∷◌, ◌++◌, take,
  append_assoc, append-nil, Bool-cases, inl, inr, if◌then◌else◌,
}
use mcp_kubernetes_platform.Prelude.Effects.{Result, ok, raised}
use mcp_kubernetes_platform.Journal.Records.{Dict, Bytes}
use mcp_kubernetes_platform.Journal.Logger.{
  Descriptor, closed, stale, opened, Log, Answers, add_bytes, write, write_if_locked, write_locked,
  write_line, report, append_line, append, open_file, reopen, move_away,
}

pub data Operation : Type 0 where
  appends : Answers → Dict → Operation
  moves : Operation
  reopens : Option String → Operation

abbrev pub step : (Dict → Result String Bytes) → Operation → Log → Log
step dumps (appends a entry) w = (append dumps a entry w).1
step dumps moves w = move_away w
step dumps (reopens error) w = (reopen error w).1

abbrev pub run : (Dict → Result String Bytes) → List Operation → Log → Log
run dumps [] w = w
run dumps (o ∷ os) w = run dumps os (step dumps o w)

-- The bytes of the files that were moved away, the oldest first, and of the current one.
abbrev joined : List Bytes → Bytes → Bytes
joined [] rest = rest
joined (file ∷ older) rest = joined older (file ++ rest)

abbrev pub all_bytes : Log → Bytes
all_bytes w = joined w.archives w.current

-- All that the one log has is there in the other, which goes on after it.
pub record GoesOn (w v : Log) : Type 0 where
  pub tail : Bytes
  pub kept : all_bytes v ≡ all_bytes w ++ tail
  pub reported : (es : List String) × (v.stderr ≡ w.stderr ++ es)

joined-append : (fs : List Bytes) (s t : Bytes) → joined fs (s ++ t) ≡ joined fs s ++ t
joined-append [] s t = refl
joined-append (f ∷ fs) s t = ap (joined fs) (sym (append_assoc f s t)) ∙ joined-append fs (f ++ s) t

GoesOn-refl : (w : Log) → GoesOn w w
GoesOn-refl w = record {
  tail = [];
  kept = sym (append-nil (all_bytes w));
  reported = ([], sym (append-nil w.stderr));
}

GoesOn-trans : (u v w : Log) → GoesOn u v → GoesOn v w → GoesOn u w
GoesOn-trans u v w p q = record {
  tail = p.tail ++ q.tail;
  kept = q.kept ∙ ap (λ s. s ++ q.tail) p.kept ∙ append_assoc (all_bytes u) p.tail q.tail;
  reported = (
    p.reported.0 ++ q.reported.0,
    q.reported.1
        ∙ ap (λ s. s ++ q.reported.0) p.reported.1
        ∙ append_assoc u.stderr p.reported.0 q.reported.0,
  );
}

-- the archives stay, and the file and the reports grow
GoesOn-grow :
    (w v : Log) (s : Bytes) (es : List String)
    → v.archives ≡ w.archives
    → v.current ≡ w.current ++ s
    → v.stderr ≡ w.stderr ++ es
    → GoesOn w v
GoesOn-grow w v s es a c e = record {
  tail = s;
  kept = rw (a, c) (joined-append w.archives w.current s);
  reported = (es, e);
}

report-GoesOn : (w v : Log) (r : Result String Unit) → GoesOn w v → GoesOn w (report (r, v))
unfolding report
report-GoesOn w v (ok _) p = p
report-GoesOn w v (raised e) p =
    GoesOn-trans w v _ p (GoesOn-grow v _ [] (e ∷ []) refl (sym (append-nil v.current)) refl)

if-GoesOn : (b : Bool) (w x y : Log) → GoesOn w x → GoesOn w y → GoesOn w (if b then x else y)
if-GoesOn true w x y p q = p
if-GoesOn false w x y p q = q

write-GoesOn :
    (other : Bool) (n : Result String ℕ) (line : Bytes) (w : Log)
    → GoesOn w (write other n line w).1
unfolding write add_bytes
write-GoesOn false (ok n) line w =
    GoesOn-grow w _ (take n line) [] refl refl (sym (append-nil w.stderr))
write-GoesOn true (ok n) line w =
    GoesOn-grow w _ [] [] refl (sym (append-nil w.current)) (sym (append-nil w.stderr))
write-GoesOn other (raised e) line w = GoesOn-refl w

write_if_locked-GoesOn :
    (other : Bool) (e : Option String) (a : Answers) (line : Bytes) (w : Log)
    → GoesOn w (report (write_if_locked other e a line w))
unfolding write_if_locked write_locked
write_if_locked-GoesOn other none a line w =
    report-GoesOn w (write other a.written line w).1 _ (write-GoesOn other a.written line w)
write_if_locked-GoesOn other (some e) a line w = report-GoesOn w w _ (GoesOn-refl w)

write_line-GoesOn :
    (a : Answers) (line : Bytes) (d : Descriptor) (w : Log)
    → GoesOn w (report (write_line a line d w))
unfolding write_line
write_line-GoesOn a line closed w = report-GoesOn w w _ (GoesOn-refl w)
write_line-GoesOn a line stale w = elim (Bool-cases a.reused) [
  | inl other ↦ simp other (write_if_locked-GoesOn true a.lock_error a line w)
  | inr bad ↦ simp bad (report-GoesOn w w _ (GoesOn-refl w))
]
write_line-GoesOn a line opened w = write_if_locked-GoesOn false a.lock_error a line w

append_line-GoesOn :
    (a : Answers) (line : Result String Bytes) (w : Log) → GoesOn w (append_line a line w).1
unfolding append_line
append_line-GoesOn a (raised e) w = GoesOn-refl w
append_line-GoesOn a (ok line) w = write_line-GoesOn a (line ++ 10 ∷ []) w.descriptor w

reopen-GoesOn : (e : Option String) (w : Log) → GoesOn w (reopen e w).1
unfolding open_file
reopen-GoesOn none w =
    let stays =
      GoesOn-grow w _ [] [] refl (sym (append-nil w.current)) (sym (append-nil w.stderr)) in
    if-GoesOn w.is_moved w _ (record w { descriptor = opened })
      (record {
        tail = [];
        kept = joined-append w.archives w.current [];
        reported = ([], sym (append-nil w.stderr));
      })
      stays
reopen-GoesOn (some e) w =
    GoesOn-grow w _ [] [] refl (sym (append-nil w.current)) (sym (append-nil w.stderr))

step-GoesOn :
    (dumps : Dict → Result String Bytes) (o : Operation) (w : Log) → GoesOn w (step dumps o w)
unfolding append move_away
step-GoesOn dumps (appends a entry) w = append_line-GoesOn a (dumps entry) w
step-GoesOn dumps moves w =
    GoesOn-grow w _ [] [] refl (sym (append-nil w.current)) (sym (append-nil w.stderr))
step-GoesOn dumps (reopens e) w = reopen-GoesOn e w

-- The log is append-only: after any appends, renames from outside and reopens, whatever `flock`,
-- `write` and `open` answer, and whether or not another file has got the number of a descriptor that a
-- failed reopen closed, the files moved away and the current one, put together, start with what they
-- held before. So do the reported errors.
pub run-GoesOn :
    (dumps : Dict → Result String Bytes) (os : List Operation) (w : Log) → GoesOn w (run dumps os w)
run-GoesOn dumps [] w = GoesOn-refl w
run-GoesOn dumps (o ∷ os) w =
    GoesOn-trans w (step dumps o w) _ (step-GoesOn dumps o w) (run-GoesOn dumps os (step dumps o w))
