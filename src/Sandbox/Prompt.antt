-- ===== src/Sandbox/Prompt.antt =====
-- Rules on actions of a sandbox run that do not wait for ever.
use Prim.Native.String.{String}
use mcp_kubernetes_platform.Prelude.{
  ℕ, ◌+◌, ◌≤◌, ◌≡◌, refl, Bool, true, false, Option, List, ◌∷◌, inl, inr, ltb, if◌then◌else◌, arith,
  Bool-cases,
}
use mcp_kubernetes_platform.Prelude.Effects.{Result, ok, raised, pure, raise, continue, ◌>>=◌}
use mcp_kubernetes_platform.Sandbox.Data.{
  SmokeResult, Settings, Output, Call, sleep, Outside, History, SandboxError, failed, out_of_fuel,
  Action, Bytes,
}
use mcp_kubernetes_platform.Sandbox.Commands.{
  run_process, read_time, touch, decoded, run_cmd, collect_events, write_sandbox_log, from_outside,
}
use mcp_kubernetes_platform.Sandbox.Smoke.{run_rollout, smoke_passed, timed_out}

abbrev pub ran_out : {A : Type 0} → Result SandboxError A → Bool
ran_out (raised out_of_fuel) = true
ran_out (raised (failed e)) = false
ran_out (ok a) = false

-- The clock of the event loop does not go back, and is ahead by the pause after a sleep that
-- was not cancelled.
pub record IsSteady (env : Outside) : Type 0 where
  pub onward : (h : History) (c : Call) → env.time h ≤ env.time (c ∷ h)
  pub rested :
      (h : History) (n : ℕ) → env.slept h n ≡ ok tt → env.time h + n ≤ env.time (sleep n ∷ h)

-- From these calls on, the action returns or raises what the outside raised, no earlier than it began.
pub record IsPrompt {A : Type 0} (env : Outside) (h : History) (m : Action A) : Type 0 where
  pub fuelled : ran_out (m h).0 ≡ false
  pub later : env.time h ≤ env.time (m h).1

pub from_outside-ran_out : {A : Type 0} (r : Result String A) → ran_out (from_outside r) ≡ false
from_outside-ran_out (ok a) = refl
from_outside-ran_out (raised e) = refl

module _ {env : Outside} where
  pub IsPrompt-pure : {A : Type 0} (h : History) (a : A) → IsPrompt env h (pure a)
  IsPrompt-pure h a = record { fuelled = refl; later = omega arith }

  pub IsPrompt-if :
      {A : Type 0} (h : History) (b : Bool) (m n : Action A)
      → IsPrompt env h m
      → IsPrompt env h n
      → IsPrompt env h (if b then m else n)
  IsPrompt-if h true m n p q = p
  IsPrompt-if h false m n p q = q

  pub stopped-IsPrompt :
      {A : Type 0} (h : History) (now deadline : ℕ) (m n : Action A)
      → deadline ≤ now
      → IsPrompt env h n
      → IsPrompt env h (if ltb now deadline then m else n)
  stopped-IsPrompt h now deadline m n le p = elim (Bool-cases (ltb now deadline)) [
    | inl e ↦ absurd (ground (arith, e, le))
    | inr e ↦ rw e p
  ]

  pub continue-IsPrompt :
      {A B : Type 0} (h t : History) (r : Result SandboxError A) (f : A → Action B)
      → env.time h ≤ env.time t
      → ran_out r ≡ false
      → ((a : A) → IsPrompt env t (f a))
      → IsPrompt env h (λ _. continue r f t)
  continue-IsPrompt h t (ok a) f le e q =
      let p = q a in record { fuelled = p.fuelled; later = omega (arith, le, p.later) }
  continue-IsPrompt h t (raised (failed x)) f le e q = record { fuelled = refl; later = le }
  continue-IsPrompt h t (raised out_of_fuel) f le e q = absurd (cc e)

  pub IsPrompt-bind :
      {A B : Type 0} (h : History) (m : Action A) (f : A → Action B)
      → IsPrompt env h m
      → ((a : A) → IsPrompt env (m h).1 (f a))
      → IsPrompt env h (m >>= f)
  IsPrompt-bind h m f p q =
      let c = continue-IsPrompt h (m h).1 (m h).0 f p.later p.fuelled q in
      record { fuelled = c.fuelled; later = c.later }

  module _ (c : IsSteady env) where
    pub run_process-IsPrompt :
        (h : History) (args : List String) (input : Option String)
        → IsPrompt env h (run_process env args input)
    unfolding run_process
    run_process-IsPrompt h args input = record {
      fuelled = from_outside-ran_out _;
      later = c.onward h _;
    }

    pub read_time-IsPrompt : (h : History) → IsPrompt env h (read_time env)
    unfolding read_time
    read_time-IsPrompt h = record { fuelled = refl; later = c.onward h _ }

    pub touch-IsPrompt : (h : History) (k : Call) → IsPrompt env h (touch env k)
    unfolding touch
    touch-IsPrompt h k = record { fuelled = from_outside-ran_out _; later = c.onward h _ }

    pub decoded-IsPrompt : (h : History) (b : Bytes) → IsPrompt env h (decoded env b)
    unfolding decoded
    decoded-IsPrompt h b = record { fuelled = from_outside-ran_out _; later = omega arith }

    pub ruleset prompt_rules = (
      IsPrompt-bind, IsPrompt-pure, IsPrompt-if, run_process-IsPrompt, read_time-IsPrompt,
      touch-IsPrompt, decoded-IsPrompt,
    )

    pub raise-IsPrompt :
        {A : Type 0} (h : History) (e : String) → IsPrompt {A = A} env h (raise (failed e))
    raise-IsPrompt h e = record { fuelled = refl; later = omega arith }

    pub run_cmd-IsPrompt :
        (h : History) (check : Bool) (args : List String) → IsPrompt env h (run_cmd env check args)
    unfolding run_cmd
    run_cmd-IsPrompt h check args = search (prompt_rules, raise-IsPrompt) depth 12

    pub collect_events-IsPrompt : (h : History) (k : String) → IsPrompt env h (collect_events env k)
    unfolding collect_events
    collect_events-IsPrompt h k = search prompt_rules depth 9

    pub write_sandbox_log-IsPrompt :
        (h : History) (cfg : Settings) (i m : String) (r : SmokeResult) (b : Option String)
        → IsPrompt env h (write_sandbox_log env cfg i m r b)
    unfolding write_sandbox_log
    write_sandbox_log-IsPrompt h cfg i m r b = search prompt_rules depth 9

    pub run_rollout-IsPrompt :
        (h : History) (d : String) (t : ℕ) (k : String) → IsPrompt env h (run_rollout env d t k)
    unfolding run_rollout
    run_rollout-IsPrompt h d t k = search (prompt_rules, collect_events-IsPrompt) depth 12

    pub smoke_passed-IsPrompt :
        (h : History) (k : String) (out : Output) → IsPrompt env h (smoke_passed env k out)
    unfolding smoke_passed
    smoke_passed-IsPrompt h k out = search (prompt_rules, collect_events-IsPrompt) depth 12

    pub timed_out-IsPrompt : (h : History) (k : String) → IsPrompt env h (timed_out env k)
    unfolding timed_out
    timed_out-IsPrompt h k = search (prompt_rules, collect_events-IsPrompt) depth 12
