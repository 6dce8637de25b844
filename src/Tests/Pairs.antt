-- ===== src/Tests/Pairs.antt =====
-- Runs on preference pairs.
use mcp_kubernetes_platform.Prelude.{◌≡◌, refl, true, false, String, [], ◌∷◌, All}
use mcp_kubernetes_platform.Prelude.Effects.{ok, raised}
use mcp_kubernetes_platform.Pairs.Redact.{match_length, substitute, redact}
use mcp_kubernetes_platform.Pairs.Redacted.{leaks}
use mcp_kubernetes_platform.Pairs.Issues.{
  RemediationAction, DpoPair, redact_pair, title_for, build_issue_title, index_error,
}
use mcp_kubernetes_platform.Pairs.Emission.{evidence, redact_pair-IsSafe}

two_secrets :
    redact "run --TOKEN=abc, x monkey=1 key= end"
    ≡ "run --TOKEN=[REDACTED] x monkey=[REDACTED] key= end"
unfolding redact substitute match_length
two_secrets = refl

-- the last of the letters is the Kelvin sign
unusual : redact "toKen=1" ≡ "toKen=[REDACTED]"
unfolding redact substitute match_length
unusual = refl

abbrev action : String → RemediationAction
action c = record {
  action_type = "pod_restart";
  command = c;
  outcome = "timeout";
  duration_seconds = "1.0";
}

abbrev pair : String → DpoPair
pair prompt = record {
  prompt = prompt;
  chosen = action "kubectl set env token=1";
  rejected = action "kubectl delete pod" ∷ [];
  context = record {
    events = "password=x y" ∷ [];
    logs = [];
    probe_state = [];
    namespace = "web";
    kind = "Pod";
  };
  verification = "ok";
  meta = record {
    sandbox_verified = true;
    prod_applied = true;
    time_to_fix_seconds = "3.0";
    session_id = "s";
    remediator_version = "1";
  };
}

title : build_issue_title (pair "nginx is down") ≡ ok "[DPO] web/nginx: timeout -> pod_restart"
unfolding build_issue_title title_for
title = refl

-- a prompt of white space
blank : build_issue_title (pair " ") ≡ raised index_error
unfolding build_issue_title title_for
blank = refl

-- the prompt keeps its secrets
leaking : leaks (redact_pair (pair "token=abc")).prompt ≡ true
unfolding redact_pair match_length
leaking = refl

redact_pair-IsSafe_example :
    All (λ s. leaks s ≡ false) (evidence (redact_pair (pair "p")))
    × (redact_pair (redact_pair (pair "p")) ≡ redact_pair (pair "p"))
redact_pair-IsSafe_example = redact_pair-IsSafe (pair "p")
