-- ===== src/Ladder/Methods.antt =====
-- The methods of `RemediationLadder`, but for the watchdog's. Each acts on the session in place, so
-- what it wrote before a raise stays written.
use mcp_kubernetes_platform.Prelude.{
  ℕ, ◌+◌, ◌*◌, not, String, Option, none, some, List, [], ◌∷◌, map, ◌==◌, leb, get_or, text_or,
  if◌then◌else◌,
}
use mcp_kubernetes_platform.Prelude.Effects.{
  ok, raised, pure, raise, gets, modify, guard, when, ◌>>=◌, ◌>>◌,
}
use mcp_kubernetes_platform.Ladder.Types.{
  second, LadderState, restart_issued, propose_fix, apply_state, escalate_state, ResourceRef,
  PodDiagnosis, protected_namespace_error, circuit_breaker_error, api_exception, ContainerStatus,
  Event, Patch, restarted_at, Call, utcnow, read_pod, list_events, read_log, patch_deployment,
  patch_stateful_set, patch_daemon_set, post_webhook, Outside, Settings, watch_timeout_seconds,
  max_cycles_per_hour, Action,
}
use mcp_kubernetes_platform.Ladder.Eligibility.{is_trading, emit_dpo_pair}

-- `_assert_not_trading`
unfoldable pub assert_not_trading : String → Action Unit
assert_not_trading action w =
    if is_trading w.session.resource.namespace
    then raise (protected_namespace_error action w.session.resource.namespace) w
    else pure tt w

module _ (env : Outside) where
  -- datetime.utcnow()
  unfoldable pub read_utc : Action ℕ
  read_utc w = (ok (env.utc w.calls), record w { calls = utcnow ∷ w.calls })

  -- read_namespaced_pod_status, of the session's resource; `pod.status.container_statuses or []`
  unfoldable pub ask_pod : Action (List ContainerStatus)
  ask_pod w = (
    elim (env.pod w.calls) [
      | ok found ↦ ok (get_or found [])
      | raised status ↦ raised (api_exception status)
    ],
    record w { calls = read_pod w.session.resource.namespace w.session.resource.name ∷ w.calls },
  )

  -- list_namespaced_event for the session's resource
  unfoldable pub ask_events : Action (List Event)
  ask_events w = (
    elim (env.events w.calls) [
      | ok items ↦ ok items
      | raised status ↦ raised (api_exception status)
    ],
    record w { calls = list_events w.session.resource.namespace w.session.resource.name ∷ w.calls },
  )

  -- read_namespaced_pod_log in its `try`
  unfoldable pub ask_log : String → Action String
  ask_log container w = (
    ok (get_or (env.log w.calls) "<log unavailable>"),
    record w {
      calls = read_log w.session.resource.namespace w.session.resource.name container ∷ w.calls;
    },
  )

  -- the call of a kind that the ladder can patch
  unfoldable pub patch_call : ResourceRef → Patch → Option Call
  patch_call r p =
      if r.kind == "Deployment"
      then some (patch_deployment r.name r.namespace p)
      else if r.kind == "StatefulSet"
      then some (patch_stateful_set r.name r.namespace p)
      else if r.kind == "DaemonSet"
      then some (patch_daemon_set r.name r.namespace p)
      else none

  send_patch : Option Call → Action Unit
  send_patch none w = pure tt w
  send_patch (some c) w = (
    elim (env.patched w.calls) [
      | ok done ↦ ok done
      | raised status ↦ raised (api_exception status)
    ],
    record w { calls = c ∷ w.calls },
  )

  -- the `if kind == …` ladder that `restart` and `apply` share
  unfoldable pub patch_resource : Patch → Action Unit
  unfolding send_patch patch_call
  patch_resource p w = send_patch (patch_call w.session.resource p) w

  -- session.state = s; session.updated_at = datetime.utcnow()
  unfoldable pub set_state : LadderState → Action Unit
  unfolding read_utc
  set_state s = do
    modify (λ w. record w { session = record w.session { state = s } })
    now ← read_utc
    modify (λ w. record w { session = record w.session { updated_at = now } })

  module _ (cfg : Settings) where
    unfoldable pub restart : Action Unit
    unfolding assert_not_trading read_utc
    restart = do
      assert_not_trading "restart"
      session ← gets (λ w. w.session)
      guard (not (leb max_cycles_per_hour session.ladder_cycles_this_hour))
          (circuit_breaker_error session.resource.namespace session.resource.name)
      now ← read_utc
      when (not cfg.dry_run) (patch_resource (restarted_at now))
      modify (λ w. record w {
        session = record w.session {
          state = restart_issued;
          restart_ts = some now;
          heal_deadline_ts = some (env.naive_timestamp now + watch_timeout_seconds * second);
          ladder_cycles_this_hour = w.session.ladder_cycles_this_hour + 1;
          updated_at = now;
        };
      })

    unfoldable pub sandbox_verify : Action Unit
    unfolding assert_not_trading set_state
    sandbox_verify = do
      assert_not_trading "sandbox_verify"
      set_state (if cfg.dry_run then escalate_state else apply_state)

    unfoldable pub apply : Patch → Action Unit
    unfolding assert_not_trading set_state
    apply patch = do
      assert_not_trading "apply"
      when (not cfg.dry_run) (patch_resource patch)
      set_state apply_state

    -- the request to the webhook, whose exceptions are swallowed
    post : Action Unit
    post w = pure tt (record w { calls = post_webhook cfg.escalation_webhook ∷ w.calls })

    unfoldable pub escalate : PodDiagnosis → Action Unit
    unfolding set_state post
    escalate diagnosis = do
      modify (λ w. record w {
        session = record w.session {
          dpo_pair =
              some (emit_dpo_pair w.session diagnosis "human_escalation" "escalated_to_webhook");
        };
      })
      when (not cfg.dry_run) post
      set_state escalate_state

-- The variables of the loop of `analyze` over the container statuses.
pub record Scan : Type 0 where
  pub container_name : String
  pub exit_code : Option ℕ
  pub restart_count : ℕ
  pub failure_class : String

exit_code_or : Option ℕ → Option ℕ → Option ℕ
exit_code_or none old = old
exit_code_or (some c) old = some c

waiting_class : Option (Option String) → String → String
waiting_class none old = old
waiting_class (some reason) old = text_or reason "Unknown"

scan_one : ContainerStatus → Scan → Scan
unfolding exit_code_or waiting_class
scan_one cs s = record {
  container_name = cs.name;
  exit_code = exit_code_or cs.exit_code s.exit_code;
  restart_count = get_or cs.restart_count 0;
  failure_class = waiting_class cs.waiting s.failure_class;
}

unfoldable pub scan : List ContainerStatus → Scan → Scan
unfolding scan_one
scan [] s = s
scan (cs ∷ rest) s = scan rest (scan_one cs s)

abbrev pub unscanned : Scan
unscanned = record {
  container_name = "";
  exit_code = none;
  restart_count = 0;
  failure_class = "Unknown";
}

-- Sets `PROPOSE_FIX`, and returns the diagnosis beside the session.
unfoldable pub analyze : Outside → Action PodDiagnosis
analyze env = do
  statuses ← ask_pod env
  let found = scan statuses unscanned
  log_tail ← ask_log env found.container_name
  events ← ask_events env
  resource ← gets (λ w. w.session.resource)
  set_state env propose_fix
  pure (record {
    resource = resource;
    failure_class = found.failure_class;
    container_name = found.container_name;
    exit_code = found.exit_code;
    restart_count = found.restart_count;
    log_tail = log_tail;
    event_reasons = map (λ e. get_or e.reason "") events;
    recommended_fix = "";
  })
