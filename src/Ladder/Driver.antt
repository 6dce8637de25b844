-- ===== src/Ladder/Driver.antt =====
-- `detect`, which opens a session, and `advance`, which drives one.
use mcp_kubernetes_platform.Prelude.{ℕ, Option, none, some, String, List, [], ◌∷◌, get_or}
use mcp_kubernetes_platform.Prelude.Effects.{Exec, ok, raised, pure, guard, ◌>>=◌, ◌>>◌}
use mcp_kubernetes_platform.Ladder.Types.{
  LadderState, idle, restart_issued, watch_healing, still_sick, propose_fix, ResourceRef,
  LadderSession, LadderError, value_error, api_exception, ContainerStatus, utcnow, uuid4, read_pod,
  History, Outside, Settings, Action,
}
use mcp_kubernetes_platform.Ladder.Eligibility.{is_restart_eligible, Counts, acquire}
use mcp_kubernetes_platform.Ladder.Methods.{restart, analyze, sandbox_verify}
use mcp_kubernetes_platform.Ladder.Watch.{watch}

-- `advance` by the state of the session
unfoldable pub dispatch : Settings → Outside → ℕ → LadderState → Action Unit
dispatch cfg env fuel idle = restart env cfg
dispatch cfg env fuel restart_issued = watch env fuel
dispatch cfg env fuel watch_healing = pure tt
dispatch cfg env fuel still_sick = analyze env >> pure tt
dispatch cfg env fuel propose_fix = sandbox_verify env cfg
dispatch cfg env fuel _ = pure tt

unfoldable pub advance : Settings → Outside → ℕ → Action Unit
advance cfg env fuel w = dispatch cfg env fuel w.session.state w

-- "Call in a loop": a number of calls of `advance`, the first that raises ending them.
unfoldable pub drive : Settings → Outside → ℕ → ℕ → Action Unit
drive cfg env fuel ℕ.zero = pure tt
drive cfg env fuel (ℕ.suc n) = advance cfg env fuel >> drive cfg env fuel n

-- What a ladder shares between its sessions: the breaker's counts, beside the calls made.
pub record Ladder : Type 0 where
  pub counts : Counts
  pub calls : History

-- The loop of `detect`: the last waiting reason, and the last restart count that is not 0.
unfoldable pub found_reason : String → List ContainerStatus → String
found_reason reason [] = reason
found_reason reason (cs ∷ rest) =
    found_reason (elim cs.waiting [ none ↦ reason | some r ↦ get_or r "" ]) rest

nonzero_or : Option ℕ → ℕ → ℕ
nonzero_or none old = old
nonzero_or (some ℕ.zero) old = old
nonzero_or (some (ℕ.suc n)) old = ℕ.suc n

unfoldable pub found_restarts : ℕ → List ContainerStatus → ℕ
unfolding nonzero_or
found_restarts n [] = n
found_restarts n (cs ∷ rest) = found_restarts (nonzero_or cs.restart_count n) rest

module _ (cfg : Settings) (env : Outside) where
  unfoldable pub query : ResourceRef → Exec LadderError Ladder (List ContainerStatus)
  query r l = (
    elim (env.pod l.calls) [
      | ok found ↦ ok (get_or found [])
      | raised status ↦ raised (api_exception status)
    ],
    record l { calls = read_pod r.namespace r.name ∷ l.calls },
  )

  -- `self._ns_circuit.acquire(…)`
  unfoldable pub acquire_for : String → Exec LadderError Ladder Unit
  acquire_for ns l =
      let (r, counts) = acquire cfg.ns_cap ns l.counts in (r, record l { counts = counts })

  -- `uuid4` and the three readings of the clock: two defaults of the fields, and `updated_at`
  unfoldable pub open_session : ResourceRef → Exec LadderError Ladder LadderSession
  open_session r l =
      let opened = l.calls in
      let named : History = uuid4 ∷ opened in
      let created : History = utcnow ∷ named in
      let updated : History = utcnow ∷ created in
      (
        ok (record {
          session_id = env.uuid opened;
          resource = r;
          state = idle;
          restart_ts = none;
          heal_deadline_ts = none;
          ladder_cycles_this_hour = 0;
          dpo_pair = none;
          created_at = env.utc named;
          updated_at = env.utc updated;
        }),
        record l { calls = utcnow ∷ updated },
      )

  unfoldable pub detect : ResourceRef → Exec LadderError Ladder LadderSession
  detect r = do
    statuses ← query r
    guard (is_restart_eligible cfg (found_reason "" statuses) (found_restarts 0 statuses))
        (value_error (found_reason "" statuses) (found_restarts 0 statuses))
    acquire_for r.namespace
    open_session r
