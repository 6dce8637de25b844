-- ===== src/Tests/Ladder.antt =====
-- The ladder's theorems against an outside that answers every call.
use mcp_kubernetes_platform.Prelude.{
  ℕ, ◌+◌, ◌*◌, ◌≤◌, ◌≡◌, inr, refl, true, false, String, none, some, List, [], ◌∷◌, arith, ap, sym,
}
use mcp_kubernetes_platform.Prelude.Assoc.{lookup}
use mcp_kubernetes_platform.Prelude.Effects.{Result, ok, raised}
use mcp_kubernetes_platform.Ladder.Types.{
  second, idle, restart_issued, watch_healing, healed, ResourceRef, LadderSession, type_error,
  ContainerStatus, Event, given, Call, sleep, History, Outside, Settings, World,
}
use mcp_kubernetes_platform.Ladder.Eligibility.{is_trading, Counts, active}
use mcp_kubernetes_platform.Ladder.Methods.{apply, ask_pod, ask_events, set_state}
use mcp_kubernetes_platform.Ladder.Watch.{
  watch, watchdog, watchdog_from, watch_loop, read_clock, poll, judge, pause, new_warnings,
}
use mcp_kubernetes_platform.Ladder.Driver.{dispatch, advance, drive, Ladder, detect}
use mcp_kubernetes_platform.Ladder.Quiet.{patches, drive-patches}
use mcp_kubernetes_platform.Ladder.Transitions.{is_ok, drive-interrupted}
use mcp_kubernetes_platform.Ladder.Termination.{
  has_aware_warning, IsCooperative, HasVerdict, watch-verdict,
}
use mcp_kubernetes_platform.Ladder.Liveness.{is_terminal, drive-terminal}
use mcp_kubernetes_platform.Ladder.Healing.{HealedTwice, watch-HealedTwice}
use mcp_kubernetes_platform.Ladder.Aware.{ReportsAware, advance-aware}
use mcp_kubernetes_platform.Ladder.Breaker.{detect_all, detect_all-full}

-- the time slept so far
abbrev slept : History → ℕ
slept [] = 0
slept (sleep n ∷ h) = slept h + n
slept (_ ∷ h) = slept h

abbrev well : ContainerStatus
well = record {
  name = "app";
  ready = true;
  restart_count = some 1;
  waiting = none;
  exit_code = none;
}

-- the client's own event times, with their offset
abbrev normal : Event
normal = record {
  type = "Normal";
  reason = some "Pulled";
  last_timestamp = some (record { aware = true; at = 5 });
}

abbrev calm : Outside
calm = record {
  utc = λ h. 0;
  clock = slept;
  uuid = λ h. "00000000-0000-4000-8000-000000000000";
  naive_timestamp = λ t. t;
  pod = λ h. ok (some (well ∷ []));
  events = λ h. ok (normal ∷ []);
  log = λ h. none;
  patched = λ h. ok tt;
}

slept-onward : (h : History) (c : Call) → slept h ≤ slept (c ∷ h)
slept-onward h (sleep n) = omega arith
slept-onward h _ = omega arith

abbrev listed_or_none : Result ℕ (List Event) → List Event
listed_or_none (ok es) = es
listed_or_none (raised status) = []

calm-IsCooperative : IsCooperative calm
calm-IsCooperative = record {
  pods = λ h. refl;
  listed = λ h. refl;
  comparable = λ h es e. ap (λ r. has_aware_warning (listed_or_none r)) (sym e);
  patches = λ h. refl;
  onward = slept-onward;
  rested = λ h n. omega arith;
}

abbrev live : Settings
live = record {
  dry_run = false;
  escalation_webhook = "https://example.org/hook";
  crash_threshold = 5;
  ns_cap = 10;
}

abbrev session : String → LadderSession
session ns = record {
  session_id = "s-1";
  resource = record { namespace = ns; kind = "Deployment"; name = "web" };
  state = idle;
  restart_ts = none;
  heal_deadline_ts = none;
  ladder_cycles_this_hour = 0;
  dpo_pair = none;
  created_at = 0;
  updated_at = 0;
}

abbrev fresh : String → World
fresh ns = record { session = session ns; calls = [] }

abbrev restarted : World
restarted = record {
  session = record (session "shop") { state = restart_issued; restart_ts = some 0 };
  calls = [];
}

drive-patches_example :
    (patches (drive live calm 11 4 (fresh "daxxon-trading")).1.calls ≡ 0)
    × (patches (apply calm live (given "{}") (fresh "daxxon-trading")).1.calls ≡ 0)
unfolding is_trading
drive-patches_example =
    drive-patches live calm 11 4 (given "{}") (fresh "daxxon-trading") (inr refl)

watch-verdict_example : HasVerdict (watch calm 11 restarted)
watch-verdict_example = watch-verdict calm-IsCooperative 10 0 restarted (omega arith) refl

drive-terminal_example :
    (is_ok (drive live calm 11 4 (fresh "shop")).0 ≡ true)
    × (is_terminal (drive live calm 11 4 (fresh "shop")).1.session.state ≡ true)
unfolding is_trading
drive-terminal_example =
    drive-terminal live calm-IsCooperative 10 (omega arith) 0 (fresh "shop") refl refl (omega arith)

-- the calm outside heals the session at the second reading
calm_heals : (watch calm 11 restarted).1.session.state ≡ healed
unfolding watch watchdog watchdog_from watch_loop read_clock poll judge pause set_state ask_pod
    ask_events new_warnings
calm_heals = refl

watch-HealedTwice_example : HealedTwice calm 0 30 (300 * second) (watch calm 11 restarted).1
watch-HealedTwice_example = watch-HealedTwice calm 11 0 restarted refl calm_heals

-- a warning with such a time
abbrev warning : Event
warning = record {
  type = "Warning";
  reason = some "BackOff";
  last_timestamp = some (record { aware = true; at = 5 });
}

abbrev noisy : Outside
noisy = record calm { events = λ h. ok (warning ∷ []) }

noisy_listing :
    (es : List Event)
    → ◌≡◌ {A = Result ℕ (List Event)} (ok (warning ∷ [])) (ok es)
    → has_aware_warning es ≡ true
noisy_listing es e = ap (λ r. has_aware_warning (listed_or_none r)) (sym e)

noisy-ReportsAware : ReportsAware noisy
noisy-ReportsAware = record {
  pods = λ h. refl;
  listed = λ h. refl;
  aware = λ h es e. noisy_listing es e;
}

advance-aware_example :
    ((advance live noisy 11 restarted).0 ≡ raised type_error)
    × ((drive live noisy 11 3 (advance live noisy 11 restarted).1).1.session.state ≡ watch_healing)
advance-aware_example =
    advance-aware noisy-ReportsAware live 10 0 3 restarted refl refl (omega arith)

interrupted : is_ok (advance live noisy 11 restarted).0 ≡ false
unfolding advance dispatch watch watchdog watchdog_from watch_loop read_clock poll judge pause
    set_state ask_pod ask_events new_warnings
interrupted = refl

drive-interrupted_example :
    (drive live noisy 11 5 (advance live noisy 11 restarted).1
      ≡ (ok tt, (advance live noisy 11 restarted).1))
    × ((advance live noisy 11 restarted).1.session.state ≡ watch_healing)
drive-interrupted_example = drive-interrupted noisy live 11 5 restarted refl interrupted

abbrev two : Counts
two = ("shop", 2) ∷ []

two_bounded : (j : String) → active j two ≤ 3
unfolding active lookup
two_bounded j = ground arith

abbrev crowded : Ladder
crowded = record { counts = ("shop", 10) ∷ []; calls = [] }

abbrev web : ResourceRef
web = record { namespace = "shop"; kind = "Pod"; name = "web" }

detect_all-full_example :
    is_ok
      (detect live calm web
        (detect_all live calm (record web { namespace = "blog" } ∷ web ∷ []) crowded)).0
    ≡ false
unfolding active lookup
detect_all-full_example =
    detect_all-full live calm "shop" (record web { namespace = "blog" } ∷ web ∷ []) web crowded
      (omega arith) refl
