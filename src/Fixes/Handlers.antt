-- ===== src/Fixes/Handlers.antt =====
-- The ten handlers and `dispatch`. The arithmetic on doubles is an argument: `grown c g` is
-- int(c * (1 + g / 100)), and `bumped m p` is int(m * (1 + p / 100) / 2**20).
use mcp_kubernetes_platform.Prelude.{
  ℕ, ◌-◌, ◌/◌, Bool, true, false, String, ◌<>◌, Option, none, some, List, [], ◌∷◌, leb, show,
  get_or, if◌then◌else◌,
}
use mcp_kubernetes_platform.Prelude.Effects.{Result, ok, raised}
use mcp_kubernetes_platform.Prelude.Assoc.{lookup}
use mcp_kubernetes_platform.Fixes.Data.{
  Json, text, number, array, object, end, item, close, field, Probe, Finding, ClusterState,
  strategic_merge, kubectl_cmd, command, patch, FixCandidate, FixError, no_mapping, no_nodes,
  few_replicas,
}
use mcp_kubernetes_platform.Fixes.Patches.{
  one, pod_spec, container_patch, get_json, or_json, require, named,
}
use mcp_kubernetes_platform.Fixes.Conditions.{
  Handler, applies_to, registry, image_tag_migration, probe_tuning, orphan_job_cleanup,
  oom_killed_restart_with_bump_proposal, pvc_resize, dns_config_fix, node_selector_mismatch,
  toleration_missing, hpa_enable_metrics_server, pdb_too_strict,
}

abbrev pub then_do :
    {A B : Type 0} → Result FixError A → (A → Result FixError B) → Result FixError B
then_do (raised e) f = raised e
then_do (ok a) f = f a

abbrev pub known_migrations : List (String × String)
known_migrations =
    ("bitnami/kubectl:1.30", "registry.k8s.io/kubectl:v1.30.12")
    ∷ ("bitnami/kubectl:1.29", "registry.k8s.io/kubectl:v1.29.9")
    ∷ ("k8s.gcr.io/pause:3.8", "registry.k8s.io/pause:3.8")
    ∷ ("k8s.gcr.io/coredns/coredns:v1.9", "registry.k8s.io/coredns/coredns:v1.9.3")
    ∷ []

-- a FixCandidate of a patch
abbrev pub merge : String → Json → Bool → String → FixCandidate
merge d p review reference = record {
  description = d;
  patch_type = strategic_merge;
  payload = patch p;
  requires_review = review;
  references = reference ∷ [];
}

unfoldable pub migrate_to : Finding → String → Option String → Result FixError FixCandidate
migrate_to f current none = raised (no_mapping current)
migrate_to f current (some new) = ok (
    merge ("Migrate " <> current <> " -> " <> new)
      (container_patch f.container_name "image" (text new)) false
      "https://kubernetes.io/blog/2023/03/10/image-registry-redirect/")

unfoldable pub fix_image : Finding → Result FixError FixCandidate
fix_image f =
    then_do (require "current_image" f.raw.current_image)
      (λ current. migrate_to f current (lookup current known_migrations))

abbrev no_probe : Probe
no_probe = record { http_get = none; tcp_socket = none }

unfoldable pub fix_probe : Finding → FixCandidate
fix_probe f =
    let probe = get_or f.raw.existing_liveness_probe no_probe in
    merge ("Add startupProbe to " <> named f.container_name <> "; failureThreshold=30")
      (container_patch f.container_name "startupProbe" (
        object (
          field "httpGet" (or_json (get_json probe.http_get) (get_json probe.tcp_socket)) (
            field "initialDelaySeconds" (number 10)
              (field "periodSeconds" (number 5) (field "failureThreshold" (number 30) close))))))
      false
      "https://kubernetes.io/docs/tasks/configure-pod-container/configure-liveness-readiness-startup-probes/"

unfoldable pub fix_orphan : Finding → FixCandidate
fix_orphan f = record {
  description = "Delete orphan Job " <> f.namespace <> "/" <> f.resource_name;
  patch_type = kubectl_cmd;
  payload = command (
      "kubectl delete job " <> f.resource_name <> " -n " <> f.namespace <> " --cascade=foreground");
  requires_review = true;
  references = "https://kubernetes.io/docs/concepts/workloads/controllers/job/" ∷ [];
}

unfoldable pub fix_dns : Finding → ClusterState → FixCandidate
fix_dns f k =
    merge ("Set dnsPolicy=ClusterFirst and inject dnsConfig for " <> f.resource_name)
      (pod_spec (
        field "dnsPolicy" (text "ClusterFirst") (
          field "dnsConfig"
            (object (
              field "nameservers" (array (item (text (get_or k.cluster_dns_ip "10.96.0.10")) end)) (
                field "searches"
                  (array (
                    item (text (f.namespace <> ".svc.cluster.local"))
                      (item (text "svc.cluster.local") (item (text "cluster.local") end))))
                  close)))
            close)))
      false "https://kubernetes.io/docs/concepts/services-networking/dns-pod-service/"

unfoldable pub select_first : String → List String → Result FixError FixCandidate
select_first key [] = raised (no_nodes key)
select_first key (v ∷ vs) = ok (
    merge ("Correct nodeSelector " <> key <> "=" <> v)
      (pod_spec (field "nodeSelector" (one key (text v)) close)) true
      "https://kubernetes.io/docs/concepts/scheduling-eviction/assign-pod-node/")

unfoldable pub fix_selector : Finding → ClusterState → Result FixError FixCandidate
fix_selector f k =
    then_do (require "mismatched_label_key" f.raw.mismatched_label_key)
      (λ key. select_first key (get_or (lookup key (get_or k.node_label_values [])) []))

unfoldable pub fix_toleration : Finding → Result FixError FixCandidate
fix_toleration f = then_do (require "blocking_taint" f.raw.blocking_taint) (λ taint.
    then_do (require "key" taint.key) (λ key. then_do (require "effect" taint.effect) (λ effect.
      let value = get_or taint.value "" in
      ok (
        merge ("Add toleration for taint " <> key <> "=" <> value <> ":" <> effect)
          (pod_spec (
            field "tolerations"
              (array (
                item
                  (object (
                    field "key" (text key) (
                      field "operator" (text "Equal")
                        (field "value" (text value) (field "effect" (text effect) close)))))
                  end))
              close))
          true "https://kubernetes.io/docs/concepts/scheduling-eviction/taint-and-toleration/"))))

unfoldable pub metrics_command : Bool → String
metrics_command false =
    "kubectl apply -f https://github.com/kubernetes-sigs/metrics-server/releases/latest/download/components.yaml"
metrics_command true =
    "kubectl patch clusterrolebinding system:metrics-server --type=json -p '[{\"op\":\"add\",\"path\":\"/subjects/-\",\"value\":{\"kind\":\"ServiceAccount\",\"name\":\"metrics-server\",\"namespace\":\"kube-system\"}}]'"

unfoldable pub fix_metrics : ClusterState → FixCandidate
fix_metrics k = record {
  description = "Install metrics-server or repair its RBAC so HPA can scrape resource metrics";
  patch_type = kubectl_cmd;
  payload = command (metrics_command (get_or k.metrics_server_deployed false));
  requires_review = false;
  references =
      "https://github.com/kubernetes-sigs/metrics-server"
      ∷ "https://kubernetes.io/docs/tasks/run-application/horizontal-pod-autoscale/" ∷ [];
}

-- {"spec": {"minAvailable": …}}
abbrev pub min_available : ℕ → Json
min_available n = one "spec" (one "minAvailable" (number n))

abbrev pub budget_fix : Finding → ℕ → FixCandidate
budget_fix f replicas =
    merge
      ("Relax PDB "
        <> f.resource_name
        <> ": minAvailable "
        <> show replicas
        <> " -> "
        <> show (replicas - 1))
      (min_available (replicas - 1)) true
      "https://kubernetes.io/docs/tasks/run-application/configure-pdb/"

unfoldable pub relax_budget : Finding → ℕ → Result FixError FixCandidate
relax_budget f replicas =
    if leb replicas 1
    then raised (few_replicas f.resource_name replicas)
    else ok (budget_fix f replicas)

unfoldable pub fix_budget : Finding → Result FixError FixCandidate
fix_budget f = then_do (require "matched_pods" f.raw.matched_pods) (relax_budget f)

module _ (bumped grown : ℕ → ℕ → ℕ) where
  unfoldable pub fix_memory : Finding → Result FixError FixCandidate
  fix_memory f =
      let percent = get_or f.raw.bump_percent 30 in
      then_do (require "current_memory_limit_bytes" f.raw.current_memory_limit_bytes) (λ current.
        let new = show (bumped current percent) in
        ok (
          merge
            ("Propose memory limit "
              <> show (current / 1048576)
              <> "Mi -> "
              <> new
              <> "Mi (+"
              <> show percent
              <> "%)")
            (container_patch f.container_name "resources"
              (one "limits" (one "memory" (text (new <> "Mi")))))
            true "https://kubernetes.io/docs/concepts/configuration/manage-resources-containers/"))

  unfoldable pub fix_volume : Finding → Result FixError FixCandidate
  fix_volume f = then_do (require "capacity_gi" f.raw.capacity_gi) (λ current.
      let new = show (grown current (get_or f.raw.growth_percent 50)) in
      ok (
        merge ("Expand PVC " <> f.resource_name <> " " <> show current <> "Gi -> " <> new <> "Gi")
          (one "spec" (one "resources" (one "requests" (one "storage" (text (new <> "Gi")))))) false
          "https://kubernetes.io/docs/concepts/storage/persistent-volumes/#expanding-persistent-volumes-claims"))

  unfoldable pub generate_fix : Handler → Finding → ClusterState → Result FixError FixCandidate
  generate_fix image_tag_migration f k = fix_image f
  generate_fix probe_tuning f k = ok (fix_probe f)
  generate_fix orphan_job_cleanup f k = ok (fix_orphan f)
  generate_fix oom_killed_restart_with_bump_proposal f k = fix_memory f
  generate_fix pvc_resize f k = fix_volume f
  generate_fix dns_config_fix f k = ok (fix_dns f k)
  generate_fix node_selector_mismatch f k = fix_selector f k
  generate_fix toleration_missing f k = fix_toleration f
  generate_fix hpa_enable_metrics_server f k = ok (fix_metrics k)
  generate_fix pdb_too_strict f k = fix_budget f

  -- the loop of `dispatch`
  unfoldable pub dispatch_to :
      List Handler → Finding → ClusterState → Result FixError (Option FixCandidate)
  dispatch_to [] f k = ok none
  dispatch_to (h ∷ hs) f k =
      let rest = dispatch_to hs f k in
      if applies_to h f then then_do (generate_fix h f k) (λ fix. ok (some fix)) else rest

module _ (bumped grown : ℕ → ℕ → ℕ) where
  unfoldable pub dispatch : Finding → ClusterState → Result FixError (Option FixCandidate)
  dispatch f k = dispatch_to bumped grown registry f k
