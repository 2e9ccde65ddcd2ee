-- ===== src/Control/Planner/Paths.antt =====
-- The tables of the planner (app/control/planner.py).
use devops_agent.Prelude.{ℕ, List, [], ◌∷◌}
use devops_agent.Text.{Text, codes}
use devops_agent.Dict.{Dict}

pub record DiagnosticStep : Type 0 where
  pub tool : Text
  pub arguments : Dict ℕ
  pub reason : Text
  pub priority : ℕ

pub record DiagnosticPath : Type 0 where
  pub tools : List DiagnosticStep
  pub keywords : List Text

abbrev step : Text → Dict ℕ → Text → DiagnosticStep
step tool arguments reason = record {
  tool = tool;
  arguments = arguments;
  reason = reason;
  priority = 0;
}

unfoldable pub docker_path : DiagnosticPath
docker_path = record {
  tools =
      step (codes "docker_health_status") [] (codes "Check container states")
      ∷ step (codes "docker_stats") [] (codes "Check resource usage")
      ∷ [];
  keywords = codes "docker" ∷ codes "container" ∷ codes "containers" ∷ [];
}

unfoldable pub jenkins_path : DiagnosticPath
jenkins_path = record {
  tools =
      step (codes "get_jenkins_status") [] (codes "Check Jenkins container state")
      ∷ step (codes "get_jenkins_logs") ((codes "lines", 50) ∷ [])
          (codes "Check recent Jenkins logs")
      ∷ step (codes "get_jenkins_stats") [] (codes "Check Jenkins resource usage")
      ∷ [];
  keywords = codes "jenkins" ∷ codes "ci" ∷ codes "ci/cd" ∷ codes "build" ∷ [];
}

unfoldable pub k3s_path : DiagnosticPath
k3s_path = record {
  tools =
      step (codes "get_k3s_nodes") [] (codes "Check cluster nodes")
      ∷ step (codes "get_k3s_pods") [] (codes "Check pod states")
      ∷ step (codes "get_k3s_events") [] (codes "Check recent cluster events")
      ∷ [];
  keywords =
      codes "k3s"
      ∷ codes "kubernetes"
      ∷ codes "k8s"
      ∷ codes "pod"
      ∷ codes "cluster"
      ∷ codes "deploy"
      ∷ [];
}

unfoldable pub server_path : DiagnosticPath
server_path = record {
  tools =
      step (codes "get_cpu_usage") [] (codes "Check CPU load")
      ∷ step (codes "get_memory_usage") [] (codes "Check memory usage")
      ∷ step (codes "get_disk_usage") [] (codes "Check disk usage")
      ∷ step (codes "get_uptime") [] (codes "Check uptime")
      ∷ [];
  keywords =
      codes "server"
      ∷ codes "vps"
      ∷ codes "host"
      ∷ codes "machine"
      ∷ codes "cpu"
      ∷ codes "memory"
      ∷ codes "disk"
      ∷ [];
}

unfoldable pub network_path : DiagnosticPath
network_path = record {
  tools = step (codes "check_network_connectivity") [] (codes "Check VPS reachability") ∷ [];
  keywords = codes "network" ∷ codes "reachability" ∷ codes "ping" ∷ codes "connect" ∷ [];
}

unfoldable pub process_path : DiagnosticPath
process_path = record {
  tools =
      step (codes "list_top_processes") ((codes "limit", 10) ∷ []) (codes "Check top processes")
      ∷ [];
  keywords = codes "process" ∷ codes "processes" ∷ codes "cpu" ∷ codes "load" ∷ codes "slow" ∷ [];
}

unfoldable pub health_path : DiagnosticPath
health_path = record {
  tools =
      step (codes "check_infrastructure_health") [] (codes "Full infrastructure health sweep") ∷ [];
  keywords =
      codes "health"
      ∷ codes "everything"
      ∷ codes "all"
      ∷ codes "status"
      ∷ codes "ok"
      ∷ codes "fine"
      ∷ codes "check"
      ∷ [];
}

-- `_DIAGNOSTIC_PATHS`, in the order of the table
unfoldable pub diagnostic_paths : List DiagnosticPath
diagnostic_paths =
    docker_path ∷ jenkins_path ∷ k3s_path ∷ server_path ∷ network_path ∷ process_path ∷ health_path
    ∷ []

unfoldable pub noise_words : List Text
noise_words =
    codes "the"
    ∷ codes "and"
    ∷ codes "for"
    ∷ codes "are"
    ∷ codes "but"
    ∷ codes "not"
    ∷ codes "you"
    ∷ codes "all"
    ∷ codes "can"
    ∷ codes "had"
    ∷ codes "her"
    ∷ codes "was"
    ∷ codes "one"
    ∷ codes "our"
    ∷ codes "out"
    ∷ codes "has"
    ∷ codes "have"
    ∷ codes "been"
    ∷ codes "what"
    ∷ codes "when"
    ∷ codes "where"
    ∷ codes "how"
    ∷ codes "why"
    ∷ codes "does"
    ∷ codes "this"
    ∷ codes "that"
    ∷ codes "with"
    ∷ codes "from"
    ∷ codes "they"
    ∷ codes "been"
    ∷ codes "said"
    ∷ codes "each"
    ∷ codes "which"
    ∷ codes "their"
    ∷ []
