-- ===== src/Tests.antt =====
-- A small cluster on which the theorems are applied: one node, a live release and a rollout of the next.
pub mod Images
pub mod Stores
pub mod Placing
pub mod Rollouts
pub mod Running
pub mod Guarding
pub mod Meshing
pub mod Metrics
pub mod Leading
use zattera_dev.Base.{ℕ, zero, suc, ◌+◌, ◌*◌, Bool, true, false, none, some, List, [], ◌∷◌}
use zattera_dev.State.Types.{
  Ident, blank, Environment, Release, Deployment, DeploymentPhase, ServiceSpec, Node, NodeStatus,
  Assignment, AssignmentDesired, Job, JobStatus, pos, Resources,
}
use zattera_dev.State.Store.{Store, new}
use zattera_dev.Raft.World.{World, Answer, committed, failed}
use zattera_dev.Scheduler.Helpers.{unobserved, second}
use zattera_dev.Scheduler.Orchestrator.{Orchestrator}

abbrev pub web : ServiceSpec
web = record {
  replicas_min = 1;
  replicas_max = 2;
  resources = record { cpu_millis = 100; memory_mb = 256 };
  grace_period = 0;
  scale_to_zero = false;
  max_concurrency = 0;
  stateful = false;
  volumes = [];
  cron = [];
  placement_constraints = [];
}

abbrev pub production : Environment
production = record {
  id = 1;
  updated_at = 0;
  app_id = 101;
  project_id = 100;
  service = web;
  active_release_id = 10;
  route_generation = 4;
  effective_replicas = 1;
  idle_timeout = 0;
}

abbrev pub release_of : Ident → Release
release_of id = record {
  id = id;
  environment_id = 1;
  version = id;
  image_ref = 77;
  config_hash = 78;
  service = web;
  platforms = [];
}

abbrev pub host : Node
host = record {
  id = 50;
  status = NodeStatus.alive;
  schedulable = true;
  os_arch = "linux/amd64";
  labels = [];
  capacity = record { cpu_millis = 0; memory_mb = 512 };
  last_heartbeat_at = none;
}

abbrev pub live : Assignment
live = record {
  id = 200;
  created_at = 0;
  updated_at = 0;
  node_id = 50;
  project_id = 100;
  app_id = 101;
  environment_id = 1;
  release_id = 10;
  deployment_id = 299;
  desired = AssignmentDesired.run;
  config_hash = 78;
  mesh_port_bindings = [];
  observed = unobserved;
  job_id = blank;
}

abbrev pub rollout : DeploymentPhase → Deployment
rollout phase = record {
  id = 300;
  created_at = 0;
  updated_at = 0;
  environment_id = 1;
  app_id = 101;
  project_id = 100;
  release_id = 11;
  previous_release_id = 10;
  phase = phase;
  error = none;
  is_rollback = false;
  build_id = blank;
  promoted_at = none;
  drain_deadline = none;
}

-- A job that has failed once and may be retried once.
abbrev pub nightly : Job
nightly = record {
  id = 400;
  updated_at = 0;
  project_id = 100;
  app_id = 101;
  environment_id = 1;
  release_id = 10;
  command = 79;
  cron_name = blank;
  status = JobStatus.retrying;
  node_id = 50;
  exit_code = pos 1;
  attempt = 1;
  max_retries = 1;
  error = none;
  started_at = none;
  finished_at = some 0;
}

abbrev pub cluster : DeploymentPhase → Store
cluster phase = record {
  version = 9;
  environments = (1, production) ∷ [];
  releases = (10, release_of 10) ∷ (11, release_of 11) ∷ [];
  deployments = (300, rollout phase) ∷ [];
  builds = [];
  nodes = (50, host) ∷ [];
  assignments = (200, live) ∷ [];
  assignments_by_node = (50, (200, tt) ∷ []) ∷ [];
  volumes = [];
  jobs = (400, nightly) ∷ [];
  events = [];
}

abbrev pub world : (ℕ → Answer) → DeploymentPhase → World
world answers phase = record {
  store = cluster phase;
  answers = answers;
  asked = 0;
  leads = true;
  now = 60 * second;
  fresh = λ n. 1000 + n;
  drawn = 0;
}

abbrev pub always : ℕ → Answer
always _ = committed

-- The first proposal times out, the others are committed.
abbrev pub fails_first : ℕ → Answer
fails_first zero = failed
fails_first (suc _) = committed

abbrev pub orchestrator : Orchestrator
orchestrator = record { drain_dur = 0 }
