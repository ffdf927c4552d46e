-- ===== src/State/Types.antt =====
-- The replicated objects (api/proto/zattera/v1), with the fields that the modelled code reads or
-- writes. An id, and any other string that is only compared, is a number: its place in the order of
-- strings, with 0 for "". A timestamp or a duration counts nanoseconds; an unset timestamp is `none`.
use Prim.Native.String.{String}
use zattera_dev.Base.{ℕ, Option, Bool, List, Table}

abbrev pub Ident : Type 0
Ident = ℕ

-- The empty string, and what a getter of an unset string field returns.
abbrev pub blank : Ident
blank = 0

-- int32, for exit codes; `negsuc n` is -(n + 1).
pub data ℤ : Type 0 where
  pos : ℕ → ℤ
  negsuc : ℕ → ℤ

-- Error and event texts: a constructor for each literal of the code, so none is "".
pub data Message : Type 0 where
  environment_not_found release_not_found no_image_ref build_not_found build_no_image : Message
  superseded_by_newer green_failed_to_start green_unhealthy green_not_healthy_in_time : Message
  no_node_available new_failed_to_start new_unhealthy new_not_healthy_in_time : Message
  stopping_current promoted_healthy restarted_previous job_assignment_lost no_capacity : Message
  cannot_place_job : Message
  -- A text that an agent or a builder reports.
  reported build_failed : Ident → Message
  -- With the name of a volume, and of its node.
  no_node_for_volume : Ident → Message
  volume_node_down volume_node_back : Ident → Ident → Message
  stateful_stopped : ℕ → Message

pub data DeploymentPhase : Type 0 where
  unspecified pending building placing starting healthchecking promoting : DeploymentPhase
  draining_old succeeded failed rolled_back superseded stopping_old : DeploymentPhase

pub data InstanceState : Type 0 where
  unspecified pending pulling starting running healthy unhealthy failed stopped : InstanceState

pub data AssignmentDesired : Type 0 where
  unspecified run stop : AssignmentDesired

pub data NodeStatus : Type 0 where
  unspecified alive suspect down draining drained : NodeStatus

pub data BuildStatus : Type 0 where
  unspecified queued running succeeded failed canceled : BuildStatus

pub data JobStatus : Type 0 where
  unspecified queued running succeeded failed retrying canceled : JobStatus

pub data VolumeStatus : Type 0 where
  unspecified active node_lost : VolumeStatus

pub data ConcurrencyPolicy : Type 0 where
  unspecified forbid replace allow : ConcurrencyPolicy

-- A limit or a reservation: uint32 each.
pub record Resources : Type 0 where
  pub cpu_millis : ℕ
  pub memory_mb : ℕ

pub record CronSpec : Type 0 where
  pub name : Ident
  pub schedule : Ident
  pub command : Ident
  pub concurrency : ConcurrencyPolicy
  pub max_retries : ℕ

pub record ServiceSpec : Type 0 where
  pub replicas_min : ℕ
  pub replicas_max : ℕ
  pub resources : Resources
  pub grace_period : ℕ
  pub scale_to_zero : Bool
  pub max_concurrency : ℕ
  pub stateful : Bool
  pub volumes : List Ident
  pub cron : List CronSpec
  pub placement_constraints : List (String × String)

pub record Environment : Type 0 where
  pub id : Ident
  pub updated_at : ℕ
  pub app_id : Ident
  pub project_id : Ident
  pub service : ServiceSpec
  pub active_release_id : Ident
  pub route_generation : ℕ
  pub effective_replicas : ℕ
  pub idle_timeout : ℕ

pub record Release : Type 0 where
  pub id : Ident
  pub environment_id : Ident
  pub version : ℕ
  pub image_ref : Ident
  pub config_hash : Ident
  pub service : ServiceSpec
  pub platforms : List String

pub record Deployment : Type 0 where
  pub id : Ident
  pub created_at : ℕ
  pub updated_at : ℕ
  pub environment_id : Ident
  pub app_id : Ident
  pub project_id : Ident
  pub release_id : Ident
  pub previous_release_id : Ident
  pub phase : DeploymentPhase
  pub error : Option Message
  pub is_rollback : Bool
  pub build_id : Ident
  pub promoted_at : Option ℕ
  pub drain_deadline : Option ℕ

pub record Build : Type 0 where
  pub id : Ident
  pub app_id : Ident
  pub status : BuildStatus
  pub image_ref : Ident
  pub error : Ident
  pub platforms : List String

pub record Node : Type 0 where
  pub id : Ident
  pub status : NodeStatus
  pub schedulable : Bool
  pub os_arch : String
  pub labels : List (String × String)
  pub capacity : Resources
  pub last_heartbeat_at : Option ℕ

-- An assignment with no observed status yet has the default one: `unspecified`, 0 and "".
pub record AssignmentObserved : Type 0 where
  pub state : InstanceState
  pub exit_code : ℤ
  pub message : Ident
  pub mesh_port_bindings : Table ℕ

pub record Assignment : Type 0 where
  pub id : Ident
  pub created_at : ℕ
  pub updated_at : ℕ
  pub node_id : Ident
  pub project_id : Ident
  pub app_id : Ident
  pub environment_id : Ident
  pub release_id : Ident
  pub deployment_id : Ident
  pub desired : AssignmentDesired
  pub config_hash : Ident
  pub mesh_port_bindings : Table ℕ
  pub observed : AssignmentObserved
  pub job_id : Ident

pub record VolumeLease : Type 0 where
  pub node_id : Ident
  pub assignment_id : Ident
  pub expires_at : Option ℕ

pub record Volume : Type 0 where
  pub id : Ident
  pub updated_at : ℕ
  pub project_id : Ident
  pub environment_id : Ident
  pub name : Ident
  pub node_id : Ident
  pub status : VolumeStatus
  pub lease : Option VolumeLease

pub record Job : Type 0 where
  pub id : Ident
  pub updated_at : ℕ
  pub project_id : Ident
  pub app_id : Ident
  pub environment_id : Ident
  pub release_id : Ident
  pub command : Ident
  pub cron_name : Ident
  pub status : JobStatus
  pub node_id : Ident
  pub exit_code : ℤ
  pub attempt : ℕ
  pub max_retries : ℕ
  pub error : Option Message
  pub started_at : Option ℕ
  pub finished_at : Option ℕ

pub record Event : Type 0 where
  pub id : Ident
  pub created_at : ℕ
  pub kind : String
  pub severity : String
  pub project_id : Ident
  pub app_id : Ident
  pub environment_id : Ident
  pub message : Message
