-- ===== src/Tests/Guarding.antt =====
-- A volume whose lease another node holds, an orphan beside a live assignment, a node that drains.
use zattera_dev.Base.{◌≡◌, ◌⊎◌, ◌*◌, some, [], ◌∷◌, refl, arith, get, values}
use zattera_dev.State.Types.{Volume, VolumeStatus, Node, NodeStatus, DeploymentPhase}
use zattera_dev.State.Store.{node_index, environment, release}
use zattera_dev.State.Index.{IndexAgrees}
use zattera_dev.Raft.World.{World}
use zattera_dev.Scheduler.Helpers.{second}
use zattera_dev.Scheduler.Volumes.{reconcile_leases}
use zattera_dev.Scheduler.Volumes.Leases.{Renewed, reconcile_leases-Renewed}
use zattera_dev.Scheduler.Reconciler.{reconcile_orphans, is_orphan, drain_node}
use zattera_dev.Scheduler.Reconciler.Batch.{AssignmentsKeyed, reconcile_orphans-keeps}
use zattera_dev.Scheduler.Reconciler.Drains.{MayLeave, drain_node-spares}
use zattera_dev.Tests.{cluster, world, always, live, host}

abbrev disk : Volume
disk = record {
  id = 500;
  updated_at = 0;
  project_id = 100;
  environment_id = 1;
  name = 80;
  node_id = 50;
  status = VolumeStatus.active;
  lease = some (record { node_id = 51; assignment_id = 201; expires_at = some (90 * second) });
}

abbrev leased : World
leased = record (world always DeploymentPhase.succeeded) {
  store = record (cluster DeploymentPhase.succeeded) { volumes = (500, disk) ∷ [] };
}

reconcile_leases-Renewed_example :
    (u : Volume) × (get 500 (reconcile_leases leased).0.store.volumes ≡ some u)
    × Renewed leased.store (60 * second) disk u
unfolding get values
reconcile_leases-Renewed_example = reconcile_leases-Renewed leased 500 disk (refl, tt) refl

-- The live assignment, and one of an environment that is gone.
abbrev orphaned : World
orphaned = record (world always DeploymentPhase.succeeded) {
  store = record (cluster DeploymentPhase.succeeded) {
    assignments =
        (200, live) ∷ (201, record live { id = 201; environment_id = 2; node_id = 51 }) ∷ [];
    assignments_by_node = (50, (200, tt) ∷ []) ∷ (51, (201, tt) ∷ []) ∷ [];
  };
}

orphaned-AssignmentsKeyed : AssignmentsKeyed orphaned.store
unfolding get values
orphaned-AssignmentsKeyed = record {
  ordered = ground arith;
  stored = λ j x found. ground arith;
  listed = (refl, (refl, tt));
}

reconcile_orphans-keeps_example :
    get 200 (reconcile_orphans orphaned).0.store.assignments ≡ some live
unfolding get is_orphan environment release
reconcile_orphans-keeps_example =
    reconcile_orphans-keeps orphaned 200 live orphaned-AssignmentsKeyed refl refl

orphaned-IndexAgrees : IndexAgrees orphaned.store
unfolding get node_index
orphaned-IndexAgrees = record {
  assignments_ordered = ground arith;
  ids_ordered = λ n. ground arith;
  agrees = λ n id. ground arith;
}

abbrev leaving : Node
leaving = record host { status = NodeStatus.draining }

drain_node-spares_example :
    (get 200 (drain_node leaving orphaned).0.store.assignments ≡ some live)
    ⊎ MayLeave orphaned.store leaving live
unfolding get
drain_node-spares_example =
    drain_node-spares leaving orphaned 200 live orphaned-IndexAgrees orphaned-AssignmentsKeyed refl
