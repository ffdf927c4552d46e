-- ===== src/Tests/Stores.antt =====
-- A replica's log of three commands, and a refused one.
use zattera_dev.Base.{◌≡◌, none, some, List, [], ◌∷◌, filter, get, values, refl, Option, ℕ, ◌==◌}
use zattera_dev.State.Store.{new, environment, list_assignments_by_node}
use zattera_dev.State.Types.{DeploymentPhase}
use zattera_dev.Raft.Fsm.{Mutation, put_asgs, put_nod, promote_release, apply}
use zattera_dev.Raft.Replay.{replay, list_assignments_by_node-replay, apply_error_unchanged}
use zattera_dev.Tests.{host, live, cluster}

abbrev log : List (Option ℕ × Mutation)
log =
    (some 1, put_nod host)
    ∷ (some 2, put_asgs (live ∷ []))
    ∷ (some 3, put_asgs (record live { node_id = 51 } ∷ []))
    ∷ []

list_assignments_by_node-replay_example :
    list_assignments_by_node (replay log new) 51
    ≡ filter (λ a. a.node_id == 51) (values (replay log new).assignments)
list_assignments_by_node-replay_example = list_assignments_by_node-replay log 51

abbrev to_nowhere : Mutation
to_nowhere = promote_release (record { environment_id = 2; release_id = 10; deployment_id = 300 })

apply_error_unchanged_example :
    (apply none to_nowhere (cluster DeploymentPhase.promoting)).0
    ≡ cluster DeploymentPhase.promoting
unfolding apply environment get
apply_error_unchanged_example =
    apply_error_unchanged none to_nowhere (cluster DeploymentPhase.promoting) refl
