-- ===== src/Tests/Placing.antt =====
-- Two replicas of a release are asked for, and the node has room for one.
use zattera_dev.Base.{
  ◌≡◌, ◌↔◌, ◌⊎◌, ◌≤◌, ◌+◌, ◌*◌, none, [], length, refl, All, Exists, values, get, put, arith,
}
use zattera_dev.Platform.{supports}
use zattera_dev.Scheduler.Helpers.{labels_match}
use zattera_dev.State.Types.{DeploymentPhase}
use zattera_dev.State.Store.{Store, list_nodes, list_assignments, release}
use zattera_dev.Scheduler.Placement.{
  place, ledger, candidates, request, empty_tally, reserved_at, verdict, picked_result, picks,
  choose, has_room, better, effective_resources,
}
use zattera_dev.Scheduler.Placement.Result.{
  length-place, place-Eligible, place-Greedy, Eligible, Greedy,
}
use zattera_dev.Scheduler.Placement.Capacity.{
  place_short, place-within, NoRoom, last_tally, along, times, Dimension,
}
use zattera_dev.Tests.{cluster, release_of, host}

abbrev st : Store
st = cluster DeploymentPhase.placing

length-place_example :
    (length (place st (release_of 11) 1 2 []).0 ≤ 2)
    × (((place st (release_of 11) 1 2 []).1 ≡ none)
        ↔ (length (place st (release_of 11) 1 2 []).0 ≡ 2))
length-place_example = length-place st (release_of 11) 1 2 []

place-Eligible_example :
    All
      (λ id. Exists (λ m. Eligible st (release_of 11) 1 [] m × (m.id ≡ id)) (list_nodes st))
      (place st (release_of 11) 1 2 []).0
place-Eligible_example = place-Eligible st (release_of 11) 1 2 []

place-Greedy_example :
    Greedy
      (ledger st (release_of 11) 1)
      (candidates (request st (release_of 11) 1 []) st)
      empty_tally
      (place st (release_of 11) 1 2 []).0
place-Greedy_example = place-Greedy st (release_of 11) 1 2 []

place_short_example :
    NoRoom
      (ledger st (release_of 11) 1)
      (last_tally
        (ledger st (release_of 11) 1)
        (candidates (request st (release_of 11) 1 []) st)
        2
        empty_tally)
      (candidates (request st (release_of 11) 1 []) st)
unfolding place candidates list_nodes values verdict request supports labels_match picked_result
    picks choose has_room reserved_at get ledger list_assignments put release effective_resources
    better
place_short_example = place_short st (release_of 11) 1 2 [] {p = 1} {q = 2} refl

place-within_example :
    (times 50 (place st (release_of 11) 1 2 []).0 ≡ 0)
    ⊎ (along Dimension.memory (reserved_at 50 (ledger st (release_of 11) 1).reserved)
          + times 50 (place st (release_of 11) 1 2 []).0
            * along Dimension.memory (ledger st (release_of 11) 1).need
        ≤ 512)
unfolding list_nodes ledger values effective_resources reserved_at list_assignments release get put
place-within_example =
    place-within Dimension.memory st (release_of 11) 1 2 [] host ((λ _. refl), tt)
      (λ e. ground arith) (ground arith)
