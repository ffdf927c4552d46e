-- ===== src/Raft/Frames.antt =====
-- What the batch operations of the store leave alone.
use zattera_dev.Base.{ℕ, ◌≡◌, refl, ◌∙◌, List, [], ◌∷◌, ◌++◌, ◌-◌, drop, length, arith}
use zattera_dev.State.Types.{Ident, Assignment, Event}
use zattera_dev.State.Store.{
  Store, put_assignment, put_assignments, delete_assignment, delete_assignments, touch, touch_each,
  event_ring_cap, append_events,
}
use zattera_dev.Raft.Rules.{IsStep}

-- A step that touches assignments and events only.
pub record Framed (s t : Store) : Type 0 where
  pub environments : t.environments ≡ s.environments
  pub releases : t.releases ≡ s.releases
  pub deployments : t.deployments ≡ s.deployments
  pub builds : t.builds ≡ s.builds
  pub nodes : t.nodes ≡ s.nodes
  pub volumes : t.volumes ≡ s.volumes
  pub jobs : t.jobs ≡ s.jobs

pub Framed-step : IsStep Framed
Framed-step = record {
  stay = λ s. record {
    environments = refl;
    releases = refl;
    deployments = refl;
    builds = refl;
    nodes = refl;
    volumes = refl;
    jobs = refl;
  };
  join = λ s t u p q. record {
    environments = q.environments ∙ p.environments;
    releases = q.releases ∙ p.releases;
    deployments = q.deployments ∙ p.deployments;
    builds = q.builds ∙ p.builds;
    nodes = q.nodes ∙ p.nodes;
    volumes = q.volumes ∙ p.volumes;
    jobs = q.jobs ∙ p.jobs;
  };
}

put_assignment-Framed : (a : Assignment) (s : Store) → Framed s (put_assignment a s)
unfolding put_assignment
put_assignment-Framed a s = ground arith

pub put_assignments-Framed :
    (batch : List Assignment) (s : Store) → Framed s (put_assignments batch s)
unfolding put_assignments
put_assignments-Framed [] s = Framed-step.stay s
put_assignments-Framed (a ∷ batch) s =
    Framed-step.join s (put_assignment a s) (put_assignments batch (put_assignment a s))
      (put_assignment-Framed a s) (put_assignments-Framed batch (put_assignment a s))

delete_assignment-Framed : (id : ℕ) (s : Store) → Framed s (delete_assignment id s)
unfolding delete_assignment
delete_assignment-Framed id s = ground arith

pub delete_assignments-Framed : (ids : List Ident) (s : Store) → Framed s (delete_assignments ids s)
unfolding delete_assignments
delete_assignments-Framed [] s = Framed-step.stay s
delete_assignments-Framed (id ∷ ids) s =
    Framed-step.join s (delete_assignment id s) (delete_assignments ids (delete_assignment id s))
      (delete_assignment-Framed id s) (delete_assignments-Framed ids (delete_assignment id s))

-- A step that touches events only.
pub record EventsOnly (s t : Store) : Type 0 where
  pub framed : Framed s t
  pub assignments : t.assignments ≡ s.assignments

pub EventsOnly-step : IsStep EventsOnly
EventsOnly-step = record {
  stay = λ s. record { framed = Framed-step.stay s; assignments = refl };
  join = λ s t u p q. record {
    framed = Framed-step.join s t u p.framed q.framed;
    assignments = q.assignments ∙ p.assignments;
  };
}

touch_each-EventsOnly : (es : List Event) (s : Store) → EventsOnly s (touch_each es s)
unfolding touch_each
touch_each-EventsOnly [] s = EventsOnly-step.stay s
touch_each-EventsOnly (e ∷ es) s =
    EventsOnly-step.join s (touch s) (touch_each es (touch s)) (ground arith)
      (touch_each-EventsOnly es (touch s))

pub append_events-EventsOnly : (es : List Event) (s : Store) → EventsOnly s (append_events es s)
unfolding append_events
append_events-EventsOnly es s =
    let held = record s {
      events = drop (length (s.events ++ es) - event_ring_cap) (s.events ++ es);
    } in
    EventsOnly-step.join s held (touch_each es held) (ground arith) (touch_each-EventsOnly es held)
