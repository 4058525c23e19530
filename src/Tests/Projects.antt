-- ===== src/Tests/Projects.antt =====
-- Instances of the theorems on projects.
use qemu_agent.Common.{[], ◌∷◌, ◌≡◌, ◌≢◌, ◌↔◌, refl, some, ok}
use qemu_agent.Text.{codes}
use qemu_agent.Modeling.Types.{
  Stage, extract, verify, Status, running, blocked, Error, wraps, canceled, err_tool_denied,
}
use qemu_agent.Modeling.Project.{
  Project, can_advance, begin, complete, hold, fail_with, reset, validate,
}
use qemu_agent.Modeling.Project.Reach.{Reach, Step, Declares, Reach-validate}
use qemu_agent.Modeling.Project.Reach.Final.{Reach-can_advance}
use qemu_agent.Tests.Samples.{
  computes, timer_id, team, ann, created, plan_ref, plan_proof, planning,
}

created_valid : validate created ≡ ok tt
unfolding computes
created_valid = refl

begins_ok : begin created Stage.plan 200 ≡ ok planning
unfolding computes
begins_ok = refl

planning_reached : Reach planning
planning_reached =
    Reach.next (Reach.created timer_id (codes "timer") team ann 100 created_valid)
      (Step.begins Stage.plan 200 begins_ok)

planning_declared : Declares planning_reached
unfolding planning_reached
planning_declared = (tt, tt)

Reach-validate_example : validate planning ≡ ok tt
Reach-validate_example = Reach-validate planning planning_reached planning_declared

Reach-can_advance_example :
    (can_advance planning extract ≡ ok tt)
    ↔ ((planning.status ≢ running) × (extract ≡ planning.current))
Reach-can_advance_example = Reach-can_advance planning extract planning_reached planning_declared

abbrev planned : Project
planned = record planning {
  current = extract;
  status = Status.pending;
  artifacts = some ((Stage.plan, plan_ref ∷ []) ∷ []);
  updated_at = 300;
}

completes_ok : complete planning Stage.plan (plan_ref ∷ []) 300 ≡ ok planned
unfolding computes
completes_ok = refl

abbrev waiting : Project
waiting = record planned {
  current = Stage.plan;
  status = blocked;
  last_error = codes "awaiting_human";
}

holds_ok :
    hold planning Stage.plan (plan_ref ∷ []) (codes "Awaiting_Human: sign off") 300 ≡ ok waiting
unfolding computes
holds_ok = refl

abbrev verified : Project
verified = record planned {
  current = verify;
  status = Status.done;
  evidence = record plan_proof { stage = verify } ∷ [];
  artifacts =
      some ((Stage.plan, plan_ref ∷ []) ∷ (verify, record plan_proof { stage = verify } ∷ []) ∷ []);
}

abbrev rewound : Project
rewound = record planned {
  current = verify;
  evidence = record plan_proof { stage = verify } ∷ [];
  artifacts = some ((Stage.plan, plan_ref ∷ []) ∷ []);
  updated_at = 400;
}

resets_ok : reset verified verify 400 ≡ ok rewound
unfolding computes
resets_ok = refl

-- The references of verify are gone, its evidence is not.
abbrev failed : Project
failed = record planning {
  status = blocked;
  last_error = codes "build_failed";
  artifacts = some ((Stage.plan, plan_proof ∷ []) ∷ []);
  updated_at = 300;
}

fails_ok : fail_with planning Stage.plan (codes "build_failed") (plan_proof ∷ []) 300 ≡ ok failed
unfolding computes
fails_ok = refl

abbrev denied : Error
denied = wraps (err_tool_denied ∷ canceled ∷ [])
