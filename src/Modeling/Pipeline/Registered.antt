-- ===== src/Modeling/Pipeline/Registered.antt =====
-- The loop of NewPipeline that builds the registry of stage runners.
use qemu_agent.Common.{
  List, [], ◌∷◌, ◌≡◌, true, Option, none, some, All, arith, Result, ok, err, ◌>>◌, guard, refuse,
  is_some,
}
use qemu_agent.Common.Assoc.{get, put, get-put}
use qemu_agent.Modeling.Types.{
  Stage, Stage-discrete, is_known, Error, plain, nil_runner, unknown_stage, registered_twice,
}
use qemu_agent.Modeling.Steps.{Runner, Registry}

abbrev pub RunnerMap : Type 0
RunnerMap = List (Stage × Runner)

-- The runners in the order of the options; a nil one is `none`, any other comes with its Name().
unfoldable pub register_runners :
    List (Option (Stage × Runner)) → RunnerMap → Result Error RunnerMap
register_runners [] m = ok m
register_runners (none ∷ runners) m = err (plain nil_runner)
register_runners (some (name, runner) ∷ runners) m = do
  guard (is_known name) (plain unknown_stage)
  refuse (is_some (get Stage-discrete name m)) (plain registered_twice)
  register_runners runners (put Stage-discrete name runner m)

-- `p.stages`
abbrev pub registry_of : RunnerMap → Registry
registry_of m name = get Stage-discrete name m

-- The runner is registered under its declared name.
abbrev pub IsRegistered : RunnerMap → Option (Stage × Runner) → Type 0
IsRegistered m none = ⊥
IsRegistered m (some (name, runner)) = (is_known name ≡ true) × (registry_of m name ≡ some runner)

register_runners-keeps :
    (runners : List (Option (Stage × Runner))) (m n : RunnerMap) (name : Stage) (runner : Runner)
    → registry_of m name ≡ some runner
    → register_runners runners m ≡ ok n
    → registry_of n name ≡ some runner
unfolding register_runners
register_runners-keeps [] m n name runner held h = ground arith
register_runners-keeps (none ∷ runners) m n name runner held h = cc
register_runners-keeps (some (first, r) ∷ runners) m n name runner held h =
    register_runners-keeps runners (put Stage-discrete first r m) n name runner
      (ground (arith, get-put Stage-discrete first name r m)) (ground arith)

-- When NewPipeline accepts its runners, each of them is declared, and is the one that its stage
-- name finds: none is nil and none has replaced another.
pub register_runners-IsRegistered :
    (runners : List (Option (Stage × Runner))) (m n : RunnerMap)
    → register_runners runners m ≡ ok n
    → All (IsRegistered n) runners
unfolding register_runners
register_runners-IsRegistered [] m n h = tt
register_runners-IsRegistered (none ∷ runners) m n h = cc
register_runners-IsRegistered (some (name, runner) ∷ runners) m n h =
    let rest : register_runners runners (put Stage-discrete name runner m) ≡ ok n = ground arith in
    let held : registry_of (put Stage-discrete name runner m) name ≡ some runner =
      ground (arith, get-put Stage-discrete name name runner m) in
    (
      (
        ground arith,
        register_runners-keeps runners (put Stage-discrete name runner m) n name runner held rest,
      ),
      register_runners-IsRegistered runners (put Stage-discrete name runner m) n rest,
    )
