-- ===== src/Modeling/StageMap.antt =====
-- `map[Stage][]ArtifactRef`: the association lists of Common/Assoc, with stages for keys.
use qemu_agent.Common.{List, [], Option, none, some}
use qemu_agent.Common.Assoc.{get, put, remove}
use qemu_agent.Modeling.Types.{Stage, Stage-discrete, ArtifactRef}

abbrev pub StageMap : Type 0
StageMap = List (Stage × List ArtifactRef)

-- `refs, ok := m[stage]`
abbrev pub find : Stage → StageMap → Option (List ArtifactRef)
find = get Stage-discrete

-- `m[stage]`, nil on a missing key.
abbrev pub or_nil : Option (List ArtifactRef) → List ArtifactRef
or_nil none = []
or_nil (some refs) = refs

-- `m[stage] = refs`
abbrev pub insert : Stage → List ArtifactRef → StageMap → StageMap
insert = put Stage-discrete

-- `delete(m, stage)`
abbrev pub delete : Stage → StageMap → StageMap
delete = remove Stage-discrete
