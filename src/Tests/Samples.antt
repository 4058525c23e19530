-- ===== src/Tests/Samples.antt =====
-- Projects, references and stores that the tests share.
use qemu_agent.Common.{ℕ_discrete}
use qemu_agent.Common.Assoc.{get, put, remove}
use qemu_agent.Text.{
  Text, codes, Text-discrete, trim_space, trim_by, space_width, space_width_back, to_lower,
  has_prefix, contains,
}
use qemu_agent.Modeling.Types.{
  Stage, running, Kind, Stage-discrete, Status-discrete, Kind-discrete, ArtifactRef, pos,
  ℤ-discrete, stage_index, stage_at, next_stage, next_int, kind_of, index_from,
}
use qemu_agent.Modeling.Names.{
  parse_kind, category_token, short_category, matches_name, matches_digest, matches_id,
  validate_name, validate_project_id, validate_ref,
}
use qemu_agent.Modeling.Project.{
  Project, advance_switch, can_advance, begin, check_refs, collect_evidence, stages_after,
  clear_stages, clear_after, recorded, record_refs, move_on, complete, hold, fail, check_evidence,
  append_refs, fail_with, can_replace_from, reset, validate, check_entries, check_filed,
  check_proofs,
}
use qemu_agent.Modeling.Project.Reach.{fresh}
use qemu_agent.Modeling.Store.{
  visible_to, generate_id, create, get_project, save, select, insert_project, sort_projects,
  list_projects, delete_project,
}

-- What the tests compute through.
unfoldable pub computes : Unit {0}
unfolding get put remove Text-discrete ℕ_discrete trim_space trim_by space_width space_width_back
    to_lower has_prefix contains Stage-discrete Status-discrete Kind-discrete ℤ-discrete stage_index
    stage_at next_stage next_int kind_of index_from parse_kind category_token short_category
    matches_name matches_digest matches_id validate_name validate_project_id validate_ref
    advance_switch can_advance begin check_refs collect_evidence stages_after clear_stages
    clear_after recorded record_refs move_on complete hold fail check_evidence append_refs fail_with
    can_replace_from reset validate check_entries check_filed check_proofs visible_to generate_id
    create get_project save select insert_project sort_projects list_projects delete_project
computes = tt

abbrev pub timer_id : Text
timer_id = codes "mp-0123456789abcdef"

abbrev pub team : Text
team = codes "team"

abbrev pub ann : Text
ann = codes "ann"

abbrev pub created : Project
created = fresh timer_id (codes "timer") team ann 100

abbrev pub digest : Text
digest = codes "0123456789abcdef0123456789abcdef0123456789abcdef0123456789abcdef"

abbrev pub plan_ref : ArtifactRef
plan_ref = record {
  id = codes "0123456789abcdef";
  stage = Stage.plan;
  name = codes "plan.md";
  kind = Kind.plan;
  bytes = pos 12;
  digest = digest;
  created = 150;
}

abbrev pub plan_proof : ArtifactRef
plan_proof = record plan_ref { name = codes "build.log"; kind = Kind.evidence }

abbrev pub planning : Project
planning = record created { status = running; updated_at = 200 }
