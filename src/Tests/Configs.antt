-- ===== src/Tests/Configs.antt =====
-- Instances of the theorem on the directories of the configuration.
use qemu_agent.Common.{[], ◌≡◌, refl, true, false, ok}
use qemu_agent.Text.{codes}
use qemu_agent.Files.{split_slash, clean_from, is_under}
use qemu_agent.Modeling.Types.{ℤ}
use qemu_agent.Config.{
  Config, require_disjoint_dir, validate_skills, validate_memory, validate_knowledge,
  validate_modeling,
}
use qemu_agent.Config.Disjoint.{IsApart, validate_modeling-IsApart}
use qemu_agent.Tests.Samples.{computes}

abbrev usual : Config
usual = record {
  session_dir = codes "/d/sessions";
  skills = record {
    enabled = true;
    dir = codes "/d/skills";
    max_skills = ℤ.pos 128;
    max_file_bytes = ℤ.pos 4096;
    max_body_bytes = ℤ.pos 2048;
    max_index_bytes = ℤ.pos 1024;
  };
  memory = record {
    enabled = true;
    dir = codes "/d/memory";
    top_k = ℤ.pos 6;
    max_items = ℤ.pos 10000;
    max_item_bytes = ℤ.pos 8192;
    max_injected_bytes = ℤ.pos 24576;
    half_life = ℤ.pos 1000;
    strict_search = false;
    auto_extract = false;
    candidate_ttl = ℤ.pos 0;
  };
  prompt = record {
    reserved_context_tokens = ℤ.pos 4096;
    max_injected_bytes = ℤ.pos 40960;
    max_memory_items = ℤ.pos 6;
  };
  modeling = record {
    enabled = true;
    dir = codes "/d/modeling";
    qemu_root = [];
    build_dir = [];
    max_projects = ℤ.pos 1000;
    max_artifact_bytes = ℤ.pos 1024;
    max_project_bytes = ℤ.pos 8192;
    stage_timeout = ℤ.pos 600;
    model = [];
    auto_apply = false;
  };
}

usual_known : validate_knowledge usual ≡ ok tt
unfolding computes require_disjoint_dir validate_skills validate_memory validate_knowledge
    split_slash clean_from is_under
usual_known = refl

usual_modeled : validate_modeling usual ≡ ok tt
unfolding computes require_disjoint_dir validate_modeling split_slash clean_from is_under
usual_modeled = refl

validate_modeling-IsApart_example :
    IsApart (codes "/d/modeling") (codes "/d/memory")
    × IsApart (codes "/d/modeling") (codes "/d/skills")
    × IsApart (codes "/d/memory") (codes "/d/skills")
validate_modeling-IsApart_example =
    validate_modeling-IsApart usual refl refl refl usual_known usual_modeled
