-- ===== src/Config.antt =====
-- The directories and limits of the capabilities, internal/config: the groups of config.go and
-- modeling.go, validateKnowledge of validate.go and validateModeling of modeling.go. An error is its
-- text; a duration is its nanoseconds.
pub mod Disjoint
use qemu_agent.Common.{
  ℕ, List, [], ◌∷◌, Bool, true, false, ◌&&◌, ◌||◌, not, if◌then◌else◌, Result, ok, err, ◌>>=◌, ◌>>◌,
  guard, refuse,
}
use qemu_agent.Text.{Text, codes, is_empty, trim_space, has_prefix}
use qemu_agent.Files.{FilePath, clean, split_slash, is_under}
use qemu_agent.Modeling.Types.{ℤ, is_negative}
use qemu_agent.Modeling.Ints.{lt_int}

pub record SkillConfig : Type 0 where
  pub enabled : Bool
  pub dir : Text
  pub max_skills : ℤ
  pub max_file_bytes : ℤ
  pub max_body_bytes : ℤ
  pub max_index_bytes : ℤ

pub record MemoryConfig : Type 0 where
  pub enabled : Bool
  pub dir : Text
  pub top_k : ℤ
  pub max_items : ℤ
  pub max_item_bytes : ℤ
  pub max_injected_bytes : ℤ
  pub half_life : ℤ
  pub strict_search : Bool
  pub auto_extract : Bool
  pub candidate_ttl : ℤ

pub record PromptConfig : Type 0 where
  pub reserved_context_tokens : ℤ
  pub max_injected_bytes : ℤ
  pub max_memory_items : ℤ

pub record ModelingConfig : Type 0 where
  pub enabled : Bool
  pub dir : Text
  pub qemu_root : Text
  pub build_dir : Text
  pub max_projects : ℤ
  pub max_artifact_bytes : ℤ
  pub max_project_bytes : ℤ
  pub stage_timeout : ℤ
  pub model : Text
  pub auto_apply : Bool

-- The groups of Config that the two checks read.
pub record Config : Type 0 where
  pub session_dir : Text
  pub skills : SkillConfig
  pub memory : MemoryConfig
  pub prompt : PromptConfig
  pub modeling : ModelingConfig

abbrev pub max_memory_top_k : ℕ
max_memory_top_k = 100

-- `n <= 0`
abbrev pub not_positive : ℤ → Bool
not_positive n = lt_int n (ℤ.pos 1)

abbrev pub is_abs : Text → Bool
is_abs dir = has_prefix dir (codes "/")

-- filepath.Clean of an absolute directory.
abbrev pub place : Text → FilePath
place dir = clean (split_slash dir)

-- `contains(a, b) || contains(b, a)`; filepath.Rel fails between an absolute path and one that is not,
-- and the first directory is absolute wherever the check is made.
abbrev pub overlaps : Text → Text → Bool
overlaps a b =
    is_abs a && is_abs b && (is_under (place a) (place b) || is_under (place b) (place a))

-- requireDisjointDir
unfoldable pub require_disjoint_dir : Text → Text → Result Text (Unit {0})
require_disjoint_dir a b =
    refuse (not (is_empty (trim_space a)) && not (is_empty (trim_space b)) && overlaps a b)
      (codes "directories must not overlap")

-- skillDirIfEnabled
abbrev pub skill_dir_if_enabled : Config → Text
skill_dir_if_enabled c = if c.skills.enabled then c.skills.dir else []

-- memoryDirIfEnabled
abbrev pub memory_dir_if_enabled : Config → Text
memory_dir_if_enabled c = if c.memory.enabled then c.memory.dir else []

unfoldable pub validate_skills : Config → Result Text (Unit {0})
validate_skills c = do
  refuse (is_empty (trim_space c.skills.dir)) (codes "QEMU_AGENT_SKILLS_DIR is empty")
  guard (is_abs c.skills.dir) (codes "skills dir must be absolute")
  refuse (not_positive c.skills.max_skills) (codes "QEMU_AGENT_SKILLS_MAX_COUNT must be > 0")
  refuse
      (not_positive c.skills.max_file_bytes
        || not_positive c.skills.max_body_bytes
        || not_positive c.skills.max_index_bytes)
      (codes "skill byte limits must be > 0")
  refuse (lt_int c.skills.max_file_bytes c.skills.max_body_bytes)
      (codes "skill body limit must be <= skill file limit")
  require_disjoint_dir c.skills.dir c.session_dir

unfoldable pub validate_memory : Config → Result Text (Unit {0})
validate_memory c = do
  refuse (is_empty (trim_space c.memory.dir)) (codes "QEMU_AGENT_MEMORY_DIR is empty")
  guard (is_abs c.memory.dir) (codes "memory dir must be absolute")
  refuse (not_positive c.memory.top_k || lt_int (ℤ.pos max_memory_top_k) c.memory.top_k)
      (codes "QEMU_AGENT_MEMORY_TOP_K must be between 1 and 100")
  refuse
      (not_positive c.memory.max_items
        || not_positive c.memory.max_item_bytes
        || not_positive c.memory.max_injected_bytes)
      (codes "memory limits must be > 0")
  refuse (not_positive c.memory.half_life) (codes "QEMU_AGENT_MEMORY_HALF_LIFE must be > 0")
  refuse (c.memory.auto_extract && not_positive c.memory.candidate_ttl)
      (codes "QEMU_AGENT_MEMORY_CANDIDATE_TTL must be > 0 when auto extract is enabled")
  require_disjoint_dir c.memory.dir c.session_dir
  if c.skills.enabled then require_disjoint_dir c.memory.dir c.skills.dir else ok tt

-- validateKnowledge
unfoldable pub validate_knowledge : Config → Result Text (Unit {0})
validate_knowledge c = do
  if c.skills.enabled then validate_skills c else ok tt
  if c.memory.enabled then validate_memory c else ok tt
  refuse (not_positive c.prompt.reserved_context_tokens)
      (codes "QEMU_AGENT_PROMPT_RESERVED_TOKENS must be > 0")
  refuse (not_positive c.prompt.max_injected_bytes)
      (codes "QEMU_AGENT_PROMPT_MAX_INJECTED_BYTES must be > 0")
  refuse (is_negative c.prompt.max_memory_items)
      (codes "QEMU_AGENT_PROMPT_MAX_MEMORY_ITEMS must be >= 0")
  refuse (c.memory.enabled && lt_int c.memory.top_k c.prompt.max_memory_items)
      (codes "QEMU_AGENT_PROMPT_MAX_MEMORY_ITEMS must be <= memory top-k")

-- validateModeling
unfoldable pub validate_modeling : Config → Result Text (Unit {0})
validate_modeling c = if not c.modeling.enabled then ok tt else (do
  refuse (is_empty (trim_space c.modeling.dir)) (codes "QEMU_AGENT_MODELING_DIR is empty")
  guard (is_abs c.modeling.dir) (codes "modeling dir must be absolute")
  require_disjoint_dir c.modeling.dir c.session_dir
  require_disjoint_dir c.modeling.dir (skill_dir_if_enabled c)
  require_disjoint_dir c.modeling.dir (memory_dir_if_enabled c)
  refuse (not (is_empty c.modeling.qemu_root) && not (is_abs c.modeling.qemu_root))
      (codes "modeling qemu root must be absolute")
  refuse (not (is_empty c.modeling.build_dir) && not (is_abs c.modeling.build_dir))
      (codes "modeling build dir must be absolute")
  refuse (not (is_empty c.modeling.build_dir) && is_empty c.modeling.qemu_root)
      (codes "QEMU_AGENT_MODELING_BUILD_DIR requires QEMU_AGENT_MODELING_QEMU_ROOT")
  refuse (c.modeling.auto_apply && is_empty c.modeling.qemu_root)
      (codes "QEMU_AGENT_MODELING_AUTO_APPLY requires QEMU_AGENT_MODELING_QEMU_ROOT")
  refuse (not_positive c.modeling.max_projects)
      (codes "QEMU_AGENT_MODELING_MAX_PROJECTS must be > 0")
  refuse (not_positive c.modeling.max_artifact_bytes || not_positive c.modeling.max_project_bytes)
      (codes "modeling byte limits must be > 0")
  refuse (lt_int c.modeling.max_project_bytes c.modeling.max_artifact_bytes)
      (codes "modeling artifact limit must be <= modeling project limit")
  refuse (not_positive c.modeling.stage_timeout)
      (codes "QEMU_AGENT_MODELING_STAGE_TIMEOUT must be > 0"))

-- ValidateProfessionalModelingV1
unfoldable pub validate_professional_modeling : Config → Result Text (Unit {0})
validate_professional_modeling c = do
  validate_modeling c
  guard c.modeling.enabled (codes "professional modeling requires QEMU_AGENT_MODELING_ENABLED=true")
  refuse c.modeling.auto_apply
      (codes "professional modeling requires QEMU_AGENT_MODELING_AUTO_APPLY=false")
