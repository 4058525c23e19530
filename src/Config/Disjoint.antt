-- ===== src/Config/Disjoint.antt =====
-- What the checks of the directories give: no file lies below two of them.
use qemu_agent.Common.{[], ◌∷◌, ◌≡◌, refl, true, false, ◌||◌, arith, ok, inl, inr, Bool-cases}
use qemu_agent.Text.{Text, is_empty, trim_space}
use qemu_agent.Files.{FilePath, is_under}
use qemu_agent.Config.{
  Config, is_abs, place, require_disjoint_dir, validate_memory, validate_skills, validate_knowledge,
  validate_modeling,
}

is_under-comparable :
    (a b p : FilePath)
    → is_under a p ≡ true
    → is_under b p ≡ true
    → (is_under a b || is_under b a) ≡ true
unfolding is_under
is_under-comparable [] b p _ _ = refl
is_under-comparable (d ∷ ds) [] p _ _ = refl
is_under-comparable (d ∷ ds) (e ∷ es) [] h _ = ground arith
is_under-comparable (d ∷ ds) (e ∷ es) (q ∷ qs) h k = ground (arith, is_under-comparable ds es qs)

-- No path lies below both directories.
abbrev pub IsApart : Text → Text → Type 0
IsApart a b = (p : FilePath) → is_under (place a) p ≡ true → is_under (place b) p ≡ false

-- A directory that is named, by an absolute path.
abbrev IsPlaced : Text → Type 0
IsPlaced a = (is_empty (trim_space a) ≡ false) × (is_abs a ≡ true)

require_disjoint_dir-IsApart :
    (a b : Text) → IsPlaced a → IsPlaced b → require_disjoint_dir a b ≡ ok tt → IsApart a b
unfolding require_disjoint_dir
require_disjoint_dir-IsApart a b (named, full) (named', full') accepted p below =
    elim (Bool-cases (is_under (place b) p)) [
      | inr outside ↦ outside
      | inl both ↦ let meet = is_under-comparable (place a) (place b) p below both in ground arith
    ]

skills-IsPlaced :
    (c : Config) → c.skills.enabled ≡ true → validate_knowledge c ≡ ok tt → IsPlaced c.skills.dir
unfolding validate_knowledge validate_skills
skills-IsPlaced c on accepted = (ground arith, ground arith)

memory-IsPlaced :
    (c : Config) → c.memory.enabled ≡ true → validate_knowledge c ≡ ok tt → IsPlaced c.memory.dir
unfolding validate_knowledge validate_memory
memory-IsPlaced c on accepted = (ground arith, ground arith)

-- When the directories are accepted and modeling, memory and skills are enabled, no path lies below
-- two of their directories.
pub validate_modeling-IsApart :
    (c : Config)
    → c.modeling.enabled ≡ true
    → c.memory.enabled ≡ true
    → c.skills.enabled ≡ true
    → validate_knowledge c ≡ ok tt
    → validate_modeling c ≡ ok tt
    → IsApart c.modeling.dir c.memory.dir
      × IsApart c.modeling.dir c.skills.dir
      × IsApart c.memory.dir c.skills.dir
unfolding validate_modeling validate_knowledge validate_memory
validate_modeling-IsApart c modeling memory skills known accepted =
    let kept = memory-IsPlaced c memory known in
    let taught = skills-IsPlaced c skills known in
    let made : IsPlaced c.modeling.dir = (ground arith, ground arith) in
    (
      require_disjoint_dir-IsApart c.modeling.dir c.memory.dir made kept (ground arith),
      require_disjoint_dir-IsApart c.modeling.dir c.skills.dir made taught (ground arith),
      require_disjoint_dir-IsApart c.memory.dir c.skills.dir kept taught (ground arith),
    )
