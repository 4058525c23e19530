-- ===== src/Modeling/Names/Plain.antt =====
-- The names that the textual gates accept, as elements of a path.
use qemu_agent.Common.{
  [], ◌∷◌, ◌++◌, ◌≡◌, ◌≢◌, refl, ◌⊎◌, inl, inr, true, false, ◌||◌, not, arith, all, length, ok,
  Bool-cases, ◌==◌,
}
use qemu_agent.Text.{
  Text, codes, trim_space, has_prefix, contains, trim_by, space_width, space_width_back,
}
use qemu_agent.Files.Paths.{has_no_slash, is_ordinary, IsPlain}
use qemu_agent.Files.Trimmed.{trim_space-no_slash}
use qemu_agent.Modeling.Types.{Stage, stage_text, stage_index, is_known, ArtifactRef}
use qemu_agent.Modeling.Names.{
  validate_name, validate_project_id, validate_ref, matches_name, matches_id, matches_digest,
  is_hex,
}

separators-no_slash :
    (s : Text) → all (λ c. not (c == 47 || c == 92)) s ≡ true → has_no_slash s ≡ true
separators-no_slash [] h = refl
separators-no_slash (c ∷ s) h = ground (arith, separators-no_slash s)

hex-no_slash : (s : Text) → all is_hex s ≡ true → has_no_slash s ≡ true
hex-no_slash [] h = refl
hex-no_slash (c ∷ s) h = ground (arith, hex-no_slash s)

ordinary-cases : (s : Text) → is_ordinary s ≡ false → (s ≡ []) ⊎ (s ≡ codes ".") ⊎ (s ≡ codes "..")
ordinary-cases s h = ground arith

gates : Unit {0}
unfolding validate_name validate_project_id matches_id matches_name contains has_prefix trim_space
    trim_by space_width space_width_back
gates = tt

no_empty_name : validate_name [] ≢ ok tt
unfolding gates
no_empty_name h = cc

no_dot_name : validate_name (codes ".") ≢ ok tt
unfolding gates
no_dot_name h = cc

no_parent_name : validate_name (codes "..") ≢ ok tt
unfolding gates
no_parent_name h = cc

pub validate_name-IsPlain : (s : Text) → validate_name s ≡ ok tt → IsPlain s
unfolding validate_name
validate_name-IsPlain s h =
    let trimmed : has_no_slash (trim_space s) ≡ true =
      ground (arith, separators-no_slash (trim_space s)) in
    let ordinary : is_ordinary s ≡ true = elim (Bool-cases (is_ordinary s)) [
      | inl good ↦ good
      | inr bad ↦ elim (ordinary-cases s bad) [
        | inl e ↦ absurd (no_empty_name (rw e at h))
        | inr (inl e) ↦ absurd (no_dot_name (rw e at h))
        | inr (inr e) ↦ absurd (no_parent_name (rw e at h))
      ]
    ] in
    (trim_space-no_slash s trimmed, ordinary)

no_empty_id : validate_project_id [] ≢ ok tt
unfolding gates
no_empty_id h = cc

no_dot_id : validate_project_id (codes ".") ≢ ok tt
unfolding gates
no_dot_id h = cc

no_parent_id : validate_project_id (codes "..") ≢ ok tt
unfolding gates
no_parent_id h = cc

matches_id-no_slash : (s : Text) → matches_id s ≡ true → has_no_slash s ≡ true
unfolding matches_id
matches_id-no_slash (m ∷ p ∷ d ∷ s) h = ground (arith, hex-no_slash s)
matches_id-no_slash [] h = cc
matches_id-no_slash (m ∷ []) h = cc
matches_id-no_slash (m ∷ p ∷ []) h = cc

pub validate_project_id-IsPlain : (s : Text) → validate_project_id s ≡ ok tt → IsPlain s
unfolding validate_project_id
validate_project_id-IsPlain s h =
    let trimmed : has_no_slash (trim_space s) ≡ true =
      ground (arith, matches_id-no_slash (trim_space s)) in
    let ordinary : is_ordinary s ≡ true = elim (Bool-cases (is_ordinary s)) [
      | inl good ↦ good
      | inr bad ↦ elim (ordinary-cases s bad) [
        | inl e ↦ absurd (no_empty_id (rw e at h))
        | inr (inl e) ↦ absurd (no_dot_id (rw e at h))
        | inr (inr e) ↦ absurd (no_parent_id (rw e at h))
      ]
    ] in
    (trim_space-no_slash s trimmed, ordinary)

pub is_known-IsPlain : (s : Stage) → is_known s ≡ true → IsPlain (stage_text s)
unfolding stage_index
is_known-IsPlain s h = ground arith

has_prefix-no_slash :
    (s p : Text) → has_prefix s p ≡ true → has_no_slash s ≡ true → has_no_slash p ≡ true
unfolding has_prefix
has_prefix-no_slash s [] h k = refl
has_prefix-no_slash [] (d ∷ p) h k = cc
has_prefix-no_slash (c ∷ s) (d ∷ p) h k = ground (arith, has_prefix-no_slash s p)

-- What the program relies on from a checked reference when it makes paths of it.
pub record IsFileRef (ref : ArtifactRef) : Type 0 where
  pub plain_stage : IsPlain (stage_text ref.stage)
  pub plain_name : IsPlain ref.name
  pub plain_file : IsPlain (ref.id ++ (b'-' ∷ ref.name))

append-no_slash :
    (s t : Text) → has_no_slash s ≡ true → has_no_slash t ≡ true → has_no_slash (s ++ t) ≡ true
append-no_slash [] t h k = k
append-no_slash (c ∷ s) t h k = ground (arith, append-no_slash s t)

long-ordinary : (s t : Text) → length s ≡ 16 → is_ordinary (s ++ t) ≡ true
long-ordinary [] t h = absurd (omega arith)
long-ordinary (a ∷ []) t h = absurd (omega arith)
long-ordinary (a ∷ b ∷ []) t h = absurd (omega arith)
long-ordinary (a ∷ b ∷ c ∷ s) t h = ground arith

pub validate_ref-IsFileRef : (ref : ArtifactRef) → validate_ref ref ≡ ok tt → IsFileRef ref
unfolding validate_ref matches_digest
validate_ref-IsFileRef ref h =
    let name = validate_name-IsPlain ref.name (ground arith) in
    let digits = hex-no_slash ref.digest (ground arith) in
    let id = has_prefix-no_slash ref.digest ref.id (ground arith) digits in
    record {
      plain_stage = is_known-IsPlain ref.stage (ground arith);
      plain_name = name;
      plain_file = (
        append-no_slash ref.id (b'-' ∷ ref.name) id (ground arith),
        long-ordinary ref.id (b'-' ∷ ref.name) (ground arith),
      );
    }
