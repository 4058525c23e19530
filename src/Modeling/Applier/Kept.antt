-- ===== src/Modeling/Applier/Kept.antt =====
-- What Apply does to the QEMU tree, whatever the write tool refuses.
use mathlib.Core.List.{append-nil}
use qemu_agent.Common.{
  ℕ, suc, List, [], ◌∷◌, ◌++◌, ◌≡◌, ◌≢◌, refl, sym, ◌∙◌, ap, Option, none, some, true, false,
  if◌then◌else◌, inl, inr, All, arith, Bool-cases,
}
use qemu_agent.Text.{Text}
use qemu_agent.Files.{FilePath, FilePath-discrete, Files, read_file, is_under}
use qemu_agent.Modeling.Project.{Project}
use qemu_agent.Modeling.Store.{Scope}
use qemu_agent.Modeling.Steps.{ArtifactStore}
use qemu_agent.Modeling.Apply.{ApplyPlan}
use qemu_agent.Modeling.Applier.{ApplyHost, WriteTool, resolved}
use qemu_agent.Modeling.Applier.Landing.{
  PendingWrite, Landing, write_all, settle_apply, land, apply,
}
use qemu_agent.Modeling.Applier.Course.{
  IsWriteTool, PreparesFitting, refused_early, landed, apply-Course,
}
use qemu_agent.Modeling.Applier.Prepared.{
  IsAppending, IsInside, prepare-IsAppending, prepare-IsInside,
}

-- Every file of the first tree, but for one path, is in the second, with its content and something
-- after it.
abbrev pub ExtendsBut : Option FilePath → Files → Files → Type 0
ExtendsBut but before after =
    (p : FilePath) (body : Text)
    → but ≢ some p
    → read_file p before ≡ some body
    → (more : Text) × (read_file p after ≡ some (body ++ more))

ExtendsBut-refl : (but : Option FilePath) (tree : Files) → ExtendsBut but tree tree
ExtendsBut-refl but tree p body spared there = ([], ground (arith, append-nil body))

-- The target of the write that was refused.
unfoldable refused_target : WriteTool → ℕ → List PendingWrite → Files → Option FilePath
refused_target write n [] tree = none
refused_target write n (w ∷ ws) tree =
    let rest = refused_target write (suc n) ws (write n w.target w.content tree).0 in
    if (write n w.target w.content tree).1 then rest else some w.target

refused_target-none :
    (write : WriteTool) (n : ℕ) (ws : List PendingWrite) (tree : Files)
    → (write_all write n ws tree).2 ≡ []
    → refused_target write n ws tree ≡ none
unfolding write_all refused_target
refused_target-none write n [] tree h = refl
refused_target-none write n (w ∷ ws) tree h =
    elim (Bool-cases (write n w.target w.content tree).1) [
      | inl went ↦
          ground (arith, refused_target-none write (suc n) ws (write n w.target w.content tree).0)
      | inr halted ↦ absurd (ground arith)
    ]

module _ (Fits : FilePath → Text → Type 0) (write : WriteTool) (law : IsWriteTool Fits write) where
  written-ExtendsBut :
      (but : Option FilePath) (before tree : Files) (n : ℕ) (w : PendingWrite)
      → IsAppending before w
      → Fits w.target w.content
      → (write n w.target w.content tree).1 ≡ true
      → ExtendsBut but before tree
      → ExtendsBut but before (write n w.target w.content tree).0
  written-ExtendsBut but before tree n w appending fit went kept p body spared there =
      elim (FilePath-discrete w.target p) [
        | yes same ↦
            let (more, content) = appending body (ap (λ q. read_file q before) same ∙ there) in
            (
              more,
              ap (λ q. read_file q (write n w.target w.content tree).0) (sym same)
                  ∙ (law.done n w.target w.content tree fit went ∙ ap some content),
            )
        | no other ↦
            let (more, still) = kept p body spared there in
            (more, law.elsewhere n w.target w.content tree p fit other ∙ still)
      ]

  write_all-ExtendsBut :
      (before tree : Files) (n : ℕ) (ws : List PendingWrite) (but : Option FilePath)
      → refused_target write n ws tree ≡ but
      → All (IsAppending before) ws
      → All (λ w. Fits w.target w.content) ws
      → ExtendsBut but before tree
      → ExtendsBut but before (write_all write n ws tree).0
  unfolding write_all refused_target
  write_all-ExtendsBut before tree n [] but at h fit kept = kept
  write_all-ExtendsBut before tree n (w ∷ ws) but at h fit kept =
      elim (Bool-cases (write n w.target w.content tree).1) [
        | inr halted ↦ rw halted (λ p body spared there.
            let struck : some w.target ≡ but = rw (halted, refused_target) at at in
            let other : w.target ≢ p = λ same. spared (sym struck ∙ ap some same) in
            let (more, still) = kept p body spared there in
            (more, law.elsewhere n w.target w.content tree p fit.0 other ∙ still))
        | inl went ↦ rw went (
            write_all-ExtendsBut before (write n w.target w.content tree).0 (suc n) ws but
              (rw (went, refused_target) at at) h.1 fit.1
              (written-ExtendsBut but before tree n w h.0 fit.0 went kept))
      ]

  write_all-outside :
      (root p : FilePath) (tree : Files) (n : ℕ) (ws : List PendingWrite)
      → All (IsInside root) ws
      → All (λ w. Fits w.target w.content) ws
      → is_under root p ≡ false
      → read_file p (write_all write n ws tree).0 ≡ read_file p tree
  unfolding write_all
  write_all-outside root p tree n [] h fit outside = refl
  write_all-outside root p tree n (w ∷ ws) h fit outside =
      let inside = h.0 in
      let other : w.target ≢ p = λ same. ground (arith, ap (is_under root) same) in
      let kept = law.elsewhere n w.target w.content tree p fit.0 other in
      elim (Bool-cases (write n w.target w.content tree).1) [
        | inr halted ↦ rw halted kept
        | inl went ↦ rw went (
            write_all-outside root p (write n w.target w.content tree).0 (suc n) ws h.1 fit.1
              outside
            ∙ kept)
      ]

module _ {A B : Type 0} (ops : ArtifactStore A B) (host : ApplyHost) where
  land-tree :
      (p : Project) (made : ApplyPlan) (pending : List PendingWrite) (w : Landing A)
      → (land ops host p made pending w).0.tree ≡ (write_all host.write 0 pending w.tree).0
  unfolding land settle_apply
  land-tree p made pending w = ground arith

  land-skipped :
      (p : Project) (made : ApplyPlan) (pending : List PendingWrite) (w : Landing A)
      → (land ops host p made pending w).1.skipped ≡ (write_all host.write 0 pending w.tree).2
  unfolding land settle_apply
  land-skipped p made pending w = ground arith

  -- With a tool that keeps the law.
  pub apply_by-ExtendsBut :
      (Fits : FilePath → Text → Type 0)
      → IsWriteTool Fits host.write
      → (seen : Files) (id : Text) (scope : Scope) (w : Landing A) → PreparesFitting ops host Fits w
      → (but : Option FilePath) × ExtendsBut but w.tree (apply ops host seen id scope w).0.tree
        × ((apply ops host seen id scope w).1.skipped ≡ [] → but ≡ none)
  apply_by-ExtendsBut Fits law seen id scope w fitting =
      elim (apply-Course ops host seen id scope w) [
        | refused_early e same none_skipped failed ↦
            (none, rw same (ExtendsBut-refl none w.tree), λ h. refl)
        | landed p made pending planned prepared same ↦
            let writes =
              prepare-IsAppending ops host made.project_id w.artifacts w.tree made.files pending
                prepared in
            let but = refused_target host.write 0 pending w.tree in
            (
              but,
              rw (same, land-tree p made pending w)
                  (write_all-ExtendsBut Fits host.write law w.tree w.tree 0 pending but refl writes
                    (fitting made pending prepared) (ExtendsBut-refl but w.tree)),
              λ h.
                  refused_target-none host.write 0 pending w.tree
                    (sym (land-skipped p made pending w) ∙ (rw same at h)),
            )
      ]

  -- With a tool that keeps the law.
  pub apply_by-outside :
      (Fits : FilePath → Text → Type 0)
      → IsWriteTool Fits host.write
      → (configured root q : FilePath) → host.qemu_root ≡ some configured
      → host.at_write.eval_links configured ≡ resolved root
      → is_under root q ≡ false
      → (seen : Files) (id : Text) (scope : Scope) (w : Landing A) → PreparesFitting ops host Fits w
      → read_file q (apply ops host seen id scope w).0.tree ≡ read_file q w.tree
  apply_by-outside Fits law configured root q set at outside seen id scope w fitting =
      elim (apply-Course ops host seen id scope w) [
        | refused_early e same none_skipped failed ↦ rw same refl
        | landed p made pending planned prepared same ↦
            let writes =
              prepare-IsInside ops host configured root made.project_id w.artifacts w.tree
                made.files pending set at prepared in
            rw (same, land-tree p made pending w)
              (write_all-outside Fits host.write law root q w.tree 0 pending writes
                (fitting made pending prepared) outside)
      ]
