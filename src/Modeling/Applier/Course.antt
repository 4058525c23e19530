-- ===== src/Modeling/Applier/Course.antt =====
-- The two ways that a call of Apply goes, and what it reports.
use qemu_agent.Common.{
  ℕ, suc, List, [], ◌∷◌, ◌++◌, ◌≡◌, ◌≢◌, refl, sym, ◌∙◌, ap, map, Option, none, some, true, false,
  ◌&&◌, not, inl, inr, ok, arith, Result-cases, Bool-cases, All,
}
use qemu_agent.Text.{Text}
use qemu_agent.Files.{FilePath, Files, read_file}
use qemu_agent.Modeling.Types.{Error}
use qemu_agent.Modeling.Project.{Project}
use qemu_agent.Modeling.Store.{Scope}
use qemu_agent.Modeling.Steps.{ArtifactStore}
use qemu_agent.Modeling.Apply.{
  FileChange, ApplyPlan, ApplyResult, validate_plan, apply_partial, rejected,
}
use qemu_agent.Modeling.Applier.{ApplyHost, WriteTool, plan}
use qemu_agent.Modeling.Applier.Landing.{
  PendingWrite, Landing, write_all, prepare, settle_apply, land, apply, was_refused, wrote_none,
}
use qemu_agent.Modeling.Applier.Prepared.{prepare-paths}

-- What the proofs rely on from the write tool, for the targets and contents that `Fits` says its
-- arguments can carry: a call that reports no error has put the content at the target, and no call
-- changes another file. A call that reports an error may have left the target in any state.
pub record IsWriteTool (Fits : FilePath → Text → Type 0) (write : WriteTool) : Type 0 where
  pub done :
      (n : ℕ) (target : FilePath) (content : Text) (tree : Files)
      → Fits target content
      → (write n target content tree).1 ≡ true
      → read_file target (write n target content tree).0 ≡ some content
  pub elsewhere :
      (n : ℕ) (target : FilePath) (content : Text) (tree : Files) (p : FilePath)
      → Fits target content
      → target ≢ p
      → read_file p (write n target content tree).0 ≡ read_file p tree

-- Two trees that differ in at most one file.
abbrev pub SameBut : FilePath → Files → Files → Type 0
SameBut q before after = (p : FilePath) → q ≢ p → read_file p after ≡ read_file p before

write_all-reports :
    (write : WriteTool) (n : ℕ) (ws : List PendingWrite) (tree : Files)
    → (write_all write n ws tree).1 ++ (write_all write n ws tree).2 ≡ map PendingWrite.path ws
unfolding write_all
write_all-reports write n [] tree = refl
write_all-reports write n (w ∷ ws) tree =
    ground (arith, write_all-reports write (suc n) ws (write n w.target w.content tree).0)

map-nil : (cs : List FileChange) → map FileChange.path cs ≡ [] → cs ≡ []
map-nil [] h = refl
map-nil (c ∷ cs) h = absurd (ground arith)

wrote_none-nil : (written : List Text) → wrote_none written ≡ true → written ≡ []
wrote_none-nil [] h = refl
wrote_none-nil (w ∷ ws) h = absurd (ground arith)

was_refused-nil : (skipped : List Text) → was_refused skipped ≡ false → skipped ≡ []
was_refused-nil [] h = refl
was_refused-nil (s ∷ ss) h = absurd (ground arith)

-- A report on some paths: each was written or skipped, in their order, and the error says which of
-- the three outcomes it was.
pub record IsReport (planned : List Text) (r : ApplyResult) (e : Option Error) : Type 0 where
  pub paths : r.written ++ r.skipped ≡ planned
  pub partly : r.partial ≡ (was_refused r.skipped && not (wrote_none r.written))
  pub complete : e ≡ none → r.skipped ≡ []
  pub named : r.partial ≡ true → e ≡ some apply_partial

-- A failed call that has changed at most one file of the tree, and nothing else.
pub record IsUntouched {A : Type 0} (w : Landing A) (r : Landing A × ApplyResult × Option Error)
    : Type 0 where
  pub store : r.0.store ≡ w.store
  pub artifacts : r.0.artifacts ≡ w.artifacts
  pub tree : (q : FilePath) × SameBut q w.tree r.0.tree
  pub failed : (e : Error) × (r.2 ≡ some e)

module _ {A B : Type 0} (ops : ArtifactStore A B) (host : ApplyHost) where
  -- A call of Apply either stops before its first write, with an error, or lands what it prepared.
  pub data Course (seen : Files) (id : Text) (scope : Scope) (w : Landing A) : Type 0 where
    refused_early :
        (e : Error)
        → (apply ops host seen id scope w).0 ≡ w
        → (apply ops host seen id scope w).1.skipped ≡ []
        → (apply ops host seen id scope w).2 ≡ some e
        → Course seen id scope w
    landed :
        (p : Project) (made : ApplyPlan) (pending : List PendingWrite)
        → plan ops host w.store w.artifacts seen id scope ≡ ok (made, p)
        → prepare ops host 0 made.project_id w.artifacts w.tree made.files ≡ ok pending
        → apply ops host seen id scope w ≡ land ops host p made pending w
        → Course seen id scope w

  pub apply-Course :
      (seen : Files) (id : Text) (scope : Scope) (w : Landing A) → Course seen id scope w
  unfolding apply
  apply-Course seen id scope w =
      elim (Result-cases (plan ops host w.store w.artifacts seen id scope)) [
        | inr (x, e) ↦ refused_early x (ground arith) (ground arith) (ground arith)
        | inl ((made, p), e) ↦
            elim (Result-cases (prepare ops host 0 made.project_id w.artifacts w.tree made.files)) [
              | inr (x, e2) ↦ refused_early x (ground arith) (ground arith) (ground arith)
              | inl (pending, e2) ↦ landed p made pending e e2 (ground arith)
            ]
      ]

  plan-valid :
      (w : Landing A) (seen : Files) (id : Text) (scope : Scope) (made : ApplyPlan) (p : Project)
      → plan ops host w.store w.artifacts seen id scope ≡ ok (made, p)
      → validate_plan made ≡ ok tt
  unfolding plan
  plan-valid w seen id scope made p h = ground arith

  pub land-IsReport :
      (p : Project) (made : ApplyPlan) (pending : List PendingWrite) (w : Landing A)
      → IsReport
          (map PendingWrite.path pending)
          (land ops host p made pending w).1
          (land ops host p made pending w).2
  unfolding land settle_apply
  land-IsReport p made pending w =
      let (tree, written, skipped) = write_all host.write 0 pending w.tree in
      let all_paths : written ++ skipped ≡ map PendingWrite.path pending =
        write_all-reports host.write 0 pending w.tree in
      let no_write = wrote_none-nil written in
      let no_skip = was_refused-nil skipped in
      record {
        paths = ground arith;
        partly = ground arith;
        complete = λ h. ground arith;
        named = λ h. ground arith;
      }

  pending_some :
      (made : ApplyPlan) (pending : List PendingWrite)
      → validate_plan made ≡ ok tt
      → map PendingWrite.path pending ≡ map FileChange.path made.files
      → pending ≢ []
  unfolding validate_plan
  pending_some made pending valid names none_pending =
      let no_path : map FileChange.path made.files ≡ [] = sym names ∙ (rw none_pending refl) in
      let no_file = map-nil made.files no_path in absurd (ground arith)

  -- Whatever Apply prepares fits the arguments of the write tool.
  abbrev pub PreparesFitting : (FilePath → Text → Type 0) → Landing A → Type 0
  PreparesFitting Fits w =
      (made : ApplyPlan) (pending : List PendingWrite)
      → prepare ops host 0 made.project_id w.artifacts w.tree made.files ≡ ok pending
      → All (λ x. Fits x.target x.content) pending

  land-refused :
      (Fits : FilePath → Text → Type 0)
      → IsWriteTool Fits host.write
      → (p : Project) (made : ApplyPlan) (pending : List PendingWrite) (w : Landing A)
      → All (λ x. Fits x.target x.content) pending
      → pending ≢ []
      → (land ops host p made pending w).1.written ≡ []
      → IsUntouched w (land ops host p made pending w)
  unfolding land settle_apply write_all
  land-refused Fits law p made [] w fit given none_written = absurd (given refl)
  land-refused Fits law p made (x ∷ xs) w fit given none_written =
      elim (Bool-cases (host.write 0 x.target x.content w.tree).1) [
        | inl went ↦ absurd (ground arith)
        | inr halted ↦
            let ends : (land ops host p made (x ∷ xs) w).0
                ≡ record w { tree = (host.write 0 x.target x.content w.tree).0 } =
              ground arith in
            record {
              store = ap (λ l. l.store) ends;
              artifacts = ap (λ l. l.artifacts) ends;
              tree = (
                x.target,
                λ q other.
                    ap (λ l. read_file q l.tree) ends
                    ∙ law.elsewhere 0 x.target x.content w.tree q fit.0 other,
              );
              failed = (rejected, ground arith);
            }
      ]

  -- Once everything is prepared, the report of Apply names every path of the plan, in order, as written
  -- or as skipped; it is partial exactly when there are both, which is the error then; without an
  -- error nothing is skipped.
  pub apply-IsReport :
      (seen : Files) (id : Text) (scope : Scope) (w : Landing A) (made : ApplyPlan) (p : Project)
      (pending : List PendingWrite)
      → plan ops host w.store w.artifacts seen id scope ≡ ok (made, p)
      → prepare ops host 0 made.project_id w.artifacts w.tree made.files ≡ ok pending
      → IsReport
          (map FileChange.path made.files)
          (apply ops host seen id scope w).1
          (apply ops host seen id scope w).2
  unfolding apply
  apply-IsReport seen id scope w made p pending planned prepared =
      let same : apply ops host seen id scope w ≡ land ops host p made pending w = ground arith in
      let report = land-IsReport p made pending w in
      let names =
        prepare-paths ops host 0 made.project_id w.artifacts w.tree made.files pending prepared in
      rw (same, ← names) report

  -- With a tool that keeps the law.
  pub apply_by-refused :
      (Fits : FilePath → Text → Type 0)
      → IsWriteTool Fits host.write
      → (seen : Files) (id : Text) (scope : Scope) (w : Landing A) → PreparesFitting Fits w
      → (apply ops host seen id scope w).1.written ≡ []
      → IsUntouched w (apply ops host seen id scope w)
  apply_by-refused Fits law seen id scope w fitting none_written =
      elim (apply-Course seen id scope w) [
        | refused_early e same empty failed ↦ record {
          store = ap (λ l. l.store) same;
          artifacts = ap (λ l. l.artifacts) same;
          tree = ([], λ q other. ap (λ l. read_file q l.tree) same);
          failed = (e, failed);
        }
        | landed p made pending planned prepared same ↦
            let valid = plan-valid w seen id scope made p planned in
            let names =
              prepare-paths ops host 0 made.project_id w.artifacts w.tree made.files pending
                prepared in
            let some_pending = pending_some made pending valid names in
            rw same (
              land-refused Fits law p made pending w (fitting made pending prepared) some_pending
                (rw same at none_written))
      ]
