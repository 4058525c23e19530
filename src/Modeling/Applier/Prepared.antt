-- ===== src/Modeling/Applier/Prepared.antt =====
-- What prepare promises about its writes, before the first of them.
use mathlib.Core.List.{reverse}
use qemu_agent.Common.{
  ℕ, suc, List, [], ◌∷◌, ◌++◌, ◌≡◌, refl, sym, ◌∙◌, ap, map, Option, some, true, ok, All, arith,
  Option-cases, Bool-cases, inl, inr, >>=-eq-ok,
}
use qemu_agent.Text.{Text}
use qemu_agent.Files.{FilePath, Files, path_eq, join, read_file, is_under}
use qemu_agent.Modeling.Steps.{ArtifactStore}
use qemu_agent.Modeling.Apply.{FileChange, ApplyAction, create, modify, validate_change}
use qemu_agent.Modeling.Applier.{
  ApplyHost, Site, resolved, resolve, walk_up, within, read_target, read_checked, compose,
  missing_newline,
}
use qemu_agent.Modeling.Applier.Landing.{PendingWrite, prepare_change, prepare}

-- What the write leaves of a file that is there: its content, and something after it.
abbrev pub IsAppending : Files → PendingWrite → Type 0
IsAppending tree w =
    (body : Text) → read_file w.target tree ≡ some body → (more : Text) × (w.content ≡ body ++ more)

-- The write goes below the root that the configured one resolves to.
abbrev pub IsInside : FilePath → PendingWrite → Type 0
IsInside root w = is_under root w.target ≡ true

is_under_refl : (p : FilePath) → is_under p p ≡ true
unfolding is_under
is_under_refl [] = refl
is_under_refl (x ∷ p) = ground (arith, is_under_refl p)

within-is_under : (root p : FilePath) → within root p ≡ true → is_under root p ≡ true
within-is_under root p h = elim (Bool-cases (path_eq p root)) [
  | inl e ↦ let same : p ≡ root = ground arith in rw same (is_under_refl root)
  | inr e ↦ ground arith
]

walk_up-target :
    (site : Site) (root target above p : FilePath)
    → walk_up site root target above ≡ ok p
    → p ≡ target
unfolding walk_up
walk_up-target site root target [] p h = absurd (ground arith)
walk_up-target site root target (x ∷ above) p h =
    ground (arith, walk_up-target site root target above p)

pub resolve-inside :
    (configured : FilePath) (site : Site) (rel : Text) (root p : FilePath)
    → site.eval_links configured ≡ resolved root
    → resolve (some configured) site rel ≡ ok p
    → is_under root p ≡ true
unfolding resolve
resolve-inside configured site rel root p at h =
    let target = join root (rel ∷ []) in
    let kept : within root target ≡ true = ground arith in
    let same : p ≡ target = walk_up-target site root target (reverse target) p (ground arith) in
    rw same (within-is_under root target kept)

read_target-found :
    (site : Site) (tree : Files) (p : FilePath) (found : Option Text)
    → read_target site tree p ≡ ok found
    → found ≡ read_file p tree
unfolding read_target
read_target-found site tree p found h = elim (Option-cases (read_file p tree)) [
  | inl e ↦ ground arith
  | inr (body, e) ↦ ground arith
]

compose-appends :
    (host : ApplyHost) (action : ApplyAction) (base artifact content body : Text)
    → compose host action base artifact (some body) ≡ ok content
    → (more : Text) × (content ≡ body ++ more)
compose-appends host create base artifact content body h = absurd (ground arith)
compose-appends host modify base artifact content body h =
    (missing_newline body ++ artifact, ground arith)
compose-appends host (ApplyAction.other t) base artifact content body h = absurd (ground arith)

module _ {A B : Type 0} (ops : ArtifactStore A B) (host : ApplyHost) where
  -- What a prepared write comes from.
  record IsPrepared (id : Text) (artifacts : A) (tree : Files) (c : FileChange) (w : PendingWrite)
      : Type 0 where
    artifact : Text
    found : Option Text
    same_path : w.path ≡ c.path
    placed : resolve host.qemu_root host.at_write c.path ≡ ok w.target
    seen : read_target host.at_write tree w.target ≡ ok found
    composed : compose host c.action c.base_digest artifact found ≡ ok w.content

  prepare_change-IsPrepared :
      (n : ℕ) (id : Text) (a : A) (tree : Files) (c : FileChange) (w : PendingWrite)
      → prepare_change ops host n id a tree c ≡ ok w
      → IsPrepared id a tree c w
  unfolding prepare_change
  prepare_change-IsPrepared n id a tree c w h =
      let (u, valid, h1) = >>=-eq-ok (validate_change c) _ h in
      let (target, placed, h2) = >>=-eq-ok (resolve host.qemu_root host.at_write c.path) _ h1 in
      let (artifact, opened, h3) = >>=-eq-ok (read_checked ops host (suc n) id c.ref a) _ h2 in
      let (found, seen, h4) = >>=-eq-ok (read_target host.at_write tree target) _ h3 in
      let (content, composed, h5) =
        >>=-eq-ok (compose host c.action c.base_digest artifact found) _ h4 in
      let same_target : w.target ≡ target = ground arith in
      record {
        artifact = artifact;
        found = found;
        same_path = ground arith;
        placed = rw same_target placed;
        seen = rw same_target seen;
        composed = ground arith;
      }

  prepare_change-IsAppending :
      (n : ℕ) (id : Text) (a : A) (tree : Files) (c : FileChange) (w : PendingWrite)
      → prepare_change ops host n id a tree c ≡ ok w
      → IsAppending tree w
  prepare_change-IsAppending n id a tree c w h body there =
      let v = prepare_change-IsPrepared n id a tree c w h in
      let same : v.found ≡ some body =
        read_target-found host.at_write tree w.target v.found v.seen ∙ there in
      let made : compose host c.action c.base_digest v.artifact (some body) ≡ ok w.content =
        ap (compose host c.action c.base_digest v.artifact) (sym same) ∙ v.composed in
      compose-appends host c.action c.base_digest v.artifact w.content body made

  prepare_change-IsInside :
      (configured root : FilePath) (n : ℕ) (id : Text) (a : A) (tree : Files) (c : FileChange)
      (w : PendingWrite)
      → host.qemu_root ≡ some configured
      → host.at_write.eval_links configured ≡ resolved root
      → prepare_change ops host n id a tree c ≡ ok w
      → IsInside root w
  prepare_change-IsInside configured root n id a tree c w set at h =
      let placed = (prepare_change-IsPrepared n id a tree c w h).placed in
      let here : resolve (some configured) host.at_write c.path ≡ ok w.target =
        ap (λ r. resolve r host.at_write c.path) (sym set) ∙ placed in
      resolve-inside configured host.at_write c.path root w.target at here

  -- What each write satisfies, the writes that prepare makes all satisfy.
  prepare-All :
      (P : PendingWrite → Type 0) (id : Text) (a : A) (tree : Files)
      → ((n : ℕ) (c : FileChange) (w : PendingWrite)
          → prepare_change ops host n id a tree c ≡ ok w
          → P w)
      → (n : ℕ) (cs : List FileChange) (ws : List PendingWrite)
      → prepare ops host n id a tree cs ≡ ok ws
      → All P ws
  unfolding prepare
  prepare-All P id a tree each n [] [] h = tt
  prepare-All P id a tree each n [] (w ∷ ws) h = absurd (ground arith)
  prepare-All P id a tree each n (c ∷ cs) ws h =
      let (x, one, h1) = >>=-eq-ok (prepare_change ops host n id a tree c) _ h in
      let (xs, others, h2) = >>=-eq-ok (prepare ops host (suc n) id a tree cs) _ h1 in
      let same : ws ≡ x ∷ xs = ground arith in
      rw same (each n c x one, prepare-All P id a tree each (suc n) cs xs others)

  pub prepare-IsAppending :
      (id : Text) (a : A) (tree : Files) (cs : List FileChange) (ws : List PendingWrite)
      → prepare ops host 0 id a tree cs ≡ ok ws
      → All (IsAppending tree) ws
  prepare-IsAppending id a tree cs ws h =
      prepare-All (IsAppending tree) id a tree (λ n c w. prepare_change-IsAppending n id a tree c w)
        0 cs ws h

  pub prepare-IsInside :
      (configured root : FilePath) (id : Text) (a : A) (tree : Files) (cs : List FileChange)
      (ws : List PendingWrite)
      → host.qemu_root ≡ some configured
      → host.at_write.eval_links configured ≡ resolved root
      → prepare ops host 0 id a tree cs ≡ ok ws
      → All (IsInside root) ws
  prepare-IsInside configured root id a tree cs ws set at h =
      prepare-All (IsInside root) id a tree
        (λ n c w. prepare_change-IsInside configured root n id a tree c w set at) 0 cs ws h

  pub prepare-paths :
      (n : ℕ) (id : Text) (a : A) (tree : Files) (cs : List FileChange) (ws : List PendingWrite)
      → prepare ops host n id a tree cs ≡ ok ws
      → map PendingWrite.path ws ≡ map FileChange.path cs
  unfolding prepare
  prepare-paths n id a tree [] [] h = refl
  prepare-paths n id a tree [] (w ∷ ws) h = absurd (ground arith)
  prepare-paths n id a tree (c ∷ cs) ws h =
      let (x, one, h1) = >>=-eq-ok (prepare_change ops host n id a tree c) _ h in
      let (xs, others, h2) = >>=-eq-ok (prepare ops host (suc n) id a tree cs) _ h1 in
      let same : ws ≡ x ∷ xs = ground arith in
      rw
        (
          same,
          (prepare_change-IsPrepared n id a tree c x one).same_path,
          prepare-paths (suc n) id a tree cs xs others,
        )
        refl
