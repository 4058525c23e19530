-- ===== src/Modeling/Apply/Safe.antt =====
-- What a path that validatePath accepts names.
use qemu_agent.Common.{[], ◌∷◌, ◌++◌, ◌≡◌, ◌≢◌, subst, false, ok, All, All-append, arith}
use mathlib.Core.List.{append-nil}
use qemu_agent.Text.{Text, codes, text_eq, trim_space, has_prefix}
use qemu_agent.Files.{FilePath, split_slash, split_all, join, clean_relative}
use qemu_agent.Files.Paths.{IsPlain, IsOrdinary, clean_ordinary, Plain-Ordinary}
use qemu_agent.Files.Relative.{clean_relative-IsPlain}
use qemu_agent.Modeling.Apply.{validate_path}

-- A path that validatePath accepts, other than `.` and without surrounding space, is a list of plain
-- names, and joined to a clean directory it names the file below that directory by those names.
pub validate_path-below :
    (path : Text) (root : FilePath)
    → validate_path path ≡ ok tt
    → trim_space path ≡ path
    → path ≢ codes "."
    → All IsOrdinary root
    → All IsPlain (split_slash path) × (join root (path ∷ []) ≡ root ++ split_slash path)
unfolding validate_path split_all
validate_path-below path root h trimmed named ordinary =
    let cleaned = trim_space path in
    let clean : cleaned ≡ clean_relative cleaned = ground arith in
    let below : has_prefix cleaned (codes "../") ≡ false = ground arith in
    let not_up : text_eq cleaned (codes "..") ≡ false = ground arith in
    let plain =
      clean_relative-IsPlain path (subst (λ s. s ≡ clean_relative s) trimmed clean) named
        (λ e. absurd (ground arith))
        (subst (λ s. has_prefix s (codes "../") ≡ false) trimmed below) in
    let parts : split_all (path ∷ []) ≡ split_slash path = append-nil (split_slash path) in
    (
      plain,
      rw parts (
          clean_ordinary (root ++ split_slash path) (
            All-append IsOrdinary root (split_slash path) ordinary
              (Plain-Ordinary (split_slash path) plain))),
    )
