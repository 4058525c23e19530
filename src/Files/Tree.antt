-- ===== src/Files/Tree.antt =====
-- What the operations on files do to each file, and to the sizes.
use mathlib.Core.Logic.{ite}
use qemu_agent.Common.{
  ◌+◌, ◌≤◌, [], ◌∷◌, ◌++◌, ◌≡◌, refl, none, some, true, arith, if◌then◌else◌, length,
}
use qemu_agent.Common.Assoc.{get, put, get-put, get-remove}
use qemu_agent.Text.{Text}
use qemu_agent.Files.{
  FilePath, FilePath-discrete, Files, read_file, write_file, remove_file, rename_file, remove_all,
  is_under, bytes_under,
}

pub read_file-remove_all :
    (dir p : FilePath) (files : Files)
    → read_file p (remove_all dir files) ≡ (if is_under dir p then none else read_file p files)
unfolding get remove_all
read_file-remove_all dir p [] = ground arith
read_file-remove_all dir p ((q, body) ∷ files) = ground (arith, read_file-remove_all dir p files)

pub read_file-rename_file :
    (source target p : FilePath) (files : Files) (body : Text)
    → read_file source files ≡ some body
    → read_file p (rename_file source target files)
      ≡ ite
          (FilePath-discrete target p)
          (some body)
          (ite (FilePath-discrete source p) none (read_file p files))
unfolding rename_file
read_file-rename_file source target p files body h = ground (
  arith,
  get-put FilePath-discrete target p body (remove_file source files),
  get-remove FilePath-discrete source p files,
)

-- What a longer path is under, its beginning is under too, or it lies on the way.
pub is_under-append : (dir rest : FilePath) → is_under dir (dir ++ rest) ≡ true
unfolding is_under
is_under-append [] rest = refl
is_under-append (d ∷ dir) rest = ground (arith, is_under-append dir rest)

pub is_under_base : (base dir p : FilePath) → is_under (base ++ dir) (base ++ p) ≡ is_under dir p
unfolding is_under
is_under_base [] dir p = refl
is_under_base (b ∷ base) dir p = ground (arith, is_under_base base dir p)

pub bytes_under-write :
    (dir skipped p : FilePath) (body : Text) (files : Files)
    → bytes_under dir skipped (write_file p body files)
      ≤ length body + bytes_under dir skipped files
unfolding bytes_under put
bytes_under-write dir skipped p body [] = ground arith
bytes_under-write dir skipped p body ((q, old) ∷ files) =
    ground (arith, bytes_under-write dir skipped p body files)
