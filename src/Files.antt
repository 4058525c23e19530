-- ===== src/Files.antt =====
-- Paths and files: the parts of path/filepath and os that the program calls. A path is the list of
-- its elements, and a file system is the map of its regular files.
pub mod Paths
pub mod Tree
pub mod Trimmed
pub mod Relative
use mathlib.Core.List.{reverse}
use mathlib.Core.Logic.{ite}
use qemu_agent.Common.{
  ℕ, ◌+◌, List, [], ◌∷◌, ◌++◌, Option, none, some, Bool, true, false, ◌||◌, ◌==◌, if◌then◌else◌,
  length,
}
use qemu_agent.Common.Assoc.{get, put, remove}
use qemu_agent.Text.{Text, Text-discrete, codes, is_empty, text_eq}

abbrev pub FilePath : Type 0
FilePath = List Text

unfoldable pub FilePath-discrete : Discrete FilePath
FilePath-discrete = hlevel Text-discrete

abbrev pub path_eq : FilePath → FilePath → Bool
path_eq p q = ite (FilePath-discrete p q) true false

-- The elements of a path's text, the empty ones too.
unfoldable pub split_slash : Text → List Text
split_slash [] = [] ∷ []
split_slash (c ∷ s) = elim (split_slash s) [
  | [] ↦ []
  | w ∷ ws ↦ if c == b'/' then [] ∷ w ∷ ws else (c ∷ w) ∷ ws
]

unfoldable pub split_all : List Text → List Text
split_all [] = []
split_all (part ∷ parts) = split_slash part ++ split_all parts

-- One element of filepath.Clean on an absolute path, over the elements before it, the last one first.
abbrev pub cleaned : FilePath → Text → FilePath
cleaned done part =
    if is_empty part || text_eq part (codes ".")
    then done
    else if text_eq part (codes "..")
    then (elim done [ [] ↦ [] | last ∷ above ↦ above ])
    else part ∷ done

unfoldable pub clean_from : FilePath → List Text → FilePath
clean_from done [] = reverse done
clean_from done (part ∷ parts) = clean_from (cleaned done part) parts

-- filepath.Clean
abbrev pub clean : List Text → FilePath
clean parts = clean_from [] parts

-- filepath.Join, under an absolute path.
abbrev pub join : FilePath → List Text → FilePath
join base parts = clean (base ++ split_all parts)

-- `..` in a relative path, where it stays when there is nothing to go up from.
abbrev pub climbed : FilePath → FilePath
climbed [] = codes ".." ∷ []
climbed (last ∷ above) = if text_eq last (codes "..") then codes ".." ∷ last ∷ above else above

-- One element of path.Clean on a relative path.
abbrev pub cleaned_relative : FilePath → Text → FilePath
cleaned_relative done part =
    if is_empty part || text_eq part (codes ".")
    then done
    else if text_eq part (codes "..")
    then climbed done
    else part ∷ done

unfoldable pub clean_relative_from : FilePath → List Text → FilePath
clean_relative_from done [] = reverse done
clean_relative_from done (part ∷ parts) = clean_relative_from (cleaned_relative done part) parts

-- The text of a path, its elements joined by slashes.
unfoldable pub join_slash : List Text → Text
join_slash [] = []
join_slash (part ∷ parts) =
    let rest = join_slash parts in elim parts [ [] ↦ part | next ∷ later ↦ part ++ (b'/' ∷ rest) ]

-- path.Clean, on a relative path.
unfoldable pub clean_relative : Text → Text
clean_relative s = elim (clean_relative_from [] (split_slash s)) [
  | [] ↦ codes "."
  | part ∷ parts ↦ join_slash (part ∷ parts)
]

unfoldable pub last_element : List Text → Option Text
last_element [] = none
last_element (part ∷ parts) = elim (last_element parts) [
  | some last ↦ some last
  | none ↦ if is_empty part then none else some part
]

-- filepath.Base
unfoldable pub base_name : Text → Text
unfolding last_element split_slash
base_name name = elim (last_element (split_slash name)) [
  | some last ↦ last
  | none ↦ if is_empty name then codes "." else codes "/"
]

-- The directory, or a path below it.
unfoldable pub is_under : FilePath → FilePath → Bool
is_under [] p = true
is_under (d ∷ ds) [] = false
is_under (d ∷ ds) (q ∷ qs) = if text_eq d q then is_under ds qs else false

abbrev pub Files : Type 0
Files = List (FilePath × Text)

-- os.ReadFile, of a regular file.
abbrev pub read_file : FilePath → Files → Option Text
read_file = get FilePath-discrete

-- os.WriteFile, and atomicWriteFile.
abbrev pub write_file : FilePath → Text → Files → Files
write_file = put FilePath-discrete

-- os.Remove
abbrev pub remove_file : FilePath → Files → Files
remove_file = remove FilePath-discrete

-- os.Rename of a regular file.
unfoldable pub rename_file : FilePath → FilePath → Files → Files
rename_file source target files = elim (read_file source files) [
  | none ↦ files
  | some body ↦ write_file target body (remove_file source files)
]

-- os.RemoveAll
unfoldable pub remove_all : FilePath → Files → Files
remove_all dir [] = []
remove_all dir ((path, body) ∷ files) =
    let rest = remove_all dir files in if is_under dir path then rest else (path, body) ∷ rest

-- The sizes of the regular files below a directory, one file left out, as filepath.WalkDir adds them.
unfoldable pub bytes_under : FilePath → FilePath → Files → ℕ
bytes_under dir skipped [] = 0
bytes_under dir skipped ((path, body) ∷ files) =
    let rest = bytes_under dir skipped files in
    if is_under dir path then (if path_eq path skipped then rest else length body + rest) else rest
