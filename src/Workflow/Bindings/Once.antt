-- ===== src/Workflow/Bindings/Once.antt =====
-- A version of a binding is replaced once.
use qemu_agent.Common.{
  ap, ◌≡◌, ◌≢◌, refl, ◌⊎◌, Option, some, Bool, true, false, arith, Result, ok, err, ◌>>=◌, ◌>>◌,
  guard, refuse, inl, inr, Result-cases, Option-cases, is_ok,
}
use qemu_agent.Common.Assoc.{put, remove, get-put, get-remove}
use qemu_agent.Text.{codes}
use qemu_agent.Modeling.Types.{ℤ, int_eq, is_negative, next_int}
use qemu_agent.Modeling.Ints.{lt_int}
use qemu_agent.Workflow.{Binding, BindingKey, FlowError, version_conflict, flow_failed}
use qemu_agent.Workflow.Bindings.{
  key_parts, parts_discrete, BindingFiles, binding_at, validate_binding_key, check_live, is_current,
  finish_save, compare_and_save, delete_binding,
}

is_ok-fails :
    {A B : Type 0} (call : Result FlowError A) (next : A → Result FlowError B)
    → ((a : A) → is_ok (next a) ≡ false)
    → is_ok (call >>= next) ≡ false
is_ok-fails (ok a) next h = h a
is_ok-fails (err e) next h = refl

-- Calls that change the bindings: CompareAndSave for any key, and Delete for any key but this one.
pub data Between (key : BindingKey) : BindingFiles → BindingFiles → Type 0 where
  at_once : (files : BindingFiles) → Between key files files
  saves :
      {files files' last : BindingFiles} {saved : Binding} (ctx : Option FlowError)
      (binding : Binding) (expected : ℤ) (written : Bool)
      → compare_and_save ctx binding expected written files ≡ ok (files', saved)
      → Between key files' last
      → Between key files last
  deletes :
      {files files' last : BindingFiles} (ctx : Option FlowError) (other : BindingKey)
      (expected : ℤ) (removed : Bool)
      → delete_binding ctx other expected removed files ≡ ok files'
      → key_parts other ≢ key_parts key
      → Between key files' last
      → Between key files last

-- A version after the expected one; the version after the largest integer is negative.
abbrev IsPast : ℤ → ℤ → Type 0
IsPast expected version = (is_negative version ≡ true) ⊎ (lt_int expected version ≡ true)

-- The key has a binding at a later version.
abbrev Passed : BindingKey → ℤ → BindingFiles → Type 0
Passed key expected files =
    (b : Binding) × (binding_at key files ≡ some b) × IsPast expected b.version

next_int-IsPast : (n : ℤ) → is_negative n ≡ false → IsPast n (next_int n)
unfolding next_int
next_int-IsPast (ℤ.pos n) h = ground arith
next_int-IsPast (ℤ.negsuc n) h = ground arith

later-IsPast :
    (expected m n : ℤ)
    → IsPast expected m
    → int_eq m n ≡ true
    → is_negative n ≡ false
    → IsPast expected (next_int n)
unfolding next_int
later-IsPast (ℤ.pos e) (ℤ.pos m) (ℤ.pos n) p h k = ground arith
later-IsPast (ℤ.negsuc e) (ℤ.pos m) (ℤ.pos n) p h k = ground arith
later-IsPast e (ℤ.negsuc m) (ℤ.pos n) p h k = ground arith
later-IsPast e m (ℤ.negsuc n) p h k = ground arith

past-stale :
    (expected m : ℤ) → is_negative expected ≡ false → IsPast expected m → int_eq m expected ≡ false
past-stale (ℤ.pos e) (ℤ.pos m) h p = ground arith
past-stale (ℤ.pos e) (ℤ.negsuc m) h p = ground arith
past-stale (ℤ.negsuc e) m h p = ground arith

-- What a CompareAndSave that succeeds has checked and stored.
record IsStored (binding : Binding) (expected : ℤ) (files files' : BindingFiles) (saved : Binding)
    : Type 0 where
  counted : is_negative expected ≡ false
  current : is_current (binding_at binding.key files) expected ≡ true
  version : saved.version ≡ next_int expected
  files_put : files' ≡ put parts_discrete (key_parts binding.key) saved files

compare_and_save-IsStored :
    (ctx : Option FlowError) (binding : Binding) (expected : ℤ) (written : Bool)
    → (files files' : BindingFiles) (saved : Binding)
    → compare_and_save ctx binding expected written files ≡ ok (files', saved)
    → IsStored binding expected files files' saved
unfolding compare_and_save
compare_and_save-IsStored ctx binding expected written files files' saved h =
    elim (Result-cases (validate_binding_key binding.key)) [
      | inr (e, bad) ↦ absurd (ground arith)
      | inl (checked, fine) ↦
          let next : Binding = record binding { version = next_int expected } in
          let stored : saved ≡ next = ground arith in
          let kept : files' ≡ put parts_discrete (key_parts binding.key) next files =
            ground arith in
          record {
            counted = ground arith;
            current = ground arith;
            version = ap (λ b. b.version) stored;
            files_put = ground arith;
          }
    ]

save-Passed :
    (key : BindingKey) (past : ℤ) (binding : Binding) (expected : ℤ) (files files' : BindingFiles)
    (saved : Binding)
    → IsStored binding expected files files' saved
    → Passed key past files
    → Passed key past files'
save-Passed key past binding expected files files' saved s (b, there, after) =
    let put_at = get-put parts_discrete (key_parts binding.key) (key_parts key) saved files in
    let same_files = s.files_put in
    elim (parts_discrete (key_parts binding.key) (key_parts key)) [
      | no other ↦ (b, ground arith, after)
      | yes same ↦
          let fresh = s.current in
          let found : is_current (some b) expected ≡ true = ground arith in
          let later = later-IsPast past b.version expected after found s.counted in
          let stamped = s.version in (saved, ground arith, rw stamped later)
    ]

delete_binding-Passed :
    (key : BindingKey) (past : ℤ) (ctx : Option FlowError) (other : BindingKey) (expected : ℤ)
    (removed : Bool) (files files' : BindingFiles)
    → delete_binding ctx other expected removed files ≡ ok files'
    → key_parts other ≢ key_parts key
    → Passed key past files
    → Passed key past files'
unfolding delete_binding
delete_binding-Passed key past ctx other expected removed files files' h apart (b, there, after) =
    let gone = get-remove parts_discrete (key_parts other) (key_parts key) files in
    let left : files' ≡ remove parts_discrete (key_parts other) files =
      elim (Result-cases (validate_binding_key other)) [
        | inr (e, bad) ↦ absurd (ground arith)
        | inl (checked, fine) ↦ elim (Option-cases (binding_at other files)) [
          | inl missing ↦ absurd (ground arith)
          | inr (current, found) ↦ ground arith
        ]
      ] in
    (b, ground arith, after)

Between-Passed :
    {key : BindingKey} {files last : BindingFiles} (past : ℤ)
    → Between key files last
    → Passed key past files
    → Passed key past last
Between-Passed past (at_once files) p = p
Between-Passed {key} past
      (saves {files = files} {files' = files'} {saved = saved} ctx binding expected written h rest)
      p =
    Between-Passed past rest (
      save-Passed key past binding expected files files' saved
        (compare_and_save-IsStored ctx binding expected written files files' saved h) p)
Between-Passed {key} past
      (deletes {files = files} {files' = files'} ctx other expected removed h apart rest) p =
    Between-Passed past rest
      (delete_binding-Passed key past ctx other expected removed files files' h apart p)

-- After a CompareAndSave that succeeded, no other one for the same key at the same version succeeds,
-- whatever calls of CompareAndSave, and of Delete for other keys, come between.
pub compare_and_save-once :
    (ctx ctx' : Option FlowError) (binding other : Binding) (expected : ℤ) (written written' : Bool)
    → (files files' last : BindingFiles) (saved : Binding)
    → compare_and_save ctx binding expected written files ≡ ok (files', saved)
    → Between binding.key files' last
    → key_parts other.key ≡ key_parts binding.key
    → is_ok (compare_and_save ctx' other expected written' last) ≡ false
unfolding compare_and_save
compare_and_save-once ctx ctx' binding other expected written written' files files' last saved h
      calls same =
    let s = compare_and_save-IsStored ctx binding expected written files files' saved h in
    let put_at =
      get-put parts_discrete (key_parts binding.key) (key_parts binding.key) saved files in
    let same_files = s.files_put in
    let stamped = s.version in
    let first : Passed binding.key expected files' =
      (saved, ground arith, rw stamped (next_int-IsPast expected s.counted)) in
    let (b, there, after) = Between-Passed expected calls first in
    let old = past-stale expected b.version s.counted after in
    let stale : is_current (binding_at other.key last) expected ≡ false = ground arith in
    is_ok-fails (check_live ctx') _ (λ a. is_ok-fails (validate_binding_key other.key) _ (λ b.
      is_ok-fails
        (refuse (is_negative expected)
          (flow_failed (codes "expected binding version must not be negative")))
        (λ c.
          guard (is_current (binding_at other.key last) expected) version_conflict
          >> finish_save other expected written' last)
        (λ c. rw stale refl)))
