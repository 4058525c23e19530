-- ===== src/Modeling/Applier/Tool.antt =====
-- The write tool that the applier runs: WriteTool.Execute, internal/tools/builtin/write.go, with
-- resolveWorkspacePath of builtin/path.go, behind Run of internal/app/build/build_modeling_tools.go and
-- the security executor. JSON is a parameter; the path of a call is read as an absolute clean path, as
-- filepath.Abs gives it. What a failed os.WriteFile leaves in the file is the host's to say.
use mathlib.Core.List.{reverse, reverse-cons, reverse-reverse, append_assoc, append-nil}
use qemu_agent.Common.{
  ℕ, List, [], ◌∷◌, ◌++◌, ◌≡◌, ◌≢◌, refl, sym, ◌∙◌, ap, ◌⊎◌, Option, none, some, Bool, true, false,
  not, inl, inr, if◌then◌else◌, arith, Result, ok, err, Option-cases, Result-cases,
}
use qemu_agent.Common.Assoc.{get-put}
use qemu_agent.Text.{Text, codes}
use qemu_agent.Files.{
  FilePath, FilePath-discrete, Files, read_file, write_file, is_under, join, join_slash,
}
use qemu_agent.Security.{Invocation, SecurityError, failed, ExecutionResult, Tool}
use qemu_agent.Security.Executor.{Executor, Times, World, execute}
use qemu_agent.Security.Ran.{execute-ran}
use qemu_agent.Modeling.Applier.{WriteTool}
use qemu_agent.Modeling.Applier.Course.{IsWriteTool}

-- The file_path of WriteToolParam.
pub data Requested : Type 0 where
  blank : Requested
  absolute relative : FilePath → Requested

-- What os.WriteFile does: the whole content, or an error with what it leaves in the file (`none`: the
-- file as it was).
pub data Outcome : Type 0 where
  wrote : Outcome
  stopped : Option Text → Outcome

-- The tool with its workspace (none when that is blank), and what one call of it meets: the context's
-- error, the links of the file system, whether the parent directory is there or made, and the write.
pub record WriteHost : Type 0 where
  pub workspace : Option FilePath
  pub decoded : Text → Option (Requested × Text)
  pub ctx : Option SecurityError
  pub eval_links : FilePath → Option FilePath
  pub made_parent : FilePath → Bool
  pub outcome : FilePath → Text → Outcome

-- The loop of resolveExistingSymlinks over the parents, the elements of the path with the last one
-- first. The root directory is no link.
unfoldable pub resolve_above : (FilePath → Option FilePath) → List Text → FilePath → FilePath
resolve_above eval [] below = below
resolve_above eval (last ∷ above) below =
    let rest = resolve_above eval above (last ∷ below) in
    elim (eval (reverse above)) [ some place ↦ place ++ (last ∷ below) | none ↦ rest ]

-- resolveExistingSymlinks
unfoldable pub resolve_links : (FilePath → Option FilePath) → FilePath → FilePath
resolve_links eval path = elim (eval path) [
  | some place ↦ place
  | none ↦ resolve_above eval (reverse path) []
]

-- resolveWorkspacePath
unfoldable pub resolve_path : WriteHost → Requested → Result SecurityError FilePath
resolve_path host requested = elim host.workspace [
  | none ↦ err (failed (codes "workspace is empty"))
  | some workspace ↦
      let root = resolve_links host.eval_links workspace in
      let within : FilePath → Result SecurityError FilePath = λ candidate.
        if is_under root (resolve_links host.eval_links candidate)
        then ok (resolve_links host.eval_links candidate)
        else err (failed (codes "path is outside workspace")) in
      elim requested [
        | blank ↦ err (failed (codes "path is empty"))
        | absolute path ↦ within path
        | relative path ↦ within (join workspace path)
      ]
]

abbrev pub no_output : ExecutionResult
no_output = record { model_output = []; persistent_output = [] }

-- os.WriteFile, as it went.
abbrev pub written_file : Outcome → FilePath → Text → Files → Files
written_file wrote path content tree = write_file path content tree
written_file (stopped none) path content tree = tree
written_file (stopped (some left)) path content tree = write_file path left tree

abbrev pub tool_failed : Text → Files → Files × ExecutionResult × Option SecurityError
tool_failed reason tree = (tree, no_output, some (failed reason))

-- WriteTool.Execute from the directory on.
unfoldable pub write_at :
    WriteHost → FilePath → Text → Files → Files × ExecutionResult × Option SecurityError
write_at host path content tree =
    if not (host.made_parent path)
    then tool_failed (codes "create parent directory") tree
    else (elim (host.outcome path content) [
      | stopped left ↦ tool_failed (codes "write") (written_file (stopped left) path content tree)
      | wrote ↦
          let output = codes "File written successfully: /" ++ join_slash path in
          (
            written_file wrote path content tree,
            record { model_output = output; persistent_output = output },
            none,
          )
    ])

-- WriteTool.Execute from the resolution of the path on.
abbrev pub write_to :
    WriteHost → Requested → Text → Files → Files × ExecutionResult × Option SecurityError
write_to host requested content tree = elim (resolve_path host requested) [
  | err e ↦ (tree, no_output, some e)
  | ok place ↦ write_at host place content tree
]

-- WriteTool.Execute
unfoldable pub execute_write :
    WriteHost → Text → Files → Files × ExecutionResult × Option SecurityError
execute_write host args tree = elim host.ctx [
  | some e ↦ (tree, no_output, some e)
  | none ↦ elim (host.decoded args) [
    | none ↦ tool_failed (codes "decode write args") tree
    | some (requested, content) ↦ elim requested [
      | blank ↦ tool_failed (codes "file_path is required") tree
      | absolute path ↦ write_to host (absolute path) content tree
      | relative path ↦ write_to host (relative path) content tree
    ]
  ]
]

abbrev pub write_tool : WriteHost → Tool Files
write_tool host = record { name = codes "write"; dangerous = true; execute = execute_write host }

-- Caller, internal/tools/security/caller.go.
pub record Caller : Type 0 where
  pub trace_id : Text
  pub session_id : Text
  pub session_key : Text
  pub channel : Text
  pub interactive : Bool

-- modelingTools with what CallerFrom finds in the context, and what its nth call meets.
pub record ToolHost : Type 0 where
  pub executor : ℕ → Executor Files
  pub caller : Option Caller
  pub encoded : FilePath → Text → Option Text
  pub new_id : ℕ → Text
  pub now : ℕ → ℕ
  pub times : ℕ → Times
  pub ctx : ℕ → Option SecurityError

abbrev pub write_invocation : ToolHost → Caller → ℕ → Text → Invocation
write_invocation host caller n args = record {
  id = host.new_id n;
  trace_id = caller.trace_id;
  session_id = caller.session_id;
  session_key = caller.session_key;
  channel = caller.channel;
  interactive = caller.interactive;
  tool_name = codes "write";
  arguments = args;
  requested_at = host.now n;
}

-- Run of the tool `write`; the executor's log of the call starts empty.
unfoldable pub run_write : ToolHost → WriteTool
run_write host n target content tree = elim host.caller [
  | none ↦ (tree, false)
  | some caller ↦ elim (host.encoded target content) [
    | none ↦ (tree, false)
    | some args ↦
        let (world, result, error) =
          execute (host.executor n) (host.ctx n) (host.times n)
            (write_invocation host caller n args)
            (record { outside = tree; log = []; writes = 0 }) in
        (world.outside, elim error [ none ↦ true | some e ↦ false ])
  ]
]

-- No link is on the way: what EvalSymlinks resolves, it resolves to itself.
abbrev pub IsLinkFree : (FilePath → Option FilePath) → Type 0
IsLinkFree eval = (path place : FilePath) → eval path ≡ some place → place ≡ path

resolve_above-free :
    (eval : FilePath → Option FilePath)
    → IsLinkFree eval
    → (above : List Text) (below : FilePath)
    → resolve_above eval above below ≡ reverse above ++ below
unfolding resolve_above
resolve_above-free eval free [] below = refl
resolve_above-free eval free (last ∷ above) below =
    let joined : reverse above ++ (last ∷ below) ≡ reverse (last ∷ above) ++ below =
      rw (reverse-cons last above) (sym (append_assoc (reverse above) (last ∷ []) below)) in
    elim (Option-cases (eval (reverse above))) [
      | inl unresolved ↦
          rw (unresolved, resolve_above)
            (resolve_above-free eval free above (last ∷ below) ∙ joined)
      | inr (place, found) ↦
          rw (found, resolve_above)
            (ap (λ q. q ++ (last ∷ below)) (free (reverse above) place found) ∙ joined)
    ]

resolve_links-free :
    (eval : FilePath → Option FilePath)
    → IsLinkFree eval
    → (path : FilePath) → resolve_links eval path ≡ path
unfolding resolve_links
resolve_links-free eval free path = elim (Option-cases (eval path)) [
  | inr (place, found) ↦ rw (found, resolve_links) (free path place found)
  | inl unresolved ↦
      rw (unresolved, resolve_links)
        (resolve_above-free eval free (reverse path) []
          ∙ (append-nil (reverse (reverse path)) ∙ reverse-reverse path))
]

resolve_path-free :
    (host : WriteHost)
    → IsLinkFree host.eval_links
    → (path place : FilePath) → resolve_path host (absolute path) ≡ ok place
    → place ≡ path
unfolding resolve_path
resolve_path-free host free path place h =
    ground (arith, resolve_links-free host.eval_links free path)

write_file-elsewhere :
    (path p : FilePath) (content : Text) (tree : Files)
    → path ≢ p
    → read_file p (write_file path content tree) ≡ read_file p tree
write_file-elsewhere path p content tree other =
    ground (arith, get-put FilePath-discrete path p content tree)

write_at-elsewhere :
    (host : WriteHost) (path : FilePath) (content : Text) (tree : Files) (p : FilePath)
    → path ≢ p
    → read_file p (write_at host path content tree).0 ≡ read_file p tree
unfolding write_at
write_at-elsewhere host path content tree p other = outcome_case (host.outcome path content) refl
  where
    outcome_case :
        (o : Outcome)
        → host.outcome path content ≡ o
        → read_file p (write_at host path content tree).0 ≡ read_file p tree
    outcome_case wrote e = ground (arith, write_file-elsewhere path p content tree other)
    outcome_case (stopped none) e = ground arith
    outcome_case (stopped (some left)) e =
        ground (arith, write_file-elsewhere path p left tree other)

write_at-done :
    (host : WriteHost) (path : FilePath) (content : Text) (tree : Files)
    → (write_at host path content tree).2 ≡ none
    → read_file path (write_at host path content tree).0 ≡ some content
unfolding write_at
write_at-done host path content tree h =
    ground (arith, get-put FilePath-discrete path path content tree)

module _ (host : WriteHost) (free : IsLinkFree host.eval_links) where
  execute_write-elsewhere :
      (args : Text) (path : FilePath) (content : Text) (tree : Files) (p : FilePath)
      → host.decoded args ≡ some (absolute path, content)
      → path ≢ p
      → read_file p (execute_write host args tree).0 ≡ read_file p tree
  unfolding execute_write
  execute_write-elsewhere args path content tree p read other = elim (Option-cases host.ctx) [
    | inr (x, ended) ↦ ground arith
    | inl live ↦ elim (Result-cases (resolve_path host (absolute path))) [
      | inr (x, e) ↦ ground arith
      | inl (place, e) ↦
          let same = resolve_path-free host free path place e in
          let kept = write_at-elsewhere host path content tree p other in ground arith
    ]
  ]

  execute_write-done :
      (args : Text) (path : FilePath) (content : Text) (tree : Files)
      → host.decoded args ≡ some (absolute path, content)
      → (execute_write host args tree).2 ≡ none
      → read_file path (execute_write host args tree).0 ≡ some content
  unfolding execute_write
  execute_write-done args path content tree read went = elim (Option-cases host.ctx) [
    | inr (x, ended) ↦ absurd (ground arith)
    | inl live ↦ elim (Result-cases (resolve_path host (absolute path))) [
      | inr (x, e) ↦ absurd (ground arith)
      | inl (place, e) ↦
          let same = resolve_path-free host free path place e in
          let kept = write_at-done host path content tree in ground arith
    ]
  ]

-- What the law needs of a host: the executor's catalog has the write tool, no link is on the way, and
-- the tool reads back what Run encodes when JSON carries it, as it does text in UTF-8.
pub record IsWired (Fits : FilePath → Text → Type 0) (host : ToolHost) (at : ℕ → WriteHost)
    : Type 0 where
  pub listed : (n : ℕ) → (host.executor n).catalog (codes "write") ≡ some (write_tool (at n))
  pub free : (n : ℕ) → IsLinkFree (at n).eval_links
  pub reads :
      (n : ℕ) (target : FilePath) (content args : Text)
      → Fits target content
      → host.encoded target content ≡ some args
      → (at n).decoded args ≡ some (absolute target, content)

module _ (Fits : FilePath → Text → Type 0) (host : ToolHost) (at : ℕ → WriteHost)
    (wired : IsWired Fits host at) where
  -- One call of Run has not run the tool and reports an error, or has run it.
  run_write-cases :
      (n : ℕ) (target : FilePath) (content : Text) (tree : Files)
      → (run_write host n target content tree ≡ (tree, false))
        ⊎ ((args : Text) × (host.encoded target content ≡ some args)
            × ((run_write host n target content tree).0 ≡ (execute_write (at n) args tree).0)
            × ((run_write host n target content tree).1 ≡ true
                → (execute_write (at n) args tree).2 ≡ none))
  unfolding run_write
  run_write-cases n target content tree = elim (Option-cases host.caller) [
    | inl unknown ↦ inl (ground arith)
    | inr (caller, known) ↦ elim (Option-cases (host.encoded target content)) [
      | inl unencodable ↦ inl (ground arith)
      | inr (args, encoded_it) ↦
          let inv = write_invocation host caller n args in
          let world : World Files = record { outside = tree; log = []; writes = 0 } in
          elim (execute-ran (host.executor n) (host.ctx n) (host.times n) inv world) [
            | inl (same, (x, failed_it)) ↦ inl (ground arith)
            | inr ran ↦
                let listed = ran.listed in
                let expected = wired.listed n in
                let same : ran.tool ≡ write_tool (at n) = ground arith in
                let called = execute (host.executor n) (host.ctx n) (host.times n) inv world in
                let opened : (run_write host n target content tree).0 ≡ called.0.outside =
                  ground arith in
                let reported : (run_write host n target content tree).1 ≡ true → called.2 ≡ none =
                  λ went. elim (Option-cases called.2) [
                    | inl clear ↦ clear
                    | inr (x, failed_it) ↦ absurd (ground arith)
                  ] in
                inr (
                  args,
                  encoded_it,
                  opened ∙ (ran.outside ∙ ap (λ tool. (tool.execute args tree).0) same),
                  λ went.
                      sym (ap (λ tool. (tool.execute args tree).2) same)
                      ∙ ran.clean (reported went),
                )
          ]
    ]
  ]

  -- The program's write tool keeps the law of the applier's.
  pub run_write-IsWriteTool : IsWriteTool Fits (run_write host)
  run_write-IsWriteTool = record {
    done = λ n target content tree fit went. elim (run_write-cases n target content tree) [
      | inl refused ↦ absurd (ground arith)
      | inr (args, encoded_it, left, clean) ↦
          ap (read_file target) left
          ∙ execute_write-done (at n) (wired.free n) args target content tree
              (wired.reads n target content args fit encoded_it) (clean went)
    ];
    elsewhere = λ n target content tree p fit other. elim (run_write-cases n target content tree) [
      | inl refused ↦ ground arith
      | inr (args, encoded_it, left, clean) ↦
          ap (read_file p) left
          ∙ execute_write-elsewhere (at n) (wired.free n) args target content tree p
              (wired.reads n target content args fit encoded_it) other
    ];
  }
