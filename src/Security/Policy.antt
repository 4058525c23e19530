-- ===== src/Security/Policy.antt =====
-- The decision about a tool call: StaticPolicy and ConservativeBashAnalyzer, internal/tools/security/
-- policy.go and bash.go. `decoded` is the command that the JSON of the arguments holds, if they decode.
use qemu_agent.Common.{
  ℕ, List, [], ◌∷◌, ◌++◌, Option, none, some, Bool, true, false, ◌||◌, ◌&&◌, not, ltb, ◌==◌,
  if◌then◌else◌, length, take, Result, ok, err, ◌>>=◌, all,
}
use qemu_agent.Text.{Text, codes, text_eq, is_empty, trim_space, to_lower, has_prefix, contains}
use qemu_agent.Security.{allow, deny, ask, Invocation, Assessment, SecurityError, failed, Tool}

-- The modes that the constructors accept.
pub data Mode : Type 0 where
  allow_all deny_dangerous ask_dangerous : Mode

abbrev pub deny_patterns : List Text
deny_patterns =
    codes "rm -rf /"
    ∷ codes "rm -rf /*"
    ∷ codes "rm -rf ~"
    ∷ codes "mkfs"
    ∷ codes "fdisk"
    ∷ codes "parted"
    ∷ codes "shutdown"
    ∷ codes "reboot"
    ∷ codes "poweroff"
    ∷ codes "sudo "
    ∷ codes "doas "
    ∷ codes "| sh"
    ∷ codes "| bash"
    ∷ codes "| zsh"
    ∷ codes "> /etc/"
    ∷ codes ">/etc/"
    ∷ []

abbrev pub readonly_prefixes : List Text
readonly_prefixes =
    codes "pwd"
    ∷ codes "ls"
    ∷ codes "cat"
    ∷ codes "head"
    ∷ codes "tail"
    ∷ codes "wc"
    ∷ codes "grep"
    ∷ codes "rg"
    ∷ codes "find"
    ∷ codes "git status"
    ∷ codes "git diff"
    ∷ codes "git log"
    ∷ codes "git show"
    ∷ codes "go test"
    ∷ codes "go vet"
    ∷ codes "go build"
    ∷ codes "gofmt -d"
    ∷ []

unfoldable pub contains_any : Text → List Text → Bool
contains_any s [] = false
contains_any s (p ∷ ps) = contains s p || contains_any s ps

unfoldable pub starts_any : Text → List Text → Bool
starts_any s [] = false
starts_any s (p ∷ ps) = (text_eq s p || has_prefix s (p ++ (32 ∷ []))) || starts_any s ps

-- `complex`
abbrev pub is_complex : Text → Bool
is_complex s =
    not (all (λ c. not (c == 10 || c == 59 || c == 96)) s)
    || contains_any s (codes "&&" ∷ codes "||" ∷ codes "$(" ∷ codes "<<" ∷ [])

-- truncate
abbrev pub truncate : Text → ℕ → Text
truncate s limit = if ltb limit (length s) then take limit s ++ codes "...[truncated]" else s

-- decodeBashCommand
abbrev pub decode_bash_command : (Text → Option Text) → Text → Result SecurityError Text
decode_bash_command decoded raw = elim (decoded raw) [
  | none ↦ err (failed (codes "decode bash arguments"))
  | some command ↦
      if is_empty (trim_space command)
      then err (failed (codes "bash command is empty"))
      else ok (trim_space command)
]

abbrev pub is_allow_all : Mode → Bool
is_allow_all allow_all = true
is_allow_all m = false

-- The switch of Analyze on a decoded command.
unfoldable pub analyze_command : Mode → Text → Assessment
analyze_command mode command =
    let lower = to_lower command in
    let summary = truncate command 300 in
    if contains_any lower deny_patterns
    then record {
      decision = deny;
      rule = codes "bash-deny-pattern";
      reason = codes "command matches a prohibited destructive pattern";
      summary = summary;
    }
    else if not (is_complex command) && starts_any lower readonly_prefixes
    then record {
      decision = allow;
      rule = codes "bash-readonly";
      reason = codes "command is in the conservative read-only allowlist";
      summary = summary;
    }
    else if is_allow_all mode
    then record {
      decision = allow;
      rule = codes "bash-mode-allow";
      reason = codes "security mode allows unclassified bash commands";
      summary = summary;
    }
    else record {
      decision = ask;
      rule = codes "bash-unclassified";
      reason = codes "command cannot be proven safe";
      summary = summary;
    }

-- Analyze
unfoldable pub analyze : (Text → Option Text) → Mode → Text → Result SecurityError Assessment
analyze decoded mode raw = do
  command ← decode_bash_command decoded raw
  ok (analyze_command mode command)

-- The switch of Evaluate on the mode.
abbrev pub dangerous_tool : Mode → Assessment
dangerous_tool allow_all = record {
  decision = allow;
  rule = codes "mode-allow";
  reason = codes "security mode allows dangerous tools";
  summary = [];
}
dangerous_tool deny_dangerous = record {
  decision = deny;
  rule = codes "dangerous-tool";
  reason = codes "dangerous tools are disabled";
  summary = [];
}
dangerous_tool ask_dangerous = record {
  decision = ask;
  rule = codes "dangerous-tool";
  reason = codes "dangerous tool requires approval";
  summary = [];
}

abbrev pub safe_tool : Assessment
safe_tool = record {
  decision = allow;
  rule = codes "safe-tool";
  reason = codes "tool is marked non-dangerous";
  summary = [];
}

-- Evaluate, with the mode of the policy and that of its bash analyzer.
unfoldable pub evaluate :
    {W : Type 0}
    → (Text → Option Text)
    → Mode
    → Mode
    → Option SecurityError
    → Invocation
    → Tool W
    → Result SecurityError Assessment
evaluate decoded mode bash_mode none inv tool =
    if not (text_eq tool.name inv.tool_name)
    then err (failed (codes "policy tool mismatch"))
    else if text_eq tool.name (codes "bash")
    then analyze decoded bash_mode inv.arguments
    else if tool.dangerous
    then ok (dangerous_tool mode)
    else ok safe_tool
evaluate decoded mode bash_mode (some e) inv tool = err e
