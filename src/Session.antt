-- ===== src/Session.antt =====
-- Chat sessions, internal/session/session.go, with the message types of internal/llm/provider.go and
-- the model names of internal/llm/model.go. A session is a value; Clone is the identity.
pub mod Registry
pub mod Projection
use mathlib.Core.Logic.{ite}
use qemu_agent.Common.{
  ℕ, suc, List, [], ◌∷◌, ◌++◌, Option, none, some, Bool, true, false, ◌||◌, ◌&&◌, not, ◌==◌,
  if◌then◌else◌, Result, ok, err, ◌>>=◌, ◌>>◌, guard, refuse,
}
use qemu_agent.Text.{Text, Text-discrete, codes, text_eq, is_empty, trim_space, to_lower, contains}

-- Role; `other` has a text that is none of the four constants.
pub data Role : Type 0 where
  system user assistant tool : Role
  other : Text → Role

pub record ToolCall : Type 0 where
  pub id : Text
  pub name : Text
  pub args : Text

pub record Message : Type 0 where
  pub role : Role
  pub content : Text
  pub tool_calls : List ToolCall
  pub tool_call_id : Text

pub record ModelRef : Type 0 where
  pub provider : Text
  pub model : Text

pub record Session : Type 0 where
  pub id : Text
  pub trace_id : Text
  pub model_ref : ModelRef
  pub messages : List Message
  pub token_usage : ℕ
  pub created_at : ℕ
  pub updated_at : ℕ

-- The sentinels of the package, the canceled context, and the other errors by their text.
pub data SessionError : Type 0 where
  empty_session_key no_current_session tool_result_not_found canceled : SessionError
  failed : Text → SessionError

abbrev pub model_ref_eq : ModelRef → ModelRef → Bool
model_ref_eq a b = text_eq a.provider b.provider && text_eq a.model b.model

-- The bytes that a provider's name may not have: `:/ \t\r\n`.
abbrev pub is_reserved : ℕ → Bool
is_reserved c = c == 58 || c == 47 || c == 32 || c == 9 || c == 13 || c == 10

-- strings.ContainsAny with these.
unfoldable pub has_reserved : Text → Bool
has_reserved [] = false
has_reserved (c ∷ s) = is_reserved c || has_reserved s

-- NormalizeModelRef
unfoldable pub normalize_model_ref : ModelRef → Result SessionError ModelRef
normalize_model_ref ref = do
  let provider = to_lower (trim_space ref.provider)
  let model = trim_space ref.model
  refuse (is_empty provider) (failed (codes "model provider is empty"))
  refuse (is_empty model) (failed (codes "model name is empty"))
  refuse (has_reserved provider) (failed (codes "invalid model provider"))
  ok (record { provider = provider; model = model })

abbrev pub text_message : Role → Text → Message
text_message role content = record {
  role = role;
  content = content;
  tool_calls = [];
  tool_call_id = [];
}

-- NewSession, with the id and the time that it reads.
abbrev pub new_session : Text → ℕ → Text → Text → ModelRef → Session
new_session id now trace_id system_prompt model_ref = record {
  id = id;
  trace_id = trace_id;
  model_ref = model_ref;
  messages = if is_empty system_prompt then [] else text_message system system_prompt ∷ [];
  token_usage = 0;
  created_at = now;
  updated_at = now;
}

-- AddAssistant
abbrev pub add_assistant : ℕ → Message → Session → Session
add_assistant now msg s = record s {
  messages = s.messages ++ (record msg { role = assistant } ∷ []);
  updated_at = now;
}

-- AddUser
abbrev pub add_user : ℕ → Text → Session → Session
add_user now text s = record s {
  messages = s.messages ++ (text_message user text ∷ []);
  updated_at = now;
}

-- AddToolResult
abbrev pub add_tool_result : ℕ → Text → Text → Session → Session
add_tool_result now content call s = record s {
  messages = s.messages ++ (record (text_message tool content) { tool_call_id = call } ∷ []);
  updated_at = now;
}

abbrev pub is_tool : Role → Bool
is_tool tool = true
is_tool r = false

-- The message that holds the result of a call.
abbrev pub answers : Text → Message → Bool
answers call m = is_tool m.role && text_eq m.tool_call_id call

-- The number of its results.
unfoldable pub count_answers : Text → List Message → ℕ
count_answers call [] = 0
count_answers call (m ∷ ms) =
    let rest = count_answers call ms in if answers call m then suc rest else rest

-- `s.Messages[found].Content = content`, for the first such message.
unfoldable pub put_answer : Text → Text → List Message → List Message
put_answer call content [] = []
put_answer call content (m ∷ ms) =
    let rest = put_answer call content ms in
    if answers call m then record m { content = content } ∷ ms else m ∷ rest

-- ReplaceToolResult
unfoldable pub replace_tool_result : ℕ → Text → Text → Session → Result SessionError Session
replace_tool_result now call content s = do
  refuse (is_empty call) (failed (codes "tool call id is empty"))
  refuse (is_empty content) (failed (codes "tool result content is empty"))
  let found = count_answers call s.messages
  refuse (not (found == 0) && not (found == 1)) (failed (codes "duplicate tool result"))
  refuse (found == 0) tool_result_not_found
  ok (record s { messages = put_answer call content s.messages; updated_at = now })

-- MessageReplace
abbrev pub message_replace : ℕ → List Message → ℕ → Session → Session
message_replace now messages usage s = record s {
  messages = messages;
  token_usage = usage;
  updated_at = now;
}

-- CanReplaceFrom
unfoldable pub can_replace_session : Session → Session → Result SessionError (Unit {0})
can_replace_session s other_session = do
  guard (text_eq s.id other_session.id) (failed (codes "session replacement changes id"))
  guard (text_eq s.trace_id other_session.trace_id)
      (failed (codes "session replacement changes trace id"))
  guard (model_ref_eq s.model_ref other_session.model_ref)
      (failed (codes "session replacement changes model ref"))
  guard (s.created_at == other_session.created_at)
      (failed (codes "session replacement changes creation time"))

-- ReplaceFrom
unfoldable pub replace_from : Session → Session → Result SessionError Session
replace_from s other_session = do
  can_replace_session s other_session
  ok (record s {
    messages = other_session.messages;
    token_usage = other_session.token_usage;
    updated_at = other_session.updated_at;
  })
