-- ===== src/Session/Projection.antt =====
-- What ReplaceToolResult does to the messages of a session.
use qemu_agent.Common.{
  ℕ, List, [], ◌∷◌, ◌≡◌, refl, map, inl, inr, arith, ok, if◌then◌else◌, Bool-cases,
}
use qemu_agent.Text.{Text}
use qemu_agent.Session.{Message, Session, answers, count_answers, put_answer, replace_tool_result}

-- The message with the new text, if it answers the call.
abbrev pub projected : Text → Text → Message → Message
projected call content m = if answers call m then record m { content = content } else m

put_answer-none :
    (call content : Text) (ms : List Message)
    → count_answers call ms ≡ 0
    → map (projected call content) ms ≡ ms
unfolding count_answers
put_answer-none call content [] h = refl
put_answer-none call content (m ∷ ms) h = ground (arith, put_answer-none call content ms)

put_answer-map :
    (call content : Text) (ms : List Message)
    → count_answers call ms ≡ 1
    → put_answer call content ms ≡ map (projected call content) ms
unfolding count_answers put_answer
put_answer-map call content [] h = absurd (omega arith)
put_answer-map call content (m ∷ ms) h = elim (Bool-cases (answers call m)) [
  | inl here ↦ ground (arith, put_answer-none call content ms)
  | inr later ↦ ground (arith, put_answer-map call content ms)
]

-- A ReplaceToolResult that succeeds has found exactly one result of the call, and changes the text of
-- that message and the time of the update, and nothing else of the session.
pub replace_tool_result-projects :
    (now : ℕ) (call content : Text) (s t : Session)
    → replace_tool_result now call content s ≡ ok t
    → (count_answers call s.messages ≡ 1)
      × (t ≡ record s { messages = map (projected call content) s.messages; updated_at = now })
unfolding replace_tool_result
replace_tool_result-projects now call content s t h =
    let once : count_answers call s.messages ≡ 1 = ground arith in
    (once, ground (arith, put_answer-map call content s.messages once))
