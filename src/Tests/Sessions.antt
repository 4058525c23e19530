-- ===== src/Tests/Sessions.antt =====
-- Instances of the theorems on sessions and their registry, over a store that keeps every session.
use qemu_agent.Common.{List, [], ◌∷◌, ◌≡◌, refl, map, none, some, arith, ok, err, All}
use qemu_agent.Common.Assoc.{get, put}
use qemu_agent.Text.{Text, Text-discrete, codes}
use qemu_agent.Session.{
  system, Session, failed, text_message, new_session, add_user, add_tool_result, count_answers,
  put_answer, replace_tool_result,
}
use qemu_agent.Session.Projection.{projected, replace_tool_result-projects}
use qemu_agent.Session.Registry.{
  SessionStore, Registry, entry_at, live, validate_session, system_messages, create_and_save,
  ensure_session, with_session, new_with_trace, current_session, load_session, resume,
  reset_session, update,
}
use qemu_agent.Session.Registry.Isolated.{Change, news, Step-SameElsewhere, update-rolls_back}
use qemu_agent.Session.Registry.Sound.{IsEntry, IsSound}
use qemu_agent.Session.Registry.Reached.{Reached, starts, Reached-IsEntry}
use qemu_agent.Tests.Samples.{computes}

session_runs : Unit {0}
unfolding count_answers put_answer replace_tool_result validate_session system_messages
    create_and_save ensure_session with_session new_with_trace current_session load_session resume
    reset_session update
session_runs = tt

-- Its state is the map of the saved sessions.
abbrev kept_sessions : SessionStore (List (Text × Session))
kept_sessions = record {
  save = λ ctx s kept. (put Text-discrete s.id s kept, ok tt);
  load = λ ctx id kept. elim (get Text-discrete id kept) [
    | none ↦ err (failed (codes "no such file"))
    | some s ↦ ok s
  ];
}

abbrev chat : Session
chat =
    new_session (codes "s1") 10 (codes "t1") (codes "You model devices.")
      (record { provider = codes "openai"; model = codes "gpt" })

abbrev asked : Session
asked =
    add_tool_result 30 (codes "a long log") (codes "c1") (add_user 20 (codes "model a timer") chat)

abbrev shortened : Session
shortened = record asked {
  messages = map (projected (codes "c1") (codes "ok")) asked.messages;
  updated_at = 40;
}

shortens_ok : replace_tool_result 40 (codes "c1") (codes "ok") asked ≡ ok shortened
unfolding computes session_runs
shortens_ok = refl

replace_tool_result-projects_example :
    (count_answers (codes "c1") asked.messages ≡ 1)
    × (shortened ≡ record asked {
      messages = map (projected (codes "c1") (codes "ok")) asked.messages;
      updated_at = 40;
    })
replace_tool_result-projects_example =
    replace_tool_result-projects 40 (codes "c1") (codes "ok") asked shortened shortens_ok

abbrev empty_registry : Registry (List (Text × Session))
empty_registry = record { entries = []; store = [] }

abbrev home : Text
home = codes "cli"

abbrev opened : Registry (List (Text × Session))
opened = (new_with_trace kept_sessions none home asked empty_registry).0

-- Changes the session, and fails.
abbrev spoils : Change
spoils s = (add_user 50 (codes "noise") s, err (failed (codes "stopped")))

update-rolls_back_example :
    live (entry_at kept_sessions home (update kept_sessions none home spoils opened).0)
    ≡ live (entry_at kept_sessions home opened)
unfolding computes session_runs
update-rolls_back_example =
    update-rolls_back kept_sessions none home spoils opened (failed (codes "stopped")) home refl

abbrev away : Text
away = codes "telegram"

Step-SameElsewhere_example :
    entry_at kept_sessions home (new_with_trace kept_sessions none away chat opened).0
    ≡ entry_at kept_sessions home opened
unfolding computes
Step-SameElsewhere_example =
    Step-SameElsewhere kept_sessions away opened
      (new_with_trace kept_sessions none away chat opened).0 (news none chat opened) home
      (λ e. absurd (ground arith))

abbrev cleared : Session
cleared = record asked {
  messages = text_message system (codes "You model devices.") ∷ [];
  updated_at = 60;
}

resets_ok : (reset_session kept_sessions none 60 home opened).1 ≡ ok cleared
unfolding computes session_runs
resets_ok = refl

abbrev asks : Change
asks s = (add_user 50 (codes "and a clock") s, ok tt)

asks-IsSound : IsSound asks
asks-IsSound s named = (refl, record { id = named.id; trace = named.trace; model = named.model })

Reached-IsEntry_example : All IsEntry (update kept_sessions none home asks opened).0.entries
Reached-IsEntry_example =
    Reached-IsEntry kept_sessions (update kept_sessions none home asks opened).0 (
      Reached.updates opened none home asks asks-IsSound
        (Reached.news empty_registry none home asked (starts [])))
