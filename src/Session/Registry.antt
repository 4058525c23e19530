-- ===== src/Session/Registry.antt =====
-- Registry, internal/session/registry.go. The lock of a key's entry makes each method one step. What a
-- method changes of a session is on the live value of the entry, so a callback may change it also when
-- it fails. A store of sessions is any implementation of `SessionStore`.
pub mod Isolated
pub mod Sound
pub mod Reached
use qemu_agent.Common.{
  ℕ, List, [], ◌∷◌, Option, none, some, Bool, true, false, not, if◌then◌else◌, Result, ok, err,
  ◌>>=◌, ◌>>◌, guard, refuse,
}
use qemu_agent.Common.Assoc.{get, put}
use qemu_agent.Text.{Text, Text-discrete, codes, is_empty, trim_space}
use qemu_agent.Session.{
  Role, system, Message, ModelRef, Session, SessionError, empty_session_key, no_current_session,
  failed, normalize_model_ref,
}

-- Store, over its state; a call has the context's error.
pub record SessionStore (A : Type 0) : Type 0 where
  pub save : Option SessionError → Session → A → A × Result SessionError (Unit {0})
  pub load : Option SessionError → Text → A → Result SessionError Session

-- entry: `current` is none until a session is made.
pub record Entry : Type 0 where
  pub session_id : Text
  pub current : Option Session

pub record Registry (A : Type 0) : Type 0 where
  pub entries : List (Text × Entry)
  pub store : A

abbrev pub no_entry : Entry
no_entry = record { session_id = []; current = none }

abbrev pub entry_of : Session → Entry
entry_of s = record { session_id = s.id; current = some s }

abbrev pub check_canceled : Option SessionError → Result SessionError (Unit {0})
check_canceled none = ok tt
check_canceled (some e) = err e

-- validateKey
abbrev pub validate_key : Text → Result SessionError (Unit {0})
validate_key key = refuse (is_empty (trim_space key)) empty_session_key

-- The checks that every method begins with.
abbrev pub check_call : Option SessionError → Text → Result SessionError (Unit {0})
check_call ctx key = do check_canceled ctx; validate_key key

-- validateSession
unfoldable pub validate_session : Session → Result SessionError (Unit {0})
validate_session s = do
  refuse (is_empty (trim_space s.id)) (failed (codes "session id is empty"))
  refuse (is_empty (trim_space s.trace_id)) (failed (codes "session trace id is empty"))
  refuse (is_empty (trim_space s.model_ref.model)) (failed (codes "session model is empty"))

abbrev pub is_system : Role → Bool
is_system system = true
is_system role = false

-- systemMessages
unfoldable pub system_messages : List Message → List Message
system_messages [] = []
system_messages (m ∷ ms) =
    let rest = system_messages ms in if is_system m.role then m ∷ rest else rest

-- `item.session`
abbrev pub live : Option Entry → Option Session
live none = none
live (some entry) = entry.current

-- The entry after its live session was changed in place.
abbrev pub with_current : Option Entry → Session → Entry
with_current none s = entry_of s
with_current (some entry) s = record entry { current = some s }

module _ {A : Type 0} (ops : SessionStore A) where
  abbrev pub entry_at : Text → Registry A → Option Entry
  entry_at key r = get Text-discrete key r.entries

  abbrev pub put_entry : Text → Entry → Registry A → Registry A
  put_entry key entry r = record r { entries = put Text-discrete key entry r.entries }

  -- getOrCreateEntry
  abbrev pub with_entry : Text → Registry A → Registry A
  with_entry key r = elim (entry_at key r) [ none ↦ put_entry key no_entry r | some entry ↦ r ]

  -- createAndSave, of what the factory makes.
  unfoldable pub create_and_save :
      Option SessionError → Session → Registry A → Registry A × Result SessionError Session
  create_and_save ctx made r = elim (validate_session made) [
    | err e ↦ (r, err e)
    | ok u ↦
        let (store, saved) = ops.save ctx made r.store in
        (record r { store = store }, saved >> ok made)
  ]

  -- The first session of a key, when it has none.
  unfoldable pub ensure_session :
      Option SessionError → Text → Session → Registry A → Registry A × Result SessionError Session
  ensure_session ctx key made r = elim (live (entry_at key r)) [
    | some s ↦ (r, ok s)
    | none ↦
        let (r', created) = create_and_save ctx made (with_entry key r) in
        elim created [ err e ↦ (r', err e) | ok s ↦ (put_entry key (entry_of s) r', ok s) ]
  ]

  -- WithSession; `change` is the callback, on the live session.
  unfoldable pub with_session :
      Option SessionError
      → Text
      → Session
      → (Session → Session × Result SessionError (Unit {0}))
      → Registry A
      → Registry A × Result SessionError (Unit {0})
  with_session ctx key made change r = elim (check_call ctx key) [
    | err e ↦ (r, err e)
    | ok u ↦
        let (r', ensured) = ensure_session ctx key made r in
        elim ensured [
          | err e ↦ (r', err e)
          | ok s ↦
              let (s', changed) = change s in
              (put_entry key (with_current (entry_at key r') s') r', changed)
        ]
  ]

  -- newWithTrace, which New and NewWithTrace call; `made` is what the factory makes of the trace.
  unfoldable pub new_with_trace :
      Option SessionError → Text → Session → Registry A → Registry A × Result SessionError Session
  new_with_trace ctx key made r = elim (check_call ctx key) [
    | err e ↦ (r, err e)
    | ok u ↦
        let (r', created) = create_and_save ctx made (with_entry key r) in
        elim created [ err e ↦ (r', err e) | ok s ↦ (put_entry key (entry_of s) r', ok s) ]
  ]

  -- Current
  unfoldable pub current_session :
      Option SessionError → Text → Registry A → Result SessionError Session
  current_session ctx key r = do
    check_call ctx key
    elim (live (entry_at key r)) [ none ↦ err no_current_session | some s ↦ ok s ]

  -- The session that Resume loads and normalizes; `resolves` is models.Resolve.
  unfoldable pub load_session :
      Option SessionError → Text → (ModelRef → Bool) → Text → A → Result SessionError Session
  load_session ctx legacy_provider resolves id store = do
    loaded ← ops.load ctx id store
    validate_session loaded
    let named = loaded.model_ref
    let with_provider =
        if is_empty named.provider then record named { provider = legacy_provider } else named
    ref ← normalize_model_ref with_provider
    guard (resolves ref) (failed (codes "unknown model"))
    ok (record loaded { model_ref = ref })

  -- Resume
  unfoldable pub resume :
      Option SessionError
      → Text
      → (ModelRef → Bool)
      → Text
      → Text
      → Registry A
      → Registry A × Result SessionError Session
  resume ctx legacy_provider resolves key id r =
      elim (do
        check_call ctx key
        refuse (is_empty (trim_space id)) (failed (codes "session id is empty"))) [
          | err e ↦ (r, err e)
          | ok u ↦
              let r' = with_entry key r in
              elim (load_session ctx legacy_provider resolves id r'.store) [
                | err e ↦ (r', err e)
                | ok s ↦ (put_entry key (entry_of s) r', ok s)
              ]
        ]

  -- Reset, at a time.
  unfoldable pub reset_session :
      Option SessionError → ℕ → Text → Registry A → Registry A × Result SessionError Session
  reset_session ctx now key r = elim (current_session ctx key r) [
    | err e ↦ (r, err e)
    | ok s ↦
        let cleared = record s {
          messages = system_messages s.messages;
          token_usage = 0;
          updated_at = now;
        } in
        let (store, saved) = ops.save ctx cleared r.store in
        let r' = record r { store = store } in
        elim saved [
          | err e ↦ (r', err e)
          | ok u ↦ (put_entry key (entry_of cleared) r', ok cleared)
        ]
  ]

  -- Update; `change` is the callback, which changes the live session in place. Both failures put a
  -- copy from before back.
  unfoldable pub update :
      Option SessionError
      → Text
      → (Session → Session × Result SessionError (Unit {0}))
      → Registry A
      → Registry A × Result SessionError (Unit {0})
  update ctx key change r = elim (current_session ctx key r) [
    | err e ↦ (r, err e)
    | ok before ↦
        let (s, changed) = change before in
        let moved = put_entry key (with_current (entry_at key r) s) r in
        elim changed [
          | err e ↦ (put_entry key (entry_of before) moved, err e)
          | ok u ↦
              let (store, saved) = ops.save ctx s moved.store in
              let r' = record moved { store = store } in
              elim saved [
                | err e ↦ (put_entry key (entry_of before) r', err e)
                | ok v ↦ (r', ok tt)
              ]
        ]
  ]
