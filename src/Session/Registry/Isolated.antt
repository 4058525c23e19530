-- ===== src/Session/Registry/Isolated.antt =====
-- What the methods of the registry do to the sessions of the other keys, and to their own when they
-- fail.
use qemu_agent.Common.{
  ℕ, List, [], ◌∷◌, ◌≡◌, ◌≢◌, refl, Option, some, Bool, true, inl, inr, arith, Result, ok, err,
  Result-cases, Option-cases, All, Bool-cases,
}
use qemu_agent.Common.Assoc.{get-put}
use qemu_agent.Text.{Text, Text-discrete}
use qemu_agent.Session.{
  Role, system, user, assistant, tool, Message, ModelRef, Session, SessionError,
}
use qemu_agent.Session.Registry.{
  SessionStore, Entry, Registry, no_entry, entry_of, is_system, live, with_current, entry_at,
  put_entry, with_entry, create_and_save, ensure_session, with_session, new_with_trace,
  current_session, load_session, resume, reset_session, update, system_messages,
}

-- A callback on a live session.
abbrev pub Change : Type 0
Change = Session → Session × Result SessionError (Unit {0})

is_system-system : (role : Role) → is_system role ≡ true → role ≡ system
is_system-system system h = refl
is_system-system user h = absurd (ground arith)
is_system-system assistant h = absurd (ground arith)
is_system-system tool h = absurd (ground arith)
is_system-system (Role.other t) h = absurd (ground arith)

system_messages-system : (ms : List Message) → All (λ m. m.role ≡ system) (system_messages ms)
unfolding system_messages
system_messages-system [] = tt
system_messages-system (m ∷ ms) = elim (Bool-cases (is_system m.role)) [
  | inl kept ↦ rw (kept, system_messages) (is_system-system m.role kept, system_messages-system ms)
  | inr dropped ↦ rw (dropped, system_messages) (system_messages-system ms)
]

-- What Reset makes of a session: its identity and its system messages.
pub record IsReset (before after : Session) : Type 0 where
  pub id : after.id ≡ before.id
  pub trace : after.trace_id ≡ before.trace_id
  pub model : after.model_ref ≡ before.model_ref
  pub created : after.created_at ≡ before.created_at
  pub unused : after.token_usage ≡ 0
  pub prompts : All (λ m. m.role ≡ system) after.messages

module _ {A : Type 0} (ops : SessionStore A) where
  -- One call of a method that may change the registry, for a key.
  pub data Step (key : Text) : Registry A → Registry A → Type 0 where
    with_sessions :
        (ctx : Option SessionError) (made : Session) (change : Change) (r : Registry A)
        → Step key r (with_session ops ctx key made change r).0
    news :
        (ctx : Option SessionError) (made : Session) (r : Registry A)
        → Step key r (new_with_trace ops ctx key made r).0
    resumes :
        (ctx : Option SessionError) (legacy_provider : Text) (resolves : ModelRef → Bool)
        (id : Text) (r : Registry A)
        → Step key r (resume ops ctx legacy_provider resolves key id r).0
    resets :
        (ctx : Option SessionError) (now : ℕ) (r : Registry A)
        → Step key r (reset_session ops ctx now key r).0
    updates :
        (ctx : Option SessionError) (change : Change) (r : Registry A)
        → Step key r (update ops ctx key change r).0

  -- The other keys have the same entries.
  abbrev pub SameElsewhere : Text → Registry A → Registry A → Type 0
  SameElsewhere key r r' = (k : Text) → k ≢ key → entry_at ops k r' ≡ entry_at ops k r

  put_entry-elsewhere :
      (key : Text) (entry : Entry) (r : Registry A)
      → SameElsewhere key r (put_entry ops key entry r)
  put_entry-elsewhere key entry r k other =
      ground (arith, get-put Text-discrete key k entry r.entries)

  with_entry-elsewhere : (key : Text) (r : Registry A) → SameElsewhere key r (with_entry ops key r)
  with_entry-elsewhere key r k other = elim (Option-cases (entry_at ops key r)) [
    | inl missing ↦ ground (arith, put_entry-elsewhere key no_entry r k other)
    | inr (entry, found) ↦ ground arith
  ]

  pub create_and_save-entries :
      (ctx : Option SessionError) (made : Session) (r : Registry A)
      → (create_and_save ops ctx made r).0.entries ≡ r.entries
  unfolding create_and_save
  create_and_save-entries ctx made r = ground arith

  new_with_trace-elsewhere :
      (ctx : Option SessionError) (key : Text) (made : Session) (r : Registry A)
      → SameElsewhere key r (new_with_trace ops ctx key made r).0
  unfolding new_with_trace
  new_with_trace-elsewhere ctx key made r k other =
      let r1 = (create_and_save ops ctx made (with_entry ops key r)).0 in
      let same = create_and_save-entries ctx made (with_entry ops key r) in
      let kept = with_entry-elsewhere key r k other in
      elim (Result-cases (create_and_save ops ctx made (with_entry ops key r)).1) [
        | inl (s, e) ↦ ground (arith, put_entry-elsewhere key (entry_of s) r1 k other)
        | inr (x, e) ↦ ground arith
      ]

  ensure_session-elsewhere :
      (ctx : Option SessionError) (key : Text) (made : Session) (r : Registry A)
      → SameElsewhere key r (ensure_session ops ctx key made r).0
  unfolding ensure_session
  ensure_session-elsewhere ctx key made r k other =
      let r1 = (create_and_save ops ctx made (with_entry ops key r)).0 in
      let same = create_and_save-entries ctx made (with_entry ops key r) in
      let kept = with_entry-elsewhere key r k other in
      elim (Option-cases (live (entry_at ops key r))) [
        | inr (s, found) ↦ ground arith
        | inl missing ↦
            elim (Result-cases (create_and_save ops ctx made (with_entry ops key r)).1) [
              | inl (s, e) ↦ ground (arith, put_entry-elsewhere key (entry_of s) r1 k other)
              | inr (x, e) ↦ ground arith
            ]
      ]

  -- A call for one key leaves the entries of all other keys as they are, whether it succeeds or fails.
  pub Step-SameElsewhere : (key : Text) (r r' : Registry A) → Step key r r' → SameElsewhere key r r'
  unfolding with_session resume reset_session update
  Step-SameElsewhere key r r' (with_sessions ctx made change r0) k other =
      let r1 = (ensure_session ops ctx key made r).0 in
      let kept = ensure_session-elsewhere ctx key made r k other in
      elim (Result-cases (ensure_session ops ctx key made r).1) [
        | inr (x, e) ↦ ground arith
        | inl (s, e) ↦ ground (
          arith,
          put_entry-elsewhere key (with_current (entry_at ops key r1) (change s).0) r1 k other,
        )
      ]
  Step-SameElsewhere key r r' (news ctx made r0) k other =
      new_with_trace-elsewhere ctx key made r k other
  Step-SameElsewhere key r r' (resumes ctx legacy_provider resolves id r0) k other =
      let r1 = with_entry ops key r in
      let kept = with_entry-elsewhere key r k other in
      elim (Result-cases (load_session ops ctx legacy_provider resolves id r1.store)) [
        | inr (x, e) ↦ ground arith
        | inl (s, e) ↦ ground (arith, put_entry-elsewhere key (entry_of s) r1 k other)
      ]
  Step-SameElsewhere key r r' (resets ctx now r0) k other =
      elim (Result-cases (current_session ops ctx key r)) [
        | inr (x, e) ↦ ground arith
        | inl (s, e) ↦
            let cleared = record s {
              messages = system_messages s.messages;
              token_usage = 0;
              updated_at = now;
            } in
            let r1 = record r { store = (ops.save ctx cleared r.store).0 } in
            let kept = put_entry-elsewhere key (entry_of cleared) r1 k other in
            elim (Result-cases (ops.save ctx cleared r.store).1) [
              | inr (x, e2) ↦ ground arith
              | inl (u, e2) ↦ ground arith
            ]
      ]
  Step-SameElsewhere key r r' (updates ctx change r0) k other =
      elim (Result-cases (current_session ops ctx key r)) [
        | inr (x, e) ↦ ground arith
        | inl (before, e) ↦
            let after = (change before).0 in
            let moved = put_entry ops key (with_current (entry_at ops key r) after) r in
            let r1 = record moved { store = (ops.save ctx after r.store).0 } in
            let undone = put_entry-elsewhere key (entry_of before) moved k other in
            let rolled_back = put_entry-elsewhere key (entry_of before) r1 k other in
            let kept =
              put_entry-elsewhere key (with_current (entry_at ops key r) after) r k other in
            elim (Result-cases (change before).1) [
              | inr (x, e2) ↦ ground arith
              | inl (u, e2) ↦ elim (Result-cases (ops.save ctx after r.store).1) [
                | inr (x, e3) ↦ ground arith
                | inl (v, e3) ↦ ground arith
              ]
            ]
      ]

  -- When Update fails, every key has the session that it had, whatever its callback did.
  pub update-rolls_back :
      (ctx : Option SessionError) (key : Text) (change : Change) (r : Registry A) (e : SessionError)
      (k : Text)
      → (update ops ctx key change r).1 ≡ err e
      → live (entry_at ops k (update ops ctx key change r).0) ≡ live (entry_at ops k r)
  unfolding update current_session
  update-rolls_back ctx key change r e k h = elim (Result-cases (current_session ops ctx key r)) [
    | inr (x, e1) ↦ ground arith
    | inl (before, e1) ↦
        let after = (change before).0 in
        let here : live (entry_at ops key r) ≡ some before = ground arith in
        let moved = put_entry ops key (with_current (entry_at ops key r) after) r in
        let changed =
          get-put Text-discrete key k (with_current (entry_at ops key r) after) r.entries in
        let put_back = get-put Text-discrete key k (entry_of before) moved.entries in
        elim (Result-cases (change before).1) [
          | inr (x, e2) ↦ ground arith
          | inl (u, e2) ↦ elim (Result-cases (ops.save ctx after r.store).1) [
            | inr (x, e3) ↦ ground arith
            | inl (v, e3) ↦ absurd (ground arith)
          ]
        ]
  ]

  -- A Reset that succeeds has saved what it returns, which keeps the id, the trace, the model and the
  -- creation time of the key's session and of its messages at most those of the system, and this is
  -- the key's session from then on.
  pub reset_session-IsReset :
      (ctx : Option SessionError) (now : ℕ) (key : Text) (r : Registry A) (s : Session)
      → (reset_session ops ctx now key r).1 ≡ ok s
      → (before : Session) × (live (entry_at ops key r) ≡ some before)
        × IsReset before s
        × (live (entry_at ops key (reset_session ops ctx now key r).0) ≡ some s)
        × (ops.save ctx s r.store ≡ ((reset_session ops ctx now key r).0.store, ok tt))
  unfolding reset_session current_session
  reset_session-IsReset ctx now key r s h = elim (Result-cases (current_session ops ctx key r)) [
    | inr (x, e) ↦ absurd (ground arith)
    | inl (before, e) ↦
        let cleared = record before {
          messages = system_messages before.messages;
          token_usage = 0;
          updated_at = now;
        } in
        elim (Result-cases (ops.save ctx cleared r.store).1) [
          | inr (x, e2) ↦ absurd (ground arith)
          | inl (u, e2) ↦
              let same : s ≡ cleared = ground arith in
              let prompts = system_messages-system before.messages in
              let there = get-put Text-discrete key key (entry_of cleared) r.entries in
              (
                before,
                ground arith,
                rw same (record {
                  id = refl;
                  trace = refl;
                  model = refl;
                  created = refl;
                  unused = refl;
                  prompts = prompts;
                }),
                ground arith,
                ground arith,
              )
        ]
  ]
