-- ===== src/Session/Registry/Reached.antt =====
-- The registries that the methods can produce, and the sessions in them.
use qemu_agent.Common.{
  ℕ, [], ◌≡◌, sym, subst, Option, some, Bool, inl, inr, arith, ok, ◌>>◌, refuse, Result-cases,
  Option-cases, All,
}
use qemu_agent.Common.Assoc.{get-put}
use qemu_agent.Text.{Text, Text-discrete, codes, is_empty, trim_space}
use qemu_agent.Session.{ModelRef, Session, SessionError, failed}
use qemu_agent.Session.Registry.{
  SessionStore, Registry, entry_of, check_call, live, with_current, entry_at, put_entry, with_entry,
  create_and_save, ensure_session, with_session, new_with_trace, current_session, load_session,
  resume, reset_session, update, system_messages,
}
use qemu_agent.Session.Registry.Isolated.{Change, create_and_save-entries}
use qemu_agent.Session.Registry.Sound.{
  IsNamed, IsEntry, IsSound, put_entry-All, entry_of-IsEntry, live-IsNamed, with_current-IsEntry,
  with_entry-All, created-All, load_session-IsNamed,
}

module _ {A : Type 0} (ops : SessionStore A) where
  -- The registries that the methods make of an empty one, with sound callbacks.
  pub data Reached : Registry A → Type 0 where
    starts : (store : A) → Reached (record { entries = []; store = store })
    with_sessions :
        (r : Registry A) (ctx : Option SessionError) (key : Text) (made : Session) (change : Change)
        → IsSound change
        → Reached r
        → Reached (with_session ops ctx key made change r).0
    news :
        (r : Registry A) (ctx : Option SessionError) (key : Text) (made : Session)
        → Reached r
        → Reached (new_with_trace ops ctx key made r).0
    resumes :
        (r : Registry A) (ctx : Option SessionError) (legacy_provider : Text)
        (resolves : ModelRef → Bool) (key id : Text)
        → Reached r
        → Reached (resume ops ctx legacy_provider resolves key id r).0
    resets :
        (r : Registry A) (ctx : Option SessionError) (now : ℕ) (key : Text)
        → Reached r
        → Reached (reset_session ops ctx now key r).0
    updates :
        (r : Registry A) (ctx : Option SessionError) (key : Text) (change : Change)
        → IsSound change
        → Reached r
        → Reached (update ops ctx key change r).0

  new_with_trace-All :
      (ctx : Option SessionError) (key : Text) (made : Session) (r : Registry A)
      → All IsEntry r.entries
      → All IsEntry (new_with_trace ops ctx key made r).0.entries
  unfolding new_with_trace
  new_with_trace-All ctx key made r v = elim (Result-cases (check_call ctx key)) [
    | inr (x, e) ↦ rw (e, new_with_trace) v
    | inl (u, e) ↦ elim (Result-cases (create_and_save ops ctx made (with_entry ops key r)).1) [
      | inl (s, e2) ↦ rw (e, e2, new_with_trace) (created-All ops ctx key made s r v e2)
      | inr (x, e2) ↦
          let same = create_and_save-entries ops ctx made (with_entry ops key r) in
          rw (e, e2, new_with_trace) (subst (All IsEntry) (sym same) (with_entry-All ops key r v))
    ]
  ]

  ensure_session-All :
      (ctx : Option SessionError) (key : Text) (made : Session) (r : Registry A)
      → All IsEntry r.entries
      → All IsEntry (ensure_session ops ctx key made r).0.entries
  unfolding ensure_session
  ensure_session-All ctx key made r v = elim (Option-cases (live (entry_at ops key r))) [
    | inr (s, found) ↦ rw (found, ensure_session) v
    | inl missing ↦ elim (Result-cases (create_and_save ops ctx made (with_entry ops key r)).1) [
      | inl (s, e2) ↦ rw (missing, e2, ensure_session) (created-All ops ctx key made s r v e2)
      | inr (x, e2) ↦
          let same = create_and_save-entries ops ctx made (with_entry ops key r) in
          rw (missing, e2, ensure_session)
            (subst (All IsEntry) (sym same) (with_entry-All ops key r v))
    ]
  ]

  ensure_session-live :
      (ctx : Option SessionError) (key : Text) (made s : Session) (r : Registry A)
      → (ensure_session ops ctx key made r).1 ≡ ok s
      → live (entry_at ops key (ensure_session ops ctx key made r).0) ≡ some s
  unfolding ensure_session
  ensure_session-live ctx key made s r h = elim (Option-cases (live (entry_at ops key r))) [
    | inr (t, found) ↦ ground arith
    | inl missing ↦ elim (Result-cases (create_and_save ops ctx made (with_entry ops key r)).1) [
      | inr (x, e2) ↦ absurd (ground arith)
      | inl (t, e2) ↦
          let r1 = (create_and_save ops ctx made (with_entry ops key r)).0 in
          ground (arith, get-put Text-discrete key key (entry_of t) r1.entries)
    ]
  ]

  with_session-All :
      (ctx : Option SessionError) (key : Text) (made : Session) (change : Change) (r : Registry A)
      → IsSound change
      → All IsEntry r.entries
      → All IsEntry (with_session ops ctx key made change r).0.entries
  unfolding with_session
  with_session-All ctx key made change r sound v = elim (Result-cases (check_call ctx key)) [
    | inr (x, e) ↦ rw (e, with_session) v
    | inl (u, e) ↦
        let r1 = (ensure_session ops ctx key made r).0 in
        let v1 = ensure_session-All ctx key made r v in
        elim (Result-cases (ensure_session ops ctx key made r).1) [
          | inr (x, e2) ↦ rw (e, e2, with_session) v1
          | inl (s, e2) ↦
              let here = ensure_session-live ctx key made s r e2 in
              let (same, named) = sound s (live-IsNamed ops key s r1 v1 here) in
              rw (e, e2, with_session)
                (put_entry-All ops key (with_current (entry_at ops key r1) (change s).0) r1
                  (with_current-IsEntry ops key s (change s).0 r1 v1 here same named) v1)
        ]
  ]

  resume-All :
      (ctx : Option SessionError) (legacy_provider : Text) (resolves : ModelRef → Bool)
      (key id : Text) (r : Registry A)
      → All IsEntry r.entries
      → All IsEntry (resume ops ctx legacy_provider resolves key id r).0.entries
  unfolding resume
  resume-All ctx legacy_provider resolves key id r v =
      let r1 = with_entry ops key r in
      let v1 = with_entry-All ops key r v in
      elim (Result-cases (
        check_call ctx key
        >> refuse (is_empty (trim_space id)) (failed (codes "session id is empty")))) [
          | inr (x, e) ↦ rw (e, resume) v
          | inl (u, e) ↦
              elim (Result-cases (load_session ops ctx legacy_provider resolves id r1.store)) [
                | inr (x, e2) ↦ rw (e, e2, resume) v1
                | inl (s, e2) ↦
                    let named =
                      load_session-IsNamed ops ctx legacy_provider resolves id r1.store s e2 in
                    rw (e, e2, resume)
                      (put_entry-All ops key (entry_of s) r1 (entry_of-IsEntry ops key s named) v1)
              ]
        ]

  current_session-live :
      (ctx : Option SessionError) (key : Text) (r : Registry A) (s : Session)
      → current_session ops ctx key r ≡ ok s
      → live (entry_at ops key r) ≡ some s
  unfolding current_session
  current_session-live ctx key r s h = elim (Option-cases (live (entry_at ops key r))) [
    | inl missing ↦ absurd (ground arith)
    | inr (t, found) ↦ ground arith
  ]

  reset_session-All :
      (ctx : Option SessionError) (now : ℕ) (key : Text) (r : Registry A)
      → All IsEntry r.entries
      → All IsEntry (reset_session ops ctx now key r).0.entries
  unfolding reset_session
  reset_session-All ctx now key r v = elim (Result-cases (current_session ops ctx key r)) [
    | inr (x, e) ↦ rw (e, reset_session) v
    | inl (s, e) ↦
        let cleared = record s {
          messages = system_messages s.messages;
          token_usage = 0;
          updated_at = now;
        } in
        let r1 = record r { store = (ops.save ctx cleared r.store).0 } in
        let named = live-IsNamed ops key s r v (current_session-live ctx key r s e) in
        let kept : IsNamed cleared = record {
          id = named.id;
          trace = named.trace;
          model = named.model;
        } in
        elim (Result-cases (ops.save ctx cleared r.store).1) [
          | inr (x, e2) ↦ rw (e, e2, reset_session) v
          | inl (u, e2) ↦
              rw (e, e2, reset_session)
                (put_entry-All ops key (entry_of cleared) r1 (entry_of-IsEntry ops key cleared kept)
                  v)
        ]
  ]

  update-All :
      (ctx : Option SessionError) (key : Text) (change : Change) (r : Registry A)
      → IsSound change
      → All IsEntry r.entries
      → All IsEntry (update ops ctx key change r).0.entries
  unfolding update
  update-All ctx key change r sound v = elim (Result-cases (current_session ops ctx key r)) [
    | inr (x, e) ↦ rw (e, update) v
    | inl (before, e) ↦
        let here = current_session-live ctx key r before e in
        let named = live-IsNamed ops key before r v here in
        let (same, still) = sound before named in
        let after = (change before).0 in
        let moved = put_entry ops key (with_current (entry_at ops key r) after) r in
        let v1 =
          put_entry-All ops key (with_current (entry_at ops key r) after) r
            (with_current-IsEntry ops key before after r v here same still) v in
        let r1 = record moved { store = (ops.save ctx after r.store).0 } in
        elim (Result-cases (change before).1) [
          | inr (x, e2) ↦
              rw (e, e2, update)
                (put_entry-All ops key (entry_of before) moved
                  (entry_of-IsEntry ops key before named) v1)
          | inl (u, e2) ↦ elim (Result-cases (ops.save ctx after r.store).1) [
            | inr (x, e3) ↦
                rw (e, e2, e3, update)
                  (put_entry-All ops key (entry_of before) r1
                    (entry_of-IsEntry ops key before named) v1)
            | inl (w, e3) ↦ rw (e, e2, e3, update) v1
          ]
        ]
  ]

  -- In every registry that its methods make of an empty one, with callbacks that keep the id of a
  -- named session and leave it named, an entry's session has the entry's id, a trace and a model.
  pub Reached-IsEntry : (r : Registry A) → Reached r → All IsEntry r.entries
  Reached-IsEntry r (starts store) = tt
  Reached-IsEntry r (with_sessions r0 ctx key made change sound v) =
      with_session-All ctx key made change r0 sound (Reached-IsEntry r0 v)
  Reached-IsEntry r (news r0 ctx key made v) =
      new_with_trace-All ctx key made r0 (Reached-IsEntry r0 v)
  Reached-IsEntry r (resumes r0 ctx legacy_provider resolves key id v) =
      resume-All ctx legacy_provider resolves key id r0 (Reached-IsEntry r0 v)
  Reached-IsEntry r (resets r0 ctx now key v) =
      reset_session-All ctx now key r0 (Reached-IsEntry r0 v)
  Reached-IsEntry r (updates r0 ctx key change sound v) =
      update-All ctx key change r0 sound (Reached-IsEntry r0 v)
