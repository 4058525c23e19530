-- ===== src/Session/Registry/Sound.antt =====
-- The sessions that the entries of a registry may hold, and what the parts of its methods keep of it.
use qemu_agent.Common.{
  [], ◌∷◌, ◌≡◌, refl, sym, ap, subst, Option, some, Bool, false, inl, inr, arith, ok, Result-cases,
  Option-cases, All, >>=-eq-ok,
}
use qemu_agent.Common.Assoc.{All-put, All-get}
use qemu_agent.Text.{Text, Text-discrete, is_empty, trim_space, trim_by}
use qemu_agent.Session.{ModelRef, Session, SessionError, normalize_model_ref}
use qemu_agent.Session.Registry.{
  SessionStore, Entry, Registry, no_entry, entry_of, validate_session, live, with_current, entry_at,
  put_entry, with_entry, create_and_save, load_session,
}
use qemu_agent.Session.Registry.Isolated.{Change, create_and_save-entries}

-- A session with an id, a trace and a model.
pub record IsNamed (s : Session) : Type 0 where
  pub id : is_empty (trim_space s.id) ≡ false
  pub trace : is_empty (trim_space s.trace_id) ≡ false
  pub model : is_empty s.model_ref.model ≡ false

trim_space-filled : (s : Text) → is_empty (trim_space s) ≡ false → is_empty s ≡ false
unfolding trim_space trim_by
trim_space-filled [] h = h
trim_space-filled (c ∷ s) h = refl

validate_session-IsNamed : (s : Session) → validate_session s ≡ ok tt → IsNamed s
unfolding validate_session
validate_session-IsNamed s h = record {
  id = ground arith;
  trace = ground arith;
  model = trim_space-filled s.model_ref.model (ground arith);
}

-- An entry with its own id and, if it has a session, a named one.
abbrev pub IsEntry : Text × Entry → Type 0
IsEntry (key, entry) =
    (s : Session) → entry.current ≡ some s → (entry.session_id ≡ s.id) × IsNamed s

-- A callback that keeps the id of a named session and leaves it named.
abbrev pub IsSound : Change → Type 0
IsSound change = (s : Session) → IsNamed s → ((change s).0.id ≡ s.id) × IsNamed (change s).0

module _ {A : Type 0} (ops : SessionStore A) where
  pub put_entry-All :
      (key : Text) (entry : Entry) (r : Registry A)
      → IsEntry (key, entry)
      → All IsEntry r.entries
      → All IsEntry (put_entry ops key entry r).entries
  put_entry-All key entry r h v = All-put Text-discrete IsEntry key entry r.entries h v

  pub entry_of-IsEntry : (key : Text) (s : Session) → IsNamed s → IsEntry (key, entry_of s)
  entry_of-IsEntry key s named t same =
      let here : s ≡ t = ground arith in (ap Session.id here, subst IsNamed here named)

  pub live-IsNamed :
      (key : Text) (s : Session) (r : Registry A)
      → All IsEntry r.entries
      → live (entry_at ops key r) ≡ some s
      → IsNamed s
  live-IsNamed key s r v h = elim (Option-cases (entry_at ops key r)) [
    | inl missing ↦ absurd (ground arith)
    | inr (entry, found) ↦
        (All-get Text-discrete IsEntry key entry r.entries v found s (ground arith)).1
  ]

  pub with_current-IsEntry :
      (key : Text) (s t : Session) (r : Registry A)
      → All IsEntry r.entries
      → live (entry_at ops key r) ≡ some s
      → t.id ≡ s.id
      → IsNamed t
      → IsEntry (key, with_current (entry_at ops key r) t)
  with_current-IsEntry key s t r v h same valid u e = elim (Option-cases (entry_at ops key r)) [
    | inl missing ↦ absurd (ground arith)
    | inr (entry, found) ↦
        let own = (All-get Text-discrete IsEntry key entry r.entries v found s (ground arith)).0 in
        let here : t ≡ u = ground arith in (ground arith, subst IsNamed here valid)
  ]

  pub with_entry-All :
      (key : Text) (r : Registry A)
      → All IsEntry r.entries
      → All IsEntry (with_entry ops key r).entries
  with_entry-All key r v = elim (Option-cases (entry_at ops key r)) [
    | inl missing ↦
        let made : (put_entry ops key no_entry r).entries ≡ (with_entry ops key r).entries =
          ground arith in
        subst (All IsEntry) made (put_entry-All key no_entry r (λ s e. absurd (ground arith)) v)
    | inr (entry, found) ↦
        let kept : r.entries ≡ (with_entry ops key r).entries = ground arith in
        subst (All IsEntry) kept v
  ]

  create_and_save-IsNamed :
      (ctx : Option SessionError) (made s : Session) (r : Registry A)
      → (create_and_save ops ctx made r).1 ≡ ok s
      → IsNamed s
  unfolding create_and_save
  create_and_save-IsNamed ctx made s r h = elim (Result-cases (validate_session made)) [
    | inr (x, e) ↦ absurd (ground arith)
    | inl (u, e) ↦
        let here : made ≡ s = ground arith in subst IsNamed here (validate_session-IsNamed made e)
  ]

  pub created-All :
      (ctx : Option SessionError) (key : Text) (made s : Session) (r : Registry A)
      → All IsEntry r.entries
      → (create_and_save ops ctx made (with_entry ops key r)).1 ≡ ok s
      → All IsEntry
          (put_entry ops key
            (entry_of s)
            (create_and_save ops ctx made (with_entry ops key r)).0).entries
  created-All ctx key made s r v h =
      let r0 = with_entry ops key r in
      let same = create_and_save-entries ops ctx made r0 in
      put_entry-All key (entry_of s) (create_and_save ops ctx made r0).0
        (entry_of-IsEntry key s (create_and_save-IsNamed ctx made s r0 h))
        (subst (All IsEntry) (sym same) (with_entry-All key r v))

  pub load_session-IsNamed :
      (ctx : Option SessionError) (legacy_provider : Text) (resolves : ModelRef → Bool) (id : Text)
      (store : A) (s : Session)
      → load_session ops ctx legacy_provider resolves id store ≡ ok s
      → IsNamed s
  unfolding load_session normalize_model_ref
  load_session-IsNamed ctx legacy_provider resolves id store s h =
      let (loaded, e, h1) = >>=-eq-ok (ops.load ctx id store) _ h in
      let (u, valid, h2) = >>=-eq-ok (validate_session loaded) _ h1 in
      let named = validate_session-IsNamed loaded valid in
      record {
        id = ground (arith, named.id);
        trace = ground (arith, named.trace);
        model = ground arith;
      }
