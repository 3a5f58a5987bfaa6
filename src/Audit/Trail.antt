-- ===== src/Audit/Trail.antt =====
-- sidecar/internal/audit/audit.go: the table audit_events is written by the audit log's worker alone.
use mathlib.Core.List.{map-append, append-nil, append_assoc}
use mcpbouncer.Prelude.{
  Option-cases, inl, inr, refl, suc, sym, ℕ, suc, sym, String, ◌≡◌, refl, ◌∙◌, none, some, Option,
  List, [], ◌∷◌, ◌++◌, map, arith, if◌then◌else◌,
}
use mcpbouncer.Platform.{Platform}
use mcpbouncer.Action.{ret, World, exec, ◌>>=◌, pure, now}
use mcpbouncer.Action.Keeps.{Keeps, Keeps-exec, Keeps-bind, Keeps-now, Keeps-attempt, Keeps-pure}
use mcpbouncer.Store.Rows.{
  Db, AuditRow, SigningKey-keyed, Client-keyed, AuthSession-keyed, Code-keyed, RefreshToken-keyed,
}
use mcpbouncer.Store.Stable.{IsStable, Keeps-insert}
use mcpbouncer.Store.Keys.{
  insert_signing_key, update_signing_key_status, delete_expired_signing_keys,
}
use mcpbouncer.Store.Clients.{
  insert_client, touch_client, count_stale, delete_stale_clients, upsert_resource_config,
  insert_audit_event,
}
use mcpbouncer.Store.Grants.{
  insert_auth_session, delete_auth_session, delete_expired_auth_sessions, insert_code, delete_code,
  delete_expired_codes, insert_refresh_token, delete_refresh_token_by_hash,
  delete_expired_refresh_tokens,
}
use mcpbouncer.Audit.{Event, text_or, persist, drain}

-- The database has the audit rows `t`.
abbrev pub HasTrail : List AuditRow → Db → Type 0
HasTrail t d = d.audit_events ≡ t

module _ ⦃p : Platform⦄ (t : List AuditRow) where
  elsewhere :
      (name : String) (f : Db → Option Db)
      → ((d d' : Db) → f d ≡ some d' → d'.audit_events ≡ d.audit_events)
      → Keeps (HasTrail t) (exec name f)
  elsewhere name f same = Keeps-exec name f λ d d' h e. same d d' e ∙ h

  count_stale-HasTrail : (cutoff : ℕ) → Keeps (HasTrail t) (count_stale cutoff)
  unfolding count_stale
  count_stale-HasTrail cutoff = record { at = λ w h. h }

  pub HasTrail-IsStable : IsStable (HasTrail t) (λ _ _. Unit)
  unfolding insert_code insert_auth_session insert_refresh_token delete_code delete_auth_session
      delete_refresh_token_by_hash insert_signing_key update_signing_key_status touch_client
      insert_client upsert_resource_config delete_expired_auth_sessions delete_expired_codes
      delete_expired_refresh_tokens delete_expired_signing_keys delete_stale_clients
  HasTrail-IsStable = record {
    good_s256 = λ c h. tt;
    session_found = λ d state x h e. tt;
    code_inserted = λ x _. Keeps-insert _ _ _ _ (λ d rows h e. h);
    session_inserted = λ x _. Keeps-insert _ _ _ _ (λ d rows h e. h);
    token_inserted = λ x. Keeps-insert _ _ _ _ (λ d rows h e. h);
    code_deleted = λ k. elsewhere _ _ (λ d d' e. ground arith);
    session_deleted = λ k. elsewhere _ _ (λ d d' e. ground arith);
    token_deleted = λ k. elsewhere _ _ (λ d d' e. ground arith);
    key_inserted = λ kid alg private public retires_at status.
        Keeps-bind _ _ Keeps-now (λ at. Keeps-insert _ _ _ _ (λ d rows h e. h));
    key_updated = λ kid status retires_at. elsewhere _ _ (λ d d' e. ground arith);
    client_touched = λ c. Keeps-bind _ _ Keeps-now (λ at. elsewhere _ _ (λ d d' e. ground arith));
    client_inserted = λ c. Keeps-bind _ _ Keeps-now (λ at. Keeps-insert _ _ _ _ (λ d rows h e. h));
    resource_upserted = λ r. elsewhere _ _ (λ d d' e. ground arith);
    sessions_expired = Keeps-bind _ _ Keeps-now (λ at. elsewhere _ _ (λ d d' e. ground arith));
    codes_expired = Keeps-bind _ _ Keeps-now (λ at. elsewhere _ _ (λ d d' e. ground arith));
    tokens_expired = Keeps-bind _ _ Keeps-now (λ at. elsewhere _ _ (λ d d' e. ground arith));
    keys_expired = Keeps-bind _ _ Keeps-now (λ at. elsewhere _ _ (λ d d' e. ground arith));
    clients_expired = λ n. Keeps-bind _ _ Keeps-now λ at.
        Keeps-bind _ _ (count_stale-HasTrail _)
          λ k. Keeps-attempt _ _ _ (elsewhere _ _ (λ d d' e. ground arith)) (λ _. Keeps-pure _);
  }

-- A row without its time, which is the clock's when the worker writes it.
abbrev pub forget : AuditRow → AuditRow
forget r = record r { timestamp = 0 }

module _ ⦃p : Platform⦄ where
  -- The row of an event.
  abbrev pub row_of : Event → AuditRow
  row_of e = record {
    event_type = e.event_type;
    client_id = e.client_id;
    sub = e.sub;
    ip = e.ip;
    success = if e.success then 1 else 0;
    details_json = text_or "{}" (p.marshal_claims e.details);
    timestamp = 0;
  }

  persist-ret : (e : Event) (w : World) → (persist e w).0 ≡ ret tt
  unfolding persist insert_audit_event ◌>>=◌ pure now exec
  persist-ret e w = elim (Option-cases (p.db_fault (suc w.step))) [
    | inl e' ↦ rw (e', exec) refl
    | inr (cause, e') ↦ rw (e', exec) refl
  ]

  drain-cons :
      (e : Event) (es : List Event) (w : World) → drain (e ∷ es) w ≡ drain es (persist e w).1
  unfolding drain ◌>>=◌
  drain-cons e es w = rw (persist-ret e w) refl

  module _ (calm : (n : ℕ) → p.db_fault n ≡ none) where
    pub persist-row :
        (e : Event) (w : World)
        → map forget (persist e w).1.db.audit_events ≡ map forget w.db.audit_events ++ row_of e ∷ []
    unfolding persist insert_audit_event ◌>>=◌ pure now exec
    persist-row e w = rw (calm (suc w.step), exec) (map-append forget w.db.audit_events _)

    pub drain-rows :
        (es : List Event) (w : World)
        → map forget (drain es w).1.db.audit_events ≡ map forget w.db.audit_events ++ map row_of es
    unfolding drain pure
    drain-rows [] w = sym (append-nil (map forget w.db.audit_events))
    drain-rows (e ∷ es) w =
        let rest = drain-rows es (persist e w).1 in
        rw (drain-cons e es w, rest, persist-row e w)
          (append_assoc (map forget w.db.audit_events) (row_of e ∷ []) (map row_of es))
