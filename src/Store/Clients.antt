-- ===== src/Store/Clients.antt =====
-- sidecar/internal/store/repos.go: the tables clients, resource_configs and audit_events.
use mcpbouncer.Prelude.{
  ℕ, Done, ◌-◌, String, Bool, Option, some, List, [], ◌∷◌, ◌++◌, not, ltb, nat_beq, keep, length,
  if◌then◌else◌,
}
use mathlib.Core.Option
use mcpbouncer.Platform.{Platform}
use mcpbouncer.Action.{ret, pure, attempt, Action, ◌>>=◌, now, query, exec}
use mcpbouncer.Store.Table.{find, insert, update}
use mcpbouncer.Store.Rows.{
  ok, Result, Client, ResourceRow, unix, from_unix, Client-keyed, ResourceRow-keyed,
}

-- The time from which `DeleteStaleClients` counts a client's age.
abbrev pub last_seen : Client → ℕ
last_seen c = if nat_beq c.last_used_at 0 then c.created_at else c.last_used_at

abbrev pub is_stale : ℕ → Client → Bool
is_stale cutoff c = ltb (last_seen c) cutoff

abbrev pub scan_client : Client → Client
scan_client c = record c {
  created_at = from_unix c.created_at;
  last_used_at = from_unix c.last_used_at;
}

abbrev pub scan_resource : ResourceRow → ResourceRow
scan_resource r = record r { updated_at = from_unix r.updated_at }

-- INSERT ... ON CONFLICT(name) DO UPDATE: the row keeps its place.
abbrev pub upsert : ResourceRow → List ResourceRow → List ResourceRow
upsert r rows = elim (insert r rows) [ some rows' ↦ rows' | _ ↦ update r.name (λ _. r) rows ]

module _ ⦃p : Platform⦄ where
  -- A `last_used_at` of 0 stands for the zero time.
  unfoldable pub insert_client : Client → Action (Result Done)
  unfolding unix
  insert_client c = do
    t ← now
    exec "InsertClient" λ d.
        Option.map (λ rows. record d { clients = rows })
          (insert
            (record c {
              created_at = unix c.created_at;
              last_used_at = unix (if nat_beq c.last_used_at 0 then t else c.last_used_at);
            })
            d.clients)

  unfoldable pub get_client : String → Action (Result (Option Client))
  get_client client_id = query "GetClient" λ d. Option.map scan_client (find client_id d.clients)

  unfoldable pub touch_client : String → Action (Result Done)
  touch_client client_id = do
    t ← now
    exec "TouchClient" λ d. some (record d {
      clients = update client_id (λ c. record c { last_used_at = unix t }) d.clients;
    })

  unfoldable pub count_stale : ℕ → Action ℕ
  count_stale cutoff w = (ret (length (keep (is_stale cutoff) w.db.clients)), w)

  -- The result is the count of the rows deleted. `older_than` does not reach back before 1970.
  unfoldable pub delete_stale_clients : ℕ → Action (Result ℕ)
  unfolding count_stale
  delete_stale_clients older_than = do
    t ← now
    let cutoff = unix (t - older_than)
    n ← count_stale cutoff
    attempt "DeleteStaleClients"
        (exec "DeleteStaleClients"
          λ d. some (record d { clients = keep (λ c. not (is_stale cutoff c)) d.clients }))
        λ _. pure (ok n)

  unfoldable pub upsert_resource_config : ResourceRow → Action (Result Done)
  upsert_resource_config r = exec "UpsertResourceConfig" λ d. some (record d {
    resource_configs = upsert (record r { updated_at = unix r.updated_at }) d.resource_configs;
  })

  unfoldable pub get_resource_config : String → Action (Result (Option ResourceRow))
  get_resource_config name =
      query "GetResourceConfig" λ d. Option.map scan_resource (find name d.resource_configs)

  unfoldable pub count_audit_events : Action (Result ℕ)
  count_audit_events = query "CountAuditEvents" λ d. length d.audit_events

  unfoldable pub insert_audit_event :
      String → String → String → String → String → Bool → Action (Result Done)
  insert_audit_event event_type client_id sub ip details_json success = do
    t ← now
    exec "InsertAuditEvent" λ d. some (record d {
      audit_events =
          d.audit_events
          ++ record {
            event_type = event_type;
            client_id = client_id;
            sub = sub;
            ip = ip;
            success = if success then 1 else 0;
            details_json = details_json;
            timestamp = unix t;
          }
            ∷ [];
    })
