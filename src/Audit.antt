-- ===== src/Audit.antt =====
-- sidecar/internal/audit/audit.go: events go through a buffered channel to one worker, which writes a
-- row for each. A send, and the worker's receipt of one event, are single steps.
pub mod Trail
use Prim.Native.Char.{code}
use Prim.Native.String
use mcpbouncer.Prelude.{
  ℕ, Done, String, Bool, true, false, List, [], ◌∷◌, ◌++◌, ◌==◌, nat_beq, ltb, length,
  if◌then◌else◌,
}
use mcpbouncer.Json.{Claims}
use mcpbouncer.Platform.{Platform}
use mcpbouncer.Action.{World, Action, ◌>>=◌, ◌>>◌, pure}
use mcpbouncer.Store.Rows.{Result, ok, err}
use mcpbouncer.Store.Clients.{insert_audit_event}
use mcpbouncer.Http.{Request}

-- A nil map of details is the empty one, which `persist` puts in its place; the zero time is 0.
pub record Event : Type 0 where
  pub event_type : String
  pub client_id : String
  pub sub : String
  pub ip : String
  pub success : Bool
  pub details : Claims
  pub timestamp : ℕ

-- The channel, and whether it has been closed.
pub record Log : Type 0 where
  pub pending : List Event
  pub capacity : ℕ
  pub closed : Bool

-- A send on a closed channel panics.
pub data Sent : Type 0 where
  queued dropped panicked : Sent

abbrev pub default_buffer_size : ℕ
default_buffer_size = 1024

-- make(chan Event, bufSize)
abbrev pub new_logger : ℕ → Log
new_logger buf_size = record { pending = []; capacity = buf_size; closed = false }

-- The zero timestamp is filled in.
unfoldable pub stamp : ℕ → Event → Event
stamp now e = if nat_beq e.timestamp 0 then record e { timestamp = now } else e

-- Record: the event is dropped where the buffer is full.
unfoldable pub record_event : ℕ → Event → Log → Sent × Log
unfolding stamp
record_event now e l =
    if l.closed
    then (panicked, l)
    else if ltb (length l.pending) l.capacity
    then (queued, record l { pending = l.pending ++ stamp now e ∷ [] })
    else (dropped, l)

-- What stands before the first comma, or the whole text.
unfoldable pub before_comma : String → String
before_comma String.[] = String.[]
before_comma (String.◌∷◌ c s) =
    let rest = before_comma s in if nat_beq (code c) b',' then String.[] else String.◌∷◌ c rest

unfoldable pub host_or : String → Result String → String
host_or addr (ok host) = host
host_or addr (err e) = addr

abbrev pub text_or : String → Result String → String
text_or s (ok t) = t
text_or s (err e) = s

module _ ⦃p : Platform⦄ where
  -- ClientIP; clientIP of sidecar/internal/httpx/ratelimit.go is the same function.
  unfoldable pub client_ip : Request → String
  unfolding before_comma host_or
  client_ip r =
      if r.header "X-Forwarded-For" == ""
      then host_or r.remote_addr (p.split_host_port r.remote_addr)
      else p.trim_space (before_comma (r.header "X-Forwarded-For"))

  -- The worker writes the row; a failure of that is only logged.
  unfoldable pub persist : Event → Action Done
  persist e = do
    insert_audit_event e.event_type e.client_id e.sub e.ip
        (text_or "{}" (p.marshal_claims e.details)) e.success
    pure tt

  -- What the worker does with the events that are left, from the close of the channel on.
  unfoldable pub drain : List Event → Action Done
  drain [] = pure tt
  drain (e ∷ es) = persist e >> drain es

  -- Close: the worker is done when no event is left.
  unfoldable pub close : Log → World → Log × World
  unfolding drain
  close l w = (record l { pending = []; closed = true }, (drain l.pending w).1)
