-- ===== src/Process/Room.antt =====
-- What a run and a shutdown of the process leave in the audit log (sidecar/internal/audit/audit.go).
use mcpbouncer.Prelude.{
  ◌∙◌, some, nat_beq, none, Bool-cases, inr, inl, Option-cases, length-append, false, ap, ℕ, suc,
  ◌+◌, ◌≤◌, ◌≡◌, refl, List, [], ◌∷◌, ◌++◌, map, length, arith, ltb, if◌then◌else◌,
}
use mcpbouncer.Prelude.Int.{pos}
use mcpbouncer.Json.{str, num}
use mcpbouncer.Store.Rows.{AuditRow}
use mcpbouncer.Audit.{client_ip, text_or, close, stamp, Log, record_event}
use mcpbouncer.Platform.{Platform}
use mcpbouncer.Audit
use mcpbouncer.Audit.Trail.{drain-rows, row_of, forget}
use mcpbouncer.Process.{
  shut_down, event_of, request, rotation, cleanup, sweep, write, clock_of, event_type_of, ticked,
  mux, Request, submit, audit_oauth, log_requests, write_next, step, run, handler, Process, Server,
  Event,
}
use mcpbouncer.Process.Trail.{run-trail, trail, accepted, accepted_by, taken, mux-Untouched}
use mathlib.Core.List.{map-append}

-- There is room for `n` more events in an open channel.
abbrev pub HasRoom : ℕ → Log → Type 0
HasRoom n l = (l.closed ≡ false) × (length l.pending + n ≤ l.capacity)

module _ ⦃p : Platform⦄ where
  record_event-HasRoom :
      (now n : ℕ) (e : Audit.Event) (l : Log)
      → HasRoom (suc n) l
      → HasRoom n (record_event now e l).1 × (taken now e l ≡ stamp now e ∷ [])
  unfolding record_event
  record_event-HasRoom now n e l h = ground (arith, length-append l.pending (stamp now e ∷ []))

  -- What a step does to the log: a request may add an event, the worker takes the oldest.
  data Change : Log → Log → Type 0 where
    none_made : (l : Log) → Change l l
    made : (now : ℕ) (e : Audit.Event) (l : Log) → Change l (record_event now e l).1
    taken_out :
        (e : Audit.Event) (es : List Audit.Event) (l : Log)
        → l.pending ≡ e ∷ es
        → Change l (record l { pending = es })

  Change-HasRoom : {l l' : Log} (n : ℕ) → Change l l' → HasRoom (suc n) l → HasRoom n l'
  Change-HasRoom n (none_made l) h = ground arith
  Change-HasRoom n (made now e l) h = (record_event-HasRoom now n e l h).0
  Change-HasRoom n (taken_out e es l same) h = let k = ap length same in ground arith

  module _ (server : Server) where
    request-Change : (r : Request) (s : Process) → Change s.audit (handler server r s).1.audit
    unfolding handler log_requests audit_oauth submit
    request-Change r s =
        let (out, s') = mux server r (ticked s) in
        let same = (mux-Untouched server r (ticked s)).0 in
        elim (Option-cases (event_type_of r.path)) [
          | inl e ↦ rw (e, audit_oauth, same) (none_made s.audit)
          | inr (evt, e) ↦
              rw (e, audit_oauth, same)
                (made (clock_of s') (event_of evt r out.status (clock_of s')) s.audit)
        ]

    write-Change :
        (es : List Audit.Event) (s : Process)
        → s.audit.pending ≡ es
        → Change s.audit (write_next server es s).audit
    unfolding write_next
    write-Change [] s same = none_made s.audit
    write-Change (e ∷ es) s same = taken_out e es s.audit same

    step-Change : (e : Event) (s : Process) → Change s.audit (step server e s).audit
    unfolding step
    step-Change (request r) s = request-Change r s
    step-Change rotation s = none_made s.audit
    step-Change cleanup s = none_made s.audit
    step-Change sweep s = none_made s.audit
    step-Change write s = write-Change s.audit.pending s refl

    -- The row of a request to one of the audited paths, with the client's address and the status
    -- that it was answered with; no other step has one.
    abbrev pub audited_by : Event → Process → List AuditRow
    audited_by (request r) s = elim (event_type_of r.path) [
      | none ↦ []
      | some evt ↦
          let status = (mux server r (ticked s)).0.status in
          record {
            event_type = evt;
            client_id = "";
            sub = "";
            ip = client_ip r;
            success = if ltb status 400 then 1 else 0;
            details_json =
                text_or "{}"
                  (p.marshal_claims (("method", str r.method) ∷ ("status", num (pos status)) ∷ []));
            timestamp = 0;
          }
          ∷ []
    ]
    audited_by _ s = []

    abbrev pub audited : List Event → Process → List AuditRow
    audited [] s = []
    audited (e ∷ es) s = audited_by e s ++ audited es (step server e s)

    -- The row of an event does not have its time.
    stamp-row : (now : ℕ) (e : Audit.Event) → row_of (stamp now e) ≡ row_of e
    unfolding stamp
    stamp-row now e = elim (Bool-cases (nat_beq e.timestamp 0)) [
      | inl h ↦ rw (h, stamp) refl
      | inr h ↦ rw (h, stamp) refl
    ]

    accepted-audited_by :
        (n : ℕ) (e : Event) (s : Process)
        → HasRoom (suc n) s.audit
        → map row_of (accepted_by server e s) ≡ audited_by e s
    unfolding event_of
    accepted-audited_by n (request r) s h = elim (Option-cases (event_type_of r.path)) [
      | inl e ↦ rw (e, accepted_by, audited_by) refl
      | inr (evt, e) ↦
          let (out, s') = mux server r (ticked s) in
          let same = (mux-Untouched server r (ticked s)).0 in
          let t = clock_of s' in
          let v = event_of evt r out.status t in
          rw
            (
              e,
              accepted_by,
              audited_by,
              same,
              (record_event-HasRoom t n v s.audit h).1,
              stamp-row t v,
            )
            refl
    ]
    accepted-audited_by n rotation s h = refl
    accepted-audited_by n cleanup s h = refl
    accepted-audited_by n sweep s h = refl
    accepted-audited_by n write s h = refl

    accepted-audited :
        (es : List Event) (s : Process)
        → HasRoom (length es) s.audit
        → map row_of (accepted server es s) ≡ audited es s
    accepted-audited [] s h = refl
    accepted-audited (e ∷ es) s h =
        let s' = step server e s in
        rw
          (
            map-append row_of (accepted_by server e s) (accepted server es s'),
            accepted-audited_by (length es) e s h,
            accepted-audited es s' (Change-HasRoom (length es) (step-Change e s) h),
          )
          refl

    -- Where SQLite does not fail, and the buffer has a place for each event of the run, the shutdown
    -- ends with an empty buffer and with all of the trail in the table: behind the rows that were
    -- there and the events that waited, one row for each request to an audited path, in the order of
    -- the requests, with the event of the path, the client's address, the method and the status of the
    -- response, and a success where the status is below 400. Only the times of the rows are left open.
    pub shut_down-run :
        (calm : (n : ℕ) → p.db_fault n ≡ none) (es : List Event) (s : Process)
        → HasRoom (length es) s.audit
        → ((shut_down server (run server es s)).audit.pending ≡ [])
          × (map forget (shut_down server (run server es s)).world.db.audit_events
              ≡ trail s ++ audited es s)
    unfolding shut_down close
    shut_down-run calm es s h = (
      refl,
      drain-rows calm (run server es s).audit.pending (run server es s).world
          ∙ (run-trail server calm es s ∙ ap (λ rows. trail s ++ rows) (accepted-audited es s h)),
    )
