-- ===== src/Process/Trail.antt =====
-- What gets into the audit table (sidecar/cmd/bouncer/main.go, sidecar/internal/audit/audit.go), through
-- any run of requests, background work and writes of the worker.
use mathlib.Core.List.{append_assoc, map-append, append-nil}
use mcpbouncer.Prelude.{
  some, ap, ◌∙◌, sym, none, Option-cases, String, ℕ, ◌≡◌, refl, inl, inr, Bool-cases, List, [], ◌∷◌,
  ◌++◌, map, arith, ◌==◌,
}
use mcpbouncer.As.Stable.{rotate-Keeps}
use mcpbouncer.Store.Stable.{janitor_tick-Keeps}
use mcpbouncer.Platform.{Platform}
use mcpbouncer.Action.{Response, respond}
use mcpbouncer.Http.{Request}
use mcpbouncer.Store.Rows.{AuditRow}
use mcpbouncer.RateLimit.{Verdict, pass, limited}
use mcpbouncer.Audit
use mcpbouncer.Audit.{
  Log, record_event, stamp, queued, dropped, panicked, client_ip, drain, persist, close,
}
use mcpbouncer.Audit.Trail.{persist-row, HasTrail-IsStable, forget, row_of}
use mcpbouncer.Sidecar.Stable.{dispatch-Keeps}
use mcpbouncer.Process.{
  rotation, cleanup, sweep, write, write_next, run, ticked, event_type_of, event_of, request,
  clock_of, audit_oauth, step, log_requests, submit, handler, Event, Process, Server,
  limit_requests, on_verdict, answer, mux,
}

module _ ⦃p : Platform⦄ where
  -- The audit log as one sequence: the rows that are written, without their times, and then those of
  -- the events that wait.
  abbrev pub trail : Process → List AuditRow
  trail s = map forget s.world.db.audit_events ++ map row_of s.audit.pending

  -- The events that a call of Record adds to the log: one, or none where it is dropped.
  abbrev pub taken : ℕ → Audit.Event → Log → List Audit.Event
  taken now e l = elim (record_event now e l).0 [ queued ↦ stamp now e ∷ [] | _ ↦ [] ]

  pending-record_event :
      (now : ℕ) (e : Audit.Event) (l : Log)
      → (record_event now e l).1.pending ≡ l.pending ++ taken now e l
  unfolding record_event
  pending-record_event now e l = ground (arith, append-nil l.pending)

  -- Neither the log nor its table has changed.
  abbrev pub Untouched : Process → Process → Type 0
  Untouched s s' = (s'.audit ≡ s.audit) × (s'.world.db.audit_events ≡ s.world.db.audit_events)

  trail-Untouched : (s s' : Process) → Untouched s s' → trail s' ≡ trail s
  trail-Untouched s s' (same_log, same_rows) = rw (same_log, same_rows) refl

  module _ (server : Server) where
    answer-Untouched : (r : Request) (s : Process) → Untouched s (answer server r s).1
    unfolding answer respond
    answer-Untouched r s = (
      refl,
      (dispatch-Keeps (HasTrail-IsStable s.world.db.audit_events) server.issuer server.cipher r).at
          s.world refl,
    )

    verdict-Untouched :
        (v : Verdict) (r : Request) (s : Process) → Untouched s (on_verdict v (answer server r) s).1
    unfolding on_verdict
    verdict-Untouched pass r s = answer-Untouched r s
    verdict-Untouched (limited secs) r s = (refl, refl)

    pub mux-Untouched : (r : Request) (s : Process) → Untouched s (mux server r s).1
    unfolding mux limit_requests
    mux-Untouched r s = elim (Bool-cases (r.path == "/oauth/register")) [
      | inl e ↦ rw (e, mux) (verdict-Untouched _ r _)
      | inr e ↦ rw (e, mux) (answer-Untouched r s)
    ]

    -- The events that one step of the process adds to the log.
    abbrev pub accepted_by : Event → Process → List Audit.Event
    accepted_by (request r) s = elim (event_type_of r.path) [
      | none ↦ []
      | some evt ↦
          let (out, s') = mux server r (ticked s) in
          taken (clock_of s') (event_of evt r out.status (clock_of s')) s'.audit
    ]
    accepted_by _ s = []

    abbrev pub accepted : List Event → Process → List Audit.Event
    accepted [] s = []
    accepted (e ∷ es) s = accepted_by e s ++ accepted es (step server e s)

    submit-trail :
        (evt : String) (r : Request) (out : Response) (s : Process)
        → trail (submit evt r out s)
          ≡ trail s
            ++ map row_of (taken (clock_of s) (event_of evt r out.status (clock_of s)) s.audit)
    unfolding submit
    submit-trail evt r out s =
        let e = event_of evt r out.status (clock_of s) in
        rw
          (
            pending-record_event (clock_of s) e s.audit,
            map-append row_of s.audit.pending (taken (clock_of s) e s.audit),
          )
          (sym (
            append_assoc (map forget s.world.db.audit_events) (map row_of s.audit.pending)
              (map row_of (taken (clock_of s) e s.audit))))

    request-trail :
        (r : Request) (s : Process)
        → trail (handler server r s).1 ≡ trail s ++ map row_of (accepted_by (request r) s)
    unfolding handler log_requests audit_oauth
    request-trail r s = elim (Option-cases (event_type_of r.path)) [
      | inl e ↦
          rw (e, audit_oauth, accepted_by)
            (trail-Untouched (ticked s) (mux server r (ticked s)).1 (mux-Untouched r (ticked s))
              ∙ sym (append-nil (trail s)))
      | inr (evt, e) ↦
          let (out, s') = mux server r (ticked s) in
          let same = trail-Untouched (ticked s) s' (mux-Untouched r (ticked s)) in
          rw (e, audit_oauth, accepted_by)
            (submit-trail evt r out s'
              ∙ ap
                  (λ t.
                    t
                    ++ map row_of
                        (taken (clock_of s') (event_of evt r out.status (clock_of s')) s'.audit))
                  same)
    ]

    module _ (calm : (n : ℕ) → p.db_fault n ≡ none) where
      write-trail :
          (es : List Audit.Event) (s : Process)
          → s.audit.pending ≡ es
          → trail (write_next server es s) ≡ trail s
      unfolding write_next
      write-trail [] s same = refl
      write-trail (e ∷ es) s same =
          rw (same, persist-row calm e s.world)
            (append_assoc (map forget s.world.db.audit_events) (row_of e ∷ []) (map row_of es))

      step-trail :
          (e : Event) (s : Process)
          → trail (step server e s) ≡ trail s ++ map row_of (accepted_by e s)
      unfolding step
      step-trail (request r) s = request-trail r s
      step-trail rotation s =
          let kept =
            (rotate-Keeps (HasTrail-IsStable s.world.db.audit_events) server.issuer.rotator).at
              s.world refl in
          rw kept (sym (append-nil (trail s)))
      step-trail cleanup s =
          let kept =
            (janitor_tick-Keeps (HasTrail-IsStable s.world.db.audit_events) server.client_ttl).at
              s.world refl in
          rw kept (sym (append-nil (trail s)))
      step-trail sweep s = sym (append-nil (trail s))
      step-trail write s = write-trail s.audit.pending s refl ∙ sym (append-nil (trail s))

      -- Where SQLite does not fail, any run of requests and background work, in any order, adds to
      -- the audit log the accepted events and nothing else, in the order in which they were
      -- accepted: the rows of the table, followed by the events that wait, are what they were,
      -- followed by those of the accepted events. Only the times of the rows are left open.
      pub run-trail :
          (es : List Event) (s : Process)
          → trail (run server es s) ≡ trail s ++ map row_of (accepted es s)
      unfolding run
      run-trail [] s = sym (append-nil (trail s))
      run-trail (e ∷ es) s =
          rw
            (
              run-trail es (step server e s),
              step-trail e s,
              map-append row_of (accepted_by e s) (accepted es (step server e s)),
            )
            (append_assoc (trail s) (map row_of (accepted_by e s))
              (map row_of (accepted es (step server e s))))
