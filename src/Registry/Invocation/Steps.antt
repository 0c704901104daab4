-- ===== src/Registry/Invocation/Steps.antt =====
-- The handlers of src/core/action-registry.ts's `invoke`, one for each `await`, and `close`.
use kiro_fabric.Prelude.{
  ℕ, ◌+◌, ◌-◌, Bool, true, false, ◌&&◌, ◌||◌, not, if◌then◌else◌, [], ◌∷◌, ◌++◌, Option, none, some,
  length, take, Outcome, ok, err,
}
use kiro_fabric.JsonBudget.{Bounded, whole, truncated, bounded_result}
use kiro_fabric.Registry.Invocation.{
  Action, Operation, Failure, closed, aborted, bad_arguments, stray_options, bad_preparation,
  invalid_arguments, entry_quota, byte_quota, overlapping, result_budget, page_budget,
  cleanup_failed, raised, Audit, Host, Context, ActiveWrite, describing, preparing, reserving,
  approving, invoking, releasing, cleaning, Flight, approval_asked, approval_given,
  invocation_started, World, Prepared, Value, Event, begins, described, prepared, reserved,
  approved, invoked, released, cleaned, closes, audit_terminal_bytes, is_write_like, is_shell,
  publication, effect_resources, is_conflicting, delete_write, find, update, remove, write_audit,
  put_context, exceeds, drop_flight, read, local_provider, action,
}

-- The audit that a call starts with.
abbrev pub new_audit : ℕ → ℕ → ℕ → Audit
new_audit ref call_id now = record {
  ref = ref;
  call_id = call_id;
  started_at = now;
  ended_at = none;
  success = none;
  error = none;
  result_chars = none;
  is_truncated = false;
  acknowledgement = none;
  is_uncertain = false;
}

module _ (host : Host) where
  open host use {audit_bytes, list_bytes, message, envelope_chars}

  abbrev pub reservation_bytes : Audit → ℕ
  reservation_bytes a = audit_bytes a + 2 + audit_terminal_bytes

  abbrev pub budget_of : Context → ℕ
  budget_of c = elim c.audit_budget [ none ↦ list_bytes c.audits | some bytes ↦ bytes ]

  -- The inner `finally`: the write intent ends, and the audit is charged what it takes.
  unfoldable pub finish : World → Flight → Audit → Outcome Failure Bounded → World
  finish w f a result =
      let c = w.contexts f.context in
      let settled : Context = record c {
        audits = write_audit a c.audits;
        audit_budget = some (budget_of c + (audit_bytes a + 2) - f.reservation);
      } in
      put_context f.context settled (record w {
        active_writes = delete_write f.call_id w.active_writes;
        flights = remove f.id w.flights;
        results = (f.id, result) ∷ w.results;
      })

  abbrev pub acknowledgement_of : Failure → Option Operation
  acknowledgement_of (raised text operation) = operation
  acknowledgement_of _ = none

  abbrev pub failed_audit : Flight → Failure → ℕ → Audit
  failed_audit f e now = record (f.audit) {
    ended_at = some now;
    success = some false;
    error = some (take 1_000 (message e));
    acknowledgement = elim (acknowledgement_of e) [ some o ↦ some o | none ↦ f.published ];
    is_uncertain = f.is_started && is_shell f.action;
  }

  -- The `catch` block, and the `finally` up to its `await`.
  unfoldable pub fail : World → Flight → Failure → ℕ → World
  fail w f e now =
      let a = failed_audit f e now in
      if f.holds_release
      then record w { flights = update (record f { phase = cleaning e; audit = a }) w.flights }
      else finish w f a (err e)

  -- `has_stray_options`: there are invocation options, and the reference is not a remote one.
  unfoldable pub begin : World → ℕ → ℕ → ℕ → Bool → Bool → Bool → World
  begin w id context ref is_record is_aborted has_stray_options =
      if w.is_closed
      then drop_flight id closed w
      else if is_aborted
      then drop_flight id aborted w
      else if not is_record
      then drop_flight id bad_arguments w
      else if has_stray_options
      then drop_flight id stray_options w
      else record w {
        flights =
            record {
              id = id;
              context = context;
              ref = ref;
              phase = describing;
              action = blank;
              call_id = 0;
              resources = [];
              audit = new_audit ref 0 0;
              reservation = 0;
              holds_release = false;
              is_started = false;
              published = none;
            }
            ∷ w.flights;
      }
    where
      blank : Action
      blank = record {
        provider = local_provider;
        name = action 0;
        risk = read;
        effect = none;
        effect_resources = none;
      }

  -- Behind `await this.describe`. A provider is missing only from a closed registry.
  unfoldable pub on_described : World → Flight → Outcome Failure Action → World
  on_described w f (err e) = drop_flight f.id e w
  on_described w f (ok a) =
      if w.is_closed
      then drop_flight f.id closed w
      else record w { flights = update (record f { phase = preparing; action = a }) w.flights }

  abbrev pub is_over_entries : Context → Bool
  is_over_entries c = exceeds (length c.audits + 1) c.max_audit_entries

  abbrev pub is_over_bytes : Context → Audit → Bool
  is_over_bytes c a = exceeds (budget_of c + reservation_bytes a) c.max_audit_bytes

  -- From the quotas to `await provider.reserveInvocation`, with `auditBudget` already set.
  unfoldable pub dispatch : World → Flight → Prepared → World
  dispatch w f p =
      let c = w.contexts f.context in
      let resources = effect_resources f.action p.provider_resources in
      let a = new_audit f.ref p.call_id p.now in
      let bytes = reservation_bytes a in
      let budgeted : Context = record c { audit_budget = some (budget_of c) } in
      let pushed : Context = record c {
        audits = c.audits ++ a ∷ [];
        audit_budget = some (budget_of c + bytes);
      } in
      let intent : ActiveWrite = record {
        call_id = p.call_id;
        ref = f.ref;
        resources = resources;
      } in
      let g : Flight = record f {
        phase = reserving;
        call_id = p.call_id;
        resources = resources;
        audit = a;
        reservation = bytes;
      } in
      if is_over_entries c
      then drop_flight f.id entry_quota w
      else if is_over_bytes c a
      then drop_flight f.id byte_quota (put_context f.context budgeted w)
      else if is_write_like f.action
      then if is_conflicting resources w.active_writes
        then drop_flight f.id overlapping (put_context f.context budgeted w)
        else put_context f.context pushed
            (record w { active_writes = intent ∷ w.active_writes; flights = update g w.flights })
      else put_context f.context pushed (record w { flights = update g w.flights })

  unfoldable pub on_prepared : World → Flight → Outcome Failure Prepared → Bool → World
  on_prepared w f (err e) is_aborted = drop_flight f.id e w
  on_prepared w f (ok p) is_aborted =
      if is_aborted
      then drop_flight f.id aborted w
      else if w.is_closed
      then drop_flight f.id closed w
      else if not p.is_record
      then drop_flight f.id bad_preparation w
      else if not p.is_valid
      then drop_flight f.id invalid_arguments w
      else dispatch w f p

  -- Behind `await provider.reserveInvocation`: what it returned is held from here on.
  unfoldable pub on_reserved : World → Flight → Outcome Failure Bool → Bool → ℕ → World
  on_reserved w f (err e) is_aborted now = fail w f e now
  on_reserved w f (ok holds) is_aborted now =
      let g : Flight = record f { phase = approving; holds_release = holds } in
      if w.is_closed
      then fail w g closed now
      else if is_aborted
      then fail w g aborted now
      else record w { flights = update g w.flights; log = approval_asked f.id ∷ w.log }

  unfoldable pub on_approved : World → Flight → Outcome Failure (Unit {0}) → Bool → ℕ → World
  on_approved w f (err e) is_aborted now = fail w f e now
  on_approved w f (ok _) is_aborted now =
      let v : World = record w { log = approval_given f.id ∷ w.log } in
      if w.is_closed
      then fail v f closed now
      else if is_aborted
      then fail v f aborted now
      else record v {
        flights = update (record f { phase = invoking; is_started = true }) w.flights;
        log = invocation_started f.id ∷ approval_given f.id ∷ w.log;
      }

  abbrev pub succeeded_audit : Flight → Bounded → ℕ → ℕ → Audit
  succeeded_audit f b chars now = record (f.audit) {
    ended_at = some now;
    success = some true;
    result_chars = some chars;
    is_truncated = elim b [ whole ↦ false | truncated _ ↦ true ];
  }

  -- The bounded result, with its length, is handed on to the reservation's release.
  unfoldable pub deliver : World → Flight → Bounded → ℕ → ℕ → World
  deliver w f b chars now =
      if f.holds_release
      then record w {
        flights = update (record f { phase = releasing b chars; holds_release = false }) w.flights;
      }
      else finish w f (succeeded_audit f b chars now) (ok b)

  -- `is_late`: the request is aborted or past its deadline when the result has been bounded.
  unfoldable pub on_invoked : World → Flight → Outcome Failure Value → Bool → Bool → ℕ → World
  on_invoked w f (err e) is_aborted is_late now = fail w f e now
  on_invoked w f (ok v) is_aborted is_late now =
      let g : Flight = record f { published = publication f.action v } in
      if is_aborted
      then fail w g aborted now
      else elim (bounded_result envelope_chars v.text (w.contexts f.context).max_result_chars) [
        | err _ ↦ fail w g result_budget now
        | ok whole ↦ if is_late then fail w g aborted now else deliver w g whole (length v.text) now
        | ok (truncated preview) ↦
            if v.is_catalog
            then fail w g page_budget now
            else if is_late
            then fail w g aborted now
            else deliver w g (truncated preview) (length v.text) now
      ]

  unfoldable pub on_released : World → Flight → Bounded → ℕ → Outcome Failure (Unit {0}) → ℕ → World
  on_released w f b chars (ok _) now = finish w f (succeeded_audit f b chars now) (ok b)
  on_released w f b chars (err e) now = fail w f e now

  -- Behind `await releaseReservation` of the `finally` block: its error replaces the first one.
  -- `message cleanup_failed` is the fixed text of the audit then.
  unfoldable pub on_cleaned : World → Flight → Failure → Outcome Failure (Unit {0}) → ℕ → World
  on_cleaned w f e (ok _) now = finish w f f.audit (err e)
  on_cleaned w f e (err thrown) now =
      finish w f
        (record (f.audit) {
          ended_at = some now;
          success = some false;
          error = some (message cleanup_failed);
          acknowledgement = elim f.published [ some o ↦ some o | none ↦ f.audit.acknowledgement ];
          is_uncertain = f.audit.is_uncertain || (f.is_started && is_shell f.action);
        })
        (err thrown)

  -- An event that no call waits for changes nothing.
  unfoldable pub resume : World → Flight → Event → World
  resume w f (described id r) = elim f.phase [ describing ↦ on_described w f r | _ ↦ w ]
  resume w f (prepared id r stop) = elim f.phase [ preparing ↦ on_prepared w f r stop | _ ↦ w ]
  resume w f (reserved id r stop now) = elim f.phase [
    | reserving ↦ on_reserved w f r stop now
    | _ ↦ w
  ]
  resume w f (approved id r stop now) = elim f.phase [
    | approving ↦ on_approved w f r stop now
    | _ ↦ w
  ]
  resume w f (invoked id r stop late now) = elim f.phase [
    | invoking ↦ on_invoked w f r stop late now
    | _ ↦ w
  ]
  resume w f (released id r now) = elim f.phase [
    | releasing b chars ↦ on_released w f b chars r now
    | _ ↦ w
  ]
  resume w f (cleaned id r now) = elim f.phase [ cleaning e ↦ on_cleaned w f e r now | _ ↦ w ]
  resume w f _ = w

  abbrev pub resume_found : World → Option Flight → Event → World
  resume_found w none e = w
  resume_found w (some f) e = resume w f e

  -- `close` makes admission terminal; the calls in flight settle by their own steps.
  unfoldable pub step : World → Event → World
  step w (begins id context ref is_record is_aborted has_stray_options) = elim (find id w.flights) [
    | some _ ↦ w
    | none ↦ begin w id context ref is_record is_aborted has_stray_options
  ]
  step w closes = record w { is_closed = true }
  step w (described id r) = resume_found w (find id w.flights) (described id r)
  step w (prepared id r stop) = resume_found w (find id w.flights) (prepared id r stop)
  step w (reserved id r stop now) = resume_found w (find id w.flights) (reserved id r stop now)
  step w (approved id r stop now) = resume_found w (find id w.flights) (approved id r stop now)
  step w (invoked id r stop late now) =
      resume_found w (find id w.flights) (invoked id r stop late now)
  step w (released id r now) = resume_found w (find id w.flights) (released id r now)
  step w (cleaned id r now) = resume_found w (find id w.flights) (cleaned id r now)
