-- ===== src/Queue/Files.antt =====
-- What `enqueue_event_records` does to the files of the queue.
use Prim.Native.Char.{Char}
use sourceos_syncd.Prelude.{
  String, ◌≡◌, refl, ◌∙◌, sym, ap, ◌⊎◌, Bool, true, false, Option, none, some, List, [], ◌∷◌,
  string_eq, arith, ◌<>◌, Option-cases, inl, inr,
}
use sourceos_syncd.Prelude.Dict
use sourceos_syncd.Json.{Json, Object}
use sourceos_syncd.SafeId.{safe_id}
use sourceos_syncd.Queue.{
  QueueState, pending, waiting_approval, blocked, dead_letter, Decision, Envelope, queued, deduped,
  EventQueue, Enqueued, init_event_queue, state_dir, set_dir, key_of, Audit, audit_line,
  append_audit, add_result, write_envelope, store_entry, enqueue_one, enqueue_all,
  enqueue_event_records, validate_event_record,
}

-- Each file of `q` stands in `q'` with the same content.
abbrev pub Keeps : EventQueue → EventQueue → Type 0
Keeps q q' =
    (state : QueueState) (name : String) (e : Envelope)
    → Dict.get name (state_dir state q) ≡ some e
    → Dict.get name (state_dir state q') ≡ some e

pub set_dir-same :
    (s : QueueState) (d : Dict.Dict Envelope) (q : EventQueue) → state_dir s (set_dir s d q) ≡ d
unfolding state_dir set_dir
set_dir-same pending d q = refl
set_dir-same waiting_approval d q = refl
set_dir-same blocked d q = refl
set_dir-same dead_letter d q = refl

pub set_dir-other :
    (s t : QueueState) (d : Dict.Dict Envelope) (q : EventQueue)
    → (s ≡ t) ⊎ (state_dir s (set_dir t d q) ≡ state_dir s q)
unfolding state_dir set_dir
set_dir-other pending pending d q = inl refl
set_dir-other pending waiting_approval d q = inr refl
set_dir-other pending blocked d q = inr refl
set_dir-other pending dead_letter d q = inr refl
set_dir-other waiting_approval pending d q = inr refl
set_dir-other waiting_approval waiting_approval d q = inl refl
set_dir-other waiting_approval blocked d q = inr refl
set_dir-other waiting_approval dead_letter d q = inr refl
set_dir-other blocked pending d q = inr refl
set_dir-other blocked waiting_approval d q = inr refl
set_dir-other blocked blocked d q = inl refl
set_dir-other blocked dead_letter d q = inr refl
set_dir-other dead_letter pending d q = inr refl
set_dir-other dead_letter waiting_approval d q = inr refl
set_dir-other dead_letter blocked d q = inr refl
set_dir-other dead_letter dead_letter d q = inl refl

pub append_audit-files :
    (line : Audit) (q : EventQueue) (state : QueueState)
    → state_dir state (append_audit line q) ≡ state_dir state q
unfolding state_dir append_audit
append_audit-files line q pending = refl
append_audit-files line q waiting_approval = refl
append_audit-files line q blocked = refl
append_audit-files line q dead_letter = refl

pub add_result-queue :
    (result : Enqueued) (p : EventQueue × Option (List Enqueued)) → (add_result result p).0 ≡ p.0
unfolding add_result
add_result-queue result (q, none) = refl
add_result-queue result (q, some rs) = refl

pub init_event_queue-files :
    (now : String) (q : EventQueue) (state : QueueState)
    → state_dir state (init_event_queue now q) ≡ state_dir state q
unfolding state_dir init_event_queue
init_event_queue-files now q state = ground arith

-- A file that is missing from the directory it goes to overwrites nothing.
put-keeps :
    (n name : String) (e f : Envelope) (d : Dict.Dict Envelope)
    → Dict.has name d ≡ false
    → Dict.get n d ≡ some e
    → Dict.get n (Dict.put name f d) ≡ some e
unfolding Dict.has
put-keeps n name e f d missing h = ground (arith, Dict.get-put n name f d)

module _ (is_alnum : Char → Bool) (text_of : Json → String) (now : String) where
  write_envelope-Keeps :
      (name : String) (entry : Object) (d : Decision) (q : EventQueue)
      → Dict.has name (state_dir d.state q) ≡ false
      → Keeps q (write_envelope is_alnum text_of now name entry d q)
  unfolding write_envelope
  write_envelope-Keeps name entry d q missing state n e h =
      let made : Envelope = record {
        queued_at = now;
        queue_state = d.state;
        decision = d;
        entry = entry;
      } in
      let old = state_dir d.state q in
      let new = Dict.put name made old in
      elim (set_dir-other state d.state new q) [
        | inr other ↦ ap (Dict.get n) other ∙ h
        | inl same ↦
            ap (λ s. Dict.get n (state_dir s (set_dir d.state new q))) same
            ∙ (ap (Dict.get n) (set_dir-same d.state new q)
                ∙ put-keeps n name e made old missing
                    (ap (λ s. Dict.get n (state_dir s q)) (sym same) ∙ h))
      ]

  pub store_entry-Keeps :
      (name : String) (entry : Object) (d : Decision) (there : Bool) (q : EventQueue)
      → Dict.has name (state_dir d.state q) ≡ there
      → Keeps q (store_entry is_alnum text_of now name entry d there q).0
  unfolding store_entry
  store_entry-Keeps name entry d true q e state n f h =
      ap (Dict.get n) (append_audit-files (audit_line is_alnum text_of now entry d deduped) q state)
      ∙ h
  store_entry-Keeps name entry d false q e state n f h =
      let written = write_envelope is_alnum text_of now name entry d q in
      ap (Dict.get n)
        (append_audit-files (audit_line is_alnum text_of now entry d queued) written state)
      ∙ write_envelope-Keeps name entry d q e state n f h

  -- The file that a record goes to, and what storing it there gives.
  abbrev pub verdict : Object → Decision
  verdict entry = validate_event_record text_of entry

  abbrev pub there : String → Object → EventQueue → Bool
  there name entry q = Dict.has name (state_dir (verdict entry).state q)

  abbrev pub stored : String → Object → EventQueue → EventQueue × Enqueued
  stored name entry q =
      store_entry is_alnum text_of now name entry (verdict entry) (there name entry q) q

  pub enqueue_one-cases :
      (entry : Object) (q : EventQueue)
      → (enqueue_one is_alnum text_of now entry q ≡ none)
        ⊎ ((id : String) × (safe_id is_alnum (key_of is_alnum text_of now entry) ≡ some id)
            × (enqueue_one is_alnum text_of now entry q ≡ some (stored (id <> ".json") entry q)))
  unfolding enqueue_one
  enqueue_one-cases entry q =
      elim (Option-cases (safe_id is_alnum (key_of is_alnum text_of now entry))) [
        | inl e ↦ inl (rw (enqueue_one, e) refl)
        | inr (id, e) ↦ inr (id, e, rw (enqueue_one, e) refl)
      ]

  pub enqueue_all-Keeps :
      (entries : List Object) (q : EventQueue)
      → Keeps q (enqueue_all is_alnum text_of now entries q).0
  unfolding enqueue_all
  enqueue_all-Keeps [] q state n f h = h
  enqueue_all-Keeps (entry ∷ rest) q state n f h = elim (enqueue_one-cases entry q) [
    | inl e ↦ rw (enqueue_all, e) h
    | inr (id, _, e) ↦
        let name = id <> ".json" in
        let q' = (stored name entry q).0 in
        rw (enqueue_all, e)
          (ap (λ x. Dict.get n (state_dir state x))
              (add_result-queue (stored name entry q).1 (enqueue_all is_alnum text_of now rest q'))
            ∙ enqueue_all-Keeps rest q' state n f (
                store_entry-Keeps name entry (verdict entry) (there name entry q) q refl state n f
                  h))
  ]

  -- Enqueuing records never changes or removes a file that the queue holds already.
  pub enqueue_event_records-Keeps :
      (entries : List Object) (q : EventQueue)
      → Keeps q (enqueue_event_records is_alnum text_of now entries q).0
  unfolding enqueue_event_records
  enqueue_event_records-Keeps entries q state n f h =
      enqueue_all-Keeps entries (init_event_queue now q) state n f
        (ap (Dict.get n) (init_event_queue-files now q state) ∙ h)
