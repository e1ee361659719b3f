-- ===== src/Queue/Filing.antt =====
-- Which file stands in which directory of the queue.
use Prim.Native.Char.{Char}
use mathlib.Core.Path.{subst}
use sourceos_syncd.Prelude.{
  String, ◌≡◌, refl, ◌∙◌, sym, ap, Bool, true, false, Option, some, List, [], ◌∷◌, ◌<>◌, ◌==◌,
  string_eq, ◌⊎◌, inl, inr, if◌then◌else◌,
}
use sourceos_syncd.Prelude.Dict
use sourceos_syncd.Json.{Json, Object}
use sourceos_syncd.Queue.{
  QueueState, Envelope, queued, deduped, EventQueue, state_dir, set_dir, write_envelope,
  store_entry, init_event_queue, enqueue_all, enqueue_event_records, audit_line, append_audit,
  validate_event_record,
}
use sourceos_syncd.Queue.Files.{
  set_dir-same, set_dir-other, append_audit-files, add_result-queue, init_event_queue-files,
  enqueue_one-cases, verdict, there, stored,
}
use sourceos_syncd.Queue.Dedup.{SameFiles}

pick :
    (b : Bool) (f e : Envelope) (o : Option Envelope)
    → (if b then some f else o) ≡ some e
    → (f ≡ e) ⊎ (o ≡ some e)
pick true f e o h = inl (cc)
pick false f e o h = inr h

get-put-cases :
    (n name : String) (e f : Envelope) (d : Dict.Dict Envelope)
    → Dict.get n (Dict.put name f d) ≡ some e
    → (f ≡ e) ⊎ (Dict.get n d ≡ some e)
get-put-cases n name e f d h =
    pick (n == name) f e (Dict.get n d) (sym (Dict.get-put n name f d) ∙ h)

module _ (text_of : Json → String) where
  -- A file stands in the directory of its state, with the verdict on its record.
  abbrev pub IsVerdict : QueueState → Envelope → Type 0
  IsVerdict state e =
      (e.queue_state ≡ state)
      × (e.decision ≡ validate_event_record text_of e.entry)
      × ((validate_event_record text_of e.entry).state ≡ state)

  abbrev pub IsFiled : EventQueue → Type 0
  IsFiled q =
      (state : QueueState) (name : String) (e : Envelope)
      → Dict.get name (state_dir state q) ≡ some e
      → IsVerdict state e

module _ (is_alnum : Char → Bool) (text_of : Json → String) (now : String) where
  IsFiled-SameFiles : (q q' : EventQueue) → SameFiles q q' → IsFiled text_of q → IsFiled text_of q'
  IsFiled-SameFiles q q' same filed state name e h =
      filed state name e (ap (Dict.get name) (sym (same state)) ∙ h)

  write_envelope-IsFiled :
      (name : String) (entry : Object) (q : EventQueue)
      → IsFiled text_of q
      → IsFiled text_of
          (write_envelope is_alnum text_of now name entry (verdict is_alnum text_of now entry) q)
  unfolding write_envelope
  write_envelope-IsFiled name entry q filed state n e h =
      let d = verdict is_alnum text_of now entry in
      let made : Envelope = record {
        queued_at = now;
        queue_state = d.state;
        decision = d;
        entry = entry;
      } in
      let old = state_dir d.state q in
      let new = Dict.put name made old in
      elim (set_dir-other state d.state new q) [
        | inr other ↦ filed state n e (ap (Dict.get n) (sym other) ∙ h)
        | inl same ↦
            subst (λ s. IsVerdict text_of s e) (sym same)
              (elim (get-put-cases n name e made old (
                ap (Dict.get n) (sym (set_dir-same d.state new q))
                ∙ (ap (λ s. Dict.get n (state_dir s (set_dir d.state new q))) (sym same) ∙ h))) [
                  | inl fresh ↦ subst (IsVerdict text_of d.state) fresh (refl, refl, refl)
                  | inr there ↦ filed d.state n e there
                ])
      ]

  store_entry-IsFiled :
      (name : String) (entry : Object) (b : Bool) (q : EventQueue)
      → IsFiled text_of q
      → IsFiled text_of
          (store_entry is_alnum text_of now name entry (verdict is_alnum text_of now entry) b q).0
  unfolding store_entry
  store_entry-IsFiled name entry true q filed =
      let line =
        audit_line is_alnum text_of now entry (verdict is_alnum text_of now entry) deduped in
      IsFiled-SameFiles q (append_audit line q) (append_audit-files line q) filed
  store_entry-IsFiled name entry false q filed =
      let line =
        audit_line is_alnum text_of now entry (verdict is_alnum text_of now entry) queued in
      let q' =
        write_envelope is_alnum text_of now name entry (verdict is_alnum text_of now entry) q in
      IsFiled-SameFiles q' (append_audit line q') (append_audit-files line q')
        (write_envelope-IsFiled name entry q filed)

  enqueue_all-IsFiled :
      (entries : List Object) (q : EventQueue)
      → IsFiled text_of q
      → IsFiled text_of (enqueue_all is_alnum text_of now entries q).0
  unfolding enqueue_all
  enqueue_all-IsFiled [] q filed = filed
  enqueue_all-IsFiled (entry ∷ rest) q filed =
      elim (enqueue_one-cases is_alnum text_of now entry q) [
        | inl e ↦ rw (enqueue_all, e) filed
        | inr (id, _, e) ↦
            let name = id <> ".json" in
            let (q', result) = stored is_alnum text_of now name entry q in
            rw (enqueue_all, e)
              (subst (IsFiled text_of)
                (sym (add_result-queue result (enqueue_all is_alnum text_of now rest q')))
                (enqueue_all-IsFiled rest q' (
                  store_entry-IsFiled name entry (there is_alnum text_of now name entry q) q
                    filed)))
      ]

  -- Enqueuing keeps each file in the directory of the state that the checks give its record.
  pub enqueue_event_records-IsFiled :
      (entries : List Object) (q : EventQueue)
      → IsFiled text_of q
      → IsFiled text_of (enqueue_event_records is_alnum text_of now entries q).0
  unfolding enqueue_event_records
  enqueue_event_records-IsFiled entries q filed =
      enqueue_all-IsFiled entries (init_event_queue now q)
        (IsFiled-SameFiles q (init_event_queue now q) (init_event_queue-files now q) filed)
