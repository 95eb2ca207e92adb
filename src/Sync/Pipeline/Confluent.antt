-- ===== src/Sync/Pipeline/Confluent.antt =====
-- Whatever the interleaving, a run of Sync/Pipeline ends alike if its batch does not fail.
use eamerald.Base.{
  ℕ, suc, ◌+◌, ◌*◌, ◌≤◌, ◌≡◌, ◌⊎◌, ltb, refl, ap, ◌∙◌, Bool, true, false, inl, inr, List, [], ◌∷◌,
  ◌++◌, length, length-append, List-cases, Bool-cases, arith,
}
use eamerald.Store.Tx.{Tx}
use eamerald.Service.Context.{Context}
use eamerald.Sync.Filter.{Cuckoo}
use eamerald.Sync.Directory.{
  ExportMsg, object_export, relation_export, other_export, Received, nothing_received, is_sent,
  note_export, note_exports, receive, receive_all, sent_messages,
}
use eamerald.Sync.Pipeline.{
  Pipe, start, Step, send, pass, close, take_next, finish, refuse, abort, channel_size, Run, here,
  and_then,
}
use mathlib.Core.List.{append_assoc}

note_export-unsent :
    (cuckoo : Cuckoo) (diff : Bool) (m : ExportMsg) (f : cuckoo.Filter)
    → is_sent m ≡ false
    → note_export cuckoo diff m f ≡ f
unfolding note_export
note_export-unsent cuckoo diff (object_export o) f h = absurd (cc h)
note_export-unsent cuckoo diff (relation_export r) f h = absurd (cc h)
note_export-unsent cuckoo false other_export f h = refl
note_export-unsent cuckoo true other_export f h = refl

module _ (tx : Tx) (ctx : Context) (cuckoo : Cuckoo) (diff : Bool) where
  abbrev P : Type 0
  P = Pipe tx ctx cuckoo diff

  -- The steps that are left, at most.
  abbrev open_steps : Bool → ℕ
  open_steps true = 0
  open_steps false = 1

  abbrev pub steps_left : P → ℕ
  steps_left p =
      2 * length p.unread + length p.channel + open_steps p.closed + open_steps p.finished

  -- What the filter, the collected results and the store come to when all is read and taken.
  abbrev Outcome : Type 0
  Outcome = cuckoo.Filter × (Received × tx.State)

  unfoldable outcome : P → Outcome
  outcome p = (
    note_exports cuckoo diff p.unread p.filter,
    receive_all tx ctx (p.channel ++ sent_messages p.unread) p.got p.store,
  )

  -- Each step takes one of the steps that are left.
  pub steps_left-Step : (p q : P) → Step tx ctx cuckoo diff p q → suc (steps_left q) ≤ steps_left p
  steps_left-Step p _ (send m rest live unread sent room) =
      omega (arith, ap length unread, length-append p.channel (m ∷ []))
  steps_left-Step p _ (pass m rest live unread sent) = omega (arith, ap length unread)
  steps_left-Step p _ (close live unread) = omega (arith, ap open_steps live)
  steps_left-Step p _ (take_next m rest running channel) = omega (arith, ap length channel)
  steps_left-Step p _ (finish running closed channel) = omega (arith, ap open_steps running)
  steps_left-Step p _ (refuse running early) = omega (arith, ap open_steps running)
  steps_left-Step p _ (abort running closed channel) = omega (arith, ap open_steps running)

  -- Each step of the producer or the subscriber takes one of a number of steps that is fixed at the
  -- start, which is two for each message of the stream, and two more.
  pub Run-steps_left :
      (p : P) (n : ℕ) (q : P) → Run tx ctx cuckoo diff p n q → n + steps_left q ≤ steps_left p
  Run-steps_left p _ _ here = omega arith
  Run-steps_left p _ r (and_then {n} {q} run step) =
      omega (arith, Run-steps_left p n q run, steps_left-Step q r step)

  receive_all-append :
      (xs ys : List ExportMsg) (got : Received) (s : tx.State)
      → receive_all tx ctx (xs ++ ys) got s
        ≡ receive_all tx ctx ys (receive_all tx ctx xs got s).0 (receive_all tx ctx xs got s).1
  unfolding receive_all
  receive_all-append [] ys got s = refl
  receive_all-append (m ∷ xs) ys got s =
      receive_all-append xs ys (receive tx ctx m got s).0 (receive tx ctx m got s).1

  -- A batch that has not failed had not failed before.
  failed-Step : (p q : P) → Step tx ctx cuckoo diff p q → q.failed ≡ false → p.failed ≡ false
  failed-Step p _ (send m rest live unread sent room) h = h
  failed-Step p _ (pass m rest live unread sent) h = h
  failed-Step p _ (close live unread) h = h
  failed-Step p _ (take_next m rest running channel) h = h
  failed-Step p _ (finish running closed channel) h = h
  failed-Step p _ (refuse running early) h = absurd (cc h)
  failed-Step p _ (abort running closed channel) h = absurd (cc h)

  outcome-Step : (p q : P) → Step tx ctx cuckoo diff p q → q.failed ≡ false → outcome q ≡ outcome p
  unfolding outcome note_exports sent_messages receive_all
  outcome-Step p _ (send m rest live unread sent room) h =
      rw (unread, sent)
        (ap
          (λ msgs. (
            note_exports cuckoo diff rest (note_export cuckoo diff m p.filter),
            receive_all tx ctx msgs p.got p.store,
          ))
          (append_assoc p.channel (m ∷ []) (sent_messages rest)))
  outcome-Step p _ (pass m rest live unread sent) h =
      rw (unread, sent, note_export-unsent cuckoo diff m p.filter sent)
  outcome-Step p _ (close live unread) h = refl
  outcome-Step p _ (take_next m rest running channel) h = rw channel
  outcome-Step p _ (finish running closed channel) h = refl
  outcome-Step p _ (refuse running early) h = absurd (cc h)
  outcome-Step p _ (abort running closed channel) h = absurd (cc h)

  -- Once closed, all is read; a subscriber that has finished has emptied a closed channel, or its batch
  -- has failed; the store of a batch that has not begun or has failed is the one before it.
  abbrev IsTidy : P → Type 0
  IsTidy p =
      (p.closed ≡ true → p.unread ≡ [])
      × (p.finished ≡ true → p.failed ≡ false → (p.closed ≡ true) × (p.channel ≡ []))
      × (p.begun ≡ false → p.store ≡ p.before)
      × (p.failed ≡ true → (p.finished ≡ true) × (p.store ≡ p.before))

  Step-IsTidy : (p q : P) → Step tx ctx cuckoo diff p q → IsTidy p → IsTidy q
  Step-IsTidy p _ (send m rest live unread sent room) (read, done, early, undone) =
      (λ c. absurd (cc (live, c)), λ f g. absurd (cc (live, (done f g).0)), early, undone)
  Step-IsTidy p _ (pass m rest live unread sent) (read, done, early, undone) =
      (λ c. absurd (cc (live, c)), done, early, undone)
  Step-IsTidy p _ (close live unread) (read, done, early, undone) =
      (λ c. unread, λ f g. absurd (cc (live, (done f g).0)), early, undone)
  Step-IsTidy p _ (take_next m rest running channel) (read, done, early, undone) = (
    read,
    λ f g. absurd (cc (running, f)),
    λ b. absurd (cc b),
    λ f. absurd (cc (running, (undone f).0)),
  )
  Step-IsTidy p _ (finish running closed channel) (read, done, early, undone) =
      (read, λ f g. (closed, channel), early, λ f. absurd (cc (running, (undone f).0)))
  Step-IsTidy p _ (refuse running start_failed) (read, done, early, undone) =
      (read, λ f g. absurd (cc g), early, λ f. (refl, early start_failed))
  Step-IsTidy p _ (abort running closed channel) (read, done, early, undone) =
      (read, λ f g. absurd (cc g), λ b. refl, λ f. (refl, refl))

  Run-IsTidy : (p : P) (n : ℕ) (q : P) → Run tx ctx cuckoo diff p n q → IsTidy p → IsTidy q
  Run-IsTidy p _ _ here tidy = tidy
  Run-IsTidy p _ r (and_then {n} {q} run step) tidy =
      Step-IsTidy q r step (Run-IsTidy p n q run tidy)

  Run-outcome :
      (p : P) (n : ℕ) (q : P)
      → Run tx ctx cuckoo diff p n q
      → q.failed ≡ false
      → outcome q ≡ outcome p
  Run-outcome p _ _ here h = refl
  Run-outcome p _ r (and_then {n} {q} run step) h =
      outcome-Step q r step h ∙ Run-outcome p n q run (failed-Step q r step h)

  module _ (msgs : List ExportMsg) (f : cuckoo.Filter) (s : tx.State) where
    start-IsTidy : IsTidy (start tx ctx cuckoo diff msgs f s)
    start-IsTidy = (λ c. absurd (cc c), λ c g. absurd (cc c), λ b. refl, λ c. absurd (cc c))

    settled :
        (q : P)
        → outcome q ≡ outcome (start tx ctx cuckoo diff msgs f s)
        → q.unread ≡ []
        → q.channel ≡ []
        → (q.filter ≡ note_exports cuckoo diff msgs f)
          × (◌≡◌ {A = Received × tx.State}
              (q.got, q.store)
              (receive_all tx ctx (sent_messages msgs) nothing_received s))
    unfolding outcome note_exports sent_messages receive_all
    settled q same read taken =
        let end : ◌≡◌ {A = Outcome} (q.filter, (q.got, q.store))
            (
              note_exports cuckoo diff msgs f,
              receive_all tx ctx (sent_messages msgs) nothing_received s,
            ) =
          rw (read, taken) at same in
        (ap (λ (o : Outcome). o.0) end, ap (λ (o : Outcome). o.1) end)

    -- Whatever the order in which the steps of the producer and of the subscriber come, a run whose
    -- subscriber has finished, and whose batch has not failed, has the filter, the collected
    -- results and the store that the subscriber, run on its own on all the messages of the stream,
    -- would leave.
    pub Run-receive_all :
        (n : ℕ) (q : P)
        → Run tx ctx cuckoo diff (start tx ctx cuckoo diff msgs f s) n q
        → q.finished ≡ true
        → q.failed ≡ false
        → (q.filter ≡ note_exports cuckoo diff msgs f)
          × (◌≡◌ {A = Received × tx.State}
              (q.got, q.store)
              (receive_all tx ctx (sent_messages msgs) nothing_received s))
    Run-receive_all n q run done whole =
        let (read, over, _, _) = Run-IsTidy _ n q run start-IsTidy in
        let (closed, taken) = over done whole in
        settled q (Run-outcome _ n q run whole) (read closed) taken

    -- The producer has its step, unless the channel is full.
    producer-Step :
        (q : P)
        → q.closed ≡ false
        → ((r : P) × Step tx ctx cuckoo diff q r) ⊎ (channel_size ≤ length q.channel)
    producer-Step q live = elim (List-cases q.unread) [
      | inl read ↦ inl (_, close live read)
      | inr (m, rest, unread) ↦ elim (Bool-cases (is_sent m)) [
        | inl sent ↦ elim (Bool-cases (ltb (length q.channel) channel_size)) [
          | inl room ↦ inl (_, send m rest live unread sent (ground arith))
          | inr full ↦ inr (ground arith)
        ]
        | inr unsent ↦ inl (_, pass m rest live unread unsent)
      ]
    ]

    -- From every state that the producer and the subscriber reach, one of them can take a step, or
    -- both have ended, or the batch has failed and the channel is full.
    pub Run-progress :
        (n : ℕ) (q : P)
        → Run tx ctx cuckoo diff (start tx ctx cuckoo diff msgs f s) n q
        → ((r : P) × Step tx ctx cuckoo diff q r)
          ⊎ ((q.finished ≡ true) × (q.closed ≡ true))
          ⊎ ((q.failed ≡ true) × (channel_size ≤ length q.channel))
    Run-progress n q run = elim (Bool-cases q.finished) [
      | inr running ↦ elim (List-cases q.channel) [
        | inr (m, rest, waiting) ↦ inl (_, take_next m rest running waiting)
        | inl empty ↦ elim (Bool-cases q.closed) [
          | inl closed ↦ inl (_, finish running closed empty)
          | inr live ↦ elim (producer-Step q live) [
            | inl step ↦ inl step
            | inr full ↦ absurd (omega (arith, ap length empty))
          ]
        ]
      ]
      | inl done ↦ elim (Bool-cases q.closed) [
        | inl closed ↦ inr (inl (done, closed))
        | inr live ↦ elim (producer-Step q live) [
          | inl step ↦ inl step
          | inr full ↦ elim (Bool-cases q.failed) [
            | inl lost ↦ inr (inr (lost, full))
            | inr whole ↦ absurd (cc (live, ((Run-IsTidy _ n q run start-IsTidy).1 done whole).0))
          ]
        ]
      ]
    ]
