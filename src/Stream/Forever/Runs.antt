-- ===== src/Stream/Forever/Runs.antt =====
-- The main loop of main.go over all of its attempts.
use mathlib.Core.List.{append-nil, append_assoc}
use nomad_ondemand_scaler.Prelude.{
  ℕ, zero, suc, ◌^◌, ◌<◌, ◌≡◌, refl, sym, ap, ◌∙◌, none, some, List, [], ◌∷◌, ◌++◌, arith,
}
use nomad_ondemand_scaler.Stream.{
  StreamEvent, evaluation, node, allocation, other, Message, failed, events, Sent, on_event,
  on_events, read_stream, retry_time, next_retry_time,
}
use nomad_ondemand_scaler.Stream.Read.{
  IsSent, IsSent-nil, IsSent-append, until_error, read_stream-IsSent,
}
use nomad_ondemand_scaler.Stream.Forever.{
  Attempt, not_opened, opened, Loop, before_loop, attempt, main_loop,
}

-- The pauses after the failures from the k-th on.
abbrev pub pauses_from : ℕ → ℕ → List ℕ
pauses_from k zero = []
pauses_from k (suc n) = retry_time k ∷ pauses_from (suc k) n

module _ {E N A : Type 0} where
  abbrev pub all_events : List (Attempt E N A) → List (StreamEvent E N A)
  all_events [] = []
  all_events (not_opened ∷ rest) = all_events rest
  all_events (opened messages ∷ rest) = until_error messages ++ all_events rest

  abbrev pub failures : List (Attempt E N A) → ℕ
  failures [] = 0
  failures (not_opened ∷ rest) = suc (failures rest)
  failures (opened messages ∷ rest) = failures rest

  -- The index of the last message before the first error, if there is one.
  abbrev pub last_read : ℕ → List (Message E N A) → ℕ
  last_read i [] = i
  last_read i (failed ∷ rest) = i
  last_read i (events index es ∷ rest) = last_read index rest

  abbrev pub opened_from : ℕ → List (Attempt E N A) → List ℕ
  opened_from i [] = []
  opened_from i (not_opened ∷ rest) = opened_from i rest
  opened_from i (opened messages ∷ rest) = i ∷ opened_from (last_read i messages) rest

  on_event-last_index :
      (e : StreamEvent E N A) (s : Sent E N A) → (on_event e s).last_index ≡ s.last_index
  unfolding on_event
  on_event-last_index (evaluation (some e)) s = refl
  on_event-last_index (evaluation none) s = refl
  on_event-last_index (node (some e)) s = refl
  on_event-last_index (node none) s = refl
  on_event-last_index (allocation (some e)) s = refl
  on_event-last_index (allocation none) s = refl
  on_event-last_index other s = refl

  on_events-last_index :
      (es : List (StreamEvent E N A)) (s : Sent E N A) → (on_events es s).last_index ≡ s.last_index
  unfolding on_events
  on_events-last_index [] s = refl
  on_events-last_index (e ∷ es) s = on_events-last_index es (on_event e s) ∙ on_event-last_index e s

  read_stream-last_index :
      (messages : List (Message E N A)) (s : Sent E N A)
      → (read_stream messages s).last_index ≡ last_read s.last_index messages
  unfolding read_stream
  read_stream-last_index [] s = refl
  read_stream-last_index (failed ∷ rest) s = refl
  read_stream-last_index (events index es ∷ rest) s =
      read_stream-last_index rest (on_events es (record s { last_index = index }))
      ∙ ap (λ i. last_read i rest) (on_events-last_index es (record s { last_index = index }))

  -- From the k-th failure on.
  abbrev pub IsRun : ℕ → List (Attempt E N A) → Loop E N A → Loop E N A → Type 0
  IsRun k attempts l l' =
      IsSent (all_events attempts) l.sent l'.sent
      × (l'.pauses ≡ l.pauses ++ pauses_from k (failures attempts))
      × (l'.opened_at ≡ l.opened_at ++ opened_from l.sent.last_index attempts)

  main_loop-from :
      (k : ℕ) (attempts : List (Attempt E N A)) (l : Loop E N A)
      → l.retry ≡ retry_time k
      → l.sent.evals_count < 2 ^ 64
      → l.sent.allocs_count < 2 ^ 64
      → IsRun k attempts l (main_loop attempts l)
  unfolding main_loop attempt retry_time
  main_loop-from k [] l e h g =
      (IsSent-nil l.sent h g, sym (append-nil l.pauses), sym (append-nil l.opened_at))
  main_loop-from k (not_opened ∷ rest) l e h g =
      let (sent, pauses, at) =
        main_loop-from (suc k) rest (attempt not_opened l) (ap next_retry_time e) h g in
      (
        sent,
        pauses
            ∙ append_assoc l.pauses (l.retry ∷ []) (pauses_from (suc k) (failures rest))
            ∙ ap (λ t. l.pauses ++ t ∷ pauses_from (suc k) (failures rest)) e,
        at,
      )
  main_loop-from k (opened messages ∷ rest) l e h g =
      let first = read_stream-IsSent messages l.sent h g in
      let (a, b, c, d, f) = first in
      let (sent, pauses, at) =
        main_loop-from k rest (attempt (opened messages) l) e (omega (arith, d))
          (omega (arith, f)) in
      (
        IsSent-append (until_error messages) (all_events rest) l.sent (read_stream messages l.sent)
            (main_loop rest (attempt (opened messages) l)).sent first sent,
        pauses,
        at
            ∙ append_assoc l.opened_at (l.sent.last_index ∷ []) _
            ∙ ap (λ i. l.opened_at ++ l.sent.last_index ∷ opened_from i rest)
                (read_stream-last_index messages l.sent),
      )

  -- Where the counters fit their width, over any attempts to open the event stream: of what each stream brings
  -- before its first error, each evaluation, node and allocation that can be decoded is sent to its channel,
  -- once and in order, and nothing else; the counters of evaluations and allocations go up by as many,
  -- modulo 2 to the 64; each stream is opened from the index of the last message that was read before; and
  -- the pauses are those of one failure after another, whatever was opened in between.
  pub main_loop-IsRun :
      (attempts : List (Attempt E N A)) (s : Sent E N A)
      → s.evals_count < 2 ^ 64
      → s.allocs_count < 2 ^ 64
      → IsRun 0 attempts (before_loop s) (main_loop attempts (before_loop s))
  unfolding retry_time
  main_loop-IsRun attempts s h g = main_loop-from 0 attempts (before_loop s) refl h g
