-- ===== src/Stream/Read.antt =====
-- What the main loop of main.go sends to the channels.
use mathlib.Core.List.{append-nil, append_assoc}
use nomad_ondemand_scaler.Prelude.{
  ℕ, suc, ◌+◌, ◌%◌, ◌^◌, ◌≡◌, refl, sym, ◌∙◌, none, some, List, [], ◌∷◌, ◌++◌, length,
  length-append, arith, ◌<◌,
}
use nomad_ondemand_scaler.Stat.{inc}
use nomad_ondemand_scaler.Stream.{
  StreamEvent, evaluation, node, allocation, other, Message, failed, events, Sent, on_event,
  on_events, read_stream,
}

inc_plus : (n l : ℕ) → (inc n + l) % 2 ^ 64 ≡ (n + suc l) % 2 ^ 64
unfolding inc
inc_plus n l = omega arith

module _ {E N A : Type 0} where
  -- The events before the first error.
  abbrev pub until_error : List (Message E N A) → List (StreamEvent E N A)
  until_error [] = []
  until_error (failed ∷ rest) = []
  until_error (events index es ∷ rest) = es ++ until_error rest

  abbrev pub evals_in : List (StreamEvent E N A) → List E
  evals_in [] = []
  evals_in (evaluation (some e) ∷ rest) = e ∷ evals_in rest
  evals_in (_ ∷ rest) = evals_in rest

  abbrev pub nodes_in : List (StreamEvent E N A) → List N
  nodes_in [] = []
  nodes_in (node (some n) ∷ rest) = n ∷ nodes_in rest
  nodes_in (_ ∷ rest) = nodes_in rest

  abbrev pub allocs_in : List (StreamEvent E N A) → List A
  allocs_in [] = []
  allocs_in (allocation (some a) ∷ rest) = a ∷ allocs_in rest
  allocs_in (_ ∷ rest) = allocs_in rest

  -- What is sent of some events, and how it is counted.
  abbrev pub IsSent : List (StreamEvent E N A) → Sent E N A → Sent E N A → Type 0
  IsSent es s s' =
      (s'.evals ≡ s.evals ++ evals_in es)
      × (s'.nodes ≡ s.nodes ++ nodes_in es)
      × (s'.allocs ≡ s.allocs ++ allocs_in es)
      × (s'.evals_count ≡ (s.evals_count + length (evals_in es)) % 2 ^ 64)
      × (s'.allocs_count ≡ (s.allocs_count + length (allocs_in es)) % 2 ^ 64)

  pub IsSent-nil :
      (s : Sent E N A) → s.evals_count < 2 ^ 64 → s.allocs_count < 2 ^ 64 → IsSent [] s s
  IsSent-nil s h g = (
    sym (append-nil s.evals),
    sym (append-nil s.nodes),
    sym (append-nil s.allocs),
    omega (arith, h),
    omega (arith, g),
  )

  on_events-IsSent :
      (es : List (StreamEvent E N A)) (s : Sent E N A)
      → s.evals_count < 2 ^ 64
      → s.allocs_count < 2 ^ 64
      → IsSent es s (on_events es s)
  unfolding on_events on_event inc
  on_events-IsSent [] s h g = IsSent-nil s h g
  on_events-IsSent (evaluation (some e) ∷ es) s h g =
      let (a, b, c, d, f) =
        on_events-IsSent es (on_event (evaluation (some e)) s) (omega arith) g in
      (
        a ∙ append_assoc s.evals (e ∷ []) (evals_in es),
        b,
        c,
        d ∙ inc_plus s.evals_count (length (evals_in es)),
        f,
      )
  on_events-IsSent (evaluation none ∷ es) s h g = on_events-IsSent es s h g
  on_events-IsSent (node none ∷ es) s h g = on_events-IsSent es s h g
  on_events-IsSent (allocation none ∷ es) s h g = on_events-IsSent es s h g
  on_events-IsSent (other ∷ es) s h g = on_events-IsSent es s h g
  on_events-IsSent (node (some e) ∷ es) s h g =
      let (a, b, c, d, f) = on_events-IsSent es (on_event (node (some e)) s) h g in
      (a, b ∙ append_assoc s.nodes (e ∷ []) (nodes_in es), c, d, f)
  on_events-IsSent (allocation (some e) ∷ es) s h g =
      let (a, b, c, d, f) =
        on_events-IsSent es (on_event (allocation (some e)) s) h (omega arith) in
      (
        a,
        b,
        c ∙ append_assoc s.allocs (e ∷ []) (allocs_in es),
        d,
        f ∙ inc_plus s.allocs_count (length (allocs_in es)),
      )

  evals_in-append :
      (es fs : List (StreamEvent E N A)) → evals_in (es ++ fs) ≡ evals_in es ++ evals_in fs
  evals_in-append [] fs = refl
  evals_in-append (e ∷ es) fs = ground (arith, evals_in-append es fs)

  nodes_in-append :
      (es fs : List (StreamEvent E N A)) → nodes_in (es ++ fs) ≡ nodes_in es ++ nodes_in fs
  nodes_in-append [] fs = refl
  nodes_in-append (e ∷ es) fs = ground (arith, nodes_in-append es fs)

  allocs_in-append :
      (es fs : List (StreamEvent E N A)) → allocs_in (es ++ fs) ≡ allocs_in es ++ allocs_in fs
  allocs_in-append [] fs = refl
  allocs_in-append (e ∷ es) fs = ground (arith, allocs_in-append es fs)

  pub IsSent-append :
      (es fs : List (StreamEvent E N A)) (s s' s'' : Sent E N A)
      → IsSent es s s'
      → IsSent fs s' s''
      → IsSent (es ++ fs) s s''
  IsSent-append es fs s s' s'' (a, b, c, d, f) (a', b', c', d', f') = (
    rw (a', a, evals_in-append es fs) (append_assoc s.evals (evals_in es) (evals_in fs)),
    rw (b', b, nodes_in-append es fs) (append_assoc s.nodes (nodes_in es) (nodes_in fs)),
    rw (c', c, allocs_in-append es fs) (append_assoc s.allocs (allocs_in es) (allocs_in fs)),
    rw (evals_in-append es fs)
        (omega (arith, d, d', length-append {0} (evals_in es) (evals_in fs))),
    rw (allocs_in-append es fs)
        (omega (arith, f, f', length-append {0} (allocs_in es) (allocs_in fs))),
  )

  -- Where the counters fit their width: of what the stream brings before its first error, each evaluation,
  -- node and allocation that can be decoded is sent to its channel, once and in order, and nothing else;
  -- and the counters of evaluations and allocations go up by as many, modulo 2 to the 64.
  pub read_stream-IsSent :
      (messages : List (Message E N A)) (s : Sent E N A)
      → s.evals_count < 2 ^ 64
      → s.allocs_count < 2 ^ 64
      → IsSent (until_error messages) s (read_stream messages s)
  unfolding read_stream
  read_stream-IsSent [] s h g = IsSent-nil s h g
  read_stream-IsSent (failed ∷ rest) s h g = IsSent-nil s h g
  read_stream-IsSent (events index es ∷ rest) s h g =
      let mid = on_events es (record s { last_index = index }) in
      let sent = on_events-IsSent es (record s { last_index = index }) h g in
      let (a, b, c, d, f) = sent in
      let later = read_stream-IsSent rest mid (omega (arith, d)) (omega (arith, f)) in
      IsSent-append es (until_error rest) s mid (read_stream rest mid) sent later
