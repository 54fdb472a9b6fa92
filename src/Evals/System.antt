-- ===== src/Evals/System.antt =====
-- The loop of processEvals.go beside the threads of scalingAction.go: every fired event is in
-- exactly one place, the queue, a scaling thread or the channel of done chains, and no other event
-- is anywhere.
use nomad_ondemand_scaler.Prelude.{
  ℕ, zero, suc, ◌+◌, ◌<◌, ◌≡◌, refl, String, Bool, some, List, [], ◌∷◌, ◌++◌, length, erase_idx,
  get_elem?, arith, eq_iff, str_eq, subst, ap,
}
use nomad_ondemand_scaler.Prelude.Dict.{Dict, lookup, has, lookup-delete}
use nomad_ondemand_scaler.Queue.{Queue, QueueItem, dequeue, new_queue}
use nomad_ondemand_scaler.Queue.Valid.{IsValid, new_queue-IsValid}
use nomad_ondemand_scaler.Queue.Fifo.{dequeue_lem, dequeue_empty}
use nomad_ondemand_scaler.Evals.{State, ScalingEvent, Answers, Eval, Tick, visit, on_eval, on_done}
use nomad_ondemand_scaler.Evals.Single.{times, queued, IsLabelled, one_if, IsSingle, visit-IsSingle}

-- `scalingDoneCh` holds ten ids.
abbrev pub done_capacity : ℕ
done_capacity = 10

pub record System : Type 0 where
  pub state : State
  pub working : List String
  pub done : List String

-- One message of the loop's `select`, one chain of a tick, or one step of a scaling thread. The end
-- of a tick puts other chains and evaluations in place.
pub data Step (s : System) : System → Type 0 where
  receives :
      (e : Eval) (r : State × Bool) → on_eval e s.state ≡ some r → Step s (record s { state = r.0 })
  visits :
      (ans : Answers) (cid : String) (t u : Tick)
      → t.state ≡ s.state
      → visit ans cid t ≡ some u
      → Step s (record s { state = u.state })
  regroups :
      (evals : Dict Eval) (chains : Dict (List String))
      → Step s (record s { state = record (s.state) { evals = evals; chains = chains } })
  takes :
      (tokens : ℕ) (q : Queue ScalingEvent) (event : ScalingEvent)
      → dequeue (suc tokens) s.state.queue ≡ (q, some event)
      → Step s (record s { state = record (s.state) { queue = q }; working = event.id ∷ s.working })
  finishes :
      (i : ℕ) (cid : String)
      → get_elem? s.working i ≡ some cid
      → length s.done < done_capacity
      → Step s (record s { working = erase_idx s.working i; done = s.done ++ cid ∷ [] })
  acknowledges :
      (cid : String) (rest : List String)
      → s.done ≡ cid ∷ rest
      → Step s (record s { state = on_done cid s.state; done = rest })

pub data Reach (s : System) : System → Type 0 where
  here : Reach s s
  next : {t u : System} → Reach s t → Step t u → Reach s u

unfoldable pub start : System
unfolding new_queue
start = record {
  state = record {
    evals = [];
    chains = [];
    fired = [];
    queue = new_queue;
    canceled = [];
    nosuited = 0;
  };
  working = [];
  done = [];
}

abbrev pub elsewhere : System → String → ℕ
elsewhere s cid = times cid s.working + times cid s.done

abbrev pub IsOnce : System → Type 0
IsOnce s = IsSingle (elsewhere s) s.state

times-append_one :
    (cid k : String) (xs : List String)
    → times cid (xs ++ k ∷ []) ≡ times cid xs + one_if (str_eq k cid)
times-append_one cid k [] = ground arith
times-append_one cid k (x ∷ xs) = ground (arith, times-append_one cid k xs)

times-erase_idx :
    (cid k : String) (xs : List String) (i : ℕ)
    → get_elem? xs i ≡ some k
    → times cid xs ≡ times cid (erase_idx xs i) + one_if (str_eq k cid)
times-erase_idx cid k [] i h = cc
times-erase_idx cid k (x ∷ xs) zero h = ground arith
times-erase_idx cid k (x ∷ xs) (suc i) h = ground (arith, times-erase_idx cid k xs i h)

on_eval-fields :
    (e : Eval) (s : State) (r : State × Bool)
    → on_eval e s ≡ some r
    → (r.0.queue ≡ s.queue) × (r.0.fired ≡ s.fired)
unfolding on_eval
on_eval-fields e s r h = ground arith

takes-IsOnce :
    (tokens : ℕ) (s : System) (q : Queue ScalingEvent) (event : ScalingEvent)
    (xs : List (QueueItem ScalingEvent))
    → s.state.queue.items ≡ xs
    → dequeue (suc tokens) s.state.queue ≡ (q, some event)
    → IsOnce s
    → IsOnce (record s { state = record (s.state) { queue = q }; working = event.id ∷ s.working })
takes-IsOnce tokens s q event [] e h g = absurd (cc (dequeue_empty (suc tokens) s.state.queue e))
takes-IsOnce tokens s q event (x ∷ xs) e h g =
    let (q', out, left, v) = dequeue_lem tokens s.state.queue x xs g.valid e in
    let same : q' ≡ q = cc (out, h) in
    let same_event : x.item ≡ event = cc (out, h) in
    let items : q.items ≡ xs = rw (← same) left in
    let labels : IsLabelled (x ∷ xs) = subst IsLabelled e g.labelled in
    record {
      valid = subst IsValid same v;
      labelled = rw items labels.1;
      single = λ j. ground (
        arith,
        items,
        labels.0,
        ap (λ (w : ScalingEvent). w.id) same_event,
        subst (λ ys. queued j ys + elsewhere s j ≡ one_if (has j s.state.fired)) e (g.single j),
      );
    }

Step-IsOnce : {s t : System} → Step s t → IsOnce s → IsOnce t
Step-IsOnce {s} (receives e r h) g =
    let (eq, ef) = on_eval-fields e s.state r h in
    record { valid = rw eq g.valid; labelled = rw eq g.labelled; single = rw (eq, ef) g.single }
Step-IsOnce {s} (visits ans cid t u same h) g =
    visit-IsSingle (elsewhere s) ans cid t u h (rw same g)
Step-IsOnce {s} (regroups evals chains) g = record {
  valid = g.valid;
  labelled = g.labelled;
  single = g.single;
}
Step-IsOnce {s} (takes tokens q event h) g =
    takes-IsOnce tokens s q event s.state.queue.items refl h g
Step-IsOnce {s} (finishes i cid at room) g = record {
  valid = g.valid;
  labelled = g.labelled;
  single = λ j.
      omega
        (arith, g.single j, times-append_one j cid s.done, times-erase_idx j cid s.working i at);
}
Step-IsOnce {s} (acknowledges cid rest e) g =
    unfold on_done in
    record {
      valid = g.valid;
      labelled = g.labelled;
      single = λ j. ground (
        arith,
        subst
            (λ ks.
              queued j s.state.queue.items + (times j s.working + times j ks)
              ≡ one_if (has j s.state.fired))
            e (g.single j),
        lookup-delete cid j s.state.fired,
        eq_iff cid j,
      );
    }

start-IsOnce : IsOnce start
unfolding start new_queue lookup
start-IsOnce = record { valid = new_queue-IsValid; labelled = tt; single = λ j. refl }

-- Whatever the interleaving from the start on, the queue's index is right, and an event is queued, with a thread or
-- waiting to be acknowledged, once in all if its chain is fired, and not at all otherwise.
pub Reach-IsOnce : {s : System} → Reach start s → IsOnce s
Reach-IsOnce here = start-IsOnce
Reach-IsOnce (next r st) = Step-IsOnce st (Reach-IsOnce r)
