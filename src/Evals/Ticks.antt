-- ===== src/Evals/Ticks.antt =====
-- One tick of the timer in processEvals.go: every chain is trimmed to its first blocked evaluation.
use nomad_ondemand_scaler.Prelude.{
  ◌≡◌, refl, ◌⊎◌, inl, inr, String, true, false, ◌||◌, Option, none, some, List, [], ◌∷◌, All,
  All-mono, arith, eq_iff, str_eq, if◌then◌else◌, Bool-cases, subst, ◌∙◌,
}
use nomad_ondemand_scaler.Prelude.Dict.{
  found, Dict, lookup, insert, delete, has, keys, lookup-insert, lookup-delete, IsKeyed,
  insert-IsKeyed, delete-IsKeyed,
}
use nomad_ondemand_scaler.Evals.{
  State, Answers, Eval, Tick, is_in, visit, visit_all, delete_chains, on_timer, ◌>>=◌,
}
use nomad_ondemand_scaler.Evals.Judging.{
  IsLive, IsCopy, trim-IsLive, Judged, AnswersEvals, judge_lem,
}
use nomad_ondemand_scaler.Evals.Guarded.{IsGuarded}
use nomad_ondemand_scaler.Evals.Chains.{IsChain, IsSound}

-- Between two visits: `visited` names the chains that have been judged.
record IsTicking (visited : List String) (t : Tick) : Type 0 where
  guard : IsGuarded t.state
  copied : IsCopy t.state.evals t.new_evals
  keyed : IsKeyed t.state.chains
  waiting :
      (cid : String) (c : List String)
      → lookup cid t.state.chains ≡ some c
      → is_in cid visited ≡ false
      → IsChain t.state.evals c
  judged :
      (cid : String) (c : List String)
      → lookup cid t.state.chains ≡ some c
      → is_in cid visited ≡ true
      → (is_in cid t.removed ≡ true) ⊎ IsLive t.new_evals c

next_IsTicking :
    (cid : String) (visited c : List String) (t u : Tick)
    → Judged cid c
        (record t { state = record (t.state) { chains = insert cid c t.state.chains } })
        u
    → IsTicking visited t
    → IsTicking (cid ∷ visited) u
next_IsTicking cid visited c t u j v = record {
  guard = j.guard;
  copied = j.copied;
  keyed = rw j.chains (insert-IsKeyed cid c t.state.chains v.keyed);
  waiting = λ i d h new. rw j.evals (
      v.waiting i d (ground (arith, j.chains, lookup-insert cid i c t.state.chains))
        (ground arith));
  judged = λ i d h old. elim (Bool-cases (str_eq cid i)) [
    | inl same ↦
        let here : cid ≡ i = (eq_iff cid i).0 same in
        let e : c ≡ d = ground (arith, j.chains, lookup-insert cid i c t.state.chains) in
        subst (λ k. (is_in k u.removed ≡ true) ⊎ IsLive u.new_evals d) here
          (subst (λ x. (is_in cid u.removed ≡ true) ⊎ IsLive u.new_evals x) e j.verdict)
    | inr other ↦ carry i d (
        v.judged i d (ground (arith, j.chains, lookup-insert cid i c t.state.chains))
          (ground arith))
  ];
}
  where
    carry :
        (i : String) (d : List String)
        → (is_in i t.removed ≡ true) ⊎ IsLive t.new_evals d
        → (is_in i u.removed ≡ true) ⊎ IsLive u.new_evals d
    carry i d (inl gone) = inl (j.drops i gone)
    carry i d (inr live) = inr (j.lives d live)

visit_lem :
    (ans : Answers) (cid : String) (visited : List String) (t : Tick)
    → AnswersEvals ans
    → has cid t.state.chains ≡ true
    → is_in cid visited ≡ false
    → IsTicking visited t
    → (u : Tick) × (visit ans cid t ≡ some u)
      × ((j : String) → has j u.state.chains ≡ has j t.state.chains)
      × IsTicking (cid ∷ visited) u
unfolding visit
visit_lem ans cid visited t answers here new v =
    let (before, at) = found cid t.state.chains here in
    let (c, trimmed, live) = trim-IsLive t.state.evals before (v.waiting cid before at new).1 in
    let put : Tick = record t {
      state = record (t.state) { chains = insert cid c t.state.chains };
    } in
    let (u, e, j) =
      judge_lem ans cid c put answers (record { valid = v.guard.valid; guarded = v.guard.guarded })
        v.copied live in
    (
      u,
      ground (arith, at, trimmed, e),
      λ i. ground (arith, j.chains, lookup-insert cid i c t.state.chains, eq_iff cid i, here),
      next_IsTicking cid visited c t u j v,
    )

begun : (s : State) → IsSound s → IsTicking [] (record { state = s; new_evals = []; removed = [] })
unfolding lookup
begun s v = record {
  guard = v.guard;
  copied = λ k e h. cc;
  keyed = v.keyed;
  waiting = λ cid c h new. v.chained cid c h;
  judged = λ cid c h old. absurd (cc);
}

has-keys : {V : Type 0} (m : Dict V) → All (λ k. has k m ≡ true) (keys m)
unfolding lookup
has-keys [] = tt
has-keys ((j, v) ∷ m) = (
  ground (arith, eq_iff j j),
  All-mono (λ (k : String) (h : has k m ≡ true). ground (arith)) (keys m) (has-keys m),
)

-- The chains are visited once each.
abbrev IsApart : List String → List String → Type 0
IsApart visited [] = Unit
IsApart visited (k ∷ ks) = (is_in k visited ≡ false) × IsApart (k ∷ visited) ks

abbrev visited_after : List String → List String → List String
visited_after [] visited = visited
visited_after (k ∷ ks) visited = visited_after ks (k ∷ visited)

in_visited_after :
    (k : String) (ks visited : List String)
    → is_in k (visited_after ks visited) ≡ is_in k ks || is_in k visited
in_visited_after k [] visited = refl
in_visited_after k (j ∷ ks) visited = ground (arith, in_visited_after k ks (j ∷ visited))

in_keys : {V : Type 0} (k : String) (m : Dict V) → is_in k (keys m) ≡ has k m
unfolding lookup
in_keys k [] = refl
in_keys k ((j, v) ∷ m) = ground (arith, in_keys k m)

keys-IsApart :
    {V : Type 0} (visited : List String) (m : Dict V)
    → IsKeyed m
    → ((k : String) → is_in k visited ≡ true → lookup k m ≡ none)
    → IsApart visited (keys m)
unfolding lookup
keys-IsApart visited [] h fresh = tt
keys-IsApart visited ((j, v) ∷ m) h fresh = (
  ground (arith, fresh j, eq_iff j j),
  keys-IsApart (j ∷ visited) m h.1 (λ k p. ground (arith, fresh k, h.0, eq_iff j k)),
)

visit_all_lem :
    (ans : Answers) (cids visited : List String) (t : Tick)
    → AnswersEvals ans
    → All (λ k. has k t.state.chains ≡ true) cids
    → IsApart visited cids
    → IsTicking visited t
    → (u : Tick) × (visit_all ans cids t ≡ some u)
      × ((k : String) → has k u.state.chains ≡ has k t.state.chains)
      × IsTicking (visited_after cids visited) u
unfolding visit_all
visit_all_lem ans [] visited t answers here apart v = (t, refl, λ k. refl, v)
visit_all_lem ans (cid ∷ cids) visited t answers here apart v =
    let (t', e, same, v') = visit_lem ans cid visited t answers here.0 apart.0 v in
    let (u, e', same', w) =
      visit_all_lem ans cids (cid ∷ visited) t' answers
        (All-mono (λ (k : String) (h : has k t.state.chains ≡ true). same k ∙ h) cids here.1)
        apart.1 v' in
    (u, rw (e, ◌>>=◌) e', λ k. same' k ∙ same k, w)

lookup-delete_chains :
    (k : String) (ks : List String) (m : Dict (List String))
    → lookup k (delete_chains ks m) ≡ (if is_in k ks then none else lookup k m)
unfolding delete_chains
lookup-delete_chains k [] m = refl
lookup-delete_chains k (j ∷ ks) m =
    ground (arith, lookup-delete_chains k ks (delete j m), lookup-delete j k m)

delete_chains-IsKeyed :
    (ks : List String) (m : Dict (List String)) → IsKeyed m → IsKeyed (delete_chains ks m)
unfolding delete_chains
delete_chains-IsKeyed [] m h = h
delete_chains-IsKeyed (k ∷ ks) m h = delete_chains-IsKeyed ks (delete k m) (delete-IsKeyed k m h)

IsLive-IsChain : (evals : Dict Eval) (c : List String) → IsLive evals c → IsChain evals c
IsLive-IsChain evals [] h = absurd h
IsLive-IsChain evals (k ∷ ks) h = (λ e. cc, h.1)

-- What the tick leaves of the chains is live.
ended :
    (s : State) (u : Tick)
    → ((k : String) → has k u.state.chains ≡ has k s.chains)
    → IsTicking (visited_after (keys s.chains) []) u
    → (cid : String) (c : List String)
    → lookup cid (delete_chains u.removed u.state.chains) ≡ some c
    → IsLive u.new_evals c
ended s u same w cid c h =
    let kept : is_in cid u.removed ≡ false =
      ground (arith, lookup-delete_chains cid u.removed u.state.chains) in
    let at : lookup cid u.state.chains ≡ some c =
      ground (arith, lookup-delete_chains cid u.removed u.state.chains) in
    let seen : is_in cid (visited_after (keys s.chains) []) ≡ true =
      ground (arith, in_visited_after cid (keys s.chains) [], in_keys cid s.chains, same cid) in
    live kept (w.judged cid c at seen)
  where
    live :
        is_in cid u.removed ≡ false
        → (is_in cid u.removed ≡ true) ⊎ IsLive u.new_evals c
        → IsLive u.new_evals c
    live kept (inl gone) = absurd (cc)
    live kept (inr l) = l

-- What is found in a map of chains, if anything, is live.
abbrev pub IsLiveIf : Dict Eval → Option (List String) → Type 0
IsLiveIf evals none = Unit
IsLiveIf evals (some c) = IsLive evals c

all_live :
    (evals : Dict Eval) (o : Option (List String))
    → ((c : List String) → o ≡ some c → IsLive evals c)
    → IsLiveIf evals o
all_live evals none h = tt
all_live evals (some c) h = h c refl

-- If nomad has an evaluation of every job, a tick on a sound state never panics and leaves it sound,
-- and then the head of every chain is a blocked evaluation that is kept.
pub on_timer-IsSound :
    (ans : Answers) (s : State)
    → AnswersEvals ans
    → IsSound s
    → (s' : State) × (on_timer ans s ≡ some s')
      × IsSound s'
      × ((cid : String) → IsLiveIf s'.evals (lookup cid s'.chains))
unfolding on_timer
on_timer-IsSound ans s answers v =
    let (u, e, same, w) =
      visit_all_lem ans (keys s.chains) [] (record { state = s; new_evals = []; removed = [] })
        answers (has-keys s.chains) (keys-IsApart [] s.chains v.keyed (λ k h. cc)) (begun s v) in
    (
      record (u.state) { evals = u.new_evals; chains = delete_chains u.removed u.state.chains },
      rw (e, ◌>>=◌),
      record {
        guard = record { valid = w.guard.valid; guarded = w.guard.guarded };
        keyed = delete_chains-IsKeyed u.removed u.state.chains w.keyed;
        chained = λ cid c h. IsLive-IsChain u.new_evals c (ended s u same w cid c h);
      },
      λ cid.
          all_live u.new_evals (lookup cid (delete_chains u.removed u.state.chains))
            (ended s u same w cid),
    )
