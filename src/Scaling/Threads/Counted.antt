-- ===== src/Scaling/Threads/Counted.antt =====
-- The counter of free threads of stateStat.go beside the goroutines of scalingAction.go.
use nomad_ondemand_scaler.Prelude.{
  ℕ, zero, suc, ◌+◌, ◌^◌, ◌≤◌, ◌<◌, ◌≡◌, refl, ap, ◌∙◌, Option, none, some, List, [], ◌∷◌, length,
  arith,
}
use nomad_ondemand_scaler.Prelude.Int.{pos, signed_64, signed_64_small}
use nomad_ondemand_scaler.Stat.{
  StateStat, inc, dec, inc_free_scaling_threads, dec_free_scaling_threads, get_free_scaling_threads,
  get_total_scaling_threads, set_total_scaling_threads, inc_scaling_timeouts,
}
use nomad_ondemand_scaler.Scaling.Threads.{
  Threads, Busy, Step, Reach, UpdateError, deadline_exceeded, canceled, other, on_update,
  update_error, launched, starts, takes, plans, updates, reports, returns, evaluates, here, next,
  updating,
}
use nomad_ondemand_scaler.Scaling.Threads.Stages.{
  fresh, length-set_stage, fresh-plans, fresh-updates, fresh-reports,
}

-- The counter, and how many goroutines there are.
record IsCounted (total : ℕ) (w : Threads) : Type 0 where
  free : w.stat.free_scaling_threads ≡ w.idle + fresh w.busy
  all_of : w.idle + length w.busy + w.returning ≤ total
  total_is : w.stat.total_scaling_threads ≡ pos total

inc_lem : (n : ℕ) → n < 2 ^ 63 → inc n ≡ suc n
unfolding inc
inc_lem n h = omega arith

dec_lem : (n : ℕ) → zero < n → n < 2 ^ 63 → suc (dec n) ≡ n
unfolding dec
dec_lem n h g = omega arith

fresh-le : (busy : List Busy) → fresh busy ≤ length busy
fresh-le [] = omega arith
fresh-le (b ∷ busy) = ground (arith, fresh-le busy)

on_update-fields :
    (answer : Option UpdateError) (s : StateStat)
    → ((on_update answer s).free_scaling_threads ≡ s.free_scaling_threads)
      × ((on_update answer s).total_scaling_threads ≡ s.total_scaling_threads)
unfolding on_update inc_scaling_timeouts
on_update-fields none s = (refl, refl)
on_update-fields (some deadline_exceeded) s = (refl, refl)
on_update-fields (some canceled) s = (refl, refl)
on_update-fields (some other) s = (refl, refl)

Step-IsCounted :
    (total : ℕ) (w v : Threads)
    → total < 2 ^ 63
    → Step total w v
    → IsCounted total w
    → IsCounted total v
unfolding inc_free_scaling_threads dec_free_scaling_threads
Step-IsCounted total w v small (starts room) g = record {
  free = omega (arith, g.free, fresh-le w.busy, inc_lem w.stat.free_scaling_threads);
  all_of = omega (arith, room);
  total_is = g.total_is;
}
Step-IsCounted total w v small (takes idle tokens q event one h) g = record {
  free = omega (arith, g.free, one);
  all_of = omega (arith, g.all_of, one);
  total_is = g.total_is;
}
Step-IsCounted total w v small (plans i id pools at) g = record {
  free = omega (
    arith,
    g.free,
    g.all_of,
    fresh-le w.busy,
    fresh-plans i id pools w.busy at,
    dec_lem w.stat.free_scaling_threads,
  );
  all_of = omega (arith, g.all_of, length-set_stage i (updating pools) w.busy);
  total_is = g.total_is;
}
Step-IsCounted total w v small (updates i id pool rest went_on ctx ending at) g =
    let (same, same_total) = on_update-fields (update_error went_on ctx ending) w.stat in
    record {
      free = omega (arith, same, g.free, fresh-updates i id (pool ∷ rest) rest w.busy at);
      all_of = omega (arith, g.all_of, length-set_stage i (updating rest) w.busy);
      total_is = same_total ∙ g.total_is;
    }
Step-IsCounted total w v small (reports i id at room) g =
    let (same, one) = fresh-reports i id w.busy at in
    record {
      free = omega (arith, same, g.free);
      all_of = omega (arith, g.all_of, one);
      total_is = g.total_is;
    }
Step-IsCounted total w v small (returns returning one) g = record {
  free = omega (arith, g.free, g.all_of, fresh-le w.busy, one, inc_lem w.stat.free_scaling_threads);
  all_of = omega (arith, g.all_of, one);
  total_is = g.total_is;
}
Step-IsCounted total w v small (evaluates s step same) g = record {
  free = g.free;
  all_of = g.all_of;
  total_is = g.total_is;
}

launched-IsCounted : (total : ℕ) → IsCounted total (launched total)
unfolding launched set_total_scaling_threads
launched-IsCounted total = record { free = refl; all_of = omega arith; total_is = refl }

Reach-IsCounted :
    (total : ℕ) (w : Threads) → total < 2 ^ 63 → Reach total (launched total) w → IsCounted total w
Reach-IsCounted total w small here = launched-IsCounted total
Reach-IsCounted total w small (next steps step) =
    Step-IsCounted total _ w small step (Reach-IsCounted total _ small steps)

-- Where fewer than 2^63 goroutines are to be started, after any steps from the start on: the number of free
-- threads that is reported is that of the goroutines that wait for an event or have only just taken one,
-- never negative and never more than the total that is reported, which is the number to be started.
pub free_threads :
    (total : ℕ) (w : Threads)
    → total < 2 ^ 63
    → Reach total (launched total) w
    → (get_free_scaling_threads w.stat ≡ pos (w.idle + fresh w.busy))
      × (w.idle + fresh w.busy ≤ total)
      × (get_total_scaling_threads w.stat ≡ pos total)
unfolding get_free_scaling_threads
free_threads total w small steps =
    let g = Reach-IsCounted total w small steps in
    let few : w.idle + fresh w.busy ≤ total = omega (arith, g.all_of, fresh-le w.busy) in
    (
      ap signed_64 g.free ∙ signed_64_small (w.idle + fresh w.busy) (omega (arith, few, small)),
      few,
      g.total_is,
    )
