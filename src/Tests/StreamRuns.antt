-- ===== src/Tests/StreamRuns.antt =====
-- An event stream of main.go that ends in an error, with numbers in the place of the payloads.
use nomad_ondemand_scaler.Prelude.{ℕ, ◌≡◌, refl, some, none, List, [], ◌∷◌, arith}
use nomad_ondemand_scaler.Stream.{
  Message, failed, events, evaluation, node, allocation, other, Sent, read_stream,
}
use nomad_ondemand_scaler.Stream.Forever.{Attempt, not_opened, opened, before_loop, main_loop}
use nomad_ondemand_scaler.Stream.Forever.Runs.{IsRun, main_loop-IsRun}

abbrev messages : List (Message ℕ ℕ ℕ)
messages =
    events 7 (evaluation (some 1) ∷ node (some 2) ∷ evaluation none ∷ [])
    ∷ events 8 (allocation (some 3) ∷ other ∷ [])
    ∷ failed
    ∷ events 9 (evaluation (some 4) ∷ [])
    ∷ []

abbrev nothing_sent : Sent ℕ ℕ ℕ
nothing_sent = record {
  last_index = 0;
  evals = [];
  nodes = [];
  allocs = [];
  evals_count = 0;
  allocs_count = 0;
}

abbrev attempts : List (Attempt ℕ ℕ ℕ)
attempts = not_opened ∷ opened messages ∷ not_opened ∷ opened [] ∷ []

main_loop-IsRun_example :
    IsRun 0 attempts (before_loop nothing_sent) (main_loop attempts (before_loop nothing_sent))
main_loop-IsRun_example = main_loop-IsRun attempts nothing_sent (omega arith) (omega arith)

from_indexes : (main_loop attempts (before_loop nothing_sent)).opened_at ≡ 0 ∷ 8 ∷ []
unfolding main_loop
from_indexes = refl

last_index_lem : (read_stream messages nothing_sent).last_index ≡ 8
unfolding read_stream
last_index_lem = refl
