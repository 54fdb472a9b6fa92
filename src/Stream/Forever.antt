-- ===== src/Stream/Forever.antt =====
-- The main loop of main.go, attempt by attempt to open the event stream, and the evaluations that main.go
-- sends before it.
pub mod Runs
use nomad_ondemand_scaler.Prelude.{ℕ, Bool, true, false, Option, none, some, List, [], ◌∷◌, ◌++◌}
use nomad_ondemand_scaler.Stream.{Message, Sent, first_retry_time, next_retry_time, read_stream}

-- The stream cannot be opened, or it brings messages until it is closed.
pub data Attempt (E N A : Type 0) : Type 0 where
  not_opened : Attempt E N A
  opened : List (Message E N A) → Attempt E N A

-- `pauses` are those made so far, and `opened_at` the indexes from which the stream was opened.
pub record Loop (E N A : Type 0) : Type 0 where
  pub sent : Sent E N A
  pub retry : ℕ
  pub pauses : List ℕ
  pub opened_at : List ℕ

module _ {E N A : Type 0} where
  -- The evaluations of each namespace, where `none` is an error, which ends the program. The answer tells
  -- whether it goes on.
  unfoldable pub send_listed : List (Option (List E)) → Sent E N A → Sent E N A × Bool
  send_listed [] s = (s, true)
  send_listed (none ∷ rest) s = (s, false)
  send_listed (some evals ∷ rest) s = send_listed rest (record s { evals = s.evals ++ evals })

  abbrev pub before_loop : Sent E N A → Loop E N A
  before_loop s = record { sent = s; retry = first_retry_time; pauses = []; opened_at = [] }

  unfoldable pub attempt : Attempt E N A → Loop E N A → Loop E N A
  unfolding next_retry_time read_stream
  attempt not_opened l = record l {
    pauses = l.pauses ++ l.retry ∷ [];
    retry = next_retry_time l.retry;
  }
  attempt (opened messages) l = record l {
    sent = read_stream messages l.sent;
    opened_at = l.opened_at ++ l.sent.last_index ∷ [];
  }

  unfoldable pub main_loop : List (Attempt E N A) → Loop E N A → Loop E N A
  unfolding attempt
  main_loop [] l = l
  main_loop (a ∷ attempts) l = main_loop attempts (attempt a l)
