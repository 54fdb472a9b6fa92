-- ===== src/Stream.antt =====
-- The main loop of main.go: nomad's event stream, what of it goes to the channels, and the pauses before
-- the stream is opened again. The counters are those of Stat.antt.
pub mod Delays
pub mod Read
pub mod Forever
use nomad_ondemand_scaler.Stat.{inc}
use nomad_ondemand_scaler.Prelude.{
  ℕ, zero, suc, ◌+◌, ◌%◌, ◌^◌, Option, none, some, List, [], ◌∷◌, ◌++◌, if◌then◌else◌, ltb,
}

-- Seconds.
abbrev pub first_retry_time : ℕ
first_retry_time = 5

unfoldable pub next_retry_time : ℕ → ℕ
next_retry_time t = if ltb 60 (t + 5) then 5 else t + 5

-- After that many failures.
unfoldable pub retry_time : ℕ → ℕ
unfolding next_retry_time
retry_time zero = first_retry_time
retry_time (suc k) = next_retry_time (retry_time k)

-- The payload of an event, where `none` is one that cannot be decoded.
pub data StreamEvent (E N A : Type 0) : Type 0 where
  evaluation : Option E → StreamEvent E N A
  node : Option N → StreamEvent E N A
  allocation : Option A → StreamEvent E N A
  other : StreamEvent E N A

-- What comes over the stream: an error, or events with their index.
pub data Message (E N A : Type 0) : Type 0 where
  failed : Message E N A
  events : ℕ → List (StreamEvent E N A) → Message E N A

-- What has been sent to each channel, oldest first.
pub record Sent (E N A : Type 0) : Type 0 where
  pub last_index : ℕ
  pub evals : List E
  pub nodes : List N
  pub allocs : List A
  pub evals_count : ℕ
  pub allocs_count : ℕ

module _ {E N A : Type 0} where
  unfoldable pub on_event : StreamEvent E N A → Sent E N A → Sent E N A
  unfolding inc
  on_event (evaluation (some e)) s = record s {
    evals = s.evals ++ e ∷ [];
    evals_count = inc s.evals_count;
  }
  on_event (node (some n)) s = record s { nodes = s.nodes ++ n ∷ [] }
  on_event (allocation (some a)) s = record s {
    allocs = s.allocs ++ a ∷ [];
    allocs_count = inc s.allocs_count;
  }
  on_event _ s = s

  unfoldable pub on_events : List (StreamEvent E N A) → Sent E N A → Sent E N A
  unfolding on_event
  on_events [] s = s
  on_events (e ∷ rest) s = on_events rest (on_event e s)

  -- The loop ends at the first error.
  unfoldable pub read_stream : List (Message E N A) → Sent E N A → Sent E N A
  unfolding on_events
  read_stream [] s = s
  read_stream (failed ∷ rest) s = s
  read_stream (events index es ∷ rest) s =
      read_stream rest (on_events es (record s { last_index = index }))
