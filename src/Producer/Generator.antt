-- ===== src/Producer/Generator.antt =====
-- The synthetic sessions of dz_5/producer-service/app/generator.py. The draws of `random` are an
-- argument: a comparison of `random.random()` is its outcome.
use Prim.Native.String.{◌++◌ as ◌<>◌}
use mathlib.Core.List.{Memᴰ}
use making_soa_homework.Base.{
  ℕ, suc, ◌+◌, ◌-◌, ◌*◌, ◌≤◌, ◌≡◌, min, Bool, Option, none, some, String, List, [], ◌∷◌, ◌++◌,
  if◌then◌else◌,
}
use making_soa_homework.Base.Exec.{Result}
use making_soa_homework.Producer.Choices.{users, movies, search_terms}
use making_soa_homework.Producer.Events.{
  EventType, view_started, view_finished, view_paused, view_resumed, liked, searched, DeviceType,
  MovieEventIn, aware, ValidationError, validate_all,
}

pub record Draws : Type 0 where
  pub finish_progress : ℕ
  pub pause_progress : ℕ
  pub resume_step : ℕ
  pub pauses : Bool
  pub pauses_again : Bool
  pub second_pause_step : ℕ
  pub second_resume_step : ℕ
  pub finishes : Bool
  pub user_id : String
  pub movie_id : String
  pub device_type : DeviceType
  pub session_id : String
  pub event_id : ℕ → ℕ
  pub base_time : ℕ
  pub step : ℕ → ℕ
  pub likes : Bool
  pub like_step : ℕ
  pub searches : Bool
  pub term : String

-- The ranges of the calls of `randint`, the lists of the calls of `choice`, and the session's name.
pub record InRange (r : Draws) : Type 0 where
  pub finish_low : 3600 ≤ r.finish_progress
  pub finish_high : r.finish_progress ≤ 8000
  pub pause_low : 120 ≤ r.pause_progress
  pub pause_high : r.pause_progress ≤ min 1800 (r.finish_progress - 300)
  pub resume_low : 60 ≤ r.resume_step
  pub resume_high : r.resume_step ≤ 900
  pub second_pause_low : 90 ≤ r.second_pause_step
  pub second_pause_high : r.second_pause_step ≤ 1200
  pub second_resume_low : 30 ≤ r.second_resume_step
  pub second_resume_high : r.second_resume_step ≤ 600
  pub step_low : (k : ℕ) → 20 ≤ r.step k
  pub step_high : (k : ℕ) → r.step k ≤ 180
  pub like_low : 15 ≤ r.like_step
  pub like_high : r.like_step ≤ 180
  pub user_drawn : Memᴰ r.user_id users
  pub movie_drawn : Memᴰ r.movie_id movies
  pub term_drawn : Memᴰ r.term search_terms
  pub session_named : (uuid : String) × (r.session_id ≡ "session-" <> uuid)

abbrev pub resume_progress : Draws → ℕ
resume_progress r = min (r.finish_progress - 60) (r.pause_progress + r.resume_step)

abbrev pub second_pause : Draws → ℕ
second_pause r = min (r.finish_progress - 30) (resume_progress r + r.second_pause_step)

abbrev pub second_resume : Draws → ℕ
second_resume r = min (r.finish_progress - 10) (second_pause r + r.second_resume_step)

unfoldable pub session_events : Draws → List (EventType × ℕ)
session_events r =
    (view_started, 0)
      ∷ (if r.pauses
          then (view_paused, r.pause_progress) ∷ (view_resumed, resume_progress r) ∷ []
          else [])
    ++ (if r.pauses_again
        then (view_paused, second_pause r) ∷ (view_resumed, second_resume r) ∷ []
        else [])
    ++ (if r.finishes then (view_finished, r.finish_progress) ∷ [] else [])

abbrev pub event_of : Draws → ℕ → EventType → ℕ → ℕ → Option String → MovieEventIn
event_of r id kind time progress query = record {
  event_id = r.event_id id;
  user_id = r.user_id;
  movie_id = r.movie_id;
  event_type = kind;
  timestamp = aware time;
  device_type = r.device_type;
  session_id = r.session_id;
  progress_seconds = some progress;
  search_query = query;
  schema_version = 1;
}

-- The loop over the session, and the LIKED event behind it: `last` is the progress of the event
-- before, `time` the value of `current_time`, `k` counts the events.
unfoldable pub watch_events : Draws → ℕ → ℕ → ℕ → List (EventType × ℕ) → List MovieEventIn
watch_events r k time last [] =
    if r.likes then event_of r k liked (time + r.like_step * 1000000) last none ∷ [] else []
watch_events r k time last ((kind, progress) ∷ rest) =
    event_of r k kind time progress none
    ∷ watch_events r (suc k) (time + r.step k * 1000000) progress rest

-- `timedelta(seconds=30)` before the session, where `base_time` is later than that.
unfoldable pub synthetic_batch : Draws → List MovieEventIn
synthetic_batch r =
    let watched = watch_events r 1 r.base_time 0 (session_events r) in
    if r.searches
    then event_of r 0 searched (r.base_time - 30000000) 0 (some r.term) ∷ watched
    else watched

unfoldable pub build_synthetic_sequence : Draws → Result ValidationError (List MovieEventIn)
build_synthetic_sequence r = validate_all (synthetic_batch r)
