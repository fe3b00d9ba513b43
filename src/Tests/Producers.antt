-- ===== src/Tests/Producers.antt =====
-- A generated session, its publication, and an encoded message.
use mathlib.Core.List.Memᴰ.{head, tail}
use making_soa_homework.Base.{
  ℕ, zero, suc, ◌%◌, ◌/◌, String, List, some, none, ◌≡◌, refl, true, [], ◌∷◌, arith,
}
use making_soa_homework.Base.Retry.{attempts}
use making_soa_homework.Base.Exec.{Result, ok, err}
use making_soa_homework.Producer.Events.{
  Stamp, naive, AvroDict, to_avro_dict, MovieEventIn, aware, view_started, view_paused,
  view_resumed, view_finished, tv,
}
use making_soa_homework.Producer.Choices.{digits_from, indexed_names}
use making_soa_homework.Producer.Generator.{
  Draws, InRange, session_events, synthetic_batch, build_synthetic_sequence,
}
use making_soa_homework.Producer.Publish.{
  Attempt, Publisher, publish_once, unreported, failed, partition_key, publish,
}
use making_soa_homework.Producer.Publish.Attempts.{AnswerFits}
use making_soa_homework.Producer.Publish.Delivery.{Delivered, publish-Delivered}
use making_soa_homework.Producer.Sessions.{
  Follows, SearchFirst, synthetic_batch-Follows, build_synthetic_sequence-ok,
}
use making_soa_homework.Producer.Registry.{Bytes, pack_header, encode}

abbrev draws : Draws
draws = record {
  finish_progress = 3600;
  pause_progress = 1800;
  resume_step = 900;
  pauses = true;
  pauses_again = true;
  second_pause_step = 1200;
  second_resume_step = 600;
  finishes = true;
  user_id = "user-2";
  movie_id = "movie-3";
  device_type = tv;
  session_id = "session-1";
  event_id = λ k. k;
  base_time = 1000000000;
  step = λ k. 20;
  likes = true;
  like_step = 15;
  searches = true;
  term = "oscar winners";
}

draws-InRange : InRange draws
unfolding indexed_names
draws-InRange = record {
  finish_low = omega arith;
  finish_high = omega arith;
  pause_low = omega arith;
  pause_high = omega arith;
  resume_low = omega arith;
  resume_high = omega arith;
  second_pause_low = omega arith;
  second_pause_high = omega arith;
  second_resume_low = omega arith;
  second_resume_high = omega arith;
  step_low = λ k. omega arith;
  step_high = λ k. omega arith;
  like_low = omega arith;
  like_high = omega arith;
  user_drawn = tail (head refl);
  movie_drawn = tail (tail (head refl));
  term_drawn = tail (tail (tail (head refl)));
  session_named = ("1", refl);
}

-- The second pause and the end of it are kept before the end of the movie.
session_run :
    session_events draws
    ≡ (view_started, 0)
      ∷ (view_paused, 1800)
      ∷ (view_resumed, 2700)
      ∷ (view_paused, 3570)
      ∷ (view_resumed, 3590)
      ∷ (view_finished, 3600)
      ∷ []
unfolding session_events
session_run = refl

synthetic_batch-Follows_example :
    Follows 0 (synthetic_batch draws) × SearchFirst true (synthetic_batch draws)
synthetic_batch-Follows_example = synthetic_batch-Follows draws draws-InRange (omega arith)

build_synthetic_sequence-ok_example : build_synthetic_sequence draws ≡ ok (synthetic_batch draws)
build_synthetic_sequence-ok_example = build_synthetic_sequence-ok draws draws-InRange

abbrev event : MovieEventIn
event = record {
  event_id = 1;
  user_id = "user-2";
  movie_id = "movie-3";
  event_type = view_started;
  timestamp = aware 1000000000;
  device_type = tv;
  session_id = "session-1";
  progress_seconds = some 0;
  search_query = none;
  schema_version = 1;
}

-- A writer for the runs: the schema, and a byte of the time.
abbrev avro : ℕ → AvroDict → Result String Bytes
avro schema payload = ok (schema ∷ payload.timestamp % 256 ∷ [])

abbrev in_millis : Stamp → ℕ
in_millis (naive t) = t / 1000
in_millis (aware t) = t / 1000

-- The registry is down, then the broker refuses, and then no answer comes in time.
abbrev weather : ℕ → Attempt ℕ
weather zero = record { answer = err "timeout"; refused = none; report = unreported }
weather (suc zero) = record { answer = ok (7, 9); refused = none; report = failed "not leader" }
weather (suc (suc k)) = record { answer = ok (7, 9); refused = none; report = unreported }

abbrev fresh : Publisher ℕ
fresh = record { registry = none; sent = [] }

publish_run : publish avro in_millis "movie_id" event weather fresh ≡ (
  ok "movie-3",
  record {
    registry = some (7, 9);
    sent =
        ("movie-3", 0 ∷ 0 ∷ 0 ∷ 0 ∷ 7 ∷ 9 ∷ 64 ∷ [])
        ∷ ("movie-3", 0 ∷ 0 ∷ 0 ∷ 0 ∷ 7 ∷ 9 ∷ 64 ∷ [])
        ∷ [];
  },
)
unfolding publish attempts publish_once partition_key to_avro_dict encode pack_header
publish_run = refl

weather-AnswerFits : (i : ℕ) → AnswerFits avro (to_avro_dict in_millis event) (weather i).answer
weather-AnswerFits zero = tt
weather-AnswerFits (suc zero) = (omega arith, refl)
weather-AnswerFits (suc (suc k)) = (omega arith, refl)

publish-Delivered_example :
    Delivered avro
      (partition_key "movie_id" event)
      (to_avro_dict in_millis event)
      []
      (publish avro in_millis "movie_id" event weather fresh)
publish-Delivered_example =
    publish-Delivered avro in_millis "movie_id" event weather fresh 2 (7, 9) tt weather-AnswerFits
      (omega arith) refl refl refl

-- A writer that takes a payload of fewer than three bytes.
abbrev written_small : ℕ → List ℕ → Result String Bytes
written_small schema (a ∷ b ∷ c ∷ rest) = err "too long"
written_small schema bytes = ok (schema ∷ bytes)

-- The registry is not asked again: its answer here would be an error.
encode_run :
    encode written_small (err "down") (4 ∷ []) (some (258, 9))
    ≡ (ok (0 ∷ 0 ∷ 0 ∷ 1 ∷ 2 ∷ 9 ∷ 4 ∷ []), some (258, 9))
unfolding encode pack_header
encode_run = refl

first_message :
    encode written_small (ok (258, 9)) (4 ∷ []) none
    ≡ (ok (0 ∷ 0 ∷ 0 ∷ 1 ∷ 2 ∷ 9 ∷ 4 ∷ []), some (258, 9))
unfolding encode pack_header
first_message = refl

names_run : indexed_names "user-" 9 2 ≡ "user-9" ∷ "user-10" ∷ []
unfolding indexed_names digits_from
names_run = refl
