-- ===== src/Producer/Events.antt =====
-- `MovieEventIn` and its validation: dz_5/producer-service/app/models.py.
use text.Mathlib.Text.{◌==◌ as str_eq}
use making_soa_homework.Base.{
  ℕ, Bool, true, false, Option, none, some, String, List, [], ◌∷◌, ◌&&◌, ◌||◌,
}
use making_soa_homework.Base.Exec.{Result, ok, err}

pub data EventType : Type 0 where
  view_started view_finished view_paused view_resumed liked searched : EventType

pub data DeviceType : Type 0 where
  mobile desktop tv tablet : DeviceType

-- A `datetime`: without a zone, or with one, as its instant; in microseconds.
pub data Stamp : Type 0 where
  naive aware : ℕ → Stamp

pub record MovieEventIn : Type 0 where
  pub event_id : ℕ
  pub user_id : String
  pub movie_id : String
  pub event_type : EventType
  pub timestamp : Stamp
  pub device_type : DeviceType
  pub session_id : String
  pub progress_seconds : Option ℕ
  pub search_query : Option String
  -- A number that the client may set, 1 otherwise.
  pub schema_version : ℕ

pub data ValidationError : Type 0 where
  empty_field progress_required search_query_required : ValidationError

abbrev pub requires_progress : EventType → Bool
requires_progress liked = false
requires_progress searched = false
requires_progress _ = true

abbrev pub is_searched : EventType → Bool
is_searched searched = true
is_searched _ = false

abbrev pub is_none : Option ℕ → Bool
is_none none = true
is_none (some n) = false

-- `not self.search_query`
abbrev pub no_query : Option String → Bool
no_query none = true
no_query (some q) = str_eq q ""

-- A stamp without a zone is taken for UTC.
abbrev pub in_utc : Stamp → Stamp
in_utc (naive t) = aware t
in_utc (aware t) = aware t

abbrev check :
    Bool
    → ValidationError
    → Result ValidationError MovieEventIn
    → Result ValidationError MovieEventIn
check true e rest = err e
check false e rest = rest

-- The fields' `min_length`, and then `validate_payload`.
unfoldable pub validate : MovieEventIn → Result ValidationError MovieEventIn
validate e =
    check (str_eq e.user_id "" || str_eq e.movie_id "" || str_eq e.session_id "") empty_field (
      check (requires_progress e.event_type && is_none e.progress_seconds) progress_required (
        check (is_searched e.event_type && no_query e.search_query) search_query_required
          (ok (record e { timestamp = in_utc e.timestamp }))))

-- Every event of a batch is validated when it is made.
abbrev joined :
    Result ValidationError MovieEventIn
    → Result ValidationError (List MovieEventIn)
    → Result ValidationError (List MovieEventIn)
joined (err e) rest = err e
joined (ok a) (err e) = err e
joined (ok a) (ok l) = ok (a ∷ l)

unfoldable pub validate_all : List MovieEventIn → Result ValidationError (List MovieEventIn)
validate_all [] = ok []
validate_all (e ∷ l) = joined (validate e) (validate_all l)

-- The values of the two enumerations.
abbrev pub event_type_text : EventType → String
event_type_text view_started = "VIEW_STARTED"
event_type_text view_finished = "VIEW_FINISHED"
event_type_text view_paused = "VIEW_PAUSED"
event_type_text view_resumed = "VIEW_RESUMED"
event_type_text liked = "LIKED"
event_type_text searched = "SEARCHED"

abbrev pub device_type_text : DeviceType → String
device_type_text mobile = "MOBILE"
device_type_text desktop = "DESKTOP"
device_type_text tv = "TV"
device_type_text tablet = "TABLET"

pub record AvroDict : Type 0 where
  pub event_id : ℕ
  pub user_id : String
  pub movie_id : String
  pub event_type : String
  pub timestamp : ℕ
  pub device_type : String
  pub session_id : String
  pub progress_seconds : Option ℕ
  pub search_query : Option String
  pub schema_version : ℕ

-- `millis` is `int(self.timestamp.timestamp() * 1000)`, which goes through a binary float.
unfoldable pub to_avro_dict : (Stamp → ℕ) → MovieEventIn → AvroDict
to_avro_dict millis e = record {
  event_id = e.event_id;
  user_id = e.user_id;
  movie_id = e.movie_id;
  event_type = event_type_text e.event_type;
  timestamp = millis e.timestamp;
  device_type = device_type_text e.device_type;
  session_id = e.session_id;
  progress_seconds = e.progress_seconds;
  search_query = e.search_query;
  schema_version = e.schema_version;
}
