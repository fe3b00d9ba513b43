-- ===== src/Producer/Sessions.antt =====
-- The generated sessions make sense: each event is valid, and time and progress go forward.
use text.Mathlib.Text.{◌==◌ as str_eq}
use making_soa_homework.Base.{
  ℕ, suc, ◌+◌, ◌-◌, ◌*◌, ◌≤◌, ◌<◌, ◌≡◌, refl, sym, subst, Bool, true, false, none, some, List, [],
  ◌∷◌, arith, inl, inr, Bool-cases,
}
use making_soa_homework.Base.Exec.{ok}
use making_soa_homework.Producer.Events.{
  EventType, liked, searched, MovieEventIn, aware, naive, is_searched, validate, validate_all,
}
use making_soa_homework.Producer.Names.{prefixed_full, indexed_names_full, term_full}
use making_soa_homework.Producer.Generator.{
  Draws, InRange, session_events, event_of, watch_events, synthetic_batch, build_synthetic_sequence,
}

-- From `low` on the progress never falls, and never passes `high`.
abbrev pub Climbs : ℕ → ℕ → List (EventType × ℕ) → Type 0
Climbs low high [] = low ≤ high
Climbs low high ((kind, p) ∷ l) = (low ≤ p) × Climbs p high l

-- If the draws are in their ranges, then the progress of a session never falls, and never passes
-- the end of the movie.
pub session_events-Climbs : (r : Draws) → InRange r → Climbs 0 r.finish_progress (session_events r)
unfolding session_events
session_events-Climbs r h = ground arith

abbrev pub instant : MovieEventIn → ℕ
instant e = elim e.timestamp [ naive t ↦ t | aware t ↦ t ]

-- Every event is later than `t`, and than the events before it.
abbrev pub Follows : ℕ → List MovieEventIn → Type 0
Follows t [] = Unit
Follows t (e ∷ l) = (t < instant e) × Follows (instant e) l

watch_events-Follows :
    (r : Draws) (k time last t : ℕ) (l : List (EventType × ℕ))
    → InRange r
    → t < time
    → Follows t (watch_events r k time last l)
unfolding watch_events
watch_events-Follows r k time last t [] h lt = ground arith
watch_events-Follows r k time last t ((kind, p) ∷ l) h lt = (
  lt,
  watch_events-Follows r (suc k) (time + r.step k * 1000000) p time l h
      (omega (arith, h.step_low k)),
)

-- A session holds no search.
abbrev Watches : List (EventType × ℕ) → Type 0
Watches [] = Unit
Watches ((kind, p) ∷ l) = (is_searched kind ≡ false) × Watches l

session_events-Watches : (r : Draws) → Watches (session_events r)
unfolding session_events
session_events-Watches r = ground arith

-- None of the events is a search.
abbrev pub NoSearch : List MovieEventIn → Type 0
NoSearch [] = Unit
NoSearch (e ∷ l) = (is_searched e.event_type ≡ false) × NoSearch l

-- The first event is the search, where there is one, and the only one.
abbrev pub SearchFirst : Bool → List MovieEventIn → Type 0
SearchFirst true [] = ⊥
SearchFirst true (e ∷ l) = (is_searched e.event_type ≡ true) × NoSearch l
SearchFirst false l = NoSearch l

watch_events-NoSearch :
    (r : Draws) (k time last : ℕ) (l : List (EventType × ℕ))
    → Watches l
    → NoSearch (watch_events r k time last l)
unfolding watch_events
watch_events-NoSearch r k time last [] w = ground arith
watch_events-NoSearch r k time last ((kind, p) ∷ l) w =
    (w.0, watch_events-NoSearch r (suc k) (time + r.step k * 1000000) p l w.1)

-- If the draws are in their ranges, and the base time is more than 30 seconds from the epoch, then
-- the events of a batch come in strictly rising order of time. Where the batch has a search, the
-- search is the first event, and no other event is one.
pub synthetic_batch-Follows :
    (r : Draws)
    → InRange r
    → 30000000 < r.base_time
    → Follows 0 (synthetic_batch r) × SearchFirst r.searches (synthetic_batch r)
unfolding synthetic_batch
synthetic_batch-Follows r h late =
    let none_else =
      watch_events-NoSearch r 1 r.base_time 0 (session_events r) (session_events-Watches r) in
    elim (Bool-cases r.searches) [
      | inl yes_search ↦ simp yes_search (
        (
          omega arith,
          watch_events-Follows r 1 r.base_time 0 (r.base_time - 30000000) (session_events r) h
              (omega arith),
        ),
        (refl, none_else),
      )
      | inr no_search ↦
          simp no_search
            (watch_events-Follows r 1 r.base_time 0 0 (session_events r) h (omega arith), none_else)
    ]

-- The names that the draws give an event.
abbrev Named : Draws → Type 0
Named r =
    (str_eq r.user_id "" ≡ false)
    × (str_eq r.movie_id "" ≡ false)
    × (str_eq r.session_id "" ≡ false)

valid_watch :
    (r : Draws) (id : ℕ) (kind : EventType) (time progress : ℕ)
    → Named r
    → is_searched kind ≡ false
    → validate (event_of r id kind time progress none) ≡ ok (event_of r id kind time progress none)
unfolding validate
valid_watch r id kind time progress named watch = ground arith

valid_search :
    (r : Draws) (id time progress : ℕ)
    → Named r
    → str_eq r.term "" ≡ false
    → validate (event_of r id searched time progress (some r.term))
      ≡ ok (event_of r id searched time progress (some r.term))
unfolding validate
valid_search r id time progress named full = ground arith

valid_events :
    (r : Draws) (k time last : ℕ) (l : List (EventType × ℕ))
    → Named r
    → Watches l
    → validate_all (watch_events r k time last l) ≡ ok (watch_events r k time last l)
unfolding validate_all watch_events
valid_events r k time last [] named w =
    ground (arith, valid_watch r k liked (time + r.like_step * 1000000) last named refl)
valid_events r k time last ((kind, p) ∷ l) named w = ground (
  arith,
  valid_watch r k kind time p named w.0,
  valid_events r (suc k) (time + r.step k * 1000000) p l named w.1,
)

drawn_names : (r : Draws) → InRange r → Named r
drawn_names r h =
    let (uuid, named) = h.session_named in
    (
      indexed_names_full "user-" r.user_id 1 200 (omega arith) h.user_drawn,
      indexed_names_full "movie-" r.movie_id 1 80 (omega arith) h.movie_drawn,
      subst (λ s. str_eq s "" ≡ false) (sym named) (prefixed_full "session-" uuid (omega arith)),
    )

-- If the draws are in their ranges and lists, then no event of a batch is refused.
pub build_synthetic_sequence-ok :
    (r : Draws) → InRange r → build_synthetic_sequence r ≡ ok (synthetic_batch r)
unfolding build_synthetic_sequence synthetic_batch validate_all
build_synthetic_sequence-ok r h =
    let names = drawn_names r h in
    let watched =
      valid_events r 1 r.base_time 0 (session_events r) names (session_events-Watches r) in
    let found = valid_search r 0 (r.base_time - 30000000) 0 names (term_full r.term h.term_drawn) in
    elim (Bool-cases r.searches) [
      | inl yes_search ↦ simp yes_search (ground (arith, watched, found))
      | inr no_search ↦ simp no_search watched
    ]
