-- ===== src/Producer/Choices.antt =====
-- What `random.choice` draws from: the constants of dz_5/producer-service/app/generator.py.
use Prim.Native.String.{◌++◌ as ◌<>◌, slice}
use making_soa_homework.Base.{ℕ, zero, suc, ◌/◌, ◌%◌, String, List, [], ◌∷◌, ltb, if◌then◌else◌}

-- The digit of a number below ten.
abbrev digit : ℕ → String
digit n = slice "0123456789" n (suc n)

-- A number in an f-string; as many steps as the number is enough for its digits.
unfoldable pub digits_from : ℕ → ℕ → String
digits_from zero n = ""
digits_from (suc fuel) n =
    let rest = digits_from fuel (n / 10) in if ltb n 10 then digit n else rest <> digit (n % 10)

abbrev decimal : ℕ → String
decimal n = digits_from (suc n) n

-- `[f"user-{index}" for index in range(first, first + n)]`
unfoldable pub indexed_names : String → ℕ → ℕ → List String
unfolding digits_from
indexed_names name first zero = []
indexed_names name first (suc n) = (name <> decimal first) ∷ indexed_names name (suc first) n

abbrev pub users : List String
users = indexed_names "user-" 1 200

abbrev pub movies : List String
movies = indexed_names "movie-" 1 80

abbrev pub search_terms : List String
search_terms =
    "sci-fi" ∷ "comedy" ∷ "drama" ∷ "oscar winners" ∷ "crime thriller" ∷ "family movies" ∷ "marvel"
    ∷ "christopher nolan" ∷ "animated movies" ∷ "romantic comedies" ∷ "series to binge" ∷ "top imdb"
    ∷ "new releases" ∷ "80s classics" ∷ "detective series" ∷ "space opera" ∷ "historical drama"
    ∷ "cyberpunk" ∷ "korean thriller" ∷ "anime" ∷ []
