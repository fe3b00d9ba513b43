-- ===== src/Market/Http/Validation.antt =====
-- `validation_error_handler`: дз_2/app/src/main.py. The errors are those that pydantic lists, and
-- `digits` is `str` of a position.
use text.Mathlib.Text.{◌==◌ as str_eq}
use Prim.Native.String.{◌++◌ as ◌<>◌}
use making_soa_homework.Base.{
  ℕ, Bool, false, not, Option, none, some, String, List, [], ◌∷◌, map, select,
}

-- A part of `loc`: a name, or a position in a list.
pub data Part : Type 0 where
  named : String → Part
  position : ℕ → Part

-- An error, with `loc` and `msg` where it has them.
pub record ErrorEntry : Type 0 where
  pub loc : Option (List Part)
  pub msg : Option String

pub record FieldError : Type 0 where
  pub field : String
  pub message : String

pub record ValidationAnswer : Type 0 where
  pub status_code : ℕ
  pub error_code : String
  pub message : String
  pub fields : List FieldError

-- `part != "body"`
abbrev pub is_body : Part → Bool
is_body (named s) = str_eq s "body"
is_body (position n) = false

-- `".".join`
unfoldable pub dotted : List String → String
dotted [] = ""
dotted (s ∷ []) = s
dotted (s ∷ t ∷ rest) = s <> "." <> dotted (t ∷ rest)

abbrev pub or_empty : Option (List Part) → List Part
or_empty none = []
or_empty (some parts) = parts

module _ (digits : ℕ → String) where
  abbrev pub part_text : Part → String
  part_text (named s) = s
  part_text (position n) = digits n

  -- `".".join(loc) if loc else "body"`
  abbrev pub field_of : List String → String
  field_of [] = "body"
  field_of (s ∷ rest) = dotted (s ∷ rest)

  abbrev pub message_of : Option String → String
  message_of none = "Invalid value"
  message_of (some m) = m

  abbrev pub field_error : ErrorEntry → FieldError
  field_error e = record {
    field = field_of (map part_text (select (λ p. not (is_body p)) (or_empty e.loc)));
    message = message_of e.msg;
  }

  unfoldable pub validation_error_handler : List ErrorEntry → ValidationAnswer
  validation_error_handler errors = record {
    status_code = 400;
    error_code = "VALIDATION_ERROR";
    message = "Validation error";
    fields = map field_error errors;
  }
