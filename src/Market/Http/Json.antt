-- ===== src/Market/Http/Json.antt =====
-- What `json.loads` makes of a body. A dictionary is the list of its members.
use text.Mathlib.Text.{◌==◌ as str_eq}
use text.Mathlib.TextEquality.{eq_iff}
use making_soa_homework.Base.{ℕ, ◌≡◌, Bool, Option, none, some, String, ◌||◌, if◌then◌else◌, arith}

mutual
  pub data Json : Type 0 where
    null : Json
    flag : Bool → Json
    number : ℕ → Json
    letters : String → Json
    array : Elements → Json
    object : Members → Json

  pub data Elements : Type 0 where
    end : Elements
    element : Json → Elements → Elements

  pub data Members : Type 0 where
    empty : Members
    member : String → Json → Members → Members

-- `body_json.get(key)`
unfoldable pub lookup : String → Members → Option Json
lookup k empty = none
lookup k (member j v rest) = let found = lookup k rest in if str_eq j k then some v else found

-- `if key in body_json: body_json[key] = "***"`
unfoldable pub hide : String → Members → Members
hide k empty = empty
hide k (member j v rest) =
    let hidden = hide k rest in
    if str_eq j k then member j (letters "***") rest else member j v hidden

-- `for key in ["password", "refresh_token"]`
unfoldable pub mask : Members → Members
unfolding hide
mask body = hide "refresh_token" (hide "password" body)

abbrev pub stars : Option Json → Option Json
stars none = none
stars (some v) = some (letters "***")

lookup-hide :
    (k j : String) (body : Members)
    → lookup k (hide j body) ≡ (if str_eq j k then stars (lookup k body) else lookup k body)
unfolding lookup hide
lookup-hide k j empty = ground arith
lookup-hide k j (member i v rest) =
    ground (arith, lookup-hide k j rest, eq_iff i j, eq_iff i k, eq_iff j k)

-- A secret of the body is masked, and everything else is as it was.
pub lookup-mask :
    (k : String) (body : Members)
    → lookup k (mask body) ≡ (
        if str_eq "password" k || str_eq "refresh_token" k
        then stars (lookup k body)
        else lookup k body)
unfolding mask
lookup-mask k body =
    ground
      (arith, lookup-hide k "refresh_token" (hide "password" body), lookup-hide k "password" body)
