-- ===== src/Request/Errors.antt =====
-- What the conversion throws, the JSON objects it builds, and what it takes from the run time.
use llmrelay_service.Base.{
  ℕ, Bool, false, Option, none, some, List, [], ◌∷◌, ◌++◌, if◌then◌else◌, Text, codes, ◌==◌,
  list_eq, nat_eq, ℤ, of_ℕ, Json, str, arr, obj, Elems, nil, cons, Props, end, prop, Result, failed,
  done,
}

-- `ResponsesChatCompatError`; every one has the status 400.
pub record CompatError : Type 0 where
  pub status : ℕ
  pub message : Text
  pub code : Option Text
  pub param : Option Text

-- What is thrown: an error of the conversion, or an `Error` of the run time with its message.
pub data Thrown : Type 0 where
  refused : CompatError → Thrown
  raised : Text → Thrown

-- `createError`
unfoldable pub create_error : Text → Option Text → CompatError
create_error message param = record { status = 400; message = message; code = none; param = param }

abbrev pub refuse {ℓ} : {A : Type ℓ} → Text → Text → Result Thrown A
refuse message param = failed (refused (create_error message (some param)))

-- What the run time does: `String(value)` of a number and of a value, which throws for an object
-- that cannot be made a string, `JSON.stringify`, and `new URL(text).hostname`.
pub record Runtime : Type 0 where
  pub number_text : ℤ → Text
  pub to_string : Json → Result Text Text
  pub stringify : Json → Text
  pub hostname : Text → Option Text

unfoldable pub raising : Result Text Text → Result Thrown Text
raising (failed message) = failed (raised message)
raising (done t) = done t

-- `String(value)`
unfoldable pub to_text : Runtime → Json → Result Thrown Text
unfolding raising
to_text runtime v = raising (runtime.to_string v)

-- The text of `${prefix}[${index}]`
unfoldable pub indexed : Runtime → Text → ℕ → Text
indexed runtime prefix index = prefix ++ codes "[" ++ runtime.number_text (of_ℕ index) ++ codes "]"

-- `value === 'name'`
unfoldable pub is_text : Text → Option Json → Bool
is_text name (some (str t)) = t == name
is_text name _ = false

-- An array of the values of a list
unfoldable pub from_list : List Json → Elems
from_list [] = nil
from_list (v ∷ vs) = cons v (from_list vs)

abbrev pub array : List Json → Json
array vs = arr (from_list vs)

abbrev pub objects : List Props → List Json
objects [] = []
objects (ps ∷ pss) = obj ps ∷ objects pss

-- `record[name] = value`
unfoldable pub assign : Text → Json → Props → Props
assign name v end = prop name v end
assign name v (prop other held ps) =
    if other == name then prop name v ps else prop other held (assign name v ps)

-- `if (value !== undefined) record[name] = value`
unfoldable pub assign_some : Text → Option Json → Props → Props
unfolding assign
assign_some name none ps = ps
assign_some name (some v) ps = assign name v ps
