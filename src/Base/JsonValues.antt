-- ===== src/Base/JsonValues.antt =====
-- JSON values as `JSON.parse` returns them, and the reads of them that the sources make.
use mathlib.Core.Bool.{Bool, true, false}
use mathlib.Core.Option.{Option, none, some}
use mathlib.Core.List.{List, [], ◌∷◌}
use llmrelay_service.Base.Tests.{if◌then◌else◌}
use llmrelay_service.Base.Keys.{list_beq, nat_eq}
use llmrelay_service.Base.Texts.{Text}
use llmrelay_service.Base.Numbers.{ℤ}

mutual
  pub data Json : Type 0 where
    null : Json
    bool : Bool → Json
    num : ℤ → Json
    str : Text → Json
    arr : Elems → Json
    obj : Props → Json

  pub data Elems : Type 0 where
    nil : Elems
    cons : Json → Elems → Elems

  pub data Props : Type 0 where
    end : Props
    prop : Text → Json → Props → Props

abbrev pub elems : Elems → List Json
elems nil = []
elems (cons v vs) = v ∷ elems vs

-- `record.name`, `none` for `undefined`
unfoldable pub get : Text → Props → Option Json
unfolding list_beq
get name end = none
get name (prop k v ps) = if list_beq k name then some v else get name ps

-- `isRecord(v) ? v : {}`
abbrev pub record_or_empty : Option Json → Props
record_or_empty (some (obj ps)) = ps
record_or_empty _ = end

-- `Array.isArray(v) ? v : []`
abbrev pub array_or_empty : Option Json → List Json
array_or_empty (some (arr vs)) = elems vs
array_or_empty _ = []

-- `asString(v)`, and `typeof v === 'string'` with the string
abbrev pub as_string : Option Json → Option Text
as_string (some (str s)) = some s
as_string _ = none

-- `typeof v === 'number'` with the number
abbrev pub as_number : Option Json → Option ℤ
as_number (some (num n)) = some n
as_number _ = none

-- `isRecord(v)` with the record
abbrev pub as_record : Option Json → Option Props
as_record (some (obj ps)) = some ps
as_record _ = none

-- `v != null`
abbrev pub is_present : Option Json → Bool
is_present none = false
is_present (some null) = false
is_present (some _) = true

-- `a ?? b`
abbrev pub or_else {ℓ} : {A : Type ℓ} → Option A → A → A
or_else none b = b
or_else (some a) b = a
