-- ===== src/Observer/Rewrite.antt =====
-- `createModelFieldRewriteBody`: the upstream's name of the model is replaced in fields whose name ends
-- with `model`. A chunk is its decoded text, and what is enqueued is the text that the encoder gets.
-- `byte_length` is the length of a text in UTF-8.
use llmrelay_service.Base.{
  ℕ, zero, suc, ◌+◌, ◌-◌, max, Bool, ◌&&◌, ◌||◌, Option, none, some, List, [], ◌∷◌, ◌++◌,
  if◌then◌else◌, Text, codes, starts_with, ends_with, is_space, is_empty, length, take, drop, leb,
  ◌==◌, list_eq, nat_eq, and_then,
}
use llmrelay_service.Base.Tests.{◌==◌ as nat_beq}

-- `[A-Za-z0-9_]`
unfoldable pub is_word : ℕ → Bool
is_word c =
    (leb b'A' c && leb c b'Z')
    || ((leb b'a' c && leb c b'z') || ((leb b'0' c && leb c b'9') || nat_beq c b'_'))

-- The longest beginning of characters that pass a test, and the rest
unfoldable pub span : (ℕ → Bool) → Text → Text × Text
span p [] = ([], [])
span p (c ∷ s) = let (w, r) = span p s in if p c then (c ∷ w, r) else ([], c ∷ s)

-- What follows a text
unfoldable pub after : Text → Text → Option Text
unfolding starts_with
after p s = if starts_with p s then some (drop (length p) s) else none

abbrev pub quote : Text
quote = b'"' ∷ []

-- `pattern` at the start of a text, up to the opening quote of the value, and what follows it. A name
-- is followed by a quote, and white space by no white space, so each part of the pattern that repeats
-- takes the longest text.
unfoldable pub after_name : Text → Option Text
unfolding after span is_word ends_with
after_name s =
    let (name, rest) = span is_word s in
    if ends_with (codes "model") name then after quote rest else none

unfoldable pub after_spaces : Text → Text → Option Text
unfolding after span is_space
after_spaces p s = after p (span is_space s).1

unfoldable pub match_prefix : Text → Option Text
unfolding after after_name after_spaces
match_prefix s = and_then (after quote s) (λ s₁.
    and_then (after_name s₁) (λ s₂. and_then (after_spaces (codes ":") s₂) (after_spaces quote)))

-- The whole of it: what follows the opening quote of the value, and its closing one
unfoldable pub match_field : Text → Text → Option (Text × Text)
unfolding match_prefix after
match_field from s =
    and_then (match_prefix s)
      (λ value. and_then (and_then (after from value) (after quote)) (λ rest. some (value, rest)))

-- `replace(pattern, ...)` of a text less its first characters that an earlier match has taken
unfoldable pub replace_from : Text → Text → ℕ → Text → Text
unfolding match_field
replace_from from to skip [] = []
replace_from from to (suc skip) (c ∷ s) = replace_from from to skip s
replace_from from to zero (c ∷ s) = elim (match_field from (c ∷ s)) [
  | none ↦ c ∷ replace_from from to 0 s
  | some (value, rest) ↦
      take (length (c ∷ s) - length value) (c ∷ s)
      ++ (to ++ (quote ++ replace_from from to (length s - length rest) s))
]

unfoldable pub replace : Text → Text → Text → Text
unfolding replace_from
replace from to s = replace_from from to 0 s

module _ (byte_length : Text → ℕ) (from to : Text) where
  -- `safeTailBytes`
  abbrev pub safe_tail : ℕ
  safe_tail = max 64 (byte_length from + 32)

  -- `flushSafe`: what is enqueued, and the buffer that is left
  unfoldable pub flush_safe : Text → List Text × Text
  unfolding replace
  flush_safe buffer =
      let flush_end = length buffer - safe_tail in
      if leb (length buffer) safe_tail
      then ([], buffer)
      else (replace from to (take flush_end buffer) ∷ [], drop flush_end buffer)

  -- `flush(controller)` behind what the decoder still held
  unfoldable pub flush_rest : Text → List Text
  unfolding replace
  flush_rest [] = []
  flush_rest (c ∷ buffer) = replace from to (c ∷ buffer) ∷ []

  -- `transform(chunk, controller)` for each chunk, and then `flush`
  unfoldable pub pump : Text → List Text → Text → List Text
  unfolding flush_safe flush_rest
  pump buffer [] tail = flush_rest (buffer ++ tail)
  pump buffer (chunk ∷ chunks) tail =
      let (sent, left) = flush_safe (buffer ++ chunk) in sent ++ pump left chunks tail

  -- The texts of a body without a name to replace stay, with `tail` what the decoder still held.
  unfoldable pub rewrite_body : List Text → Text → List Text
  unfolding pump
  rewrite_body chunks tail =
      if is_empty from || from == to then chunks ++ (tail ∷ []) else pump [] chunks tail
