-- ===== src/Request/Merging.antt =====
-- What merging the leading system messages gives.
use llmrelay_service.Base.{
  ℕ, suc, ◌≤◌, not, List, [], ◌∷◌, ◌++◌, if◌then◌else◌, ◌&&◌, ◌≡◌, refl, ap, ◌∙◌, inl, inr, Text,
  codes, is_empty, join, filter, map, arith, Bool-cases, if_true, str, Props, get,
}
use llmrelay_service.Request.Errors.{Runtime}
use llmrelay_service.Request.Items.{message}
use llmrelay_service.Request.System.{
  is_system, content_to_system_text, collect_system, merge_all, merge_leading,
}

-- The messages before the first that is not of the system, and those from it on
unfoldable pub leading : List Props → List Props
leading [] = []
leading (m ∷ ms) = let rest = leading ms in if is_system m then m ∷ rest else []

unfoldable pub following : List Props → List Props
following [] = []
following (m ∷ ms) = let rest = following ms in if is_system m then rest else m ∷ ms

-- The texts of messages that have one
unfoldable pub texts_of : Runtime → List Props → List Text
texts_of runtime ms =
    filter (λ t. not (is_empty t))
      (map (λ m. content_to_system_text runtime (get (codes "content") m)) ms)

-- Two or more messages as one
unfoldable pub unite : Runtime → List Props → List Props
unfolding texts_of
unite runtime (a ∷ b ∷ ms) =
    message (codes "system") (str (join (codes "\n\n") (texts_of runtime (a ∷ b ∷ ms)))) ∷ []
unite runtime ms = ms

module _ (runtime : Runtime) where
  leading-following : (ms : List Props) → leading ms ++ following ms ≡ ms
  unfolding leading following
  leading-following [] = refl
  leading-following (m ∷ ms) = ground (arith, leading-following ms)

  collect_system_lem :
      (ms : List Props) → collect_system runtime ms ≡ (texts_of runtime (leading ms), following ms)
  unfolding collect_system leading following texts_of filter
  collect_system_lem [] = refl
  collect_system_lem (m ∷ ms) = elim (Bool-cases (is_system m)) [
    | inl system ↦
        elim (Bool-cases (is_empty (content_to_system_text runtime (get (codes "content") m)))) [
          | inl empty ↦ rw (system, empty, collect_system_lem ms) refl
          | inr full ↦ rw (system, full, collect_system_lem ms) refl
        ]
    | inr other ↦ rw other refl
  ]

  -- Merging joins the leading system messages into one, if they are two or more, with their texts
  -- that are not empty between blank lines, and keeps what follows them.
  pub merge_leading_lem :
      (ms : List Props) → merge_leading runtime ms ≡ unite runtime (leading ms) ++ following ms
  unfolding merge_leading merge_all unite leading following
  merge_leading_lem [] = refl
  merge_leading_lem (a ∷ []) = elim (Bool-cases (is_system a)) [
    | inl system ↦ rw system refl
    | inr other ↦ rw other refl
  ]
  merge_leading_lem (a ∷ b ∷ ms) = elim (Bool-cases (is_system a)) [
    | inr other ↦ rw other refl
    | inl first ↦ elim (Bool-cases (is_system b)) [
      | inr other ↦ rw (first, other) refl
      | inl second ↦
          if_true (is_system a && is_system b) _ _ (rw (first, second) refl)
          ∙ ap (merge_all runtime) (collect_system_lem (a ∷ b ∷ ms))
          ∙ rw (first, second) refl
    ]
  ]

-- How many system messages stand first
unfoldable pub count_leading : List Props → ℕ
count_leading [] = 0
count_leading (m ∷ ms) = let rest = count_leading ms in if is_system m then suc rest else 0

count_following : (ms : List Props) → count_leading (following ms) ≡ 0
unfolding count_leading following
count_following [] = refl
count_following (m ∷ ms) = ground (arith, count_following ms)

count_cons : (m : Props) (ms : List Props) → count_leading (m ∷ following ms) ≤ 1
unfolding count_leading
count_cons m ms = elim (Bool-cases (is_system m)) [
  | inl system ↦ rw (system, count_following ms) (omega arith)
  | inr other ↦ rw other (omega arith)
]

count_unite :
    (runtime : Runtime) (first ms : List Props)
    → count_leading (unite runtime first ++ following ms) ≤ 1
unfolding unite
count_unite runtime [] ms = rw (count_following ms) (omega arith)
count_unite runtime (m ∷ []) ms = count_cons m ms
count_unite runtime (a ∷ b ∷ first) ms = count_cons _ ms

-- After the merge at most one system message stands first.
merge_leading-count :
    (runtime : Runtime) (ms : List Props) → count_leading (merge_leading runtime ms) ≤ 1
merge_leading-count runtime ms =
    rw (merge_leading_lem runtime ms) (count_unite runtime (leading ms) ms)
