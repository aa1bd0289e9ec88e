-- ===== src/Timeouts/Cached.antt =====
-- What the cache holds and returns.
use native.Mathlib.Nat.{mul-div_cancel}
use llmrelay_service.Base.{
  ℕ, ◌+◌, ◌-◌, ◌<◌, ◌≡◌, refl, sym, ap, subst, ◌∙◌, ◌⊎◌, inl, inr, Bool, true, false, Option, none,
  some, Text, Bool-cases, if_true, if_false, ltb, arith, Json, of_ℕ,
}
use llmrelay_service.Failover.{whole, within}
use llmrelay_service.Failover.Rules.{Holds, Anything, anything, and_then-Holds}
use llmrelay_service.Failover.Limits.{IsWithin, within-Holds, one_pos}
use llmrelay_service.Timeouts.{
  Settings, Input, no_input, timeout_in_range, normalize_settings, Cache, Loaded, after_write,
  load_settings, after_load, get_settings, to_input, update_settings, failed, no_row, row,
  parse_stored,
}

-- The limits of the settings
pub record AreWithin (s : Settings) : Type 0 where
  pub connect : IsWithin 100 60000 s.connect_timeout_ms
  pub default_first_byte : IsWithin 1000 900000 s.default_first_byte_timeout_ms
  pub stream_first_byte : IsWithin 1000 900000 s.stream_first_byte_timeout_ms
  pub image_first_byte : IsWithin 1000 900000 s.image_first_byte_timeout_ms
  pub response_idle : IsWithin 0 3600000 s.response_idle_timeout_ms

within-some : (lo hi n : ℕ) → IsWithin lo hi n → within lo hi (some n) ≡ some n
within-some lo hi n h = ground arith

whole-of_ℕ : (n : ℕ) → whole (of_ℕ n) ≡ some n
unfolding whole of_ℕ
whole-of_ℕ n = ap some (mul-div_cancel n one_pos)

-- A value within the limits is taken as it is, whatever the default.
timeout_in_range-of_ℕ :
    (n fallback lo hi : ℕ)
    → IsWithin lo hi n
    → timeout_in_range (some (Json.num (of_ℕ n))) fallback lo hi ≡ some n
unfolding timeout_in_range
timeout_in_range-of_ℕ n fallback lo hi h = ap (within lo hi) (whole-of_ℕ n) ∙ within-some lo hi n h

timeout_in_range-Holds :
    (v : Option Json) (fallback lo hi : ℕ)
    → Holds (IsWithin lo hi) (timeout_in_range v fallback lo hi)
unfolding timeout_in_range
timeout_in_range-Holds none fallback lo hi = within-Holds lo hi (some fallback)
timeout_in_range-Holds (some Json.null) fallback lo hi = within-Holds lo hi (some fallback)
timeout_in_range-Holds (some (Json.num x)) fallback lo hi = within-Holds lo hi (whole x)
timeout_in_range-Holds (some (Json.bool b)) fallback lo hi = tt
timeout_in_range-Holds (some (Json.str s)) fallback lo hi = tt
timeout_in_range-Holds (some (Json.arr vs)) fallback lo hi = tt
timeout_in_range-Holds (some (Json.obj ps)) fallback lo hi = tt

normalize_settings-AreWithin :
    (input : Input) (d : Settings) → Holds AreWithin (normalize_settings input d)
unfolding normalize_settings
normalize_settings-AreWithin input d =
    and_then-Holds (IsWithin 100 60000) AreWithin _ _
      (timeout_in_range-Holds input.connect d.connect_timeout_ms 100 60000)
      (λ connect a.
        and_then-Holds (IsWithin 1000 900000) AreWithin _ _
          (timeout_in_range-Holds input.default_first_byte d.default_first_byte_timeout_ms 1000
            900000)
          (λ default_first_byte b.
            and_then-Holds (IsWithin 1000 900000) AreWithin _ _
              (timeout_in_range-Holds input.stream_first_byte d.stream_first_byte_timeout_ms 1000
                900000)
              (λ stream_first_byte c.
                and_then-Holds (IsWithin 1000 900000) AreWithin _ _
                  (timeout_in_range-Holds input.image_first_byte d.image_first_byte_timeout_ms 1000
                    900000)
                  (λ image_first_byte e.
                    and_then-Holds (IsWithin 0 3600000) AreWithin _ _
                      (timeout_in_range-Holds input.response_idle d.response_idle_timeout_ms 0
                        3600000)
                      (λ response_idle f. record {
                        connect = a;
                        default_first_byte = b;
                        stream_first_byte = c;
                        image_first_byte = e;
                        response_idle = f;
                      })))))

-- Settings within the limits are normalised to themselves, whatever the defaults.
normalize_settings-to_input :
    (s d : Settings) → AreWithin s → normalize_settings (to_input s) d ≡ some s
unfolding normalize_settings to_input
normalize_settings-to_input s d h =
    rw
      (
        timeout_in_range-of_ℕ s.connect_timeout_ms d.connect_timeout_ms 100 60000 h.connect,
        timeout_in_range-of_ℕ s.default_first_byte_timeout_ms d.default_first_byte_timeout_ms 1000
            900000 h.default_first_byte,
        timeout_in_range-of_ℕ s.stream_first_byte_timeout_ms d.stream_first_byte_timeout_ms 1000
            900000 h.stream_first_byte,
        timeout_in_range-of_ℕ s.image_first_byte_timeout_ms d.image_first_byte_timeout_ms 1000
            900000 h.image_first_byte,
        timeout_in_range-of_ℕ s.response_idle_timeout_ms d.response_idle_timeout_ms 0 3600000
            h.response_idle,
      )
      refl

pub normalize_settings-no_input :
    (d : Settings) → AreWithin d → normalize_settings no_input d ≡ some d
unfolding normalize_settings timeout_in_range
normalize_settings-no_input d h =
    rw
      (
        within-some 100 60000 d.connect_timeout_ms h.connect,
        within-some 1000 900000 d.default_first_byte_timeout_ms h.default_first_byte,
        within-some 1000 900000 d.stream_first_byte_timeout_ms h.stream_first_byte,
        within-some 1000 900000 d.image_first_byte_timeout_ms h.image_first_byte,
        within-some 0 3600000 d.response_idle_timeout_ms h.response_idle,
      )
      refl

-- Settings within the limits are returned, and those in the cache are within the limits too.
abbrev pub Serves : Cache × Option Settings → Type 0
Serves (cache, result) =
    Holds AreWithin cache.settings × (view : Settings) × (result ≡ some view) × AreWithin view

load_settings-AreWithin :
    (parse_json : Text → Option Json) (d : Settings) (loaded : Loaded)
    → Holds AreWithin (load_settings parse_json d loaded)
unfolding load_settings
load_settings-AreWithin parse_json d failed = tt
load_settings-AreWithin parse_json d no_row = normalize_settings-AreWithin no_input d
load_settings-AreWithin parse_json d (row value_json) =
    and_then-Holds Anything AreWithin (parse_stored parse_json value_json)
      (λ input. normalize_settings input d) (anything (parse_stored parse_json value_json))
      (λ input u. normalize_settings-AreWithin input d)

after_load-Serves :
    (settings : Option Settings) (at now : ℕ) (d : Settings) (loaded : Option Settings)
    → AreWithin d
    → Holds AreWithin settings
    → Holds AreWithin loaded
    → Serves (after_load (record { settings = settings; loaded_at = at }) d now loaded)
unfolding after_load
after_load-Serves settings at now d (some view) h k l = (l, view, refl, l)
after_load-Serves none at now d none h k l = (tt, d, normalize_settings-no_input d h, h)
after_load-Serves (some old) at now d none h k l = (k, old, refl, k)

get-Serves :
    (parse_json : Text → Option Json) (d : Settings) (settings : Option Settings) (at now : ℕ)
    (loaded : Loaded)
    → AreWithin d
    → Holds AreWithin settings
    → Serves (get_settings parse_json d (record { settings = settings; loaded_at = at }) now loaded)
unfolding get_settings
get-Serves parse_json d none at now loaded h k =
    after_load-Serves none at now d (load_settings parse_json d loaded) h k
      (load_settings-AreWithin parse_json d loaded)
get-Serves parse_json d (some old) at now loaded h k = elim (Bool-cases (ltb (now - at) 5000)) [
  | inl e ↦ subst Serves (sym (if_true _ _ _ e)) (k, old, refl, k)
  | inr e ↦ subst Serves (sym (if_false _ _ _ e)) (
      after_load-Serves (some old) at now d (load_settings parse_json d loaded) h k
        (load_settings-AreWithin parse_json d loaded))
]

-- If the defaults are within the limits, and so is what the cache holds, then
-- `getGatewayTimeoutSettings` returns settings within the limits, whatever the database holds and
-- also when it fails, and what the cache holds is still within the limits.
pub get_settings-Serves :
    (parse_json : Text → Option Json) (d : Settings) (cache : Cache) (now : ℕ) (loaded : Loaded)
    → AreWithin d
    → Holds AreWithin cache.settings
    → Serves (get_settings parse_json d cache now loaded)
get_settings-Serves parse_json d cache now loaded h k =
    get-Serves parse_json d cache.settings cache.loaded_at now loaded h k

-- How an update ends: with the normalised settings, if the database takes them, which are then
-- returned at the later time, or with an error and the cache as it was, if the input is not accepted
-- or the database fails.
pub data Updates (parse_json : Text → Option Json) (d : Settings) (cache : Cache) (input : Input)
    (writes : Settings → ℕ → Bool) (now later : ℕ) (loaded : Loaded)
    : Cache × Option Settings → Type 0 where
  stored :
      (s : Settings) (after : Cache)
      → normalize_settings input d ≡ some s
      → AreWithin s
      → writes s now ≡ true
      → get_settings parse_json d after later loaded ≡ (after, some s)
      → Updates parse_json d cache input writes now later loaded (after, some s)
  rejected :
      (normalize_settings input d ≡ none)
        ⊎ ((s : Settings) × ((normalize_settings input d ≡ some s) × (writes s now ≡ false)))
      → Updates parse_json d cache input writes now later loaded (cache, none)

-- `updateGatewayTimeoutSettings` throws exactly if the input is not accepted or the database fails,
-- and then leaves the cache as it was. Otherwise it returns the normalised settings, which are within
-- the limits, and for the next five seconds they are returned, whatever the database then holds.
pub update_settings-Updates :
    (parse_json : Text → Option Json) (d : Settings) (cache : Cache) (input : Input)
    (writes : Settings → ℕ → Bool) (now later : ℕ) (loaded : Loaded)
    → later < now + 5000
    → Updates parse_json d cache input writes now later loaded
        (update_settings d cache input writes now)
unfolding update_settings get_settings
update_settings-Updates parse_json d cache input writes now later loaded h =
    by_input (normalize_settings input d) refl
  where
    soon : ltb (later - now) 5000 ≡ true
    soon = ground (arith, h)

    by_input :
        (o : Option Settings)
        → normalize_settings input d ≡ o
        → Updates parse_json d cache input writes now later loaded (elim o [
          | none ↦ (cache, none)
          | some settings ↦
              after_write cache now (writes settings now) (normalize_settings (to_input settings) d)
        ])
    by_input none e = rejected (inl e)
    by_input (some s) e =
        subst
          (λ view.
            Updates parse_json d cache input writes now later loaded
              (after_write cache now (writes s now) view))
          (sym (normalize_settings-to_input s d good)) (by_write (writes s now) refl)
      where
        good : AreWithin s
        good = subst (Holds AreWithin) e (normalize_settings-AreWithin input d)

        by_write :
            (b : Bool)
            → writes s now ≡ b
            → Updates parse_json d cache input writes now later loaded
                (after_write cache now b (some s))
        by_write false k = rejected (inr (s, (e, k)))
        by_write true k = stored s _ e good k (if_true _ _ _ soon)
