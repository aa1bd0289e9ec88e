-- ===== src/Routing/Mutations.antt =====
-- src/config.ts, lines 282 to 305, 734 to 745, 755 to 758 and 995 to 1111: how the console's changes
-- of a channel change the tables. The changes start where the channel's name and entry are
-- normalised and checked. What the database answers is an argument: if the row was written, and
-- the rows that are read again, `none` where reading throws. The flag `aliasConfigsLoaded` is left
-- out.
use llmrelay_service.Base.{
  Bool, true, false, not, Option, none, some, List, ◌≡◌, refl, Text, ◌==◌, list_eq, nat_eq, lookup,
  insert, erase, if◌then◌else◌, ◌&&◌,
}
use llmrelay_service.Routing.Types.{
  Upstream, anthropic, openai, Mode, ConfigEntry, AliasRow, Tables,
}
use llmrelay_service.Routing.Tables.{set_provider_configs, reload}
use llmrelay_service.Routing.Routes.{provider_type, get_open_ai_responses_mode}

-- The tables with `providerConfigsLoaded`
pub record Configs : Type 0 where
  pub tables : Tables
  pub loaded : Bool

-- What the two stores return
abbrev pub Rows : Type 0
Rows = List (Text × ConfigEntry) × List AliasRow

-- How a change ends
pub data Ending : Type 0 where
  changed : Ending
  -- there is a channel of the name, or there is none
  already_exists missing : Ending
  -- the change is stored, but the mode of the entry that is to be returned is not acceptable
  not_shown : Ending
  -- the database failed, or the channel went away meanwhile
  not_stored deleted_meanwhile : Ending

-- `channelName in providerConfigs`
abbrev pub has_channel : Text → Configs → Bool
has_channel name c = elim (lookup name c.tables.provider_configs) [ none ↦ false | some e ↦ true ]

-- `existingChannelName` where it is another channel's
abbrev is_other : Text → Option Text → Bool
is_other name none = true
is_other name (some existing) = not (name == existing)

-- The entries with the candidate, and without the channel's former name
unfoldable pub with_candidate :
    Text → ConfigEntry → Option Text → List (Text × ConfigEntry) → List (Text × ConfigEntry)
unfolding insert erase
with_candidate name entry none entries = insert name entry entries
with_candidate name entry (some existing) entries =
    if name == existing
    then insert name entry entries
    else erase existing (insert name entry entries)

-- The second part of `validateConsoleCandidate`, which fills the tables
unfoldable pub try_candidate : Text → ConfigEntry → Option Text → Configs → Configs
unfolding with_candidate set_provider_configs
try_candidate name entry existing c = record c {
  tables =
      set_provider_configs (with_candidate name entry existing c.tables.provider_configs) c.tables;
}

-- `restoreProviderConfigs`
unfoldable pub restore : List (Text × ConfigEntry) → Configs → Configs
restore snapshot c = record {
  tables = record c.tables { provider_configs = snapshot };
  loaded = true;
}

-- `refreshProviderConfigs`: the state, and if it did not throw
unfoldable pub refresh : Option Rows → Configs → Configs × Bool
unfolding reload
refresh none c = (record c { loaded = false }, false)
refresh (some (entries, rows)) c =
    (record { tables = reload entries rows c.tables; loaded = true }, true)

restore_unless : List (Text × ConfigEntry) → Configs × Bool → Ending × Configs
unfolding restore
restore_unless snapshot (c, true) = (changed, c)
restore_unless snapshot (c, false) = (not_stored, restore snapshot c)

-- The `try` that the changes share: the row is written and the tables are read again, or the
-- snapshot is restored.
unfoldable pub store : List (Text × ConfigEntry) → Bool → Option Rows → Configs → Ending × Configs
unfolding refresh restore restore_unless
store snapshot true rows c = restore_unless snapshot (refresh rows c)
store snapshot false rows c = (not_stored, restore snapshot c)

-- Where `buildProviderInfo` throws on the mode of an entry of the type, and where it does not
shows : Upstream → Option Mode → Bool
shows anthropic mode = true
shows openai none = false
shows openai (some mode) = true

-- `buildProviderInfo`, of which only matters if it throws
unfoldable pub show_entry : ConfigEntry → Configs → Ending × Configs
unfolding shows get_open_ai_responses_mode
show_entry entry c =
    if shows (provider_type entry) (get_open_ai_responses_mode entry)
    then (changed, c)
    else (not_shown, c)

-- `getProviderInfo` behind a change, which returns `null` where there is no channel
unfoldable pub show_provider : Text → Ending × Configs → Ending × Configs
unfolding lookup show_entry
show_provider name (changed, c) = elim (lookup name c.tables.provider_configs) [
  | none ↦ (changed, c)
  | some entry ↦ show_entry entry c
]
show_provider name (ending, c) = (ending, c)

-- What `createProvider` and `updateProvider` share: the candidate is tried and stored,
-- and what is stored is returned.
unfoldable pub save_provider :
    Text → ConfigEntry → Option Text → Bool → Option Rows → Configs → Ending × Configs
unfolding lookup try_candidate store show_provider
save_provider name entry existing written rows c =
    if has_channel name c && is_other name existing
    then (already_exists, c)
    else show_provider name
        (store c.tables.provider_configs written rows (try_candidate name entry existing c))

-- `createProvider`, on the checked name and entry
unfoldable pub create_provider :
    Text → ConfigEntry → Bool → Option Rows → Configs → Ending × Configs
unfolding lookup save_provider
create_provider name entry written rows c =
    if has_channel name c then (already_exists, c) else save_provider name entry none written rows c

-- `updateProvider` of the channel that is named first, on the checked new name and entry
unfoldable pub update_provider :
    Text → Text → ConfigEntry → Bool → Option Rows → Configs → Ending × Configs
unfolding lookup save_provider
update_provider existing name entry written rows c =
    if has_channel existing c
    then save_provider name entry (some existing) written rows c
    else (missing, c)

-- `deleteProvider`
unfoldable pub delete_provider : Text → Bool → Option Rows → Configs → Ending × Configs
unfolding lookup store
delete_provider name written rows c =
    if has_channel name c then store c.tables.provider_configs written rows c else (missing, c)

-- What follows the `try` of `toggleProvider`
unless_deleted : Text → List (Text × ConfigEntry) → Ending × Configs → Ending × Configs
unfolding lookup restore show_entry
unless_deleted name snapshot (changed, c) = elim (lookup name c.tables.provider_configs) [
  | none ↦ (deleted_meanwhile, restore snapshot c)
  | some entry ↦ show_entry entry c
]
unless_deleted name snapshot (ending, c) = (ending, c)

-- `toggleProvider`
unfoldable pub toggle_provider : Text → Bool → Option Rows → Configs → Ending × Configs
unfolding lookup store unless_deleted
toggle_provider name written rows c =
    if has_channel name c
    then unless_deleted name c.tables.provider_configs
        (store c.tables.provider_configs written rows c)
    else (missing, c)

-- The row was written, and the entries are those that were read again.
abbrev pub IsStored : Bool → Option Rows → Configs → Type 0
IsStored written rows d =
    (written ≡ true)
    × ((aliases : List AliasRow) × (rows ≡ some (d.tables.provider_configs, aliases)))

-- How a change of a channel of the name may end
unfoldable pub Settles : Text → Bool → Option Rows → Configs → Ending × Configs → Type 0
Settles name written rows c (changed, d) = IsStored written rows d
Settles name written rows c (not_shown, d) =
    IsStored written rows d
    × ((entry : ConfigEntry) × ((lookup name d.tables.provider_configs ≡ some entry)
          × ((provider_type entry ≡ openai) × (get_open_ai_responses_mode entry ≡ none))))
Settles name written rows c (ending, d) = d.tables.provider_configs ≡ c.tables.provider_configs

module _ (name : Text) (written : Bool) (rows : Option Rows) (c : Configs) where
  store-Settles :
      (d : Configs) → Settles name written rows c (store c.tables.provider_configs written rows d)
  unfolding store Settles refresh restore restore_unless reload set_provider_configs
  store-Settles d = by_rows written rows
    where
      by_rows :
          (written : Bool) (rows : Option Rows)
          → Settles name written rows c (store c.tables.provider_configs written rows d)
      by_rows false rows = refl
      by_rows true none = refl
      by_rows true (some (entries, aliases)) = (refl, (aliases, refl))

  if_Settles :
      (b : Bool) (x y : Ending × Configs)
      → Settles name written rows c x
      → Settles name written rows c y
      → Settles name written rows c (if b then x else y)
  if_Settles true x y h k = h
  if_Settles false x y h k = k

  show_entry-Settles :
      (entry : ConfigEntry) (d : Configs)
      → lookup name d.tables.provider_configs ≡ some entry
      → IsStored written rows d
      → Settles name written rows c (show_entry entry d)
  unfolding show_entry shows Settles
  show_entry-Settles entry d e h =
      by_mode (provider_type entry) (get_open_ai_responses_mode entry) refl refl
    where
      by_mode :
          (t : Upstream) (m : Option Mode)
          → provider_type entry ≡ t
          → get_open_ai_responses_mode entry ≡ m
          → Settles name written rows c (if shows t m then (changed, d) else (not_shown, d))
      by_mode anthropic m f g = h
      by_mode openai (some m) f g = h
      by_mode openai none f g = (h, (entry, (e, (f, g))))

  show_provider-Settles :
      (r : Ending × Configs)
      → Settles name written rows c r
      → Settles name written rows c (show_provider name r)
  unfolding show_provider Settles
  show_provider-Settles (changed, d) h = by_entry (lookup name d.tables.provider_configs) refl
    where
      by_entry :
          (o : Option ConfigEntry)
          → lookup name d.tables.provider_configs ≡ o
          → Settles name written rows c
              (elim o [ none ↦ (changed, d) | some entry ↦ show_entry entry d ])
      by_entry none e = h
      by_entry (some entry) e = show_entry-Settles entry d e h
  show_provider-Settles (already_exists, d) h = h
  show_provider-Settles (missing, d) h = h
  show_provider-Settles (not_shown, d) h = h
  show_provider-Settles (not_stored, d) h = h
  show_provider-Settles (deleted_meanwhile, d) h = h

  unless_deleted-Settles :
      (r : Ending × Configs)
      → Settles name written rows c r
      → Settles name written rows c (unless_deleted name c.tables.provider_configs r)
  unfolding unless_deleted restore Settles
  unless_deleted-Settles (changed, d) h = by_entry (lookup name d.tables.provider_configs) refl
    where
      by_entry :
          (o : Option ConfigEntry)
          → lookup name d.tables.provider_configs ≡ o
          → Settles name written rows c (elim o [
            | none ↦ (deleted_meanwhile, restore c.tables.provider_configs d)
            | some entry ↦ show_entry entry d
          ])
      by_entry none e = refl
      by_entry (some entry) e = show_entry-Settles entry d e h
  unless_deleted-Settles (already_exists, d) h = h
  unless_deleted-Settles (missing, d) h = h
  unless_deleted-Settles (not_shown, d) h = h
  unless_deleted-Settles (not_stored, d) h = h
  unless_deleted-Settles (deleted_meanwhile, d) h = h

  save_provider-Settles :
      (entry : ConfigEntry) (existing : Option Text)
      → Settles name written rows c (save_provider name entry existing written rows c)
  unfolding save_provider Settles
  save_provider-Settles entry existing =
      if_Settles _ (already_exists, c) _ refl
        (show_provider-Settles _ (store-Settles (try_candidate name entry existing c)))

  -- Whether a channel is created, changed, deleted or switched: either the entries of the channels are
  -- those from before, or the database took the row and the entries are those that it then returned.
  -- The call throws in the first case, and in the second one only if the channel is of type openai and
  -- its stored mode is not acceptable.
  pub mutation-Settles :
      (existing : Text) (entry : ConfigEntry)
      → (Settles name written rows c (create_provider name entry written rows c)
          × Settles name written rows c (update_provider existing name entry written rows c))
        × (Settles name written rows c (delete_provider name written rows c)
            × Settles name written rows c (toggle_provider name written rows c))
  unfolding create_provider update_provider delete_provider toggle_provider Settles
  mutation-Settles existing entry = (
    (
      if_Settles _ (already_exists, c) _ refl (save_provider-Settles entry none),
      if_Settles _ _ (missing, c) (save_provider-Settles entry (some existing)) refl,
    ),
    (
      if_Settles _ _ (missing, c) (store-Settles c) refl,
      if_Settles _ _ (missing, c) (unless_deleted-Settles _ (store-Settles c)) refl,
    ),
  )
