-- ===== src/Plugins/Discovery.antt =====
-- src/plugin/PluginRegistry.cpp: what discovery keeps, and that repeating it changes nothing.
use instrument_script_server.Base.{
  String, Bool, true, false, Option, none, some, List, [], ◌∷◌, has, lookup-insert, All,
  if◌then◌else◌, nat_eqb, string_key, ◌≡◌, refl, sym, ap, ◌∙◌, arith, Bool-cases, inl, inr, subst,
  ◌++◌, some_inj,
}
use instrument_script_server.Plugins.{
  PluginMetadata, Entry, Disk, PluginRegistry, plugin_api_version, register, load_found,
  load_plugin, discover_loaded, discover_entry, discover_entries, files_of, discover_plugins,
  ends_with,
}
use instrument_script_server.Plugins.Growth.{
  Grows, Grows-refl, Grows-has, Grows-trans, register-Grows,
}

-- What an entry offers: the plugin of a library that loads at the right version.
abbrev pub right_version : Option PluginMetadata → Option PluginMetadata
right_version none = none
right_version (some m) = if nat_eqb m.api_version plugin_api_version then some m else none

abbrev pub offer : Disk → Entry → Option PluginMetadata
offer disk entry =
    if ends_with ".so" entry.filename then right_version (disk.load entry.path) else none

-- An offer is taken by a registry without a plugin for its protocol.
abbrev pub take : String → PluginRegistry → Option PluginMetadata → PluginRegistry
take path r none = r
take path r (some m) =
    if has m.protocol_type r.plugins then r else register m.protocol_type path m r

discover_entry_lem :
    (disk : Disk) (entry : Entry) (r : PluginRegistry)
    → discover_entry disk entry r ≡ take entry.path r (offer disk entry)
unfolding discover_entry load_plugin
discover_entry_lem disk entry r = by_name (ends_with ".so" entry.filename)
  where
    loaded : PluginMetadata → Bool → Option PluginMetadata → Bool × PluginRegistry
    loaded m there o = if there then (false, r) else load_found m.protocol_type entry.path r o

    take_at : PluginMetadata → Bool → Option PluginMetadata → PluginRegistry
    take_at m there none = r
    take_at m there (some n) = if there then r else register m.protocol_type entry.path m r

    by_tests :
        (m : PluginMetadata) (there v : Bool)
        → (if there
            then r
            else (if◌then◌else◌ {A = Bool × PluginRegistry} there
                (false, r)
                (if v then (true, register m.protocol_type entry.path m r) else (false, r))).1)
          ≡ take_at m there (if v then some m else none)
    by_tests m true true = refl
    by_tests m true false = refl
    by_tests m false true = refl
    by_tests m false false = refl

    taken :
        (m : PluginMetadata) (v : Bool)
        → take_at m (has m.protocol_type r.plugins) (if v then some m else none)
          ≡ take entry.path r (if v then some m else none)
    taken m true = refl
    taken m false = refl

    by_load :
        (o : Option PluginMetadata)
        → disk.load entry.path ≡ o
        → discover_loaded disk entry.path r o ≡ take entry.path r (right_version o)
    by_load none e = refl
    by_load (some m) e =
        ap
          (λ o.
            if has m.protocol_type r.plugins
            then r
            else (loaded m (has m.protocol_type r.plugins) o).1)
          e
        ∙ by_tests m (has m.protocol_type r.plugins) (nat_eqb m.api_version plugin_api_version)
        ∙ taken m (nat_eqb m.api_version plugin_api_version)

    by_name :
        (b : Bool)
        → (if b then discover_loaded disk entry.path r (disk.load entry.path) else r)
          ≡ take entry.path r (if b then right_version (disk.load entry.path) else none)
    by_name false = refl
    by_name true = by_load (disk.load entry.path) refl

take-Grows :
    (path : String) (r : PluginRegistry) (o : Option PluginMetadata) → Grows r (take path r o)
take-Grows path r none = Grows-refl r
take-Grows path r (some m) = elim (Bool-cases (has m.protocol_type r.plugins)) [
  | inl there ↦ rw there (Grows-refl r)
  | inr new ↦ rw new (register-Grows m.protocol_type path m r new)
]

-- An entry whose offer has been taken, or has lost against another.
IsDone : Option PluginMetadata → PluginRegistry → Type 0
IsDone o r = (m : PluginMetadata) → o ≡ some m → has m.protocol_type r.plugins ≡ true

take-IsDone :
    (path : String) (r : PluginRegistry) (o : Option PluginMetadata) → IsDone o (take path r o)
unfolding IsDone register has
take-IsDone path r none m e = cc
take-IsDone path r (some n) m e =
    subst (λ x. has x.protocol_type (take path r (some n)).plugins ≡ true) (some_inj e)
      (ground (
        arith,
        lookup-insert n.protocol_type n.protocol_type n r.plugins,
        string_key.eqb_iff n.protocol_type n.protocol_type,
      ))

take_unchanged :
    (path : String) (r : PluginRegistry) (o : Option PluginMetadata)
    → IsDone o r
    → take path r o ≡ r
unfolding IsDone
take_unchanged path r none d = refl
take_unchanged path r (some m) d =
    ap (λ b. if b then r else register m.protocol_type path m r) (d m refl)

discover_entries-Grows :
    (disk : Disk) (entries : List Entry) (r : PluginRegistry)
    → Grows r (discover_entries disk entries r)
unfolding discover_entries
discover_entries-Grows disk [] r = Grows-refl r
discover_entries-Grows disk (entry ∷ entries) r =
    Grows-trans r (discover_entry disk entry r)
      (discover_entries disk entries (discover_entry disk entry r))
      (subst (Grows r) (sym (discover_entry_lem disk entry r))
        (take-Grows entry.path r (offer disk entry)))
      (discover_entries-Grows disk entries (discover_entry disk entry r))

-- Discovery never replaces a plugin or its path, and keeps the protocols of the two maps the same.
pub discover_plugins-Grows :
    (disk : Disk) (search_paths : List String) (r : PluginRegistry)
    → Grows r (discover_plugins disk search_paths r)
unfolding discover_plugins
discover_plugins-Grows disk [] r = Grows-refl r
discover_plugins-Grows disk (path ∷ paths) r =
    let r' = discover_entries disk (files_of (disk.entries path)) r in
    Grows-trans r r' (discover_plugins disk paths r')
      (discover_entries-Grows disk (files_of (disk.entries path)) r)
      (discover_plugins-Grows disk paths r')

IsDone-Grows :
    (o : Option PluginMetadata) (r r' : PluginRegistry) → Grows r r' → IsDone o r → IsDone o r'
unfolding IsDone
IsDone-Grows o r r' g d m e = Grows-has r r' m.protocol_type g (d m e)

discover_entries-IsDone :
    (disk : Disk) (entries : List Entry) (r : PluginRegistry)
    → All (λ entry. IsDone (offer disk entry) (discover_entries disk entries r)) entries
unfolding discover_entries
discover_entries-IsDone disk [] r = tt
discover_entries-IsDone disk (entry ∷ entries) r =
    let r' = discover_entry disk entry r in
    (
      IsDone-Grows (offer disk entry) r' (discover_entries disk entries r')
          (discover_entries-Grows disk entries r')
          (subst (IsDone (offer disk entry)) (sym (discover_entry_lem disk entry r))
            (take-IsDone entry.path r (offer disk entry))),
      discover_entries-IsDone disk entries r',
    )

AllDone-Grows :
    (disk : Disk) (entries : List Entry) (r r' : PluginRegistry)
    → Grows r r'
    → All (λ entry. IsDone (offer disk entry) r) entries
    → All (λ entry. IsDone (offer disk entry) r') entries
AllDone-Grows disk [] r r' g d = tt
AllDone-Grows disk (entry ∷ entries) r r' g d =
    (IsDone-Grows (offer disk entry) r r' g d.0, AllDone-Grows disk entries r r' g d.1)

discover_entries_unchanged :
    (disk : Disk) (entries : List Entry) (r : PluginRegistry)
    → All (λ entry. IsDone (offer disk entry) r) entries
    → discover_entries disk entries r ≡ r
unfolding discover_entries
discover_entries_unchanged disk [] r d = refl
discover_entries_unchanged disk (entry ∷ entries) r d =
    ap (discover_entries disk entries)
      (discover_entry_lem disk entry r ∙ take_unchanged entry.path r (offer disk entry) d.0)
    ∙ discover_entries_unchanged disk entries r d.1

-- The files of the directories, in the order of the search.
abbrev pub all_files : Disk → List String → List Entry
all_files disk [] = []
all_files disk (path ∷ paths) = files_of (disk.entries path) ++ all_files disk paths

discover_entries-append :
    (disk : Disk) (xs ys : List Entry) (r : PluginRegistry)
    → discover_entries disk (xs ++ ys) r ≡ discover_entries disk ys (discover_entries disk xs r)
unfolding discover_entries
discover_entries-append disk [] ys r = refl
discover_entries-append disk (x ∷ xs) ys r =
    discover_entries-append disk xs ys (discover_entry disk x r)

discover_plugins-all_files :
    (disk : Disk) (paths : List String) (r : PluginRegistry)
    → discover_plugins disk paths r ≡ discover_entries disk (all_files disk paths) r
unfolding discover_plugins discover_entries
discover_plugins-all_files disk [] r = refl
discover_plugins-all_files disk (path ∷ paths) r =
    discover_plugins-all_files disk paths (discover_entries disk (files_of (disk.entries path)) r)
    ∙ sym (discover_entries-append disk (files_of (disk.entries path)) (all_files disk paths) r)

-- While the disk stays the same, discovering the same directories again changes nothing.
pub discover_plugins_idem :
    (disk : Disk) (search_paths : List String) (r : PluginRegistry)
    → discover_plugins disk search_paths (discover_plugins disk search_paths r)
      ≡ discover_plugins disk search_paths r
discover_plugins_idem disk paths r =
    discover_plugins-all_files disk paths (discover_plugins disk paths r)
    ∙ ap (discover_entries disk files) (discover_plugins-all_files disk paths r)
    ∙ discover_entries_unchanged disk files (discover_entries disk files r)
        (discover_entries-IsDone disk files r)
    ∙ sym (discover_plugins-all_files disk paths r)
  where
    files : List Entry
    files = all_files disk paths
