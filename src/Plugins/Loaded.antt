-- ===== src/Plugins/Loaded.antt =====
-- Which plugins a directory gives.
use mini_gateway.Common.{
  ◌≡◌, refl, sym, ap, subst, ◌∙◌, String, Bool, true, false, not, ◌&&◌, ◌||◌, none-ne-some,
  true-ne-false, List, [], ◌∷◌, ◌++◌, map, append_assoc, append-nil, Option, none, some, Dict,
  lookup, insert, str_eq, eq_iff, Bool-cases, inl, inr, if◌then◌else◌,
}
use mini_gateway.Config.Views.{HasDistinctKeys}
use mini_gateway.Plugins.{
  Plugin, DirEntry, PluginConfig, Opened, Loader, new_loader, has_suffix, trim_suffix, load_plugin,
  is_wanted, registered, load_file, load_files, load_plugins,
}

lookup_first :
    {V : Type 0} (key other : String) (value : V) (rest : Dict V)
    → str_eq key other ≡ true
    → lookup other ((key, value) ∷ rest) ≡ some value
unfolding lookup
lookup_first key other value rest own = rw own refl

insert-new :
    {V : Type 0} (key : String) (value : V) (dict : Dict V)
    → lookup key dict ≡ none
    → insert key value dict ≡ dict ++ (key, value) ∷ []
unfolding insert lookup
insert-new key value [] e = refl
insert-new key value (entry ∷ rest) e = elim (Bool-cases (str_eq entry.0 key)) [
  | inl own ↦ absurd (none-ne-some (sym e ∙ lookup_first entry.0 key entry.1 rest own))
  | inr apart ↦
      let missing : lookup key rest ≡ none = rw apart at e in
      rw apart (ap (◌∷◌ entry) (insert-new key value rest missing))
]

lookup-middle :
    {V : Type 0} (key other : String) (value : V) (dict rest : Dict V)
    → lookup other (dict ++ (key, value) ∷ rest) ≡ none
    → str_eq key other ≡ false
unfolding lookup
lookup-middle key other value [] rest e = elim (Bool-cases (str_eq key other)) [
  | inl own ↦ absurd (none-ne-some (sym e ∙ lookup_first key other value rest own))
  | inr apart ↦ apart
]
lookup-middle key other value (entry ∷ dict) rest e = elim (Bool-cases (str_eq entry.0 other)) [
  | inl own ↦
      absurd (
        none-ne-some (sym e ∙ lookup_first entry.0 other entry.1 (dict ++ (key, value) ∷ rest) own))
  | inr apart ↦ lookup-middle key other value dict rest (rw apart at e)
]

str_eq-false-sym : (a b : String) → str_eq a b ≡ false → str_eq b a ≡ false
str_eq-false-sym a b e = elim (Bool-cases (str_eq b a)) [
  | inl same ↦ absurd (true-ne-false (sym ((eq_iff a b).1 (sym ((eq_iff b a).0 same))) ∙ e))
  | inr apart ↦ apart
]

HasDistinctKeys-middle :
    {V : Type 0} (key : String) (value : V) (dict rest : Dict V)
    → HasDistinctKeys (dict ++ (key, value) ∷ rest)
    → lookup key dict ≡ none
unfolding lookup
HasDistinctKeys-middle key value [] rest d = refl
HasDistinctKeys-middle key value (entry ∷ dict) rest (once, d) =
    let apart : str_eq entry.0 key ≡ false =
      str_eq-false-sym key entry.0 (lookup-middle key entry.0 value dict rest once) in
    rw apart (HasDistinctKeys-middle key value dict rest d)

gated :
    (d s w : Bool) (name : String) (p : Option Plugin) (l : Loader)
    → (if d || not s then l else if w then registered name p l else l)
      ≡ registered name (if not d && s && w then p else none) l
unfolding registered
gated true s w name p l = refl
gated false false w name p l = refl
gated false true true name p l = refl
gated false true false name p l = refl

module _ (join : String → String → String) (open_plugin : String → Opened)
    (cfg : PluginConfig) where
  -- The plugin that an entry of the directory gives: it is a file that ends in ".so", the configuration names it or
  -- names none, and it constructs one.
  abbrev pub plugin_of : DirEntry → Option Plugin
  plugin_of file =
      if not file.is_dir
        && has_suffix file.name ".so"
        && is_wanted cfg (trim_suffix file.name ".so")
      then load_plugin (open_plugin (join cfg.dir file.name))
      else none

  abbrev pub and_found : String → Option Plugin → Dict Plugin → Dict Plugin
  and_found name none rest = rest
  and_found name (some p) rest = (name, p) ∷ rest

  abbrev pub plugins_of : List DirEntry → Dict Plugin
  plugins_of [] = []
  plugins_of (file ∷ files) =
      and_found (trim_suffix file.name ".so") (plugin_of file) (plugins_of files)

  load_file-registered :
      (file : DirEntry) (l : Loader)
      → load_file join open_plugin cfg file l
        ≡ registered (trim_suffix file.name ".so") (plugin_of file) l
  unfolding load_file registered
  load_file-registered file l =
      gated file.is_dir (has_suffix file.name ".so") (is_wanted cfg (trim_suffix file.name ".so"))
        (trim_suffix file.name ".so") (load_plugin (open_plugin (join cfg.dir file.name))) l

  -- What the loader has after the entries, if no name comes twice.
  abbrev after : Dict Plugin → Loader → Loader
  after found l = record {
    loaded_plugins = l.loaded_plugins ++ found;
    set_up = l.set_up ++ map (λ e. e.1) found;
  }

  registered-after :
      (name : String) (p : Option Plugin) (found : Dict Plugin) (l : Loader)
      → HasDistinctKeys (l.loaded_plugins ++ and_found name p found)
      → (after found (registered name p l) ≡ after (and_found name p found) l)
        × HasDistinctKeys ((registered name p l).loaded_plugins ++ found)
  unfolding registered
  registered-after name none found l d = (refl, d)
  registered-after name (some p) found l d =
      let loaded = l.loaded_plugins in
      let added : insert name p loaded ≡ loaded ++ (name, p) ∷ [] =
        insert-new name p loaded (HasDistinctKeys-middle name p loaded found d) in
      let joined : insert name p loaded ++ found ≡ loaded ++ (name, p) ∷ found =
        ap (λ x. x ++ found) added ∙ append_assoc loaded ((name, p) ∷ []) found in
      let set_up = append_assoc l.set_up (p ∷ []) (map (λ e. e.1) found) in
      (
        λ i. record { loaded_plugins = joined i; set_up = set_up i },
        subst HasDistinctKeys (sym joined) d,
      )

  load_files-after :
      (files : List DirEntry) (l : Loader)
      → HasDistinctKeys (l.loaded_plugins ++ plugins_of files)
      → load_files join open_plugin cfg files l ≡ after (plugins_of files) l
  unfolding load_files
  load_files-after [] l d = λ i. record {
    loaded_plugins = sym (append-nil l.loaded_plugins) i;
    set_up = sym (append-nil l.set_up) i;
  }
  load_files-after (file ∷ files) l d =
      let name = trim_suffix file.name ".so" in
      let (same, d') = registered-after name (plugin_of file) (plugins_of files) l d in
      ap (load_files join open_plugin cfg files) (load_file-registered file l)
      ∙ load_files-after files (registered name (plugin_of file) l) d'
      ∙ same

  -- With a directory that can be read and no two of its plugins of one name.
  pub load_plugins-after :
      (files : List DirEntry)
      → str_eq cfg.dir "" ≡ false
      → HasDistinctKeys (plugins_of files)
      → let l = load_plugins join open_plugin cfg (some files) new_loader in
        (l.loaded_plugins ≡ plugins_of files) × (l.set_up ≡ map (λ e. e.1) (plugins_of files))
  unfolding load_plugins
  load_plugins-after files dir d =
      let same = load_files-after files new_loader d in rw (dir, same) (refl, refl)
