-- ===== src/Plugins/Directory.antt =====
-- A directory by what stands in it, and the plugins that it gives.
use Prim.Native.String.{◌++◌ as str_append, len, slice}
use text.Mathlib.TextPositions.{len-append, slice-append_left, slice-append_right}
use mini_gateway.Common.{
  ◌+◌, ◌-◌, ◌≡◌, refl, sym, ap, subst, ◌∙◌, arith, String, Bool, true, false, ◌&&◌, ◌||◌, ◌==◌,
  length, any, leb, List, [], ◌∷◌, map, All, none, some, Dict, str_eq, if◌then◌else◌,
}
use mini_gateway.Config.Views.{HasDistinctKeys}
use mini_gateway.Plugins.{
  Plugin, DirEntry, PluginConfig, Opened, not_opened, no_symbol, other_type, constructs, is_wanted,
  new_loader, has_suffix, trim_suffix, load_plugin, load_plugins,
}
use mini_gateway.Plugins.Loaded.{and_found, plugins_of, load_plugins-after}

-- A file that ends in ".so" is given by its name without it.
pub data Item : Type 0 where
  folder plugin_file other_file : String → Item

abbrev pub entry_of : Item → DirEntry
entry_of (folder name) = record { name = name; is_dir = true }
entry_of (plugin_file base) = record { name = str_append base ".so"; is_dir = false }
entry_of (other_file name) = record { name = name; is_dir = false }

abbrev pub IsNamed : Item → Type 0
IsNamed (folder name) = Unit
IsNamed (plugin_file base) = Unit
IsNamed (other_file name) = has_suffix name ".so" ≡ false

length_of : (base : String) → len (str_append base ".so") ≡ len base + 3
length_of base = len-append base ".so"

start_of : (base : String) → len (str_append base ".so") - len ".so" ≡ len base
start_of base = let whole = length_of base in omega (arith, whole)

long_enough : (base : String) → leb (len ".so") (len (str_append base ".so")) ≡ true
long_enough base = let whole = length_of base in ground (arith, whole)

has_suffix-so : (base : String) → has_suffix (str_append base ".so") ".so" ≡ true
has_suffix-so base =
    let whole = str_append base ".so" in
    let ends : slice whole (len whole - len ".so") (len whole) ≡ ".so" =
      (λ i. slice whole (start_of base i) (length_of base i)) ∙ slice-append_right base ".so" in
    (λ i. long_enough base i && str_eq (ends i) ".so")

trim_suffix-so : (base : String) → trim_suffix (str_append base ".so") ".so" ≡ base
trim_suffix-so base =
    let whole = str_append base ".so" in
    (λ i. if has_suffix-so base i then slice whole 0 (len whole - len ".so") else whole)
    ∙ (λ i. slice whole 0 (start_of base i))
    ∙ slice-append_left base ".so"

module _ (join : String → String → String) (open_plugin : String → Opened)
    (cfg : PluginConfig) where
  -- No names are all names.
  abbrev wants : List String → String → Bool
  wants [] base = true
  wants (name ∷ names) base = any (λ n. str_eq n base) (name ∷ names)

  abbrev constructed : Opened → Dict Plugin → String → Dict Plugin
  constructed (constructs p) later base = (base, p) ∷ later
  constructed opened later base = later

  -- Each file that ends in ".so", that the configuration names, unless it names none, and that constructs a plugin,
  -- with its name.
  abbrev pub plugins_in : List Item → Dict Plugin
  plugins_in [] = []
  plugins_in (folder name ∷ items) = plugins_in items
  plugins_in (other_file name ∷ items) = plugins_in items
  plugins_in (plugin_file base ∷ items) =
      let later = plugins_in items in
      if wants cfg.plugins base
      then constructed (open_plugin (join cfg.dir (str_append base ".so"))) later base
      else later

  wants_lem :
      (names : List String) (base : String)
      → (length names == 0 || any (λ n. str_eq n base) names) ≡ wants names base
  wants_lem [] base = refl
  wants_lem (name ∷ names) base =
      let some_name : (length (name ∷ names) == 0) ≡ false = ground arith in rw some_name refl

  found_if :
      (w : Bool) (opened : Opened) (base : String) (later : Dict Plugin)
      → and_found join open_plugin cfg base (if w then load_plugin opened else none) later
        ≡ (if w then constructed opened later base else later)
  found_if false opened base later = refl
  found_if true not_opened base later = refl
  found_if true no_symbol base later = refl
  found_if true other_type base later = refl
  found_if true (constructs p) base later = refl

  plugins_of-items :
      (items : List Item)
      → All IsNamed items
      → plugins_of join open_plugin cfg (map entry_of items) ≡ plugins_in items
  plugins_of-items [] h = refl
  plugins_of-items (folder name ∷ items) (here, there) = plugins_of-items items there
  plugins_of-items (other_file name ∷ items) (here, there) =
      (λ i.
        and_found join open_plugin cfg (trim_suffix name ".so")
          (if here i && is_wanted cfg (trim_suffix name ".so")
            then load_plugin (open_plugin (join cfg.dir name))
            else none)
          (plugins_of join open_plugin cfg (map entry_of items)))
      ∙ plugins_of-items items there
  plugins_of-items (plugin_file base ∷ items) (here, there) =
      let opened = open_plugin (join cfg.dir (str_append base ".so")) in
      (λ i.
        and_found join open_plugin cfg (trim_suffix-so base i)
          (if has_suffix-so base i && is_wanted cfg (trim_suffix-so base i)
            then load_plugin opened
            else none)
          (plugins_of-items items there i))
      ∙ (λ i.
          and_found join open_plugin cfg base
            (if wants_lem cfg.plugins base i then load_plugin opened else none) (plugins_in items))
      ∙ found_if (wants cfg.plugins base) opened base (plugins_in items)

  -- With a directory that can be read, in which no two files that end in ".so" give plugins of one name: the loader
  -- keeps just the plugins of the files that end in ".so", whose name without it the configuration names, unless it
  -- names none, and that construct a plugin, under these names; and it sets each of them up once, in the order of the
  -- directory. Folders and other files are left alone.
  pub load_plugins_lem :
      (items : List Item)
      → All IsNamed items
      → str_eq cfg.dir "" ≡ false
      → HasDistinctKeys (plugins_in items)
      → let l = load_plugins join open_plugin cfg (some (map entry_of items)) new_loader in
        (l.loaded_plugins ≡ plugins_in items) × (l.set_up ≡ map (λ e. e.1) (plugins_in items))
  load_plugins_lem items named dir d =
      let same = plugins_of-items items named in
      let (kept, set_up) =
        load_plugins-after join open_plugin cfg (map entry_of items) dir
          (subst HasDistinctKeys (sym same) d) in
      (kept ∙ same, set_up ∙ ap (map (λ e. e.1)) same)
