-- ===== src/Plugins.antt =====
-- plugins/loader.go, with getPluginStatus of cmd/gateway/main.go. The directory that is read and Go's plugin
-- package are arguments.
mod Loaded
mod Directory
mod Tests
use Prim.Native.String.{len, slice}
use mini_gateway.Common.{
  ℕ, ◌-◌, String, Bool, true, false, not, ◌&&◌, ◌||◌, List, [], ◌∷◌, ◌++◌, map, any, Option, none,
  some, Dict, insert, length, leb, ◌==◌, str_eq, if◌then◌else◌,
}

pub record Plugin : Type 0 where
  pub name : String
  pub description : String
  pub version : String

pub record DirEntry : Type 0 where
  pub name : String
  pub is_dir : Bool

-- `cfg.Plugin`.
pub record PluginConfig : Type 0 where
  pub dir : String
  pub plugins : List String

-- What the package offers for a path: whether it opens, has the symbol, and what a constructor of that
-- type gives.
pub data Opened : Type 0 where
  not_opened no_symbol other_type : Opened
  constructs : Plugin → Opened

-- The plugins by their names, a Go map, and those that were set up, in that order.
pub record Loader : Type 0 where
  pub loaded_plugins : Dict Plugin
  pub set_up : List Plugin

abbrev pub new_loader : Loader
new_loader = record { loaded_plugins = []; set_up = [] }

abbrev pub has_suffix : String → String → Bool
has_suffix s suffix =
    leb (len suffix) (len s) && str_eq (slice s (len s - len suffix) (len s)) suffix

abbrev pub trim_suffix : String → String → String
trim_suffix s suffix = if has_suffix s suffix then slice s 0 (len s - len suffix) else s

-- `loadPlugin`; `none` is an error.
abbrev pub load_plugin : Opened → Option Plugin
load_plugin not_opened = none
load_plugin no_symbol = none
load_plugin other_type = none
load_plugin (constructs p) = some p

abbrev pub is_wanted : PluginConfig → String → Bool
is_wanted cfg name = length cfg.plugins == 0 || any (λ p. str_eq p name) cfg.plugins

abbrev pub registered : String → Option Plugin → Loader → Loader
unfolding insert
registered name none l = l
registered name (some p) l = record {
  loaded_plugins = insert name p l.loaded_plugins;
  set_up = l.set_up ++ p ∷ [];
}

-- `join` is `filepath.Join`.
module _ (join : String → String → String) (open_plugin : String → Opened) where
  -- One round of the loop.
  unfoldable pub load_file : PluginConfig → DirEntry → Loader → Loader
  unfolding registered
  load_file cfg file l =
      let name = trim_suffix file.name ".so" in
      let path = join cfg.dir file.name in
      if file.is_dir || not (has_suffix file.name ".so")
      then l
      else if is_wanted cfg name
      then registered name (load_plugin (open_plugin path)) l
      else l

  unfoldable pub load_files : PluginConfig → List DirEntry → Loader → Loader
  unfolding load_file
  load_files cfg [] l = l
  load_files cfg (file ∷ files) l = load_files cfg files (load_file cfg file l)

  abbrev loaded_from : PluginConfig → Option (List DirEntry) → Loader → Loader
  unfolding load_files
  loaded_from cfg none l = l
  loaded_from cfg (some files) l = load_files cfg files l

  -- `LoadPlugins`; `none` is an error of `os.ReadDir`.
  unfoldable pub load_plugins : PluginConfig → Option (List DirEntry) → Loader → Loader
  unfolding loaded_from
  load_plugins cfg dir l = if str_eq cfg.dir "" then l else loaded_from cfg dir l

-- `range` is the order in which a loop over the map meets its entries.
unfoldable pub get_loaded_plugins : (Dict Plugin → Dict Plugin) → Loader → List Plugin
get_loaded_plugins range l = map (λ e. e.1) (range l.loaded_plugins)
