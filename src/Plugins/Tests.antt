-- ===== src/Plugins/Tests.antt =====
-- A directory with a folder, a text and two plugins.
use mini_gateway.Common.{◌≡◌, refl, String, List, [], ◌∷◌, map, some, str_eq, if◌then◌else◌, lookup}
use Prim.Native.String.{◌++◌ as str_append}
use mini_gateway.Plugins.{
  Plugin, PluginConfig, Opened, not_opened, constructs, new_loader, load_plugins,
}
use mini_gateway.Plugins.Directory.{
  Item, folder, plugin_file, other_file, entry_of, plugins_in, load_plugins_lem,
}

abbrev log : Plugin
log = record { name = "Log"; description = "logs requests"; version = "1.0.0" }

abbrev open_plugin : String → Opened
open_plugin path = if str_eq path "bin/plugins/log.so" then constructs log else not_opened

abbrev join : String → String → String
join dir name = str_append dir (str_append "/" name)

abbrev items : List Item
items = folder "data.so" ∷ plugin_file "log" ∷ plugin_file "ping" ∷ other_file "readme" ∷ []

abbrev config : PluginConfig
config = record { dir = "bin/plugins"; plugins = [] }

plugins_given : plugins_in join open_plugin config items ≡ ("log", log) ∷ []
plugins_given = refl

load_plugins_lem_example :
    let l = load_plugins join open_plugin config (some (map entry_of items)) new_loader in
    (l.loaded_plugins ≡ plugins_in join open_plugin config items)
    × (l.set_up ≡ map (λ e. e.1) (plugins_in join open_plugin config items))
unfolding lookup
load_plugins_lem_example =
    load_plugins_lem join open_plugin config items (tt, (tt, (tt, (refl, tt)))) refl (refl, tt)
