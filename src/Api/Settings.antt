-- ===== src/Api/Settings.antt =====
-- internal/api/handlers/network.go, transfer_settings.go, settings.go and node_name.go: the handlers
-- of the settings. The daemon has its network controller; ctx.PeerRegistry is the controller's.
pub mod Kept
use baleen_engine.Base.{
  ℕ, Bool, true, false, not, Option, none, some, List, [], ◌∷◌, Text, text, ◌==◌, if◌then◌else◌,
  text_eq, trim_space, Result, ok, err,
}
use baleen_engine.Base.Int.{ℤ}
use baleen_engine.Config.{
  NetworkSettings, TransferSettings, NetworkJson, TransferJson, Settings, Writable,
  default_network_settings, default_transfer_settings, load_transfer_settings,
  save_network_settings, save_transfer_settings, save_node_name,
}
use baleen_engine.Network.Peers.{clear_mdns_peers}
use baleen_engine.Network.Discovery.{
  NetworkController, set_discovery, set_broadcast, update_node_name,
}

-- The state that the handlers change.
pub record Node : Type 0 where
  pub controller : NetworkController
  pub settings : Settings

-- ctx.PeerRegistry.ClearMDNSPeers()
unfoldable pub clear_peers : NetworkController → NetworkController
clear_peers nc = record nc { registry = clear_mdns_peers nc.registry }

-- A field of the body of NetworkSettings, if it is there.
unfoldable pub apply_discovery : Option Bool → NetworkController → NetworkController
unfolding clear_peers
apply_discovery none nc = nc
apply_discovery (some true) nc = set_discovery true nc
apply_discovery (some false) nc = clear_peers (set_discovery false nc)

unfoldable pub apply_broadcast : Option Bool → NetworkController → NetworkController
apply_broadcast none nc = nc
apply_broadcast (some enabled) nc = set_broadcast enabled nc

-- 400; 200; 200 with a warning; 500
pub data SettingsResponse (A : Type 0) : Type 0 where
  refused : SettingsResponse A
  applied : A → SettingsResponse A
  applied_unsaved : A → Text → SettingsResponse A
  failed : Text → SettingsResponse A

-- POST of NetworkSettings; `none` is a body that does not decode
unfoldable pub post_network :
    Writable → Option NetworkJson → Node → Node × SettingsResponse NetworkSettings
unfolding apply_discovery apply_broadcast
post_network may none node = (node, refused)
post_network may (some req) node =
    let nc =
      apply_broadcast req.broadcast_presence (apply_discovery req.mdns_discovery node.controller) in
    let updated : NetworkSettings = record {
      mdns_discovery = nc.discovery_enabled;
      broadcast_presence = nc.broadcast_enabled;
    } in
    let (settings, saved) = save_network_settings may updated node.settings in
    (
      record { controller = nc; settings = settings },
      elim saved [ ok _ ↦ applied updated | err e ↦ applied_unsaved updated e ],
    )

unfoldable pub or_old {ℓ} : {A : Type ℓ} → A → Option A → A
or_old old none = old
or_old old (some a) = a

-- POST of TransferSettings
unfoldable pub post_transfer :
    Writable → Option TransferJson → Node → Node × SettingsResponse TransferSettings
unfolding or_old
post_transfer may none node = (node, refused)
post_transfer may (some req) node =
    let old = load_transfer_settings node.settings in
    let updated : TransferSettings = record {
      auto_approve = or_old old.auto_approve req.auto_approve;
      max_bandwidth = or_old old.max_bandwidth req.max_bandwidth;
    } in
    let (settings, saved) = save_transfer_settings may updated node.settings in
    (
      record node { settings = settings },
      elim saved [ ok _ ↦ applied updated | err e ↦ applied_unsaved updated e ],
    )

-- POST of NodeName, by the name of its body
unfoldable pub post_node_name : Writable → Option Text → Node → Node × SettingsResponse Text
post_node_name may none node = (node, refused)
post_node_name may (some requested) node =
    let name = trim_space requested in
    if name == []
    then (node, refused)
    else (let (settings, saved) = save_node_name may name node.settings in
        elim saved [
          | err e ↦ (record node { settings = settings }, failed e)
          | ok _ ↦ (
            record { controller = update_node_name name node.controller; settings = settings },
            applied name,
          )
        ])

-- The controller's part of ResetSettings: the defaults have discovery on.
unfoldable pub reset_controller : NetworkController → NetworkController
reset_controller nc =
    set_broadcast default_network_settings.broadcast_presence
      (set_discovery default_network_settings.mdns_discovery nc)

-- ResetSettings, with the name that GenerateNodeName gives
unfoldable pub reset_settings : Writable → Text → Node → Node × SettingsResponse Text
unfolding reset_controller
reset_settings may new_name node =
    let nc = reset_controller node.controller in
    let (s, saved) = save_network_settings may default_network_settings node.settings in
    elim saved [
      | err e ↦ (record { controller = nc; settings = s }, failed e)
      | ok _ ↦
          let (s', saved') = save_transfer_settings may default_transfer_settings s in
          elim saved' [
            | err e ↦ (record { controller = nc; settings = s' }, failed e)
            | ok _ ↦
                let (s'', saved'') = save_node_name may [] s' in
                elim saved'' [
                  | err e ↦ (record { controller = nc; settings = s'' }, failed e)
                  | ok _ ↦ (
                    record { controller = update_node_name new_name nc; settings = s'' },
                    applied new_name,
                  )
                ]
          ]
    ]
