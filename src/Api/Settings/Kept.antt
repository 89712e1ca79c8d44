-- ===== src/Api/Settings/Kept.antt =====
-- internal/api/handlers/network.go, transfer_settings.go, settings.go and node_name.go: what the next
-- start of the daemon finds.
use baleen_engine.Base.{
  true, some, [], Text, ==_iff, text_eq, trim_space, trim_left, trim_right, ◌≡◌, arith,
}
use baleen_engine.Config.{
  NetworkJson, TransferJson, Writable, default_network_settings, default_transfer_settings,
  load_network_settings, load_transfer_settings, load_node_name, save_network_settings,
  save_transfer_settings, save_node_name, or_zero,
}
use baleen_engine.Config.Saved.{trim_space_idem}
use baleen_engine.Network.Discovery.{set_discovery, set_broadcast, update_node_name}
use baleen_engine.Api.Settings.{
  Node, clear_peers, apply_discovery, apply_broadcast, post_network, or_old, post_transfer,
  post_node_name, reset_controller, reset_settings,
}

-- Where the settings can be written: after a request for the network settings the controller has
-- the fields that the request gives and keeps those it does not, and the next start loads just its
-- flags.
pub post_network_kept :
    (may : Writable) (req : NetworkJson) (node : Node)
    → may.network ≡ true
    → let after = (post_network may (some req) node).0 in
      (after.controller.discovery_enabled
        ≡ or_old node.controller.discovery_enabled req.mdns_discovery)
      × (after.controller.broadcast_enabled
          ≡ or_old node.controller.broadcast_enabled req.broadcast_presence)
      × (load_network_settings after.settings ≡ record {
        mdns_discovery = after.controller.discovery_enabled;
        broadcast_presence = after.controller.broadcast_enabled;
      })
unfolding post_network apply_discovery apply_broadcast clear_peers set_discovery set_broadcast
    or_old save_network_settings load_network_settings or_zero
post_network_kept may req node h = (ground (arith, h), ground (arith, h), ground (arith, h))

-- Where the settings can be written: a request for the transfer settings changes the fields it gives,
-- and no other, of what the next transfer and the next start load.
pub post_transfer_kept :
    (may : Writable) (req : TransferJson) (node : Node)
    → may.transfer ≡ true
    → let old = load_transfer_settings node.settings in
      let new = load_transfer_settings (post_transfer may (some req) node).0.settings in
      (new.auto_approve ≡ or_old old.auto_approve req.auto_approve)
      × (new.max_bandwidth ≡ or_old old.max_bandwidth req.max_bandwidth)
unfolding post_transfer save_transfer_settings load_transfer_settings or_zero
post_transfer_kept may req node h = (ground (arith, h), ground (arith, h))

-- Where the settings can be written: a name that is not blank becomes the controller's and that of
-- the next start, without the spaces around it.
pub post_node_name_kept :
    (may : Writable) (name : Text) (node : Node)
    → may.node_name ≡ true
    → (trim_space name ≡ [] → ⊥)
    → let after = (post_node_name may (some name) node).0 in
      (after.controller.node_name ≡ trim_space name)
      × (load_node_name after.settings ≡ trim_space name)
unfolding post_node_name save_node_name load_node_name update_node_name
post_node_name_kept may name node h there = (
  ground (
    arith,
    h,
    ==_iff (trim_space name) [],
    there,
    ==_iff node.controller.node_name (trim_space name),
  ),
  ground (
    arith,
    h,
    ==_iff (trim_space name) [],
    there,
    trim_space_idem name,
    trim_space_idem (trim_space name),
  ),
)

-- Where the settings can be written: after a reset both switches of the controller are on, the next
-- start loads the default settings and no name, and the controller has the new name.
pub reset_then_defaults :
    (may : Writable) (new_name : Text) (node : Node)
    → may.network ≡ true
    → may.transfer ≡ true
    → may.node_name ≡ true
    → let after = (reset_settings may new_name node).0 in
      (after.controller.discovery_enabled ≡ true)
      × (after.controller.broadcast_enabled ≡ true)
      × (after.controller.node_name ≡ new_name)
      × (load_network_settings after.settings ≡ default_network_settings)
      × (load_transfer_settings after.settings ≡ default_transfer_settings)
      × (load_node_name after.settings ≡ [])
unfolding reset_settings reset_controller set_discovery set_broadcast update_node_name
    save_network_settings save_transfer_settings save_node_name load_network_settings
    load_transfer_settings load_node_name or_zero trim_space trim_left trim_right
reset_then_defaults may new_name node network transfer named = (
  ground (arith, network, transfer, named, ==_iff node.controller.node_name new_name),
  ground (arith, network, transfer, named, ==_iff node.controller.node_name new_name),
  ground (arith, network, transfer, named, ==_iff node.controller.node_name new_name),
  ground (arith, network, transfer, named),
  ground (arith, network, transfer, named),
  ground (arith, network, transfer, named),
)
