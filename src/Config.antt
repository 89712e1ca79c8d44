-- ===== src/Config.antt =====
-- internal/config: the files of settings under ~/.baleen. encoding/json is
-- not modelled: a file is known by the fields that json.Unmarshal finds in it, and what MarshalIndent
-- writes is taken to have the fields of the value. A field that is missing keeps the zero value.
pub mod Saved
use baleen_engine.Base.{
  Bool, true, false, Option, none, some, List, [], ◌∷◌, Text, if◌then◌else◌, trim_space, Result, ok,
  err, text,
}
use baleen_engine.Base.Int.{ℤ, pos}

-- NetworkSettings and TransferSettings
pub record NetworkSettings : Type 0 where
  pub mdns_discovery : Bool
  pub broadcast_presence : Bool

pub record TransferSettings : Type 0 where
  pub auto_approve : Bool
  pub max_bandwidth : ℤ

-- What a file decodes to, before its missing fields are filled in.
pub record NetworkJson : Type 0 where
  pub mdns_discovery : Option Bool
  pub broadcast_presence : Option Bool

pub record TransferJson : Type 0 where
  pub auto_approve : Option Bool
  pub max_bandwidth : Option ℤ

-- A file that is not there, one that does not decode, and one that does.
pub data SavedAs (A : Type 0) : Type 0 where
  missing garbled : SavedAs A
  decoded : A → SavedAs A

pub record Settings : Type 0 where
  pub network : SavedAs NetworkJson
  pub transfer : SavedAs TransferJson
  pub node_name : Option Text

-- Which of the three files can be written.
pub record Writable : Type 0 where
  pub network : Bool
  pub transfer : Bool
  pub node_name : Bool

-- DefaultNetworkSettings and DefaultTransferSettings
abbrev pub default_network_settings : NetworkSettings
default_network_settings = record { mdns_discovery = true; broadcast_presence = true }

abbrev pub default_transfer_settings : TransferSettings
default_transfer_settings = record { auto_approve = false; max_bandwidth = pos 0 }

unfoldable pub or_zero {ℓ} : {A : Type ℓ} → A → Option A → A
or_zero zero_value none = zero_value
or_zero zero_value (some a) = a

-- LoadNetworkSettings
unfoldable pub load_network_settings : Settings → NetworkSettings
unfolding or_zero
load_network_settings s = elim s.network [
  | missing ↦ default_network_settings
  | garbled ↦ default_network_settings
  | decoded json ↦ record {
    mdns_discovery = or_zero false json.mdns_discovery;
    broadcast_presence = or_zero false json.broadcast_presence;
  }
]

-- LoadTransferSettings
unfoldable pub load_transfer_settings : Settings → TransferSettings
unfolding or_zero
load_transfer_settings s = elim s.transfer [
  | missing ↦ default_transfer_settings
  | garbled ↦ default_transfer_settings
  | decoded json ↦ record {
    auto_approve = or_zero false json.auto_approve;
    max_bandwidth = or_zero (pos 0) json.max_bandwidth;
  }
]

abbrev pub denied : Text
denied = text "permission denied"

-- SaveNetworkSettings
unfoldable pub save_network_settings :
    Writable → NetworkSettings → Settings → Settings × Result (Unit {0})
save_network_settings may n s =
    if may.network
    then (
      record s {
        network = decoded (record {
          mdns_discovery = some n.mdns_discovery;
          broadcast_presence = some n.broadcast_presence;
        });
      },
      ok tt,
    )
    else (s, err denied)

-- SaveTransferSettings
unfoldable pub save_transfer_settings :
    Writable → TransferSettings → Settings → Settings × Result (Unit {0})
save_transfer_settings may t s =
    if may.transfer
    then (
      record s {
        transfer =
            decoded
              (record { auto_approve = some t.auto_approve; max_bandwidth = some t.max_bandwidth });
      },
      ok tt,
    )
    else (s, err denied)

-- SaveNodeName and LoadNodeName
unfoldable pub save_node_name : Writable → Text → Settings → Settings × Result (Unit {0})
save_node_name may name s =
    if may.node_name
    then (record s { node_name = some (trim_space name) }, ok tt)
    else (s, err denied)

unfoldable pub load_node_name : Settings → Text
load_node_name s = elim s.node_name [ none ↦ [] | some bytes ↦ trim_space bytes ]
