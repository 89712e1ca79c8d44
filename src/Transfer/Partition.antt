-- ===== src/Transfer/Partition.antt =====
-- partitionLayers of internal/transfer/receiver.go; the ledger's HasLayer is an argument.
use baleen_engine.Base.{
  ◌≡◌, Bool, not, ◌&&◌, List, [], ◌∷◌, Text, ==_iff, if◌then◌else◌, elem, arith, text_eq,
}

unfoldable pub partition_layers : (Text → Bool) → List Text → List Text × List Text
partition_layers has_layer [] = ([], [])
partition_layers has_layer (digest ∷ rest) =
    let (missing, owned) = partition_layers has_layer rest in
    if has_layer digest then (missing, digest ∷ owned) else (digest ∷ missing, owned)

module _ (has_layer : Text → Bool) where
  pub elem-missing :
      (k : Text) (ds : List Text)
      → elem k (partition_layers has_layer ds).0 ≡ elem k ds && not (has_layer k)
  unfolding partition_layers elem
  elem-missing k [] = ground arith
  elem-missing k (d ∷ ds) = ground (arith, ==_iff d k, elem-missing k ds)

  pub elem-owned :
      (k : Text) (ds : List Text)
      → elem k (partition_layers has_layer ds).1 ≡ elem k ds && has_layer k
  unfolding partition_layers elem
  elem-owned k [] = ground arith
  elem-owned k (d ∷ ds) = ground (arith, ==_iff d k, elem-owned k ds)
