-- ===== src/Ledger/Layers.antt =====
-- The memory of cached layers.
use baleen_engine.Base.{◌≡◌, false, ◌||◌, List, [], ◌∷◌, arith, Text, elem, text_eq}
use baleen_engine.Ledger.{mark_layers_as_owned, has_layer, clear_cache_memory}
use baleen_engine.Ledger.Interface.{Bucket}

module _ (K : Bucket (Unit {0})) where
  -- HasLayer answers true for the layers that were marked and for those that were known, and for no
  -- others; after ClearCacheMemory, for none.
  pub has_layer-mark :
      (layer : Text) (layers : List Text) (s : K.Store)
      → (has_layer K (mark_layers_as_owned K layers s) layer
          ≡ elem layer layers || has_layer K s layer)
        × (has_layer K (clear_cache_memory K s) layer ≡ false)
  unfolding has_layer mark_layers_as_owned clear_cache_memory elem
  has_layer-mark layer [] s = ground (arith, K.get-empty layer)
  has_layer-mark layer (l ∷ ls) s =
      ground
        (arith, K.get-empty layer, K.get-put l layer tt s, has_layer-mark layer ls (K.put l tt s))
