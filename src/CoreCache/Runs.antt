-- ===== src/CoreCache/Runs.antt =====
-- Every list of calls to the cache manager, against the dictionary that forgets nothing.
use tobs.Prelude.{ℕ, List, [], ◌∷◌}
use tobs.CoreCache.Codec.{Codecs, Settings}
use tobs.CoreCache.Codec.Roundtrip.{AreInverse, Faithful}
use tobs.CoreCache.{Op, get_op, set_op, delete_op, clear_op, cleanup_op}

module _ {K B O : Type 0} {IsJson : O → Type 0} (dec : Discrete K) (c : Codecs B O) (s : Settings)
    (laws : AreInverse IsJson c) where
  -- Each value that is stored is one that compression gives back.
  abbrev pub StoresFaithful : List (ℕ × Op K B O) → Type 0
  StoresFaithful [] = Unit
  StoresFaithful ((now, set_op key value ttl) ∷ calls) =
      Faithful c s laws value × StoresFaithful calls
  StoresFaithful ((now, get_op key) ∷ calls) = StoresFaithful calls
  StoresFaithful ((now, delete_op key) ∷ calls) = StoresFaithful calls
  StoresFaithful ((now, clear_op) ∷ calls) = StoresFaithful calls
  StoresFaithful ((now, cleanup_op) ∷ calls) = StoresFaithful calls
