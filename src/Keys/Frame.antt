-- ===== src/Keys/Frame.antt =====
-- internal/keys leaves the configuration in memory alone.
use slipgate.Prelude.{Bytes}
use slipgate.Config.{Config}
use slipgate.Host.{Env, Action, World, Result}
use slipgate.Host.Keeps.{Keeps}
use slipgate.Host.Frame.{InMemory, machine_rules}
use slipgate.Keys.{
  Crypto, wrap, key_bytes, derive, write_keys, generate_keys, import_keys, import_key_pair,
}

module _ {P : Config → Type 0} where
  wrap-InMemory :
      {A : Type 0} (m : Action A) (text : Bytes)
      → Keeps (InMemory P) m
      → Keeps (InMemory P) (wrap m text)
  unfolding wrap
  wrap-InMemory m text k = search machine_rules

  key_bytes-InMemory :
      (crypto : Crypto) (which text : Bytes) → Keeps (InMemory P) (key_bytes crypto which text)
  unfolding key_bytes
  key_bytes-InMemory crypto which text = search machine_rules

  derive-InMemory : (crypto : Crypto) (private : Bytes) → Keeps (InMemory P) (derive crypto private)
  unfolding derive
  derive-InMemory crypto private = search machine_rules

  -- reading from the world changes nothing
  draw-InMemory : {A : Type 0} (f : World → Result A) → Keeps (InMemory P) (λ w. (f w, w))
  draw-InMemory f = record { at = λ w h. h }

module _ ⦃env : Env⦄ {P : Config → Type 0} where
  write_keys-InMemory : (a b c d : Bytes) → Keeps (InMemory P) (write_keys a b c d)
  unfolding write_keys
  write_keys-InMemory a b c d = search (machine_rules, wrap-InMemory)

  pub generate_keys-InMemory :
      (crypto : Crypto) (a b : Bytes) → Keeps (InMemory P) (generate_keys crypto a b)
  unfolding generate_keys
  generate_keys-InMemory crypto a b =
      search (machine_rules, wrap-InMemory, derive-InMemory, write_keys-InMemory, draw-InMemory)

  pub import_keys-InMemory :
      (crypto : Crypto) (k a b : Bytes) → Keeps (InMemory P) (import_keys crypto k a b)
  unfolding import_keys
  import_keys-InMemory crypto k a b =
      search (machine_rules, key_bytes-InMemory, derive-InMemory, write_keys-InMemory)

  pub import_key_pair-InMemory :
      (crypto : Crypto) (k p a b : Bytes) → Keeps (InMemory P) (import_key_pair crypto k p a b)
  unfolding import_key_pair
  import_key_pair-InMemory crypto k p a b =
      search (machine_rules, key_bytes-InMemory, derive-InMemory, write_keys-InMemory) depth 8

pub ruleset keys_rules = (generate_keys-InMemory, import_keys-InMemory, import_key_pair-InMemory)
