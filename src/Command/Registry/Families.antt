-- ===== src/Command/Registry/Families.antt =====
-- What holds of every spec of the program's tables holds of what Lookup finds.
use goredis_main.Prelude.{
  ◌≡◌, List, [], ◌∷◌, ◌++◌, some, Bytes, bytes_eq, bytes_eq_sound, All, All-append, Bool-cases, inl,
  inr, arith,
}
use mathlib.Core.Path.{subst₂}
use goredis_main.GoMap.{Map, lookup, insert}
use goredis_main.Command.{Env}
use goredis_main.Command.Registry.{
  Spec, register, all_commands, new_registry, connection_commands, generic_commands,
  string_commands, hash_commands, list_commands, set_commands, zset_commands, server_commands,
  pubsub_commands, transaction_commands,
}

-- A property of each spec of a table under its name.
abbrev pub Each : (Bytes → Spec → Type 0) → List Spec → Type 0
Each P specs = All (λ spec. P spec.name spec) specs

infixr 20 ◌&◌
abbrev pub ◌&◌ {ℓ κ} : {A : Type ℓ} {B : Type κ} → A → B → A × B
a & b = (a, b)

module _ (P : Bytes → Spec → Type 0) where
  -- A property of the specs of every table.
  pub record Families (env : Env) : Type 0 where
    pub connection : Each P connection_commands
    pub generic : Each P (generic_commands env)
    pub string : Each P string_commands
    pub hash : Each P hash_commands
    pub list : Each P list_commands
    pub set : Each P set_commands
    pub zset : Each P (zset_commands env)
    pub server : Each P (server_commands env)
    pub pubsub : Each P pubsub_commands
    pub transaction : Each P transaction_commands

  join : (xs ys : List Spec) → Each P xs → Each P ys → Each P (xs ++ ys)
  join xs ys = All-append (λ spec. P spec.name spec) xs ys

  Each-all_commands : {env : Env} → Families env → Each P (all_commands env)
  unfolding all_commands
  Each-all_commands f =
      join _ _
        (join _ _
          (join _ _
            (join _ _
              (join _ _
                (join _ _ (join _ _ (join _ _ (join _ _ f.connection f.generic) f.string) f.hash)
                  f.list)
                f.set)
              f.zset)
            f.server)
          f.pubsub)
        f.transaction

  abbrev EachEntry : Map Spec → Type 0
  EachEntry [] = Unit
  EachEntry ((k, spec) ∷ m) = P k spec × EachEntry m

  insert-EachEntry :
      (k : Bytes) (spec : Spec) (m : Map Spec)
      → P k spec
      → EachEntry m
      → EachEntry (insert k spec m)
  unfolding insert
  insert-EachEntry k spec [] g h = (g, tt)
  insert-EachEntry k spec ((j, other) ∷ m) g h = elim (Bool-cases (bytes_eq j k)) [
    | inl e ↦ rw e (g, h.1)
    | inr e ↦ rw e (h.0, insert-EachEntry k spec m g h.1)
  ]

  register-EachEntry :
      (specs : List Spec) (m : Map Spec) → Each P specs → EachEntry m → EachEntry (register specs m)
  unfolding register
  register-EachEntry [] m g h = h
  register-EachEntry (spec ∷ specs) m g h =
      register-EachEntry specs (insert spec.name spec m) g.1
        (insert-EachEntry spec.name spec m g.0 h)

  lookup-EachEntry :
      (k : Bytes) (m : Map Spec) {spec : Spec} → EachEntry m → lookup k m ≡ some spec → P k spec
  unfolding lookup
  lookup-EachEntry k [] h e = cc
  lookup-EachEntry k ((j, other) ∷ m) {spec} h e = elim (Bool-cases (bytes_eq j k)) [
    | inl same ↦ let e' : other ≡ spec = ground arith in subst₂ P (bytes_eq_sound j k same) e' h.0
    | inr other' ↦ lookup-EachEntry k m h.1 (rw other' at e)
  ]

  -- What a lookup in the registry finds.
  pub Families-lookup :
      (env : Env) (name : Bytes) {spec : Spec}
      → Families env
      → lookup name (new_registry env) ≡ some spec
      → P name spec
  unfolding new_registry
  Families-lookup env name f e =
      lookup-EachEntry name (register (all_commands env) [])
        (register-EachEntry (all_commands env) [] (Each-all_commands f) tt) e
