-- ===== src/Node/Rpc.antt =====
-- `create_full` of node/src/rpc.rs: the RPC module that a node serves.
use cyborg_chain.Prelude.{Bytes, Result, ok, err, panic, ◌≡◌, refl, ap, ◌∙◌, List, [], ◌++◌}

-- The RPC library, the two APIs, and what they need.
pub record RpcLibrary : Type 1 where
  pub Client : Type 0
  pub Pool : Type 0
  pub DenyUnsafe : Type 0
  pub Module : Type 0
  pub Error : Type 0
  -- `RpcModule::new(())`
  pub new : Module
  -- `module.merge(other)?`
  pub merge : Module → Module → Result Error Module
  -- `System::new(client, pool, deny_unsafe).into_rpc()`
  pub system : Client → Pool → DenyUnsafe → Module
  -- `TransactionPayment::new(client).into_rpc()`
  pub transaction_payment : Client → Module

module _ (library : RpcLibrary) where
  open library use {Client, Pool, DenyUnsafe, Module, Error}

  pub record FullDeps : Type 0 where
    pub client : Client
    pub pool : Pool
    pub deny_unsafe : DenyUnsafe

  -- `?`
  abbrev and_then : Result Error Module → (Module → Result Error Module) → Result Error Module
  and_then (ok m) f = f m
  and_then (err e) f = err e
  and_then panic f = panic

  unfoldable pub create_full : FullDeps → Result Error Module
  create_full deps =
      and_then (library.merge library.new (library.system deps.client deps.pool deps.deny_unsafe))
        (λ m. library.merge m (library.transaction_payment deps.client))

-- The documented behaviour of `merge`: it fails on a name that both modules have, and else adds the
-- methods of the second to the first.
record MergeLaws (library : RpcLibrary) : Type 0 where
  methods : library.Module → List Bytes
  methods-new : methods library.new ≡ []
  methods-merge :
      (a b m : library.Module) → library.merge a b ≡ ok m → methods m ≡ methods a ++ methods b

module _ (library : RpcLibrary) (laws : MergeLaws library) where
  merged :
      (first : Result library.Error library.Module) (a b m : library.Module)
      → ((x : library.Module) → first ≡ ok x → laws.methods x ≡ laws.methods a)
      → and_then library first (λ x. library.merge x b) ≡ ok m
      → laws.methods m ≡ laws.methods a ++ laws.methods b
  merged (ok x) a b m h e = rw (laws.methods-merge x b m e, h x refl) refl
  merged (err x) a b m h e = absurd (cc)
  merged panic a b m h e = absurd (cc)

  -- The RPC module has the methods of the system API with its three arguments, and those of the
  -- transaction payment API for the same client, and no others.
  methods-create_full :
      (deps : FullDeps library) (m : library.Module)
      → create_full library deps ≡ ok m
      → laws.methods m
        ≡ laws.methods (library.system deps.client deps.pool deps.deny_unsafe)
          ++ laws.methods (library.transaction_payment deps.client)
  unfolding create_full
  methods-create_full deps m =
      merged _ (library.system deps.client deps.pool deps.deny_unsafe) _ m (λ x e.
        laws.methods-merge _ _ x e
        ∙ ap
            (λ names. names ++ laws.methods (library.system deps.client deps.pool deps.deny_unsafe))
            laws.methods-new)
