-- ===== src/Compute/Executor.antt =====
-- `BasicTxExecutor` (compute/execution.rs): validate, register the nonce, spend the inputs, insert the
-- outputs. A step that fails leaves the changes of the steps before it, as in the source: the state
-- comes back beside the result. The system clock is the argument `now`.
pub mod Replay
pub mod Commit
pub mod Effects
pub mod History
pub mod Partial
use rabbit_chain_node.Prelude.{
  ℕ, ◌+◌, ◌-◌, ◌/◌, ◌%◌, zero, suc, Bool, true, false, List, [], ◌∷◌, ◌++◌, Option, none, some, ltb,
  leb, ◌==◌, ◌&&◌, ◌||◌, if◌then◌else◌, length, any, list_eq,
}
use rabbit_chain_node.Compute.Types.{
  Hash, Bytes, Text, ObjectOutput, OutputProposal, ComputeTx, TxSignature, ComputeError,
  invalid_operation, Reason, ComputeResult, ok, err,
}
use rabbit_chain_node.Compute.Store.{ObjectStore, insert_output, mark_spent}
use rabbit_chain_node.Compute.Validate.{Backends, ValidationReport, validate}

abbrev pub replay_nonce_window_secs : ℕ
replay_nonce_window_secs = 3600

-- The keys of the replay registry, with the time at which each was used.
abbrev pub Registry : Type 0
Registry = List (Text × ℕ)

-- `hex::encode` of the crate hex, and `keccak256` of the crate that crypto.rs calls.
pub record Encoders : Type 0 where
  pub hex : Bytes → Text
  pub keccak256 : Bytes → Bytes

-- Decimal digits; a `u64` has at most 20.
decimal : ℕ → ℕ → Text
decimal zero n = []
decimal (suc fuel) n =
    let rest = decimal fuel (n / 10) in
    if ltb n 10 then (b'0' + n) ∷ [] else rest ++ (b'0' + n % 10) ∷ []

abbrev show : ℕ → Text
show n = decimal 20 n

-- `{:?}` of an optional number: `None` or `Some(n)`.
show_option : Option ℕ → Text
show_option none = b'N' ∷ b'o' ∷ b'n' ∷ b'e' ∷ []
show_option (some n) = b'S' ∷ b'o' ∷ b'm' ∷ b'e' ∷ b'(' ∷ (show n ++ b')' ∷ [])

-- "{}|d:{}|c:{:?}|n:{:?}|x:{}"
unfoldable pub replay_nonce_key : Text → ComputeTx → ℕ → Text
unfolding show_option decimal
replay_nonce_key actor tx nonce =
    actor
    ++ b'|'
      ∷ b'd'
      ∷ b':'
      ∷ (show tx.domain_id
          ++ b'|'
            ∷ b'c'
            ∷ b':'
            ∷ (show_option tx.chain_id
                ++ b'|'
                  ∷ b'n'
                  ∷ b':'
                  ∷ (show_option tx.network_id ++ b'|' ∷ b'x' ∷ b':' ∷ show nonce)))

-- The order of `String`: that of the UTF-8 bytes, which is that of the code points.
unfoldable pub text_lt : Text → Text → Bool
text_lt [] [] = false
text_lt [] (d ∷ u) = true
text_lt (c ∷ t) [] = false
text_lt (c ∷ t) (d ∷ u) = ltb c d || (c == d && text_lt t u)

-- `sort` followed by `dedup`: an insertion that skips a text that is there.
unfoldable pub insert_sorted : Text → List Text → List Text
insert_sorted t [] = t ∷ []
insert_sorted t (u ∷ us) =
    if list_eq t u then u ∷ us else (if text_lt t u then t ∷ u ∷ us else u ∷ insert_sorted t us)

unfoldable pub sort_dedup : List Text → List Text
unfolding insert_sorted
sort_dedup [] = []
sort_dedup (t ∷ ts) = insert_sorted t (sort_dedup ts)

-- "ed25519:", "ed25519_sig:" and "anonymous"
abbrev ed25519_prefix : Text
ed25519_prefix = b'e' ∷ b'd' ∷ b'2' ∷ b'5' ∷ b'5' ∷ b'1' ∷ b'9' ∷ b':' ∷ []

abbrev ed25519_sig_prefix : Text
ed25519_sig_prefix =
    b'e' ∷ b'd' ∷ b'2' ∷ b'5' ∷ b'5' ∷ b'1' ∷ b'9' ∷ b'_' ∷ b's' ∷ b'i' ∷ b'g' ∷ b':' ∷ []

abbrev anonymous : Text
anonymous = b'a' ∷ b'n' ∷ b'o' ∷ b'n' ∷ b'y' ∷ b'm' ∷ b'o' ∷ b'u' ∷ b's' ∷ []

module _ (e : Encoders) where
  unfoldable pub actor_of : TxSignature → Text
  actor_of sig = elim sig.public_key [
    | none ↦ ed25519_sig_prefix ++ e.hex (e.keccak256 sig.bytes)
    | some pk ↦
        if length pk == 32
        then ed25519_prefix ++ e.hex pk
        else ed25519_sig_prefix ++ e.hex (e.keccak256 sig.bytes)
  ]

  unfoldable pub actors_of : List TxSignature → List Text
  unfolding actor_of
  actors_of [] = []
  actors_of (sig ∷ sigs) = actor_of sig ∷ actors_of sigs

  unfoldable pub replay_actors : ComputeTx → List Text
  unfolding actors_of sort_dedup
  replay_actors tx = elim tx.witness.signatures [
    | [] ↦ anonymous ∷ []
    | sig ∷ sigs ↦ sort_dedup (actors_of (sig ∷ sigs))
  ]

abbrev pub has_key : Text → Registry → Bool
has_key key r = any (λ entry. list_eq key entry.0) r

-- `retain(|_, ts| now.saturating_sub(*ts) <= REPLAY_NONCE_WINDOW_SECS)`
unfoldable pub retain_window : ℕ → Registry → Registry
retain_window now [] = []
retain_window now (entry ∷ r) =
    if leb (now - entry.1) replay_nonce_window_secs
    then entry ∷ retain_window now r
    else retain_window now r

-- The loop of `register_replay_nonce`. The key is new when it is inserted.
unfoldable pub register_actors :
    ComputeTx → ℕ → ℕ → List Text → Registry → ComputeResult (Unit {0}) × Registry
register_actors tx nonce now [] r = (ok tt, r)
register_actors tx nonce now (actor ∷ actors) r =
    let key = replay_nonce_key actor tx nonce in
    if has_key key r
    then (err (invalid_operation Reason.replay_nonce_used), r)
    else register_actors tx nonce now actors ((key, now) ∷ r)

unfoldable pub register_replay_nonce :
    Encoders → ℕ → ComputeTx → Registry → ComputeResult (Unit {0}) × Registry
register_replay_nonce e now tx r = elim tx.nonce [
  | none ↦ (ok tt, r)
  | some nonce ↦ register_actors tx nonce now (replay_actors e tx) (retain_window now r)
]

unfoldable pub object_from_proposal : OutputProposal → ObjectOutput
object_from_proposal p = record {
  output_id = p.output_id;
  object_id = p.object_id;
  version = p.version;
  domain_id = p.domain_id;
  kind = p.kind;
  owner = p.owner;
  predecessor = p.predecessor;
  state = p.state;
  state_root = p.state_root;
  resources = p.resources;
  lock = p.lock;
  logic = p.logic;
  created_at = p.created_at;
  ttl = p.ttl;
  rent_reserve = p.rent_reserve;
  flags = p.flags;
  extensions = p.extensions;
  spent = false;
}

-- The two loops of `commit_prevalidated`.
unfoldable pub spend_all : List Hash → ObjectStore → ComputeResult (Unit {0}) × ObjectStore
spend_all [] s = (ok tt, s)
spend_all (id ∷ ids) s = elim (mark_spent id s) [ ok s' ↦ spend_all ids s' | err e ↦ (err e, s) ]

unfoldable pub insert_all :
    List OutputProposal → ObjectStore → ComputeResult (Unit {0}) × ObjectStore
insert_all [] s = (ok tt, s)
insert_all (p ∷ ps) s = elim (insert_output (object_from_proposal p) s) [
  | ok s' ↦ insert_all ps s'
  | err e ↦ (err e, s)
]

pub record Executor : Type 0 where
  pub store : ObjectStore
  pub replay_nonce_registry : Registry

-- The writes to the store, after the nonce is registered.
unfoldable pub commit_store :
    ComputeTx → ValidationReport → ObjectStore → ComputeResult ValidationReport × ObjectStore
commit_store tx report s =
    let (spent, s') = spend_all tx.input_set s in
    elim spent [
      | err e ↦ (err e, s')
      | ok _ ↦
          let (inserted, s'') = insert_all tx.output_proposals s' in
          elim inserted [ err e ↦ (err e, s'') | ok _ ↦ (ok report, s'') ]
    ]

unfoldable pub commit_prevalidated :
    Encoders
    → ℕ
    → ComputeTx
    → ValidationReport
    → Executor
    → ComputeResult ValidationReport × Executor
commit_prevalidated e now tx report x =
    let (registered, r) = register_replay_nonce e now tx x.replay_nonce_registry in
    elim registered [
      | err f ↦ (err f, record x { replay_nonce_registry = r })
      | ok _ ↦
          let (result, s) = commit_store tx report x.store in
          (result, record { store = s; replay_nonce_registry = r })
    ]

unfoldable pub execute :
    Encoders → Backends → ℕ → ComputeTx → Executor → ComputeResult ValidationReport × Executor
execute e backends now tx x = elim (validate backends x.store tx) [
  | err f ↦ (err f, x)
  | ok report ↦ commit_prevalidated e now tx report x
]
