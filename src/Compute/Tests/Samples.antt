-- ===== src/Compute/Tests/Samples.antt =====
-- A small store, a transfer that spends from it, and an executor over them.
use rabbit_chain_node.Prelude.{ℕ, ◌≡◌, refl, true, false, List, [], ◌∷◌, none, some}
use rabbit_chain_node.Prelude.Assoc.{lookup, insert, erase}
use rabbit_chain_node.Compute.Types.{
  Hash, ResourceValue, Script, Ownership, ObjectKind, ObjectOutput, OutputProposal, Command,
  ComputeTx, ok,
}
use rabbit_chain_node.Compute.Store.{
  ObjectStore, get_output, get_latest_output_by_object, insert_output, mark_spent, unmark_spent,
  remove_output,
}
use rabbit_chain_node.Compute.Tx.{basic_sanity_check, resource_map_is_canonical}
use rabbit_chain_node.Compute.Validate.{
  Backends, ValidationReport, validate, validate_input, validate_inputs, validate_read,
  validate_reads, validate_lineage, validate_output_proposals,
}
use rabbit_chain_node.Compute.Validate.Envelope.{
  validate_tx_envelope, validate_entries, validate_metadata,
}
use rabbit_chain_node.Compute.Validate.Lifecycle.{
  validate_existing_output_lifecycle, validate_proposal_lifecycle,
}
use rabbit_chain_node.Compute.Executor.{
  Encoders, Executor, execute, commit_prevalidated, commit_store, spend_all, insert_all,
  object_from_proposal, register_replay_nonce, register_actors, retain_window, replay_actors,
  replay_nonce_key, actor_of, sort_dedup,
}
use rabbit_chain_node.Compute.Policy.Resources.{
  check_resources, check_native, check_counters, aggregate_resources, add_inputs, add_proposals,
  add_resources, update_resource_counter, add_value, kind_of_value, validate_resource_map,
}

abbrev pub no_lock : Script
no_lock = record { vm = 1; code = [] }

-- An asset output of object 7 that holds some native coin.
abbrev pub coin : Hash → ℕ → ℕ → ObjectOutput
coin id version amount = record {
  output_id = id;
  object_id = 7;
  version = version;
  domain_id = 0;
  kind = ObjectKind.asset;
  owner = Ownership.shared;
  predecessor = none;
  state = [];
  state_root = none;
  resources = (0, ResourceValue.amount amount) ∷ [];
  lock = no_lock;
  logic = none;
  created_at = 5;
  ttl = none;
  rent_reserve = none;
  flags = 0;
  extensions = [];
  spent = false;
}

-- The next version of object 7, with what is left after the fee.
abbrev pub change : Hash → Hash → ℕ → OutputProposal
change id pred amount = record {
  output_id = id;
  object_id = 7;
  domain_id = 0;
  kind = ObjectKind.asset;
  owner = Ownership.shared;
  predecessor = some pred;
  version = 2;
  state = 1 ∷ 0 ∷ [];
  state_root = none;
  resources = (0, ResourceValue.amount amount) ∷ [];
  lock = no_lock;
  logic = none;
  created_at = 6;
  ttl = none;
  rent_reserve = none;
  flags = 0;
  extensions = [];
}

abbrev pub transfer : List Hash → List OutputProposal → ComputeTx
transfer inputs proposals = record {
  tx_id = 99;
  domain_id = 0;
  command = Command.transfer;
  input_set = inputs;
  read_set = [];
  output_proposals = proposals;
  fee = 10;
  nonce = some 4;
  metadata = [];
  payload = 0 ∷ 9 ∷ [];
  deadline_unix_secs = none;
  chain_id = some 1;
  network_id = none;
  witness = record { signatures = []; threshold = none };
  max_fee = 0;
  priority_fee = 0;
  gas_limit = 0;
}

abbrev pub store : ObjectStore
store = record {
  outputs = (1, coin 1 1 100) ∷ (2, coin 2 1 30) ∷ [];
  latest_by_object = (7, 1) ∷ [];
}

abbrev pub executor : Executor
executor = record { store = store; replay_nonce_registry = [] }

abbrev pub encoders : Encoders
encoders = record { hex = λ b. b; keccak256 = λ b. b }

-- Every signature is accepted, domain 0 is public, and the resources are accounted for.
abbrev pub backends : Backends
backends = record {
  authorize = λ tx inputs reads. ok tt;
  check_resources = check_resources;
  get_domain = λ id. some (record { domain_id = id; name = []; vm = []; public = true });
}

abbrev pub payment : ComputeTx
payment = transfer (1 ∷ []) (change 3 1 90 ∷ [])

abbrev pub report : ValidationReport
report = record { inputs = coin 1 1 100 ∷ []; reads = [] }

abbrev pub after : Executor
after = (execute encoders backends 100 payment executor).1

-- To name this definition on an `unfolding` line is to open all that a run goes through.
unfoldable pub opened : ℕ
unfolding execute commit_prevalidated commit_store spend_all insert_all object_from_proposal
    register_replay_nonce register_actors retain_window replay_actors replay_nonce_key actor_of
    sort_dedup lookup insert erase get_output get_latest_output_by_object insert_output mark_spent
    unmark_spent remove_output basic_sanity_check resource_map_is_canonical validate validate_input
    validate_inputs validate_read validate_reads validate_lineage validate_output_proposals
    validate_tx_envelope validate_entries validate_metadata validate_existing_output_lifecycle
    validate_proposal_lifecycle check_resources check_native check_counters aggregate_resources
    add_inputs add_proposals add_resources update_resource_counter add_value kind_of_value
    validate_resource_map
opened = 0

payment_accepted : (execute encoders backends 100 payment executor).0 ≡ ok report
unfolding opened
payment_accepted = refl

pub paid : execute encoders backends 100 payment executor ≡ (ok report, after)
paid = λ i. (payment_accepted i, after)
