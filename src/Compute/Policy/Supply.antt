-- ===== src/Compute/Policy/Supply.antt =====
-- The supply of an asset: what the live outputs of the store hold of it, in total.
use rabbit_chain_node.Prelude.{
  ℕ, ◌+◌, ◌≤◌, ◌≡◌, sym, inl, inr, true, false, List, [], ◌∷◌, none, some, ◌==◌, if◌then◌else◌,
  arith, Bool-cases,
}
use rabbit_chain_node.Prelude.Assoc.{Map, lookup, insert}
use rabbit_chain_node.Compute.Types.{Hash, ObjectOutput, OutputProposal, ComputeTx, ok}
use rabbit_chain_node.Compute.Store.{ObjectStore, get_output, insert_output, mark_spent, set_spent}
use rabbit_chain_node.Compute.Store.Laws.{get_output-mark_spent, mark_spent_live}
use rabbit_chain_node.Compute.Tx.{is_mint}
use rabbit_chain_node.Compute.Validate.{Backends, ValidationReport}
use rabbit_chain_node.Compute.Validate.Sound.{Resolves, validate-Accepted}
use rabbit_chain_node.Compute.Executor.{
  Encoders, Executor, object_from_proposal, spend_all, insert_all, execute,
}
use rabbit_chain_node.Compute.Executor.Commit.{spend_all_step}
use rabbit_chain_node.Compute.Executor.Effects.{insert_all_step, commit_steps, execute_steps}
use rabbit_chain_node.Compute.Policy.Resources.{check_resources, native_asset_id}
use rabbit_chain_node.Compute.Policy.Conservation.{
  amount_in, total_inputs, total_proposals, check_resources-conserves,
}

module _ (a : Hash) where
  -- What an output counts for: its amount while it is live.
  abbrev pub held : ObjectOutput → ℕ
  held o = if o.spent then 0 else amount_in a o.resources

  abbrev pub held_all : Map ObjectOutput → ℕ
  held_all [] = 0
  held_all ((_, o) ∷ m) = held o + held_all m

  abbrev pub supply : ObjectStore → ℕ
  supply s = held_all s.outputs

  held_all-replace :
      (k : Hash) (o old : ObjectOutput) (m : Map ObjectOutput)
      → lookup k m ≡ some old
      → held_all (insert k o m) + held old ≡ held_all m + held o
  unfolding lookup insert
  held_all-replace k o old [] h = cc
  held_all-replace k o old ((j, p) ∷ m) h = elim (Bool-cases (j == k)) [
    | inl here ↦ rw here (let e : p ≡ old = ground arith in rw e (omega arith))
    | inr there ↦ rw there (omega (arith, held_all-replace k o old m (ground arith)))
  ]

  held_all-insert :
      (k : Hash) (o : ObjectOutput) (m : Map ObjectOutput)
      → lookup k m ≡ none
      → held_all (insert k o m) ≡ held_all m + held o
  unfolding lookup insert
  held_all-insert k o [] h = omega arith
  held_all-insert k o ((j, p) ∷ m) h = elim (Bool-cases (j == k)) [
    | inl here ↦ absurd (ground arith)
    | inr there ↦ rw there (omega (arith, held_all-insert k o m (ground arith)))
  ]

  -- Spending an output takes what it holds out of the supply.
  mark_spent-supply :
      (id : Hash) (s t : ObjectStore) (o : ObjectOutput)
      → get_output id s ≡ some o
      → o.spent ≡ false
      → mark_spent id s ≡ ok t
      → supply t + amount_in a o.resources ≡ supply s
  unfolding get_output mark_spent
  mark_spent-supply id s t o found live h =
      let e : record s { outputs = insert id (set_spent true o) s.outputs } ≡ t = ground arith in
      rw (sym e) (ground (arith, held_all-replace id (set_spent true o) o s.outputs found))

  insert_output-supply :
      (p : OutputProposal) (s t : ObjectStore)
      → insert_output (object_from_proposal p) s ≡ ok t
      → supply t ≡ supply s + amount_in a p.resources
  unfolding insert_output object_from_proposal
  insert_output-supply p s t h =
      ground (arith, held_all-insert p.output_id (object_from_proposal p) s.outputs)

  -- What is live in the second store is the same in the first.
  abbrev Shrinks : ObjectStore → ObjectStore → Type 0
  Shrinks s t =
      (j : Hash) (o : ObjectOutput)
      → get_output j t ≡ some o
      → o.spent ≡ false
      → get_output j s ≡ some o

  spend_all-supply :
      (domain : ℕ) (ids : List Hash) (os : List ObjectOutput) (s t u : ObjectStore)
      → Resolves s domain ids os
      → Shrinks s t
      → spend_all ids t ≡ (ok tt, u)
      → supply u + total_inputs a os ≡ supply t
  spend_all-supply domain [] [] s t u v w h = unfold spend_all in ground arith
  spend_all-supply domain [] (o ∷ os) s t u v w h = absurd v
  spend_all-supply domain (id ∷ ids) [] s t u v w h = absurd v
  spend_all-supply domain (id ∷ ids) (o ∷ os) s t u v w h =
      let (t', marked, rest) = spend_all_step id ids t u h in
      let (p, found, live) = mark_spent_live id t t' marked in
      let same : p ≡ o = ground (arith, w id p found live, v.0.found) in
      let one = mark_spent-supply id t t' p found live marked in
      let less : Shrinks s t' =
        λ j q e l. w j q (ground (arith, get_output-mark_spent j id t t' p found marked)) l in
      let more = spend_all-supply domain ids os s t' u v.1 less rest in
      let amounts : amount_in a p.resources ≡ amount_in a o.resources = rw same in omega arith

  insert_all-supply :
      (ps : List OutputProposal) (s t : ObjectStore)
      → insert_all ps s ≡ (ok tt, t)
      → supply t ≡ supply s + total_proposals a ps
  insert_all-supply [] s t h = unfold insert_all in ground arith
  insert_all-supply (p ∷ ps) s t h =
      let (u, first, rest) = insert_all_step p ps s t h in
      omega (arith, insert_output-supply p s u first, insert_all-supply ps u t rest)

  -- A successful execution moves the supply of an asset from what its inputs held to what its proposals
  -- hold.
  pub execute-supply :
      (e : Encoders) (b : Backends) (now : ℕ) (tx : ComputeTx) (x x' : Executor)
      (r : ValidationReport)
      → execute e b now tx x ≡ (ok r, x')
      → supply x'.store + total_inputs a r.inputs
        ≡ supply x.store + total_proposals a tx.output_proposals
  execute-supply e b now tx x x' r h =
      let (valid, committed, _) = execute_steps e b now tx x x' r h in
      let (t, spent, inserted) = commit_steps tx r r x.store x'.store committed in
      let resolved = (validate-Accepted b x.store tx r valid).inputs in
      let out =
        spend_all-supply tx.domain_id tx.input_set r.inputs x.store x.store t resolved
          (λ j o found live. found) spent in
      let in_ = insert_all-supply tx.output_proposals t x'.store inserted in omega arith

-- No inflation: under the default resource policy a successful execution that is no mint raises the
-- supply of no asset, and it lowers the supply of the native asset by the fee and the priority fee at
-- least.
pub no_inflation :
    (e : Encoders) (b : Backends) (now : ℕ) (tx : ComputeTx) (x x' : Executor)
    (r : ValidationReport)
    → b.check_resources ≡ check_resources
    → is_mint tx.command ≡ false
    → execute e b now tx x ≡ (ok r, x')
    → ((a : Hash) → supply a x'.store ≤ supply a x.store)
      × (supply native_asset_id x'.store + tx.fee + tx.priority_fee
          ≤ supply native_asset_id x.store)
no_inflation e b now tx x x' r policy plain h =
    let (valid, _, _) = execute_steps e b now tx x x' r h in
    let balanced : check_resources tx r.inputs r.reads ≡ ok tt =
      rw policy at ((validate-Accepted b x.store tx r valid).balanced) in
    let (conserved, paid) = check_resources-conserves tx r.inputs r.reads balanced plain in
    (
      λ a. omega (arith, conserved a, execute-supply a e b now tx x x' r h),
      omega (arith, execute-supply native_asset_id e b now tx x x' r h),
    )
