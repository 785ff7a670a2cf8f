-- ===== src/Compute/Executor/Commit.antt =====
-- What a commit does to the store, output by output.
use rabbit_chain_node.Prelude.{
  ◌≡◌, inl, inr, true, false, List, [], ◌∷◌, some, contains, arith, Bool-cases,
}
use rabbit_chain_node.Compute.Types.{Hash, ObjectOutput, OutputProposal, ok}
use rabbit_chain_node.Compute.Results.{ComputeResult-cases}
use rabbit_chain_node.Compute.Store.{ObjectStore, get_output, insert_output, mark_spent, set_spent}
use rabbit_chain_node.Compute.Store.Laws.{
  get_output-insert_output, insert_output_fresh, get_output-mark_spent, mark_spent_live,
}
use rabbit_chain_node.Compute.Executor.{object_from_proposal, spend_all, insert_all}

-- An output that is stored and spent.
pub record IsSpent (id : Hash) (s : ObjectStore) : Type 0 where
  pub output : ObjectOutput
  pub found : get_output id s ≡ some output
  pub spent : output.spent ≡ true

-- Marking leaves what is spent spent: it refuses the identifier itself.
pub mark_spent-IsSpent :
    (j id : Hash) (s s' : ObjectStore) → mark_spent id s ≡ ok s' → IsSpent j s → IsSpent j s'
mark_spent-IsSpent j id s s' h v =
    let (o, e, live) = mark_spent_live id s s' h in
    record {
      output = v.output;
      found = ground (arith, v.found, v.spent, get_output-mark_spent j id s s' o e h);
      spent = v.spent;
    }

pub spend_all-IsSpent :
    (j : Hash) (ids : List Hash) (s : ObjectStore) → IsSpent j s → IsSpent j (spend_all ids s).1
unfolding spend_all
spend_all-IsSpent j [] s v = v
spend_all-IsSpent j (id ∷ ids) s v = elim (ComputeResult-cases (mark_spent id s)) [
  | inl (s', h) ↦ rw (h, spend_all) (spend_all-IsSpent j ids s' (mark_spent-IsSpent j id s s' h v))
  | inr (e, h) ↦ rw (h, spend_all) v
]

-- Insertion leaves every stored output as it is: it refuses an identifier that is taken.
pub insert_all_keeps :
    (j : Hash) (o : ObjectOutput) (ps : List OutputProposal) (s : ObjectStore)
    → get_output j s ≡ some o
    → get_output j (insert_all ps s).1 ≡ some o
unfolding insert_all
insert_all_keeps j o [] s h = h
insert_all_keeps j o (p ∷ ps) s h =
    elim (ComputeResult-cases (insert_output (object_from_proposal p) s)) [
      | inl (s', e) ↦
          rw (e, insert_all)
            (insert_all_keeps j o ps s' (
              unfold object_from_proposal in
              ground (
                arith,
                get_output-insert_output j (object_from_proposal p) s s' e,
                insert_output_fresh (object_from_proposal p) s s' e,
              )))
      | inr (f, e) ↦ rw (e, insert_all) h
    ]

-- The first round of a loop that succeeds.
pub spend_all_step :
    (id : Hash) (ids : List Hash) (s s' : ObjectStore)
    → spend_all (id ∷ ids) s ≡ (ok tt, s')
    → (t : ObjectStore) × (mark_spent id s ≡ ok t) × (spend_all ids t ≡ (ok tt, s'))
unfolding spend_all
spend_all_step id ids s s' h = elim (ComputeResult-cases (mark_spent id s)) [
  | inl (t, e) ↦ (t, e, ground arith)
  | inr (f, e) ↦ absurd (ground arith)
]

pub spend_all_misses :
    (j : Hash) (ids : List Hash) (s s' : ObjectStore)
    → spend_all ids s ≡ (ok tt, s')
    → contains ids j ≡ false
    → get_output j s' ≡ get_output j s
spend_all_misses j [] s s' h out = unfold spend_all in ground arith
spend_all_misses j (id ∷ ids) s s' h out =
    let (t, e, rest) = spend_all_step id ids s s' h in
    let (o, found, live) = mark_spent_live id s t e in
    ground (arith, spend_all_misses j ids t s' rest, get_output-mark_spent j id s t o found e)

-- `o` was stored and live before, and is stored and spent after.
pub record Consumed (s s' : ObjectStore) (id : Hash) : Type 0 where
  pub output : ObjectOutput
  pub before : get_output id s ≡ some output
  pub live : output.spent ≡ false
  pub after : get_output id s' ≡ some (set_spent true output)

-- One round: the rest of the loop has consumed `j`, or passes it by.
hit_step :
    (j id : Hash) (ids : List Hash) (s t s' : ObjectStore)
    → mark_spent id s ≡ ok t
    → spend_all ids t ≡ (ok tt, s')
    → contains (id ∷ ids) j ≡ true
    → (contains ids j ≡ true → Consumed t s' j)
    → Consumed s s' j
hit_step j id ids s t s' e rest hit later =
    let (o, found, live) = mark_spent_live id s t e in
    elim (Bool-cases (contains ids j)) [
      | inl again ↦
          let c = later again in
          record {
            output = c.output;
            before = ground (arith, c.before, c.live, get_output-mark_spent j id s t o found e);
            live = c.live;
            after = c.after;
          }
      | inr once ↦ record {
        output = o;
        before = ground arith;
        live = live;
        after = ground (
          arith,
          spend_all_misses j ids t s' rest once,
          get_output-mark_spent j id s t o found e,
        );
      }
    ]

pub spend_all_hits :
    (j : Hash) (ids : List Hash) (s s' : ObjectStore)
    → spend_all ids s ≡ (ok tt, s')
    → contains ids j ≡ true
    → Consumed s s' j
spend_all_hits j [] s s' h hit = cc
spend_all_hits j (id ∷ ids) s s' h hit =
    let (t, e, rest) = spend_all_step id ids s s' h in
    hit_step j id ids s t s' e rest hit (spend_all_hits j ids t s' rest)
