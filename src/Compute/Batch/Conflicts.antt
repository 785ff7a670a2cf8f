-- ===== src/Compute/Batch/Conflicts.antt =====
-- The default conflict policy: what it means that two transactions do not conflict.
use rabbit_chain_node.Prelude.{
  ◌≡◌, ◌⊎◌, inl, inr, true, false, ◌||◌, List, [], ◌∷◌, ◌++◌, Option, none, some, ◌==◌, contains,
  arith, Bool-cases, ==_iff, ||-false,
}
use rabbit_chain_node.Compute.Types.{Hash, OutputProposal, ObjectReadRef, ComputeTx, ok}
use rabbit_chain_node.Compute.Results.{>>=-eq-ok}
use rabbit_chain_node.Compute.Store.{ObjectStore}
use rabbit_chain_node.Compute.Batch.{
  ComputeAccessSet, access_inputs, access_reads, access_proposals, access_set, add_predecessor,
  intersects, conflicts, add_write, add_read, find_output,
}

abbrev pub read_ids : List ObjectReadRef → List Hash
read_ids [] = []
read_ids (r ∷ rs) = r.output_id ∷ read_ids rs

abbrev pub created_ids : List OutputProposal → List Hash
created_ids [] = []
created_ids (p ∷ ps) = p.output_id ∷ created_ids ps

intersects-disjoint :
    (xs ys : List Hash) (id : Hash)
    → intersects xs ys ≡ false
    → contains xs id ≡ true
    → contains ys id ≡ false
intersects-disjoint [] ys id h k = cc
intersects-disjoint (x ∷ xs) ys id h k = elim (Bool-cases (x == id)) [
  | inl here ↦
      let e : x ≡ id = (==_iff x id).0 here in
      let miss : contains ys x ≡ false = (||-false _ _ h).0 in rw e at miss
  | inr there ↦ intersects-disjoint xs ys id (||-false _ _ h).1 (ground arith)
]

-- What a transaction consumes and creates.
abbrev pub written_ids : ComputeTx → List Hash
written_ids tx = tx.input_set ++ created_ids tx.output_proposals

contains-append :
    (xs ys : List Hash) (id : Hash)
    → contains (xs ++ ys) id ≡ true
    → (contains xs id || contains ys id) ≡ true
contains-append [] ys id h = h
contains-append (x ∷ xs) ys id h = ground (arith, contains-append xs ys id)

module _ (s : ObjectStore) where
  access_inputs-contains :
      (ids : List Hash) (a b : ComputeAccessSet) (id : Hash)
      → access_inputs s ids a ≡ ok b
      → (contains ids id || contains a.write_output_ids id) ≡ true
      → contains b.write_output_ids id ≡ true
  unfolding access_inputs
  access_inputs-contains [] a b id h k = ground arith
  access_inputs-contains (i ∷ ids) a b id h k =
      let (o, found, rest) = >>=-eq-ok (find_output s i) _ h in
      access_inputs-contains ids (add_write i o.object_id a) b id rest (ground arith)

  access_reads-Grows :
      (rs : List ObjectReadRef) (a b : ComputeAccessSet) (id : Hash)
      → access_reads s rs a ≡ ok b
      → (b.write_output_ids ≡ a.write_output_ids)
        × ((contains (read_ids rs) id || contains a.read_output_ids id) ≡ true
            → contains b.read_output_ids id ≡ true)
  unfolding access_reads
  access_reads-Grows [] a b id h = ground arith
  access_reads-Grows (r ∷ rs) a b id h =
      let (o, found, rest) = >>=-eq-ok (find_output s r.output_id) _ h in
      let more = access_reads-Grows rs (add_read r.output_id o.object_id a) b id rest in
      (more.0, λ k. more.1 (ground arith))

  add_predecessor-Grows :
      (pred : Option Hash) (a b : ComputeAccessSet) (id : Hash)
      → add_predecessor s pred a ≡ ok b
      → (b.read_output_ids ≡ a.read_output_ids)
        × (contains a.write_output_ids id ≡ true → contains b.write_output_ids id ≡ true)
  add_predecessor-Grows none a b id h = ground arith
  add_predecessor-Grows (some pred) a b id h =
      let (o, found, rest) = >>=-eq-ok (find_output s pred) _ h in ground arith

  access_proposals-Grows :
      (ps : List OutputProposal) (a b : ComputeAccessSet) (id : Hash)
      → access_proposals s ps a ≡ ok b
      → (b.read_output_ids ≡ a.read_output_ids)
        × ((contains (created_ids ps) id || contains a.write_output_ids id) ≡ true
            → contains b.write_output_ids id ≡ true)
  unfolding access_proposals
  access_proposals-Grows [] a b id h = ground arith
  access_proposals-Grows (p ∷ ps) a b id h =
      let (d, first, rest) =
        >>=-eq-ok (add_predecessor s p.predecessor (add_write p.output_id p.object_id a)) _ h in
      let one =
        add_predecessor-Grows p.predecessor (add_write p.output_id p.object_id a) d id first in
      let more = access_proposals-Grows ps d b id rest in (ground arith, λ k. more.1 (ground arith))

  access_set-contains :
      (tx : ComputeTx) (a : ComputeAccessSet) (id : Hash)
      → access_set tx s ≡ ok a
      → (contains (written_ids tx) id ≡ true → contains a.write_output_ids id ≡ true)
        × (contains (read_ids tx.read_set) id ≡ true → contains a.read_output_ids id ≡ true)
  unfolding access_set
  access_set-contains tx a id h =
      let (d, before, last) = >>=-eq-ok _ (access_proposals s tx.output_proposals) h in
      let (c, first, middle) = >>=-eq-ok _ (access_reads s tx.read_set) before in
      let inputs = access_inputs-contains tx.input_set _ c id first in
      let reads = access_reads-Grows tx.read_set c d id middle in
      let proposals = access_proposals-Grows tx.output_proposals d a id last in
      (
        λ k.
            let either = contains-append tx.input_set (created_ids tx.output_proposals) id k in
            proposals.1 (ground arith),
        λ k. let read = reads.1 (ground arith) in ground arith,
      )

  -- Of two transactions whose access sets are computed from the same store and do not conflict, neither
  -- consumes, creates or reads an output that the other consumes or creates.
  pub conflicts-disjoint :
      (tx tx' : ComputeTx) (a a' : ComputeAccessSet) (id : Hash)
      → access_set tx s ≡ ok a
      → access_set tx' s ≡ ok a'
      → conflicts a a' ≡ false
      → ((contains (written_ids tx) id ≡ false)
          ⊎ ((contains (written_ids tx') id ≡ false)
              × (contains (read_ids tx'.read_set) id ≡ false)))
        × ((contains (read_ids tx.read_set) id ≡ false) ⊎ (contains (written_ids tx') id ≡ false))
  unfolding conflicts
  conflicts-disjoint tx tx' a a' id h h' free =
      let left = access_set-contains tx a id h in
      let right = access_set-contains tx' a' id h' in
      let ww = intersects-disjoint a.write_output_ids a'.write_output_ids id (ground arith) in
      let wr = intersects-disjoint a.write_output_ids a'.read_output_ids id (ground arith) in
      let rw' = intersects-disjoint a.read_output_ids a'.write_output_ids id (ground arith) in
      ground arith
