-- ===== src/Compute/Store/Invariant.antt =====
-- The pointers to latest versions stay sound under every operation of the store.
use rabbit_chain_node.Prelude.{
  ◌≡◌, inl, inr, Bool, true, false, some, ◌==◌, arith, Bool-cases, Option-cases, subst,
}
use rabbit_chain_node.Prelude.Assoc.{lookup, insert, erase, lookup-insert, lookup-erase}
use rabbit_chain_node.Compute.Types.{Hash, ObjectOutput, ok}
use rabbit_chain_node.Compute.Store.{
  ObjectStore, new, insert_output, mark_spent, unmark_spent, remove_output, set_spent,
  latest_without,
}

-- Every output is stored under its own identifier, and every pointer names a stored output of its
-- object.
pub record IsValid (s : ObjectStore) : Type 0 where
  pub keyed : (id : Hash) (o : ObjectOutput) → lookup id s.outputs ≡ some o → o.output_id ≡ id
  pub pointed :
      (object id : Hash)
      → lookup object s.latest_by_object ≡ some id
      → (o : ObjectOutput) × (lookup id s.outputs ≡ some o) × (o.object_id ≡ object)

pub new-IsValid : IsValid new
unfolding new lookup
new-IsValid = record { keyed = λ id o h. cc; pointed = λ object id h. cc }

pub insert_output-IsValid :
    (o : ObjectOutput) (s s' : ObjectStore) → insert_output o s ≡ ok s' → IsValid s → IsValid s'
unfolding insert_output
insert_output-IsValid o s s' h v = record {
  keyed = λ id p e. ground (arith, v.keyed id p, lookup-insert id o.output_id o s.outputs);
  pointed = λ object id e. elim (Bool-cases (o.output_id == id)) [
    | inl same ↦ (
      o,
      ground (arith, lookup-insert id o.output_id o s.outputs),
      ground (
        arith,
        v.pointed object id,
        lookup-insert object o.object_id o.output_id s.latest_by_object,
      ),
    )
    | inr other ↦
        let old : lookup object s.latest_by_object ≡ some id =
          ground (arith, lookup-insert object o.object_id o.output_id s.latest_by_object) in
        let (p, stored, belongs) = v.pointed object id old in
        (p, ground (arith, lookup-insert id o.output_id o s.outputs), belongs)
  ];
}

-- Both `mark_spent` and `unmark_spent` store an output again with another flag.
respent-IsValid :
    (b : Bool) (id : Hash) (o : ObjectOutput) (s : ObjectStore)
    → lookup id s.outputs ≡ some o
    → IsValid s
    → IsValid (record s { outputs = insert id (set_spent b o) s.outputs })
respent-IsValid b id o s found v = record {
  keyed = λ j p e.
      ground (arith, v.keyed j p, v.keyed id o, lookup-insert j id (set_spent b o) s.outputs);
  pointed = λ object j e.
      let (p, stored, belongs) = v.pointed object j e in
      elim (Bool-cases (id == j)) [
        | inl same ↦ (
          set_spent b o,
          ground (arith, lookup-insert j id (set_spent b o) s.outputs),
          ground arith,
        )
        | inr other ↦ (p, ground (arith, lookup-insert j id (set_spent b o) s.outputs), belongs)
      ];
}

pub mark_spent-IsValid :
    (id : Hash) (s s' : ObjectStore) → mark_spent id s ≡ ok s' → IsValid s → IsValid s'
unfolding mark_spent
mark_spent-IsValid id s s' h v = elim (Option-cases (lookup id s.outputs)) [
  | inl missing ↦ absurd (ground arith)
  | inr (o, found) ↦
      let same : record s { outputs = insert id (set_spent true o) s.outputs } ≡ s' =
        ground arith in
      subst IsValid same (respent-IsValid true id o s found v)
]

pub unmark_spent-IsValid :
    (id : Hash) (s s' : ObjectStore) → unmark_spent id s ≡ ok s' → IsValid s → IsValid s'
unfolding unmark_spent
unmark_spent-IsValid id s s' h v = elim (Option-cases (lookup id s.outputs)) [
  | inl missing ↦ absurd (ground arith)
  | inr (o, found) ↦
      let same : record s { outputs = insert id (set_spent false o) s.outputs } ≡ s' =
        ground arith in
      subst IsValid same (respent-IsValid false id o s found v)
]

-- The removed output cannot be named by a pointer that is kept: it would belong to its object.
erased-IsValid :
    (id : Hash) (o : ObjectOutput) (s : ObjectStore)
    → lookup id s.outputs ≡ some o
    → IsValid s
    → IsValid (record {
      outputs = erase id s.outputs;
      latest_by_object = latest_without id o s.latest_by_object;
    })
erased-IsValid id o s found v = record {
  keyed = λ j p e. ground (arith, v.keyed j p, lookup-erase j id s.outputs);
  pointed = λ object j e.
      let old : lookup object s.latest_by_object ≡ some j =
        ground (arith, lookup-erase object o.object_id s.latest_by_object) in
      let (p, stored, belongs) = v.pointed object j old in
      (
        p,
        ground (
          arith,
          lookup-erase j id s.outputs,
          lookup-erase object o.object_id s.latest_by_object,
        ),
        belongs,
      );
}

pub remove_output-IsValid :
    (id : Hash) (s s' : ObjectStore) → remove_output id s ≡ ok s' → IsValid s → IsValid s'
unfolding remove_output
remove_output-IsValid id s s' h v = elim (Option-cases (lookup id s.outputs)) [
  | inl missing ↦ absurd (ground arith)
  | inr (o, found) ↦ subst IsValid (ground arith) (erased-IsValid id o s found v)
]

-- One call of the store that changes it.
pub data Step (s s' : ObjectStore) : Type 0 where
  inserting : (o : ObjectOutput) → insert_output o s ≡ ok s' → Step s s'
  marking : (id : Hash) → mark_spent id s ≡ ok s' → Step s s'
  unmarking : (id : Hash) → unmark_spent id s ≡ ok s' → Step s s'
  removing : (id : Hash) → remove_output id s ≡ ok s' → Step s s'

-- The stores that calls lead to from the empty one.
pub data Reachable : ObjectStore → Type 0 where
  empty : Reachable new
  next : {s t : ObjectStore} → Reachable s → Step s t → Reachable t

Step-IsValid : {s t : ObjectStore} → Step s t → IsValid s → IsValid t
Step-IsValid {s} {t} (inserting o h) v = insert_output-IsValid o s t h v
Step-IsValid {s} {t} (marking id h) v = mark_spent-IsValid id s t h v
Step-IsValid {s} {t} (unmarking id h) v = unmark_spent-IsValid id s t h v
Step-IsValid {s} {t} (removing id h) v = remove_output-IsValid id s t h v

-- In every store that calls lead to from the empty one, each output is stored under its own identifier
-- and each pointer to a latest version names a stored output of its object.
pub Reachable-IsValid : {s : ObjectStore} → Reachable s → IsValid s
Reachable-IsValid empty = new-IsValid
Reachable-IsValid (next r step) = Step-IsValid step (Reachable-IsValid r)
