-- ===== src/Compute/Executor/Replay.antt =====
-- The replay registry: a nonce that an actor has used stays refused for the window.
use rabbit_chain_node.Prelude.{
  ℕ, ◌+◌, ◌≤◌, ◌≡◌, ◌≢◌, sym, ◌∙◌, inl, inr, Bool, true, List, [], ◌∷◌, some, ◌==◌, ◌&&◌, any,
  arith, list_eq, list_eq_refl, list_eq→eq, Bool-cases, Option-cases, All,
}
use rabbit_chain_node.Compute.Types.{Text, ComputeTx, ok}
use rabbit_chain_node.Compute.Results.{ComputeResult-cases}
use rabbit_chain_node.Compute.Validate.{Backends, ValidationReport, validate}
use rabbit_chain_node.Compute.Executor.{
  Encoders, Executor, Registry, has_key, retain_window, register_actors, register_replay_nonce,
  replay_actors, replay_nonce_key, replay_nonce_window_secs, execute, commit_prevalidated,
}
use rabbit_chain_node.Compute.Executor.History.{run}
use rabbit_chain_node.Compute.Executor.Effects.{execute_steps}

-- The registry holds the key with that time.
abbrev pub stamped : Text → ℕ → Registry → Bool
stamped key time r = any (λ entry. list_eq key entry.0 && entry.1 == time) r

stamped-has_key :
    (key : Text) (time : ℕ) (r : Registry) → stamped key time r ≡ true → has_key key r ≡ true
stamped-has_key key time [] h = cc
stamped-has_key key time (entry ∷ r) h = ground (arith, stamped-has_key key time r)

-- What is no older than the window is retained.
retain_window-stamped :
    (now : ℕ) (key : Text) (time : ℕ) (r : Registry)
    → now ≤ time + replay_nonce_window_secs
    → stamped key time r ≡ true
    → stamped key time (retain_window now r) ≡ true
unfolding retain_window
retain_window-stamped now key time [] w h = cc
retain_window-stamped now key time (entry ∷ r) w h =
    ground (arith, retain_window-stamped now key time r w)

-- The loop only adds to the registry.
register_actors-stamped :
    (tx : ComputeTx) (nonce now : ℕ) (actors : List Text) (r : Registry) (key : Text) (time : ℕ)
    → stamped key time r ≡ true
    → stamped key time (register_actors tx nonce now actors r).1 ≡ true
unfolding register_actors
register_actors-stamped tx nonce now [] r key time h = h
register_actors-stamped tx nonce now (actor ∷ actors) r key time h =
    let k = replay_nonce_key actor tx nonce in
    ground (arith, register_actors-stamped tx nonce now actors ((k, now) ∷ r) key time)

pub register-stamped :
    (e : Encoders) (now : ℕ) (tx : ComputeTx) (r : Registry) (key : Text) (time : ℕ)
    → now ≤ time + replay_nonce_window_secs
    → stamped key time r ≡ true
    → stamped key time (register_replay_nonce e now tx r).1 ≡ true
unfolding register_replay_nonce
register-stamped e now tx r key time w h = elim (Option-cases tx.nonce) [
  | inl absent ↦ rw (absent, register_replay_nonce) h
  | inr (nonce, present) ↦
      rw (present, register_replay_nonce)
        (register_actors-stamped tx nonce now (replay_actors e tx) (retain_window now r) key time
          (retain_window-stamped now key time r w h))
]

-- A loop that succeeds has stamped the key of every actor.
register_actors_stamps :
    (tx : ComputeTx) (nonce now : ℕ) (actors : List Text) (r r' : Registry) (actor : Text)
    → register_actors tx nonce now actors r ≡ (ok tt, r')
    → any (list_eq actor) actors ≡ true
    → stamped (replay_nonce_key actor tx nonce) now r' ≡ true
register_actors_stamps tx nonce now [] r r' actor h m = cc
register_actors_stamps tx nonce now (a ∷ actors) r r' actor h m =
    let k = replay_nonce_key a tx nonce in
    let rest : register_actors tx nonce now actors ((k, now) ∷ r) ≡ (ok tt, r') =
      unfold register_actors in ground arith in
    elim (Bool-cases (list_eq actor a)) [
      | inl same ↦
          let e = list_eq→eq actor a same in
          let here : stamped k now ((k, now) ∷ r) ≡ true = ground (arith, list_eq_refl k) in
          rw e (rw rest at (register_actors-stamped tx nonce now actors ((k, now) ∷ r) k now here))
      | inr other ↦
          register_actors_stamps tx nonce now actors ((k, now) ∷ r) r' actor rest (ground arith)
    ]

-- A loop that meets a key which is present fails.
register_actors_refuses :
    (tx : ComputeTx) (nonce now : ℕ) (actors : List Text) (r : Registry) (actor : Text) (time : ℕ)
    → any (list_eq actor) actors ≡ true
    → stamped (replay_nonce_key actor tx nonce) time r ≡ true
    → (register_actors tx nonce now actors r).0 ≢ ok tt
register_actors_refuses tx nonce now [] r actor time m h e = cc
register_actors_refuses tx nonce now (a ∷ actors) r actor time m h e =
    let k = replay_nonce_key a tx nonce in
    elim (Bool-cases (list_eq actor a)) [
      | inl same ↦
          let s = list_eq→eq actor a same in
          let known : has_key k r ≡ true = stamped-has_key k time r (rw (sym s) h) in
          unfold register_actors in ground arith
      | inr other ↦
          register_actors_refuses tx nonce now actors ((k, now) ∷ r) actor time (ground arith)
            (ground arith) (unfold register_actors in ground arith)
    ]

execute-stamped :
    (e : Encoders) (b : Backends) (now : ℕ) (tx : ComputeTx) (x : Executor) (key : Text) (time : ℕ)
    → now ≤ time + replay_nonce_window_secs
    → stamped key time x.replay_nonce_registry ≡ true
    → stamped key time (execute e b now tx x).1.replay_nonce_registry ≡ true
unfolding execute commit_prevalidated
execute-stamped e b now tx x key time w h =
    let kept = register-stamped e now tx x.replay_nonce_registry key time w h in
    elim (ComputeResult-cases (validate b x.store tx)) [
      | inr (f, g) ↦ rw (g, execute) h
      | inl (report, g) ↦
          elim (ComputeResult-cases (register_replay_nonce e now tx x.replay_nonce_registry).0) [
            | inr (f, k) ↦ rw (g, execute) (rw (k, commit_prevalidated) kept)
            | inl (u, k) ↦ rw (g, execute) (rw (k, commit_prevalidated) kept)
          ]
    ]

run-stamped :
    (e : Encoders) (b : Backends) (events : List (ℕ × ComputeTx)) (x : Executor) (key : Text)
    (time : ℕ)
    → All (λ event. event.0 ≤ time + replay_nonce_window_secs) events
    → stamped key time x.replay_nonce_registry ≡ true
    → stamped key time (run e b events x).replay_nonce_registry ≡ true
unfolding run
run-stamped e b [] x key time w h = h
run-stamped e b ((now, tx) ∷ events) x key time w h =
    run-stamped e b events (execute e b now tx x).1 key time w.1
      (execute-stamped e b now tx x key time w.0 h)

-- The two transactions carry the same nonce in the same domain, chain and network.
pub record SameNonce (nonce : ℕ) (tx tx' : ComputeTx) : Type 0 where
  pub first : tx.nonce ≡ some nonce
  pub second : tx'.nonce ≡ some nonce
  pub domain : tx'.domain_id ≡ tx.domain_id
  pub chain : tx'.chain_id ≡ tx.chain_id
  pub network : tx'.network_id ≡ tx.network_id

same_key :
    (actor : Text) (nonce : ℕ) (tx tx' : ComputeTx)
    → SameNonce nonce tx tx'
    → replay_nonce_key actor tx' nonce ≡ replay_nonce_key actor tx nonce
unfolding replay_nonce_key
same_key actor nonce tx tx' c = rw (c.domain, c.chain, c.network)

register_open :
    (e : Encoders) (now nonce : ℕ) (tx : ComputeTx) (r : Registry)
    → tx.nonce ≡ some nonce
    → register_actors tx nonce now (replay_actors e tx) (retain_window now r)
      ≡ register_replay_nonce e now tx r
unfolding register_replay_nonce
register_open e now nonce tx r h = ground arith

-- Replay protection: once a transaction has executed at time `now`, every transaction with the same
-- nonce, domain, chain and network that shares an actor with it is refused, as long as neither it nor
-- any attempt in between comes more than the window of 3600 seconds after `now`.
pub replay_refused :
    (e : Encoders) (b : Backends) (now later nonce : ℕ) (tx tx' : ComputeTx) (x x' : Executor)
    (r r' : ValidationReport) (events : List (ℕ × ComputeTx)) (actor : Text)
    → execute e b now tx x ≡ (ok r, x')
    → SameNonce nonce tx tx'
    → any (list_eq actor) (replay_actors e tx) ≡ true
    → any (list_eq actor) (replay_actors e tx') ≡ true
    → All (λ event. event.0 ≤ now + replay_nonce_window_secs) events
    → later ≤ now + replay_nonce_window_secs
    → (execute e b later tx' (run e b events x')).0 ≢ ok r'
replay_refused e b now later nonce tx tx' x x' r r' events actor h c mine yours w l again =
    let y = run e b events x' in
    let y' = (execute e b later tx' y).1 in
    let key = replay_nonce_key actor tx nonce in
    let (_, _, registered) = execute_steps e b now tx x x' r h in
    let (_, _, registered') = execute_steps e b later tx' y y' r' (λ i. (again i, y')) in
    let stamp : stamped key now x'.replay_nonce_registry ≡ true =
      register_actors_stamps tx nonce now (replay_actors e tx)
        (retain_window now x.replay_nonce_registry) x'.replay_nonce_registry actor
        (register_open e now nonce tx x.replay_nonce_registry c.first ∙ registered) mine in
    let kept = run-stamped e b events x' key now w stamp in
    let opened = register_open e later nonce tx' y.replay_nonce_registry c.second ∙ registered' in
    register_actors_refuses tx' nonce later (replay_actors e tx')
      (retain_window later y.replay_nonce_registry) actor now yours
      (rw (same_key actor nonce tx tx' c)
        (retain_window-stamped later key now y.replay_nonce_registry l kept))
      (λ i. (opened i).0)
