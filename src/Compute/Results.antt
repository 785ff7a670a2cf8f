-- ===== src/Compute/Results.antt =====
-- Splits and inversions of `ComputeResult` that keep the equation.
use rabbit_chain_node.Prelude.{◌≡◌, refl, ◌⊎◌, inl, inr}
use rabbit_chain_node.Compute.Types.{ComputeError, ComputeResult, ok, err, ◌>>=◌}

-- Inversion of a successful bind.
pub >>=-eq-ok {ℓ κ} :
    {X : Type ℓ} {Y : Type κ} (step : ComputeResult X) (rest : X → ComputeResult Y) {y : Y}
    → (step >>= rest) ≡ ok y
    → (x : X) × (step ≡ ok x) × (rest x ≡ ok y)
>>=-eq-ok (ok x) rest accepted = (x, refl, accepted)
>>=-eq-ok (err refusal) rest accepted = cc

pub ComputeResult-cases {ℓ} :
    {A : Type ℓ} (r : ComputeResult A) → ((a : A) × (r ≡ ok a)) ⊎ ((e : ComputeError) × (r ≡ err e))
ComputeResult-cases (ok a) = inl (a, refl)
ComputeResult-cases (err e) = inr (e, refl)
