-- ===== src/Route/Routed.antt =====
-- A policy applied to the eligible candidates, as the parity tests apply the oracle.
use asm_flow.Prelude.{ℕ, Text, List, some, ◌≡◌, In}
use asm_flow.Route.{Candidate, ok, eligible_candidates, select}
use asm_flow.Route.Eligible.{Serves, In-eligible_candidates}
use asm_flow.Route.Policy.{Known, select-In, select-some}

-- Whatever the policy and the cursor, a selected target is one of the candidates and may serve the
-- request.
pub routed-Serves :
    (policy family : Text) (required : List Text) (cs : List Candidate) (cursor : ℕ) (c : Candidate)
    → select policy (eligible_candidates family required cs) cursor ≡ ok (some c)
    → In c cs × Serves family required c
routed-Serves policy family required cs cursor c h =
    (In-eligible_candidates family required cs c).0
      (select-In policy (eligible_candidates family required cs) cursor c h)

-- Under each of the three policies a target is selected whenever some candidate may serve.
pub routed-some :
    {policy : Text} (k : Known policy) (family : Text) (required : List Text) (cs : List Candidate)
    (cursor : ℕ) (c : Candidate)
    → In c cs
    → Serves family required c
    → (t : Candidate) × (select policy (eligible_candidates family required cs) cursor
        ≡ ok (some t))
routed-some k family required cs cursor c i s =
    select-some k (eligible_candidates family required cs) cursor c
      ((In-eligible_candidates family required cs c).1 (i, s))
