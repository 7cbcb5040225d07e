-- ===== src/Route/Eligible.antt =====
-- What `eligible_candidates` keeps, exactly.
use asm_flow.Prelude.{
  ◌<◌, Bool, true, false, List, [], ◌∷◌, ◌≡◌, ◌↔◌, inl, inr, arith, Text, In, mem_text,
  mem_text_iff, Bool-cases, refl, ◌&&◌, not, ltb,
}
use asm_flow.Route.{Candidate, eligible_states, issubset, eligible_candidates}

-- The candidate may serve a request of this family with these required capabilities.
pub record Serves (family : Text) (required : List Text) (c : Candidate) : Type 0 where
  pub enabled : c.enabled ≡ true
  pub untried : c.already_tried ≡ false
  pub closed_circuit : In c.state eligible_states
  pub has_slot : c.active < c.max_concurrency
  pub speaks_family : In family c.endpoint_families
  pub has_capabilities : (t : Text) → In t required → In t c.capabilities

issubset_sound : (ss ts : List Text) → issubset ss ts ≡ true → (t : Text) → In t ss → In t ts
unfolding issubset
issubset_sound [] ts h t i = absurd i
issubset_sound (s ∷ ss) ts h t (inl e) = (mem_text_iff t ts).0 (ground arith)
issubset_sound (s ∷ ss) ts h t (inr i) = issubset_sound ss ts (ground arith) t i

issubset_complete : (ss ts : List Text) → ((t : Text) → In t ss → In t ts) → issubset ss ts ≡ true
unfolding issubset
issubset_complete [] ts h = refl
issubset_complete (s ∷ ss) ts h =
    ground
      (arith, (mem_text_iff s ts).1 (h s (inl refl)), issubset_complete ss ts (λ t i. h t (inr i)))

-- The tests of the loop as one.
serves : Text → List Text → Candidate → Bool
serves family required c =
    c.enabled
    && (not c.already_tried
        && (mem_text c.state eligible_states
            && (ltb c.active c.max_concurrency
                && (mem_text family c.endpoint_families && issubset required c.capabilities))))

module _ (family : Text) (required : List Text) where
  serves_sound : (c : Candidate) → serves family required c ≡ true → Serves family required c
  unfolding serves
  serves_sound c h = record {
    enabled = ground arith;
    untried = ground arith;
    closed_circuit = (mem_text_iff c.state eligible_states).0 (ground arith);
    has_slot = ground arith;
    speaks_family = (mem_text_iff family c.endpoint_families).0 (ground arith);
    has_capabilities = issubset_sound required c.capabilities (ground arith);
  }

  serves_complete : (c : Candidate) → Serves family required c → serves family required c ≡ true
  unfolding serves
  serves_complete c s = ground (
    arith,
    s.enabled,
    s.untried,
    (mem_text_iff c.state eligible_states).1 s.closed_circuit,
    s.has_slot,
    (mem_text_iff family c.endpoint_families).1 s.speaks_family,
    issubset_complete required c.capabilities s.has_capabilities,
  )

  eligible-keep :
      (c : Candidate) (cs : List Candidate)
      → serves family required c ≡ true
      → eligible_candidates family required (c ∷ cs) ≡ c ∷ eligible_candidates family required cs
  unfolding serves eligible_candidates
  eligible-keep c cs h = ground arith

  eligible-drop :
      (c : Candidate) (cs : List Candidate)
      → serves family required c ≡ false
      → eligible_candidates family required (c ∷ cs) ≡ eligible_candidates family required cs
  unfolding serves eligible_candidates
  eligible-drop c cs h = ground arith

  kept :
      (cs : List Candidate) (c : Candidate)
      → In c (eligible_candidates family required cs)
      → In c cs × Serves family required c
  kept [] c h = absurd (unfold eligible_candidates in h)
  kept (x ∷ cs) c h = elim (Bool-cases (serves family required x)) [
    | inl s ↦ elim (rw (eligible-keep x cs s) at h) [
      | inl e ↦ (inl e, rw e (serves_sound x s))
      | inr i ↦ let (j, k) = kept cs c i in (inr j, k)
    ]
    | inr s ↦ let (j, k) = kept cs c (rw (eligible-drop x cs s) at h) in (inr j, k)
  ]

  keeps :
      (cs : List Candidate) (c : Candidate)
      → In c cs
      → Serves family required c
      → In c (eligible_candidates family required cs)
  keeps [] c h s = absurd h
  keeps (x ∷ cs) c (inl e) s = rw (eligible-keep x cs (rw (← e) (serves_complete c s))) (inl e)
  keeps (x ∷ cs) c (inr h) s = elim (Bool-cases (serves family required x)) [
    | inl t ↦ rw (eligible-keep x cs t) (inr (keeps cs c h s))
    | inr t ↦ rw (eligible-drop x cs t) (keeps cs c h s)
  ]

  -- A candidate is kept exactly when it is listed, enabled, untried, in an eligible state, below
  -- its concurrency limit, and has the endpoint family and every required capability.
  pub In-eligible_candidates :
      (cs : List Candidate) (c : Candidate)
      → In c (eligible_candidates family required cs) ↔ (In c cs × Serves family required c)
  In-eligible_candidates cs c = (kept cs c, λ h. keeps cs c h.0 h.1)
