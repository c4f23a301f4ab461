-- ===== src/Discovery/Below.antt =====
-- The Subfinder stage: every discovered host lies below a parent of the snapshot.
use aicybersec.Discovery.Stages.{count_subfinder}
use aicybersec.Common.{else_some, some_inv}
use aicybersec.Safety.Params.{Params}
use aicybersec.Safety.Results.{Context}
use aicybersec.Safety.Tools.{Tool, tool_call}
use aicybersec.Safety.Policy.{Policy}
use aicybersec.Safety.Validator.{ValidationOutcome, validate}
use aicybersec.Discovery.{Execution}
use aicybersec.Discovery.Calls.{on_tool, on_outcome, invoke}
use aicybersec.Common.{
  ℕ, suc, ◌≡◌, refl, sym, ◌∙◌, ◌≢◌, inl, inr, Bool, true, false, not, ◌||◌, Option, none, some,
  List, [], ◌∷◌, ok, >>=-eq-ok, ok_inv, Bool-cases, All, All-append, All-IsIn, IsIn-All, IsIn,
  arith,
}
use mathlib.Core.Path.{subst}
use aicybersec.Common.Text.{Text, text_eq, elem}
use aicybersec.Common.Text.Laws.{text_eq_refl}
use aicybersec.Scope.{Net}
use aicybersec.Scope.Names.{normalize_hostname, is_within_domain}
use aicybersec.Discovery.{Candidate, Found, DnsRecord, failed, replied, enriched, Env, Run}
use aicybersec.Discovery.Names.{
  insert, union, sort_candidate, sort_candidates, entries_of, below, is_name, validated_discoveries,
  any_verifies,
}
use aicybersec.Discovery.Calls.{tick, polled, Invocation, refused, accepted, invoke_subfinder}
use aicybersec.Discovery.Stages.{add_valid, saved, take_found, take_reply, subfinder_loop}

-- A discovered host is below one of the parents, and is not that parent.
abbrev pub IsBelow : Net → Text → Text → Type 0
IsBelow net parent host = (host ≢ parent) × (is_within_domain net (some host) (some parent) ≡ true)

abbrev pub IsDiscovery : Net → List Text → Text → Type 0
IsDiscovery net parents host = (parent : Text) × IsIn parent parents × IsBelow net parent host

-- The evidence for a host: DNS records, all of the host, were saved to at least one asset, and one of them
-- has a valid address.
pub record IsVerified (env : Env) (host : Text) : Type 0 where
  pub at : ℕ
  pub records : List DnsRecord
  pub count : ℕ
  pub own : All (λ (r : DnsRecord). normalize_hostname env.net r.host ≡ some host) records
  pub saved_to : env.persist_dnsx at host records ≡ enriched (suc count)
  pub addressed : any_verifies env host records ≡ true

pub insert-All :
    (P : Text → Type 0) (x : Text) (xs : List Text) → P x → All P xs → All P (insert x xs)
unfolding insert
insert-All P x xs p h = elim (Bool-cases (elem x xs)) [
  | inl e ↦ rw e h
  | inr e ↦ rw e (All-append P xs (x ∷ []) h (p, tt))
]

union-All : (P : Text → Type 0) (xs ys : List Text) → All P xs → All P ys → All P (union xs ys)
unfolding union
union-All P xs [] h k = h
union-All P xs (y ∷ ys) h (q, k) = union-All P (insert y xs) ys (insert-All P y xs q h) k

below-IsBelow :
    (net : Net) (parent : Text) (o : Option Text) (h : Text)
    → below net parent o ≡ some h
    → IsBelow net parent h
below-IsBelow net parent none h e = cc
below-IsBelow net parent (some host) h e =
    let (kept, last) =
      else_some (text_eq host parent || not (is_within_domain net (some host) (some parent)))
        (some host) h e in
    let differs : text_eq host parent ≡ false = ground arith in
    let inside : is_within_domain net (some host) (some parent) ≡ true = ground arith in
    subst (IsBelow net parent) (some_inv host h last) (
      (λ same. (let same_text : text_eq host parent ≡ true = rw same (text_eq_refl parent) in cc)),
      inside,
    )

sort_candidate-All :
    (net : Net) (parent : Text) (o : Option Text) (shown : Text) (out : List Text × List Text)
    → ((h : Text) → o ≡ some h → IsBelow net parent h)
    → All (IsBelow net parent) out.0
    → All (IsBelow net parent) (sort_candidate o shown out).0
sort_candidate-All net parent none shown out f h = h
sort_candidate-All net parent (some host) shown out f h =
    insert-All (IsBelow net parent) host out.0 (f host refl) h

sort_candidates-All :
    (net : Net) (parent : Text) (out : List Text × List Text) (cs : List Candidate)
    → All (IsBelow net parent) out.0
    → All (IsBelow net parent) (sort_candidates net parent out cs).0
unfolding sort_candidates
sort_candidates-All net parent out [] h = h
sort_candidates-All net parent out (c ∷ cs) h =
    sort_candidates-All net parent
      (sort_candidate (below net parent (normalize_hostname net c.name)) c.shown out) cs
      (sort_candidate-All net parent (below net parent (normalize_hostname net c.name)) c.shown out
        (below-IsBelow net parent (normalize_hostname net c.name)) h)

validated_discoveries-All :
    (net : Net) (found : Found) (parent : Text)
    → All (IsBelow net parent) (validated_discoveries net found parent).0
unfolding validated_discoveries
validated_discoveries-All net found parent =
    elim (Bool-cases (is_name (normalize_hostname net found.domain) parent)) [
      | inl e ↦ rw e (sort_candidates-All net parent ([], []) (entries_of found.subdomains) tt)
      | inr e ↦ rw e tt
    ]

-- Before the first DNS query: what is discovered is below a parent, and nothing is verified.
abbrev pub IsFound : Env → List Text → Run → Type 0
IsFound env parents r = All (IsDiscovery env.net parents) r.discovered × (r.dns_verified ≡ [])

-- A call leaves the sets as they are.
abbrev pub IsKept : Run → Run → Type 0
IsKept r s = (r.discovered ≡ s.discovered) × (r.dns_verified ≡ s.dns_verified)

on_tool-IsKept :
    {A : Type 0} (tool : Text) (execute : ℕ → Option Params → Context → Execution A) (env : Env)
    (policy : Policy) (params : Option Params) (t : Option Tool) (r : Run)
    → IsKept r (on_tool tool execute env policy params t r).1
on_tool-IsKept tool execute env policy params none r = (refl, refl)
on_tool-IsKept tool execute env policy params (some t) r = elim (Bool-cases (polled env r)) [
  | inl e ↦ rw e (refl, refl)
  | inr e ↦ rw e (refl, refl)
]

on_outcome-IsKept :
    {A : Type 0} (tool : Text) (execute : ℕ → Option Params → Context → Execution A) (env : Env)
    (policy : Policy) (outcome : ValidationOutcome) (r : Run)
    → IsKept r (on_outcome tool execute env policy outcome r).1
on_outcome-IsKept tool execute env policy outcome r = elim (Bool-cases outcome.accepted) [
  | inl e ↦ rw e (on_tool-IsKept tool execute env policy outcome.validated_params outcome.tool r)
  | inr e ↦ rw e (refl, refl)
]

pub invoke-IsKept :
    {A : Type 0} (tool : Text) (execute : ℕ → Option Params → Context → Execution A) (env : Env)
    (policy : Policy) (params : Params) (r : Run) (out : Invocation A × Run)
    → invoke tool execute env policy params r ≡ ok out
    → IsKept r out.1
invoke-IsKept tool execute env policy params r out e = elim (Bool-cases (polled env r)) [
  | inl p ↦
      subst (λ (o : Invocation _ × Run). IsKept r o.1) (ok_inv (refused, tick r) out (rw p at e))
        (refl, refl)
  | inr p ↦
      let (outcome, v, last) =
        >>=-eq-ok (validate env.registry policy (tool_call tool params none)) _ (rw p at e) in
      subst (λ (o : Invocation _ × Run). IsKept r o.1) (ok_inv _ out last)
        (on_outcome-IsKept tool execute env policy outcome (tick r))
]

take_found-IsFound :
    (env : Env) (parents : List Text) (parent : Text) (found : Found) (r : Run)
    → IsIn parent parents
    → IsFound env parents r
    → IsFound env parents (take_found env parent found r).1
take_found-IsFound env parents parent found r m h =
    let two = validated_discoveries env.net found parent in
    let new = IsIn-All (IsDiscovery env.net parents) two.0 (λ x i. (
      parent,
      m,
      All-IsIn (IsBelow env.net parent) x two.0 (validated_discoveries-All env.net found parent) i,
    )) in
    let grown : IsFound env parents (add_valid parent two r) =
      (union-All (IsDiscovery env.net parents) r.discovered two.0 h.0 new, h.1) in
    elim (Bool-cases (is_name (normalize_hostname env.net found.domain) parent)) [
      | inl e ↦ elim (Bool-cases (polled env (add_valid parent two r))) [
        | inl p ↦ rw (e, p) grown
        | inr p ↦
            rw (e, p)
              (saved_lem (env.persist_subfinder (suc r.clock) found)
                (tick (tick (add_valid parent two r))) grown)
      ]
      | inr e ↦ rw e h
    ]
  where
    saved_lem :
        (o : Option Text) (r : Run) → IsFound env parents r → IsFound env parents (saved parent o r)
    saved_lem none r h = h
    saved_lem (some e) r h = h

take_reply-IsFound :
    (env : Env) (parents : List Text) (parent : Text) (i : Invocation Found) (r : Run)
    → IsIn parent parents
    → IsFound env parents r
    → IsFound env parents (take_reply env parent i r).1
take_reply-IsFound env parents parent refused r m h = h
take_reply-IsFound env parents parent (accepted (failed s)) r m h = h
take_reply-IsFound env parents parent (accepted (replied found)) r m h =
    take_found-IsFound env parents parent found r m h

IsKept-IsFound :
    (env : Env) (parents : List Text) (r s : Run)
    → IsKept r s
    → IsFound env parents r
    → IsFound env parents s
IsKept-IsFound env parents r s k h =
    (subst (All (IsDiscovery env.net parents)) k.0 h.0, sym k.1 ∙ h.1)

pub subfinder_loop-IsFound :
    (env : Env) (parents ps : List Text) (r : Run) (p : Bool × Run)
    → ((x : Text) → IsIn x ps → IsIn x parents)
    → IsFound env parents r
    → subfinder_loop env ps r ≡ ok p
    → IsFound env parents p.1
unfolding subfinder_loop invoke_subfinder
subfinder_loop-IsFound env parents [] r p m h e =
    subst (λ (p : Bool × Run). IsFound env parents p.1) (ok_inv (false, r) p e) h
subfinder_loop-IsFound env parents (x ∷ xs) r p m h e = elim (Bool-cases (polled env r)) [
  | inl q ↦
      subst (λ (p : Bool × Run). IsFound env parents p.1) (ok_inv (true, tick r) p (rw q at e)) h
  | inr q ↦
      let (out, call, last) = >>=-eq-ok (invoke_subfinder env x (tick r)) _ (rw q at e) in
      let kept = invoke-IsKept _ env.subfinder env env.policy _ (tick r) out call in
      let s = take_reply env x out.0 (count_subfinder out.1) in
      let good =
        take_reply-IsFound env parents x out.0 (count_subfinder out.1) (m x (inl refl))
          (IsKept-IsFound env parents (tick r) out.1 kept h) in
      elim (Bool-cases s.0) [
        | inl b ↦
            subst (λ (p : Bool × Run). IsFound env parents p.1) (ok_inv s p (rw b at last)) good
        | inr b ↦
            subfinder_loop-IsFound env parents xs s.1 p (λ y i. m y (inr i)) good (rw b at last)
      ]
]
