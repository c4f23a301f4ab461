-- ===== src/Discovery/Checked.antt =====
-- The DNSX stage: every verified host has its evidence.
use aicybersec.Discovery.Stages.{count_dnsx}
use aicybersec.Common.{
  ℕ, zero, suc, ◌≡◌, refl, ap, sym, ◌∙◌, inl, inr, Bool, true, false, Option, none, some, List, [],
  ◌∷◌, ok, >>=-eq-ok, ok_inv, Bool-cases, All, IsIn,
}
use mathlib.Core.Path.{subst}
use aicybersec.Common.Text.{Text}
use aicybersec.Common.Text.Laws.{eq_of_text_eq}
use aicybersec.Scope.{Net}
use aicybersec.Scope.Names.{normalize_hostname}
use aicybersec.Discovery.{DnsRecord, failed, replied, Persisted, unsaved, enriched, Env, Run}
use aicybersec.Discovery.Names.{is_name, any_verifies, records_of}
use aicybersec.Discovery.Calls.{tick, polled, Invocation, refused, accepted, invoke_dnsx}
use aicybersec.Discovery.Stages.{
  take_persisted, take_records, add_unverified, host_loop, take_dns, dnsx_loop,
}
use aicybersec.Discovery.Below.{IsVerified, insert-All, IsKept, invoke-IsKept}

-- During the DNS queries: what is discovered stays, and what is verified has its evidence.
abbrev pub IsChecked : Env → List Text → Run → Type 0
IsChecked env hosts r =
    (r.discovered ≡ hosts) × All (λ h. IsVerified env h × IsIn h hosts) r.dns_verified

IsKept-IsChecked :
    (env : Env) (hosts : List Text) (r s : Run)
    → IsKept r s
    → IsChecked env hosts r
    → IsChecked env hosts s
IsKept-IsChecked env hosts r s k h =
    (sym k.0 ∙ h.0, subst (All (λ h. IsVerified env h × IsIn h hosts)) k.1 h.1)

-- All records are of the host.
abbrev AreOf : Net → Text → List DnsRecord → Type 0
AreOf net host records = All (λ (r : DnsRecord). normalize_hostname net r.host ≡ some host) records

is_name-some : (o : Option Text) (t : Text) → is_name o t ≡ true → o ≡ some t
is_name-some none t e = cc
is_name-some (some s) t e = ap some (eq_of_text_eq s t e)

records_of-AreOf :
    (net : Net) (host : Text) (records : List DnsRecord)
    → AreOf net host (records_of net host records)
unfolding records_of
records_of-AreOf net host [] = tt
records_of-AreOf net host (r ∷ rs) =
    elim (Bool-cases (is_name (normalize_hostname net r.host) host)) [
      | inl e ↦
          rw e (is_name-some (normalize_hostname net r.host) host e, records_of-AreOf net host rs)
      | inr e ↦ rw e (records_of-AreOf net host rs)
    ]

take_persisted-IsChecked :
    (env : Env) (hosts : List Text) (x : Text) (at : ℕ) (records : List DnsRecord) (o : Persisted)
    (r : Run)
    → AreOf env.net x records
    → env.persist_dnsx at x records ≡ o
    → IsIn x hosts
    → IsChecked env hosts r
    → IsChecked env hosts (take_persisted env x records o r)
take_persisted-IsChecked env hosts x at records (unsaved e) r w q m h = h
take_persisted-IsChecked env hosts x at records (enriched zero) r w q m h = h
take_persisted-IsChecked env hosts x at records (enriched (suc n)) r w q m h =
    elim (Bool-cases (any_verifies env x records)) [
      | inl v ↦ rw v (
        h.0,
        insert-All (λ h. IsVerified env h × IsIn h hosts) x r.dns_verified
            (
              record {
                at = at;
                records = records;
                count = n;
                own = w;
                saved_to = q;
                addressed = v;
              },
              m,
            )
            h.1,
      )
      | inr v ↦ rw v h
    ]

take_records-IsChecked :
    (env : Env) (hosts : List Text) (x : Text) (records : List DnsRecord) (r : Run)
    → AreOf env.net x records
    → IsIn x hosts
    → IsChecked env hosts r
    → IsChecked env hosts (take_records env x records r)
take_records-IsChecked env hosts x [] r w m h = h
take_records-IsChecked env hosts x (d ∷ ds) r w m h =
    take_persisted-IsChecked env hosts x r.clock (d ∷ ds) (env.persist_dnsx r.clock x (d ∷ ds))
      (tick r) w refl m h

host_loop-IsChecked :
    (env : Env) (hosts : List Text) (records : List DnsRecord) (xs : List Text) (r : Run)
    → All (λ x. IsIn x hosts) xs
    → IsChecked env hosts r
    → IsChecked env hosts (host_loop env records xs r).1
unfolding host_loop
host_loop-IsChecked env hosts records [] r m h = h
host_loop-IsChecked env hosts records (x ∷ xs) r m h = elim (Bool-cases (polled env r)) [
  | inl q ↦ rw q h
  | inr q ↦ rw q (
      host_loop-IsChecked env hosts records xs
        (take_records env x (records_of env.net x records) (add_unverified (x ∷ []) (tick r))) m.1
        (take_records-IsChecked env hosts x (records_of env.net x records)
          (add_unverified (x ∷ []) (tick r)) (records_of-AreOf env.net x records) m.0 h))
]

take_dns-IsChecked :
    (env : Env) (hosts batch : List Text) (i : Invocation (Option (List DnsRecord))) (r : Run)
    → All (λ x. IsIn x hosts) batch
    → IsChecked env hosts r
    → IsChecked env hosts (take_dns env batch i r).1
take_dns-IsChecked env hosts batch refused r m h = h
take_dns-IsChecked env hosts batch (accepted (failed s)) r m h = h
take_dns-IsChecked env hosts batch (accepted (replied none)) r m h = h
take_dns-IsChecked env hosts batch (accepted (replied (some records))) r m h =
    host_loop-IsChecked env hosts records batch r m h

pub dnsx_loop-IsChecked :
    (env : Env) (hosts : List Text) (bs : List (List Text)) (r : Run) (p : Bool × Run)
    → All (All (λ x. IsIn x hosts)) bs
    → IsChecked env hosts r
    → dnsx_loop env bs r ≡ ok p
    → IsChecked env hosts p.1
unfolding dnsx_loop invoke_dnsx
dnsx_loop-IsChecked env hosts [] r p m h e =
    subst (λ (p : Bool × Run). IsChecked env hosts p.1) (ok_inv (false, r) p e) h
dnsx_loop-IsChecked env hosts (b ∷ bs) r p m h e = elim (Bool-cases (polled env r)) [
  | inl q ↦
      subst (λ (p : Bool × Run). IsChecked env hosts p.1) (ok_inv (true, tick r) p (rw q at e)) h
  | inr q ↦
      let (out, call, last) = >>=-eq-ok (invoke_dnsx env b (tick r)) _ (rw q at e) in
      let kept = invoke-IsKept _ env.dnsx env _ _ (tick r) out call in
      let s = take_dns env b out.0 (count_dnsx out.1) in
      let good =
        take_dns-IsChecked env hosts b out.0 (count_dnsx out.1) m.0
          (IsKept-IsChecked env hosts (tick r) out.1 kept h) in
      elim (Bool-cases s.0) [
        | inl c ↦
            subst (λ (p : Bool × Run). IsChecked env hosts p.1) (ok_inv s p (rw c at last)) good
        | inr c ↦ dnsx_loop-IsChecked env hosts bs s.1 p m.1 good (rw c at last)
      ]
]
