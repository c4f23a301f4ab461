-- ===== src/Persistence/Cleaned.antt =====
-- What `_cap_strings` and the cleaning of `sanitize_event_data` keep of a payload.
use aicybersec.Common.{
  ◌≤◌, ◌≡◌, ◌≢◌, inl, inr, ◌⊎◌, true, false, take, length, ◌++◌, Bool-cases, leb, leb→le, arith,
}
use aicybersec.Common.Text.{Text, codes, text_eq}
use aicybersec.Common.Text.Laws.{text_eq_iff}
use aicybersec.Persistence.Enrich.{cap_text}
use aicybersec.Persistence.Json.{
  Json, null, string, scalar, array, object, Items, no_items, item, Dict, no_entries, entry,
  cap_strings, cap_items, cap_dict, without_key, clean_dict,
}

-- The same value, where strings of more than 8192 characters are cut and marked.
mutual
  pub data IsCapOf : Json → Json → Type 0 where
    null_stays : IsCapOf null null
    scalar_stays : (s : Text) → IsCapOf (scalar s) (scalar s)
    string_stays : (s : Text) → length s ≤ 8192 → IsCapOf (string s) (string s)
    string_cut :
        (s : Text)
        → 8193 ≤ length s
        → IsCapOf (string s) (string (take 8192 s ++ codes "...[truncated]"))
    items_capped : {js ks : Items} → AreCapsOf js ks → IsCapOf (array js) (array ks)
    values_capped : {d c : Dict} → AreValuesOf d c → IsCapOf (object d) (object c)

  pub data AreCapsOf : Items → Items → Type 0 where
    no_caps : AreCapsOf no_items no_items
    next_cap :
        {j k : Json} {js ks : Items}
        → IsCapOf j k
        → AreCapsOf js ks
        → AreCapsOf (item j js) (item k ks)

  pub data AreValuesOf : Dict → Dict → Type 0 where
    no_values : AreValuesOf no_entries no_entries
    next_value :
        {v w : Json} {d c : Dict} (k : Text)
        → IsCapOf v w
        → AreValuesOf d c
        → AreValuesOf (entry k v d) (entry k w c)

-- The entries of a decision but those of the key "reasoning".
pub data IsDecisionOf : Dict → Dict → Type 0 where
  decision_ends : IsDecisionOf no_entries no_entries
  reasoning_drops :
      {v : Json} {d c : Dict} (k : Text)
      → k ≡ codes "reasoning"
      → IsDecisionOf d c
      → IsDecisionOf (entry k v d) c
  other_stays :
      {v w : Json} {d c : Dict} (k : Text)
      → k ≢ codes "reasoning"
      → IsCapOf v w
      → IsDecisionOf d c
      → IsDecisionOf (entry k v d) (entry k w c)

-- The entries of a payload, in which a dict under the key "decision" loses its reasoning.
pub data IsCleanOf : Dict → Dict → Type 0 where
  payload_ends : IsCleanOf no_entries no_entries
  decision_cleaned :
      {v w d c : Dict} (k : Text)
      → k ≡ codes "decision"
      → IsDecisionOf v w
      → IsCleanOf d c
      → IsCleanOf (entry k (object v) d) (entry k (object w) c)
  value_capped :
      {v w : Json} {d c : Dict} (k : Text)
      → (k ≢ codes "decision") ⊎ (¬ ((b : Dict) × (v ≡ object b)))
      → IsCapOf v w
      → IsCleanOf d c
      → IsCleanOf (entry k v d) (entry k w c)

string-IsCapOf : (s : Text) → IsCapOf (string s) (string (cap_text s))
string-IsCapOf s = elim (Bool-cases (leb (length s) 8192)) [
  | inl e ↦ rw e (string_stays s (leb→le (length s) 8192 e))
  | inr e ↦ rw e (string_cut s (ground arith))
]

mutual
  unfolding cap_strings

  cap_strings-IsCapOf : (j : Json) → IsCapOf j (cap_strings j)
  cap_strings-IsCapOf null = null_stays
  cap_strings-IsCapOf (string s) = string-IsCapOf s
  cap_strings-IsCapOf (scalar s) = scalar_stays s
  cap_strings-IsCapOf (array js) = items_capped (cap_items-AreCapsOf js)
  cap_strings-IsCapOf (object d) = values_capped (cap_dict-AreValuesOf d)

  cap_items-AreCapsOf : (js : Items) → AreCapsOf js (cap_items js)
  cap_items-AreCapsOf no_items = no_caps
  cap_items-AreCapsOf (item j js) = next_cap (cap_strings-IsCapOf j) (cap_items-AreCapsOf js)

  cap_dict-AreValuesOf : (d : Dict) → AreValuesOf d (cap_dict d)
  cap_dict-AreValuesOf no_entries = no_values
  cap_dict-AreValuesOf (entry k v d) = next_value k (cap_strings-IsCapOf v) (cap_dict-AreValuesOf d)

differs : (s t : Text) → text_eq s t ≡ false → s ≢ t
differs s t e q = let same : text_eq s t ≡ true = (text_eq_iff s t).1 q in cc

without_key-IsDecisionOf :
    (d : Dict) → IsDecisionOf d (cap_dict (without_key (codes "reasoning") d))
unfolding cap_strings without_key
without_key-IsDecisionOf no_entries = decision_ends
without_key-IsDecisionOf (entry k v d) = elim (Bool-cases (text_eq k (codes "reasoning"))) [
  | inl e ↦
      rw e
        (reasoning_drops k ((text_eq_iff k (codes "reasoning")).0 e) (without_key-IsDecisionOf d))
  | inr e ↦ rw e (
      other_stays k (differs k (codes "reasoning") e) (cap_strings-IsCapOf v)
        (without_key-IsDecisionOf d))
]

pub clean_dict-IsCleanOf : (d : Dict) → IsCleanOf d (clean_dict d)
unfolding clean_dict cap_strings
clean_dict-IsCleanOf no_entries = payload_ends
clean_dict-IsCleanOf (entry k null d) =
    value_capped k (inr (λ (b, q). cc)) null_stays (clean_dict-IsCleanOf d)
clean_dict-IsCleanOf (entry k (string s) d) =
    value_capped k (inr (λ (b, q). cc)) (string-IsCapOf s) (clean_dict-IsCleanOf d)
clean_dict-IsCleanOf (entry k (scalar s) d) =
    value_capped k (inr (λ (b, q). cc)) (scalar_stays s) (clean_dict-IsCleanOf d)
clean_dict-IsCleanOf (entry k (array js) d) =
    value_capped k (inr (λ (b, q). cc)) (items_capped (cap_items-AreCapsOf js))
      (clean_dict-IsCleanOf d)
clean_dict-IsCleanOf (entry k (object v) d) = elim (Bool-cases (text_eq k (codes "decision"))) [
  | inl e ↦ rw e (
      decision_cleaned k ((text_eq_iff k (codes "decision")).0 e) (without_key-IsDecisionOf v)
        (clean_dict-IsCleanOf d))
  | inr e ↦ rw e (
      value_capped k (inl (differs k (codes "decision") e)) (values_capped (cap_dict-AreValuesOf v))
        (clean_dict-IsCleanOf d))
]
