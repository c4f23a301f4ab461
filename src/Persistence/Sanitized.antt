-- ===== src/Persistence/Sanitized.antt =====
-- What `sanitize_event_data` stores of a payload.
use aicybersec.Common.{
  ◌≤◌, ◌≡◌, ◌&&◌, false, ◌⊎◌, inl, inr, false, Option, none, some, take, length, length-append,
  length-take, Bool-cases, leb, leb→le, arith,
}
use aicybersec.Common.Text.{Text, codes, text_eq}
use aicybersec.Persistence.Enrich.{cap_text}
use aicybersec.Persistence.Cleaned.{IsCleanOf}
use aicybersec.Persistence.Json.{
  Json, null, string, scalar, array, object, Items, no_items, item, Dict, no_entries, entry,
  cap_strings, cap_items, cap_dict, has_key,
}

-- No string is longer than the cap and its mark.
unfoldable mutual
  pub IsShort : Json → Type 0
  IsShort null = Unit
  IsShort (string s) = length s ≤ 8206
  IsShort (scalar s) = Unit
  IsShort (array js) = AreShort js
  IsShort (object d) = IsShortDict d

  pub AreShort : Items → Type 0
  AreShort no_items = Unit
  AreShort (item j js) = IsShort j × AreShort js

  pub IsShortDict : Dict → Type 0
  IsShortDict no_entries = Unit
  IsShortDict (entry k v d) = IsShort v × IsShortDict d

length-cap_text : (s : Text) → length (cap_text s) ≤ 8206
length-cap_text s = elim (Bool-cases (leb (length s) 8192)) [
  | inl e ↦ let h = leb→le (length s) 8192 e in rw e (omega arith)
  | inr e ↦
      let a = length-append (take 8192 s) (codes "...[truncated]") in
      let b = length-take 8192 s in rw e (omega arith)
]

mutual
  unfolding cap_strings IsShort

  cap_strings-IsShort : (j : Json) → IsShort (cap_strings j)
  cap_strings-IsShort null = tt
  cap_strings-IsShort (string s) = length-cap_text s
  cap_strings-IsShort (scalar s) = tt
  cap_strings-IsShort (array js) = cap_items-AreShort js
  cap_strings-IsShort (object d) = cap_dict-IsShortDict d

  cap_items-AreShort : (js : Items) → AreShort (cap_items js)
  cap_items-AreShort no_items = tt
  cap_items-AreShort (item j js) = (cap_strings-IsShort j, cap_items-AreShort js)

  cap_dict-IsShortDict : (d : Dict) → IsShortDict (cap_dict d)
  cap_dict-IsShortDict no_entries = tt
  cap_dict-IsShortDict (entry k v d) = (cap_strings-IsShort v, cap_dict-IsShortDict d)

-- No dict under the key "decision" has the key "reasoning" itself.
unfoldable pub IsReasonless : Dict → Type 0
IsReasonless no_entries = Unit
IsReasonless (entry k (object v) d) =
    (text_eq k (codes "decision") && has_key (codes "reasoning") v ≡ false) × IsReasonless d
IsReasonless (entry k v d) = IsReasonless d

-- A payload without long strings, and without the reasoning of a decision.
abbrev pub IsClean : Dict → Type 0
IsClean d = IsShortDict d × IsReasonless d

-- What is stored of a payload: the mark, where what is kept of the payload does not serialize; what is
-- kept, where its serialized text is within the cap; else the first 32768 characters of that text.
abbrev pub IsSanitized : (Dict → Option Text) → Dict → Dict → Type 0
IsSanitized dumps d out =
    (cleaned : Dict) × IsCleanOf d cleaned
    × IsClean cleaned
    × (((dumps cleaned ≡ none)
          × (out ≡ entry (codes "_unserializable") (scalar (codes "True")) no_entries))
        ⊎ ((s : Text) × (dumps cleaned ≡ some s)
            × (((length s ≤ 32768) × (out ≡ cleaned))
                ⊎ ((32769 ≤ length s)
                    × (out
                        ≡ entry (codes "_truncated") (scalar (codes "True"))
                            (entry (codes "preview") (string (take 32768 s)) no_entries))))))
