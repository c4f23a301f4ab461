-- ===== src/Parsers/Tests.antt =====
-- Two lines of Subfinder, of which one is no JSON.
use aicybersec.Common.{
  ◌≤◌, ◌≡◌, refl, Option, none, some, [], ◌∷◌, ◌++◌, if◌then◌else◌, length, All,
}
use aicybersec.Common.Text.{Text, codes, text_eq, strip, lstrip, rstrip}
use aicybersec.Persistence.Json.{Json, string, object, no_entries, entry, get_key}
use aicybersec.Parsers.{
  splitlines, clean_str, clean_first, normalize_subfinder, normalize_dnsx, parse_lines,
  parse_subfinder_jsonl, parse_dnsx_jsonl,
}
use aicybersec.Parsers.Bounds.{IsBounded, parse_subfinder_jsonl-IsBounded}
use aicybersec.Parsers.Laws.{IsParsed, parse_jsonl-IsParsed}

-- A decoder that knows one line.
abbrev loads : Text → Option Json
loads s =
    if text_eq s (codes "{}")
    then some (
        object (
          entry (codes "host") (string (codes " a.com "))
            (entry (codes "source") (string (codes "crtsh")) no_entries)))
    else none

abbrev output : Text
output = codes "oops" ++ 10 ∷ codes "{}" ++ 13 ∷ 10 ∷ []

parsed : parse_subfinder_jsonl loads output ≡ (
  record { subdomain = codes "a.com"; sources = codes "crtsh" ∷ []; discovered_ips = [] } ∷ [],
  1,
)
unfolding parse_subfinder_jsonl parse_lines normalize_subfinder clean_str clean_first splitlines
    get_key text_eq strip lstrip rstrip
parsed = refl

parse_jsonl-IsParsed_example :
    IsParsed loads normalize_subfinder 500 (parse_subfinder_jsonl loads output) (splitlines output)
    × IsParsed loads normalize_dnsx 100 (parse_dnsx_jsonl loads output) (splitlines output)
parse_jsonl-IsParsed_example = parse_jsonl-IsParsed loads output

parse_subfinder_jsonl-IsBounded_example :
    (length (parse_subfinder_jsonl loads output).0 ≤ 500)
    × All IsBounded (parse_subfinder_jsonl loads output).0
parse_subfinder_jsonl-IsBounded_example = parse_subfinder_jsonl-IsBounded loads output
