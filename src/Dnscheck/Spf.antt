-- ===== src/Dnscheck/Spf.antt =====
-- internal/dnscheck/dnscheck.go: checkSPF and spfTerms.
pub mod Verdict
pub mod Terms
use carteiro.Common.{
  Bool, Bytes, List, [], codes, filter, if◌then◌else◌, ltb, map, str_eq, ℕ, ◌++◌, ◌+◌, ◌==◌, ◌||◌,
  ◌∷◌,
}
use carteiro.Text.{has_prefix, trim_space, to_lower, trim_left, trim_suffix, fields, itoa}
use carteiro.Dnscheck.Types.{Resolver, answer, no_answer, Result, pass, warn, fail}

abbrev is_qualifier : ℕ → Bool
is_qualifier c = c == b'+' || c == b'-' || c == b'~' || c == b'?'

unfoldable pub mechanism : Bytes → Bytes
unfolding trim_left to_lower
mechanism f = trim_left is_qualifier (to_lower f)

-- The mechanism makes a receiver look up another name.
unfoldable pub is_lookup : Bytes → Bool
unfolding has_prefix str_eq
is_lookup name =
    str_eq name (codes "a")
    || has_prefix name (codes "a:")
    || has_prefix name (codes "a/")
    || str_eq name (codes "mx")
    || has_prefix name (codes "mx:")
    || str_eq name (codes "ptr")
    || has_prefix name (codes "ptr:")
    || has_prefix name (codes "include:")
    || has_prefix name (codes "exists:")
    || has_prefix name (codes "redirect=")

abbrev or_plus : Bytes → Bytes
or_plus [] = codes "+"
or_plus (c ∷ q) = c ∷ q

unfoldable pub all_qualifier : Bytes → Bytes
unfolding trim_suffix to_lower
all_qualifier f = or_plus (trim_suffix (to_lower f) (codes "all")) ++ codes "all"

spf_loop : List Bytes → Bytes → ℕ → Bytes × ℕ
unfolding mechanism is_lookup all_qualifier str_eq
spf_loop [] qualifier lookups = (qualifier, lookups)
spf_loop (f ∷ fs) qualifier lookups =
    let is_all = str_eq (mechanism f) (codes "all") in
    spf_loop fs (if is_all then all_qualifier f else qualifier)
      (if is_all then lookups else if is_lookup (mechanism f) then lookups + 1 else lookups)

unfoldable pub spf_terms : Bytes → Bytes × ℕ
unfolding spf_loop fields
spf_terms rec_ = spf_loop (fields rec_) [] 0

unfoldable pub is_spf : Bytes → Bool
unfolding has_prefix to_lower trim_space
is_spf rec_ = has_prefix (to_lower (trim_space rec_)) (codes "v=spf1")

unfoldable pub grade_all : Bytes → Result → Result
unfolding str_eq
grade_all qualifier c =
    if str_eq qualifier (codes "-all")
    then record c { status = pass; message = codes "SPF record found with a hard fail ('-all')" }
    else if str_eq qualifier (codes "~all")
    then record c {
      status = warn;
      message =
          codes
            "SPF ends with '~all' (soft fail); switch to '-all' once you confirm the record is right";
    }
    else if str_eq qualifier (codes "+all")
    then record c {
      status = fail;
      message =
          codes
            "SPF ends with '+all' (or a bare 'all'), authorizing the whole internet; use '-all'";
    }
    else if str_eq qualifier (codes "?all")
    then record c {
      status = fail;
      message = codes "SPF ends with '?all' (neutral), which gives no protection; use '-all'";
    }
    else record c {
      status = warn;
      message =
          codes
            "SPF record has no 'all' mechanism, so unlisted senders are neither authorized nor rejected";
    }

unfoldable pub limit_lookups : ℕ → Result → Result
unfolding itoa
limit_lookups lookups c =
    if ltb 10 lookups
    then record c {
      status = fail;
      message =
          codes "SPF uses "
          ++ (itoa lookups
              ++ codes " DNS lookups; the limit is 10, so receivers treat it as a permanent error");
    }
    else c

unfoldable pub grade_spf : List Bytes → Result → Result
unfolding grade_all limit_lookups spf_terms
grade_spf [] c = record c {
  message = codes "no SPF record on the sending domain; publish one authorizing this server";
  expected = codes "v=spf1 ip4:<server-ip> -all";
}
grade_spf (spf ∷ []) c =
    limit_lookups (spf_terms spf).1 (grade_all (spf_terms spf).0 (record c { found = spf ∷ [] }))
grade_spf (spf ∷ other ∷ more) c = record c {
  status = fail;
  found = spf ∷ other ∷ more;
  message =
      codes
        "multiple v=spf1 records on the same name; receivers treat this as a permanent error (merge them into one)";
}

unfoldable pub check_spf : Resolver → Bytes → Result
unfolding grade_spf is_spf trim_space
check_spf r domain =
    let c : Result = record {
      name = codes "spf";
      label = codes "SPF";
      status = fail;
      message = [];
      found = [];
      expected = [];
    } in
    elim (r.lookup_txt domain) [
      | no_answer e ↦ record c {
        status = warn;
        message = codes "cannot query TXT for " ++ (domain ++ (codes ": " ++ e));
      }
      | answer recs ↦ grade_spf (map trim_space (filter is_spf recs)) c
    ]
