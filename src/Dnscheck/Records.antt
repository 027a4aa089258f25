-- ===== src/Dnscheck/Records.antt =====
-- internal/dnscheck/dnscheck.go: the tags of a record and the comparison of the keys.
use carteiro.Common.{
  Bool, Bytes, List, [], codes, filter, if◌then◌else◌, none, not, some, str_eq, ℕ, ◌++◌, ◌==◌, ◌||◌,
  ◌∷◌,
}
use carteiro.Text.{has_prefix, trim_space, to_lower, to_upper, contains, split, cut, trim_suffix}
use carteiro.Dnscheck.Types.{answer, no_answer, Result, Grade, pass, warn, Lookup}

-- The value of a `k=v` tag; the empty text without it.
tag_in : List Bytes → Bytes → Bytes
unfolding cut trim_space to_lower str_eq
tag_in [] key = []
tag_in (part ∷ parts) key = elim (cut part b'=') [
  | none ↦ tag_in parts key
  | some (k, v) ↦
      if str_eq (to_lower (trim_space k)) (to_lower key) then trim_space v else tag_in parts key
]

unfoldable pub tag_value : Bytes → Bytes → Bytes
unfolding tag_in split
tag_value rec_ key = tag_in (split rec_ b';') key

abbrev is_blank : ℕ → Bool
is_blank c = c == b' ' || c == b'\t' || c == b'\n' || c == b'\r'

unfoldable pub normalize_b64 : Bytes → Bytes
normalize_b64 s = filter (λ c. not (is_blank c)) s

unfoldable pub normalize_domain : Bytes → Bytes
unfolding to_lower trim_suffix trim_space
normalize_domain d = to_lower (trim_suffix (trim_space d) (codes "."))

abbrev pub start : Bytes → Bytes → Grade → Result
start name label status = record {
  name = name;
  label = label;
  status = status;
  message = [];
  found = [];
  expected = [];
}

unfoldable pub is_dkim : Bytes → Bool
unfolding has_prefix to_upper trim_space contains
is_dkim rec_ =
    has_prefix (to_upper (trim_space rec_)) (codes "V=DKIM1") || contains rec_ (codes "p=")

unfoldable pub is_dmarc : Bytes → Bool
unfolding has_prefix to_upper trim_space
is_dmarc rec_ = has_prefix (to_upper (trim_space rec_)) (codes "V=DMARC1")

-- The first record that passes the test, trimmed; the empty text if there is none.
unfoldable pub first_such : (Bytes → Bool) → List Bytes → Bytes
unfolding trim_space
first_such p [] = []
first_such p (r ∷ recs) = if p r then trim_space r else first_such p recs

abbrev no_dkim : Bytes → Result → Result
no_dkim name c = record c {
  message = codes "no DKIM record at " ++ (name ++ codes "; publish the record below");
}

-- `found` is a DKIM record of the DNS, and `expected` the record of the stored key.
unfoldable pub compare_keys : Bytes → Bytes → Result → Result
unfolding tag_value normalize_b64 str_eq
compare_keys found expected c =
    if str_eq expected []
    then record c {
      status = warn;
      message =
          codes
            "DKIM record found, but there is no private key stored in Carteiro to compare it with";
    }
    else if str_eq (tag_value found (codes "p")) []
    then record c { message = codes "the DKIM record has an empty p= (the key is revoked)" }
    else if not (
        str_eq (normalize_b64 (tag_value found (codes "p")))
          (normalize_b64 (tag_value expected (codes "p"))))
    then record c {
      message =
          codes
            "the p= published in DNS does not match the private key stored in Carteiro; re-publish the record below";
    }
    else record c {
      status = pass;
      message = codes "the DKIM record matches the private key stored in Carteiro";
    }

-- The check against what the look-up of the name gives.
unfoldable pub published_in : Bytes → Bytes → Lookup Bytes → Result → Result
unfolding first_such is_dkim compare_keys str_eq
published_in name expected (no_answer e) c = no_dkim name c
published_in name expected (answer recs) c =
    let found = first_such is_dkim recs in
    if str_eq found []
    then no_dkim name c
    else compare_keys found expected (record c { found = found ∷ [] })
