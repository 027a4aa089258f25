-- ===== src/Tests/Dns.antt =====
-- The theorems on internal/dnscheck for a domain that publishes its key and its SPF record.
use carteiro.Text.{fields}
use carteiro.Common.{Bytes, [], codes, if◌then◌else◌, refl, str_eq, ◌↔◌, ◌∷◌, ◌≡◌}
use carteiro.Dnscheck.Types.{Resolver, Key, derived, answer, no_answer, pass}
use carteiro.Dnscheck.{check_dkim}
use carteiro.Dnscheck.Verdicts.{Publishes, check_dkim-Publishes}
use carteiro.Dnscheck.Spf.{check_spf}
use carteiro.Dnscheck.Spf.Verdict.{Authorises, check_spf-passes}

abbrev published : Bytes
published = codes "v=DKIM1; k=rsa; p=AB CD"

abbrev resolver : Resolver
resolver = record {
  lookup_txt = λ name.
      if str_eq name (codes "mail._domainkey.x") then answer (published ∷ []) else answer [];
  lookup_mx = λ name. answer [];
  lookup_host = λ name. no_answer (codes "none");
  lookup_addr = λ name. no_answer (codes "none");
}

abbrev derive : Bytes → Key
derive pem = derived (codes "v=DKIM1; k=rsa; p=ABCD")

key_matches : (check_dkim derive resolver (codes "x") (codes "mail") (codes "PEM")).status ≡ pass
unfolding check_dkim str_eq
key_matches = refl

check_dkim-Publishes_example :
    (rec_ : Bytes) × (derive (codes "PEM") ≡ derived rec_)
    × Publishes resolver (codes "mail._domainkey.x") rec_
check_dkim-Publishes_example =
    check_dkim-Publishes derive resolver (codes "x") (codes "mail") (codes "PEM") key_matches

abbrev sends_spf : Resolver
sends_spf = record resolver {
  lookup_txt = λ name. answer (published ∷ codes " V=SPF1 ip4:1.2.3.4 include:y.z -ALL" ∷ []);
}

spf_passes : (check_spf sends_spf (codes "x")).status ≡ pass
unfolding check_spf str_eq fields
spf_passes = refl

check_spf-passes_example :
    ((check_spf sends_spf (codes "x")).status ≡ pass) ↔ Authorises sends_spf (codes "x")
check_spf-passes_example = check_spf-passes sends_spf (codes "x")

-- Twelve terms `mx/N`, for each of which RFC 7208 asks for a look-up, are not counted.
abbrev uncounted : Bytes
uncounted = codes "v=spf1 mx/1 mx/2 mx/3 mx/4 mx/5 mx/6 mx/7 mx/8 mx/9 mx/10 mx/11 mx/12 -all"

uncounted_passes :
    (check_spf
      (record resolver { lookup_txt = λ name. answer (uncounted ∷ []) })
      (codes "x")).status
    ≡ pass
unfolding check_spf str_eq fields
uncounted_passes = refl
