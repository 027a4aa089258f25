-- ===== src/Dnscheck.antt =====
-- internal/dnscheck/dnscheck.go: the diagnostics of a sending domain. The resolver is `Resolver`, and
-- the keys are read by `derive`, which stands for `dkim.ParseSigner` and `dkim.PublicRecord`.
pub mod Types
pub mod Spf
pub mod Records
pub mod Verdicts
use carteiro.Common.{
  Bytes, List, [], any, codes, count, if◌then◌else◌, length, map, str_eq, ℕ, ◌++◌, ◌==◌, ◌∷◌,
}
use carteiro.Text.{trim_space, to_lower, trim_suffix, itoa}
use carteiro.Dnscheck.Types.{
  Resolver, answer, no_answer, Result, Report, Request, Grade, pass, warn, fail, info, Key, derived,
  bad_key, no_public, Mx, same_grade,
}
use carteiro.Dnscheck.Spf.{check_spf}
use carteiro.Dnscheck.Records.{
  tag_value, normalize_domain, start, is_dmarc, first_such, published_in,
}

module _ (derive : Bytes → Key) (r : Resolver) where
  open r use {lookup_txt, lookup_mx, lookup_host, lookup_addr}

  published_dkim : Bytes → Bytes → Result → Result
  unfolding published_in
  published_dkim name expected c = published_in name expected (lookup_txt name) c

  with_key : Bytes → Key → Result → Result
  unfolding published_dkim
  with_key name (bad_key e) c = record c {
    status = warn;
    message = codes "the DKIM private key stored in Carteiro is invalid: " ++ e;
  }
  with_key name (no_public e) c = record c {
    status = warn;
    message = codes "cannot derive the public key: " ++ e;
  }
  with_key name (derived rec_) c = published_dkim name rec_ (record c { expected = rec_ })

  unfoldable pub check_dkim : Bytes → Bytes → Bytes → Result
  unfolding with_key published_dkim trim_space str_eq
  check_dkim domain selector key_pem =
      let c = start (codes "dkim") (codes "DKIM") fail in
      let name = selector ++ (codes "._domainkey." ++ domain) in
      if str_eq selector []
      then record c {
        status = info;
        message = codes "no selector for this domain; add a DKIM key so outbound mail is signed";
      }
      else if str_eq (trim_space key_pem) []
      then published_dkim name [] c
      else with_key name (derive key_pem) c

  no_dmarc : Bytes → Bytes → Result → Result
  no_dmarc name domain c = record c {
    message =
        codes "no DMARC record at "
        ++ (name ++ codes "; publish one so receivers know how to treat failures");
    expected = codes "v=DMARC1; p=none; rua=mailto:postmaster@" ++ domain;
  }

  grade_dmarc : Bytes → Result → Result
  unfolding str_eq
  grade_dmarc policy c =
      if str_eq policy (codes "reject")
      then record c { status = pass; message = codes "DMARC policy is p=reject (full enforcement)" }
      else if str_eq policy (codes "quarantine")
      then record c {
        status = pass;
        message = codes "DMARC policy is p=quarantine (failing mail goes to spam)";
      }
      else record c {
        status = warn;
        message =
            codes
              "DMARC policy is none/missing (monitoring only); move to quarantine or reject once reports look clean";
      }

  unfoldable pub check_dmarc : Bytes → Result
  unfolding no_dmarc grade_dmarc first_such is_dmarc tag_value to_lower str_eq
  check_dmarc domain =
      let c = start (codes "dmarc") (codes "DMARC") fail in
      let name = codes "_dmarc." ++ domain in
      elim (lookup_txt name) [
        | no_answer e ↦ no_dmarc name domain c
        | answer recs ↦
            let found = first_such is_dmarc recs in
            if str_eq found []
            then no_dmarc name domain c
            else grade_dmarc (to_lower (tag_value found (codes "p")))
                (record c { found = found ∷ [] })
      ]

  abbrev mx_text : Mx → Bytes
  mx_text mx = itoa mx.pref ++ (codes " " ++ trim_suffix mx.host (codes "."))

  abbrev no_mx : Result → Result
  no_mx c = record c {
    message =
        codes
          "no MX records for the sending domain; mail still sends, but bounces and DMARC reports cannot be delivered";
  }

  unfoldable pub check_mx : Bytes → Result
  unfolding itoa trim_suffix
  check_mx domain =
      let c = start (codes "mx") (codes "MX (bounces)") warn in
      elim (lookup_mx domain) [
        | no_answer e ↦ no_mx c
        | answer mxs ↦ if length mxs == 0 then no_mx c else record c {
          status = pass;
          message =
              itoa (length mxs)
              ++ codes " MX record(s); bounces and DMARC reports can be delivered";
          found = map mx_text mxs;
        }
      ]

  -- The names that the addresses point back to; an address without an answer is passed over.
  unfoldable pub reverse_names : List Bytes → List Bytes
  unfolding trim_suffix
  reverse_names [] = []
  reverse_names (ip ∷ ips) =
      (elim (lookup_addr ip) as (λ _. List Bytes) [
        | no_answer e ↦ []
        | answer names ↦ map (λ n. trim_suffix n (codes ".")) names
      ])
      ++ reverse_names ips

  grade_reverse : Bytes → Bytes → List Bytes → Result → Result
  unfolding to_lower str_eq
  grade_reverse hostname ip names c =
      if length names == 0
      then record c {
        status = warn;
        message =
            codes "no PTR record for "
            ++ (ip ++ (codes "; set reverse DNS to " ++ (hostname ++ codes " at the IP provider")));
      }
      else if any (λ n. str_eq (to_lower n) (to_lower hostname)) names
      then record c {
        status = pass;
        message = codes "PTR matches the configured hostname (forward-confirmed reverse DNS)";
      }
      else record c {
        status = warn;
        message =
            codes "the PTR does not point back to "
            ++ (hostname ++ codes "; receivers treat this as a spam signal");
      }

  reverse_of : Bytes → List Bytes → Result → Result
  unfolding grade_reverse reverse_names
  reverse_of hostname [] c = record c {
    status = warn;
    message = codes "cannot resolve the configured hostname " ++ hostname;
  }
  reverse_of hostname (ip ∷ ips) c =
      let names = reverse_names (ip ∷ ips) in
      grade_reverse hostname ip names (record c { found = names })

  unfoldable pub check_reverse : Bytes → Result
  unfolding reverse_of str_eq
  check_reverse hostname =
      let c = start (codes "ptr") (codes "Reverse DNS (PTR)") info in
      if str_eq hostname []
      then record c {
        message = codes "hostname is not configured; set 'hostname' to enable the PTR check";
      }
      else reverse_of hostname
          (elim (lookup_host hostname) as (λ _. List Bytes) [ no_answer e ↦ [] | answer ips ↦ ips ])
          (record c { expected = hostname })

  abbrev pub tally : Grade → List Result → ℕ
  tally g checks = count (λ (c : Result). same_grade g c.status) checks

  unfoldable pub check : Request → Report
  unfolding check_spf check_dkim check_dmarc check_mx check_reverse normalize_domain trim_space
  check req =
      let domain = normalize_domain req.domain in
      let selector = trim_space req.selector in
      let hostname = trim_space req.hostname in
      let checks =
        check_spf r domain
        ∷ check_dkim domain selector req.private_key_pem
        ∷ check_dmarc domain
        ∷ check_mx domain
        ∷ check_reverse hostname
        ∷ [] in
      record {
        domain = domain;
        selector = selector;
        hostname = hostname;
        passed = tally pass checks;
        warnings = tally warn checks;
        failures = tally fail checks;
        all_good = tally fail checks == 0;
        checks = checks;
      }
