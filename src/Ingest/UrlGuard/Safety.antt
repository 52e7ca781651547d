-- ===== src/Ingest/UrlGuard/Safety.antt =====
-- What the guard of app/ingest/urlguard.py lets through.
use sre_tab.Common.{
  ltb, length, All, Text, codes, lower, is_nil, text_eq, nat_eq, eq_of_true, ℕ, ◌≡◌, refl, ap, ◌∙◌,
  ◌≢◌, Bool, true, false, not, Option, none, some, List, [], ◌∷◌, arith,
}
use sre_tab.Ingest.Outcomes.{
  unsafe_target, returned, Returns, by_value, by_error, Returns-value, Returns-bind,
  Returns-or_raise, Returns-refuse_if,
}
use sre_tab.Ingest.Addresses.{
  IpAddress, Predicates, is_blocked, classify_plain, classify_address, ipv4_mapped, classify_mapped,
  or_blocked, embedded_addresses, or_first, first_reason, refused_address,
}
use sre_tab.Ingest.UrlGuard.{
  Url, Libraries, is_untidy, is_unlisted, is_other_port, with_host, check_parsed, ascii_host,
  assert_supported_endpoint, raise_reason, assert_address_allowed, literal_address, checked_host,
  check_static, ValidatedTarget, Lookup, resolve_within, check_answers, port_of, pin,
  resolve_target, validate,
}

-- An address that no blocked network contains, nor any that it tunnels to.
pub record IsPublic (ip : IpAddress) : Type 0 where
  pub outer : is_blocked ip ≡ false
  pub inner : All (λ tunnelled. is_blocked tunnelled ≡ false) (embedded_addresses ip)

classify_plain-none :
    (p : Predicates) (ip : IpAddress) → classify_plain p ip ≡ none → is_blocked ip ≡ false
unfolding classify_plain
classify_plain-none p ip h = ground arith

classify_address-none :
    (p : Predicates) (ip : IpAddress) → classify_address p ip ≡ none → is_blocked ip ≡ false
unfolding classify_address
classify_address-none p ip h = unwrapped (ipv4_mapped ip) h
  where
    unwrapped :
        (mapped : Option IpAddress) → classify_mapped p ip mapped ≡ none → is_blocked ip ≡ false
    unwrapped none e = classify_plain-none p ip (unfold classify_mapped in e)
    unwrapped (some other) e =
        absurd (some_reason (classify_plain p other) (unfold classify_mapped in e))
      where
        some_reason : (reason : Option Text) → or_blocked reason ≢ none
        some_reason none g = unfold or_blocked in absurd (ground (arith, g))
        some_reason (some r) g = unfold or_blocked in absurd (ground (arith, g))

or_first-none : (a b : Option Text) → or_first a b ≡ none → (a ≡ none) × (b ≡ none)
unfolding or_first
or_first-none none b h = (refl, h)
or_first-none (some reason) b h = absurd (ground (arith, h))

first_reason-none :
    (p : Predicates) (ips : List IpAddress)
    → first_reason p ips ≡ none
    → All (λ ip. is_blocked ip ≡ false) ips
unfolding first_reason
first_reason-none p [] h = tt
first_reason-none p (ip ∷ ips) h =
    let (here, later) = or_first-none (classify_address p ip) (first_reason p ips) h in
    (classify_address-none p ip here, first_reason-none p ips later)

refused_address-none : (p : Predicates) (ip : IpAddress) → refused_address p ip ≡ none → IsPublic ip
unfolding refused_address
refused_address-none p ip h =
    let (outside, inside) =
      or_first-none (classify_address p ip) (first_reason p (embedded_addresses ip)) h in
    record {
      outer = classify_address-none p ip outside;
      inner = first_reason-none p (embedded_addresses ip) inside;
    }

allowed-IsPublic :
    (lib : Libraries) (ip : IpAddress) {u : Unit {0}}
    → assert_address_allowed lib ip ≡ returned u
    → IsPublic ip
unfolding assert_address_allowed
allowed-IsPublic lib ip h = none_raised (refused_address lib.predicates ip) refl h
  where
    none_raised :
        (reason : Option Text)
        → refused_address lib.predicates ip ≡ reason
        → raise_reason reason ≡ returned tt
        → IsPublic ip
    none_raised none e g = refused_address-none lib.predicates ip e
    none_raised (some reason) e g = unfold raise_reason in absurd (ground (arith, g))

check_answers-All :
    (lib : Libraries) (answers : List Text) → Returns (All IsPublic) (check_answers lib answers)
unfolding check_answers
check_answers-All lib [] = by_value tt
check_answers-All lib (answer ∷ answers) = one (check_answers-All lib answers)
  where
    one :
        Returns (All IsPublic) (check_answers lib answers)
        → Returns (All IsPublic) (check_answers lib (answer ∷ answers))
    one ih = Returns-or_raise (All IsPublic) _ (lib.ip_address answer) _ λ ip g.
        Returns-bind (All IsPublic) (assert_address_allowed lib ip) _ λ u e.
          Returns-bind (All IsPublic) (check_answers lib answers) _
            λ ips f. by_value (allowed-IsPublic lib ip e, Returns-value (All IsPublic) ips _ ih f)

-- What the library documents of `copy_with(host=…, port=None)`.
pub record CopyLaw (lib : Libraries) : Type 0 where
  pub no_port :
      {url copy : Url} {host : Text} → lib.copy_with_host url host ≡ some copy → copy.port ≡ none
  pub same_scheme :
      {url copy : Url} {host : Text}
      → lib.copy_with_host url host ≡ some copy
      → copy.scheme ≡ url.scheme
  pub same_userinfo :
      {url copy : Url} {host : Text}
      → lib.copy_with_host url host ≡ some copy
      → copy.userinfo ≡ url.userinfo

-- A URL that may be requested: https, without credentials, on the standard port.
pub record IsPlain (url : Url) : Type 0 where
  pub https : lower url.scheme ≡ codes "https"
  pub no_credentials : is_nil url.userinfo ≡ true
  pub no_port : url.port ≡ none

true_of_not : (b : Bool) → not b ≡ false → b ≡ true
true_of_not b h = ground arith

with_host-IsPlain :
    (lib : Libraries) (url : Url) (host : Text)
    → CopyLaw lib
    → lower url.scheme ≡ codes "https"
    → is_nil url.userinfo ≡ true
    → Returns IsPlain (with_host lib url host)
unfolding with_host
with_host-IsPlain lib url host law https plain =
    Returns-or_raise IsPlain _ (lib.copy_with_host url host) _ λ copy copied.
      Returns-bind IsPlain (assert_supported_endpoint copy) _ λ u _. by_value (record {
        https = ap lower (law.same_scheme copied) ∙ https;
        no_credentials = ap is_nil (law.same_userinfo copied) ∙ plain;
        no_port = law.no_port copied;
      })

check_parsed-IsPlain :
    (lib : Libraries) (url : Url) → CopyLaw lib → Returns IsPlain (check_parsed lib url)
unfolding check_parsed
check_parsed-IsPlain lib url law = Returns-refuse_if IsPlain _ _ _ λ scheme.
    Returns-refuse_if IsPlain _ _ _ λ user.
      Returns-refuse_if IsPlain (is_other_port url.port) _ _ λ port.
        Returns-bind IsPlain
          (checked_host lib (ascii_host url) (literal_address lib (ascii_host url))) _
          λ host named.
            with_host-IsPlain lib url host law
              (eq_of_true {K = Text} (lower url.scheme) (codes "https") (true_of_not _ scheme))
              (true_of_not _ user)

check_static-IsPlain :
    (lib : Libraries) (raw_url : Text) → CopyLaw lib → Returns IsPlain (check_static lib raw_url)
unfolding check_static
check_static-IsPlain lib raw_url law =
    Returns-refuse_if IsPlain (ltb 2048 (length raw_url)) _ _ λ _.
      Returns-refuse_if IsPlain (is_untidy raw_url) _ _ λ _.
        Returns-or_raise IsPlain (unsafe_target (codes "url")) (lib.parse_url raw_url) _
          λ url _. check_parsed-IsPlain lib url law

-- A target that may be connected to: at one of the resolved addresses, which are all public, on
-- port 443, for a plain URL.
pub record IsSafe (target : ValidatedTarget) : Type 0 where
  pub url_plain : IsPlain target.url
  pub port_443 : target.port ≡ 443
  pub address_public : IsPublic target.ip
  pub answers_public : All IsPublic target.resolved
  pub name_of_url : target.host ≡ ascii_host target.url

pin-IsSafe :
    (url : Url) (ips : List IpAddress)
    → IsPlain url
    → All IsPublic ips
    → Returns IsSafe (pin url ips)
unfolding pin
pin-IsSafe url [] plain h = by_error
pin-IsSafe url (ip ∷ ips) plain h = by_value (record {
  url_plain = plain;
  port_443 = unfold port_of in rw (plain.no_port) refl;
  address_public = h.0;
  answers_public = h;
  name_of_url = refl;
})

resolve_target-IsSafe :
    (lib : Libraries) (left : Option ℕ) (lookup : Text → Lookup) (url : Url)
    (literal : Option IpAddress)
    → IsPlain url
    → Returns IsSafe (resolve_target lib left lookup url literal)
unfolding resolve_target
resolve_target-IsSafe lib left lookup url (some literal) plain =
    Returns-bind IsSafe (assert_address_allowed lib literal) _
      λ u allowed. pin-IsSafe url (literal ∷ []) plain (allowed-IsPublic lib literal allowed, tt)
resolve_target-IsSafe lib left lookup url none plain =
    Returns-bind IsSafe (resolve_within left (lookup (ascii_host url))) _ λ answers _.
      Returns-bind IsSafe (check_answers lib answers) _ λ ips checked.
        pin-IsSafe url ips plain
          (Returns-value (All IsPublic) ips _ (check_answers-All lib answers) checked)

-- Whatever the URL says and whatever the resolver answers, a target that the guard returns is safe:
-- its URL is https without credentials, the port is 443, and the address to connect to, like every
-- other answer, is in no blocked network and tunnels to none.
pub validate-IsSafe :
    (lib : Libraries) (allowed_urls : Option (List Text)) (left : Option ℕ) (lookup : Text → Lookup)
    (raw_url : Text)
    → CopyLaw lib
    → Returns IsSafe (validate lib allowed_urls left lookup raw_url)
unfolding validate
validate-IsSafe lib allowed_urls left lookup raw_url law =
    Returns-refuse_if IsSafe (is_unlisted allowed_urls raw_url) _ _ λ _.
      Returns-bind IsSafe (check_static lib raw_url) _ λ url checked.
        resolve_target-IsSafe lib left lookup url (literal_address lib (ascii_host url))
          (Returns-value IsPlain url _ (check_static-IsPlain lib raw_url law) checked)
