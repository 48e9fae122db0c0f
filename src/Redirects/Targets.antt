-- ===== src/Redirects/Targets.antt =====
-- What `is_allowed_redirect` and `safe_redirect_url` of src/ezauth/redirects.py let through.
use Prim.Native.Char.{code}
use text.Mathlib.TextBridge.{IsPrefix}
use text.Mathlib.TextEquality.{starts_with_iff}
use ezauth.Prelude.{
  not, String, Bool, true, false, ◌&&◌, ◌||◌, Option, none, some, List, ◌≡◌, ◌==◌, string_eq,
  nat_eq, ◌⊎◌, inl, inr, arith, first, subst, first_holds, Option-cases, Bool-cases,
}
use ezauth.Config.{Settings}
use ezauth.Platform.{Platform, ParsedUrl}
use ezauth.Models.{Application, Domain, truthy}
use ezauth.Outcome.{ok, Result-cases}
use ezauth.Redirects.{
  app_base_url, is_relative_path, has_verified_domain, is_primary, allowed_host, check_target,
  is_allowed_redirect, safe_redirect_url,
}

-- The application owns the host: it is its primary domain up to case, or the name of a verified
-- domain row of this application.
pub data Owns (sys : Platform) (domains : List Domain) (app : Application) (host : String)
    : Type 0 where
  primary :
      (d : String) → app.primary_domain ≡ some d → host ≡ sys.lower d → Owns sys domains app host
  verified_domain :
      (d : Domain)
      → d.app_id ≡ app.id
      → d.domain ≡ host
      → d.verified ≡ true
      → Owns sys domains app host

-- Without a backslash, a tab, a line feed and a carriage return.
abbrev pub plain : String → Bool
plain String.[] = true
plain (String.◌∷◌ c s) =
    not (code c == 92)
    && (not (code c == 9) && (not (code c == 10) && not (code c == 13)))
    && plain s

-- A text that begins with one slash and not with two.
abbrev pub SingleSlash : String → Type 0
SingleSlash url = IsPrefix "/" url × ¬ IsPrefix "//" url

-- Where an accepted target may lead: to a path of the same site, which begins with one slash; to a
-- text that begins with one slash but holds a character that browsers turn into a slash or drop,
-- and so may lead anywhere; or to an http or https URL on a host that the application owns.
pub data Target (sys : Platform) (domains : List Domain) (app : Application) (url : String)
    : Type 0 where
  same_site : SingleSlash url → plain url ≡ true → Target sys domains app url
  disguised : SingleSlash url → plain url ≡ false → Target sys domains app url
  absolute :
      (parsed : ParsedUrl) (host : String)
      → sys.urlparse url ≡ some parsed
      → (parsed.scheme ≡ "http") ⊎ (parsed.scheme ≡ "https")
      → parsed.hostname ≡ some host
      → Owns sys domains app (sys.lower host)
      → Target sys domains app url

module _ (sys : Platform) (domains : List Domain) (app : Application) where
  abbrev row_for : String → Domain → Bool
  row_for host d = d.app_id == app.id && (d.domain == host && d.verified)

  primary-Owns : (host : String) → is_primary sys app host ≡ true → Owns sys domains app host
  unfolding is_primary truthy
  primary-Owns host h = elim (Option-cases app.primary_domain) [
    | inl e ↦ absurd (ground arith)
    | inr (d, e) ↦ Owns.primary d e (ground arith)
  ]

  verified-Owns :
      (host : String)
      → has_verified_domain (some domains) app host ≡ true
      → Owns sys domains app host
  unfolding has_verified_domain
  verified-Owns host h = elim (Option-cases (first (row_for host) domains)) [
    | inl e ↦ absurd (ground arith)
    | inr (d, e) ↦
        let holds = first_holds (row_for host) domains d e in
        Owns.verified_domain d (ground arith) (ground arith) (ground arith)
  ]

  owned :
      (host : String)
      → (is_primary sys app host || has_verified_domain (some domains) app host) ≡ true
      → Owns sys domains app host
  owned host h = elim (Bool-cases (is_primary sys app host)) [
    | inl yes_primary ↦ primary-Owns host yes_primary
    | inr not_primary ↦ verified-Owns host (ground arith)
  ]

  is_relative_path-SingleSlash : (url : String) → is_relative_path url ≡ true → SingleSlash url
  unfolding is_relative_path
  is_relative_path-SingleSlash url h = (
    (starts_with_iff url "/").0 (ground arith),
    λ two. absurd (ground (arith, (starts_with_iff url "//").1 two)),
  )

  relative-Target : (url : String) → is_relative_path url ≡ true → Target sys domains app url
  relative-Target url h = elim (Bool-cases (plain url)) [
    | inl none_special ↦ Target.same_site (is_relative_path-SingleSlash url h) none_special
    | inr special ↦ Target.disguised (is_relative_path-SingleSlash url h) special
  ]

  absolute-Target :
      (url : String) (parsed : ParsedUrl)
      → sys.urlparse url ≡ some parsed
      → allowed_host sys (some domains) app parsed ≡ true
      → Target sys domains app url
  unfolding allowed_host truthy
  absolute-Target url parsed e h = elim (Option-cases parsed.hostname) [
    | inl no_host ↦ absurd (ground arith)
    | inr (host, at) ↦
        Target.absolute parsed host e (ground arith) at (owned (sys.lower host) (ground arith))
  ]

  -- Whatever `is_allowed_redirect` lets through is an http or https URL whose host, as `urlparse`
  -- reads it, is the application's primary domain or a domain that is verified for it, or is a text
  -- that begins with one slash and not with two. The latter is a path of the same site only where
  -- it holds no backslash, tab, line feed or carriage return: a text like "/\evil.example", which
  -- browsers take for "//evil.example", is let through.
  pub is_allowed_redirect-Target :
      (url : String)
      → is_allowed_redirect sys (some domains) app (some url) ≡ ok true
      → Target sys domains app url
  unfolding is_allowed_redirect check_target truthy
  is_allowed_redirect-Target url h = elim (Bool-cases (is_relative_path url)) [
    | inl relative ↦ relative-Target url relative
    | inr other ↦ elim (Option-cases (sys.urlparse url)) [
      | inl e ↦ absurd (ground arith)
      | inr (parsed, e) ↦ absolute-Target url parsed e (ground arith)
    ]
  ]

  -- Where `safe_redirect_url` returns, its result is the application's own origin or a target that
  -- `is_allowed_redirect` may let through, whatever was asked for.
  pub safe_redirect_url-Target :
      (cfg : Settings) (asked : Option String) (target : String)
      → safe_redirect_url sys cfg (some domains) app asked ≡ ok target
      → (target ≡ app_base_url cfg app) ⊎ Target sys domains app target
  unfolding safe_redirect_url
  safe_redirect_url-Target cfg none target h =
      inl (unfold is_allowed_redirect truthy in ground arith)
  safe_redirect_url-Target cfg (some url) target h =
      elim (Result-cases (is_allowed_redirect sys (some domains) app (some url))) [
        | inl (e, bad) ↦ absurd (ground arith)
        | inr (false, refused) ↦ inl (ground arith)
        | inr (true, allowed) ↦
            inr (
              subst (Target sys domains app) (ground arith)
                (is_allowed_redirect-Target url allowed))
      ]
