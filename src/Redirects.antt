-- ===== src/Redirects.antt =====
-- src/ezauth/redirects.py: which redirect targets an application owns. `urlparse` of the standard
-- library is a parameter of the platform: it returns the scheme and the host name of a URL, or
-- raises ValueError.
pub mod Targets
use Prim.Native.Char.{Char, code}
use Prim.Native.String.{◌++◌ as ◌<>◌}
use text.Mathlib.Text.{starts_with}
use ezauth.Prelude.{
  ℕ, String, Bool, true, false, not, ◌&&◌, ◌||◌, Option, none, some, List, [], ◌∷◌, ◌==◌, string_eq,
  nat_eq, if◌then◌else◌, first,
}
use ezauth.Config.{Settings}
use ezauth.Platform.{Platform, ParsedUrl}
use ezauth.Models.{Application, Domain, truthy}
use ezauth.Outcome.{Result, ok, raised, value_error}

-- text.rstrip("/")
unfoldable pub rstrip_slash : String → String
rstrip_slash String.[] = ""
rstrip_slash (String.◌∷◌ c s) =
    let rest = rstrip_slash s in if rest == "" && code c == b'/' then "" else String.◌∷◌ c rest

unfoldable pub app_base_url : Settings → Application → String
unfolding truthy rstrip_slash
app_base_url cfg app = elim (truthy app.primary_domain) [
  | some d ↦ "https://" <> d
  | none ↦ rstrip_slash cfg.public_base_url
]

unfoldable pub is_relative_path : String → Bool
is_relative_path url = starts_with url "/" && not (starts_with url "//")

-- A verified row of the application for the host; `none` stands for a call with no database.
unfoldable pub has_verified_domain : Option (List Domain) → Application → String → Bool
unfolding first
has_verified_domain none app host = false
has_verified_domain (some domains) app host =
    elim (first (λ d. d.app_id == app.id && (d.domain == host && d.verified)) domains) [
      | none ↦ false
      | some _ ↦ true
    ]

unfoldable pub is_primary : Platform → Application → String → Bool
unfolding truthy
is_primary sys app host = elim (truthy app.primary_domain) [
  | none ↦ false
  | some d ↦ host == sys.lower d
]

-- The tests on the parsed URL: its scheme, its host, the primary domain, the verified domains.
unfoldable pub allowed_host : Platform → Option (List Domain) → Application → ParsedUrl → Bool
unfolding is_primary has_verified_domain truthy
allowed_host sys domains app parsed =
    if parsed.scheme == "http" || parsed.scheme == "https"
    then elim (truthy parsed.hostname) [
      | none ↦ false
      | some host ↦
          is_primary sys app (sys.lower host) || has_verified_domain domains app (sys.lower host)
    ]
    else false

unfoldable pub check_target : Platform → Option (List Domain) → Application → String → Result Bool
unfolding is_relative_path allowed_host
check_target sys domains app url =
    if is_relative_path url then ok true else elim (sys.urlparse url) [
      | none ↦ raised value_error
      | some parsed ↦ ok (allowed_host sys domains app parsed)
    ]

unfoldable pub is_allowed_redirect :
    Platform → Option (List Domain) → Application → Option String → Result Bool
unfolding check_target truthy
is_allowed_redirect sys domains app redirect_url = elim (truthy redirect_url) [
  | none ↦ ok false
  | some url ↦ check_target sys domains app url
]

unfoldable pub safe_redirect_url :
    Platform → Settings → Option (List Domain) → Application → Option String → Result String
unfolding is_allowed_redirect app_base_url
safe_redirect_url sys cfg domains app redirect_url =
    elim (is_allowed_redirect sys domains app redirect_url) [
      | raised e ↦ raised e
      | ok allowed ↦
          if allowed
          then ok (elim redirect_url [ none ↦ app_base_url cfg app | some url ↦ url ])
          else ok (app_base_url cfg app)
    ]
