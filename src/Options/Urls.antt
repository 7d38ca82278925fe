-- ===== src/Options/Urls.antt =====
-- lib/cli/options.js, ensureInternalApiUrl, ensurePublicApiUrl and ensurePublicConfigs.
use js_code_runner.Common.{String, Bool, true, false, Option, none, some, if◌then◌else◌, ◌==◌, ◌||◌}
use Prim.Native.String
use Prim.Native.Char.{code}
use js_code_runner.Common.Results.{Result, ok, err, or_text}

-- The parts of an address.
pub record UrlOptions : Type 0 where
  pub url : Option String
  pub protocol : Option String
  pub host : Option String
  pub port : Option String
  pub uri : Option String

-- startsWith
unfoldable pub starts_with : String → String → Bool
starts_with text String.[] = true
starts_with String.[] (String.◌∷◌ d prefix) = false
starts_with (String.◌∷◌ c text) (String.◌∷◌ d prefix) =
    let later = starts_with text prefix in if code c == code d then later else false

abbrev pub has_protocol : String → Bool
has_protocol url = starts_with url "http:" || starts_with url "https:"

abbrev port_part : Option String → String
port_part none = ""
port_part (some port) = String.◌++◌ ":" port

abbrev pub host_url : UrlOptions → String → String
host_url o host =
    String.◌++◌ (or_text o.protocol "http")
      (String.◌++◌ "://" (String.◌++◌ host (port_part o.port)))

-- The address, from its parts if it is not given as one.
unfoldable pub base_url : String → UrlOptions → Result String
base_url message o = elim o.url [
  | some url ↦ ok url
  | none ↦ elim o.host [ none ↦ err message | some host ↦ ok (host_url o host) ]
]

abbrev pub with_protocol : String → String
with_protocol url = if has_protocol url then url else String.◌++◌ "http://" url

abbrev pub with_uri : Option String → String → String
with_uri none url = url
with_uri (some uri) url = String.◌++◌ url uri

-- ensureInternalApiUrl and ensurePublicApiUrl, which do the same with their options. The last check of
-- each is left out: an address is never empty there.
unfoldable pub ensure_url : String → UrlOptions → Result String
ensure_url message o = elim (base_url message o) [
  | err e ↦ err e
  | ok url ↦ ok (with_uri o.uri (with_protocol url))
]

abbrev pub ensure_internal_api_url : UrlOptions → Result String
ensure_internal_api_url =
    ensure_url "options.backendless.apiUrl or options.backendless.apiHost is not specified!"

abbrev pub ensure_public_api_url : UrlOptions → Result String
ensure_public_api_url =
    ensure_url
      "options.backendless.public.publicAPIUrl or options.backendless.publicHost is not specified!"

pub record PublicConfigs : Type 0 where
  pub file_download_url : String
  pub public_api_url : String
  pub internal_api_url : String

unfoldable pub ensure_public_configs : Option String → String → String → PublicConfigs
ensure_public_configs file_download_url public_url internal_url = record {
  file_download_url = or_text file_download_url public_url;
  public_api_url = public_url;
  internal_api_url = internal_url;
}
