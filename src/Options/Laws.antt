-- ===== src/Options/Laws.antt =====
-- What the address of the API looks like, however it is given.
use js_code_runner.Common.{◌≡◌, refl, String, true, Option, none, some, arith}
use js_code_runner.Common.Results.{Result, ok, err}
use Prim.Native.String
use Prim.Native.String.append.{nil, cons}
use js_code_runner.Options.Urls.{
  UrlOptions, starts_with, has_protocol, host_url, base_url, with_protocol, with_uri, ensure_url,
}

starts_with-append :
    (text more prefix : String)
    → starts_with text prefix ≡ true
    → starts_with (String.◌++◌ text more) prefix ≡ true
unfolding starts_with
starts_with-append text more String.[] h = refl
starts_with-append String.[] more (String.◌∷◌ d prefix) h = cc
starts_with-append (String.◌∷◌ c text) more (String.◌∷◌ d prefix) h =
    rw (cons c text more, starts_with) (ground (arith, h, starts_with-append text more prefix))

protocol_added : (url : String) → has_protocol (with_protocol url) ≡ true
unfolding starts_with
protocol_added url = ground (arith, starts_with-append "http://" url "http:" refl)

uri_added :
    (uri : Option String) (url : String)
    → has_protocol url ≡ true
    → has_protocol (with_uri uri url) ≡ true
uri_added none url h = h
uri_added (some uri) url h =
    ground (arith, h, starts_with-append url uri "http:", starts_with-append url uri "https:")

-- An answer for the address of the API: refused for want of an address, or one that names its protocol.
abbrev pub Addressed : String → UrlOptions → Result String → Type 0
Addressed message o (err e) = (e ≡ message) × (o.url ≡ none) × (o.host ≡ none)
Addressed message o (ok url) = (has_protocol url ≡ true) × ¬ ((o.url ≡ none) × (o.host ≡ none))

base_url-Addressed :
    (message : String) (o : UrlOptions) (u h : Option String)
    → o.url ≡ u
    → o.host ≡ h
    → Addressed message o (ensure_url message o)
unfolding ensure_url base_url
base_url-Addressed message o (some url) h e f =
    rw (e, ensure_url, base_url) (uri_added o.uri _ (protocol_added url), λ absent. cc)
base_url-Addressed message o none (some host) e f =
    rw (e, f, ensure_url, base_url)
      (uri_added o.uri _ (protocol_added (host_url o host)), λ absent. cc)
base_url-Addressed message o none none e f = rw (e, f, ensure_url, base_url) (refl, refl, refl)

-- The address of the API is refused only if neither it nor its host is given, and then always;
-- otherwise it starts with `http:` or `https:`, whatever protocol, port and path are given.
pub ensure_url-Addressed :
    (message : String) (o : UrlOptions) → Addressed message o (ensure_url message o)
ensure_url-Addressed message o = base_url-Addressed message o o.url o.host refl refl
