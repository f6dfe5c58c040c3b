-- ===== src/Client/Resolver.antt =====
-- The regular expression that parseDNSResolver of app/client/config.go matches a text with: a
-- protocol, "://", a host, ":" and a port that may be missing. The text has no line breaks.
use ecs_gatus_app.Base.{
  ℕ, Bool, true, false, ◌&&◌, ◌||◌, Option, none, some, [], ◌∷◌, drop, leb, ◌==◌, if◌then◌else◌,
}
use ecs_gatus_app.Base.Text.{Text, codes, has_prefix, is_digit, is_empty}

pub record DnsResolverConfig : Type 0 where
  pub protocol : Text
  pub host : Text
  pub port : Text

-- [A-Za-z0-9\-\.]
abbrev pub is_host_char : ℕ → Bool
is_host_char c =
    (leb b'A' c && leb c b'Z') || (leb b'a' c && leb c b'z') || is_digit c || c == b'-' || c == b'.'

-- The longest part of a text at its front whose characters pass the test, and the rest.
unfoldable pub span : (ℕ → Bool) → Text → Text × Text
span p [] = ([], [])
span p (c ∷ s) = let (front, rest) = span p s in if p c then (c ∷ front, rest) else ([], c ∷ s)

-- Behind the host: a colon, and the digits after it.
after_host : Text → Text → Option DnsResolverConfig
unfolding span
after_host host [] = none
after_host host (c ∷ s) =
    if c == b':' && (if is_empty host then false else true)
    then some (record { protocol = []; host = host; port = (span is_digit s).0 })
    else none

after_protocol : Text → Option DnsResolverConfig
unfolding span after_host
after_protocol s = let (host, rest) = span is_host_char s in after_host host rest

-- The match that begins here, if "://" is here.
here : Text → Option DnsResolverConfig
unfolding after_protocol has_prefix
here s = if has_prefix s (codes "://") then after_protocol (drop 3 s) else none

-- The protocol is as long as it can be, so a later match counts first.
add_to_protocol : ℕ → Option DnsResolverConfig → Option DnsResolverConfig → Option DnsResolverConfig
add_to_protocol c (some r) match_here = some (record r { protocol = c ∷ r.protocol })
add_to_protocol c none match_here = match_here

unfoldable pub find_resolver : Text → Option DnsResolverConfig
unfolding here add_to_protocol
find_resolver [] = none
find_resolver (c ∷ s) = add_to_protocol c (find_resolver s) (here (c ∷ s))
