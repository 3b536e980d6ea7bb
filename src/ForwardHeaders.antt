-- ===== src/ForwardHeaders.antt =====
-- internal/tunnelhttp/headers.go: the headers that are forwarded through the tunnel.
pub mod Nominated
pub mod Laws
use mockingo_agent.Base.{
  Bool, Option, none, some, List, [], ◌∷◌, ◌++◌, map, Bytes, codes, split, trim_space, to_lower,
  if◌then◌else◌,
}
use mockingo_agent.Base.Maps.{lookup}
use mockingo_agent.Protocol.Message.{HeaderMap}
use mockingo_agent.Capture.Headers.{one_of, present}
use mockingo_agent.Capture.Redact.{copied}

abbrev pub hop_by_hop : List Bytes
hop_by_hop =
    codes "connection"
    ∷ codes "keep-alive"
    ∷ codes "proxy-authenticate"
    ∷ codes "proxy-authorization"
    ∷ codes "te"
    ∷ codes "trailer"
    ∷ codes "transfer-encoding"
    ∷ codes "upgrade"
    ∷ []

abbrev pub lowered : List Bytes → List Bytes
lowered = map (λ key. to_lower (trim_space key))

-- The names that the values of the Connection header nominate.
unfoldable pub nominated : List Bytes → List Bytes
nominated [] = []
nominated (value ∷ values) = lowered (split b',' value) ++ nominated values

-- src.Values("Connection")
abbrev pub connection_values : HeaderMap → List Bytes
connection_values src = present (lookup (codes "Connection") src)

abbrev pub blocked : HeaderMap → List Bytes
blocked src = hop_by_hop ++ nominated (connection_values src)

-- The loop over the headers of the source.
unfoldable pub copy_unblocked : List Bytes → HeaderMap → HeaderMap
copy_unblocked names [] = []
copy_unblocked names ((key, values) ∷ src) =
    let rest = copy_unblocked names src in
    if one_of names (to_lower key) then rest else (key, copied values) ∷ rest

unfoldable pub filter_headers : HeaderMap → HeaderMap
filter_headers src = copy_unblocked (blocked src) src
