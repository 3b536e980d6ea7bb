-- ===== src/Capture/HopHeaders.antt =====
-- internal/dependencycapture/proxy.go: filterHopHeaders, and what it and the handlers use of
-- http.Header: keys in canonical form, Del, Set and Add.
pub mod Laws
pub mod Copied
pub mod Listed
use mockingo_agent.Base.{
  ℕ, ◌+◌, ◌-◌, Bool, true, false, Option, none, some, List, [], ◌∷◌, ◌++◌, map, Bytes, codes,
  is_lower, is_upper, all_of, split, trim_space, ◌==◌, if◌then◌else◌,
}
use mockingo_agent.Base.Maps.{lookup, insert, erase}
use mockingo_agent.Protocol.Message.{HeaderMap}
use mockingo_agent.Protocol.Text.{is_token_byte}
use mockingo_agent.Capture.Headers.{present}
use mockingo_agent.ForwardHeaders.{connection_values}

-- textproto.CanonicalMIMEHeaderKey: capitals at the start and after a hyphen, small letters
-- elsewhere; a text that is no token stays as it is.
abbrev canonical_byte : Bool → ℕ → ℕ
canonical_byte true c = if is_lower c then c - 32 else c
canonical_byte false c = if is_upper c then c + 32 else c

unfoldable pub canonical_from : Bool → Bytes → Bytes
canonical_from upper [] = []
canonical_from upper (c ∷ s) = canonical_byte upper c ∷ canonical_from (c == b'-') s

unfoldable pub canonical_key : Bytes → Bytes
canonical_key name = if all_of is_token_byte name then canonical_from true name else name

-- h.Del for each of the names.
unfoldable pub del_all : List Bytes → HeaderMap → HeaderMap
del_all [] h = h
del_all (name ∷ names) h = del_all names (erase (canonical_key name) h)

-- h.Set
abbrev pub set_header : Bytes → Bytes → HeaderMap → HeaderMap
set_header name value h = insert (canonical_key name) (some (value ∷ [])) h

-- h.Add
abbrev pub add_header : Bytes → Bytes → HeaderMap → HeaderMap
add_header name value h =
    insert (canonical_key name) (some (present (lookup (canonical_key name) h) ++ (value ∷ []))) h

unfoldable pub add_values : Bytes → List Bytes → HeaderMap → HeaderMap
add_values name [] h = h
add_values name (value ∷ values) h = add_values name values (add_header name value h)

-- The loop that copies headers to those of the response that is written.
unfoldable pub copy_headers : HeaderMap → HeaderMap → HeaderMap
copy_headers [] h = h
copy_headers ((name, values) ∷ source) h =
    copy_headers source (add_values name (present (some values)) h)

-- The names that the values of the Connection header list.
unfoldable pub connection_names : List Bytes → List Bytes
connection_names [] = []
connection_names (connection ∷ connections) =
    map trim_space (split b',' connection) ++ connection_names connections

abbrev pub hop_names : List Bytes
hop_names =
    codes "Connection"
    ∷ codes "Proxy-Connection"
    ∷ codes "Keep-Alive"
    ∷ codes "Proxy-Authenticate"
    ∷ codes "Proxy-Authorization"
    ∷ codes "Te"
    ∷ codes "Trailer"
    ∷ codes "Transfer-Encoding"
    ∷ codes "Upgrade"
    ∷ []

unfoldable pub filter_hop_headers : HeaderMap → HeaderMap
filter_hop_headers source =
    del_all hop_names (del_all (connection_names (connection_values source)) source)
