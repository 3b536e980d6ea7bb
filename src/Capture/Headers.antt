-- ===== src/Capture/Headers.antt =====
-- http.Header: the values that the capture code reads of a header, and `strings.ToLower` of a name.
use mockingo_agent.Base.{Bool, Option, none, some, List, [], ◌∷◌, Bytes, bytes_eq, some_of}
use mockingo_agent.Base.Maps.{lookup}
use mockingo_agent.Protocol.Message.{HeaderMap}

abbrev first_value : Option (Option (List Bytes)) → Bytes
first_value none = []
first_value (some none) = []
first_value (some (some [])) = []
first_value (some (some (v ∷ vs))) = v

-- h.Get(key), for a key in canonical form
unfoldable pub header_get : Bytes → HeaderMap → Bytes
header_get key h = first_value (lookup key h)

-- Whether a text is one of a set of texts.
abbrev pub one_of : List Bytes → Bytes → Bool
one_of names s = some_of (bytes_eq s) names

-- The values at a key of a map of headers: none if the key is missing or its slice is nil.
abbrev pub present : Option (Option (List Bytes)) → List Bytes
present none = []
present (some none) = []
present (some (some values)) = values
