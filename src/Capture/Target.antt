-- ===== src/Capture/Target.antt =====
-- internal/dependencycapture/proxy.go: the target of a proxied request.
use mockingo_agent.Base.{
  ℕ, Bool, false, ◌||◌, ◌==◌, Option, none, some, [], ◌∷◌, Bytes, codes, is_empty, bytes_eq, has,
  contains_any, to_lower, trim, trim_suffix, ℤ, pos, lt_int, if◌then◌else◌, ◌≡◌, refl, arith,
  Bool-cases, inl, inr,
}

abbrev pub is_bracket : ℕ → Bool
is_bracket c = (c == b'[') || (c == b']')

-- strings.ToLower(strings.TrimSuffix(strings.Trim(host, "[]"), "."))
unfoldable pub normalize_hostname : Bytes → Bytes
normalize_hostname host = to_lower (trim_suffix b'.' (trim is_bracket host))

-- net.SplitHostPort and strconv.Atoi.
pub record Authorities : Type 0 where
  pub split_host_port : Bytes → Option (Bytes × Bytes)
  pub atoi : Bytes → Option ℤ

abbrev pub default_port : Bytes → ℤ
default_port scheme = if bytes_eq scheme (codes "https") then pos 443 else pos 80

abbrev pub in_port_range : ℤ → Option ℤ
in_port_range parsed =
    if lt_int parsed (pos 1) || lt_int (pos 65535) parsed then none else some parsed

abbrev pub parse_port : Option ℤ → Option ℤ
parse_port none = none
parse_port (some parsed) = in_port_range parsed

abbrev pub with_port : Bytes → Option ℤ → Option (Bytes × ℤ)
with_port host none = none
with_port host (some port) = if is_empty host then none else some (host, port)

abbrev pub with_parts : Authorities → Bytes → Bytes → Bytes → Option (Bytes × ℤ)
with_parts lib scheme host port_text =
    if is_empty port_text
    then with_port (normalize_hostname host) (some (default_port scheme))
    else with_port (normalize_hostname host) (parse_port (lib.atoi port_text))

abbrev pub split_authority :
    Authorities → Bytes → Bytes → Option (Bytes × Bytes) → Option (Bytes × ℤ)
split_authority lib authority scheme (some (host, port_text)) = with_parts lib scheme host port_text
split_authority lib authority scheme none =
    if has b':' authority then none else with_parts lib scheme authority []

unfoldable pub target_host_port : Authorities → Bytes → Bytes → Option (Bytes × ℤ)
target_host_port lib authority scheme =
    if is_empty authority || contains_any authority (codes "/@ \t\r\n")
    then none
    else split_authority lib authority scheme (lib.split_host_port authority)

-- A host and a port that a request can be sent to.
abbrev pub Reachable : Option (Bytes × ℤ) → Type 0
Reachable none = Unit
Reachable (some (host, port)) =
    (is_empty host ≡ false) × (lt_int port (pos 1) ≡ false) × (lt_int (pos 65535) port ≡ false)

with_port-Reachable :
    (host : Bytes) (port : ℤ)
    → lt_int port (pos 1) ≡ false
    → lt_int (pos 65535) port ≡ false
    → Reachable (with_port host (some port))
with_port-Reachable [] port lo hi = tt
with_port-Reachable (c ∷ host) port lo hi = (refl, lo, hi)

parse_port-Reachable : (host : Bytes) (o : Option ℤ) → Reachable (with_port host (parse_port o))
parse_port-Reachable host none = tt
parse_port-Reachable host (some n) = elim (Bool-cases (lt_int n (pos 1) || lt_int (pos 65535) n)) [
  | inl bad ↦ rw bad tt
  | inr good ↦ rw good (with_port-Reachable host n (ground arith) (ground arith))
]

with_parts-Reachable :
    (lib : Authorities) (scheme host port_text : Bytes)
    → Reachable (with_parts lib scheme host port_text)
with_parts-Reachable lib scheme host (c ∷ port_text) =
    parse_port-Reachable (normalize_hostname host) (lib.atoi (c ∷ port_text))
with_parts-Reachable lib scheme host [] = elim (Bool-cases (bytes_eq scheme (codes "https"))) [
  | inl secure ↦ rw secure (with_port-Reachable (normalize_hostname host) (pos 443) refl refl)
  | inr plain ↦ rw plain (with_port-Reachable (normalize_hostname host) (pos 80) refl refl)
]

split_authority-Reachable :
    (lib : Authorities) (authority scheme : Bytes) (o : Option (Bytes × Bytes))
    → Reachable (split_authority lib authority scheme o)
split_authority-Reachable lib authority scheme (some (host, port_text)) =
    with_parts-Reachable lib scheme host port_text
split_authority-Reachable lib authority scheme none = elim (Bool-cases (has b':' authority)) [
  | inl colon ↦ rw colon tt
  | inr plain ↦ rw plain (with_parts-Reachable lib scheme authority [])
]

-- Whatever the authority of a proxied request, its target is refused, or has a host that is not empty
-- and a port between 1 and 65535.
pub target_host_port-Reachable :
    (lib : Authorities) (authority scheme : Bytes)
    → Reachable (target_host_port lib authority scheme)
unfolding target_host_port
target_host_port-Reachable lib authority scheme =
    elim (Bool-cases (is_empty authority || contains_any authority (codes "/@ \t\r\n"))) [
      | inl bad ↦ rw bad tt
      | inr good ↦
          rw good (split_authority-Reachable lib authority scheme (lib.split_host_port authority))
    ]
