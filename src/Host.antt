-- ===== src/Host.antt =====
-- middleware/host/host.go: the handler of `New` on a configuration that passes its checks, the
-- normalisation of the allowed hosts, and `isValidHost`. `split_host_port` is Go's
-- `net.SplitHostPort`, `none` where it returns an error. The port is given as the text that
-- `strconv.Itoa` makes of it.
pub mod Laws
pub mod Tests
use zerohttp.Prelude.{
  ℕ, zero, suc, ◌-◌, Bool, true, false, not, ◌&&◌, ◌||◌, List, [], ◌∷◌, ◌++◌, map, Option, none,
  some, any, if◌then◌else◌, nat_beq, length, drop,
}
use zerohttp.Text.{
  Text, codes, text_eq, has_prefix, has_suffix, trim_suffix, to_lower, take, before,
}
use zerohttp.Http.{Headers, Request, Outcome, pass, problem}
use zerohttp.Paths.{should_process_middleware}

abbrev pub has_byte : ℕ → Text → Bool
has_byte c s = any (nat_beq c) s

-- The text before and after the last occurrence of a byte.
unfoldable pub cut_last : ℕ → Text → Option (Text × Text)
cut_last c [] = none
cut_last c (a ∷ s) = elim (cut_last c s) [
  | some (front, back) ↦ some (a ∷ front, back)
  | none ↦ if nat_beq a c then some ([], s) else none
]

-- `[host]:port`, of which the text after the opening bracket is given.
unfoldable pub split_brackets : Text → Option (Text × Text)
split_brackets s =
    let host = before s b']' in
    elim (drop (length host) s) [
      | [] ↦ none
      | close ∷ rest ↦ elim rest [
        | [] ↦ none
        | colon ∷ port ↦
            if nat_beq colon b':'
              && not (has_byte b':' port || has_byte b'[' s || has_byte b']' port)
            then some (host, port)
            else none
      ]
    ]

unfoldable pub split_host_port : Text → Option (Text × Text)
unfolding split_brackets cut_last
split_host_port [] = none
split_host_port (a ∷ s) =
    if nat_beq a b'[' then split_brackets s else elim (cut_last b':' (a ∷ s)) [
      | none ↦ none
      | some (host, port) ↦
          if has_byte b':' host || (has_byte b'[' (a ∷ s) || has_byte b']' (a ∷ s))
          then none
          else some (host, port)
    ]

abbrev pub bracketed : Text → Bool
bracketed h = has_prefix h (codes "[") && has_suffix h (codes "]")

-- `h[1 : len(h)-1]`.
abbrev pub inside : Text → Text
inside h = take (length h - 2) (drop 1 h)

-- A host without its port, and without the brackets of an IPv6 address.
unfoldable pub host_of : Text → Text
host_of h = elim (split_host_port h) [
  | some (host, port) ↦ host
  | none ↦ if bracketed h then inside h else h
]

unfoldable pub port_of : Text → Text
port_of h = elim (split_host_port h) [ some (host, port) ↦ port | none ↦ [] ]

unfoldable pub allows : Bool → Text → Text → Bool
allows allow_subdomains host allowed =
    text_eq (to_lower host) (to_lower allowed)
    || (allow_subdomains && has_suffix (to_lower host) (codes "." ++ to_lower allowed))

unfoldable pub is_valid_host : Text → List Text → Bool → Bool
unfolding allows
is_valid_host host allowed_hosts allow_subdomains =
    any (λ a. allows allow_subdomains (trim_suffix host (codes ".")) (trim_suffix a (codes ".")))
      allowed_hosts

pub record Config : Type 0 where
  pub allowed_hosts : List Text
  pub allow_subdomains : Bool
  pub strict_port : Bool
  pub port : Text
  pub status_code : ℕ
  pub message : Text
  pub excluded_paths : List Text
  pub included_paths : List Text

-- The panics of `New`: a strict port that is missing or standard.
unfoldable pub config_panics : Config → Bool
config_panics c =
    c.strict_port
    && (text_eq c.port (codes "0") || (text_eq c.port (codes "80") || text_eq c.port (codes "443")))

abbrev pub is_nil : List Text → Bool
is_nil [] = true
is_nil (h ∷ hs) = false

module _ (c : Config) where
  -- The checks on a host that is not empty.
  unfoldable pub accepts : Text → Bool
  accepts host =
      not (c.strict_port && not (text_eq (port_of host) c.port))
      && is_valid_host (host_of host) (map host_of c.allowed_hosts) c.allow_subdomains

  unfoldable pub handle : Request → Headers → Outcome
  handle r w =
      if is_nil c.allowed_hosts
      then pass r w
      else if not (should_process_middleware r.path c.included_paths c.excluded_paths)
      then pass r w
      else if text_eq r.host []
      then problem c.status_code c.message w
      else if accepts r.host
      then pass r w
      else problem c.status_code c.message w
