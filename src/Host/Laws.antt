-- ===== src/Host/Laws.antt =====
-- Which hosts middleware/host/host.go accepts.
use zerohttp.Prelude.{
  ◌-◌, ◌≡◌, refl, sym, ◌∙◌, ◌≢◌, ◌⊎◌, ◌↔◌, inl, inr, Bool, true, false, not, ◌&&◌, ◌||◌, List, [],
  ◌∷◌, ◌++◌, map, if◌then◌else◌, arith, Bool-cases, length,
}
use zerohttp.Text.{Text, codes, text_eq, has_suffix, trim_suffix, to_lower, take}
use zerohttp.Text.Laws.{text_eq_iff, has_suffix_append, suffix_front}
use zerohttp.Http.{Headers, Request, pass, problem}
use zerohttp.Paths.{should_process_middleware}
use zerohttp.Host.{allows, is_valid_host, Config, accepts, handle, host_of, port_of, is_nil}

-- The two hosts are the same but for case, or subdomains are allowed and the first is, but for case,
-- some labels, a dot and the second.
abbrev pub Names : Bool → Text → Text → Type 0
Names subdomains host allowed =
    (to_lower host ≡ to_lower allowed)
    ⊎ ((subdomains ≡ true)
        × (labels : Text) × (to_lower host ≡ labels ++ (codes "." ++ to_lower allowed)))

allows_sound :
    (b : Bool) (host allowed : Text) → allows b host allowed ≡ true → Names b host allowed
unfolding allows
allows_sound b host allowed h = elim (Bool-cases (text_eq (to_lower host) (to_lower allowed))) [
  | inl same ↦ inl ((text_eq_iff _ _).0 same)
  | inr other ↦
      let sub : has_suffix (to_lower host) (codes "." ++ to_lower allowed) ≡ true = ground arith in
      let suffix = codes "." ++ to_lower allowed in
      inr (
        ground arith,
        take (length (to_lower host) - length suffix) (to_lower host),
        suffix_front (to_lower host) suffix sub,
      )
]

allows_complete :
    (b : Bool) (host allowed : Text) → Names b host allowed → allows b host allowed ≡ true
unfolding allows
allows_complete b host allowed (inl e) =
    let same = (text_eq_iff (to_lower host) (to_lower allowed)).1 e in rw same
allows_complete b host allowed (inr (sub, labels, e)) =
    let found : has_suffix (to_lower host) (codes "." ++ to_lower allowed) ≡ true =
      (rw e (has_suffix_append labels (codes "." ++ to_lower allowed))) in
    rw (sub, found) (ground arith)

-- Some allowed host, its trailing dot gone, names the host, its trailing dot gone.
abbrev pub Allowed : Bool → Text → List Text → Type 0
Allowed b host [] = ⊥
Allowed b host (a ∷ allowed) =
    Names b (trim_suffix host (codes ".")) (trim_suffix a (codes ".")) ⊎ Allowed b host allowed

is_valid_host_sound :
    (b : Bool) (host : Text) (l : List Text) → is_valid_host host l b ≡ true → Allowed b host l
unfolding is_valid_host
is_valid_host_sound b host [] h = cc
is_valid_host_sound b host (a ∷ l) h =
    elim (Bool-cases (allows b (trim_suffix host (codes ".")) (trim_suffix a (codes ".")))) [
      | inl hit ↦ inl (allows_sound b _ _ hit)
      | inr miss ↦ inr (is_valid_host_sound b host l (ground arith))
    ]

is_valid_host_complete :
    (b : Bool) (host : Text) (l : List Text) → Allowed b host l → is_valid_host host l b ≡ true
unfolding is_valid_host
is_valid_host_complete b host [] h = absurd h
is_valid_host_complete b host (a ∷ l) (inl n) =
    let hit = allows_complete b (trim_suffix host (codes ".")) (trim_suffix a (codes ".")) n in
    ground arith
is_valid_host_complete b host (a ∷ l) (inr n) = ground (arith, is_valid_host_complete b host l n)

-- `isValidHost` accepts exactly the hosts that an allowed host names. A host that only ends in the
-- letters of an allowed one, with no dot before them, is not among them.
pub is_valid_host_iff :
    (host : Text) (allowed : List Text) (subdomains : Bool)
    → (is_valid_host host allowed subdomains ≡ true) ↔ Allowed subdomains host allowed
is_valid_host_iff host allowed b =
    (is_valid_host_sound b host allowed, is_valid_host_complete b host allowed)

-- What the configuration asks of a request.
abbrev pub Welcome : Config → Request → Type 0
Welcome c r =
    (c.allowed_hosts ≡ [])
    ⊎ ((should_process_middleware r.path c.included_paths c.excluded_paths ≡ false)
        ⊎ ((r.host ≢ [])
            × ((c.strict_port ≡ false) ⊎ (port_of r.host ≡ c.port))
            × Allowed c.allow_subdomains (host_of r.host) (map host_of c.allowed_hosts)))

-- The tests of the handler, as one.
abbrev welcome : Config → Request → Bool
welcome c r =
    is_nil c.allowed_hosts
    || (not (should_process_middleware r.path c.included_paths c.excluded_paths)
        || (not (text_eq r.host []) && accepts c r.host))

handle-welcome :
    (c : Config) (r : Request) (w : Headers)
    → handle c r w ≡ (if welcome c r then pass r w else problem c.status_code c.message w)
unfolding handle
handle-welcome c r w = ground arith

is_nil_iff : (l : List Text) → (is_nil l ≡ true) ↔ (l ≡ [])
is_nil_iff [] = (λ h. refl, λ h. refl)
is_nil_iff (a ∷ l) = (λ h. cc, λ h. cc)

accepts_iff :
    (c : Config) (host : Text)
    → (accepts c host ≡ true) ↔ (
        ((c.strict_port ≡ false) ⊎ (port_of host ≡ c.port))
        × Allowed c.allow_subdomains (host_of host) (map host_of c.allowed_hosts))
unfolding accepts
accepts_iff c host =
    let (sound, complete) =
      is_valid_host_iff (host_of host) (map host_of c.allowed_hosts) c.allow_subdomains in
    (
      λ h. (ground (arith, text_eq_iff (port_of host) c.port), sound (ground arith)),
      λ p. ground (arith, text_eq_iff (port_of host) c.port, complete p.1),
    )

welcome_sound : (c : Config) (r : Request) → welcome c r ≡ true → Welcome c r
welcome_sound c r h = elim (Bool-cases (is_nil c.allowed_hosts)) [
  | inl open_to_all ↦ inl ((is_nil_iff c.allowed_hosts).0 open_to_all)
  | inr some_hosts ↦
      elim (Bool-cases (should_process_middleware r.path c.included_paths c.excluded_paths)) [
        | inr skipped ↦ inr (inl skipped)
        | inl looked ↦
            let (port, allowed) = (accepts_iff c r.host).0 (ground arith) in
            inr (inr (λ e. ground (arith, text_eq_iff r.host []), port, allowed))
      ]
]

welcome_complete : (c : Config) (r : Request) → Welcome c r → welcome c r ≡ true
welcome_complete c r (inl e) = let open_to_all = (is_nil_iff c.allowed_hosts).1 e in rw open_to_all
welcome_complete c r (inr (inl skipped)) = ground arith
welcome_complete c r (inr (inr (named, port, allowed))) =
    let accepted = (accepts_iff c r.host).1 (port, allowed) in
    elim (Bool-cases (text_eq r.host [])) [
      | inl empty ↦ absurd (named ((text_eq_iff r.host []).0 empty))
      | inr full ↦ rw (full, accepted) (ground arith)
    ]

-- The wrapped handler gets the request, unchanged, exactly when no hosts are configured, the
-- middleware does not apply to the path, or the request names a host, with the configured port where
-- that is strict, which is allowed. In every other case the configured problem is the answer.
pub handle_iff :
    (c : Config) (r : Request) (w : Headers)
    → ((handle c r w ≡ pass r w) ↔ Welcome c r)
      × ((handle c r w ≡ problem c.status_code c.message w) ↔ (¬ Welcome c r))
handle_iff c r w =
    let step = handle-welcome c r w in
    (
      (
        λ h. elim (Bool-cases (welcome c r)) [
          | inl yes_ ↦ welcome_sound c r yes_
          | inr no_ ↦ absurd (let e = sym h ∙ step in let n = no_ in ground arith)
        ],
        λ p. step ∙ (rw (welcome_complete c r p)),
      ),
      (
        λ h p. let e = sym h ∙ step in let t = welcome_complete c r p in ground arith,
        λ n. elim (Bool-cases (welcome c r)) [
          | inl yes_ ↦ absurd (n (welcome_sound c r yes_))
          | inr no_ ↦ step ∙ (rw no_)
        ],
      ),
    )
